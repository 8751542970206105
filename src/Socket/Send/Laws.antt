-- ===== src/Socket/Send/Laws.antt =====
-- What the sending functions of src/Socket.cpp hand to the system, and what they report.
use agssock.Base.{
  ℕ, ◌<◌, ◌≡◌, refl, ap, sym, ◌∙◌, ◌≢◌, Bool, true, false, Option, none, some, List, ◌++◌, length,
  take, drop, arith, if◌then◌else◌,
}
use mathlib.Core.Path.{subst}
use agssock.Errors.{would_block}
use agssock.Api.Os.{Os, Result, failed}
use agssock.SockAddr.{SockAddr}
use agssock.Objects.{Socket, update}
use agssock.World.{World, store}
use agssock.Socket.Send.{error_of, send_impl, sendto_impl}
use agssock.Socket.Send.Loop.{Sends, Ends, all_taken, part_taken, send_loop_lem}

-- What a call of a sending function does with a text, over the system's call that it makes, to the
-- bytes that the system has taken and to the socket: it is true if the text is taken whole, and then
-- the error is that of the `errno` that stood before, and false if a proper part of it is, and then the
-- last call was for the rest and has failed, and the error is that of this failure. An error that says
-- to try again is set to zero.
pub data Sent {K : Type 0} (taken : K → List ℕ) (call : List ℕ → K → Result ℕ × K) (p : ℕ)
    (sock : Socket) (text : List ℕ) (w w' : World K) : Bool → Type 0 where
  whole :
      taken w'.kernel ≡ taken w.kernel ++ text
      → w'.sockets
        ≡ update w.sockets p
            (some (record sock { error = if would_block w.errno then 0 else w.errno }))
      → Sent taken call p sock text w w' true
  part :
      (m e : ℕ) (k : K)
      → m < length text
      → e ≢ 0
      → call (drop m text) k ≡ (failed e, w'.kernel)
      → taken w'.kernel ≡ taken w.kernel ++ take m text
      → w'.sockets
        ≡ update w.sockets p (some (record sock { error = if would_block e then 0 else e }))
      → Sent taken call p sock text w w' false

Ends-Sent :
    {K : Type 0} (taken : K → List ℕ) (call : List ℕ → K → Result ℕ × K) (p : ℕ) (sock : Socket)
    (text : List ℕ) (w w₁ : World K) (b : Bool)
    → Ends taken call text w w₁ b
    → w₁.sockets ≡ w.sockets
    → Sent taken call p sock text w (store w₁ p (record sock { error = error_of w₁.errno })) b
Ends-Sent taken call p sock text w w₁ _ (all_taken t e) same = whole t (rw (same, e) refl)
Ends-Sent taken call p sock text w w₁ _ (part_taken m k less t e last) same =
    part m w₁.errno k less e last t (rw same refl)

-- What a call gave is what it gives.
same_run :
    {A : Type 0} (P : A → Type 0) (o : Option A) (a b : A) → o ≡ some a → o ≡ some b → P a → P b
same_run P o a b e e' h = subst P (ap (λ u. elim u [ none ↦ a | some c ↦ c ]) (sym e ∙ e')) h

updated : (f : ℕ → Option Socket) (p : ℕ) (o : Option Socket) → update f p o p ≡ o
updated f p o = ground arith

-- A text of which a part is taken, and then the whole by a second call.
part_and_whole :
    {K : Type 0} (taken : K → List ℕ) (call call' : List ℕ → K → Result ℕ × K) (p : ℕ)
    (sock sock' : Socket) (text : List ℕ) (w w' w'' : World K)
    → Sent taken call p sock text w w' false
    → Sent taken call' p sock' text w' w'' true
    → (m : ℕ) × (m < length text) × (taken w''.kernel ≡ (taken w.kernel ++ take m text) ++ text)
part_and_whole taken call call' p sock sock' text w w' w'' (part m e k less ne last t s)
      (whole t' s') =
    (m, less, t' ∙ ap (λ u. u ++ text) t)

-- A call leaves the descriptor of the socket.
Sent-id :
    {K : Type 0} (taken : K → List ℕ) (call : List ℕ → K → Result ℕ × K) (p : ℕ) (sock : Socket)
    (text : List ℕ) (w w' : World K) (b : Bool)
    → Sent taken call p sock text w w' b
    → (sock' : Socket) × (w'.sockets p ≡ some sock') × (sock'.id ≡ sock.id)
Sent-id taken call p sock text w w' _ (whole t s) = (
  record sock { error = error_of w.errno },
  rw s (updated w.sockets p (some (record sock { error = error_of w.errno }))),
  refl,
)
Sent-id taken call p sock text w w' _ (part m e k less ne last t s) = (
  record sock { error = error_of e },
  rw s (updated w.sockets p (some (record sock { error = error_of e }))),
  refl,
)

module _ {K : Type 0} (os : Os K) (taken : K → List ℕ) where
  -- `send_impl` returns on every text if the system's `send` takes at least one byte of a text that
  -- is not empty, from its front, or fails and takes none: with true if the text is taken whole, with
  -- the error of the `errno` that stood before, and with false if a proper part is taken, where the
  -- last `send` was for the rest and has failed, with the error of that failure. An error that says to
  -- try again is set to zero.
  pub send_impl-Sent :
      (p : ℕ) (sock : Socket) (text : List ℕ) (w : World K)
      → w.sockets p ≡ some sock
      → Sends taken (os.send sock.id)
      → (b : Bool) × (w' : World K) × (send_impl os p text w ≡ some (b, w'))
        × Sent taken (os.send sock.id) p sock text w w' b
  unfolding send_impl
  send_impl-Sent p sock text w at laws =
      let (b, w₁, run, ends, same) =
        send_loop_lem taken (os.send sock.id) laws (length text) text w (omega arith) in
      (
        b,
        store w₁ p (record sock { error = error_of w₁.errno }),
        rw (at, send_impl) (rw run refl),
        Ends-Sent taken (os.send sock.id) p sock text w w₁ b ends same,
      )

  -- `sendto_impl` does so over the system's `sendto` with the bytes of the address object.
  pub sendto_impl-Sent :
      (p addr : ℕ) (sock : Socket) (target : SockAddr) (text : List ℕ) (w : World K)
      → w.sockets p ≡ some sock
      → w.addrs addr ≡ some target
      → Sends taken (os.send_to sock.id target.bytes)
      → (b : Bool) × (w' : World K) × (sendto_impl os p addr text w ≡ some (b, w'))
        × Sent taken (os.send_to sock.id target.bytes) p sock text w w' b
  unfolding sendto_impl
  sendto_impl-Sent p addr sock target text w at live laws =
      let (b, w₁, run, ends, same) =
        send_loop_lem taken (os.send_to sock.id target.bytes) laws (length text) text w
          (omega arith) in
      (
        b,
        store w₁ p (record sock { error = error_of w₁.errno }),
        rw (at, sendto_impl) (rw (live, run) refl),
        Ends-Sent taken (os.send_to sock.id target.bytes) p sock text w w₁ b ends same,
      )

  -- A script that sends a text again after `send_impl` said false, as the comment in the source says
  -- to do when the error is zero, and then hears true, has had a proper prefix of it sent before the
  -- whole text.
  pub send_impl_again :
      (p : ℕ) (sock : Socket) (text : List ℕ) (w w' w'' : World K)
      → w.sockets p ≡ some sock
      → Sends taken (os.send sock.id)
      → send_impl os p text w ≡ some (false, w')
      → send_impl os p text w' ≡ some (true, w'')
      → (m : ℕ) × (m < length text) × (taken w''.kernel ≡ (taken w.kernel ++ take m text) ++ text)
  send_impl_again p sock text w w' w'' at laws first again =
      let sent = given p sock text w w' false at laws first in
      let (sock', at', same) = Sent-id taken (os.send sock.id) p sock text w w' false sent in
      let laws' = subst (λ d. Sends taken (os.send d)) (sym same) laws in
      part_and_whole taken (os.send sock.id) (os.send sock'.id) p sock sock' text w w' w'' sent
        (given p sock' text w' w'' true at' laws' again)
    where
      given :
          (p : ℕ) (sock : Socket) (text : List ℕ) (w w' : World K) (b : Bool)
          → w.sockets p ≡ some sock
          → Sends taken (os.send sock.id)
          → send_impl os p text w ≡ some (b, w')
          → Sent taken (os.send sock.id) p sock text w w' b
      given p sock text w w' b at laws run =
          let (b₁, v₁, run₁, sent₁) = send_impl-Sent p sock text w at laws in
          same_run (λ r. Sent taken (os.send sock.id) p sock text w r.1 r.0) (send_impl os p text w)
            (b₁, v₁) (b, w') run₁ run sent₁
