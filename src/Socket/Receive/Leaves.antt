-- ===== src/Socket/Receive/Leaves.antt =====
-- What is left of the socket when `Socket_Recv` or `Socket_RecvData` of src/Socket.cpp has found
-- nothing, or taken a chunk.
use agssock.Base.{
  ℕ, ◌≡◌, refl, Bool, true, false, ◌&&◌, Option, none, some, List, is_empty, ◌==◌, if◌then◌else◌,
  Bool-cases, inl, inr,
}
use agssock.Api.Os.{Os}
use agssock.Objects.{Socket, update, sock_stream}
use agssock.Buffer.{Buffer, empty}
use agssock.World.{World, Call}
use agssock.Socket.Receive.{Reply, recv_nothing, recv_chunk, recv_impl, returned}

-- The socket after a call that found nothing, and after one that took a chunk.
abbrev pub nothing_socket : Socket → Socket
nothing_socket sock = record sock {
  error = sock.incoming.error;
  id = if sock.incoming.error == 0 then sock.id else none;
}

abbrev pub chunk_socket : Socket → List ℕ × Buffer → Socket
chunk_socket sock (text, rest) = record sock {
  incoming = rest;
  error = 0;
  id = if is_empty text && (sock.type == sock_stream) then none else sock.id;
}

-- One socket of the store has changed, and the pool has not.
abbrev pub Leaves : {K : Type 0} → World K → ℕ → Socket → World K → Type 0
Leaves w p sock w' = (w'.sockets ≡ update w.sockets p (some sock)) × (w'.pool ≡ w.pool)

pub returned-Leaves :
    {K : Type 0} (call : List ℕ → Call) (reply : Reply) (w : World K) (p : ℕ) (sock : Socket)
    (w' : World K)
    → Leaves w p sock w'
    → Leaves w p sock (returned call reply w')
returned-Leaves call none w p sock w' l = l
returned-Leaves call (some text) w p sock w' l = l

pub returned-kernel :
    {K : Type 0} (call : List ℕ → Call) (reply : Reply) (w : World K)
    → (returned call reply w).kernel ≡ w.kernel
returned-kernel call none w = refl
returned-kernel call (some text) w = refl

module _ {K : Type 0} (os : Os K) where
  pub recv_nothing-Leaves :
      (w : World K) (p : ℕ) (sock : Socket)
      → let r = recv_nothing os w p sock in (r.0 ≡ none) × Leaves w p (nothing_socket sock) r.1
  unfolding recv_nothing
  recv_nothing-Leaves w p sock = elim (Bool-cases (sock.incoming.error == 0)) [
    | inl fine ↦ rw fine (refl, (refl, refl))
    | inr broken ↦ rw broken (refl, (refl, refl))
  ]

  pub recv_chunk-Leaves :
      (w : World K) (p : ℕ) (sock : Socket) (r : List ℕ × Buffer)
      → let t = recv_chunk os w p sock r in (t.0 ≡ some r.0) × Leaves w p (chunk_socket sock r) t.1
  unfolding recv_chunk
  recv_chunk-Leaves w p sock (text, rest) =
      elim (Bool-cases (is_empty text && (sock.type == sock_stream))) [
        | inl closed ↦ rw closed (refl, (refl, refl))
        | inr more ↦ rw more (refl, (refl, refl))
      ]

  -- A socket that becomes invalid has had its descriptor closed.
  pub recv_nothing-kernel :
      (w : World K) (p : ℕ) (sock : Socket)
      → (recv_nothing os w p sock).1.kernel
        ≡ (if sock.incoming.error == 0 then w.kernel else (os.close sock.id w.kernel).1)
  unfolding recv_nothing
  recv_nothing-kernel w p sock = elim (Bool-cases (sock.incoming.error == 0)) [
    | inl fine ↦ rw fine refl
    | inr broken ↦ rw broken refl
  ]

  pub recv_chunk-kernel :
      (w : World K) (p : ℕ) (sock : Socket) (r : List ℕ × Buffer)
      → (recv_chunk os w p sock r).1.kernel ≡ (
          if is_empty r.0 && (sock.type == sock_stream)
          then (os.close sock.id w.kernel).1
          else w.kernel)
  unfolding recv_chunk
  recv_chunk-kernel w p sock (text, rest) =
      elim (Bool-cases (is_empty text && (sock.type == sock_stream))) [
        | inl closed ↦ rw closed refl
        | inr more ↦ rw more refl
      ]

  pub recv_impl-nothing :
      (extract : Buffer → Bool → Option (List ℕ × Buffer)) (w : World K) (p : ℕ) (sock : Socket)
      → w.sockets p ≡ some sock
      → empty sock.incoming ≡ true
      → recv_impl os extract p w ≡ some (recv_nothing os w p sock)
  unfolding recv_impl
  recv_impl-nothing extract w p sock at e = rw (at, recv_impl) (rw e refl)

  pub recv_impl-chunk :
      (extract : Buffer → Bool → Option (List ℕ × Buffer)) (w : World K) (p : ℕ) (sock : Socket)
      (r : List ℕ × Buffer)
      → w.sockets p ≡ some sock
      → empty sock.incoming ≡ false
      → extract sock.incoming (sock.type == sock_stream) ≡ some r
      → recv_impl os extract p w ≡ some (recv_chunk os w p sock r)
  unfolding recv_impl
  recv_impl-chunk extract w p sock r at e x = rw (at, recv_impl) (rw (e, x) refl)
