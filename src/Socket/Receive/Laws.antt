-- ===== src/Socket/Receive/Laws.antt =====
-- What `Socket_Recv` and `Socket_RecvData` of src/Socket.cpp return, and what they leave of the
-- socket.
use agssock.Base.{
  ℕ, ◌≡◌, refl, sym, ap, ◌∙◌, ◌≢◌, Bool, true, false, ◌&&◌, Option, none, some, List, is_empty,
  ◌==◌, if◌then◌else◌, arith, Bool-cases, inl, inr,
}
use mathlib.Core.Path.{subst}
use agssock.Api.Os.{Os}
use agssock.Objects.{Socket, sock_stream}
use agssock.Buffer.{Buffer, empty, extract_string, extract_data}
use agssock.Buffer.Stream.{
  Stream, Holds, nothing, mark, some_text, text_mark, take_string, take_all_text, Agrees,
  string_refines, data_refines,
}
use agssock.World.{World, script_string, register_data}
use agssock.Socket.Receive.{Reply, recv_nothing, recv_chunk, recv_impl, recv, recv_data, returned}
use agssock.Socket.Receive.Leaves.{
  returned-Leaves, returned-kernel, recv_nothing-kernel, recv_chunk-kernel, recv_nothing-Leaves,
  recv_chunk-Leaves, recv_impl-nothing, recv_impl-chunk, nothing_socket, chunk_socket, Leaves,
}

-- What a read of the socket's stream asks of the function: a reply, and the socket after it.
abbrev pub Received : Option (List ℕ × Stream) → Socket → Reply → Socket → Type 0
Received none sock reply sock' =
    (reply ≡ none)
    × (sock'.error ≡ sock.incoming.error)
    × (sock'.id ≡ (if sock.incoming.error == 0 then sock.id else none))
    × (sock'.incoming ≡ sock.incoming)
Received (some (text, s)) sock reply sock' =
    (reply ≡ some text)
    × (sock'.error ≡ 0)
    × (sock'.id ≡ (if is_empty text then none else sock.id))
    × (sock'.incoming.error ≡ sock.incoming.error)
    × Holds sock'.incoming.queue s

-- The kernel after a call: the descriptor has been closed if the read loop has left an error with
-- nothing to read, or if an empty text was read, and else nothing was asked of it.
abbrev pub Kernel : {K : Type 0} → Os K → Option (List ℕ × Stream) → Socket → K → K → Type 0
Kernel os none sock k k' = k' ≡ (if sock.incoming.error == 0 then k else (os.close sock.id k).1)
Kernel os (some (text, s)) sock k k' = k' ≡ (if is_empty text then (os.close sock.id k).1 else k)

agree_some :
    (e : ℕ) (o : Option (List ℕ × Buffer)) (t : Option (List ℕ × Stream))
    → Agrees e o t
    → t ≢ none
    → (r : List ℕ × Buffer) × (u : List ℕ × Stream) × (o ≡ some r)
      × (t ≡ some u)
      × (r.0 ≡ u.0)
      × (r.1.error ≡ e)
      × Holds r.1.queue u.1
agree_some e none none a ne = absurd (ne refl)
agree_some e none (some u) a ne = absurd a
agree_some e (some r) none a ne = absurd a
agree_some e (some r) (some u) a ne = (r, u, refl, refl, a.0, a.1, a.2)

-- A queue is empty exactly when its stream has nothing to read.
Holds-nothing :
    {q : List (List ℕ)} {s : Stream}
    → Holds q s
    → is_empty q ≡ true
    → (take_string s ≡ none) × (take_all_text s ≡ none)
unfolding take_string take_all_text
Holds-nothing nothing e = (refl, refl)
Holds-nothing mark e = cc
Holds-nothing (some_text x xs) e = cc
Holds-nothing (text_mark x xs) e = cc

Holds-something :
    {q : List (List ℕ)} {s : Stream}
    → Holds q s
    → is_empty q ≡ false
    → (take_string s ≢ none) × (take_all_text s ≢ none)
unfolding take_string take_all_text
Holds-something nothing e = cc
Holds-something mark e = (λ h. cc, λ h. cc)
Holds-something (some_text x xs) e = (λ h. cc, λ h. cc)
Holds-something (text_mark x xs) e = (λ h. cc, λ h. cc)

and_true : (b : Bool) → (b && true) ≡ b
and_true true = refl
and_true false = refl

module _ {K : Type 0} (os : Os K) where
  -- The two functions as one, over what takes a chunk from the buffer.
  recv_impl-Received :
      (extract : Buffer → Bool → Option (List ℕ × Buffer)) (w : World K) (p : ℕ) (sock : Socket)
      (s : Stream) (t : Option (List ℕ × Stream))
      → w.sockets p ≡ some sock
      → sock.type ≡ sock_stream
      → Holds sock.incoming.queue s
      → (empty sock.incoming ≡ true → t ≡ none)
      → (empty sock.incoming ≡ false
          → (r : List ℕ × Buffer) × (u : List ℕ × Stream) × (extract sock.incoming
                (sock.type == sock_stream)
              ≡ some r)
            × (t ≡ some u)
            × (r.0 ≡ u.0)
            × (r.1.error ≡ sock.incoming.error)
            × Holds r.1.queue u.1)
      → (reply : Reply) × (w' : World K) × (sock' : Socket) × (recv_impl os extract p w
          ≡ some (reply, w'))
        × Received t sock reply sock'
        × Leaves w p sock' w'
        × Kernel os t sock w.kernel w'.kernel
  recv_impl-Received extract w p sock s t at stream held none_case some_case =
      elim (Bool-cases (empty sock.incoming)) [
        | inl e ↦
            let n = recv_nothing-Leaves os w p sock in
            (
              (recv_nothing os w p sock).0,
              (recv_nothing os w p sock).1,
              nothing_socket sock,
              recv_impl-nothing os extract w p sock at e,
              rw (none_case e) (n.0, refl, refl, refl),
              n.1,
              rw (none_case e) (recv_nothing-kernel os w p sock),
            )
        | inr e ↦
            let (r, u, x, et, text, err, holds) = some_case e in
            let c = recv_chunk-Leaves os w p sock r in
            (
              (recv_chunk os w p sock r).0,
              (recv_chunk os w p sock r).1,
              chunk_socket sock r,
              recv_impl-chunk os extract w p sock r at e x,
              rw et (c.0 ∙ ap some text, refl, id_of r.0 u.0 text, err, holds),
              c.1,
              rw et (recv_chunk-kernel os w p sock r ∙ kernel_of r.0 u.0 text),
            )
      ]
    where
      id_of :
          (a b : List ℕ)
          → a ≡ b
          → (if is_empty a && (sock.type == sock_stream) then none else sock.id)
            ≡ (if is_empty b then none else sock.id)
      id_of a b e = ground arith

      kernel_of :
          (a b : List ℕ)
          → a ≡ b
          → (if is_empty a && (sock.type == sock_stream)
              then (os.close sock.id w.kernel).1
              else w.kernel)
            ≡ (if is_empty b then (os.close sock.id w.kernel).1 else w.kernel)
      kernel_of a b e =
          let st : (sock.type == sock_stream) ≡ true = ground arith in
          rw (e, st, and_true (is_empty b)) refl

  -- `Socket_Recv` on a streaming socket whose buffer holds a stream reads one string from it. With
  -- nothing to read it returns null and passes on the error of the read loop, which closes the
  -- socket; else it returns the string, clears the error, and closes the socket if the string is
  -- empty. A socket is closed by the system's `close` with its descriptor and is invalid then;
  -- without that nothing is asked of the system. Other sockets and the pool stay.
  pub recv_reads_string :
      (w : World K) (p : ℕ) (sock : Socket) (s : Stream)
      → w.sockets p ≡ some sock
      → sock.type ≡ sock_stream
      → Holds sock.incoming.queue s
      → (reply : Reply) × (w' : World K) × (sock' : Socket) × (recv os p w ≡ some (reply, w'))
        × Received (take_string s) sock reply sock'
        × Leaves w p sock' w'
        × Kernel os (take_string s) sock w.kernel w'.kernel
  unfolding recv
  recv_reads_string w p sock s at stream held =
      let (reply, w', sock', e, got, left, kernel) =
        recv_impl-Received extract_string w p sock s (take_string s) at stream held
          (λ e. (Holds-nothing held e).0)
          (λ e.
            agree_some sock.incoming.error _ _ (rw stream (string_refines sock.incoming s held))
              (Holds-something held e).0) in
      (
        reply,
        returned script_string reply w',
        sock',
        rw (e, recv) refl,
        got,
        returned-Leaves script_string reply w p sock' w' left,
        subst (Kernel os (take_string s) sock w.kernel)
            (sym (returned-kernel script_string reply w')) kernel,
      )

  -- `Socket_RecvData` does the same with all text of the stream in place of one string.
  pub recv_data_reads_all :
      (w : World K) (p : ℕ) (sock : Socket) (s : Stream)
      → w.sockets p ≡ some sock
      → sock.type ≡ sock_stream
      → Holds sock.incoming.queue s
      → (reply : Reply) × (w' : World K) × (sock' : Socket) × (recv_data os p w ≡ some (reply, w'))
        × Received (take_all_text s) sock reply sock'
        × Leaves w p sock' w'
        × Kernel os (take_all_text s) sock w.kernel w'.kernel
  unfolding recv_data
  recv_data_reads_all w p sock s at stream held =
      let (reply, w', sock', e, got, left, kernel) =
        recv_impl-Received (λ b stream. extract_data b) w p sock s (take_all_text s) at stream held
          (λ e. (Holds-nothing held e).1)
          (λ e.
            agree_some sock.incoming.error _ _ (data_refines sock.incoming s held)
              (Holds-something held e).1) in
      (
        reply,
        returned register_data reply w',
        sock',
        rw (e, recv_data) refl,
        got,
        returned-Leaves register_data reply w p sock' w' left,
        subst (Kernel os (take_all_text s) sock w.kernel)
            (sym (returned-kernel register_data reply w')) kernel,
      )
