-- ===== src/Socket/Receive/Keeps.antt =====
-- Why `Socket_Recv` and `Socket_RecvData` of src/Socket.cpp may close a socket without taking it out
-- of the pool: the read loop has done so before, if no string begins with a zero.
use agssock.Base.{
  ℕ, ◌≡◌, refl, ◌≢◌, ◌⊎◌, inl, inr, Bool, true, false, ◌&&◌, Option, some, List, [], ◌∷◌, is_empty,
  elem, All, All-elem, arith, ◌==◌, ==_iff, Bool-cases,
}
use agssock.Api.Os.{Os}
use agssock.Objects.{Socket, sock_stream}
use agssock.Buffer.{Buffer, empty, extract_string, extract_data}
use agssock.Buffer.Ends.{Unmarked, NoZeroFront}
use agssock.Pool.Open.{IsOpen, IsOpenAt}
use agssock.World.{World, script_string, register_data}
use agssock.Socket.Receive.{Reply, recv_nothing, recv_chunk, recv_impl, recv, recv_data, returned}
use agssock.Socket.Receive.Leaves.{
  Leaves, nothing_socket, chunk_socket, recv_nothing-Leaves, recv_chunk-Leaves, recv_impl-nothing,
  recv_impl-chunk, returned-Leaves,
}
use agssock.Socket.Connect.Joins.{Operating, restore_valid}
use agssock.Socket.Connect.Closing.{away_valid}
use agssock.Socket.Receive.Gives.{Gives, string-Gives, data-Gives}

-- A call that leaves the descriptor of its socket, or whose socket the pool does not hold.
Leaves-Operating :
    {K : Type 0} (w : World K) (p : ℕ) (sock sock' : Socket) (w' : World K)
    → Operating w
    → w.sockets p ≡ some sock
    → (elem p w.pool.sockets ≡ false) ⊎ (sock'.id ≡ sock.id)
    → Leaves w p sock' w'
    → Operating w'
Leaves-Operating w p sock sock' w' (runs, valid) at (inl absent) (heap, pool) = (
  rw pool runs,
  rw (heap, pool) (away_valid w.sockets p (some sock') w.pool.sockets absent valid),
)
Leaves-Operating w p sock sock' w' (runs, valid) at (inr same) (heap, pool) = (
  rw pool runs,
  rw (heap, pool) (restore_valid w.sockets p sock sock' w.pool.sockets at same valid),
)

-- The socket in hand is open if the pool holds it.
IsOpen-member :
    {K : Type 0} (w : World K) (p : ℕ) (sock : Socket)
    → w.sockets p ≡ some sock
    → All (IsOpenAt w.sockets) w.pool.sockets
    → elem p w.pool.sockets ≡ true
    → IsOpen sock
IsOpen-member w p sock at opened held =
    let (sock₁, at₁, o) = All-elem (IsOpenAt w.sockets) p w.pool.sockets opened held in
    let same : sock₁ ≡ sock = cc in rw (← same) o

nonempty :
    (q : List (List ℕ))
    → is_empty q ≡ false
    → (d : List ℕ) × (rest : List (List ℕ)) × (q ≡ d ∷ rest)
nonempty [] e = cc
nonempty (d ∷ rest) e = (d, rest, refl)

not_closing :
    (sock : Socket) (text d : List ℕ) (rest : List (List ℕ))
    → (sock.type ≢ sock_stream) ⊎ Unmarked sock.incoming.queue
    → sock.incoming.queue ≡ d ∷ rest
    → (sock.type ≢ sock_stream) ⊎ ((is_empty d ≡ true) ⊎ (is_empty text ≡ false))
    → (is_empty text && (sock.type == sock_stream)) ≡ false
not_closing sock text d rest (inl other) front t = ground arith
not_closing sock text d rest (inr u) front (inl other) = ground arith
not_closing sock text d rest (inr u) front (inr (inl marked)) =
    let filled : is_empty d ≡ false = (rw front at u).0 in cc
not_closing sock text d rest (inr u) front (inr (inr t)) = ground arith

nothing_safe :
    {K : Type 0} (w : World K) (p : ℕ) (sock : Socket)
    → w.sockets p ≡ some sock
    → All (IsOpenAt w.sockets) w.pool.sockets
    → (elem p w.pool.sockets ≡ false) ⊎ ((nothing_socket sock).id ≡ sock.id)
nothing_safe w p sock at opened = elim (Bool-cases (elem p w.pool.sockets)) [
  | inl held ↦
      let none_seen : (sock.incoming.error == 0) ≡ true =
        (==_iff sock.incoming.error 0).1 (IsOpen-member w p sock at opened held).0 in
      inr (rw none_seen refl)
  | inr absent ↦ inl absent
]

chunk_safe :
    {K : Type 0} (w : World K) (p : ℕ) (sock : Socket) (r : List ℕ × Buffer) (d : List ℕ)
    (rest : List (List ℕ))
    → w.sockets p ≡ some sock
    → All (IsOpenAt w.sockets) w.pool.sockets
    → sock.incoming.queue ≡ d ∷ rest
    → (sock.type ≢ sock_stream) ⊎ ((is_empty d ≡ true) ⊎ (is_empty r.0 ≡ false))
    → (elem p w.pool.sockets ≡ false) ⊎ ((chunk_socket sock r).id ≡ sock.id)
chunk_safe w p sock r d rest at opened front text = elim (Bool-cases (elem p w.pool.sockets)) [
  | inl held ↦
      let closing : (is_empty r.0 && (sock.type == sock_stream)) ≡ false =
        not_closing sock r.0 d rest (IsOpen-member w p sock at opened held).1 front text in
      inr (rw closing refl)
  | inr absent ↦ inl absent
]

module _ {K : Type 0} (os : Os K) where
  pub recv_impl-Operating :
      (extract : Buffer → Bool → Option (List ℕ × Buffer)) (w : World K) (p : ℕ) (sock : Socket)
      → Operating w
      → All (IsOpenAt w.sockets) w.pool.sockets
      → w.sockets p ≡ some sock
      → Gives extract sock
      → (reply : Reply) × (w' : World K) × (sock' : Socket) × (recv_impl os extract p w
          ≡ some (reply, w'))
        × ((elem p w.pool.sockets ≡ false) ⊎ (sock'.id ≡ sock.id))
        × (IsOpen sock → IsOpen sock')
        × Leaves w p sock' w'
  recv_impl-Operating extract w p sock operating opened at gives =
      elim (Bool-cases (empty sock.incoming)) [
        | inl e ↦
            let n = recv_nothing-Leaves os w p sock in
            (
              (recv_nothing os w p sock).0,
              (recv_nothing os w p sock).1,
              nothing_socket sock,
              recv_impl-nothing os extract w p sock at e,
              nothing_safe w p sock at opened,
              λ o. o,
              n.1,
            )
        | inr e ↦
            let (d, rest, front) = nonempty (sock.incoming.queue) e in
            let (r, run, text, open_still) = gives d rest front in
            let c = recv_chunk-Leaves os w p sock r in
            (
              (recv_chunk os w p sock r).0,
              (recv_chunk os w p sock r).1,
              chunk_socket sock r,
              recv_impl-chunk os extract w p sock r at e run,
              chunk_safe w p sock r d rest at opened front text,
              open_still,
              c.1,
            )
      ]

  -- `Socket_Recv`, with an operating pool whose sockets have seen no error and no end of a stream:
  -- if no element of the socket's buffer begins with a zero, the pool operates after it. So whenever
  -- the function closes a socket, the pool does not hold that socket any more.
  pub recv_keeps_pool :
      (w : World K) (p : ℕ) (sock : Socket)
      → Operating w
      → All (IsOpenAt w.sockets) w.pool.sockets
      → w.sockets p ≡ some sock
      → All NoZeroFront sock.incoming.queue
      → (reply : Reply) × (w' : World K) × (recv os p w ≡ some (reply, w')) × Operating w'
  unfolding recv
  recv_keeps_pool w p sock operating opened at text =
      let (reply, w₁, sock', run, safe, open_still, left) =
        recv_impl-Operating extract_string w p sock operating opened at (string-Gives sock text) in
      (
        reply,
        returned script_string reply w₁,
        rw (run, recv) refl,
        Leaves-Operating w p sock sock' (returned script_string reply w₁) operating at safe
            (returned-Leaves script_string reply w p sock' w₁ left),
      )

  -- `Socket_RecvData` keeps such a pool operating whatever has been received.
  pub recv_data_keeps_pool :
      (w : World K) (p : ℕ) (sock : Socket)
      → Operating w
      → All (IsOpenAt w.sockets) w.pool.sockets
      → w.sockets p ≡ some sock
      → (reply : Reply) × (w' : World K) × (recv_data os p w ≡ some (reply, w')) × Operating w'
  unfolding recv_data
  recv_data_keeps_pool w p sock operating opened at =
      let (reply, w₁, sock', run, safe, open_still, left) =
        recv_impl-Operating (λ b stream. extract_data b) w p sock operating opened at
          (data-Gives sock) in
      (
        reply,
        returned register_data reply w₁,
        rw (run, recv_data) refl,
        Leaves-Operating w p sock sock' (returned register_data reply w₁) operating at safe
            (returned-Leaves register_data reply w p sock' w₁ left),
      )
