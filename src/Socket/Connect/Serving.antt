-- ===== src/Socket/Connect/Serving.antt =====
-- `Socket_Bind` and `Socket_Accept` of src/Socket.cpp: which sockets join the pool.
use agssock.Base.{
  ℕ, ◌≡◌, refl, ap, true, false, ◌&&◌, none, some, ◌∷◌, elem, arith, ◌==◌, ==_iff, if◌then◌else◌,
  Bool-cases, inl, inr, Option,
}
use agssock.Api.Os.{Os, Result, done, failed}
use agssock.Objects.{Socket, Heap, update}
use agssock.Pool.Sets.{IsValidAt}
use agssock.SockAddr.{SockAddr}
use agssock.World.{World, register_socket, sys, store}
use agssock.Socket.Connect.{accepted_socket, take_connection, bind, accept, after_accept}
use agssock.Socket.Create.{is_done, new_socket, setblocking, ipproto_udp}
use agssock.Socket.Send.{error_of}
use agssock.Socket.Send.Loop.{Result-cases}
use agssock.Socket.Connect.Joins.{
  Operating, Held, Held-Kept, join_lem, refresh_lem, refresh_join_lem, store_valid, updated,
  restore_valid,
}

kept_at :
    (h : Heap) (p q : ℕ) (sock a b : Socket)
    → h p ≡ some sock
    → h q ≡ none
    → update (update h p (some a)) q (some b) p ≡ some a
kept_at h p q sock a b at fresh = elim (Bool-cases (q == p)) [
  | inl same ↦ let gone : h p ≡ none = rw (← (==_iff q p).0 same) fresh in ground arith
  | inr other ↦ rw other (updated h p a)
]

-- What an accepted connection asks of the function, and what it does without one: the reply, and
-- the world after it.
abbrev pub Accepted : {K : Type 0} → Result ℕ → ℕ → Socket → World K → Option ℕ → World K → Type 0
Accepted (failed e) p sock w reply w' =
    (reply ≡ none)
    × (w'.pool ≡ w.pool)
    × (w'.sockets ≡ update w.sockets p (some (record sock { error = error_of e })))
    × (w'.calls ≡ w.calls)
Accepted (done conn) p sock w reply w' =
    (reply ≡ some w.next)
    × (elem w.next w'.pool.sockets ≡ true)
    × (w'.sockets w.next ≡ some (accepted_socket conn sock))
    × (w'.sockets p ≡ some (record sock { error = error_of w.errno }))
    × (w'.calls ≡ register_socket w.next ∷ w.calls)

module _ {K : Type 0} (os : Os K) (capacity : ℕ) where
  -- `Socket_Bind` on an open socket, with an operating pool, live addresses and a system that can
  -- start threads: it returns true exactly if the system's `bind` succeeds. Then a socket of UDP is
  -- in the pool; for any other, and after a failure, the pool is what it was. The pool operates after
  -- it, no abort is asked for, and the error of the socket is that of `errno` after the call.
  pub bind_joins :
      (p addr fd : ℕ) (sock : Socket) (target : SockAddr) (w : World K)
      → Operating w
      → w.sockets p ≡ some sock
      → w.addrs addr ≡ some target
      → sock.id ≡ some fd
      → Held w sock.local
      → ((k : K) → os.thread_starts k ≡ true)
      → let (r, w₁) = sys (os.bind sock.id target.bytes) w in
        (w' : World K) × (bind os capacity p addr w ≡ some (is_done r, w'))
        × Operating w'
        × (if is_done r && (sock.protocol == ipproto_udp)
            then elem p w'.pool.sockets ≡ true
            else w'.pool ≡ w.pool)
        × (w'.calls ≡ w.calls)
        × (w'.sockets ≡ update w.sockets p (some (record sock { error = w₁.errno })))
  unfolding bind
  bind_joins p addr fd sock target w operating at live id held starts =
      let r = (sys (os.bind sock.id target.bytes) w).0 in
      let w₁ : World K = (sys (os.bind sock.id target.bytes) w).1 in
      let sock' : Socket = record sock { error = w₁.errno } in
      elim (Bool-cases (is_done r && (sock.protocol == ipproto_udp))) [
        | inl joins ↦
            let (w₂, w₃, run, run', kept, _, operating', member, calls, heap) =
              refresh_join_lem os capacity os.local_name p fd sock.local w₁ sock' operating
                (Held-Kept w w₁ sock.local refl held) id starts in
            let ok : true ≡ is_done r = ground arith in
            (
              w₃,
              rw (at, bind) (rw (live, run) (rw (joins, run') (ap (λ b. some (b, w₃)) ok))),
              operating',
              rw joins member,
              calls,
              heap,
            )
        | inr stays ↦
            let (w₂, run, kept) =
              refresh_lem os capacity os.local_name sock.id sock.local (store w₁ p sock')
                (Held-Kept w w₁ sock.local refl held) in
            (
              w₂,
              rw (at, bind) (rw (live, run) (rw stays refl)),
              (
                rw kept.1 operating.0,
                rw (kept.0, kept.1)
                    (store_valid w.sockets p sock' fd w.pool.sockets id operating.1),
              ),
              rw stays kept.1,
              kept.2,
              kept.0,
            )
      ]

  take_lem :
      (conn : ℕ) (sock : Socket) (w : World K)
      → Operating w
      → ((k : K) → os.thread_starts k ≡ true)
      → (w' : World K) × (take_connection os capacity conn sock w ≡ some (some w.next, w'))
        × Operating w'
        × (elem w.next w'.pool.sockets ≡ true)
        × (w'.calls ≡ register_socket w.next ∷ w.calls)
        × (w'.sockets ≡ update w.sockets w.next (some (accepted_socket conn sock)))
  unfolding take_connection setblocking
  take_lem conn sock w (runs, valid) starts =
      let w₁ : World K =
        setblocking os (some conn) false (new_socket os (accepted_socket conn sock) w).1 in
      let operating : Operating w₁ = (
        runs,
        store_valid w.sockets w.next (accepted_socket conn sock) conn w.pool.sockets refl valid,
      ) in
      let live : IsValidAt w₁.sockets w.next = (
        accepted_socket conn sock,
        conn,
        updated w.sockets w.next (accepted_socket conn sock),
        refl,
      ) in
      let (w₂, run, operating', member, calls, heap) =
        join_lem os capacity w.next w₁ operating live (starts w₁.kernel) in
      (w₂, rw (run, take_connection) refl, operating', member, calls, heap)

  -- `Socket_Accept` with an operating pool and a system that can start threads, where the new object
  -- is none of those allocated: without a connection it returns null, the pool stays, and the error
  -- is that of the failure, or zero if that says to try again. With one it returns a new socket of
  -- the kind of the old, with the descriptor of the connection, which is in the pool and registered
  -- at the engine. The pool operates after it, and no abort is asked for.
  pub accept_joins :
      (p : ℕ) (sock : Socket) (w : World K)
      → Operating w
      → w.sockets p ≡ some sock
      → w.sockets w.next ≡ none
      → ((k : K) → os.thread_starts k ≡ true)
      → (reply : Option ℕ) × (w' : World K) × (accept os capacity p w ≡ some (reply, w'))
        × Operating w'
        × Accepted (os.accept sock.id w.kernel).0 p sock w reply w'
  unfolding accept after_accept
  accept_joins p sock w (runs, valid) at fresh starts =
      let call = os.accept sock.id w.kernel in
      elim (Result-cases call.0) [
        | inl (conn, e) ↦
            let w₁ : World K = record w {
              kernel = call.1;
              sockets = update w.sockets p (some (record sock { error = error_of w.errno }));
            } in
            let operating : Operating w₁ = (
              runs,
              restore_valid w.sockets p sock (record sock { error = error_of w.errno })
                  w.pool.sockets at refl valid,
            ) in
            let (w₂, run, operating', member, calls, heap) =
              take_lem conn sock w₁ operating starts in
            (
              some w.next,
              w₂,
              rw (at, accept) (rw (e, after_accept) run),
              operating',
              rw e (
                refl,
                member,
                rw heap (updated w₁.sockets w.next (accepted_socket conn sock)),
                rw heap (kept_at w.sockets p w.next sock _ _ at fresh),
                calls,
              ),
            )
        | inr (errno, e) ↦
            let sock' : Socket = record sock { error = error_of errno } in
            (
              none,
              record w {
                kernel = call.1;
                errno = errno;
                sockets = update w.sockets p (some sock');
              },
              rw (at, accept) (rw (e, after_accept) refl),
              (runs, restore_valid w.sockets p sock sock' w.pool.sockets at refl valid),
              rw e (refl, refl, refl, refl),
            )
      ]
