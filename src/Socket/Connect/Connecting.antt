-- ===== src/Socket/Connect/Connecting.antt =====
-- `Socket_Connect` of src/Socket.cpp: the socket that connects joins the pool.
use agssock.Base.{
  ℕ, ◌≡◌, refl, ap, ◌∙◌, inl, inr, Bool, true, false, some, elem, if◌then◌else◌, Bool-cases,
}
use agssock.Errors.{already}
use agssock.Api.Os.{Os}
use agssock.Objects.{Socket, update}
use agssock.SockAddr.{SockAddr}
use agssock.World.{World, sys, store}
use agssock.Socket.Connect.{connect_call, connect}
use agssock.Socket.Create.{is_done, setblocking}
use agssock.Socket.Connect.Joins.{
  Operating, store_valid, Held, Held-Kept, connect_call_lem, refresh_join_lem,
}

module _ {K : Type 0} (os : Os K) (capacity : ℕ) where
  -- `Socket_Connect` over its call of `connect`
  call_joins :
      (p addr fd : ℕ) (async : Bool) (sock : Socket) (target : SockAddr) (w : World K)
      → Operating w
      → w.sockets p ≡ some sock
      → w.addrs addr ≡ some target
      → sock.id ≡ some fd
      → Held w sock.remote
      → ((k : K) → os.thread_starts k ≡ true)
      → let (r, w₁) = connect_call os sock target.bytes async w in
        (w' : World K) × (connect os capacity p addr async w ≡ some (is_done r, w'))
        × Operating w'
        × (if is_done r then elem p w'.pool.sockets ≡ true else w'.pool ≡ w.pool)
        × (w'.calls ≡ w.calls)
        × (w'.sockets
            ≡ update w.sockets p
                (some (record sock { error = if already w₁.errno then 0 else w₁.errno })))
  unfolding connect
  call_joins p addr fd async sock target w (runs, valid) at live id held starts =
      let (kept, addrs) = connect_call_lem os sock target.bytes async w in
      let r = (connect_call os sock target.bytes async w).0 in
      let w₁ : World K = (connect_call os sock target.bytes async w).1 in
      let sock' : Socket = record sock { error = if already w₁.errno then 0 else w₁.errno } in
      let same : update w₁.sockets p (some sock') ≡ update w.sockets p (some sock') =
        ap (λ h. update h p (some sock')) kept.0 in
      let operating : Operating w₁ = (rw kept.1 runs, rw (kept.0, kept.1) valid) in
      elim (Bool-cases (is_done r)) [
        | inl ok ↦
            let (w₂, w₃, run, run', kept', joined, operating', member, calls, heap) =
              refresh_join_lem os capacity os.peer_name p fd sock.remote w₁ sock' operating
                (Held-Kept w w₁ sock.remote addrs held) id starts in
            (
              w₃,
              rw (at, connect) (rw (live, ok) (rw (run, run') refl)),
              operating',
              rw ok member,
              calls ∙ kept.2,
              heap ∙ same,
            )
        | inr fails ↦ (
          store w₁ p sock',
          rw (at, connect) (rw (live, fails) refl),
          (operating.0, store_valid w₁.sockets p sock' fd w₁.pool.sockets id operating.1),
          rw fails kept.1,
          kept.2,
          same,
        )
      ]

  -- `Socket_Connect` on an open socket, with an operating pool, live addresses and a system that can
  -- start threads: it calls the system's `connect` with the descriptor and the bytes of the address,
  -- where it makes the socket blocking before and nonblocking after it unless `async`. It returns true
  -- exactly if that succeeds, and then the socket is in the pool; else the pool is what it was. The
  -- pool operates after it, no abort is asked for, and the error of the socket is that of `errno`
  -- after these calls, or zero if that says that the attempt is still under way.
  pub connect_joins :
      (p addr fd : ℕ) (async : Bool) (sock : Socket) (target : SockAddr) (w : World K)
      → Operating w
      → w.sockets p ≡ some sock
      → w.addrs addr ≡ some target
      → sock.id ≡ some fd
      → Held w sock.remote
      → ((k : K) → os.thread_starts k ≡ true)
      → let w₀ = if async then w else setblocking os sock.id true w in
        let answer = (os.connect sock.id target.bytes w₀.kernel).0 in
        let w₁ = (sys (os.connect sock.id target.bytes) w₀).1 in
        let errno = (if async then w₁ else setblocking os sock.id false w₁).errno in
        (w' : World K) × (connect os capacity p addr async w ≡ some (is_done answer, w'))
        × Operating w'
        × (if is_done answer then elem p w'.pool.sockets ≡ true else w'.pool ≡ w.pool)
        × (w'.calls ≡ w.calls)
        × (w'.sockets
            ≡ update w.sockets p
                (some (record sock { error = if already errno then 0 else errno })))
  unfolding connect_call
  connect_joins p addr fd true sock target w operating at live id held starts =
      call_joins p addr fd true sock target w operating at live id held starts
  connect_joins p addr fd false sock target w operating at live id held starts =
      call_joins p addr fd false sock target w operating at live id held starts
