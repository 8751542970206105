-- ===== src/Socket/System/Moves.antt =====
-- The functions of src/Socket.cpp that send, receive datagrams and listen, as runs of the pool's
-- system.
use agssock.Base.{
  ℕ, zero, suc, ◌≡◌, refl, ap, Bool, Option, none, some, List, [], ◌∷◌, drop, length, Option-cases,
  inl, inr, is_negative, int_of_ags, if◌then◌else◌, no_result, one_world, arith,
}
use agssock.Api.Os.{Os, Result}
use agssock.Objects.{Socket, update}
use agssock.Pool.System.{Phase}
use agssock.World.{World, sys, store}
use agssock.Socket.Send.{error_of, send_loop, send_impl, sendto_impl}
use agssock.Socket.Send.Loop.{Result-cases}
use agssock.Socket.Receive.{Reply, recvfrom_impl, recv_from, recv_data_from}
use agssock.Socket.Create.{listen, somaxconn}
use agssock.Socket.Connect.Joins.{Kept}
use agssock.Base.Memory.{write_at}
use agssock.Socket.System.{Leads, aborts}
use agssock.Socket.System.Steps.{noted-Leads}

pub send_loop-Kept :
    {K : Type 0} (call : List ℕ → K → Result ℕ × K) (fuel : ℕ) (text : List ℕ) (b : Bool)
    (w w' : World K)
    → send_loop call fuel text w ≡ some (b, w')
    → Kept w w'
unfolding send_loop
send_loop-Kept call fuel [] b w w' e = rw (← one_world e) (refl, refl, refl, refl)
send_loop-Kept call zero (x ∷ xs) b w w' e = no_result e
send_loop-Kept call (suc fuel) (x ∷ xs) b w w' e = elim (Result-cases (call (x ∷ xs) w.kernel).0) [
  | inl (n, got) ↦
      send_loop-Kept call fuel (drop n (x ∷ xs)) b
        (record w { kernel = (call (x ∷ xs) w.kernel).1 }) w' (rw (got, send_loop) at e)
  | inr (errno, lost) ↦ rw (← one_world (rw (lost, send_loop) at e)) (refl, refl, refl, refl)
]

module _ {K : Type 0} (os : Os K) (capacity beacon : ℕ) where
  -- The error of a socket is set after calls that leave the rest.
  marked-Leads :
      (p error : ℕ) (sock : Socket) (w v : World K) (phase : Phase)
      → w.sockets p ≡ some sock
      → Kept w v
      → Leads os capacity beacon w phase (store v p (record sock { error = error })) phase
  marked-Leads p error sock w v phase at (heap, pool, calls, next) =
      let sock' : Socket = record sock { error = error } in
      noted-Leads os capacity beacon w (store v p sock') p sock sock' phase at (inr refl) (λ o. o)
        (ap (λ h. update h p (some sock')) heap, pool) (ap aborts calls) (omega arith)

  pub send-Leads :
      (p : ℕ) (text : List ℕ) (b : Bool) (w w' : World K) (phase : Phase)
      → send_impl os p text w ≡ some (b, w')
      → Leads os capacity beacon w phase w' phase
  unfolding send_impl
  send-Leads p text b w w' phase e = elim (Option-cases (w.sockets p)) [
    | inl gone ↦ no_result (rw gone at e)
    | inr (sock, at) ↦ elim (Option-cases (send_loop (os.send sock.id) (length text) text w)) [
      | inl stuck ↦ no_result (rw (at, stuck) at e)
      | inr ((c, v), run) ↦ rw (← one_world (rw (at, run) at e)) (
          marked-Leads p (error_of v.errno) sock w v phase at
            (send_loop-Kept (os.send sock.id) (length text) text c w v run))
    ]
  ]

  pub send_to-Leads :
      (p addr : ℕ) (text : List ℕ) (b : Bool) (w w' : World K) (phase : Phase)
      → sendto_impl os p addr text w ≡ some (b, w')
      → Leads os capacity beacon w phase w' phase
  unfolding sendto_impl
  send_to-Leads p addr text b w w' phase e = elim (Option-cases (w.sockets p)) [
    | inl gone ↦ no_result (rw gone at e)
    | inr (sock, at) ↦ elim (Option-cases (w.addrs addr)) [
      | inl gone ↦ no_result (rw (at, gone) at e)
      | inr (target, live) ↦
          let call = os.send_to sock.id target.bytes in
          elim (Option-cases (send_loop call (length text) text w)) [
            | inl stuck ↦ no_result (rw (at, live, stuck) at e)
            | inr ((c, v), run) ↦ rw (← one_world (rw (at, live, run) at e)) (
                marked-Leads p (error_of v.errno) sock w v phase at
                  (send_loop-Kept call (length text) text c w v run))
          ]
    ]
  ]

  pub listen-Leads :
      (p backlog : ℕ) (b : Bool) (w w' : World K) (phase : Phase)
      → listen os p backlog w ≡ some (b, w')
      → Leads os capacity beacon w phase w' phase
  unfolding listen
  listen-Leads p backlog b w w' phase e = elim (Option-cases (w.sockets p)) [
    | inl gone ↦ no_result (rw gone at e)
    | inr (sock, at) ↦
        let size = if is_negative backlog then somaxconn else backlog in
        let v : World K = (sys (os.listen sock.id (int_of_ags size)) w).1 in
        rw (← one_world (rw at at e))
          (marked-Leads p v.errno sock w v phase at (refl, refl, refl, refl))
  ]

  recvfrom-Leads :
      (p addr : ℕ) (r : Option (List ℕ)) (w w' : World K) (phase : Phase)
      → recvfrom_impl os p addr w ≡ some (r, w')
      → Leads os capacity beacon w phase w' phase
  unfolding recvfrom_impl
  recvfrom-Leads p addr r w w' phase e = elim (Option-cases (w.sockets p)) [
    | inl gone ↦ no_result (rw gone at e)
    | inr (sock, at) ↦ elim (Option-cases (w.addrs addr)) [
      | inl gone ↦ no_result (rw (at, gone) at e)
      | inr (sender, live) ↦ elim (Result-cases (os.recv_from sock.id 65535 w.kernel).0) [
        | inl ((bytes, name), got) ↦
            let v : World K = record ((sys (os.recv_from sock.id 65535) w).1) {
              addrs = update w.addrs addr (some (record { bytes = write_at 0 name sender.bytes }));
            } in
            rw (← one_world (rw (at, live, got) at e))
              (marked-Leads p v.errno sock w v phase at (refl, refl, refl, refl))
        | inr (errno, lost) ↦
            let v : World K = (sys (os.recv_from sock.id 65535) w).1 in
            rw (← one_world (rw (at, live, lost) at e))
              (marked-Leads p v.errno sock w v phase at (refl, refl, refl, refl))
      ]
    ]
  ]

  pub recv_from-Leads :
      (stale : List ℕ) (p addr : ℕ) (r : Reply) (w w' : World K) (phase : Phase)
      → recv_from os stale p addr w ≡ some (r, w')
      → Leads os capacity beacon w phase w' phase
  unfolding recv_from
  recv_from-Leads stale p addr r w w' phase e = elim (Option-cases (recvfrom_impl os p addr w)) [
    | inl stuck ↦ no_result (rw stuck at e)
    | inr ((none, v), run) ↦
        rw (← one_world (rw run at e)) (recvfrom-Leads p addr none w v phase run)
    | inr ((some bytes, v), run) ↦
        rw (← one_world (rw run at e)) (recvfrom-Leads p addr (some bytes) w v phase run)
  ]

  pub recv_data_from-Leads :
      (p addr : ℕ) (r : Reply) (w w' : World K) (phase : Phase)
      → recv_data_from os p addr w ≡ some (r, w')
      → Leads os capacity beacon w phase w' phase
  unfolding recv_data_from
  recv_data_from-Leads p addr r w w' phase e = elim (Option-cases (recvfrom_impl os p addr w)) [
    | inl stuck ↦ no_result (rw stuck at e)
    | inr ((none, v), run) ↦
        rw (← one_world (rw run at e)) (recvfrom-Leads p addr none w v phase run)
    | inr ((some bytes, v), run) ↦
        rw (← one_world (rw run at e)) (recvfrom-Leads p addr (some bytes) w v phase run)
  ]
