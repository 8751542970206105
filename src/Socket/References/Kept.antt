-- ===== src/Socket/References/Kept.antt =====
-- The functions of src/Socket.cpp that hold and release no address, and change none of a socket.
use agssock.Base.{
  ℕ, ◌≡◌, refl, ap, ◌∙◌, Bool, Option, none, some, List, arith, Option-cases, Bool-cases, ◌&&◌,
  length, inl, inr, no_result, one_world, ◌==◌, if◌then◌else◌,
}
use agssock.Errors.{already}
use agssock.Api.Os.{Os, Result}
use agssock.Objects.{Socket}
use agssock.World.{World, sys, store, pool_add, pool_remove, check_pool_invariant}
use agssock.Socket.Create.{is_done, ipproto_udp, create, listen, update_name, refresh, setblocking}
use agssock.Socket.Send.{error_of, send_loop, send_impl, sendto_impl}
use agssock.Socket.Receive.{
  Reply, recv, recv_data, recv_impl, recv_nothing, recv_chunk, recv_from, recv_data_from,
  recvfrom_impl,
}
use agssock.Socket.Connect.{
  connect, connect_call, bind, join_pool, accept, after_accept, take_connection, close,
  close_stream, after_wait, force_close,
}
use agssock.Socket.System.Moves.{send_loop-Kept}
use agssock.Socket.References.{holds, releases, RefsKept}

module _ {K : Type 0} (os : Os K) (capacity : ℕ) (a : ℕ) where
  pub listen-RefsKept :
      (p n : ℕ) (r : Bool) (w w' : World K) → listen os p n w ≡ some (r, w') → RefsKept a w w'
  unfolding listen
  listen-RefsKept p n r w w' e = (ground arith, ground arith, λ q. ground arith)

  pub recv-RefsKept :
      (p : ℕ) (r : Reply) (w w' : World K) → recv os p w ≡ some (r, w') → RefsKept a w w'
  unfolding recv recv_impl recv_nothing recv_chunk
  recv-RefsKept p r w w' e = (ground arith, ground arith, λ q. ground arith)

  pub recv_data-RefsKept :
      (p : ℕ) (r : Reply) (w w' : World K) → recv_data os p w ≡ some (r, w') → RefsKept a w w'
  unfolding recv_data recv_impl recv_nothing recv_chunk
  recv_data-RefsKept p r w w' e = (ground arith, ground arith, λ q. ground arith)

  pub recv_from-RefsKept :
      (left : List ℕ) (p addr : ℕ) (r : Reply) (w w' : World K)
      → recv_from os left p addr w ≡ some (r, w')
      → RefsKept a w w'
  unfolding recv_from recvfrom_impl
  recv_from-RefsKept left p addr r w w' e = (ground arith, ground arith, λ q. ground arith)

  pub recv_data_from-RefsKept :
      (p addr : ℕ) (r : Reply) (w w' : World K)
      → recv_data_from os p addr w ≡ some (r, w')
      → RefsKept a w w'
  unfolding recv_data_from recvfrom_impl
  recv_data_from-RefsKept p addr r w w' e = (ground arith, ground arith, λ q. ground arith)

  pub close-RefsKept : (p : ℕ) (w w' : World K) → close os capacity p w ≡ some w' → RefsKept a w w'
  unfolding close close_stream after_wait force_close pool_remove
  close-RefsKept p w w' e = (ground arith, ground arith, λ q. ground arith)

  pub create-RefsKept :
      (d t p : ℕ) (w : World K) → w.sockets w.next ≡ none → RefsKept a w (create os d t p w).1
  unfolding create setblocking
  create-RefsKept d t p w free = (refl, refl, λ q. ground arith)

  RefsKept-trans : (u v w : World K) → RefsKept a u v → RefsKept a v w → RefsKept a u w
  RefsKept-trans u v w (h, r, f) (h', r', f') = (h' ∙ h, r' ∙ r, λ q. f' q ∙ f q)

  join_pool-RefsKept :
      (p : ℕ) (w w' : World K) → join_pool os capacity p w ≡ some w' → RefsKept a w w'
  unfolding join_pool check_pool_invariant pool_add
  join_pool-RefsKept p w w' e = (ground arith, ground arith, λ q. ground arith)

  refresh-RefsKept :
      (call : Option ℕ → K → Result (List ℕ) × K) (id addr : Option ℕ) (w w' : World K)
      → refresh os call id addr w ≡ some w'
      → RefsKept a w w'
  unfolding refresh update_name
  refresh-RefsKept call id addr w w' e = (ground arith, ground arith, λ q. ground arith)

  -- An error that is noted in a socket, after system calls
  noted-RefsKept :
      (p error : ℕ) (sock : Socket) (w w' : World K)
      → w.sockets p ≡ some sock
      → w'.sockets ≡ w.sockets
      → w'.calls ≡ w.calls
      → RefsKept a w (store w' p (record sock { error = error }))
  noted-RefsKept p error sock w w' at same calls =
      (ap (holds a) calls, ap (releases a) calls, λ q. rw same (ground arith))

  pub bind-RefsKept :
      (p addr : ℕ) (r : Bool) (w w' : World K)
      → bind os capacity p addr w ≡ some (r, w')
      → RefsKept a w w'
  unfolding bind
  bind-RefsKept p addr r w w' e = elim (Option-cases (w.sockets p)) [
    | inl gone ↦ no_result (rw gone at e)
    | inr (sock, at) ↦ elim (Option-cases (w.addrs addr)) [
      | inl gone ↦ no_result (rw (at, gone) at e)
      | inr (target, there) ↦
          let call = sys (os.bind sock.id target.bytes) w in
          let v : World K = store call.1 p (record sock { error = call.1.errno }) in
          let noted = noted-RefsKept p call.1.errno sock w call.1 at refl refl in
          elim (Option-cases (refresh os os.local_name sock.id sock.local v)) [
            | inl stuck ↦ no_result (rw (at, there, stuck) at e)
            | inr (w₂, run) ↦
                let known =
                  RefsKept-trans w v w₂ noted
                    (refresh-RefsKept os.local_name sock.id sock.local v w₂ run) in
                elim (Bool-cases (is_done call.0 && (sock.protocol == ipproto_udp))) [
                  | inr alone ↦ rw (← one_world (rw (at, there, run, alone) at e)) known
                  | inl joins ↦ elim (Option-cases (join_pool os capacity p w₂)) [
                    | inl stuck ↦ no_result (rw (at, there, run, joins, stuck) at e)
                    | inr (w₃, run') ↦
                        rw (← one_world (rw (at, there, run, joins, run') at e))
                          (RefsKept-trans w w₂ w₃ known (join_pool-RefsKept p w₂ w₃ run'))
                  ]
                ]
          ]
    ]
  ]

  connect_call-same :
      (sock : Socket) (bytes : List ℕ) (async : Bool) (w : World K)
      → ((connect_call os sock bytes async w).1.sockets ≡ w.sockets)
        × ((connect_call os sock bytes async w).1.calls ≡ w.calls)
  unfolding connect_call setblocking
  connect_call-same sock bytes async w = (ground arith, ground arith)

  pub connect-RefsKept :
      (p addr : ℕ) (async r : Bool) (w w' : World K)
      → connect os capacity p addr async w ≡ some (r, w')
      → RefsKept a w w'
  unfolding connect
  connect-RefsKept p addr async r w w' e = elim (Option-cases (w.sockets p)) [
    | inl gone ↦ no_result (rw gone at e)
    | inr (sock, at) ↦ elim (Option-cases (w.addrs addr)) [
      | inl gone ↦ no_result (rw (at, gone) at e)
      | inr (target, there) ↦
          let call = connect_call os sock target.bytes async w in
          let error : ℕ = if already call.1.errno then 0 else call.1.errno in
          let v : World K = store call.1 p (record sock { error = error }) in
          let (sockets, calls) = connect_call-same sock target.bytes async w in
          let noted = noted-RefsKept p error sock w call.1 at sockets calls in
          elim (Bool-cases (is_done call.0)) [
            | inr not_done ↦ rw (← one_world (rw (at, there, not_done) at e)) noted
            | inl is_connected ↦
                elim (Option-cases (refresh os os.peer_name sock.id sock.remote v)) [
                  | inl stuck ↦ no_result (rw (at, there, is_connected, stuck) at e)
                  | inr (w₂, run) ↦ elim (Option-cases (join_pool os capacity p w₂)) [
                    | inl stuck ↦ no_result (rw (at, there, is_connected, run, stuck) at e)
                    | inr (w₃, run') ↦
                        rw (← one_world (rw (at, there, is_connected, run, run') at e)) (
                          RefsKept-trans w v w₃ noted (
                            RefsKept-trans v w₂ w₃
                              (refresh-RefsKept os.peer_name sock.id sock.remote v w₂ run)
                              (join_pool-RefsKept p w₂ w₃ run')))
                  ]
                ]
          ]
    ]
  ]

  pub send-RefsKept :
      (p : ℕ) (text : List ℕ) (r : Bool) (w w' : World K)
      → send_impl os p text w ≡ some (r, w')
      → RefsKept a w w'
  unfolding send_impl
  send-RefsKept p text r w w' e = elim (Option-cases (w.sockets p)) [
    | inl gone ↦ no_result (rw gone at e)
    | inr (sock, at) ↦ elim (Option-cases (send_loop (os.send sock.id) (length text) text w)) [
      | inl stuck ↦ no_result (rw (at, stuck) at e)
      | inr ((c, v), run) ↦
          let (heap, _, calls, _) = send_loop-Kept (os.send sock.id) (length text) text c w v run in
          rw (← one_world (rw (at, run) at e))
            (noted-RefsKept p (error_of v.errno) sock w v at heap calls)
    ]
  ]

  pub send_to-RefsKept :
      (p addr : ℕ) (text : List ℕ) (r : Bool) (w w' : World K)
      → sendto_impl os p addr text w ≡ some (r, w')
      → RefsKept a w w'
  unfolding sendto_impl
  send_to-RefsKept p addr text r w w' e = elim (Option-cases (w.sockets p)) [
    | inl gone ↦ no_result (rw gone at e)
    | inr (sock, at) ↦ elim (Option-cases (w.addrs addr)) [
      | inl gone ↦ no_result (rw (at, gone) at e)
      | inr (target, live) ↦
          let call = os.send_to sock.id target.bytes in
          elim (Option-cases (send_loop call (length text) text w)) [
            | inl stuck ↦ no_result (rw (at, live, stuck) at e)
            | inr ((c, v), run) ↦
                let (heap, _, calls, _) = send_loop-Kept call (length text) text c w v run in
                rw (← one_world (rw (at, live, run) at e))
                  (noted-RefsKept p (error_of v.errno) sock w v at heap calls)
          ]
    ]
  ]

  pub accept-RefsKept :
      (p : ℕ) (r : Option ℕ) (w w' : World K)
      → w.sockets w.next ≡ none
      → accept os capacity p w ≡ some (r, w')
      → RefsKept a w w'
  unfolding accept after_accept take_connection setblocking join_pool check_pool_invariant pool_add
  accept-RefsKept p r w w' free e = (ground arith, ground arith, λ q. ground arith)
