-- ===== src/Socket/System/Opens.antt =====
-- `Socket_Connect`, `Socket_Bind` and `Socket_Accept` of src/Socket.cpp as runs of the pool's system.
use agssock.Base.{
  ℕ, ◌<◌, ◌≡◌, refl, sym, ◌∙◌, Bool, true, false, ◌&&◌, Option, none, some, List, [], ◌∷◌, elem,
  arith, Bool-cases, Option-cases, inl, inr, ◌==◌, if◌then◌else◌, no_result, one_result, one_world,
}
use agssock.Errors.{already}
use agssock.Api.Os.{Os, Result, done, failed}
use agssock.Objects.{Socket}
use agssock.Pool.Reading.{IsUsable}
use agssock.Pool.System.{Phase, Inv}
use agssock.World.{World, sys, store}
use agssock.Socket.Send.{error_of}
use agssock.Socket.Connect.{
  connect_call, connect, join_pool, bind, accept, after_accept, take_connection, accepted_socket,
}
use agssock.Socket.Create.{is_done, refresh, ipproto_udp, new_socket, setblocking}
use agssock.Socket.Connect.Joins.{Kept, refresh_lem, connect_call_lem, updated}
use agssock.Pool.Round.{usable}
use agssock.Pool.Open.{IsOpen, IsOpenAt}
use agssock.Socket.System.{view, Leads, Follows}
use agssock.Socket.System.Steps.{
  kept-Leads, stored-Leads, joined-Leads, settled, none_yet, new-Leads,
}
use agssock.Socket.System.Heaps.{fresh_absent, usable_live, stored-IsUsable, open_kept}

module _ {K : Type 0} (os : Os K) (capacity : ℕ) where
  pub refresh-Kept :
      (call : Option ℕ → K → Result (List ℕ) × K) (id o : Option ℕ) (w w' : World K)
      → refresh os call id o w ≡ some w'
      → Kept w w'
  unfolding refresh
  refresh-Kept call id none w w' e = rw (← one_result e) (refl, refl, refl, refl)
  refresh-Kept call id (some a) w w' e = elim (Option-cases (w.addrs a)) [
    | inl gone ↦ no_result (rw gone at e)
    | inr (target, at) ↦
        let (w₁, run, kept) = refresh_lem os capacity call id (some a) w (target, at) in
        rw (← one_result (sym run ∙ e)) kept
  ]

  module _ (beacon : ℕ) (room : 0 < capacity) (starts : (k : K) → os.thread_starts k ≡ true) where
    -- The end that `Socket_Connect` and `Socket_Bind` share: a stored socket has its address read
    -- again, and joins the pool.
    refreshed-Leads :
        (call : Option ℕ → K → Result (List ℕ) × K) (id a : Option ℕ) (p : ℕ) (sock sock' : Socket)
        (w v v' : World K) (phase : Phase)
        → IsUsable v.sockets p
        → IsOpenAt v.sockets p
        → v.sockets p ≡ some sock
        → sock'.id ≡ sock.id
        → sock'.incoming ≡ sock.incoming
        → sock'.type ≡ sock.type
        → refresh os call id a (store v p sock') ≡ some v'
        → Leads os capacity beacon w phase v phase
        → IsUsable v'.sockets p × IsOpenAt v'.sockets p × Leads os capacity beacon w phase v' phase
    refreshed-Leads call id a p sock sock' w v v' phase u o at same input kind run led =
        let more : IsOpen sock → IsOpen sock' = λ h. rw (input, kind) h in
        let (heap, pool, calls, next) = refresh-Kept call id a (store v p sock') v' run in
        (
          rw heap (stored-IsUsable v.sockets p sock sock' at same u),
          rw heap (open_kept v.sockets p sock sock' (p ∷ []) at more (o, tt)).0,
          kept-Leads os capacity beacon w (store v p sock') v' phase phase heap pool calls next
              (stored-Leads os capacity beacon w v p sock sock' phase phase at same more led),
        )

    pub connect-Leads :
        (p addr : ℕ) (async r : Bool) (w w' : World K) (phase : Phase)
        → Inv beacon (view w phase)
        → IsUsable w.sockets p
        → IsOpenAt w.sockets p
        → connect os capacity p addr async w ≡ some (r, w')
        → Follows os capacity beacon w phase w'
    unfolding connect
    connect-Leads p addr async r w w' phase inv u o e =
        let (sock, at) = usable_live w.sockets p u in
        elim (Option-cases (w.addrs addr)) [
          | inl gone ↦ no_result (rw (at, gone) at e)
          | inr (target, live) ↦
              let (kept, addrs) = connect_call_lem os sock target.bytes async w in
              let w₁ : World K = (connect_call os sock target.bytes async w).1 in
              let sock' : Socket = record sock {
                error = if already w₁.errno then 0 else w₁.errno;
              } in
              let led : Leads os capacity beacon w phase w₁ phase =
                kept-Leads os capacity beacon w w w₁ phase phase kept.0 kept.1 kept.2 kept.3
                  (none_yet os capacity beacon w phase) in
              let at₁ : w₁.sockets p ≡ some sock = rw kept.0 at in
              let u₁ : IsUsable w₁.sockets p = rw kept.0 u in
              elim (Bool-cases (is_done (connect_call os sock target.bytes async w).0)) [
                | inr fails ↦
                    let same : store w₁ p sock' ≡ w' = one_world (rw (at, live, fails) at e) in
                    rw (← same) (
                      settled os capacity beacon room w (store w₁ p sock') phase inv (
                        stored-Leads os capacity beacon w w₁ p sock sock' phase phase at₁ refl
                          (λ o. o) led))
                | inl ok ↦
                    elim (Option-cases
                      (refresh os os.peer_name sock.id sock.remote (store w₁ p sock'))) [
                        | inl stuck ↦ no_result (rw (at, live, ok, stuck) at e)
                        | inr (w₂, run) ↦ elim (Option-cases (join_pool os capacity p w₂)) [
                          | inl stuck ↦ no_result (rw (at, live, ok, run, stuck) at e)
                          | inr (w₃, run') ↦
                              let same : w₃ ≡ w' = one_world (rw (at, live, ok, run, run') at e) in
                              let (u₂, o₂, led₂) =
                                refreshed-Leads os.peer_name sock.id sock.remote p sock sock' w w₁
                                  w₂ phase u₁ (rw kept.0 o) at₁ refl refl refl run led in
                              rw (← same) (
                                joined-Leads os capacity beacon room w w₂ w₃ p phase starts inv u₂
                                  o₂ run' led₂)
                        ]
                      ]
              ]
        ]

    pub bind-Leads :
        (p addr : ℕ) (r : Bool) (w w' : World K) (phase : Phase)
        → Inv beacon (view w phase)
        → IsUsable w.sockets p
        → IsOpenAt w.sockets p
        → bind os capacity p addr w ≡ some (r, w')
        → Follows os capacity beacon w phase w'
    unfolding bind
    bind-Leads p addr r w w' phase inv u o e =
        let (sock, at) = usable_live w.sockets p u in
        elim (Option-cases (w.addrs addr)) [
          | inl gone ↦ no_result (rw (at, gone) at e)
          | inr (target, live) ↦
              let call = sys (os.bind sock.id target.bytes) w in
              let w₁ : World K = call.1 in
              let sock' : Socket = record sock { error = w₁.errno } in
              let led : Leads os capacity beacon w phase w₁ phase =
                kept-Leads os capacity beacon w w w₁ phase phase refl refl refl refl
                  (none_yet os capacity beacon w phase) in
              elim (Option-cases (refresh os os.local_name sock.id sock.local (store w₁ p sock'))) [
                | inl stuck ↦ no_result (rw (at, live, stuck) at e)
                | inr (w₂, run) ↦
                    let (u₂, o₂, led₂) =
                      refreshed-Leads os.local_name sock.id sock.local p sock sock' w w₁ w₂ phase u
                        o at refl refl refl run led in
                    elim (Bool-cases (is_done call.0 && (sock.protocol == ipproto_udp))) [
                      | inr none_joins ↦
                          rw (← one_world (rw (at, live, run, none_joins) at e))
                            (settled os capacity beacon room w w₂ phase inv led₂)
                      | inl joins ↦ elim (Option-cases (join_pool os capacity p w₂)) [
                        | inl stuck ↦ no_result (rw (at, live, run, joins, stuck) at e)
                        | inr (w₃, run') ↦ rw (← one_world (rw (at, live, run, joins, run') at e)) (
                            joined-Leads os capacity beacon room w w₂ w₃ p phase starts inv u₂ o₂
                              run' led₂)
                      ]
                    ]
              ]
        ]

    taken-Leads :
        (conn : ℕ) (sock : Socket) (q : Option ℕ) (w v v' : World K) (phase : Phase)
        → Inv beacon (view w phase)
        → conn < 1024
        → elem v.next v.pool.sockets ≡ false
        → take_connection os capacity conn sock v ≡ some (q, v')
        → Leads os capacity beacon w phase v phase
        → Follows os capacity beacon w phase v'
    unfolding take_connection setblocking usable
    taken-Leads conn sock q w v v' phase inv fits absent e led =
        let new : Socket = accepted_socket conn sock in
        let v₁ : World K = (new_socket os new v).1 in
        let v₂ : World K = setblocking os (some conn) false v₁ in
        let led₁ : Leads os capacity beacon w phase v₁ phase =
          new-Leads os capacity beacon w v new phase phase absent led in
        let led₂ : Leads os capacity beacon w phase v₂ phase =
          kept-Leads os capacity beacon w v₁ v₂ phase phase refl refl refl refl led₁ in
        let u : IsUsable v₂.sockets v.next = (conn, ground arith) in
        elim (Option-cases (join_pool os capacity v.next v₂)) [
          | inl stuck ↦ no_result (rw stuck at e)
          | inr (v₃, run) ↦ rw (← one_world (rw run at e)) (
              joined-Leads os capacity beacon room w v₂ v₃ v.next phase starts inv u
                (new, updated v.sockets v.next new, (refl, inr tt)) run led₂)
        ]

    answered-Leads :
        (p : ℕ) (sock : Socket) (answer : Result ℕ) (r : Option ℕ) (w v w' : World K)
        (phase : Phase)
        → Inv beacon (view w phase)
        → v.sockets p ≡ some sock
        → elem v.next v.pool.sockets ≡ false
        → ((conn : ℕ) → answer ≡ done conn → conn < 1024)
        → after_accept os capacity p sock answer v ≡ some (r, w')
        → Leads os capacity beacon w phase v phase
        → Follows os capacity beacon w phase w'
    unfolding after_accept
    answered-Leads p sock (failed errno) r w v w' phase inv at absent fits e led =
        let sock' : Socket = record sock { error = error_of v.errno } in
        rw (← one_world e) (
          settled os capacity beacon room w (store v p sock') phase inv
            (stored-Leads os capacity beacon w v p sock sock' phase phase at refl (λ o. o) led))
    answered-Leads p sock (done conn) r w v w' phase inv at absent fits e led =
        let sock' : Socket = record sock { error = error_of v.errno } in
        taken-Leads conn sock r w (store v p sock') w' phase inv (fits conn refl) absent e
          (stored-Leads os capacity beacon w v p sock sock' phase phase at refl (λ o. o) led)

    pub accept-Leads :
        (p : ℕ) (r : Option ℕ) (w w' : World K) (phase : Phase)
        → Inv beacon (view w phase)
        → w.sockets w.next ≡ none
        → ((id : Option ℕ) (k : K) (conn : ℕ) → (os.accept id k).0 ≡ done conn → conn < 1024)
        → accept os capacity p w ≡ some (r, w')
        → Follows os capacity beacon w phase w'
    unfolding accept
    accept-Leads p r w w' phase inv fresh fits e = elim (Option-cases (w.sockets p)) [
      | inl gone ↦ no_result (rw gone at e)
      | inr (sock, at) ↦
          let w₁ : World K = (sys (os.accept sock.id) w).1 in
          answered-Leads p sock (sys (os.accept sock.id) w).0 r w w₁ w' phase inv at
            (fresh_absent w.sockets w.next w.pool.sockets fresh inv.sound.sockets_usable)
            (fits sock.id w.kernel) (rw at at e)
            (kept-Leads os capacity beacon w w w₁ phase phase refl refl refl refl
              (none_yet os capacity beacon w phase))
    ]
