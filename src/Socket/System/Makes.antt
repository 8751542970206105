-- ===== src/Socket/System/Makes.antt =====
-- The functions of src/Socket.cpp that make sockets and addresses, as runs of the pool's system.
use agssock.Base.{
  ℕ, suc, ◌≡◌, refl, ap, false, Option, none, some, List, [], Option-cases, inl, inr, int_of_ags,
  no_result, one_world, ◌≤◌, arith,
}
use agssock.Api.Os.{Os, Result}
use agssock.Objects.{Socket, update}
use agssock.Pool.System.{Phase, Inv}
use agssock.World.{World, sys, store}
use agssock.Socket.Create.{
  create, setblocking, descriptor, get_local, get_remote, update_name, refresh, held_addr,
}
use agssock.Socket.Saved.{Keys, restore, unserialize}
use agssock.Socket.System.{view, Leads, aborts}
use agssock.Socket.System.Steps.{noted-Leads, none_yet, new-Leads, kept-Leads}
use agssock.Socket.System.Heaps.{fresh_absent}
use agssock.Buffer.{new_buffer}
use agssock.Socket.System.Opens.{refresh-Kept}

module _ {K : Type 0} (os : Os K) (capacity beacon : ℕ) where
  -- A new object is in no pool.
  made-Leads :
      (sock : Socket) (w v : World K) (phase : Phase)
      → Inv beacon (view w phase)
      → w.sockets w.next ≡ none
      → v.sockets ≡ w.sockets
      → v.pool ≡ w.pool
      → v.next ≡ w.next
      → v.calls ≡ w.calls
      → Leads os capacity beacon w phase (store (record v { next = suc v.next }) v.next sock) phase
  made-Leads sock w v phase inv fresh heap pool next calls =
      new-Leads os capacity beacon w v sock phase phase
        (rw (pool, next)
          (fresh_absent w.sockets w.next w.pool.sockets fresh inv.sound.sockets_usable))
        (kept-Leads os capacity beacon w w v phase phase heap pool calls next
          (none_yet os capacity beacon w phase))

  pub create-Leads :
      (domain type protocol : ℕ) (w : World K) (phase : Phase)
      → Inv beacon (view w phase)
      → w.sockets w.next ≡ none
      → Leads os capacity beacon w phase (create os domain type protocol w).1 phase
  unfolding create setblocking
  create-Leads domain type protocol w phase inv fresh =
      let call =
        sys (os.socket (int_of_ags domain) (int_of_ags type) (int_of_ags protocol))
          (record w { errno = 0 }) in
      let sock : Socket = record {
        id = descriptor call.0;
        domain = int_of_ags domain;
        type = int_of_ags type;
        protocol = int_of_ags protocol;
        error = call.1.errno;
        local = none;
        remote = none;
        tag = [];
        incoming = new_buffer;
      } in
      made-Leads sock w (setblocking os (descriptor call.0) false call.1) phase inv fresh refl refl
        refl refl

  pub restore-Leads :
      (keys : Keys) (left : List ℕ) (key : ℕ) (buffer : List ℕ) (w : World K) (phase : Phase)
      → Inv beacon (view w phase)
      → w.sockets w.next ≡ none
      → Leads os capacity beacon w phase (restore keys left key buffer w) phase
  unfolding restore
  restore-Leads keys left key buffer w phase inv fresh =
      made-Leads (unserialize keys left buffer) w w phase inv fresh refl refl refl refl

  -- An address object is made, and filled by the system.
  addressed :
      (call : Option ℕ → K → Result (List ℕ) × K) (id : Option ℕ) (type : ℕ) (w v : World K)
      → update_name os call id w.next (held_addr os type w) ≡ some v
      → (v.sockets ≡ w.sockets)
        × (v.pool ≡ w.pool)
        × (aborts v.calls ≡ aborts w.calls)
        × (w.next ≤ v.next)
  unfolding refresh
  addressed call id type w v e =
      let (heap, pool, calls, next) =
        refresh-Kept os 0 call id (some w.next) (held_addr os type w) v e in
      (heap, pool, ap aborts calls, omega arith)

  named-Leads :
      (p error : ℕ) (sock : Socket) (a b : Option ℕ) (w v : World K) (phase : Phase)
      → w.sockets p ≡ some sock
      → (v.sockets ≡ w.sockets)
        × (v.pool ≡ w.pool)
        × (aborts v.calls ≡ aborts w.calls)
        × (w.next ≤ v.next)
      → Leads os capacity beacon w phase
          (store v p (record sock { local = a; remote = b; error = error }))
          phase
  named-Leads p error sock a b w v phase at (heap, pool, calm, next) =
      let sock' : Socket = record sock { local = a; remote = b; error = error } in
      noted-Leads os capacity beacon w (store v p sock') p sock sock' phase at (inr refl) (λ o. o)
        (ap (λ h. update h p (some sock')) heap, pool) calm next

  pub get_local-Leads :
      (p a : ℕ) (w w' : World K) (phase : Phase)
      → get_local os p w ≡ some (a, w')
      → Leads os capacity beacon w phase w' phase
  unfolding get_local
  get_local-Leads p a w w' phase e = elim (Option-cases (w.sockets p)) [
    | inl gone ↦ no_result (rw gone at e)
    | inr (sock, at) ↦ elim (Option-cases sock.local) [
      | inr (addr, held) ↦
          rw (← one_world (rw (at, held) at e)) (none_yet os capacity beacon w phase)
      | inl unnamed ↦
          elim (Option-cases
            (update_name os os.local_name sock.id w.next (held_addr os sock.type w))) [
              | inl stuck ↦ no_result (rw (at, unnamed, stuck) at e)
              | inr (v, run) ↦ rw (← one_world (rw (at, unnamed, run) at e)) (
                  named-Leads p v.errno sock (some w.next) sock.remote w v phase at
                    (addressed os.local_name sock.id sock.type w v run))
            ]
    ]
  ]

  pub get_remote-Leads :
      (p a : ℕ) (w w' : World K) (phase : Phase)
      → get_remote os p w ≡ some (a, w')
      → Leads os capacity beacon w phase w' phase
  unfolding get_remote
  get_remote-Leads p a w w' phase e = elim (Option-cases (w.sockets p)) [
    | inl gone ↦ no_result (rw gone at e)
    | inr (sock, at) ↦ elim (Option-cases sock.remote) [
      | inr (addr, held) ↦
          rw (← one_world (rw (at, held) at e)) (none_yet os capacity beacon w phase)
      | inl unnamed ↦
          elim (Option-cases
            (update_name os os.peer_name sock.id w.next (held_addr os sock.type w))) [
              | inl stuck ↦ no_result (rw (at, unnamed, stuck) at e)
              | inr (v, run) ↦ rw (← one_world (rw (at, unnamed, run) at e)) (
                  named-Leads p v.errno sock sock.local (some w.next) w v phase at
                    (addressed os.peer_name sock.id sock.type w v run))
            ]
    ]
  ]
