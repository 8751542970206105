-- ===== src/Socket/Connect/Joins.antt =====
-- What the functions of src/Socket.cpp that add sockets to the pool share: a socket that joins it, by
-- a check of the pool that passes.
use agssock.Base.{
  ℕ, ◌≡◌, refl, ◌∙◌, inl, inr, Bool, true, false, Option, none, some, List, [], ◌∷◌, elem, All,
  arith, ◌==◌, Bool-cases, ==_iff,
}
use agssock.Api.Os.{Os, Result}
use agssock.Api.Thread.{start}
use agssock.Objects.{Socket, Heap, update}
use agssock.SockAddr.{SockAddr}
use agssock.Pool.{Pool, add}
use agssock.Pool.Sets.{ThreadRuns, IsValidAt, is_operating_iff}
use agssock.Base.Memory.{write_at}
use agssock.Socket.Send.Loop.{Result-cases}
use agssock.World.{World, store, pool_add, check_pool_invariant}
use agssock.Socket.Connect.{join_pool, connect_call}
use agssock.Socket.Create.{update_name, refresh, setblocking}

-- A pool in which the thread runs if it has to, and all sockets are live and open.
abbrev pub Operating : {K : Type 0} → World K → Type 0
Operating w = ThreadRuns w.pool × All (IsValidAt w.sockets) w.pool.sockets

pub store_valid :
    (h : Heap) (p : ℕ) (sock : Socket) (fd : ℕ) (ps : List ℕ)
    → sock.id ≡ some fd
    → All (IsValidAt h) ps
    → All (IsValidAt (update h p (some sock))) ps
store_valid h p sock fd [] id v = tt
store_valid h p sock fd (q ∷ qs) id ((sock', fd', at, id'), vs) = (
  elim (Bool-cases (p == q)) [
    | inl same ↦ (sock, fd, rw same refl, id)
    | inr other ↦ (sock', fd', rw other at, id')
  ],
  store_valid h p sock fd qs id vs,
)

-- Storing a socket with the descriptor that it had keeps the valid sockets valid.
pub restore_valid :
    (h : Heap) (p : ℕ) (sock sock' : Socket) (ps : List ℕ)
    → h p ≡ some sock
    → sock'.id ≡ sock.id
    → All (IsValidAt h) ps
    → All (IsValidAt (update h p (some sock'))) ps
restore_valid h p sock sock' [] at same v = tt
restore_valid h p sock sock' (q ∷ qs) at same ((s, fd, at', id), vs) = (
  elim (Bool-cases (p == q)) [
    | inl here ↦
        let there : h p ≡ some s = rw ((==_iff p q).0 here) at' in
        (sock', fd, rw here refl, ground arith)
    | inr other ↦ (s, fd, rw other at', id)
  ],
  restore_valid h p sock sock' qs at same vs,
)

add_runs : (capacity p : ℕ) (pool : Pool) → ThreadRuns pool → ThreadRuns (add capacity true p pool)
unfolding add start
add_runs capacity p pool runs = ground arith

add_valid :
    (capacity p : ℕ) (created : Bool) (pool : Pool) (h : Heap)
    → All (IsValidAt h) pool.sockets
    → IsValidAt h p
    → All (IsValidAt h) (add capacity created p pool).sockets
unfolding add
add_valid capacity p created pool h vs v = ground arith

add_member :
    (capacity p : ℕ) (created : Bool) (pool : Pool)
    → elem p (add capacity created p pool).sockets ≡ true
unfolding add
add_member capacity p created pool = ground arith

-- A call that leaves the sockets, the pool and the engine, and allocates nothing.
abbrev pub Kept : {K : Type 0} → World K → World K → Type 0
Kept w w' =
    (w'.sockets ≡ w.sockets) × (w'.pool ≡ w.pool) × (w'.calls ≡ w.calls) × (w'.next ≡ w.next)

-- An address object that a socket may hold is live.
abbrev pub Held : {K : Type 0} → World K → Option ℕ → Type 0
Held w none = Unit {0}
Held w (some a) = (target : SockAddr) × (w.addrs a ≡ some target)

pub updated : (h : Heap) (p : ℕ) (sock : Socket) → update h p (some sock) p ≡ some sock
updated h p sock = ground arith

pub Held-Kept :
    {K : Type 0} (w w' : World K) (o : Option ℕ) → w'.addrs ≡ w.addrs → Held w o → Held w' o
Held-Kept w w' none same h = tt
Held-Kept w w' (some a) same (target, at) = (target, rw same at)

module _ {K : Type 0} (os : Os K) where
  update_lem :
      (call : Option ℕ → K → Result (List ℕ) × K) (id : Option ℕ) (a : ℕ) (target : SockAddr)
      (w : World K)
      → w.addrs a ≡ some target
      → (w' : World K) × (update_name os call id a w ≡ some w') × Kept w w'
  unfolding update_name
  update_lem call id a target w at = elim (Result-cases (call id w.kernel).0) [
    | inl (name, e) ↦ (
      record w {
        kernel = (call id w.kernel).1;
        addrs = update w.addrs a (some (record { bytes = write_at 0 name target.bytes }));
      },
      rw (at, e, update_name) (rw e refl),
      (refl, refl, refl, refl),
    )
    | inr (errno, e) ↦ (
      record w { kernel = (call id w.kernel).1; errno = errno },
      rw (at, e, update_name) (rw e refl),
      (refl, refl, refl, refl),
    )
  ]

  pub connect_call_lem :
      (sock : Socket) (target : List ℕ) (async : Bool) (w : World K)
      → Kept w (connect_call os sock target async w).1
        × ((connect_call os sock target async w).1.addrs ≡ w.addrs)
  unfolding connect_call setblocking
  connect_call_lem sock target true w = ((refl, refl, refl, refl), refl)
  connect_call_lem sock target false w = ((refl, refl, refl, refl), refl)

module _ {K : Type 0} (os : Os K) (capacity : ℕ) where
  -- A live and open socket joins an operating pool without an abort, if a thread can start.
  pub join_lem :
      (p : ℕ) (w : World K)
      → Operating w
      → IsValidAt w.sockets p
      → os.thread_starts w.kernel ≡ true
      → (w' : World K) × (join_pool os capacity p w ≡ some w')
        × Operating w'
        × (elem p w'.pool.sockets ≡ true)
        × (w'.calls ≡ w.calls)
        × (w'.sockets ≡ w.sockets)
  unfolding join_pool pool_add check_pool_invariant
  join_lem p w (runs, valid) v starts =
      let w' : World K = pool_add os capacity w p in
      let runs' : ThreadRuns w'.pool = rw starts (add_runs capacity p w.pool runs) in
      let valid' : All (IsValidAt w.sockets) w'.pool.sockets =
        add_valid capacity p (os.thread_starts w.kernel) w.pool w.sockets valid v in
      let operating = (is_operating_iff w.sockets w'.pool).1 (runs', valid') in
      (
        w',
        rw operating refl,
        (runs', valid'),
        add_member capacity p (os.thread_starts w.kernel) w.pool,
        refl,
        refl,
      )

  pub refresh_lem :
      (call : Option ℕ → K → Result (List ℕ) × K) (id o : Option ℕ) (w : World K)
      → Held w o
      → (w' : World K) × (refresh os call id o w ≡ some w') × Kept w w'
  unfolding refresh
  refresh_lem call id none w h = (w, refl, (refl, refl, refl, refl))
  refresh_lem call id (some a) w (target, at) = update_lem os call id a target w at

  -- Both at once, as the functions call them on a socket that they have stored.
  pub refresh_join_lem :
      (call : Option ℕ → K → Result (List ℕ) × K) (p fd : ℕ) (o : Option ℕ) (w : World K)
      (sock : Socket)
      → Operating w
      → Held w o
      → sock.id ≡ some fd
      → ((k : K) → os.thread_starts k ≡ true)
      → let stored = store w p sock in
        (w₁ w₂ : World K) × (refresh os call sock.id o stored ≡ some w₁)
        × (join_pool os capacity p w₁ ≡ some w₂)
        × Kept stored w₁
        × Operating w₁
        × Operating w₂
        × (elem p w₂.pool.sockets ≡ true)
        × (w₂.calls ≡ w.calls)
        × (w₂.sockets ≡ update w.sockets p (some sock))
  refresh_join_lem call p fd o w sock (runs, valid) held id starts =
      let (w₁, run, kept) = refresh_lem call sock.id o (store w p sock) held in
      let operating : Operating w₁ = (
        rw kept.1 runs,
        rw (kept.0, kept.1) (store_valid w.sockets p sock fd w.pool.sockets id valid),
      ) in
      let live : IsValidAt w₁.sockets p = (sock, fd, rw kept.0 (updated w.sockets p sock), id) in
      let (w₂, run', operating', member, calls, heap) =
        join_lem p w₁ operating live (starts w₁.kernel) in
      (w₁, w₂, run, run', kept, operating, operating', member, calls ∙ kept.2, heap ∙ kept.0)
