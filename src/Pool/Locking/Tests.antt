-- ===== src/Pool/Locking/Tests.antt =====
-- A thread that adds a socket, statement by statement, beside the read loop.
use agssock.Base.{
  ℕ, ◌≡◌, ◌≢◌, refl, none, some, true, List, [], ◌∷◌, ◌==◌, is_empty, ◌||◌, if◌then◌else◌, arith,
}
use agssock.Api.Mutex.{
  Threads, outside, inside, Reach, starts, later, lock, unlock, enters, works, leaves,
}
use agssock.Api.Mutex.Atomic.{AtomicThreads, AtomicReach, SameOutside, scopes_are_atomic}
use agssock.Objects.{Heap, update}
use agssock.Pool.{is_operating}
use agssock.Pool.Tests.{opened, failing}
use agssock.Pool.Round.{usable}
use agssock.Pool.System as Sys
use agssock.Pool.Locking.{
  Call, call_add, Shared, Local, Line, into_add, inserts, branches, from_call, by_caller, program,
  at_start,
}
use agssock.Pool.Locking.Calls.{phase_of, system_of}
use agssock.Api.Mutex.Ends.{GivesUp}
use agssock.Pool.Locking.Release.{lock_is_given_up}
use agssock.Pool.Locking.Refines.{start_state, threads_refine_system}

abbrev heap : Heap
heap = update (λ p. none) 9 (some opened)

-- Thread 1 adds the socket; the others do nothing.
abbrev programs : ℕ → List (Call ℕ)
programs i = if i == 1 then call_add 9 ∷ [] else []

abbrev Run : Threads (Shared ℕ) (Local ℕ) (Line ℕ) → Type 0
Run = Reach (program 16 3 failing) (start_state failing 16 3 heap 0) (at_start programs)

added : (c : Threads (Shared ℕ) (Local ℕ) (Line ℕ)) × Run c × (c.mutex.holder ≡ none)
unfolding program lock unlock usable
added = (
  _,
  later
      (later
        (later
          (later starts
            (enters 1 _ _ _ refl refl (by_caller (λ e. omega arith) (into_add 9 [] (4, refl)))))
          (works 1 _ _ _ refl (inserts 9 [])))
        (works 1 _ _ _ refl (branches 9 true [])))
      (leaves 1 _ _ refl (by_caller (λ e. omega arith) (from_call (call_add 9) []))),
  refl,
)

-- The pool's system, as the threads have left it
abbrev Outcome : Threads (Shared ℕ) (Local ℕ) (Line ℕ) → Type 0
Outcome c =
    (l : Local ℕ) × (c.place 0 ≡ outside l)
    × Sys.Reach failing 16 3 (system_of c.shared (phase_of l c.shared.born))
    × (is_operating c.shared.heap c.shared.pool
        ≡ some (is_empty c.shared.pool.sockets || c.shared.pool.thread.active))

threads_refine_system_example : Outcome added.0
threads_refine_system_example =
    threads_refine_system failing 16 3 (omega arith) heap 0 programs added.0 added.1 added.2

-- One thread in a scope at most, and atomic steps that lead to where the threads are
abbrev Atomically : Threads (Shared ℕ) (Local ℕ) (Line ℕ) → Type 0
Atomically c =
    ((i : ℕ) (x : Line ℕ)
      → c.place i ≡ inside x
      → (c.mutex.holder ≡ some i) × ((k : ℕ) → i ≢ k → (l : Local ℕ) × (c.place k ≡ outside l)))
    × (c.mutex.holder ≡ none
        → (a : AtomicThreads (Shared ℕ) (Local ℕ)) × AtomicReach (program 16 3 failing)
            (start_state failing 16 3 heap 0) (at_start programs) a
          × SameOutside (program 16 3 failing) c a)

scopes_are_atomic_example : Atomically added.0
scopes_are_atomic_example =
    scopes_are_atomic (program 16 3 failing) (start_state failing 16 3 heap 0) (at_start programs)
      added.0 added.1

-- The same thread behind the insertion, with the lock
inserted : (c : Threads (Shared ℕ) (Local ℕ) (Line ℕ)) × Run c × (c.mutex.holder ≡ some 1)
unfolding program lock usable
inserted = (
  _,
  later
      (later starts
        (enters 1 _ _ _ refl refl (by_caller (λ e. omega arith) (into_add 9 [] (4, refl)))))
      (works 1 _ _ _ refl (inserts 9 [])),
  refl,
)

lock_is_given_up_example : GivesUp (program 16 3 failing) 1 inserted.0
lock_is_given_up_example =
    lock_is_given_up failing 16 3 (omega arith) heap 0 programs inserted.0 1 inserted.1 inserted.2
