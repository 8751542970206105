-- ===== src/Pool/Locking/Refines.antt =====
-- The threads of src/Pool.cpp, whose statements are interleaved, do what the steps of the pool's system
-- do, of which each is a whole scope.
use mathlib.Core.Path.{subst}
use agssock.Base.{ℕ, ◌<◌, ◌≡◌, refl, sym, ◌≢◌, inl, false, ◌||◌, is_empty, none, some, List}
use agssock.Api.Os.{Os}
use agssock.Api.Mutex.{Threads, outside, Reach}
use agssock.Api.Mutex.Atomic.{
  AtomicThreads, AtomicStep, moves_alone, runs, AtomicReach, starts_all, goes_on, scopes_are_atomic,
}
use agssock.Objects.{Heap, update, update_self, update_other}
use agssock.Pool.{new_pool, is_operating}
use agssock.Pool.System.{
  Phase, stopped, collecting, selecting, reported, is_running, System, after_start, after_round,
  LoopStep, collects, reports, processes, Step, loops, adds, removes, clears, changes, networks,
  Sound,
}
use agssock.Pool.System as Sys
use agssock.Pool.System.Safety.{Reach-Sound, operating-Sound}
use agssock.Pool.Locking.{
  Call, Shared, Local, Line, LoopEnters, Selects, by_loop, by_caller, program, at_start,
}
use agssock.Pool.Locking.Calls.{
  phase_of, system_of, Begun, loop_entry, call_entry, Works-Progress, loop-LoopStep, scope-Step,
  select-LoopStep,
}

module _ {K : Type 0} (os : Os K) (capacity beacon : ℕ) where
  -- The system of the pool, as the threads have left it
  abbrev pub view : AtomicThreads (Shared K) (Local K) → System K
  view a = system_of a.shared (phase_of (a.locals 0) a.shared.born)

  -- Where a step leads to: what is shared then, and where the loop's thread is.
  abbrev Lands : AtomicThreads (Shared K) (Local K) → Shared K → Local K → Type 0
  Lands a s loop =
      Step os capacity beacon (view a) (system_of s (phase_of loop s.born)) × Begun loop s.born

  -- A step of the loop's thread, and one of another thread, which leaves the loop where it is
  by_the_loop :
      (a : AtomicThreads (Shared K) (Local K)) (i : ℕ) (s : Shared K) (l : Local K)
      → i ≡ 0
      → LoopStep os capacity beacon (view a) (system_of s (phase_of l s.born)) × Begun l s.born
      → Lands a s (update a.locals i l 0)
  by_the_loop a i s l e (step, g) =
      let at : update a.locals i l 0 ≡ l =
        subst (λ j. update a.locals i l j ≡ l) e (update_self a.locals i l) in
      subst (Lands a s) (sym at) (loops step, g)

  by_another :
      (a : AtomicThreads (Shared K) (Local K)) (i : ℕ) (s : Shared K) (l : Local K)
      → i ≢ 0
      → Lands a s (a.locals 0)
      → Lands a s (update a.locals i l 0)
  by_another a i s l ne lands = subst (Lands a s) (sym (update_other a.locals i 0 l ne)) lands

  AtomicStep-Step :
      (a b : AtomicThreads (Shared K) (Local K))
      → AtomicStep (program capacity beacon os) a b
      → Begun (a.locals 0) a.shared.born
      → Sound beacon (view a)
      → Lands a b.shared (b.locals 0)
  unfolding program
  AtomicStep-Step a b (moves_alone i l (e, sel)) g v = by_the_loop a i a.shared l e (
      select-LoopStep os capacity beacon a.shared (a.locals 0) l
        (subst (λ j. Selects (a.locals j) l) e sel) g)
  AtomicStep-Step a b (runs i x x' s l (by_loop e enter) works (by_loop e' leave)) g v =
      let start =
        loop_entry os capacity beacon a.shared (a.locals 0) x
          (subst (λ j. LoopEnters capacity beacon a.shared (a.locals j) x) e enter) g in
      by_the_loop a i s l e (
        loop-LoopStep os capacity beacon a.shared s (a.locals 0) l x' g
          (Works-Progress os capacity beacon i _ a.shared x s x' start works) leave)
  AtomicStep-Step a b (runs i x x' s l (by_caller e enter) works (by_caller e' leave)) g v =
      let start =
        call_entry os capacity beacon (phase_of (a.locals 0) a.shared.born) a.shared (a.locals i) x
          enter in
      by_another a i s l e (
        scope-Step os capacity beacon a.shared s l (a.locals 0) x' g v
          (Works-Progress os capacity beacon i _ a.shared x s x' start works) leave)
  AtomicStep-Step a b (runs i x x' s l (by_loop e enter) works (by_caller e' leave)) g v =
      absurd (e' e)
  AtomicStep-Step a b (runs i x x' s l (by_caller e enter) works (by_loop e' leave)) g v =
      absurd (e e')

  abbrev pub start_state : Heap → K → Shared K
  start_state h k = record { pool = new_pool; heap = h; kernel = k; born = false }

  module _ (room : 0 < capacity) where
    pub atomic_lem :
        (h : Heap) (k : K) (programs : ℕ → List (Call K)) {a : AtomicThreads (Shared K) (Local K)}
        → AtomicReach (program capacity beacon os) (start_state h k) (at_start programs) a
        → Sys.Reach os capacity beacon (view a) × Begun (a.locals 0) a.shared.born
    atomic_lem h k programs starts_all = (Sys.starts h k, inl refl)
    atomic_lem h k programs (goes_on {a} {b} r st) =
        let (reached, g) = atomic_lem h k programs r in
        let (step, g') = AtomicStep-Step a b st g (Reach-Sound os capacity beacon room reached) in
        (Sys.later reached step, g')

    -- What the steps of the pool's system allow is all that can happen, whether or not the threads
    -- that are asked for can be created: let the read loop and any number of threads with calls to
    -- make be interleaved statement by statement, where each scope holds the lock of the pool and a
    -- socket that is added is live, valid and fits into an `fd_set`. Whenever no thread holds the lock,
    -- the system has come to a state that its steps reach, with each scope as one step, and the check
    -- of the pool is defined there and fails exactly if the pool is not empty and has no thread, for
    -- its sockets are valid. The beacon's pipe can hold a byte.
    pub threads_refine_system :
        (h : Heap) (k : K) (programs : ℕ → List (Call K))
        → (c : Threads (Shared K) (Local K) (Line K))
        → Reach (program capacity beacon os) (start_state h k) (at_start programs) c
        → c.mutex.holder ≡ none
        → (l : Local K) × (c.place 0 ≡ outside l)
          × Sys.Reach os capacity beacon (system_of c.shared (phase_of l c.shared.born))
          × (is_operating c.shared.heap c.shared.pool
              ≡ some (is_empty c.shared.pool.sockets || c.shared.pool.thread.active))
    threads_refine_system h k programs c r unheld =
        let (_, quiet) =
          scopes_are_atomic (program capacity beacon os) (start_state h k) (at_start programs) c
            r in
        let (a, reached, (same, out)) = quiet unheld in
        let (steps, _) = atomic_lem h k programs reached in
        let l : Local K = a.locals 0 in
        let there : Sys.Reach os capacity beacon (system_of c.shared (phase_of l c.shared.born)) =
          rw same steps in
        (l, out 0, there, operating-Sound beacon _ (Reach-Sound os capacity beacon room there))
