-- ===== src/Pool/Locking/Release.antt =====
-- The lock of src/Pool.cpp is given up by every thread that has it.
use mathlib.Core.Path.{subst}
use agssock.Base.{ℕ, ◌<◌, ◌≡◌, refl, ◌∙◌, some, List}
use agssock.Api.Os.{Os}
use agssock.Api.Mutex.{Threads, Reach}
use agssock.Api.Mutex.Atomic.{AtomicThreads, Works}
use agssock.Api.Mutex.Ends.{GivesUp, Ends-GivesUp, holder_lem}
use agssock.Objects.{Heap}
use agssock.Pool.System.{Sound}
use agssock.Pool.System.Safety.{Reach-Sound}
use agssock.Pool.Locking.{
  Call, Shared, Local, Line, LoopEnters, by_loop, by_caller, program, at_start,
}
use agssock.Pool.Locking.Calls.{Begun, loop_entry, Works-Progress}
use agssock.Pool.Locking.Refines.{view, start_state, atomic_lem}
use agssock.Pool.Locking.Ends.{
  ScopeEnds, Works-in_loop, LoopEnters-in_loop, Enters-in_loop, call_ends, loop_ends,
}

module _ {K : Type 0} (os : Os K) (capacity beacon : ℕ) where
  -- A scope that has been entered where atomic steps lead to
  scope_ends :
      (i : ℕ) (a : AtomicThreads (Shared K) (Local K)) (s : Shared K) (x x' : Line K)
      → (program capacity beacon os).enters i a.shared (a.locals i) x
      → Works (program capacity beacon os) i a.shared x s x'
      → Begun (a.locals 0) a.shared.born
      → Sound beacon (view os capacity beacon a)
      → ScopeEnds os capacity beacon i s x'
  unfolding program
  scope_ends i a s x x' (by_loop e enter) works g v =
      let enter₀ : LoopEnters capacity beacon a.shared (a.locals 0) x =
        subst (λ j. LoopEnters capacity beacon a.shared (a.locals j) x) e enter in
      loop_ends os capacity beacon i e _ a.shared s x' v
        (Works-Progress os capacity beacon i _ a.shared x s x'
          (loop_entry os capacity beacon a.shared (a.locals 0) x enter₀ g) works)
        (Works-in_loop os capacity beacon i a.shared x s x' works
          ∙ LoopEnters-in_loop os capacity beacon a.shared (a.locals 0) x enter₀)
  scope_ends i a s x x' (by_caller ne enter) works g v = call_ends os capacity beacon i ne s x' (
      Works-in_loop os capacity beacon i a.shared x s x' works
      ∙ Enters-in_loop os capacity beacon a.shared (a.locals i) x enter)

  module _ (room : 0 < capacity) where
    -- A thread that has the lock of the pool can always go on to where it gives it up: let the read
    -- loop and any number of threads with calls to make be interleaved statement by statement. From
    -- wherever a thread holds the lock, a run of statements leads to where no thread holds it, with
    -- every other thread where it was: no scope, in particular no listing and no reading of the
    -- sockets, comes to a statement that is undefined. A socket that is added is live, valid and fits
    -- into an `fd_set`, and the beacon's pipe can hold a byte.
    pub lock_is_given_up :
        (h : Heap) (k : K) (programs : ℕ → List (Call K))
        → (c : Threads (Shared K) (Local K) (Line K)) (i : ℕ)
        → Reach
            (program capacity beacon os)
            (start_state os capacity beacon h k)
            (at_start programs)
            c
        → c.mutex.holder ≡ some i
        → GivesUp (program capacity beacon os) i c
    lock_is_given_up h k programs c i r holds =
        let (a, x, x', reached, enter, works, here) =
          holder_lem (program capacity beacon os) (start_state os capacity beacon h k)
            (at_start programs) c i r holds in
        let (steps, g) = atomic_lem os capacity beacon room h k programs reached in
        let v = Reach-Sound os capacity beacon room steps in
        Ends-GivesUp (program capacity beacon os) i c.shared x'
          (scope_ends i a c.shared x x' enter works g v) c refl here
