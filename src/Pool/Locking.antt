-- ===== src/Pool/Locking.antt =====
-- src/Pool.cpp statement by statement: the read loop and threads that call the pool, each of which
-- holds the lock `guard_` from the `Lock` at the top of a scope to the end of the scope.
mod Scopes
mod Calls
pub mod Ends
pub mod Release
mod Tests
pub mod Refines
use agssock.Base.{
  ℕ, ◌≡◌, ◌≢◌, Bool, true, false, not, ◌&&◌, Option, some, List, [], ◌∷◌, ◌++◌, length, elem,
  is_empty, ltb, ◌==◌, if◌then◌else◌, All,
}
use agssock.Api.Thread.{Thread, start, exit}
use agssock.Api.Beacon.{signal, reset}
use agssock.Api.Os.{Os}
use agssock.Api.Mutex.{Program}
use agssock.Objects.{Heap}
use agssock.Pool.{Pool, erase}
use agssock.Pool.Round.{usable, Request, read_one}
use agssock.Pool.Reading.{IsUsable}

-- What a thread may do: the calls of the pool, a change of the store, and what the network does,
-- which the loop notices from one scope to the next.
pub data Call (K : Type 0) : Type 0 where
  call_add call_remove : ℕ → Call K
  call_clear : Call K
  change_heap : Heap → Call K
  change_kernel : K → Call K

-- What the lock guards. `born` says that the read loop's thread has been created and has not come to
-- its first statement.
pub record Shared (K : Type 0) : Type 0 where
  pub pool : Pool
  pub heap : Heap
  pub kernel : K
  pub born : Bool

-- Where a thread stands outside the scopes: with calls that it has still to make, or in the read loop.
pub data Local (K : Type 0) : Type 0 where
  calls : List (Call K) → Local K
  waiting at_top : Local K
  in_select : Request → Local K
  woken : List ℕ → Local K

-- The next statement in a scope, with the variables that it needs.
pub data Line (K : Type 0) : Type 0 where
  -- `insert` of `Pool::add`, and the branch on what it returned
  at_insert : ℕ → List (Call K) → Line K
  at_branch : ℕ → Bool → List (Call K) → Line K
  -- `erase` of `Pool::remove`, and the branch on what it returned
  at_erase : ℕ → List (Call K) → Line K
  at_erased : ℕ → Bool → List (Call K) → Line K
  -- `clear` of `Pool::clear`, and the signal
  at_clear at_cleared : List (Call K) → Line K
  at_change : Call K → List (Call K) → Line K
  -- The end of a call's scope
  at_end : Call K → List (Call K) → Line K
  -- The first scope of the loop's round, with the rest of the sockets to list
  at_birth : Line K
  at_list : List ℕ → Request → Line K
  -- The second one: the test of the beacon, the sockets that stay and those to look at, and the end,
  -- with whether the thread is finished
  at_reset : List ℕ → Line K
  at_read : List ℕ → List ℕ → List ℕ → Line K
  at_last : List ℕ → Bool → Line K

-- `start`, and whether it has created the thread. `created` is the result of `pthread_create`, if the
-- thread has to be started.
abbrev pub start_thread : {K : Type 0} → Bool → Shared K → Shared K
start_thread created s = record s {
  pool = record (s.pool) { thread = start created s.pool.thread };
  born = if not s.pool.thread.active && (start created s.pool.thread).active then true else s.born;
}

abbrev pub signal_pool : {K : Type 0} → ℕ → Shared K → Shared K
signal_pool capacity s = record s {
  pool = record (s.pool) { beacon = signal capacity s.pool.beacon };
}

abbrev pub with_sockets : {K : Type 0} → Shared K → List ℕ → Shared K
with_sockets s ps = record s { pool = record (s.pool) { sockets = ps } }

abbrev pub change : {K : Type 0} → Call K → Shared K → Shared K
change (change_heap h) s = record s { heap = h }
change (change_kernel k) s = record s { kernel = k }
change _ s = s

-- The beacon alone, before the sockets are listed
abbrev pub first_request : ℕ → Request
first_request beacon = record { read = beacon ∷ []; nfds = beacon }

pub data Enters {K : Type 0} (s : Shared K) : Local K → Line K → Type 0 where
  into_add :
      (sock : ℕ) (rest : List (Call K))
      → IsUsable s.heap sock
      → Enters s (calls (call_add sock ∷ rest)) (at_insert sock rest)
  into_remove :
      (sock : ℕ) (rest : List (Call K))
      → Enters s (calls (call_remove sock ∷ rest)) (at_erase sock rest)
  into_clear : (rest : List (Call K)) → Enters s (calls (call_clear ∷ rest)) (at_clear rest)
  into_heap :
      (h : Heap) (rest : List (Call K))
      → All (λ p. usable (h p) ≡ usable (s.heap p)) s.pool.sockets
      → Enters s (calls (change_heap h ∷ rest)) (at_change (change_heap h) rest)
  into_kernel :
      (k : K) (rest : List (Call K))
      → Enters s (calls (change_kernel k ∷ rest)) (at_change (change_kernel k) rest)

pub data Leaves {K : Type 0} : Line K → Local K → Type 0 where
  from_call : (c : Call K) (rest : List (Call K)) → Leaves (at_end c rest) (calls rest)

pub data LoopLeaves {K : Type 0} : Line K → Local K → Type 0 where
  from_list : (r : Request) → LoopLeaves (at_list [] r) (in_select r)
  from_round :
      (read : List ℕ) (finished : Bool)
      → LoopLeaves (at_last read finished) (if finished then waiting else at_top)

-- `select` may report any part of what it was asked for.
pub data Selects {K : Type 0} : Local K → Local K → Type 0 where
  selects :
      (r : Request) (read : List ℕ)
      → All (λ fd. elem fd r.read ≡ true) read
      → Selects (in_select r) (woken read)

-- Thread 0 is that of the read loop.
pub data ByThread (loop caller : Type 0) (i : ℕ) : Type 0 where
  by_loop : i ≡ 0 → loop → ByThread loop caller i
  by_caller : i ≢ 0 → caller → ByThread loop caller i

module _ (capacity beacon : ℕ) where
  pub data LoopEnters {K : Type 0} (s : Shared K) : Local K → Line K → Type 0 where
    into_first : s.born ≡ true → LoopEnters s waiting at_birth
    into_list : LoopEnters s at_top (at_list s.pool.sockets (first_request beacon))
    into_process : (read : List ℕ) → LoopEnters s (woken read) (at_reset read)

  pub data Work {K : Type 0} (os : Os K) (s : Shared K) : Line K → Shared K → Line K → Type 0 where
    inserts :
        (sock : ℕ) (rest : List (Call K))
        → Work os s
            (at_insert sock rest)
            (with_sockets s
              (if elem sock s.pool.sockets then s.pool.sockets else sock ∷ s.pool.sockets))
            (at_branch sock (not (elem sock s.pool.sockets)) rest)
    branches :
        (sock : ℕ) (inserted : Bool) (rest : List (Call K))
        → Work os s
            (at_branch sock inserted rest)
            (if inserted && (length s.pool.sockets == 1)
              then start_thread (os.thread_starts s.kernel) s
              else signal_pool capacity s)
            (at_end (call_add sock) rest)
    erases :
        (sock : ℕ) (rest : List (Call K))
        → Work os s
            (at_erase sock rest)
            (with_sockets s (erase sock s.pool.sockets))
            (at_erased sock (elem sock s.pool.sockets) rest)
    signals :
        (sock : ℕ) (erased : Bool) (rest : List (Call K))
        → Work os s
            (at_erased sock erased rest)
            (if erased then signal_pool capacity s else s)
            (at_end (call_remove sock) rest)
    empties :
        (rest : List (Call K)) → Work os s (at_clear rest) (with_sockets s []) (at_cleared rest)
    signals_cleared :
        (rest : List (Call K))
        → Work os s (at_cleared rest) (signal_pool capacity s) (at_end call_clear rest)
    alters :
        (c : Call K) (rest : List (Call K))
        → Work os s (at_change c rest) (change c s) (at_end c rest)
    begins :
        Work os s at_birth
          (record s { born = false })
          (at_list s.pool.sockets (first_request beacon))
    lists :
        (p fd : ℕ) (ps : List ℕ) (r : Request)
        → usable (s.heap p) ≡ some fd
        → Work os s (at_list (p ∷ ps) r) s (
            at_list ps (record { read = fd ∷ r.read; nfds = if ltb r.nfds fd then fd else r.nfds }))
    resets :
        (read : List ℕ)
        → Work os s
            (at_reset read)
            (record s {
              pool = record (s.pool) {
                beacon = if elem beacon read then reset s.pool.beacon else s.pool.beacon;
              };
            })
            (at_read read [] s.pool.sockets)
    reads :
        (read kept : List ℕ) (p : ℕ) (ps : List ℕ) (h : Heap) (stays : Bool) (k : K)
        → read_one os read s.heap p s.kernel ≡ some (h, stays, k)
        → Work os s
            (at_read read kept (p ∷ ps))
            (record s {
              pool = record (s.pool) { sockets = (if stays then kept ++ p ∷ [] else kept) ++ ps };
              heap = h;
              kernel = k;
            })
            (at_read read (if stays then kept ++ p ∷ [] else kept) ps)
    ends :
        (read kept : List ℕ)
        → Work os s
            (at_read read kept [])
            (record s {
              pool = record (s.pool) {
                thread = if is_empty s.pool.sockets then exit s.pool.thread else s.pool.thread;
              };
            })
            (at_last read (is_empty s.pool.sockets))

  unfoldable pub program : {K : Type 0} → Os K → Program (Shared K) (Local K) (Line K)
  program os = record {
    moves = λ i l l'. (i ≡ 0) × Selects l l';
    enters = λ i s l x. ByThread (LoopEnters s l x) (Enters s l x) i;
    works = λ i s x s' x'. Work os s x s' x';
    leaves = λ i x l. ByThread (LoopLeaves x l) (Leaves x l) i;
  }

-- The loop's thread does not exist yet, and each other thread has calls to make.
abbrev pub at_start : {K : Type 0} → (ℕ → List (Call K)) → ℕ → Local K
at_start programs i = if i == 0 then waiting else calls (programs i)
