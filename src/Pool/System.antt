-- ===== src/Pool/System.antt =====
-- The read loop of src/Pool.cpp beside the thread that calls the pool: a step relation whose steps
-- are what runs under the pool's lock, in any order, with any behaviour of the network.
mod Calls
pub mod Keeps
pub mod Safety
pub mod Ending
use agssock.Base.{
  ℕ, ◌<◌, ◌≡◌, Bool, true, false, not, ◌&&◌, ◌⊎◌, Option, none, some, List, [], elem, is_empty,
  if◌then◌else◌, All, refl,
}
use agssock.Api.Thread.{Thread}
use agssock.Api.Os.{Os}
use agssock.Objects.{Heap}
use agssock.Pool.{Pool, new_pool, add, remove, clear}
use agssock.Pool.Sets.{Distinct, ThreadRuns}
use agssock.Pool.Round.{usable, Request, collect, process}
use agssock.Pool.Reading.{IsUsable, IsListed}

-- Where the thread is: not running, before the first locked part of a round, in `select` with its
-- request, or before the second locked part with what `select` has reported.
pub data Phase : Type 0 where
  stopped : Phase
  collecting : Phase
  selecting : Request → Phase
  reported : List ℕ → Phase

abbrev pub is_running : Phase → Bool
is_running stopped = false
is_running _ = true

pub record System (K : Type 0) : Type 0 where
  pub pool : Pool
  pub heap : Heap
  pub kernel : K
  pub phase : Phase

-- The loop starts anew when `start` has set the flag.
abbrev pub after_start : Thread → Thread → Phase → Phase
after_start old new phase = if not old.active && new.active then collecting else phase

-- A flag that stays leaves the loop where it is.
pub same_phase :
    (active : Bool) (phase : Phase) → (if not active && active then collecting else phase) ≡ phase
same_phase true phase = refl
same_phase false phase = refl

-- A system whose pool has been handed to `add`.
abbrev pub with_pool : {K : Type 0} → System K → Pool → System K
with_pool s p = record s { pool = p; phase = after_start s.pool.thread p.thread s.phase }

-- What the loop does when the second locked part is over.
abbrev pub after_round : Pool → Phase
after_round p = if is_empty p.sockets then stopped else collecting

module _ {K : Type 0} (os : Os K) (capacity beacon : ℕ) where
  -- The steps of the loop itself. `select` may report any part of what it was asked for, so that what
  -- is shown of all runs does not rest on what it reports.
  pub data LoopStep (s : System K) : System K → Type 0 where
    collects :
        (r : Request)
        → s.phase ≡ collecting
        → collect s.heap beacon s.pool ≡ some r
        → LoopStep s (record s { phase = selecting r })
    reports :
        (r : Request) (read : List ℕ)
        → s.phase ≡ selecting r
        → All (λ fd. elem fd r.read ≡ true) read
        → LoopStep s (record s { phase = reported read })
    processes :
        (read : List ℕ) (p : Pool) (h : Heap) (k : K)
        → s.phase ≡ reported read
        → process os read beacon s.heap s.pool s.kernel ≡ some (p, h, k)
        → LoopStep s (record { pool = p; heap = h; kernel = k; phase = after_round p })

  -- The steps of the rest of the program: the operations of the pool, of which `add` is called for
  -- a usable socket, and starts a thread if the system can; changes of the store that leave the descriptors of the
  -- pool's sockets; and what the network does.
  pub data Step (s : System K) : System K → Type 0 where
    loops : {t : System K} → LoopStep s t → Step s t
    adds :
        (sock : ℕ)
        → IsUsable s.heap sock
        → Step s (with_pool s (add capacity (os.thread_starts s.kernel) sock s.pool))
    removes : (sock : ℕ) → Step s (record s { pool = remove capacity sock s.pool })
    clears : Step s (record s { pool = clear capacity s.pool })
    changes :
        (h : Heap)
        → All (λ p. usable (h p) ≡ usable (s.heap p)) s.pool.sockets
        → Step s (record s { heap = h })
    networks : (k : K) → Step s (record s { kernel = k })

  pub data Reach : System K → Type 0 where
    starts :
        (h : Heap) (k : K)
        → Reach (record { pool = new_pool; heap = h; kernel = k; phase = stopped })
    later : {s t : System K} → Reach s → Step s t → Reach t

-- While the thread is on its way into `select` or in it, the beacon can be read, or the pool is not
-- empty and, in `select`, all its sockets are listened to.
abbrev pub Awake : Phase → Pool → Heap → Type 0
Awake collecting p h = (0 < p.beacon.pending) ⊎ (is_empty p.sockets ≡ false)
Awake (selecting r) p h =
    (0 < p.beacon.pending) ⊎ ((is_empty p.sockets ≡ false) × All (IsListed h r.read) p.sockets)
Awake _ p h = Unit {0}

-- A request listens to the beacon.
abbrev pub Listens : ℕ → Phase → Type 0
Listens beacon (selecting r) = elem beacon r.read ≡ true
Listens beacon _ = Unit {0}

-- What holds whether or not threads can be created
pub record Sound {K : Type 0} (beacon : ℕ) (s : System K) : Type 0 where
  pub distinct : Distinct s.pool.sockets
  pub sockets_usable : All (IsUsable s.heap) s.pool.sockets
  pub running : s.pool.thread.active ≡ is_running s.phase
  pub awake : Awake s.phase s.pool s.heap
  pub listens : Listens beacon s.phase

-- With invariant I of the source: a pool that is not empty has a thread.
pub record Inv {K : Type 0} (beacon : ℕ) (s : System K) : Type 0 where
  pub sound : Sound beacon s
  pub threaded : ThreadRuns s.pool
