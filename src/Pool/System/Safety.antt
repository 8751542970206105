-- ===== src/Pool/System/Safety.antt =====
-- What holds in every state that the read loop and the program beside it can reach.
use mathlib.Core.Path.{subst}
use agssock.Base.{
  ℕ, ◌<◌, ◌≡◌, refl, ap, ◌∙◌, ◌⊎◌, inl, inr, true, false, ◌||◌, some, List, [], ◌∷◌, elem, is_empty,
  All, arith, Bool-cases, Option-cases,
}
use agssock.Api.Thread.{exit}
use agssock.Api.Os.{Os}
use agssock.Objects.{Heap}
use agssock.Pool.{Pool, is_operating}
use agssock.Pool.Sets.{is_operating_iff, IsValidAt, ThreadRuns}
use agssock.Pool.Round.{usable, Request, collect, process}
use agssock.Pool.Reading.{IsUsable, IsListed, collect_lem}
use agssock.Pool.System.{
  Phase, stopped, collecting, selecting, reported, System, LoopStep, collects, reports, processes,
  Step, Reach, starts, later, Sound, Inv, Awake, is_running, Listens,
}
use agssock.Pool.System.Keeps.{Step-Sound, Step-Inv, left_pool, process-total, process-empty}

usable-IsValidAt : (h : Heap) (p : ℕ) → IsUsable h p → IsValidAt h p
unfolding usable
usable-IsValidAt h p (fd, u) = elim (Option-cases (h p)) [
  | inl gone ↦ absurd (ground arith)
  | inr (sock, at) ↦ elim (Option-cases sock.id) [
    | inl closed ↦ absurd (ground arith)
    | inr (d, id) ↦ (sock, d, at, id)
  ]
]

pub All-IsValidAt : (h : Heap) (ps : List ℕ) → All (IsUsable h) ps → All (IsValidAt h) ps
All-IsValidAt h [] u = tt
All-IsValidAt h (p ∷ ps) u = (usable-IsValidAt h p u.0, All-IsValidAt h ps u.1)

-- A system whose invariant holds passes the check of the pool.
pub operating-Inv :
    {K : Type 0} (beacon : ℕ) (s : System K) → Inv beacon s → is_operating s.heap s.pool ≡ some true
operating-Inv beacon s v =
    (is_operating_iff s.heap s.pool).1
      (v.threaded, All-IsValidAt s.heap s.pool.sockets v.sound.sockets_usable)

-- The check of a sound system fails for a thread alone.
pub operating-Sound :
    {K : Type 0} (beacon : ℕ) (s : System K)
    → Sound beacon s
    → is_operating s.heap s.pool ≡ some (is_empty s.pool.sockets || s.pool.thread.active)
unfolding is_operating
operating-Sound beacon s v = elim (Bool-cases (is_empty s.pool.sockets || s.pool.thread.active)) [
  | inl fine ↦
      let runs : ThreadRuns s.pool = ground arith in
      rw fine (operating-Inv beacon s (record { sound = v; threaded = runs }))
  | inr missing ↦ ground arith
]

reported_once : {a b : List ℕ} → reported a ≡ reported b → a ≡ b
reported_once h = cc

module _ {K : Type 0} (os : Os K) (capacity beacon : ℕ) (room : 0 < capacity) where
  pub Reach-Sound : {s : System K} → Reach os capacity beacon s → Sound beacon s
  Reach-Sound (starts h k) = record {
    distinct = tt;
    sockets_usable = tt;
    running = refl;
    awake = tt;
    listens = tt;
  }
  Reach-Sound (later r st) = Step-Sound os capacity beacon room st (Reach-Sound r)

  pub next-Inv :
      ((k : K) → os.thread_starts k ≡ true)
      → {s t : System K} → Step os capacity beacon s t
      → Inv beacon s
      → Inv beacon t
  next-Inv threads {s} st v =
      let (sound, runs) = Step-Inv os capacity beacon room st v in
      let created = threads s.kernel in
      record { sound = sound; threaded = elim runs [ inl on ↦ on | inr fails ↦ cc ] }

  pub Reach-Inv :
      ((k : K) → os.thread_starts k ≡ true)
      → {s : System K} → Reach os capacity beacon s
      → Inv beacon s
  Reach-Inv threads (starts h k) = record { sound = Reach-Sound (starts h k); threaded = inl refl }
  Reach-Inv threads (later r st) = next-Inv threads st (Reach-Inv threads r)

  -- The check of the pool's two invariants passes in every reachable state, if threads can be
  -- created and only usable sockets are added.
  always_operating :
      ((k : K) → os.thread_starts k ≡ true)
      → {s : System K} → Reach os capacity beacon s
      → is_operating s.heap s.pool ≡ some true
  always_operating threads {s} r = operating-Inv beacon s (Reach-Inv threads r)

  -- No wake-up is lost: whenever the thread is in `select`, it listens to the beacon, and the beacon
  -- can be read already, or the pool is not empty and the request holds every socket of it. So no
  -- change of the pool waits for input on sockets that it was made without.
  pub no_lost_wakeup :
      {s : System K}
      → Reach os capacity beacon s
      → (r : Request) → s.phase ≡ selecting r
      → (elem beacon r.read ≡ true)
        × ((0 < s.pool.beacon.pending)
            ⊎ ((is_empty s.pool.sockets ≡ false) × All (IsListed s.heap r.read) s.pool.sockets))
  no_lost_wakeup reach r here =
      let v = Reach-Sound reach in (rw here at v.listens, rw here at v.awake)

  -- The loop never meets undefined behaviour: in every reachable state both locked parts of a round
  -- are defined.
  round_is_defined :
      {s : System K} (read : List ℕ)
      → Reach os capacity beacon s
      → ((r : Request) × (collect s.heap beacon s.pool ≡ some r))
        × ((p : Pool) × (h : Heap) × (k : K) × (process os read beacon s.heap s.pool s.kernel
              ≡ some (p, h, k)))
  round_is_defined {s} read reach =
      let v = Reach-Sound reach in
      let c = collect_lem s.heap beacon s.pool v.sockets_usable in
      (
        (c.0, c.1),
        process-total os capacity beacon room read s.heap s.pool s.kernel v.sockets_usable,
      )

  -- A step that is no return of `select`, or one for the beacon, which can be read.
  abbrev pub Woken : System K → System K → Type 0
  Woken s t =
      (read : List ℕ)
      → t.phase ≡ reported read
      → (elem beacon read ≡ true) × (0 < s.pool.beacon.pending)

  -- Steps of the loop alone, of which `select` returns only because the beacon has been signalled.
  pub data LoopRun (s : System K) : System K → Type 0 where
    here : LoopRun s s
    then_step :
        {t u : System K} → LoopRun s t → LoopStep os capacity beacon t u → Woken t u → LoopRun s u

  -- Where a run of the loop has ended.
  Stops : System K → Type 0
  Stops s = (t : System K) × LoopRun s t × (t.phase ≡ stopped) × (t.pool.thread.active ≡ false)

  LoopRun-cons :
      {s t u : System K} → LoopStep os capacity beacon s t → Woken s t → LoopRun t u → LoopRun s u
  LoopRun-cons st woken here = then_step here st woken
  LoopRun-cons st woken (then_step r st' woken') = then_step (LoopRun-cons st woken r) st' woken'

  first_step : {s t : System K} → LoopStep os capacity beacon s t → Woken s t → Stops t → Stops s
  unfolding Stops
  first_step st woken (u, r, at, off) = (u, LoopRun-cons st woken r, at, off)

  reported-Stops :
      (s : System K) (read : List ℕ) → s.phase ≡ reported read → s.pool.sockets ≡ [] → Stops s
  unfolding Stops left_pool exit
  reported-Stops s read at none_left = (
    _,
    then_step here
        (processes read (left_pool os capacity beacon room read [] s.pool) s.heap s.kernel at
          (process-empty os capacity beacon room read s.heap s.pool s.kernel none_left))
        (λ read' h. cc),
    refl,
    refl,
  )

  -- `select` returns for the beacon, which must have been signalled.
  selecting-Stops :
      (s : System K) (r : Request)
      → s.phase ≡ selecting r
      → elem beacon r.read ≡ true
      → 0 < s.pool.beacon.pending
      → s.pool.sockets ≡ []
      → Stops s
  selecting-Stops s r at hears signalled none_left =
      first_step (reports r (beacon ∷ []) at (hears, tt))
        (λ read h. (subst (λ q. elem beacon q ≡ true) (reported_once h) (ground arith), signalled))
        (reported-Stops (record s { phase = reported (beacon ∷ []) }) (beacon ∷ []) refl none_left)

  -- The loop is awake in an empty pool only for the beacon.
  pending-of_empty :
      (phase : Phase) (p : Pool) (h : Heap)
      → is_empty p.sockets ≡ true
      → Awake phase p h
      → (phase ≡ collecting) ⊎ ((r : Request) × (phase ≡ selecting r))
      → 0 < p.beacon.pending
  pending-of_empty collecting p h none_left (inl b) why = b
  pending-of_empty collecting p h none_left (inr some_left) why = absurd (ground arith)
  pending-of_empty (selecting r) p h none_left (inl b) why = b
  pending-of_empty (selecting r) p h none_left (inr (some_left, l)) why = absurd (ground arith)
  pending-of_empty stopped p h none_left a (inl e) = cc
  pending-of_empty stopped p h none_left a (inr (r, e)) = cc
  pending-of_empty (reported read) p h none_left a (inl e) = cc
  pending-of_empty (reported read) p h none_left a (inr (r, e)) = cc

  awake_signalled :
      (s : System K)
      → Sound beacon s
      → s.pool.sockets ≡ []
      → (s.phase ≡ collecting) ⊎ ((r : Request) × (s.phase ≡ selecting r))
      → 0 < s.pool.beacon.pending
  awake_signalled s v none_left why =
      pending-of_empty s.phase s.pool s.heap (ap is_empty none_left) v.awake why

  collecting-Stops :
      (s : System K) → s.phase ≡ collecting → Sound beacon s → s.pool.sockets ≡ [] → Stops s
  collecting-Stops s at v none_left =
      let (r, e, hears, listed, bounded, counted) =
        collect_lem s.heap beacon s.pool v.sockets_usable in
      first_step (collects r at e) (λ read h. cc)
        (selecting-Stops (record s { phase = selecting r }) r refl hears
          (awake_signalled s v none_left (inl at)) none_left)

  phase-Stops :
      (s : System K) (phase : Phase)
      → s.phase ≡ phase
      → Sound beacon s
      → s.pool.sockets ≡ []
      → Stops s
  unfolding Stops
  phase-Stops s stopped at v none_left = (s, here, at, v.running ∙ ap is_running at)
  phase-Stops s collecting at v none_left = collecting-Stops s at v none_left
  phase-Stops s (selecting r) at v none_left =
      selecting-Stops s r at (subst (Listens beacon) at v.listens)
        (awake_signalled s v none_left (inr (r, at))) none_left
  phase-Stops s (reported read) at v none_left = reported-Stops s read at none_left

  -- A pool that has become empty lets its thread end: from every reachable state whose pool is
  -- empty the loop can run, by its own steps alone, to where it has stopped and its flag is off. On
  -- the way `select` returns only for the beacon, and only where a signal is pending, so the run
  -- waits for no input. The beacon's pipe can hold a byte.
  pub empty_pool_stops :
      {s : System K}
      → Reach os capacity beacon s
      → s.pool.sockets ≡ []
      → (t : System K) × LoopRun s t × (t.phase ≡ stopped) × (t.pool.thread.active ≡ false)
  unfolding Stops
  empty_pool_stops {s} reach none_left = phase-Stops s s.phase refl (Reach-Sound reach) none_left
