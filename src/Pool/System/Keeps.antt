-- ===== src/Pool/System/Keeps.antt =====
-- Every step keeps the invariant of the pool and its thread.
use agssock.Base.{
  ℕ, ◌<◌, ◌≡◌, refl, ap, ◌∙◌, ◌⊎◌, inl, inr, Bool, true, false, some, List, [], ◌∷◌, elem, is_empty,
  if◌then◌else◌, All, arith, Option-cases,
}
use agssock.Api.Thread.{exit, start}
use agssock.Api.Beacon.{reset}
use agssock.Api.Os.{Os}
use agssock.Objects.{Heap}
use agssock.Pool.{Pool, add, remove, clear, erase}
use agssock.Pool.Sets.{Distinct, ThreadRuns}
use agssock.Pool.Round.{usable, Request, collect, process, pass}
use agssock.Pool.Reading.{IsUsable, IsListed, collect_lem}
use agssock.Pool.Passes.{IsUsable-All, pass-Passed, usable-Passed, Passed-All, pass-total}
use agssock.Pool.Deliver.{Passed-Distinct}
use agssock.Pool.System.Calls.{adds-Sound, removes-Sound, clears-Sound}
use agssock.Pool.System.{
  Phase, stopped, collecting, selecting, reported, is_running, System, after_round, LoopStep,
  collects, reports, processes, Step, loops, adds, removes, clears, changes, networks, Awake, Sound,
  Inv,
}

module _ {K : Type 0} (os : Os K) (capacity beacon : ℕ) (room : 0 < capacity) where
  same_usable :
      (h h' : Heap) (ps : List ℕ)
      → All (λ p. usable (h' p) ≡ usable (h p)) ps
      → All (IsUsable h) ps
      → All (IsUsable h') ps
  same_usable h h' [] same u = tt
  same_usable h h' (p ∷ ps) same ((fd, at), us) = ((fd, same.0 ∙ at), same_usable h h' ps same.1 us)

  same-IsListed :
      (h h' : Heap) (read ps : List ℕ)
      → All (λ p. usable (h' p) ≡ usable (h p)) ps
      → All (IsListed h read) ps
      → All (IsListed h' read) ps
  same-IsListed h h' read [] same l = tt
  same-IsListed h h' read (p ∷ ps) same ((fd, at, listed), ls) =
      ((fd, same.0 ∙ at, listed), same-IsListed h h' read ps same.1 ls)

  Awake-same :
      (phase : Phase) (p : Pool) (h h' : Heap)
      → All (λ q. usable (h' q) ≡ usable (h q)) p.sockets
      → Awake phase p h
      → Awake phase p h'
  Awake-same stopped p h h' same a = tt
  Awake-same collecting p h h' same a = a
  Awake-same (selecting r) p h h' same (inl b) = inl b
  Awake-same (selecting r) p h h' same (inr (e, l)) =
      inr (e, same-IsListed h h' r.read p.sockets same l)
  Awake-same (reported read) p h h' same a = tt

  changes-Sound :
      (s : System K) (h : Heap)
      → All (λ p. usable (h p) ≡ usable (s.heap p)) s.pool.sockets
      → Sound beacon s
      → Sound beacon (record s { heap = h })
  changes-Sound s h same v = record {
    distinct = v.distinct;
    sockets_usable = same_usable s.heap h s.pool.sockets same v.sockets_usable;
    running = v.running;
    awake = Awake-same s.phase s.pool s.heap h same v.awake;
    listens = v.listens;
  }

  Awake-collected :
      (p : Pool) (h : Heap) (r : Request)
      → Awake collecting p h
      → All (IsListed h r.read) p.sockets
      → Awake (selecting r) p h
  Awake-collected p h r (inl b) l = inl b
  Awake-collected p h r (inr e) l = inr (e, l)

  collects-Sound :
      (s : System K) (r : Request)
      → s.phase ≡ collecting
      → collect s.heap beacon s.pool ≡ some r
      → Sound beacon s
      → Sound beacon (record s { phase = selecting r })
  collects-Sound s r here e v =
      let (r', e', hears, listed, bounded, counted) =
        collect_lem s.heap beacon s.pool v.sockets_usable in
      let same : r' ≡ r = ground arith in
      record {
        distinct = v.distinct;
        sockets_usable = v.sockets_usable;
        running = v.running ∙ ap is_running here;
        awake = Awake-collected s.pool s.heap r (rw here at v.awake) (rw same at listed);
        listens = rw (← same) hears;
      }

  reports-Sound :
      (s : System K) (r : Request) (read : List ℕ)
      → s.phase ≡ selecting r
      → Sound beacon s
      → Sound beacon (record s { phase = reported read })
  reports-Sound s r read here v = record {
    distinct = v.distinct;
    sockets_usable = v.sockets_usable;
    running = v.running ∙ ap is_running here;
    awake = tt;
    listens = tt;
  }

  -- The pool that the second locked part leaves.
  unfoldable pub left_pool : List ℕ → List ℕ → Pool → Pool
  left_pool read rest p = record {
    sockets = rest;
    beacon = if elem beacon read then reset p.beacon else p.beacon;
    thread = if is_empty rest then exit p.thread else p.thread;
  }

  pub process-some :
      (read : List ℕ) (h : Heap) (p : Pool) (k : K) (p' : Pool) (h' : Heap) (k' : K)
      → process os read beacon h p k ≡ some (p', h', k')
      → (rest : List ℕ) × (pass os read h p.sockets k ≡ some (rest, h', k'))
        × (p' ≡ left_pool read rest p)
  unfolding process left_pool
  process-some read h p k p' h' k' e = elim (Option-cases (pass os read h p.sockets k)) [
    | inl stuck ↦ absurd (ground arith)
    | inr ((rest, h₁, k₁), e₁) ↦ (rest, ground arith, ground arith)
  ]

  -- A pool of usable sockets goes through the second locked part.
  pub process-total :
      (read : List ℕ) (h : Heap) (p : Pool) (k : K)
      → All (IsUsable h) p.sockets
      → (p' : Pool) × (h' : Heap) × (k' : K) × (process os read beacon h p k ≡ some (p', h', k'))
  unfolding process left_pool
  process-total read h p k u =
      let (rest, h', k', e) = pass-total os read h p.sockets k u in
      (left_pool read rest p, h', k', rw (e, process) refl)

  pub process-empty :
      (read : List ℕ) (h : Heap) (p : Pool) (k : K)
      → p.sockets ≡ []
      → process os read beacon h p k ≡ some (left_pool read [] p, h, k)
  unfolding process left_pool pass
  process-empty read h p k none_left = rw (none_left, process) refl

  left-Sound :
      (read rest : List ℕ) (p : Pool) (h : Heap) (k : K)
      → p.thread.active ≡ true
      → Distinct rest
      → All (IsUsable h) rest
      → Sound beacon (record {
        pool = left_pool read rest p;
        heap = h;
        kernel = k;
        phase = after_round (left_pool read rest p);
      })
  unfolding left_pool exit
  left-Sound read [] p h k r d u = record {
    distinct = d;
    sockets_usable = u;
    running = refl;
    awake = tt;
    listens = tt;
  }
  left-Sound read (q ∷ qs) p h k r d u = record {
    distinct = d;
    sockets_usable = u;
    running = r;
    awake = inr refl;
    listens = tt;
  }

  processes-Sound :
      (s : System K) (read : List ℕ) (p : Pool) (h : Heap) (k : K)
      → s.phase ≡ reported read
      → process os read beacon s.heap s.pool s.kernel ≡ some (p, h, k)
      → Sound beacon s
      → Sound beacon (record { pool = p; heap = h; kernel = k; phase = after_round p })
  processes-Sound s read p h k here e v =
      let (rest, passed, ep) = process-some read s.heap s.pool s.kernel p h k e in
      let run = pass-Passed os read s.heap s.pool.sockets s.kernel rest h k passed in
      rw ep (
        left-Sound read rest s.pool h k (v.running ∙ ap is_running here)
          (Passed-Distinct os read run v.distinct)
          (IsUsable-All s.heap h (usable-Passed os read run) rest
            (Passed-All os read (IsUsable s.heap) run v.sockets_usable)))

  networks-Sound : (s : System K) (k : K) → Sound beacon s → Sound beacon (record s { kernel = k })
  networks-Sound s k v = record {
    distinct = v.distinct;
    sockets_usable = v.sockets_usable;
    running = v.running;
    awake = v.awake;
    listens = v.listens;
  }

  LoopStep-Sound :
      {s t : System K} → LoopStep os capacity beacon s t → Sound beacon s → Sound beacon t
  LoopStep-Sound {s} (collects r here e) v = collects-Sound s r here e v
  LoopStep-Sound {s} (reports r read here some_of) v = reports-Sound s r read here v
  LoopStep-Sound {s} (processes read p h k here e) v = processes-Sound s read p h k here e v

  -- Each step keeps what does not rest on the creation of threads.
  pub Step-Sound : {s t : System K} → Step os capacity beacon s t → Sound beacon s → Sound beacon t
  Step-Sound (loops st) v = LoopStep-Sound st v
  Step-Sound {s} (adds sock u) v =
      adds-Sound capacity beacon room s (os.thread_starts s.kernel) sock u v
  Step-Sound {s} (removes sock) v = removes-Sound capacity beacon room s sock v
  Step-Sound {s} clears v = clears-Sound capacity beacon room s v
  Step-Sound {s} (changes h same) v = changes-Sound s h same v
  Step-Sound {s} (networks k) v = networks-Sound s k v

  left_runs :
      (read rest : List ℕ) (p : Pool) → p.thread.active ≡ true → ThreadRuns (left_pool read rest p)
  unfolding left_pool
  left_runs read [] p r = inl refl
  left_runs read (q ∷ qs) p r = inr r

  add_runs :
      (created : Bool) (sock : ℕ) (p : Pool)
      → ThreadRuns p
      → ThreadRuns (add capacity created sock p) ⊎ (created ≡ false)
  unfolding add start
  add_runs true sock p runs = inl (ground arith)
  add_runs false sock p runs = inr refl

  remove_runs : (sock : ℕ) (p : Pool) → ThreadRuns p → ThreadRuns (remove capacity sock p)
  unfolding remove erase
  remove_runs sock p runs = ground arith

  LoopStep-runs :
      {s t : System K} → LoopStep os capacity beacon s t → Inv beacon s → ThreadRuns t.pool
  LoopStep-runs (collects r here e) v = v.threaded
  LoopStep-runs (reports r read here some_of) v = v.threaded
  LoopStep-runs {s} (processes read p h k here e) v =
      let (rest, passed, ep) = process-some read s.heap s.pool s.kernel p h k e in
      rw ep (left_runs read rest s.pool (v.sound.running ∙ ap is_running here))

  -- Each step, of the loop or of the program that uses the pool, keeps the invariant, if the thread
  -- that it may have to create can be created: the sockets are distinct and usable, the thread's flag
  -- says where the loop is, invariant I holds, and a thread in `select` listens to the beacon and to
  -- all sockets, unless the beacon wakes it. Where the thread cannot be created, all of this but
  -- invariant I is kept. The beacon's pipe can hold a byte.
  pub Step-Inv :
      {s t : System K}
      → Step os capacity beacon s t
      → Inv beacon s
      → Sound beacon t × (ThreadRuns t.pool ⊎ (os.thread_starts s.kernel ≡ false))
  unfolding clear
  Step-Inv {s} {t} st v = (Step-Sound st v.sound, runs st)
    where
      runs :
          {u : System K}
          → Step os capacity beacon s u
          → ThreadRuns u.pool ⊎ (os.thread_starts s.kernel ≡ false)
      runs (loops l) = inl (LoopStep-runs l v)
      runs (adds sock u) = add_runs (os.thread_starts s.kernel) sock s.pool v.threaded
      runs (removes sock) = inl (remove_runs sock s.pool v.threaded)
      runs clears = inl (inl refl)
      runs (changes h same) = inl v.threaded
      runs (networks k) = inl v.threaded
