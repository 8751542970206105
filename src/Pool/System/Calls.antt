-- ===== src/Pool/System/Calls.antt =====
-- The calls of the pool keep the invariant of the pool and its thread.
use agssock.Base.{
  ℕ, ◌<◌, ◌≡◌, refl, inl, inr, Bool, true, false, not, ◌&&◌, ◌⊎◌, [], ◌∷◌, elem, is_empty,
  if◌then◌else◌, arith, Bool-cases,
}
use agssock.Api.Thread.{Thread, start}
use agssock.Api.Beacon.{signal, signal_pending}
use agssock.Objects.{Heap}
use agssock.Pool.{Pool, add, remove, clear}
use agssock.Pool.Sets.{erase-All, erase-Distinct}
use agssock.Pool.Reading.{IsUsable}
use agssock.Pool.System.{
  Phase, stopped, collecting, selecting, reported, is_running, System, after_start, with_pool,
  Awake, Listens, Sound, same_phase,
}

module _ (capacity beacon : ℕ) (room : 0 < capacity) where
  signalled : (p : Pool) → 0 < (signal capacity p.beacon).pending
  signalled p = signal_pending capacity p.beacon room

  -- A pool that was signalled keeps the loop awake.
  Awake-of_pending : (phase : Phase) (p : Pool) (h : Heap) → 0 < p.beacon.pending → Awake phase p h
  Awake-of_pending stopped p h b = tt
  Awake-of_pending collecting p h b = inl b
  Awake-of_pending (selecting r) p h b = inl b
  Awake-of_pending (reported read) p h b = tt

  pub clears-Sound :
      {K : Type 0} (s : System K)
      → Sound beacon s
      → Sound beacon (record s { pool = clear capacity s.pool })
  unfolding clear
  clears-Sound s v = record {
    distinct = tt;
    sockets_usable = tt;
    running = v.running;
    awake = Awake-of_pending s.phase _ s.heap (signalled s.pool);
    listens = v.listens;
  }

  pub removes-Sound :
      {K : Type 0} (s : System K) (sock : ℕ)
      → Sound beacon s
      → Sound beacon (record s { pool = remove capacity sock s.pool })
  unfolding remove
  removes-Sound s sock v = elim (Bool-cases (elem sock s.pool.sockets)) [
    | inl held ↦
        rw (held, remove)
          record {
            distinct = erase-Distinct sock s.pool.sockets v.distinct;
            sockets_usable = erase-All (IsUsable s.heap) sock s.pool.sockets v.sockets_usable;
            running = v.running;
            awake = Awake-of_pending s.phase _ s.heap (signalled s.pool);
            listens = v.listens;
          }
    | inr absent ↦ rw (absent, remove) v
  ]

  add-cases :
      (created : Bool) (sock : ℕ) (p : Pool)
      → ((p.sockets ≡ [])
          × (add capacity created sock p
              ≡ record p { sockets = sock ∷ []; thread = start created p.thread }))
        ⊎ ((is_empty p.sockets ≡ false)
            × (add capacity created sock p ≡ record p {
              sockets = if elem sock p.sockets then p.sockets else sock ∷ p.sockets;
              beacon = signal capacity p.beacon;
            }))
  unfolding add
  add-cases created sock p = ground arith

  -- A first socket starts the thread if one can be created, unless it is still on its way out.
  Awake-first :
      (phase : Phase) (created : Bool) (t : Thread) (sock : ℕ) (p : Pool) (h : Heap)
      → p.sockets ≡ []
      → p.thread.active ≡ is_running phase
      → Awake phase p h
      → Awake
          (after_start p.thread (start created p.thread) phase)
          (record p { sockets = sock ∷ []; thread = t })
          h
  unfolding start
  Awake-first stopped true t sock p h none_there r a = rw r (inr refl)
  Awake-first stopped false t sock p h none_there r a = rw r tt
  Awake-first collecting created t sock p h none_there r a = rw r (inr refl)
  Awake-first (selecting q) created t sock p h none_there r a = rw r (inl (ground arith))
  Awake-first (reported read) created t sock p h none_there r a = rw r tt

  running-first :
      (phase : Phase) (created : Bool) (t : Thread)
      → t.active ≡ is_running phase
      → (start created t).active ≡ is_running (after_start t (start created t) phase)
  unfolding start
  running-first stopped true t r = rw r refl
  running-first stopped false t r = rw r refl
  running-first collecting created t r = rw r refl
  running-first (selecting q) created t r = rw r refl
  running-first (reported read) created t r = rw r refl

  -- The flag does not change, or the loop starts anew.
  Listens-after :
      (phase : Phase) (b : Bool)
      → Listens beacon phase
      → Listens beacon (if b then collecting else phase)
  Listens-after phase true l = tt
  Listens-after phase false l = l

  first-Sound :
      {K : Type 0} (s : System K) (created : Bool) (sock : ℕ)
      → s.pool.sockets ≡ []
      → IsUsable s.heap sock
      → Sound beacon s
      → Sound beacon (
          with_pool s
            (record (s.pool) { sockets = sock ∷ []; thread = start created s.pool.thread }))
  unfolding start
  first-Sound s created sock none_there u v = record {
    distinct = (refl, tt);
    sockets_usable = (u, tt);
    running = running-first s.phase created s.pool.thread v.running;
    awake =
        Awake-first s.phase created (start created s.pool.thread) sock s.pool s.heap none_there
          v.running v.awake;
    listens =
        Listens-after s.phase (not s.pool.thread.active && (start created s.pool.thread).active)
          v.listens;
  }

  more-Sound :
      {K : Type 0} (s : System K) (sock : ℕ)
      → is_empty s.pool.sockets ≡ false
      → IsUsable s.heap sock
      → Sound beacon s
      → Sound beacon (
          with_pool s (record (s.pool) {
            sockets = if elem sock s.pool.sockets then s.pool.sockets else sock ∷ s.pool.sockets;
            beacon = signal capacity s.pool.beacon;
          }))
  more-Sound s sock some_there u v = rw (same_phase s.pool.thread.active s.phase) record {
    distinct = ground (arith, v.distinct);
    sockets_usable = elim (Bool-cases (elem sock s.pool.sockets)) [
      | inl held ↦ rw held v.sockets_usable
      | inr new ↦ rw new (u, v.sockets_usable)
    ];
    running = v.running;
    awake = Awake-of_pending s.phase _ s.heap (signalled s.pool);
    listens = v.listens;
  }

  pub adds-Sound :
      {K : Type 0} (s : System K) (created : Bool) (sock : ℕ)
      → IsUsable s.heap sock
      → Sound beacon s
      → Sound beacon (with_pool s (add capacity created sock s.pool))
  adds-Sound s created sock u v = elim (add-cases created sock s.pool) [
    | inl (none_there, e) ↦ rw e (first-Sound s created sock none_there u v)
    | inr (some_there, e) ↦ rw e (more-Sound s sock some_there u v)
  ]
