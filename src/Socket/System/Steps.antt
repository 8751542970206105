-- ===== src/Socket/System/Steps.antt =====
-- The steps that the functions of src/Socket.cpp are made of, as runs of the pool's system.
use agssock.Base.{
  ℕ, ◌<◌, ◌≡◌, refl, ap, ◌∙◌, true, false, Option, some, elem, arith, inl, inr, if◌then◌else◌, ◌⊎◌,
  sym, not, ◌&&◌, one_result, ◌≤◌, suc,
}
use agssock.Api.Os.{Os}
use agssock.Objects.{Socket, update}
use agssock.Pool.{add, is_operating}
use agssock.Pool.Reading.{IsUsable}
use agssock.Pool.System.{
  Phase, System, adds, removes, changes, networks, Sound, Inv, after_start, with_pool, is_running,
  same_phase, collecting,
}
use agssock.Pool.System.Keeps.{Step-Sound}
use agssock.Pool.System.Safety.{operating-Inv, next-Inv}
use agssock.World.{World, store, pool_add, pool_remove, check_pool_invariant}
use agssock.Socket.Receive.Leaves.{Leaves}
use mathlib.Core.Path.{subst}
use agssock.Pool.Open.{IsOpen, IsOpenAt, away_open}
use agssock.Socket.Connect.{join_pool}
use agssock.Socket.System.Heaps.{
  usable_kept, usable_away, open_kept, removed_open, added_open, Fresh-live, Fresh-next,
}
use agssock.Socket.System.{view, aborts, Runs, stays, runs_on, Leads, Follows, Fresh}

module _ {K : Type 0} (os : Os K) (capacity beacon : ℕ) where
  pub none_yet : (w : World K) (phase : Phase) → Leads os capacity beacon w phase w phase
  none_yet w phase = (stays, refl, λ o. o, λ f. f)

  pub kept-Leads :
      (w v v' : World K) (phase phase' : Phase)
      → v'.sockets ≡ v.sockets
      → v'.pool ≡ v.pool
      → v'.calls ≡ v.calls
      → v'.next ≡ v.next
      → Leads os capacity beacon w phase v phase'
      → Leads os capacity beacon w phase v' phase'
  kept-Leads w v v' phase phase' heap pool calls next (run, calm, opens, news) = (
    rw (heap, pool) (runs_on run (networks v'.kernel)),
    ap aborts calls ∙ calm,
    λ o. rw (heap, pool) (opens o),
    λ f q h. rw heap (news f q (rw (← next) h)),
  )

  pub stored-Leads :
      (w v : World K) (p : ℕ) (sock sock' : Socket) (phase phase' : Phase)
      → v.sockets p ≡ some sock
      → sock'.id ≡ sock.id
      → (IsOpen sock → IsOpen sock')
      → Leads os capacity beacon w phase v phase'
      → Leads os capacity beacon w phase (store v p sock') phase'
  stored-Leads w v p sock sock' phase phase' at same more (run, calm, opens, news) = (
    runs_on run (
        changes (update v.sockets p (some sock'))
          (usable_kept v.sockets p sock sock' v.pool.sockets at same)),
    calm,
    λ o. open_kept v.sockets p sock sock' v.pool.sockets at more (opens o),
    λ f. Fresh-live v p sock (some sock') at (news f),
  )

  pub away-Leads :
      (w v : World K) (p : ℕ) (o : Option Socket) (phase phase' : Phase)
      → elem p v.pool.sockets ≡ false
      → (Fresh v → Fresh (record v { sockets = update v.sockets p o }))
      → Leads os capacity beacon w phase v phase'
      → Leads os capacity beacon w phase (record v { sockets = update v.sockets p o }) phase'
  away-Leads w v p o phase phase' out free (run, calm, opens, news) = (
    runs_on run (changes (update v.sockets p o) (usable_away v.sockets p o v.pool.sockets out)),
    calm,
    λ pool.
        away_open v.sockets (update v.sockets p o) v.pool.sockets p (λ q ne. ground arith) out
          (opens pool),
    λ f. free (news f),
  )

  -- A new object is in no pool.
  pub new-Leads :
      (w v : World K) (sock : Socket) (phase phase' : Phase)
      → elem v.next v.pool.sockets ≡ false
      → Leads os capacity beacon w phase v phase'
      → Leads os capacity beacon w phase (store (record v { next = suc v.next }) v.next sock) phase'
  new-Leads w v sock phase phase' out (run, calm, opens, news) = (
    runs_on run (
        changes (update v.sockets v.next (some sock))
          (usable_away v.sockets v.next (some sock) v.pool.sockets out)),
    calm,
    λ pool.
        away_open v.sockets (update v.sockets v.next (some sock)) v.pool.sockets v.next
          (λ q ne. ground arith) out (opens pool),
    λ f. Fresh-next v (some sock) (news f),
  )

  pub removed-Leads :
      (w v : World K) (p : ℕ) (phase phase' : Phase)
      → Leads os capacity beacon w phase v phase'
      → Leads os capacity beacon w phase (pool_remove capacity v p) phase'
  unfolding pool_remove
  removed-Leads w v p phase phase' (run, calm, opens, news) =
      (runs_on run (removes p), calm, λ o. removed_open v.sockets capacity p v.pool (opens o), news)

  -- A call that changes one socket, and not its descriptor unless the pool does not hold it.
  pub noted-Leads :
      (w w' : World K) (p : ℕ) (sock sock' : Socket) (phase : Phase)
      → w.sockets p ≡ some sock
      → (elem p w.pool.sockets ≡ false) ⊎ (sock'.id ≡ sock.id)
      → (IsOpen sock → IsOpen sock')
      → Leaves w p sock' w'
      → aborts w'.calls ≡ aborts w.calls
      → w.next ≤ w'.next
      → Leads os capacity beacon w phase w' phase
  noted-Leads w w' p sock sock' phase at why more (heap, pool) calm next =
      let stored : Leads os capacity beacon w phase (store w p sock') phase = elim why [
        | inl absent ↦
            away-Leads w w p (some sock') phase phase absent (Fresh-live w p sock (some sock') at)
              (none_yet w phase)
        | inr same ↦ stored-Leads w w p sock sock' phase phase at same more (none_yet w phase)
      ] in
      (
        rw (heap, pool) (runs_on stored.0 (networks w'.kernel)),
        calm,
        λ o. rw (heap, pool) (stored.2 o),
        λ f q h. rw heap (Fresh-live w p sock (some sock') at f q (omega arith)),
      )

  module _ (room : 0 < capacity) where
    Runs-Sound : {s t : System K} → Runs os capacity beacon s t → Sound beacon s → Sound beacon t
    Runs-Sound stays v = v
    Runs-Sound (runs_on run st) v = Step-Sound os capacity beacon room st (Runs-Sound run v)

    pub Runs-Inv :
        ((k : K) → os.thread_starts k ≡ true)
        → {s t : System K} → Runs os capacity beacon s t
        → Inv beacon s
        → Inv beacon t
    Runs-Inv starts stays v = v
    Runs-Inv starts (runs_on run st) v =
        next-Inv os capacity beacon room starts st (Runs-Inv starts run v)

    running_of :
        (w : World K) (phase : Phase)
        → Sound beacon (view w phase)
        → w.pool.thread.active ≡ is_running phase
    running_of w phase v = v.running

    -- A run in which no thread has started.
    pub settled :
        (w w' : World K) (phase : Phase)
        → Inv beacon (view w phase)
        → Leads os capacity beacon w phase w' phase
        → Follows os capacity beacon w phase w'
    settled w w' phase inv (run, calm, opens, news) =
        let old : w.pool.thread.active ≡ is_running phase = inv.sound.running in
        let new : w'.pool.thread.active ≡ is_running phase =
          running_of w' phase (Runs-Sound run inv.sound) in
        let there : after_start w.pool.thread w'.pool.thread phase ≡ phase =
          rw (old ∙ sym new) (same_phase w'.pool.thread.active phase) in
        rw there (run, calm, opens, news)

    -- A usable socket joins the pool by a step, and the check that follows does not abort.
    pub joined-Leads :
        (w v v' : World K) (p : ℕ) (phase : Phase)
        → ((k : K) → os.thread_starts k ≡ true)
        → Inv beacon (view w phase)
        → IsUsable v.sockets p
        → IsOpenAt v.sockets p
        → join_pool os capacity p v ≡ some v'
        → Leads os capacity beacon w phase v phase
        → Follows os capacity beacon w phase v'
    unfolding join_pool pool_add check_pool_invariant
    joined-Leads w v v' p phase starts inv u o e (run, calm, opens, news) =
        let step : Runs os capacity beacon (view w phase)
            (with_pool (view v phase) (add capacity (os.thread_starts v.kernel) p v.pool)) =
          runs_on run (adds p u) in
        let operating : is_operating v.sockets (add capacity (os.thread_starts v.kernel) p v.pool)
            ≡ some true =
          operating-Inv beacon _ (Runs-Inv starts step inv) in
        let same : record v { pool = add capacity (os.thread_starts v.kernel) p v.pool } ≡ v' =
          one_result (rw operating at e) in
        let flag : w.pool.thread.active ≡ v.pool.thread.active =
          inv.sound.running ∙ sym (running_of v phase (Runs-Sound run inv.sound)) in
        let there : after_start w.pool.thread v'.pool.thread phase
            ≡ after_start v.pool.thread v'.pool.thread phase =
          ap (λ b. if not b && v'.pool.thread.active then collecting else phase) flag in
        (
          subst (λ ph. Runs os capacity beacon (view w phase) (view v' ph)) (sym there)
              (rw (← same) step),
          rw (← same) calm,
          λ pool.
              rw (← same)
                (added_open v.sockets capacity (os.thread_starts v.kernel) p v.pool o (opens pool)),
          λ f. rw (← same) (news f),
        )
