-- ===== src/Pool/Locking/Calls.antt =====
-- Each scope of the read loop of src/Pool.cpp, and each of a caller, is a step of the pool's system.
use mathlib.Core.Path.{subst}
use agssock.Base.{
  ℕ, ◌≡◌, refl, sym, ◌∙◌, ◌⊎◌, inl, inr, Bool, true, false, not, ◌&&◌, List, if◌then◌else◌, arith,
  Bool-cases,
}
use agssock.Api.Os.{Os}
use agssock.Api.Mutex.Atomic.{Works, none_yet, more}
use agssock.Pool.{add}
use agssock.Pool.Round.{Request, collect, collect_from}
use agssock.Pool.System.{
  Phase, stopped, collecting, selecting, reported, is_running, System, LoopStep, collects, reports,
  processes, Step, adds, removes, clears, changes, networks, Sound,
}
use agssock.Pool.Locking.{
  Call, call_add, call_remove, call_clear, change_heap, change_kernel, Shared, Local, calls,
  waiting, at_top, in_select, woken, Line, Enters, into_add, into_remove, into_clear, into_heap,
  into_kernel, LoopEnters, into_first, into_list, into_process, Leaves, from_call, LoopLeaves,
  from_list, from_round, Selects, selects, program,
}
use agssock.Pool.Locking.Scopes.{apply, Allowed, Progress, Work-Progress}

-- The phase of the loop, seen from its thread and from whether that has yet to begin
abbrev pub phase_of : {K : Type 0} → Local K → Bool → Phase
phase_of at_top born = collecting
phase_of (in_select r) born = selecting r
phase_of (woken read) born = reported read
phase_of _ born = if born then collecting else stopped

abbrev pub system_of : {K : Type 0} → Shared K → Phase → System K
system_of s phase = record { pool = s.pool; heap = s.heap; kernel = s.kernel; phase = phase }

-- A thread of which it depends on `born` alone whether the loop runs
abbrev pub Idle : {K : Type 0} → Local K → Type 0
Idle l = (born : Bool) → phase_of l born ≡ (if born then collecting else stopped)

-- A loop that is under way has begun.
abbrev pub Begun : {K : Type 0} → Local K → Bool → Type 0
Begun l born = (born ≡ false) ⊎ Idle l

Idle-of_stopped :
    {K : Type 0} (l : Local K) (born : Bool) → is_running (phase_of l born) ≡ false → Idle l
Idle-of_stopped (calls cs) born h = λ b. refl
Idle-of_stopped waiting born h = λ b. refl
Idle-of_stopped at_top born h = cc
Idle-of_stopped (in_select r) born h = cc
Idle-of_stopped (woken read) born h = cc

Begun-top : (K : Type 0) (born : Bool) → Begun {K = K} at_top born → born ≡ false
Begun-top K born (inl h) = h
Begun-top K born (inr idle) = cc (idle false)

Begun-selecting :
    (K : Type 0) (born : Bool) (r : Request) → Begun {K = K} (in_select r) born → born ≡ false
Begun-selecting K born r (inl h) = h
Begun-selecting K born r (inr idle) = cc (idle false)

Begun-reported :
    {K : Type 0} (l : Local K) (born : Bool) (read : List ℕ)
    → phase_of l born ≡ reported read
    → Begun l born
    → born ≡ false
Begun-reported l born read here (inl h) = h
Begun-reported l true read here (inr idle) = cc (sym (idle true) ∙ here)
Begun-reported l false read here (inr idle) = refl

round_phase :
    (K : Type 0) (finished born : Bool)
    → born ≡ false
    → phase_of {K = K} (if finished then waiting else at_top) born
      ≡ (if finished then stopped else collecting)
round_phase K true born h = rw h refl
round_phase K false born h = refl

module _ {K : Type 0} (os : Os K) (capacity beacon : ℕ) where
  pub loop_entry :
      (s : Shared K) (l : Local K) (x : Line K)
      → LoopEnters capacity beacon s l x
      → Begun l s.born
      → Progress capacity beacon os (phase_of l s.born) s x s
  unfolding collect
  loop_entry s l x (into_first h) g = (rw h refl, refl)
  loop_entry s l x into_list g = (refl, refl, Begun-top K s.born g, refl)
  loop_entry s l x (into_process read) g = (refl, refl)

  pub call_entry :
      (ph : Phase) (s : Shared K) (l : Local K) (x : Line K)
      → Enters s l x
      → Progress capacity beacon os ph s x s
  call_entry ph s l x (into_add sock rest u) = (u, refl)
  call_entry ph s l x (into_remove sock rest) = refl
  call_entry ph s l x (into_clear rest) = refl
  call_entry ph s l x (into_heap h rest same) = (same, refl, refl)
  call_entry ph s l x (into_kernel k rest) = (tt, refl, refl)

  pub Works-Progress :
      (i : ℕ) (ph : Phase) (s₀ : Shared K) (x : Line K) (s : Shared K) (x' : Line K)
      → Progress capacity beacon os ph s₀ x s₀
      → Works (program capacity beacon os) i s₀ x s x'
      → Progress capacity beacon os ph s₀ x' s
  unfolding program
  Works-Progress i ph s₀ x s x' start none_yet = start
  Works-Progress i ph s₀ x s x' start (more {s₁} {s₂} {x₁} {x₂} ws w) =
      Work-Progress capacity beacon os ph s₀ s₁ s x₁ x' (Works-Progress i ph s₀ x s₁ x₁ start ws) w

  -- A scope of the loop is a step of the loop.
  pub loop-LoopStep :
      (s₀ s : Shared K) (l l' : Local K) (x : Line K)
      → Begun l s₀.born
      → Progress capacity beacon os (phase_of l s₀.born) s₀ x s
      → LoopLeaves x l'
      → LoopStep os capacity beacon
          (system_of s₀ (phase_of l s₀.born))
          (system_of s (phase_of l' s.born))
        × Begun l' s.born
  unfolding collect_from
  loop-LoopStep s₀ s l l' x g p (from_list r) = (
    subst
        (λ a.
          LoopStep os capacity beacon (system_of s₀ (phase_of l s₀.born))
            (system_of a (selecting r)))
        (sym p.1) (collects r p.0 p.3),
    inl p.2,
  )
  loop-LoopStep s₀ s l l' x g p (from_round read finished) =
      let settled : s.born ≡ false = p.2 ∙ Begun-reported l s₀.born read p.0 g in
      (
        rw (round_phase K finished s.born settled, p.1)
            (processes read s.pool s.heap s.kernel p.0 p.3),
        inl settled,
      )

  -- A scope of a call is the step of that call.
  call-Step :
      (c : Call K) (s : Shared K) (l : Local K)
      → Allowed capacity beacon c s
      → Begun l s.born
      → Sound beacon (system_of s (phase_of l s.born))
      → Step os capacity beacon (system_of s (phase_of l s.born)) (
          system_of (apply capacity beacon os c s) (phase_of l (apply capacity beacon os c s).born))
        × Begun l (apply capacity beacon os c s).born
  call-Step (call_add sock) s l u g v =
      let t = s.pool.thread in
      let t' = (add capacity (os.thread_starts s.kernel) sock s.pool).thread in
      let step : Step os capacity beacon (system_of s (phase_of l s.born)) (record {
        pool = add capacity (os.thread_starts s.kernel) sock s.pool;
        heap = s.heap;
        kernel = s.kernel;
        phase = if not t.active && t'.active then collecting else phase_of l s.born;
      }) =
        adds sock u in
      elim (Bool-cases (not t.active && t'.active)) [
        | inl born ↦
            let stays_idle : Idle l = Idle-of_stopped l s.born (sym v.running ∙ ground arith) in
            (rw (born, stays_idle true) (rw born at step), inr stays_idle)
        | inr same ↦ (rw same (rw same at step), rw same g)
      ]
  call-Step (call_remove sock) s l u g v = (removes sock, g)
  call-Step call_clear s l u g v = (clears, g)
  call-Step (change_heap h) s l same g v = (changes h same, g)
  call-Step (change_kernel k) s l u g v = (networks k, g)

  -- A scope of a caller is the step of its call.
  pub scope-Step :
      (s₀ s : Shared K) (l' loop : Local K) (x : Line K)
      → Begun loop s₀.born
      → Sound beacon (system_of s₀ (phase_of loop s₀.born))
      → Progress capacity beacon os (phase_of loop s₀.born) s₀ x s
      → Leaves x l'
      → Step os capacity beacon
          (system_of s₀ (phase_of loop s₀.born))
          (system_of s (phase_of loop s.born))
        × Begun loop s.born
  scope-Step s₀ s l' loop x g v p (from_call c rest) =
      subst
        (λ a.
          Step os capacity beacon (system_of s₀ (phase_of loop s₀.born))
            (system_of a (phase_of loop a.born))
          × Begun loop a.born)
        (sym p.1) (call-Step c s₀ loop p.0 g v)

  -- What `select` does is a step of the loop.
  pub select-LoopStep :
      (s : Shared K) (l l' : Local K)
      → Selects l l'
      → Begun l s.born
      → LoopStep os capacity beacon
          (system_of s (phase_of l s.born))
          (system_of s (phase_of l' s.born))
        × Begun l' s.born
  select-LoopStep s l l' (selects r read some_of) g =
      (reports r read refl some_of, inl (Begun-selecting K s.born r g))
