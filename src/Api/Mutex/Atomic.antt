-- ===== src/Api/Mutex/Atomic.antt =====
-- A scope with a `Lock` of src/API.h runs as if at once: threads that are interleaved statement by
-- statement do what they would do if each scope were a single step.
use agssock.Base.{
  Bool-cases, no_result, ℕ, ◌≡◌, refl, sym, ◌∙◌, ◌≢◌, ◌⊎◌, inl, inr, none, some, arith, ◌==◌,
}
use agssock.Objects.{update, update_self, update_other}
use agssock.Api.Mutex.{
  Mutex, lock, unlock, Program, Place, outside, inside, Threads, Step, moves, enters, works, leaves,
  Reach, starts, later,
}
use mathlib.Core.Path.{subst}

-- A thread is in one place.
one_place :
    {L I : Type 0} {q : Place L I} {l : L} {x : I} {B : Type 0} → q ≡ outside l → q ≡ inside x → B
one_place there here = cc

outside_once : {L I : Type 0} {q : Place L I} {l l' : L} → q ≡ outside l → q ≡ outside l' → l ≡ l'
outside_once h h' = cc

inside_once : {L I : Type 0} {q : Place L I} {x x' : I} → q ≡ inside x → q ≡ inside x' → x ≡ x'
inside_once h h' = cc

-- A lock that is granted was free, and is the caller's.
lock_lem : (i : ℕ) (m m' : Mutex) → lock i m ≡ some m' → (m.holder ≡ none) × (m'.holder ≡ some i)
unfolding lock
lock_lem i m m' h = ground arith

pub record AtomicThreads (S L : Type 0) : Type 0 where
  pub shared : S
  pub locals : ℕ → L

module _ {S L I : Type 0} (p : Program S L I) where
  -- Statements of a scope, one behind the other
  pub data Works (i : ℕ) (s : S) (x : I) : S → I → Type 0 where
    none_yet : Works i s x s x
    more : {s₁ s₂ : S} {x₁ x₂ : I} → Works i s x s₁ x₁ → p.works i s₁ x₁ s₂ x₂ → Works i s x s₂ x₂

  pub data AtomicStep (a : AtomicThreads S L) : AtomicThreads S L → Type 0 where
    moves_alone :
        (i : ℕ) (l : L)
        → p.moves i (a.locals i) l
        → AtomicStep a (record a { locals = update a.locals i l })
    runs :
        (i : ℕ) (x x' : I) (s : S) (l : L)
        → p.enters i a.shared (a.locals i) x
        → Works i a.shared x s x'
        → p.leaves i x' l
        → AtomicStep a (record { shared = s; locals = update a.locals i l })

  pub data AtomicReach (s : S) (locals : ℕ → L) : AtomicThreads S L → Type 0 where
    starts_all : AtomicReach s locals (record { shared = s; locals = locals })
    goes_on :
        {a b : AtomicThreads S L} → AtomicReach s locals a → AtomicStep a b → AtomicReach s locals b

  -- All threads are outside, or the one that holds the mutex is on its way through a scope.
  pub data Matches (c : Threads S L I) (a : AtomicThreads S L) : Type 0 where
    free :
        c.mutex.holder ≡ none
        → c.shared ≡ a.shared
        → ((i : ℕ) → c.place i ≡ outside (a.locals i))
        → Matches c a
    held :
        (j : ℕ) (x x' : I)
        → c.mutex.holder ≡ some j
        → c.place j ≡ inside x'
        → p.enters j a.shared (a.locals j) x
        → Works j a.shared x c.shared x'
        → ((i : ℕ) → j ≢ i → c.place i ≡ outside (a.locals i))
        → Matches c a

  -- A thread that comes to stand outside, where another stands outside already
  outside_at :
      (c : ℕ → Place L I) (a : ℕ → L) (i k : ℕ) (l : L)
      → (i ≢ k → c k ≡ outside (a k))
      → update c i (outside l) k ≡ outside (update a i l k)
  outside_at c a i k l h = elim (Bool-cases (i == k)) [
    | inl same ↦ rw same refl
    | inr other ↦ rw other (h (ground arith))
  ]

  -- A thread outside is not one inside.
  apart : (c : ℕ → Place L I) {i j : ℕ} {l : L} {x : I} → c i ≡ outside l → c j ≡ inside x → i ≢ j
  apart c {x = x} there here e = one_place {x = x} there (rw e here)

  -- Who is inside is the one that holds the mutex.
  insider :
      (c : ℕ → Place L I) (a : ℕ → L) (j i : ℕ) (x : I)
      → ((k : ℕ) → j ≢ k → c k ≡ outside (a k))
      → c i ≡ inside x
      → j ≡ i
  insider c a j i x out here = elim (Bool-cases (j == i)) [
    | inl same ↦ ground arith
    | inr other ↦ one_place (out i (ground arith)) here
  ]

  abbrev Next : Threads S L I → AtomicThreads S L → Type 0
  Next d a = (b : AtomicThreads S L) × ((AtomicStep a b) ⊎ (a ≡ b)) × Matches d b

  -- Each statement is none or one of the atomic steps: the last of a scope stands for all of it.
  Step-Matches : (c d : Threads S L I) (a : AtomicThreads S L) → Step p c d → Matches c a → Next d a
  unfolding unlock
  Step-Matches c d a (moves i l l' at m) (free unheld same out) = (
    record a { locals = update a.locals i l' },
    inl (moves_alone i l' (rw (outside_once (out i) at) m)),
    free unheld same (λ k. outside_at c.place a.locals i k l' (λ ne. out k)),
  )
  Step-Matches c d a (moves i l l' at m) (held j x x' holds here entered worked out) =
      let ne : i ≢ j = apart c.place at here in
      (
        record a { locals = update a.locals i l' },
        inl (moves_alone i l' (rw (outside_once (out i (λ e. ne (sym e))) at) m)),
        held j x x' holds (update_other c.place i j (outside l') ne ∙ here)
            (rw (update_other a.locals i j l' ne) entered) worked
            (λ k away. outside_at c.place a.locals i k l' (λ _. out k away)),
      )
  Step-Matches c d a (enters i l x m at locks entered) (free unheld same out) =
      let (_, holds) = lock_lem i c.mutex m locks in
      (
        a,
        inr refl,
        held i x x holds (update_self c.place i (inside x))
            (rw (← same, outside_once (out i) at) entered)
            (subst (λ s. Works i a.shared x s x) (sym same) none_yet)
            (λ k away. update_other c.place i k (inside x) away ∙ out k),
      )
  Step-Matches c d a (enters i l x m at locks entered)
        (held j y y' holds here entered' worked out) =
      no_result (sym (lock_lem i c.mutex m locks).0 ∙ holds)
  Step-Matches c d a (works i x x' s at w) (free unheld same out) = one_place (out i) at
  Step-Matches c d a (works i x x' s at w) (held j y y' holds here entered worked out) =
      let e = insider c.place a.locals j i x out at in
      (
        a,
        inr refl,
        held i y x' (rw (← e) holds) (update_self c.place i (inside x')) (rw (← e) entered)
            (more (rw (← e, inside_once {x' = y'} at (rw (← e) here)) worked) w)
            (λ k away. update_other c.place i k (inside x') away ∙ out k (rw e away)),
      )
  Step-Matches c d a (leaves i x l at leave) (free unheld same out) = one_place (out i) at
  Step-Matches c d a (leaves i x l at leave) (held j y y' holds here entered worked out) =
      let e = insider c.place a.locals j i x out at in
      (
        record { shared = c.shared; locals = update a.locals i l },
        inl (
            runs i y x c.shared l (rw (← e) entered)
              (rw (← e, inside_once {x' = y'} at (rw (← e) here)) worked) leave),
        free refl refl (λ k. outside_at c.place a.locals i k l (λ away. out k (rw e away))),
      )

  -- Threads of which none has the mutex, beside the same threads in atomic steps.
  abbrev pub SameOutside : Threads S L I → AtomicThreads S L → Type 0
  SameOutside c a = (c.shared ≡ a.shared) × ((i : ℕ) → c.place i ≡ outside (a.locals i))

  pub reach_lem :
      (s : S) (locals : ℕ → L) {c : Threads S L I}
      → Reach p s locals c
      → (a : AtomicThreads S L) × AtomicReach s locals a × Matches c a
  reach_lem s locals starts = (_, starts_all, free refl refl (λ i. refl))
  reach_lem s locals (later {c} {d} r st) =
      let (a, reached, m) = reach_lem s locals r in
      let (b, step, m') = Step-Matches c d a st m in
      elim step [
        | inl goes ↦ (b, goes_on reached goes, m')
        | inr same ↦ (b, subst (AtomicReach s locals) same reached, m')
      ]

  -- However the threads are interleaved, statement by statement: a thread that is in a scope holds the
  -- mutex and all others are outside, and whenever no thread holds it, the threads have come to what
  -- atomic steps lead to, of which each runs one scope as a whole.
  pub scopes_are_atomic :
      (s : S) (locals : ℕ → L) (c : Threads S L I)
      → Reach p s locals c
      → ((i : ℕ) (x : I)
          → c.place i ≡ inside x
          → (c.mutex.holder ≡ some i) × ((k : ℕ) → i ≢ k → (l : L) × (c.place k ≡ outside l)))
        × (c.mutex.holder ≡ none
            → (a : AtomicThreads S L) × AtomicReach s locals a × SameOutside c a)
  scopes_are_atomic s locals c r =
      let (a, reached, m) = reach_lem s locals r in
      elim m [
        | free unheld same out ↦
            (λ i x here. one_place (out i) here, λ _. (a, reached, (same, out)))
        | held j y y' holds here entered worked out ↦ (
          λ i x at.
              let e = insider c.place a.locals j i x out at in
              (rw (← e) holds, λ k away. (a.locals k, out k (rw e away))),
          λ unheld. no_result (sym unheld ∙ holds),
        )
      ]
