-- ===== src/Api/Mutex/Ends.antt =====
-- How a scope with a `Lock` of src/API.h comes to its end: the thread that holds the mutex alone, from
-- the statement where it stands.
use agssock.Base.{no_result, ℕ, ◌≡◌, refl, sym, ◌∙◌, ◌≢◌, none, some}
use agssock.Objects.{update, update_self, update_other}
use agssock.Api.Mutex.{unlock, Program, inside, Threads, Step, works, leaves, Reach}
use agssock.Api.Mutex.Atomic.{AtomicThreads, AtomicReach, Works, free, held, reach_lem}

module _ {S L I : Type 0} (p : Program S L I) where
  -- Statements that lead a thread out of its scope
  pub data Ends (i : ℕ) : S → I → Type 0 where
    finishes : (s : S) (x : I) (l : L) → p.leaves i x l → Ends i s x
    goes : (s s' : S) (x x' : I) → p.works i s x s' x' → Ends i s' x' → Ends i s x

  -- Statements, one behind the other
  pub data Leads : Threads S L I → Threads S L I → Type 0 where
    stays : (c : Threads S L I) → Leads c c
    goes_on : {c d e : Threads S L I} → Step p c d → Leads d e → Leads c e

  -- The mutex is given up, and the other threads are where they were.
  abbrev pub GivesUp : ℕ → Threads S L I → Type 0
  GivesUp i c =
      (d : Threads S L I) × Leads c d
      × (d.mutex.holder ≡ none)
      × ((k : ℕ) → i ≢ k → d.place k ≡ c.place k)

  pub Ends-GivesUp :
      (i : ℕ) (s : S) (x : I)
      → Ends i s x
      → (c : Threads S L I) → c.shared ≡ s
      → c.place i ≡ inside x
      → GivesUp i c
  unfolding unlock
  Ends-GivesUp i _ _ (finishes s x l leave) c same here = (
    _,
    goes_on (leaves i x l here leave) (stays _),
    refl,
    λ k away. update_other c.place i k _ away,
  )
  Ends-GivesUp i _ _ (goes s s' x x' w e) c same here =
      let next : Threads S L I = record c { shared = s'; place = update c.place i (inside x') } in
      let (d, leads, free_again, out) =
        Ends-GivesUp i s' x' e next refl (update_self c.place i (inside x')) in
      (
        d,
        goes_on (works i x x' s' here (rw same w)) leads,
        free_again,
        λ k away. out k away ∙ update_other c.place i k _ away,
      )

  -- The thread that holds the mutex is in a scope, which it has entered where atomic steps lead to.
  pub holder_lem :
      (s : S) (locals : ℕ → L) (c : Threads S L I) (i : ℕ)
      → Reach p s locals c
      → c.mutex.holder ≡ some i
      → (a : AtomicThreads S L) × (x x' : I) × AtomicReach p s locals a
        × p.enters i a.shared (a.locals i) x
        × Works p i a.shared x c.shared x'
        × (c.place i ≡ inside x')
  holder_lem s locals c i r h =
      let (a, reached, m) = reach_lem p s locals r in
      elim m [
        | free unheld same out ↦ no_result (sym unheld ∙ h)
        | held j y y' holds here entered worked out ↦
            let e : j ≡ i = cc in
            (a, y, y', reached, rw (← e) entered, rw (← e) worked, rw (← e) here)
      ]
