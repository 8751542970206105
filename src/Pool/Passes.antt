-- ===== src/Pool/Passes.antt =====
-- The loop over the sockets in `Pool::run` of src/Pool.cpp is defined for live and valid sockets, and
-- keeps them so.
use agssock.Base.{
  ℕ, ◌≡◌, refl, ap, sym, ◌∙◌, inl, inr, Bool, true, false, Option, none, some, List, [], ◌∷◌, elem,
  if◌then◌else◌, arith, All, Bool-cases, Option-cases,
}
use agssock.Api.Os.{Os}
use agssock.Objects.{Socket, Heap, update}
use agssock.Pool.Round.{usable, take_in, chunk_size, rejoin, read_one, pass}
use agssock.Pool.Reading.{
  IsUsable, read_one-Read, read_one_lem, Passed, finished, next, usable-Read,
}

-- Where an option that was joined comes from.
pub rejoin-some :
    {K : Type 0} (p : ℕ) (stays : Bool) (o : Option (List ℕ × Heap × K)) (rest : List ℕ) (h : Heap)
    (k : K)
    → rejoin p stays o ≡ some (rest, h, k)
    → (rest₁ : List ℕ) × (o ≡ some (rest₁, h, k)) × (rest ≡ (if stays then p ∷ rest₁ else rest₁))
rejoin-some p stays none rest h k e = cc
rejoin-some p stays (some (rest₁, h₁, k₁)) rest h k e = (rest₁, ground arith, ground arith)

usable-some : (o : Option Socket) (fd : ℕ) → usable o ≡ some fd → (sock : Socket) × (o ≡ some sock)
unfolding usable
usable-some none fd u = cc
usable-some (some sock) fd u = (sock, refl)

pub IsUsable-All :
    (h h' : Heap)
    → ((q : ℕ) → usable (h' q) ≡ usable (h q))
    → (ps : List ℕ) → All (IsUsable h) ps
    → All (IsUsable h') ps
IsUsable-All h h' same [] u = tt
IsUsable-All h h' same (p ∷ ps) ((fd, at), us) = ((fd, same p ∙ at), IsUsable-All h h' same ps us)

module _ {K : Type 0} (os : Os K) (read : List ℕ) where
  read_one-total :
      (h : Heap) (p : ℕ) (k : K)
      → IsUsable h p
      → (h' : Heap) × (stays : Bool) × (k' : K) × (read_one os read h p k ≡ some (h', stays, k'))
  read_one-total h p k (fd, u) =
      let (sock, at) = usable-some (h p) fd u in
      let answer = os.recv (some fd) chunk_size k in
      let e = read_one_lem os read h p k sock fd at (ap usable (sym at) ∙ u) in
      elim (Bool-cases (elem fd read)) [
        | inl ready ↦ (
          update h p (some (take_in sock answer.0).0),
          (take_in sock answer.0).1,
          answer.1,
          e ∙ rw ready refl,
        )
        | inr idle ↦ (h, true, k, e ∙ rw idle refl)
      ]

  pub pass-total :
      (h : Heap) (ps : List ℕ) (k : K)
      → All (IsUsable h) ps
      → (rest : List ℕ) × (h' : Heap) × (k' : K) × (pass os read h ps k ≡ some (rest, h', k'))
  unfolding pass
  pass-total h [] k u = ([], h, k, refl)
  pass-total h (p ∷ ps) k (u, us) =
      let (h₁, stays, k₁, e) = read_one-total h p k u in
      let same = usable-Read os read (read_one-Read os read h p k h₁ stays k₁ e) in
      let (rest, h', k', e') = pass-total h₁ ps k₁ (IsUsable-All h h₁ same ps us) in
      (if stays then p ∷ rest else rest, h', k', rw (e, pass) (rw e' refl))

  pub pass-Passed :
      (h : Heap) (ps : List ℕ) (k : K) (rest : List ℕ) (h' : Heap) (k' : K)
      → pass os read h ps k ≡ some (rest, h', k')
      → Passed os read h ps k rest h' k'
  unfolding pass
  pass-Passed h [] k rest h' k' e = finished (ground arith) (ground arith) (ground arith)
  pass-Passed h (p ∷ ps) k rest h' k' e = elim (Option-cases (read_one os read h p k)) [
    | inl stuck ↦ absurd (ground arith)
    | inr ((h₁, stays, k₁), e₁) ↦
        let (rest₁, e₂, joined) =
          rejoin-some p stays (pass os read h₁ ps k₁) rest h' k' (rw (e₁, pass) at e) in
        next stays (read_one-Read os read h p k h₁ stays k₁ e₁)
          (pass-Passed h₁ ps k₁ rest₁ h' k' e₂) joined
  ]

  pub usable-Passed :
      {h h' : Heap} {ps rest : List ℕ} {k k' : K}
      → Passed os read h ps k rest h' k'
      → (q : ℕ) → usable (h' q) ≡ usable (h q)
  usable-Passed (finished er eh ek) q = rw eh refl
  usable-Passed (next stays r ps e) q = usable-Passed ps q ∙ usable-Read os read r q

  -- The sockets that stay are some of those that were there.
  pub Passed-All :
      {h h' : Heap} {ps rest : List ℕ} {k k' : K} (P : ℕ → Type 0)
      → Passed os read h ps k rest h' k'
      → All P ps
      → All P rest
  Passed-All P (finished er eh ek) a = rw er tt
  Passed-All P (next {rest = rest} true r ps e) a = rw e (a.0, Passed-All P ps a.1)
  Passed-All P (next false r ps e) a = rw e (Passed-All P ps a.1)
