-- ===== src/Pool/Deliver.antt =====
-- The loop over the sockets in `Pool::run` of src/Pool.cpp: it takes in the input of each ready socket
-- exactly once, and touches nothing else.
use agssock.Base.{
  ℕ, ◌≡◌, refl, sym, ◌∙◌, ◌≢◌, inl, inr, Bool, true, false, none, some, List, ◌∷◌, elem, ◌==◌,
  ==_iff, if◌then◌else◌, arith, All, Bool-cases, no_result,
}
use agssock.Api.Os.{Os}
use agssock.Objects.{Socket, Heap}
use agssock.Pool.Sets.{Distinct}
use agssock.Pool.Round.{usable, take_in, chunk_size, pass}
use agssock.Pool.Reading.{IsUsable, Read, skipped, taken, Passed, finished, next}
use agssock.Pool.Passes.{pass-total, pass-Passed}

module _ {K : Type 0} (os : Os K) (read : List ℕ) where
  -- What the loop makes of one socket: nothing, or what one answer of `recv` makes of it, which
  -- also says whether it stays in the pool.
  pub data Outcome (p fd : ℕ) (sock : Socket) (rest : List ℕ) (h' : Heap) : Type 0 where
    untouched :
        elem fd read ≡ false → h' p ≡ some sock → elem p rest ≡ true → Outcome p fd sock rest h'
    received :
        (k : K)
        → elem fd read ≡ true
        → h' p ≡ some (take_in sock (os.recv (some fd) chunk_size k).0).0
        → elem p rest ≡ (take_in sock (os.recv (some fd) chunk_size k).0).1
        → Outcome p fd sock rest h'

  pub Read-ne :
      {h h' : Heap} {p : ℕ} {k k' : K} {stays : Bool} (q : ℕ)
      → Read os read h p k h' stays k'
      → p ≢ q
      → h' q ≡ h q
  Read-ne q (skipped sock fd at u idle eh es ek) ne = rw eh refl
  Read-ne {p = p} q (taken sock fd at u ready eh es ek) ne = rw eh (ground arith)

  -- The loop allocates no socket.
  gone-Read :
      {h h' : Heap} {p : ℕ} {k k' : K} {stays : Bool} (q : ℕ)
      → Read os read h p k h' stays k'
      → h q ≡ none
      → h' q ≡ none
  gone-Read q (skipped sock fd at u idle eh es ek) gone = rw eh gone
  gone-Read {p = p} q (taken sock fd at u ready eh es ek) gone = elim (Bool-cases (p == q)) [
    | inl same ↦ no_result (sym gone ∙ rw ((==_iff p q).0 same) at at)
    | inr other ↦ rw (eh, other) gone
  ]

  pub gone-Passed :
      {h h' : Heap} {ps rest : List ℕ} {k k' : K} (q : ℕ)
      → Passed os read h ps k rest h' k'
      → h q ≡ none
      → h' q ≡ none
  gone-Passed q (finished er eh ek) gone = rw eh gone
  gone-Passed q (next stays r more e) gone = gone-Passed q more (gone-Read q r gone)

  pub Passed-absent :
      {h h' : Heap} {ps rest : List ℕ} {k k' : K} (q : ℕ)
      → Passed os read h ps k rest h' k'
      → elem q ps ≡ false
      → (h' q ≡ h q) × (elem q rest ≡ false)
  Passed-absent q (finished er eh ek) m = (rw eh refl, rw er refl)
  Passed-absent q (next {p = p} stays r ps e) m = ground (arith, Passed-absent q ps, Read-ne q r)

  pub Passed-Distinct :
      {h h' : Heap} {ps rest : List ℕ} {k k' : K}
      → Passed os read h ps k rest h' k'
      → Distinct ps
      → Distinct rest
  Passed-Distinct (finished er eh ek) d = rw er tt
  Passed-Distinct (next {p = p} true r ps e) d =
      rw e ((Passed-absent p ps d.0).1, Passed-Distinct ps d.1)
  Passed-Distinct (next false r ps e) d = rw e (Passed-Distinct ps d.1)

  head-Outcome :
      {h h₁ h' : Heap} {rest : List ℕ} {k k₁ : K} {stays : Bool} (p fd : ℕ) (sock : Socket)
      (rest₁ : List ℕ)
      → Read os read h p k h₁ stays k₁
      → h p ≡ some sock
      → usable (some sock) ≡ some fd
      → h' p ≡ h₁ p
      → elem p rest₁ ≡ false
      → rest ≡ (if stays then p ∷ rest₁ else rest₁)
      → Outcome p fd sock rest h'
  head-Outcome p fd sock rest₁ (skipped sock₁ fd₁ at₁ u₁ idle eh es ek) at u eh' absent joined =
      let same : sock₁ ≡ sock = cc in
      let ef : fd₁ ≡ fd = cc in untouched (rw (← ef) idle) (eh' ∙ rw eh at) (ground arith)
  head-Outcome {rest = rest} {k = k} {stays = stays} p fd sock rest₁
        (taken sock₁ fd₁ at₁ u₁ ready eh es ek) at u eh' absent joined =
      let same : sock₁ ≡ sock = cc in
      let ef : fd₁ ≡ fd = cc in
      let kept : elem p rest ≡ stays = ground arith in
      received k (rw (← ef) ready) (eh' ∙ rw (eh, ef, same) (ground arith))
        (kept ∙ rw (ef, same) at es)

  tail-Outcome :
      {p fd : ℕ} {sock : Socket} {h' : Heap} {rest rest₁ : List ℕ} (q : ℕ) (stays : Bool)
      → Outcome p fd sock rest₁ h'
      → q ≢ p
      → rest ≡ (if stays then q ∷ rest₁ else rest₁)
      → Outcome p fd sock rest h'
  tail-Outcome q stays (untouched idle at m) ne joined = untouched idle at (ground arith)
  tail-Outcome q stays (received k ready at m) ne joined = received k ready at (ground arith)

  Passed-Outcome :
      {h h' : Heap} {ps rest : List ℕ} {k k' : K} (p fd : ℕ) (sock : Socket)
      → Passed os read h ps k rest h' k'
      → Distinct ps
      → elem p ps ≡ true
      → h p ≡ some sock
      → usable (some sock) ≡ some fd
      → Outcome p fd sock rest h'
  Passed-Outcome p fd sock (finished er eh ek) d m at u = cc
  Passed-Outcome p fd sock (next {h₁ = h₁} {p = q} {rest = rest₁} stays r ps e) d m at u =
      elim (Bool-cases (q == p)) [
        | inl same ↦
            let eq = (==_iff q p).0 same in
            let (kept, absent) = Passed-absent q ps d.0 in
            head-Outcome p fd sock rest₁ (rw eq at r) at u (rw eq at kept) (rw eq at absent)
              (rw eq at e)
        | inr other ↦
            let inner =
              Passed-Outcome p fd sock ps d.1 (ground arith) (Read-ne p r (ground arith) ∙ at) u in
            tail-Outcome q stays inner (ground arith) e
      ]

  -- For distinct usable sockets the loop meets no undefined behaviour. Each socket of the pool that
  -- `select` reported takes in exactly one answer of `recv`, which also decides whether it stays;
  -- each other one is untouched and stays. Objects outside the pool do not change, and no socket
  -- comes into the pool.
  pub pass_lem :
      (h : Heap) (ps : List ℕ) (k : K) (p other fd : ℕ) (sock : Socket)
      → Distinct ps
      → All (IsUsable h) ps
      → elem p ps ≡ true
      → h p ≡ some sock
      → usable (some sock) ≡ some fd
      → elem other ps ≡ false
      → (rest : List ℕ) × (h' : Heap) × (k' : K) × (pass os read h ps k ≡ some (rest, h', k'))
        × Outcome p fd sock rest h'
        × (h' other ≡ h other)
        × (elem other rest ≡ false)
  pass_lem h ps k p other fd sock d u m at id absent =
      let (rest, h', k', e) = pass-total os read h ps k u in
      let run = pass-Passed os read h ps k rest h' k' e in
      let (same, out) = Passed-absent other run absent in
      (rest, h', k', e, Passed-Outcome p fd sock run d m at id, same, out)
