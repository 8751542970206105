-- ===== src/Plugin/Types/Laws.antt =====
-- The types that a script header declares are those of the functions behind it.
use agssock.Base.{
  ◌↔◌, ◌≡◌, ◌≢◌, inl, inr, refl, ap, ◌∙◌, Bool, true, false, ◌&&◌, ◌||◌, none, some, List, [], ◌∷◌,
  arith, Bool-cases, Option-cases, no_result, one_result,
}
use agssock.Plugin.Tables.{Name}
use agssock.Plugin.Headers.{our_script_header}
use agssock.Plugin.Types.{
  CType, integral, text, nothing, object, Signature, eq_names, eq_types, eq_params, eq_signatures,
  find, declared, set_option, agree,
}
use agssock.Plugin.Prototypes.{prototypes}

header_found : agree set_option (declared our_script_header) prototypes ≡ true
header_found = refl

prototypes_found : agree set_option prototypes (declared our_script_header) ≡ true
prototypes_found = refl

eq_names_sound : (xs ys : Name) → eq_names xs ys ≡ true → xs ≡ ys
eq_names_sound [] [] h = refl
eq_names_sound [] (y ∷ ys) h = cc
eq_names_sound (x ∷ xs) [] h = cc
eq_names_sound (x ∷ xs) (y ∷ ys) h = ground (arith, eq_names_sound xs ys)

eq_types_sound : (a b : CType) → eq_types a b ≡ true → a ≡ b
eq_types_sound integral integral h = refl
eq_types_sound text text h = refl
eq_types_sound nothing nothing h = refl
eq_types_sound (object x) (object y) h = ap (λ n. object n) (eq_names_sound x y h)
eq_types_sound _ _ h = cc

both : (a b : Bool) → (a && b) ≡ true → (a ≡ true) × (b ≡ true)
both a b h = ground arith

eq_params_sound : (xs ys : List CType) → eq_params xs ys ≡ true → xs ≡ ys
eq_params_sound [] [] h = refl
eq_params_sound [] (y ∷ ys) h = cc
eq_params_sound (x ∷ xs) [] h = cc
eq_params_sound (x ∷ xs) (y ∷ ys) h =
    let (here, there) = both (eq_types x y) (eq_params xs ys) h in
    rw (eq_types_sound x y here, eq_params_sound xs ys there) refl

same_parts : (a b : Signature) → a.name ≡ b.name → a.result ≡ b.result → a.params ≡ b.params → a ≡ b
same_parts a b n r p = cc

eq_signatures_sound : (a b : Signature) → eq_signatures a b ≡ true → a ≡ b
eq_signatures_sound a b h =
    let (front, params) =
      both (eq_names a.name b.name && eq_types a.result b.result) (eq_params a.params b.params) h in
    let (name, result) = both (eq_names a.name b.name) (eq_types a.result b.result) front in
    same_parts a b (eq_names_sound a.name b.name name) (eq_types_sound a.result b.result result)
      (eq_params_sound a.params b.params params)

find-name : (n : Name) (ds : List Signature) (d : Signature) → find n ds ≡ some d → d.name ≡ n
find-name n [] d h = no_result h
find-name n (x ∷ xs) d h = elim (Bool-cases (eq_names x.name n)) [
  | inl same ↦ rw (← one_result (rw same at h)) (eq_names_sound x.name n same)
  | inr other ↦ find-name n xs d (rw other at h)
]

abbrev matched : Name → Signature → List Signature → Bool
matched but d ps =
    eq_names d.name but || elim (find d.name ps) [ none ↦ false | some p ↦ eq_signatures p d ]

matched-find :
    (but : Name) (d : Signature) (ps : List Signature)
    → matched but d ps ≡ true
    → d.name ≢ but
    → find d.name ps ≡ some d
matched-find but d ps m ne = elim (Bool-cases (eq_names d.name but)) [
  | inl same ↦ absurd (ne (eq_names_sound d.name but same))
  | inr other ↦ elim (Option-cases (find d.name ps)) [
    | inl missing ↦ cc (rw (other, missing) at m)
    | inr (p, found) ↦ found ∙ ap (λ q. some q) (eq_signatures_sound p d (rw (other, found) at m))
  ]
]

-- What is found in one list is found in the other, under every name but one.
agree-find :
    (but n : Name) (ds ps : List Signature) (d : Signature)
    → agree but ds ps ≡ true
    → n ≢ but
    → find n ds ≡ some d
    → find n ps ≡ some d
agree-find but n [] ps d a ne h = no_result h
agree-find but n (x ∷ xs) ps d a ne h =
    let (here, there) = both (matched but x ps) (agree but xs ps) a in
    elim (Bool-cases (eq_names x.name n)) [
      | inl same ↦
          let is_n : x.name ≡ n = eq_names_sound x.name n same in
          rw (← is_n, ← one_result (rw same at h)) (matched-find but x ps here (rw is_n ne))
      | inr other ↦ agree-find but n xs ps d there ne (rw other at h)
    ]

-- The types that the script headers declare are those of the functions behind them: but for
-- `Socket_SetOption`, a function is declared to scripts with a result and parameters if and only if
-- its prototype has those that the engine passes for them, the object of a method first.
pub script_types_match :
    (n : Name) (d : Signature)
    → n ≢ set_option
    → (find n (declared our_script_header) ≡ some d) ↔ (find n prototypes ≡ some d)
script_types_match n d ne = (
  agree-find set_option n (declared our_script_header) prototypes d header_found ne,
  agree-find set_option n prototypes (declared our_script_header) d prototypes_found ne,
)
