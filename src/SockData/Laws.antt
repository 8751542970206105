-- ===== src/SockData/Laws.antt =====
-- Reading, writing, resizing and saving byte strings.

use agssock.Base.{
  ℕ, zero, suc, ◌-◌, ◌^◌, ◌≤◌, ◌<◌, min, ◌≡◌, refl, ap, sym, ◌∙◌, ◌≢◌, ◌⊎◌, none, some, List, [],
  ◌∷◌, ◌++◌, length, take, drop, replicate, get_elem?, set, char_of_ags, ags_of_char, arith,
  length-append, length-take, length-replicate, length-set, take_all, lt→ltb,
}
use agssock.SockData.{SockData, get_size, set_size, get_char, set_char, serialize, unserialize}

get_elem?-set_self : (xs : List ℕ) (i v : ℕ) → i < length xs → get_elem? (set xs i v) i ≡ some v
get_elem?-set_self [] i v h = absurd (omega arith)
get_elem?-set_self (x ∷ xs) zero v h = refl
get_elem?-set_self (x ∷ xs) (suc i) v h = get_elem?-set_self xs i v (omega arith)

get_elem?-set_ne : (xs : List ℕ) (i j v : ℕ) → i ≢ j → get_elem? (set xs i v) j ≡ get_elem? xs j
get_elem?-set_ne [] i j v h = refl
get_elem?-set_ne (x ∷ xs) zero zero v h = absurd (h refl)
get_elem?-set_ne (x ∷ xs) zero (suc j) v h = refl
get_elem?-set_ne (x ∷ xs) (suc i) zero v h = refl
get_elem?-set_ne (x ∷ xs) (suc i) (suc j) v h = get_elem?-set_ne xs i j v (λ e. h (ap suc e))

-- Below the size a write succeeds, keeps the size, is read back as the signed `char` that the
-- value is cut to, and leaves every other index as it was.
pub set_char-get_char :
    (sd : SockData) (i j v : ℕ)
    → i < get_size sd
    → i ≢ j
    → (sd' : SockData) × (set_char sd i v ≡ some sd')
      × (get_size sd' ≡ get_size sd)
      × (get_char sd' i ≡ some (ags_of_char (char_of_ags v)))
      × (get_char sd' j ≡ get_char sd j)
unfolding set_char get_size get_char
set_char-get_char sd i j v h ne =
    let c = char_of_ags v in
    let size = length-set sd.text i c in
    (
      record { text = set sd.text i c },
      rw (lt→ltb i (length sd.text) h),
      size,
      ground (arith, size, get_elem?-set_self sd.text i c),
      rw (size, get_elem?-set_ne sd.text i j c ne),
    )

-- A write behind the end is undefined, but for a zero at the end, which changes nothing.
pub set_char_out :
    (sd : SockData) (i v : ℕ)
    → get_size sd ≤ i
    → ((set_char sd i v ≡ none) × ¬ ((i ≡ get_size sd) × (char_of_ags v ≡ 0)))
      ⊎ ((set_char sd i v ≡ some sd) × (i ≡ get_size sd) × (char_of_ags v ≡ 0))
unfolding set_char get_size
set_char_out sd i v h = ground arith

resized : List ℕ → ℕ → List ℕ
resized xs n = take n xs ++ replicate (n - length xs) 0

length-resized : (xs : List ℕ) (n : ℕ) → length (resized xs n) ≡ n
unfolding resized
length-resized xs n = omega (
  arith,
  length-append (take n xs) (replicate (n - length xs) 0),
  length-take n xs,
  length-replicate {A = ℕ} (n - length xs) 0,
)

sub-suc : (a b : ℕ) → suc a - suc b ≡ a - b
sub-suc a b = omega arith

min-suc : (a b : ℕ) → min (suc a) (suc b) ≡ suc (min a b)
min-suc a b = omega arith

take-resized : (xs : List ℕ) (n : ℕ) → take (min n (length xs)) (resized xs n) ≡ take n xs
unfolding resized
take-resized [] zero = refl
take-resized [] (suc n) = let e : min (suc n) 0 ≡ 0 = omega arith in rw e refl
take-resized (x ∷ xs) zero = let e : min 0 (suc (length xs)) ≡ 0 = omega arith in rw e refl
take-resized (x ∷ xs) (suc n) =
    rw (min-suc n (length xs), sub-suc n (length xs)) (ap (λ t. x ∷ t) (take-resized xs n))

drop-resized : (xs : List ℕ) (n : ℕ) → drop (length xs) (resized xs n) ≡ replicate (n - length xs) 0
unfolding resized
drop-resized [] zero = refl
drop-resized [] (suc n) = refl
drop-resized (x ∷ xs) zero = let e : 0 - suc (length xs) ≡ 0 = omega arith in rw e refl
drop-resized (x ∷ xs) (suc n) = rw (sub-suc n (length xs)) (drop-resized xs n)

-- A size below 2 ^ 63 is set as asked: the bytes up to it stay, and zeros fill the rest.
pub set_size-text :
    (sd : SockData) (n : ℕ)
    → n < 2 ^ 63
    → (sd' : SockData) × (set_size sd n ≡ some sd')
      × (get_size sd' ≡ n)
      × (take (min n (get_size sd)) sd'.text ≡ take n sd.text)
      × (drop (get_size sd) sd'.text ≡ replicate (n - get_size sd) 0)
unfolding set_size get_size resized
set_size-text sd n h = (
  record { text = resized sd.text n },
  ground arith,
  length-resized sd.text n,
  take-resized sd.text n,
  drop-resized sd.text n,
)

take-min : (n : ℕ) (xs : List ℕ) → take (min n (length xs)) xs ≡ take n xs
take-min zero [] = refl
take-min (suc n) [] = let e : min (suc n) 0 ≡ 0 = omega arith in rw e refl
take-min zero (x ∷ xs) = let e : min 0 (suc (length xs)) ≡ 0 = omega arith in rw e refl
take-min (suc n) (x ∷ xs) = rw (min-suc n (length xs)) (ap (λ t. x ∷ t) (take-min n xs))

-- A string that is saved to a buffer of any size is restored from what was written: the part that
-- fits, which is all of it if the buffer is large enough.
pub unserialize-serialize :
    (sd : SockData) (size : ℕ)
    → let saved = serialize sd size in
      (length saved ≡ min size (get_size sd))
      × ((unserialize saved (length saved)).text ≡ take (min size (get_size sd)) sd.text)
unfolding serialize unserialize get_size
unserialize-serialize sd size = (
  length-take size sd.text,
  take_all (length (take size sd.text)) (take size sd.text) (omega arith)
      ∙ sym (take-min size sd.text),
)
