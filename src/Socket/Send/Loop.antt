-- ===== src/Socket/Send/Loop.antt =====
-- The loop of the sending functions of src/Socket.cpp: what it hands to the system, and its end.
use agssock.Base.{
  ℕ, zero, suc, ◌+◌, ◌≤◌, ◌<◌, ◌≡◌, refl, ap, sym, ◌∙◌, ◌≢◌, ◌⊎◌, inl, inr, Bool, true, false, some,
  List, [], ◌∷◌, ◌++◌, length, take, drop, append_assoc, append-nil, arith, length-drop,
}
use agssock.Api.Os.{Result, done, failed}
use agssock.World.{World}
use agssock.Socket.Send.{send_loop}

-- What a sending call of the system does, by the bytes that it has taken so far: if it succeeds, it
-- takes at least one byte of a text that is not empty, from its front, and returns their number; if
-- it fails, it takes none, and the error is not zero.
pub record Sends {K : Type 0} (taken : K → List ℕ) (call : List ℕ → K → Result ℕ × K) : Type 0 where
  pub takes :
      (x : ℕ) (xs : List ℕ) (k : K) (n : ℕ)
      → (call (x ∷ xs) k).0 ≡ done n
      → (1 ≤ n) × (n ≤ length (x ∷ xs)) × (taken (call (x ∷ xs) k).1 ≡ taken k ++ take n (x ∷ xs))
  pub refuses :
      (x : ℕ) (xs : List ℕ) (k : K) (e : ℕ)
      → (call (x ∷ xs) k).0 ≡ failed e
      → (e ≢ 0) × (taken (call (x ∷ xs) k).1 ≡ taken k)

pub Result-cases :
    {A : Type 0} (r : Result A) → ((a : A) × (r ≡ done a)) ⊎ ((e : ℕ) × (r ≡ failed e))
Result-cases (done a) = inl (a, refl)
Result-cases (failed e) = inr (e, refl)

-- How a send may end: all is taken and `errno` is what it was, or a proper part is taken, from the
-- front, and the last call, which was handed the rest, has failed with the error that is in `errno`.
pub data Ends {K : Type 0} (taken : K → List ℕ) (call : List ℕ → K → Result ℕ × K) (text : List ℕ)
    (w w' : World K) : Bool → Type 0 where
  all_taken :
      taken w'.kernel ≡ taken w.kernel ++ text → w'.errno ≡ w.errno → Ends taken call text w w' true
  part_taken :
      (m : ℕ) (k : K)
      → m < length text
      → taken w'.kernel ≡ taken w.kernel ++ take m text
      → w'.errno ≢ 0
      → call (drop m text) k ≡ (failed w'.errno, w'.kernel)
      → Ends taken call text w w' false

take-add :
    (n m : ℕ) (xs : List ℕ) → n ≤ length xs → take (n + m) xs ≡ take n xs ++ take m (drop n xs)
take-add zero m xs h = let e : 0 + m ≡ m = omega arith in rw e refl
take-add (suc n) m [] h = absurd (omega arith)
take-add (suc n) m (x ∷ xs) h =
    let e : suc n + m ≡ suc (n + m) = omega arith in
    rw e (ap (λ t. x ∷ t) (take-add n m xs (omega arith)))

drop-add : (n m : ℕ) (xs : List ℕ) → n ≤ length xs → drop (n + m) xs ≡ drop m (drop n xs)
drop-add zero m xs h = let e : 0 + m ≡ m = omega arith in rw e refl
drop-add (suc n) m [] h = absurd (omega arith)
drop-add (suc n) m (x ∷ xs) h =
    let e : suc n + m ≡ suc (n + m) = omega arith in rw e (drop-add n m xs (omega arith))

pair_of : {A B : Type 0} {p : A × B} {a : A} → p.0 ≡ a → p ≡ (a, p.1)
pair_of {p = p} e = ap (λ x. (x, p.1)) e

take-drop : (n : ℕ) (xs : List ℕ) → take n xs ++ drop n xs ≡ xs
take-drop zero xs = refl
take-drop (suc n) [] = refl
take-drop (suc n) (x ∷ xs) = ap (λ t. x ∷ t) (take-drop n xs)

module _ {K : Type 0} (taken : K → List ℕ) (call : List ℕ → K → Result ℕ × K)
    (laws : Sends taken call) where
  Ends-later :
      (n : ℕ) (text : List ℕ) (w w₁ w' : World K) (b : Bool)
      → n ≤ length text
      → taken w₁.kernel ≡ taken w.kernel ++ take n text
      → w₁.errno ≡ w.errno
      → Ends taken call (drop n text) w₁ w' b
      → Ends taken call text w w' b
  Ends-later n text w w₁ w' _ h first same (all_taken t e) =
      all_taken
        (t
          ∙ ap (λ u. u ++ drop n text) first
          ∙ append_assoc (taken w.kernel) (take n text) (drop n text)
          ∙ ap (λ u. taken w.kernel ++ u) (take-drop n text))
        (e ∙ same)
  Ends-later n text w w₁ w' _ h first same (part_taken m k less t e last) =
      part_taken (n + m) k (omega (arith, length-drop n text))
        (t
          ∙ ap (λ u. u ++ take m (drop n text)) first
          ∙ append_assoc (taken w.kernel) (take n text) (take m (drop n text))
          ∙ ap (λ u. taken w.kernel ++ u) (sym (take-add n m text h)))
        e (ap (λ u. call u k) (drop-add n m text h) ∙ last)

  -- The loop ends within as many rounds as there are bytes.
  pub send_loop_lem :
      (fuel : ℕ) (text : List ℕ) (w : World K)
      → length text ≤ fuel
      → (b : Bool) × (w' : World K) × (send_loop call fuel text w ≡ some (b, w'))
        × Ends taken call text w w' b
        × (w'.sockets ≡ w.sockets)
  unfolding send_loop
  send_loop_lem fuel [] w h =
      (true, w, refl, all_taken (sym (append-nil (taken w.kernel))) refl, refl)
  send_loop_lem zero (x ∷ xs) w h = absurd (omega arith)
  send_loop_lem (suc fuel) (x ∷ xs) w h = elim (Result-cases (call (x ∷ xs) w.kernel).0) [
    | inl (n, e) ↦
        let (some_taken, fits, first) = laws.takes x xs w.kernel n e in
        let w₁ : World K = record w { kernel = (call (x ∷ xs) w.kernel).1 } in
        let less : length (drop n (x ∷ xs)) ≤ fuel = omega (arith, length-drop n (x ∷ xs)) in
        let (b, w', run, ends, same) = send_loop_lem fuel (drop n (x ∷ xs)) w₁ less in
        (b, w', rw (e, send_loop) run, Ends-later n (x ∷ xs) w w₁ w' b fits first refl ends, same)
    | inr (errno, e) ↦
        let (broken, none_taken) = laws.refuses x xs w.kernel errno e in
        (
          false,
          record w { kernel = (call (x ∷ xs) w.kernel).1; errno = errno },
          rw (e, send_loop) refl,
          part_taken 0 w.kernel (omega arith) (none_taken ∙ sym (append-nil (taken w.kernel)))
              broken (pair_of e),
          refl,
        )
  ]
