-- ===== src/Base/Memory.antt =====
-- Blocks of memory as lists of bytes: `memcpy` into a block at an offset, and the bytes from one.
use Prim.Native.Nat.{ℕ, zero, suc, ◌+◌, ◌≤◌}
use mathlib.Core.Path.{◌≡◌, refl, ap}
use mathlib.Core.List.{List, [], ◌∷◌}
use native.Mathlib.Omega.{arith}
use agssock.Base.Lists.{length, take, drop}

-- The copy stops at the end of the block.
unfoldable pub write_at : ℕ → List ℕ → List ℕ → List ℕ
write_at off bytes [] = []
write_at (suc k) bytes (m ∷ ms) = m ∷ write_at k bytes ms
write_at zero [] (m ∷ ms) = m ∷ ms
write_at zero (x ∷ xs) (m ∷ ms) = x ∷ write_at zero xs ms

abbrev pub slice : ℕ → ℕ → List ℕ → List ℕ
slice off n block = take n (drop off block)

pub length-write_at :
    (off : ℕ) (bytes block : List ℕ) → length (write_at off bytes block) ≡ length block
unfolding write_at
length-write_at off bytes [] = refl
length-write_at (suc k) bytes (m ∷ ms) = ap suc (length-write_at k bytes ms)
length-write_at zero [] (m ∷ ms) = refl
length-write_at zero (x ∷ xs) (m ∷ ms) = ap suc (length-write_at zero xs ms)

-- What has been written is read back.
pub slice-write_at :
    (off : ℕ) (bytes block : List ℕ)
    → off + length bytes ≤ length block
    → slice off (length bytes) (write_at off bytes block) ≡ bytes
unfolding write_at
slice-write_at zero [] block h = refl
slice-write_at zero (x ∷ xs) [] h = absurd (omega arith)
slice-write_at zero (x ∷ xs) (m ∷ ms) h = ap (λ t. x ∷ t) (slice-write_at zero xs ms (omega arith))
slice-write_at (suc k) [] [] h = refl
slice-write_at (suc k) (x ∷ xs) [] h = absurd (omega arith)
slice-write_at (suc k) bytes (m ∷ ms) h = slice-write_at k bytes ms (omega arith)

-- Nothing before the offset changes.
pub slice-write_at_before :
    (i n off : ℕ) (bytes block : List ℕ)
    → i + n ≤ off
    → slice i n (write_at off bytes block) ≡ slice i n block
unfolding write_at
slice-write_at_before i n off bytes [] h = refl
slice-write_at_before zero zero off bytes (m ∷ ms) h = refl
slice-write_at_before zero (suc n) zero bytes (m ∷ ms) h = absurd (omega arith)
slice-write_at_before zero (suc n) (suc k) bytes (m ∷ ms) h =
    ap (λ t. m ∷ t) (slice-write_at_before zero n k bytes ms (omega arith))
slice-write_at_before (suc i) n zero bytes (m ∷ ms) h = absurd (omega arith)
slice-write_at_before (suc i) n (suc k) bytes (m ∷ ms) h =
    slice-write_at_before i n k bytes ms (omega arith)

-- Nor does anything behind the copy.
pub drop-write_at :
    (i off : ℕ) (bytes block : List ℕ)
    → off + length bytes ≤ i
    → drop i (write_at off bytes block) ≡ drop i block
unfolding write_at
drop-write_at i off bytes [] h = refl
drop-write_at i zero [] (m ∷ ms) h = refl
drop-write_at zero zero (x ∷ xs) (m ∷ ms) h = absurd (omega arith)
drop-write_at (suc i) zero (x ∷ xs) (m ∷ ms) h = drop-write_at i zero xs ms (omega arith)
drop-write_at zero (suc k) bytes (m ∷ ms) h = absurd (omega arith)
drop-write_at (suc i) (suc k) bytes (m ∷ ms) h = drop-write_at i k bytes ms (omega arith)

-- A copy over the whole block replaces it.
pub write_at_all :
    (bytes block : List ℕ) → length bytes ≡ length block → write_at 0 bytes block ≡ bytes
unfolding write_at
write_at_all [] [] h = refl
write_at_all (x ∷ xs) [] h = absurd (omega arith)
write_at_all [] (m ∷ ms) h = absurd (omega arith)
write_at_all (x ∷ xs) (m ∷ ms) h = ap (λ t. x ∷ t) (write_at_all xs ms (omega arith))

-- The copy, seen from behind a part of the block that it leaves alone.
pub drop-write_at_before :
    (n k : ℕ) (bytes block : List ℕ)
    → drop n (write_at (n + k) bytes block) ≡ write_at k bytes (drop n block)
unfolding write_at
drop-write_at_before zero k bytes block = let e : 0 + k ≡ k = omega arith in rw e refl
drop-write_at_before (suc n) k bytes [] = refl
drop-write_at_before (suc n) k bytes (m ∷ ms) =
    let e : suc n + k ≡ suc (n + k) = omega arith in rw e (drop-write_at_before n k bytes ms)
