-- ===== src/Buffer/Ends.antt =====
-- The marks of the end of a stream: empty elements of the buffer's queue.
use agssock.Base.{ℕ, ◌≡◌, refl, false, List, [], ◌∷◌, ◌++◌, is_empty, All, arith, c_str, ◌≢◌}
use agssock.Buffer.{Buffer, append, append_back}

-- A queue without a mark.
abbrev pub Unmarked : List (List ℕ) → Type 0
Unmarked q = All (λ d. is_empty d ≡ false) q

append_back-Unmarked :
    (q : List (List ℕ)) (text : List ℕ) → Unmarked q → Unmarked (append_back q text)
unfolding append_back
append_back-Unmarked [] text u = tt
append_back-Unmarked ([] ∷ []) text u = cc
append_back-Unmarked ((x ∷ xs) ∷ []) text u = (refl, tt)
append_back-Unmarked (d ∷ e ∷ rest) text u = (u.0, append_back-Unmarked (e ∷ rest) text u.1)

push_back-Unmarked :
    (q : List (List ℕ)) (text : List ℕ)
    → Unmarked q
    → is_empty text ≡ false
    → Unmarked (q ++ (text ∷ []))
push_back-Unmarked [] text u e = (e, tt)
push_back-Unmarked (d ∷ q) text u e = (u.0, push_back-Unmarked q text u.1 e)

-- Only an empty chunk is a mark.
pub append-Unmarked :
    (b : Buffer) (text : List ℕ)
    → Unmarked b.queue
    → is_empty text ≡ false
    → Unmarked (append b text).queue
unfolding append
append-Unmarked b text u e =
    ground (arith, append_back-Unmarked b.queue text u, push_back-Unmarked b.queue text u e)

-- A text that does not begin with a zero is no empty string.
abbrev pub NoZeroFront : List ℕ → Type 0
NoZeroFront [] = Unit {0}
NoZeroFront (x ∷ xs) = x ≢ 0

pub c_str-NoZeroFront :
    (d : List ℕ) → is_empty d ≡ false → NoZeroFront d → is_empty (c_str d) ≡ false
c_str-NoZeroFront [] e n = cc
c_str-NoZeroFront (x ∷ xs) e n = ground arith
