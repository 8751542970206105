-- ===== src/Buffer/Stream.antt =====
-- The buffer of a streaming socket against its specification: the bytes that have arrived and
-- not been read, and whether the end of the stream has been seen.

use agssock.Base.{
  ℕ, ◌≡◌, refl, Bool, true, false, Option, none, some, List, [], ◌∷◌, ◌++◌, is_empty, ◌==◌,
  if◌then◌else◌, arith, c_str, Bool-cases, inl, inr, Option-cases,
}
use agssock.Buffer.{
  Buffer, new_buffer, append, pop, extract, find_first_of, find_first_not_of, shift, erase_front,
  extract_front, extract_string, extract_data,
}

pub record Stream : Type 0 where
  pub text : List ℕ
  pub ended : Bool

-- What a chunk from `recv` adds: an empty one is the end of the stream.
unfoldable pub feed : Stream → List ℕ → Stream
feed s [] = record s { ended = true }
feed s (x ∷ xs) = record s { text = s.text ++ (x ∷ xs) }

-- The text without the zeros at its front, and what stands behind the first string in it.
unfoldable pub skip_zeros : List ℕ → List ℕ
skip_zeros [] = []
skip_zeros (x ∷ xs) = if x == 0 then skip_zeros xs else x ∷ xs

unfoldable pub after_string : List ℕ → List ℕ
unfolding skip_zeros
after_string [] = []
after_string (x ∷ xs) = if x == 0 then skip_zeros xs else after_string xs

-- The end of the stream is read once all text is, as an empty string.
unfoldable pub take_string : Stream → Option (List ℕ × Stream)
unfolding after_string
take_string s = elim s.text [
  | [] ↦ if s.ended then some ([], record s { ended = false }) else none
  | x ∷ xs ↦ some (c_str (x ∷ xs), record s { text = after_string (x ∷ xs) })
]

unfoldable pub take_all_text : Stream → Option (List ℕ × Stream)
take_all_text s = elim s.text [
  | [] ↦ if s.ended then some ([], record s { ended = false }) else none
  | x ∷ xs ↦ some (x ∷ xs, record s { text = [] })
]

-- The queues that a stream makes: at most one string of data and one mark of the end.
pub data Holds : List (List ℕ) → Stream → Type 0 where
  nothing : Holds [] (record { text = []; ended = false })
  mark : Holds ([] ∷ []) (record { text = []; ended = true })
  some_text :
      (x : ℕ) (xs : List ℕ) → Holds ((x ∷ xs) ∷ []) (record { text = x ∷ xs; ended = false })
  text_mark :
      (x : ℕ) (xs : List ℕ) → Holds ((x ∷ xs) ∷ [] ∷ []) (record { text = x ∷ xs; ended = true })

-- A new buffer holds the empty stream.
new_buffer-Holds : Holds new_buffer.queue (record { text = []; ended = false })
new_buffer-Holds = nothing

erase_front-shift :
    (x : ℕ) (xs : List ℕ) (o : Option ℕ) → erase_front (x ∷ xs) (shift o) ≡ erase_front xs o
erase_front-shift x xs none = refl
erase_front-shift x xs (some n) = refl

skip_zeros-eq : (xs : List ℕ) → erase_front xs (find_first_not_of 0 xs 0) ≡ skip_zeros xs
unfolding find_first_not_of skip_zeros
skip_zeros-eq [] = refl
skip_zeros-eq (x ∷ xs) = elim (Bool-cases (x == 0)) [
  | inl e ↦ rw e (rw (erase_front-shift x xs (find_first_not_of 0 xs 0)) (skip_zeros-eq xs))
  | inr e ↦ rw e refl
]

-- What `extract` leaves of the front string, by the two searches and the erasure.
left_of : List ℕ → Option ℕ → List ℕ
left_of text none = []
left_of text (some pos) = erase_front text (find_first_not_of 0 text pos)

left_of-shift : (x : ℕ) (xs : List ℕ) (o : Option ℕ) → left_of (x ∷ xs) (shift o) ≡ left_of xs o
unfolding left_of find_first_not_of
left_of-shift x xs none = refl
left_of-shift x xs (some n) = erase_front-shift x xs (find_first_not_of 0 xs n)

left_of-eq : (text : List ℕ) → left_of text (find_first_of 0 text) ≡ after_string text
unfolding left_of find_first_of find_first_not_of after_string
left_of-eq [] = refl
left_of-eq (x ∷ xs) = elim (Bool-cases (x == 0)) [
  | inl e ↦ rw e (rw e (rw (erase_front-shift x xs (find_first_not_of 0 xs 0)) (skip_zeros-eq xs)))
  | inr e ↦ rw e (rw (left_of-shift x xs (find_first_of 0 xs)) (left_of-eq xs))
]

abbrev unless_empty : List ℕ → Option (List ℕ)
unless_empty text = if is_empty text then none else some text

extract_front-eq : (text : List ℕ) → extract_front text ≡ unless_empty (after_string text)
unfolding extract_front left_of
extract_front-eq text = ground (arith, left_of-eq text, Option-cases (find_first_of 0 text))

-- The data type `Holds` fixes the queue from the specification's state.
append-Holds :
    (q : List (List ℕ)) (e : ℕ) (s : Stream) (chunk : List ℕ)
    → Holds q s
    → s.ended ≡ false
    → Holds (append (record { queue = q; error = e }) chunk).queue (feed s chunk)
unfolding append feed
append-Holds _ e _ [] nothing h = mark
append-Holds _ e _ (c ∷ cs) nothing h = some_text c cs
append-Holds _ e _ chunk mark h = cc
append-Holds _ e _ [] (some_text x xs) h = text_mark x xs
append-Holds _ e _ (c ∷ cs) (some_text x xs) h = some_text x (xs ++ (c ∷ cs))
append-Holds _ e _ chunk (text_mark x xs) h = cc

-- Until the end of the stream, `append` does to the buffer what a chunk does to the stream.
pub append_refines :
    (b : Buffer) (s : Stream) (chunk : List ℕ)
    → Holds b.queue s
    → s.ended ≡ false
    → Holds (append b chunk).queue (feed s chunk)
append_refines b s chunk h open_end = append-Holds b.queue b.error s chunk h open_end

pub error-append : (b : Buffer) (chunk : List ℕ) → (append b chunk).error ≡ b.error
unfolding append
error-append b chunk = ground arith

-- Two reads agree: both fail, or they give the same string and matching states.
abbrev pub Agrees : ℕ → Option (List ℕ × Buffer) → Option (List ℕ × Stream) → Type 0
Agrees e none none = Unit {0}
Agrees e (some (m, b)) (some (n, s)) = (m ≡ n) × (b.error ≡ e) × Holds b.queue s
Agrees e none (some r) = ⊥
Agrees e (some r) none = ⊥

-- The queue after `extract` has left `left` of the front string.
abbrev pub keep : List ℕ → List (List ℕ) → List (List ℕ)
keep [] rest = rest
keep (x ∷ xs) rest = (x ∷ xs) ∷ rest

extract-keep_of :
    (d : List ℕ) (rest : List (List ℕ)) (e : ℕ) (left : List ℕ)
    → extract_front d ≡ unless_empty left
    → extract (record { queue = d ∷ rest; error = e })
      ≡ some (record { queue = keep left rest; error = e })
unfolding extract
extract-keep_of d rest e [] h = rw (h, extract) refl
extract-keep_of d rest e (x ∷ xs) h = rw (h, extract) refl

extract-keep :
    (d : List ℕ) (rest : List (List ℕ)) (e : ℕ)
    → extract (record { queue = d ∷ rest; error = e })
      ≡ some (record { queue = keep (after_string d) rest; error = e })
extract-keep d rest e = extract-keep_of d rest e (after_string d) (extract_front-eq d)

-- A read on a stream whose front is `d`, whatever stands behind it.
pub extract_string-keep :
    (d : List ℕ) (rest : List (List ℕ)) (e : ℕ)
    → extract_string (record { queue = d ∷ rest; error = e }) true
      ≡ some (c_str d, record { queue = keep (after_string d) rest; error = e })
unfolding extract_string
extract_string-keep d rest e = rw (extract-keep d rest e) refl

keep-Holds : (left : List ℕ) → Holds (keep left []) (record { text = left; ended = false })
keep-Holds [] = nothing
keep-Holds (x ∷ xs) = some_text x xs

keep_mark-Holds :
    (left : List ℕ) → Holds (keep left ([] ∷ [])) (record { text = left; ended = true })
keep_mark-Holds [] = mark
keep_mark-Holds (x ∷ xs) = text_mark x xs

string-Agrees :
    (q : List (List ℕ)) (e : ℕ) (s : Stream)
    → Holds q s
    → Agrees e (extract_string (record { queue = q; error = e }) true) (take_string s)
unfolding extract_string take_string
string-Agrees _ e _ nothing = tt
string-Agrees _ e _ mark = rw (extract-keep [] [] e, Agrees) (refl, refl, nothing)
string-Agrees _ e _ (some_text x xs) =
    rw (extract-keep (x ∷ xs) [] e, Agrees) (refl, refl, keep-Holds (after_string (x ∷ xs)))
string-Agrees _ e _ (text_mark x xs) =
    rw (extract-keep (x ∷ xs) ([] ∷ []) e, Agrees)
      (refl, refl, keep_mark-Holds (after_string (x ∷ xs)))

-- Reading a string from the buffer reads it from the stream.
pub string_refines :
    (b : Buffer) (s : Stream)
    → Holds b.queue s
    → Agrees b.error (extract_string b true) (take_string s)
string_refines b s h = string-Agrees b.queue b.error s h

data-Agrees :
    (q : List (List ℕ)) (e : ℕ) (s : Stream)
    → Holds q s
    → Agrees e (extract_data (record { queue = q; error = e })) (take_all_text s)
unfolding extract_data pop take_all_text
data-Agrees _ e _ nothing = tt
data-Agrees _ e _ mark = (refl, refl, nothing)
data-Agrees _ e _ (some_text x xs) = (refl, refl, nothing)
data-Agrees _ e _ (text_mark x xs) = (refl, refl, mark)

-- Reading data from the buffer reads all text of the stream.
pub data_refines :
    (b : Buffer) (s : Stream) → Holds b.queue s → Agrees b.error (extract_data b) (take_all_text s)
data_refines b s h = data-Agrees b.queue b.error s h
