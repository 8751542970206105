-- ===== src/Buffer.antt =====
-- src/Buffer.h and src/Buffer.cpp: the queue of byte strings in which a socket keeps its input.
-- `none` is what C++ leaves undefined: the front of an empty queue.
pub mod Stream
pub mod Lines
pub mod Packets
pub mod Ends
mod Tests
use agssock.Base.{
  ℕ, zero, suc, Bool, true, false, ◌||◌, Option, none, some, List, [], ◌∷◌, ◌++◌, is_empty, drop,
  ◌==◌, if◌then◌else◌, c_str,
}
use mathlib.Core.Option

pub record Buffer : Type 0 where
  pub queue : List (List ℕ)
  pub error : ℕ

abbrev pub new_buffer : Buffer
new_buffer = record { queue = []; error = 0 }

abbrev pub front : Buffer → Option (List ℕ)
front b = elim b.queue [ [] ↦ none | d ∷ _ ↦ some d ]

abbrev pub empty : Buffer → Bool
empty b = is_empty b.queue

unfoldable pub push : Buffer → List ℕ → Buffer
push b text = record b { queue = b.queue ++ (text ∷ []) }

unfoldable pub pop : Buffer → Option Buffer
pop b = elim b.queue [ [] ↦ none | _ ∷ rest ↦ some (record b { queue = rest }) ]

-- `queue_.back().append(data, count)`, on a queue that is not empty
append_back : List (List ℕ) → List ℕ → List (List ℕ)
append_back [] text = []
append_back (d ∷ []) text = (d ++ text) ∷ []
append_back (d ∷ e ∷ rest) text = d ∷ append_back (e ∷ rest) text

unfoldable pub append : Buffer → List ℕ → Buffer
unfolding append_back push
append b text =
    if empty b || is_empty text then push b text else record b { queue = append_back b.queue text }

-- `find_first_of` and `find_first_not_of` of a `std::string`; `none` is `npos`.
abbrev shift : Option ℕ → Option ℕ
shift none = none
shift (some i) = some (suc i)

find_first_of : ℕ → List ℕ → Option ℕ
find_first_of c [] = none
find_first_of c (x ∷ xs) = if x == c then some 0 else shift (find_first_of c xs)

find_first_not_of : ℕ → List ℕ → ℕ → Option ℕ
find_first_not_of c [] pos = none
find_first_not_of c (x ∷ xs) zero = if x == c then shift (find_first_not_of c xs zero) else some 0
find_first_not_of c (x ∷ xs) (suc pos) = shift (find_first_not_of c xs pos)

-- `erase(0, count)`, where `npos` takes all
abbrev erase_front : List ℕ → Option ℕ → List ℕ
erase_front text none = []
erase_front text (some n) = drop n text

-- The string at the front after `extract`, or `none` if it is popped.
extract_front : List ℕ → Option (List ℕ)
unfolding find_first_of find_first_not_of
extract_front text = elim (find_first_of 0 text) [
  | none ↦ none
  | some pos ↦
      let left = erase_front text (find_first_not_of 0 text pos) in
      if is_empty left then none else some left
]

unfoldable pub extract : Buffer → Option Buffer
unfolding extract_front
extract b = elim b.queue [
  | [] ↦ none
  | d ∷ rest ↦ elim (extract_front d) [
    | none ↦ some (record b { queue = rest })
    | some left ↦ some (record b { queue = left ∷ rest })
  ]
]

-- `recv_extract` of src/Socket.cpp in its two forms: an AGS string, which ends at the first zero,
-- and the bytes of the front element.
unfoldable pub extract_string : Buffer → Bool → Option (List ℕ × Buffer)
extract_string b stream = elim (front b) [
  | none ↦ none
  | some d ↦ Option.map (λ rest. (c_str d, rest)) (if stream then extract b else pop b)
]

unfoldable pub extract_data : Buffer → Option (List ℕ × Buffer)
extract_data b = elim (front b) [ none ↦ none | some d ↦ Option.map (λ rest. (d, rest)) (pop b) ]
