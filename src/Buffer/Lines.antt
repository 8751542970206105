-- ===== src/Buffer/Lines.antt =====
-- Strings over a stream: what a peer sends with a zero after each string, in chunks of any size,
-- `extract_string` gives back string by string.
use mathlib.Core.Option
use agssock.Base.{
  ℕ, zero, suc, ◌≡◌, refl, ap, ◌∙◌, ◌≢◌, Bool, true, false, Option, none, some, List, [], ◌∷◌, ◌++◌,
  append-nil, append_assoc, flatten, arith, c_str, All, length,
}
use agssock.Buffer.{Buffer, new_buffer, append, extract_string}
use agssock.Buffer.Stream.{
  Stream, feed, Holds, nothing, mark, some_text, text_mark, take_string, skip_zeros, after_string,
  Agrees, append_refines, error-append, string_refines,
}

-- Each string with its zero.
unfoldable pub frame : List (List ℕ) → List ℕ
frame [] = []
frame (m ∷ ms) = m ++ (0 ∷ frame ms)

-- A string that is not empty and holds no zero.
abbrev pub IsWord : List ℕ → Type 0
IsWord m = (m ≢ []) × All (λ c. c ≢ 0) m

-- The chunks that the read loop appends, in order.
unfoldable pub deliver : Buffer → List (List ℕ) → Buffer
deliver b [] = b
deliver b (c ∷ cs) = deliver (append b c) cs

-- `n` reads of a string.
unfoldable pub read_strings : ℕ → Buffer → Option (List (List ℕ) × Buffer)
read_strings zero b = some ([], b)
read_strings (suc n) b = elim (extract_string b true) [
  | none ↦ none
  | some (m, b') ↦ Option.map (λ r. (m ∷ r.0, r.1)) (read_strings n b')
]

c_str-word : (m rest : List ℕ) → All (λ c. c ≢ 0) m → c_str (m ++ (0 ∷ rest)) ≡ m
c_str-word [] rest h = refl
c_str-word (x ∷ xs) rest h = ground (arith, h.0, c_str-word xs rest h.1)

after_string-word :
    (m rest : List ℕ) → All (λ c. c ≢ 0) m → after_string (m ++ (0 ∷ rest)) ≡ skip_zeros rest
unfolding after_string
after_string-word [] rest h = refl
after_string-word (x ∷ xs) rest h = ground (arith, h.0, after_string-word xs rest h.1)

skip_zeros-frame : (ms : List (List ℕ)) → All IsWord ms → skip_zeros (frame ms) ≡ frame ms
unfolding skip_zeros frame
skip_zeros-frame [] h = refl
skip_zeros-frame ([] ∷ ms) h = absurd (h.0.0 refl)
skip_zeros-frame ((x ∷ xs) ∷ ms) h = ground (arith, h.0.1.0)

take_string-frame :
    (m : List ℕ) (ms : List (List ℕ)) (e : Bool)
    → IsWord m
    → All IsWord ms
    → take_string (record { text = frame (m ∷ ms); ended = e })
      ≡ some (m, record { text = frame ms; ended = e })
unfolding take_string frame
take_string-frame [] ms e h hs = absurd (h.0 refl)
take_string-frame (x ∷ xs) ms e h hs =
    rw (c_str-word (x ∷ xs) (frame ms) h.1, after_string-word (x ∷ xs) (frame ms) h.1)
      (rw (skip_zeros-frame ms hs) refl)

-- A read that agrees with a successful one of the stream succeeds.
Agrees-some :
    (e : ℕ) (r : Option (List ℕ × Buffer)) (m : List ℕ) (s : Stream)
    → Agrees e r (some (m, s))
    → (b : Buffer) × (r ≡ some (m, b)) × (b.error ≡ e) × Holds b.queue s
Agrees-some e none m s h = absurd h
Agrees-some e (some (n, b)) m s h = (b, ap (λ k. some (k, b)) h.0, h.1, h.2)

Holds-empty : {q : List (List ℕ)} {s : Stream} → Holds q s → s.text ≡ [] → s.ended ≡ false → q ≡ []
Holds-empty nothing t h = refl
Holds-empty mark t h = cc
Holds-empty (some_text x xs) t h = cc
Holds-empty (text_mark x xs) t h = cc

read_frame :
    (ms : List (List ℕ)) (b : Buffer)
    → All IsWord ms
    → Holds b.queue (record { text = frame ms; ended = false })
    → read_strings (length ms) b ≡ some (ms, record { queue = []; error = b.error })
unfolding read_strings frame
read_frame [] b hs h = ap (λ q. some ([], record b { queue = q })) (Holds-empty h refl refl)
read_frame (m ∷ ms) b hs h =
    let agrees = string_refines b (record { text = frame (m ∷ ms); ended = false }) h in
    let (b', r, e, h') =
      Agrees-some b.error (extract_string b true) m (record { text = frame ms; ended = false })
        (rw (take_string-frame m ms false hs.0 hs.1) at agrees) in
    rw (r, read_strings) (rw (read_frame ms b' hs.1 h', e) refl)

deliver-Holds :
    (chunks : List (List ℕ)) (b : Buffer) (text : List ℕ)
    → All (λ c. c ≢ []) chunks
    → Holds b.queue (record { text = text; ended = false })
    → Holds (deliver b chunks).queue (record { text = text ++ flatten chunks; ended = false })
unfolding deliver feed flatten
deliver-Holds [] b text hs h = rw (append-nil text) h
deliver-Holds ([] ∷ cs) b text hs h = absurd (hs.0 refl)
deliver-Holds ((c ∷ cs) ∷ rest) b text hs h = rw (← append_assoc text (c ∷ cs) (flatten rest)) (
    deliver-Holds rest (append b (c ∷ cs)) (text ++ (c ∷ cs)) hs.1
      (append_refines b (record { text = text; ended = false }) (c ∷ cs) h refl))

error-deliver : (chunks : List (List ℕ)) (b : Buffer) → (deliver b chunks).error ≡ b.error
unfolding deliver
error-deliver [] b = refl
error-deliver (c ∷ cs) b = error-deliver cs (append b c) ∙ error-append b c

-- Strings that are sent with a zero after each arrive as they were sent, however the stream is
-- cut into chunks (none of them empty): as many reads give them in order, and leave nothing.
-- The strings hold no zero and none is empty.
pub strings_round_trip :
    (ms chunks : List (List ℕ))
    → All IsWord ms
    → All (λ c. c ≢ []) chunks
    → flatten chunks ≡ frame ms
    → read_strings (length ms) (deliver new_buffer chunks) ≡ some (ms, new_buffer)
strings_round_trip ms chunks words chunked sent =
    rw
      (read_frame ms (deliver new_buffer chunks) words
        (rw sent at (deliver-Holds chunks new_buffer [] chunked nothing)))
      (rw (error-deliver chunks new_buffer) refl)
