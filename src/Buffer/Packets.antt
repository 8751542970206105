-- ===== src/Buffer/Packets.antt =====
-- The buffer of a datagram socket is a queue of packets: each read takes one, whole and in order.
use mathlib.Core.Option
use agssock.Base.{
  ℕ, zero, suc, ◌≡◌, refl, ap, sym, ◌∙◌, Option, none, some, List, [], ◌∷◌, ◌++◌, append-nil,
  append_assoc, length,
}
use agssock.Buffer.{Buffer, push, pop, extract_data}

-- The packets that the read loop pushes, in order.
pub enqueue : Buffer → List (List ℕ) → Buffer
enqueue b [] = b
enqueue b (p ∷ ps) = enqueue (push b p) ps

pub read_packets : ℕ → Buffer → Option (List (List ℕ) × Buffer)
read_packets zero b = some ([], b)
read_packets (suc n) b = elim (extract_data b) [
  | none ↦ none
  | some (p, b') ↦ Option.map (λ r. (p ∷ r.0, r.1)) (read_packets n b')
]

enqueue-append :
    (b : Buffer) (ps : List (List ℕ)) → enqueue b ps ≡ record b { queue = b.queue ++ ps }
unfolding enqueue push
enqueue-append b [] = ap (λ q. record b { queue = q }) (sym (append-nil b.queue))
enqueue-append b (p ∷ ps) =
    enqueue-append (push b p) ps
    ∙ ap (λ q. record b { queue = q }) (append_assoc b.queue (p ∷ []) ps)

read_packets_all :
    (ps : List (List ℕ)) (e : ℕ)
    → read_packets (length ps) (record { queue = ps; error = e })
      ≡ some (ps, record { queue = []; error = e })
unfolding read_packets extract_data pop
read_packets_all [] e = refl
read_packets_all (p ∷ ps) e = rw (read_packets_all ps e) refl

-- As many reads of data as a buffer holds packets give what it held and then the packets that
-- have arrived since, in order and each whole, empty ones too, and leave it empty.
pub packets_in_order :
    (b : Buffer) (ps : List (List ℕ))
    → read_packets (length (b.queue ++ ps)) (enqueue b ps)
      ≡ some (b.queue ++ ps, record b { queue = [] })
packets_in_order b ps = rw (enqueue-append b ps) (read_packets_all (b.queue ++ ps) b.error)
