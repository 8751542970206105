-- ===== src/Socket/Receive/Gives.antt =====
-- What `recv_extract` of src/Socket.cpp gives for a socket of which the pool has read no end: a chunk,
-- and the socket stays open.
use agssock.Base.{
  ℕ, ◌≡◌, refl, ◌≢◌, ◌⊎◌, inl, inr, Bool, true, false, Option, some, List, [], ◌∷◌, is_empty, All,
  arith, c_str, ◌==◌, Bool-cases,
}
use agssock.Objects.{Socket, sock_stream}
use agssock.Buffer.{Buffer, pop, extract_string, extract_data}
use agssock.Buffer.Stream.{extract_string-keep, keep, after_string}
use agssock.Buffer.Ends.{Unmarked, NoZeroFront, c_str-NoZeroFront}
use agssock.Pool.Open.{IsOpen}

-- What a function that takes a chunk from the buffer must do for an open socket: give one, and not
-- an empty one on a stream.
abbrev pub Gives : (Buffer → Bool → Option (List ℕ × Buffer)) → Socket → Type 0
Gives extract sock =
    (d : List ℕ) (rest : List (List ℕ))
    → sock.incoming.queue ≡ d ∷ rest
    → (r : List ℕ × Buffer) × (extract sock.incoming (sock.type == sock_stream) ≡ some r)
      × ((sock.type ≢ sock_stream) ⊎ ((is_empty d ≡ true) ⊎ (is_empty r.0 ≡ false)))
      × (IsOpen sock → IsOpen (record sock { incoming = r.1 }))

-- What is left of a chunk, put back in front, is no mark.
keep-Unmarked : (left : List ℕ) (rest : List (List ℕ)) → Unmarked rest → Unmarked (keep left rest)
keep-Unmarked [] rest u = u
keep-Unmarked (x ∷ xs) rest u = (refl, u)

-- A queue without its first element is open if it was.
popped-IsOpen :
    (sock : Socket) (d : List ℕ) (rest left : List (List ℕ))
    → sock.incoming.queue ≡ d ∷ rest
    → (Unmarked rest → Unmarked left)
    → IsOpen sock
    → IsOpen (record sock { incoming = record (sock.incoming) { queue = left } })
popped-IsOpen sock d rest left front more (fine, inl other) = (fine, inl other)
popped-IsOpen sock d rest left front more (fine, inr u) = (fine, inr (more (rw front at u).1))

pub string-Gives : (sock : Socket) → All NoZeroFront sock.incoming.queue → Gives extract_string sock
unfolding extract_string pop
string-Gives sock text d rest front =
    let ok : NoZeroFront d = (rw front at text).0 in
    elim (Bool-cases (sock.type == sock_stream)) [
      | inl stream ↦ (
        (c_str d, record { queue = keep (after_string d) rest; error = sock.incoming.error }),
        rw (front, stream) (extract_string-keep d rest sock.incoming.error),
        inr (elim (Bool-cases (is_empty d)) [
          | inl marked ↦ inl marked
          | inr filled ↦ inr (c_str-NoZeroFront d filled ok)
        ]),
        popped-IsOpen sock d rest (keep (after_string d) rest) front
            (keep-Unmarked (after_string d) rest),
      )
      | inr packets ↦ (
        (c_str d, record (sock.incoming) { queue = rest }),
        rw (front, packets) refl,
        inl (ground arith),
        popped-IsOpen sock d rest rest front (λ u. u),
      )
    ]

pub data-Gives : (sock : Socket) → Gives (λ b stream. extract_data b) sock
unfolding extract_data pop
data-Gives sock d rest front = (
  (d, record (sock.incoming) { queue = rest }),
  rw front refl,
  inr (elim (Bool-cases (is_empty d)) [ inl marked ↦ inl marked | inr filled ↦ inr filled ]),
  popped-IsOpen sock d rest rest front (λ u. u),
)
