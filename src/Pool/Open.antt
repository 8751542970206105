-- ===== src/Pool/Open.antt =====
-- The sockets of the pool are those of which more can be read: none of them has seen an error, and
-- no stream among them its end. So `Socket_Recv` of src/Socket.cpp may close a socket on either.
use agssock.Base.{
  ℕ, ◌≡◌, refl, sym, ◌∙◌, ◌≢◌, ◌⊎◌, inl, inr, Bool, true, false, not, some, List, [], ◌∷◌, is_empty,
  elem, All, arith, ◌==◌, ==_iff, Bool-cases,
}
use agssock.Api.Os.{Os, Result, done, failed}
use agssock.Objects.{Socket, Heap, sock_stream}
use agssock.Buffer.{push}
use agssock.Buffer.Ends.{Unmarked, append-Unmarked}
use agssock.Pool.Sets.{Distinct}
use agssock.Pool.Round.{take_in, chunk_size, pass}
use agssock.Pool.Reading.{Read, skipped, taken, Passed, finished, next}
use agssock.Buffer.Stream.{error-append}
use agssock.Pool.Passes.{pass-Passed}
use agssock.Pool.Deliver.{Passed-absent, Read-ne}

abbrev pub IsOpen : Socket → Type 0
IsOpen sock = (sock.incoming.error ≡ 0) × ((sock.type ≢ sock_stream) ⊎ Unmarked sock.incoming.queue)

abbrev pub IsOpenAt : Heap → ℕ → Type 0
IsOpenAt h p = (sock : Socket) × (h p ≡ some sock) × IsOpen sock

-- What the loop takes in closes a socket only if the socket then leaves the pool.
take_in-IsOpen :
    (sock : Socket) (a : Result (List ℕ))
    → IsOpen sock
    → (take_in sock a).1 ≡ true
    → IsOpen (take_in sock a).0
unfolding take_in push
take_in-IsOpen sock (failed e) o stays = ground arith
take_in-IsOpen sock (done chunk) (fine, o) stays = elim (Bool-cases (sock.type == sock_stream)) [
  | inl stream ↦
      let text : not (is_empty chunk) ≡ true = rw stream at stays in
      let unmarked : Unmarked sock.incoming.queue = elim o [
        | inl other ↦ absurd (other ((==_iff sock.type sock_stream).0 stream))
        | inr u ↦ u
      ] in
      rw stream (
        error-append sock.incoming chunk ∙ fine,
        inr (append-Unmarked sock.incoming chunk unmarked (ground arith)),
      )
  | inr packets ↦ rw packets (fine, inl (ground arith))
]

-- A change of one object leaves the others open.
pub away_open :
    (h h' : Heap) (ps : List ℕ) (p : ℕ)
    → ((q : ℕ) → p ≢ q → h' q ≡ h q)
    → elem p ps ≡ false
    → All (IsOpenAt h) ps
    → All (IsOpenAt h') ps
away_open h h' [] p same m o = tt
away_open h h' (q ∷ qs) p same m ((sock, at, open_at), os) =
    ((sock, same q (ground arith) ∙ at, open_at), away_open h h' qs p same (ground arith) os)

module _ {K : Type 0} (os : Os K) (read : List ℕ) where
  Read-IsOpen_of :
      {h h' : Heap} {p : ℕ} {k k' : K} {stays : Bool}
      → Read os read h p k h' stays k'
      → stays ≡ true
      → IsOpenAt h p
      → IsOpenAt h' p
  Read-IsOpen_of (skipped sock fd at u idle eh es ek) stay o = rw eh o
  Read-IsOpen_of {p = p} {k = k} (taken sock fd at u ready eh es ek) stay (sock₁, at₁, o) =
      let answer = (os.recv (some fd) chunk_size k).0 in
      let same : sock₁ ≡ sock = cc in
      (
        (take_in sock answer).0,
        rw eh (ground arith),
        take_in-IsOpen sock answer (rw (← same) o) (sym es ∙ stay),
      )

  Read-IsOpen :
      {h h' : Heap} {p : ℕ} {k k' : K}
      → Read os read h p k h' true k'
      → IsOpenAt h p
      → IsOpenAt h' p
  Read-IsOpen r o = Read-IsOpen_of r refl o

  Passed-IsOpen :
      {h h' : Heap} {ps rest : List ℕ} {k k' : K}
      → Passed os read h ps k rest h' k'
      → Distinct ps
      → All (IsOpenAt h) ps
      → All (IsOpenAt h') rest
  Passed-IsOpen (finished er eh ek) d o = rw er tt
  Passed-IsOpen {h = h} (next {h₁ = h₁} {p = p} {ps = ps} {rest = rest} true r more e) d (o, os') =
      let (sock, at, open_at) = Read-IsOpen r o in
      rw e (
        (sock, (Passed-absent os read p more d.0).0 ∙ at, open_at),
        Passed-IsOpen more d.1 (away_open h h₁ ps p (λ q. Read-ne os read q r) d.0 os'),
      )
  Passed-IsOpen {h = h} (next {h₁ = h₁} {p = p} {ps = ps} false r more e) d (o, os') =
      rw e (Passed-IsOpen more d.1 (away_open h h₁ ps p (λ q. Read-ne os read q r) d.0 os'))

  -- The read loop keeps the pool open: if its sockets are distinct, have seen no error, and the
  -- streams among them no end, then this holds of those that a pass of the loop leaves in it. So a
  -- socket of which the loop takes in an error or an end leaves the pool with it.
  pub pass_keeps_open :
      (h : Heap) (ps : List ℕ) (k : K) (rest : List ℕ) (h' : Heap) (k' : K)
      → Distinct ps
      → All (IsOpenAt h) ps
      → pass os read h ps k ≡ some (rest, h', k')
      → All (IsOpenAt h') rest
  pass_keeps_open h ps k rest h' k' d o e =
      Passed-IsOpen (pass-Passed os read h ps k rest h' k' e) d o
