-- ===== src/Pool/Reading.antt =====
-- What a pass of the read loop of src/Pool.cpp does: what it asks of the system, what it does to
-- each socket, and what it leaves alone.
use agssock.Base.{
  ℕ, ◌≤◌, ◌+◌, ◌≡◌, refl, inl, inr, Bool, true, false, some, List, [], ◌∷◌, length, elem, ltb,
  if◌then◌else◌, arith, All, Bool-cases, Option-cases,
}
use agssock.Api.Os.{Os, Result, done, failed}
use agssock.Objects.{Socket, Heap, update}
use agssock.Pool.{Pool}
use agssock.Pool.Round.{usable, Request, collect_from, collect, take_in, chunk_size, read_one}

-- A pointer to a live and valid socket whose descriptor fits into an `fd_set`.
abbrev pub IsUsable : Heap → ℕ → Type 0
IsUsable h p = (fd : ℕ) × (usable (h p) ≡ some fd)

-- The descriptor of a socket stands in a read set.
abbrev pub IsListed : Heap → List ℕ → ℕ → Type 0
IsListed h read p = (fd : ℕ) × (usable (h p) ≡ some fd) × (elem fd read ≡ true)

IsListed-cons :
    (h : Heap) (read : List ℕ) (x : ℕ) (ps : List ℕ)
    → All (IsListed h read) ps
    → All (IsListed h (x ∷ read)) ps
IsListed-cons h read x [] l = tt
IsListed-cons h read x (p ∷ ps) ((fd, at, listed), ls) =
    ((fd, at, ground arith), IsListed-cons h read x ps ls)

Below-mono : (m n : ℕ) (xs : List ℕ) → m ≤ n → All (λ x. x ≤ m) xs → All (λ x. x ≤ n) xs
Below-mono m n [] h b = tt
Below-mono m n (x ∷ xs) h b = (omega arith, Below-mono m n xs h b.1)

-- A request lists what was listed and the sockets behind it, and stays below its `nfds`.
record Collected (h : Heap) (ps : List ℕ) (r r' : Request) : Type 0 where
  kept : (x : ℕ) → elem x r.read ≡ true → elem x r'.read ≡ true
  listed : All (IsListed h r'.read) ps
  bounded : All (λ fd. fd ≤ r'.nfds) r'.read
  counted : length r'.read ≡ length r.read + length ps

collect_from-total :
    (h : Heap) (ps : List ℕ) (r : Request)
    → All (IsUsable h) ps
    → All (λ fd. fd ≤ r.nfds) r.read
    → (r' : Request) × (collect_from h ps r ≡ some r') × Collected h ps r r'
unfolding collect_from
collect_from-total h [] r u b =
    (r, refl, record { kept = λ x e. e; listed = tt; bounded = b; counted = omega arith })
collect_from-total h (p ∷ ps) r ((fd, at), us) b =
    let top : ℕ = if ltb r.nfds fd then fd else r.nfds in
    let (r', e, c) =
      collect_from-total h ps (record { read = fd ∷ r.read; nfds = top }) us
        (ground arith, Below-mono r.nfds top r.read (ground arith) b) in
    (
      r',
      rw (at, collect_from) e,
      record {
        kept = λ x m. c.kept x (ground arith);
        listed = ((fd, at, c.kept fd (ground arith)), c.listed);
        bounded = c.bounded;
        counted = omega (arith, c.counted);
      },
    )

-- Before `select`, for a pool of usable sockets: no undefined behaviour; the read set holds the
-- beacon and the descriptor of each socket, and nothing else, by its length; and each descriptor
-- is at most the `nfds`.
pub collect_lem :
    (h : Heap) (beacon : ℕ) (p : Pool)
    → All (IsUsable h) p.sockets
    → (r : Request) × (collect h beacon p ≡ some r)
      × (elem beacon r.read ≡ true)
      × All (IsListed h r.read) p.sockets
      × All (λ fd. fd ≤ r.nfds) r.read
      × (length r.read ≡ length p.sockets + 1)
unfolding collect
collect_lem h beacon p u =
    let (r, e, c) =
      collect_from-total h p.sockets (record { read = beacon ∷ []; nfds = beacon }) u
        (omega arith, tt) in
    (r, e, c.kept beacon (ground arith), c.listed, c.bounded, omega (arith, c.counted))

module _ {K : Type 0} (os : Os K) (read : List ℕ) where
  -- The body of the loop, by the three cases of the source: a socket that is not ready, and one of
  -- which the input, the end of the stream or the error is taken in.
  pub read_one_lem :
      (h : Heap) (p : ℕ) (k : K) (sock : Socket) (fd : ℕ)
      → h p ≡ some sock
      → usable (some sock) ≡ some fd
      → let answer = os.recv (some fd) chunk_size k in
        read_one os read h p k ≡ (
          if elem fd read
          then some
              (update h p (some (take_in sock answer.0).0), (take_in sock answer.0).1, answer.1)
          else some (h, true, k))
  unfolding read_one
  read_one_lem h p k sock fd at u = rw (at, read_one) (rw (u, read_one) refl)

  -- What one body has done to a socket that the pool holds.
  pub data Read (h : Heap) (p : ℕ) (k : K) (h' : Heap) (stays : Bool) (k' : K) : Type 0 where
    skipped :
        (sock : Socket) (fd : ℕ)
        → h p ≡ some sock
        → usable (some sock) ≡ some fd
        → elem fd read ≡ false
        → h' ≡ h
        → stays ≡ true
        → k' ≡ k
        → Read h p k h' stays k'
    taken :
        (sock : Socket) (fd : ℕ)
        → h p ≡ some sock
        → usable (some sock) ≡ some fd
        → elem fd read ≡ true
        → h' ≡ update h p (some (take_in sock (os.recv (some fd) chunk_size k).0).0)
        → stays ≡ (take_in sock (os.recv (some fd) chunk_size k).0).1
        → k' ≡ (os.recv (some fd) chunk_size k).1
        → Read h p k h' stays k'

  pub read_one-Read :
      (h : Heap) (p : ℕ) (k : K) (h' : Heap) (stays : Bool) (k' : K)
      → read_one os read h p k ≡ some (h', stays, k')
      → Read h p k h' stays k'
  unfolding read_one
  read_one-Read h p k h' stays k' e = elim (Option-cases (h p)) [
    | inl gone ↦ absurd (ground arith)
    | inr (sock, at) ↦ elim (Option-cases (usable (some sock))) [
      | inl closed ↦ absurd (ground arith)
      | inr (fd, u) ↦ elim (Bool-cases (elem fd read)) [
        | inl ready ↦ taken sock fd at u ready (ground arith) (ground arith) (ground arith)
        | inr idle ↦ skipped sock fd at u idle (ground arith) (ground arith) (ground arith)
      ]
    ]
  ]

  -- The runs of the loop, one body after the other.
  pub data Passed : Heap → List ℕ → K → List ℕ → Heap → K → Type 0 where
    finished :
        {h h' : Heap} {k k' : K} {rest : List ℕ}
        → rest ≡ []
        → h' ≡ h
        → k' ≡ k
        → Passed h [] k rest h' k'
    next :
        {h h₁ h' : Heap} {p : ℕ} {ps rest all_rest : List ℕ} {k k₁ k' : K} (stays : Bool)
        → Read h p k h₁ stays k₁
        → Passed h₁ ps k₁ rest h' k'
        → all_rest ≡ (if stays then p ∷ rest else rest)
        → Passed h (p ∷ ps) k all_rest h' k'

  usable-take_in :
      (sock : Socket) (a : Result (List ℕ)) → usable (some (take_in sock a).0) ≡ usable (some sock)
  unfolding take_in usable
  usable-take_in sock (failed e) = ground arith
  usable-take_in sock (done chunk) = ground arith

  pub usable-Read :
      {h h' : Heap} {p : ℕ} {k k' : K} {stays : Bool}
      → Read h p k h' stays k'
      → (q : ℕ) → usable (h' q) ≡ usable (h q)
  usable-Read (skipped sock fd at u idle eh es ek) q = rw eh refl
  usable-Read {p = p} {k = k} (taken sock fd at u ready eh es ek) q =
      rw eh (ground (arith, usable-take_in sock (os.recv (some fd) chunk_size k).0))
