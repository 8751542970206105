-- ===== src/Pool/Sets.antt =====
-- The pool as a set of pointers, and `operator bool` of src/Pool.cpp as a decision of the two
-- invariants that the file names.
use agssock.Base.{
  ℕ, ◌<◌, ◌≡◌, refl, ◌≢◌, ◌⊎◌, ◌↔◌, inl, inr, Bool, true, false, some, List, [], ◌∷◌, elem, arith,
  All, Option-cases,
}
use agssock.Api.Thread.{start}
use agssock.Api.Beacon.{signal_pending}
use agssock.Objects.{Socket, Heap}
use agssock.Pool.{Pool, erase, add, remove, clear, all_valid, is_operating}

-- No pointer stands twice in the list.
abbrev pub Distinct : List ℕ → Type 0
Distinct [] = Unit {0}
Distinct (p ∷ ps) = (elem p ps ≡ false) × Distinct ps

pub erase-All : (P : ℕ → Type 0) (p : ℕ) (ps : List ℕ) → All P ps → All P (erase p ps)
unfolding erase
erase-All P p [] h = tt
erase-All P p (q ∷ qs) h = ground (arith, erase-All P p qs h.1)

elem-erase_ne : (p q : ℕ) (ps : List ℕ) → p ≢ q → elem q (erase p ps) ≡ elem q ps
unfolding erase
elem-erase_ne p q [] ne = refl
elem-erase_ne p q (x ∷ xs) ne = ground (arith, elem-erase_ne p q xs ne)

pub elem-erase_self : (p : ℕ) (ps : List ℕ) → Distinct ps → elem p (erase p ps) ≡ false
unfolding erase
elem-erase_self p [] d = refl
elem-erase_self p (x ∷ xs) d = ground (arith, elem-erase_self p xs d.1)

pub erase-Distinct : (p : ℕ) (ps : List ℕ) → Distinct ps → Distinct (erase p ps)
unfolding erase
erase-Distinct p [] d = tt
erase-Distinct p (x ∷ xs) d = ground (arith, erase-Distinct p xs d.1, elem-erase_ne p x xs)

-- Adding a socket puts it into the pool and keeps the others; removing it takes it out and keeps
-- the others; clearing leaves none. No pointer comes to stand twice.
pub set_operations :
    (capacity : ℕ) (created : Bool) (sock other : ℕ) (p : Pool)
    → Distinct p.sockets
    → sock ≢ other
    → let added = (add capacity created sock p).sockets in
      let removed = (remove capacity sock p).sockets in
      (elem sock added ≡ true)
      × (elem other added ≡ elem other p.sockets)
      × Distinct added
      × (elem sock removed ≡ false)
      × (elem other removed ≡ elem other p.sockets)
      × Distinct removed
      × (elem other (clear capacity p).sockets ≡ false)
unfolding add remove clear
set_operations capacity created sock other p d ne = ground (
  arith,
  elem-erase_ne sock other p.sockets ne,
  elem-erase_self sock p.sockets d,
  erase-Distinct sock p.sockets d,
)

-- A pool is woken or started by every operation that changes its set of sockets: the set is what it
-- was, or the beacon can be read, or the thread was asked to start for a first socket.
pub every_change_signals :
    (capacity : ℕ) (created : Bool) (sock : ℕ) (p : Pool)
    → 0 < capacity
    → let a = add capacity created sock p in
      let r = remove capacity sock p in
      ((0 < a.beacon.pending) ⊎ ((p.sockets ≡ []) × (a.thread ≡ start created p.thread)))
      × ((r ≡ p) ⊎ (0 < r.beacon.pending))
      × (0 < (clear capacity p).beacon.pending)
unfolding add remove clear
every_change_signals capacity created sock p h = ground (arith, signal_pending capacity p.beacon h)

-- Invariant I and invariant II of src/Pool.cpp, the latter for live sockets.
abbrev pub ThreadRuns : Pool → Type 0
ThreadRuns p = (p.sockets ≡ []) ⊎ (p.thread.active ≡ true)

abbrev pub IsValidAt : Heap → ℕ → Type 0
IsValidAt h p = (sock : Socket) × (fd : ℕ) × (h p ≡ some sock) × (sock.id ≡ some fd)

all_valid_sound : (h : Heap) (ps : List ℕ) → all_valid h ps ≡ some true → All (IsValidAt h) ps
unfolding all_valid
all_valid_sound h [] e = tt
all_valid_sound h (p ∷ ps) e = elim (Option-cases (h p)) [
  | inl gone ↦ ground arith
  | inr (sock, at) ↦ elim (Option-cases sock.id) [
    | inl closed ↦ ground arith
    | inr (fd, id) ↦ ((sock, fd, at, id), all_valid_sound h ps (ground arith))
  ]
]

all_valid_complete : (h : Heap) (ps : List ℕ) → All (IsValidAt h) ps → all_valid h ps ≡ some true
unfolding all_valid
all_valid_complete h [] v = refl
all_valid_complete h (p ∷ ps) ((sock, fd, at, id), vs) = ground (arith, all_valid_complete h ps vs)

-- `operator bool` is true exactly of a pool for which both invariants hold.
pub is_operating_iff :
    (h : Heap) (p : Pool)
    → (is_operating h p ≡ some true) ↔ (ThreadRuns p × All (IsValidAt h) p.sockets)
unfolding is_operating
is_operating_iff h p = (
  λ e. ground (arith, all_valid_sound h p.sockets),
  λ v. ground (arith, all_valid_complete h p.sockets),
)
