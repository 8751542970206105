-- ===== src/Socket/System/Heaps.antt =====
-- Changes of one socket object of src/Socket.cpp, seen from the sockets of a pool.
use agssock.Base.{
  ℕ, Bool, ◌≡◌, refl, ap, ◌∙◌, false, Option, none, some, List, [], ◌∷◌, elem, All, arith,
  Bool-cases, Option-cases, inl, inr, ◌==◌, ==_iff, sym, one_result, no_result, suc,
}
use agssock.Objects.{Socket, Heap, update}
use agssock.Pool.{add, remove, Pool}
use agssock.Pool.Round.{usable}
use agssock.Pool.Reading.{IsUsable}
use agssock.Pool.Open.{IsOpen, IsOpenAt}
use agssock.Socket.System.{Fresh}
use agssock.World.{World}
use agssock.Pool.Sets.{erase-All}

-- The usable sockets stay so if one is stored with the descriptor that it had.
pub usable_kept :
    (h : Heap) (p : ℕ) (sock sock' : Socket) (ps : List ℕ)
    → h p ≡ some sock
    → sock'.id ≡ sock.id
    → All (λ q. usable (update h p (some sock') q) ≡ usable (h q)) ps
unfolding usable
usable_kept h p sock sock' [] at same = tt
usable_kept h p sock sock' (q ∷ qs) at same = (
  elim (Bool-cases (p == q)) [
    | inl here ↦
        let there : h q ≡ some sock = rw (← (==_iff p q).0 here) at in
        rw (here, there, usable) (rw same refl)
    | inr other ↦ rw other refl
  ],
  usable_kept h p sock sock' qs at same,
)

pub usable_away :
    (h : Heap) (p : ℕ) (o : Option Socket) (ps : List ℕ)
    → elem p ps ≡ false
    → All (λ q. usable (update h p o q) ≡ usable (h q)) ps
usable_away h p o [] m = tt
usable_away h p o (q ∷ qs) m = (ap usable (ground arith), usable_away h p o qs (ground arith))

-- A change of an allocated object allocates none, nor does freeing one.
pub Fresh-live :
    {K : Type 0} (w : World K) (p : ℕ) (sock : Socket) (o : Option Socket)
    → w.sockets p ≡ some sock
    → Fresh w
    → Fresh (record w { sockets = update w.sockets p o })
Fresh-live w p sock o at fresh q h = elim (Bool-cases (p == q)) [
  | inl same ↦ no_result (sym (fresh q h) ∙ rw ((==_iff p q).0 same) at at)
  | inr other ↦ rw other (fresh q h)
]

pub Fresh-freed :
    {K : Type 0} (w : World K) (p : ℕ)
    → Fresh w
    → Fresh (record w { sockets = update w.sockets p none })
Fresh-freed w p fresh q h = elim (Bool-cases (p == q)) [
  | inl same ↦ rw same refl
  | inr other ↦ rw other (fresh q h)
]

-- The next number is taken by a new object.
pub Fresh-next :
    {K : Type 0} (w : World K) (o : Option Socket)
    → Fresh w
    → Fresh (record w { next = suc w.next; sockets = update w.sockets w.next o })
Fresh-next w o fresh q h =
    let other : (w.next == q) ≡ false = ground arith in rw other (fresh q (omega arith))

-- A usable socket is live and open, and stays usable with the same descriptor.
pub usable_live : (h : Heap) (p : ℕ) → IsUsable h p → (sock : Socket) × (h p ≡ some sock)
unfolding usable
usable_live h p (fd, u) = elim (Option-cases (h p)) [
  | inl gone ↦ absurd (ground arith)
  | inr live ↦ live
]

-- An object that is not allocated is not in a pool of usable sockets.
pub fresh_absent :
    (h : Heap) (p : ℕ) (ps : List ℕ) → h p ≡ none → All (IsUsable h) ps → elem p ps ≡ false
unfolding usable
fresh_absent h p [] gone us = refl
fresh_absent h p (q ∷ qs) gone ((fd, u), us) =
    let rest = fresh_absent h p qs gone us in ground arith

pub stored-IsUsable :
    (h : Heap) (p : ℕ) (sock sock' : Socket)
    → h p ≡ some sock
    → sock'.id ≡ sock.id
    → IsUsable h p
    → IsUsable (update h p (some sock')) p
stored-IsUsable h p sock sock' at same (fd, u) =
    (fd, (usable_kept h p sock sock' (p ∷ []) at same).0 ∙ u)

-- The same of the sockets of which more can be read
pub open_kept :
    (h : Heap) (p : ℕ) (sock sock' : Socket) (ps : List ℕ)
    → h p ≡ some sock
    → (IsOpen sock → IsOpen sock')
    → All (IsOpenAt h) ps
    → All (IsOpenAt (update h p (some sock'))) ps
open_kept h p sock sock' [] at more os = tt
open_kept h p sock sock' (q ∷ qs) at more ((s, at', o), os) = (
  elim (Bool-cases (p == q)) [
    | inl here ↦
        let there : h p ≡ some s = rw ((==_iff p q).0 here) at' in
        let same : sock ≡ s = one_result (sym at ∙ there) in (sock', rw here refl, more (rw same o))
    | inr other ↦ (s, rw other at', o)
  ],
  open_kept h p sock sock' qs at more os,
)

pub removed_open :
    (h : Heap) (capacity p : ℕ) (pool : Pool)
    → All (IsOpenAt h) pool.sockets
    → All (IsOpenAt h) (remove capacity p pool).sockets
unfolding remove
removed_open h capacity p pool os = ground (arith, erase-All (IsOpenAt h) p pool.sockets os)

pub added_open :
    (h : Heap) (capacity : ℕ) (created : Bool) (p : ℕ) (pool : Pool)
    → IsOpenAt h p
    → All (IsOpenAt h) pool.sockets
    → All (IsOpenAt h) (add capacity created p pool).sockets
unfolding add
added_open h capacity created p pool o os = ground arith
