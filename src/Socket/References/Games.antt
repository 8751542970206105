-- ===== src/Socket/References/Games.antt =====
-- The references to addresses in all that scripts, the read loop of src/Pool.cpp and the network reach.
use mathlib.Core.Path.{subst}
use agssock.Base.{
  Bool, ℕ, zero, suc, ◌+◌, ◌≤◌, ◌<◌, ◌≡◌, refl, sym, ap, ◌∙◌, true, none, some, List, [], arith,
  Bool-cases, inl, inr, ◌==◌, ==_iff,
}
use agssock.Api.Os.{Os, Result, done, failed}
use agssock.Objects.{Socket, Heap}
use agssock.Pool.Round.{take_in, chunk_size}
use agssock.Pool.Reading.{Read, skipped, taken, Passed, finished, next}
use agssock.Pool.Passes.{pass-Passed}
use agssock.Pool.System.{Phase, System, LoopStep, collects, reports, processes}
use agssock.Pool.System.Keeps.{process-some}
use agssock.World.{World}
use agssock.Socket.System.Script.{Live, begins, calls, turns, moves}
use agssock.Socket.System.Safety.{Live-Reach}
use agssock.Socket.References.{holds, releases, references, all_references}
use agssock.Socket.References.Balance.{brought, script_keeps_balance, all_references-same}

-- Numbers that are free do not count.
all_references-free :
    (a m n : ℕ) (h : Heap)
    → m ≤ n
    → ((q : ℕ) → m ≤ q → h q ≡ none)
    → all_references a n h ≡ all_references a m h
all_references-free a m zero h le free =
    (let e : 0 ≡ m = omega arith in ap (λ i. all_references a i h) e)
all_references-free a m (suc n) h le free = elim (Bool-cases (m == suc n)) [
  | inl same ↦ (let e : suc n ≡ m = ground arith in ap (λ i. all_references a i h) e)
  | inr other ↦ omega (
    arith,
    ap (references a) (free n (ground arith)),
    all_references-free a m n h (ground arith) free,
  )
]

take_in-references :
    (a : ℕ) (sock : Socket) (r : Result (List ℕ))
    → references a (some (take_in sock r).0) ≡ references a (some sock)
unfolding take_in
take_in-references a sock (failed e) = ground arith
take_in-references a sock (done chunk) = ground arith

module _ {K : Type 0} (os : Os K) (read : List ℕ) (a : ℕ) where
  Read-references :
      {h h' : Heap} {p : ℕ} {k k' : K} {stays : Bool} (q : ℕ)
      → Read os read h p k h' stays k'
      → references a (h' q) ≡ references a (h q)
  Read-references q (skipped sock fd at u idle eh es ek) = rw eh refl
  Read-references {h} {p = p} {k = k} q (taken sock fd at u ready eh es ek) =
      elim (Bool-cases (p == q)) [
        | inl same ↦
            let there : h q ≡ some sock = subst (λ m. h m ≡ some sock) ((==_iff p q).0 same) at in
            rw (eh, same)
              (take_in-references a sock (os.recv (some fd) chunk_size k).0
                ∙ ap (references a) (sym there))
        | inr other ↦ rw (eh, other) refl
      ]

  Passed-references :
      {h h' : Heap} {ps rest : List ℕ} {k k' : K} (q : ℕ)
      → Passed os read h ps k rest h' k'
      → references a (h' q) ≡ references a (h q)
  Passed-references q (finished er eh ek) = rw eh refl
  Passed-references q (next stays r ps e) = Passed-references q ps ∙ Read-references q r

module _ {K : Type 0} (os : Os K) (capacity beacon : ℕ) (room : 0 < capacity)
    (threads : (k : K) → os.thread_starts k ≡ true) where
  turned_references :
      {s t : System K} (a q : ℕ)
      → LoopStep os capacity beacon s t
      → references a (t.heap q) ≡ references a (s.heap q)
  turned_references a q (collects r at e) = refl
  turned_references a q (reports r read at some_of) = refl
  turned_references {s} a q (processes read p h k at e) =
      let (rest, passed, left) =
        process-some os capacity beacon room read s.heap s.pool s.kernel p h k e in
      Passed-references os read a q
        (pass-Passed os read s.heap s.pool.sockets s.kernel rest h k passed)

  -- The world that a game began with, and the references that restored sockets brought into it
  abbrev pub start_of : {w : World K} {phase : Phase} → Live os capacity beacon w phase → World K
  start_of (begins w empty_pool calm free) = w
  start_of (calls live c) = start_of live
  start_of (turns live st) = start_of live
  start_of (moves live k) = start_of live

  abbrev pub brought_in : {w : World K} {phase : Phase} → Live os capacity beacon w phase → ℕ → ℕ
  brought_in (begins w empty_pool calm free) a = 0
  brought_in (calls live c) a = brought_in live a + brought c a
  brought_in (turns live st) a = brought_in live a
  brought_in (moves live k) a = brought_in live a

  none_at_start : (a n : ℕ) (h : Heap) → ((q : ℕ) → h q ≡ none) → all_references a n h ≡ 0
  none_at_start a zero h bare = refl
  none_at_start a (suc n) h bare =
      omega (arith, ap (references a) (bare n), none_at_start a n h bare)

  -- Whatever scripts call of what `ScriptCall` admits, in whatever order with the read loop and the
  -- network, in a game that began with no socket, an empty pool and no call of the engine: what the
  -- engine was asked to hold of an address and not to release, with what restored sockets have
  -- brought, is what the sockets point to. A restored socket brings what its bytes name, for which the
  -- engine keeps the count in the saved game. Threads can be created, the beacon can hold a byte, the
  -- descriptors of accepted connections fit into an `fd_set`, a socket that is connected or bound is
  -- open with such a descriptor and more can be read of it, and no chunk of a buffer that is read as a
  -- string begins with a zero.
  pub references_balance :
      (a : ℕ) {w : World K} {phase : Phase} (l : Live os capacity beacon w phase)
      → (start_of l).calls ≡ []
      → ((q : ℕ) → (start_of l).sockets q ≡ none)
      → holds a w.calls + brought_in l a ≡ releases a w.calls + all_references a w.next w.sockets
  references_balance a (begins w empty_pool calm free) quiet bare =
      omega
        (arith, ap (holds a) quiet, ap (releases a) quiet, none_at_start a w.next w.sockets bare)
  references_balance a (calls {w} {w'} live c) quiet bare =
      let before = references_balance a live quiet bare in
      let (_, _, free, _) = Live-Reach os capacity beacon room threads live in
      let (_, _, free', _) = Live-Reach os capacity beacon room threads (calls live c) in
      let n : ℕ = suc (w.next + w'.next) in
      omega (
        arith,
        before,
        script_keeps_balance os capacity a n w w' free (omega arith) c,
        all_references-free a w.next n w.sockets (omega arith) free,
        all_references-free a w'.next n w'.sockets (omega arith) free',
      )
  references_balance a (turns {w} {phase} {t} live st) quiet bare =
      references_balance a live quiet bare
      ∙ ap (λ n. releases a w.calls + n)
          (sym (all_references-same a w.next w.sockets t.heap (λ q. turned_references a q st)))
  references_balance a (moves live k) quiet bare = references_balance a live quiet bare
