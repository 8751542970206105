-- ===== src/Socket/References/Balance.antt =====
-- The balance of the references to addresses, which every call of a script in src/Socket.cpp keeps.
use agssock.Base.{
  ltb, ℕ, zero, suc, ◌+◌, ◌≤◌, ◌<◌, ◌≡◌, refl, sym, ap, ◌∙◌, ◌≢◌, none, some, arith, Bool-cases,
  inl, inr, ◌==◌, no_result,
}
use agssock.Api.Os.{Os}
use agssock.Objects.{Heap}
use agssock.World.{World}
use agssock.Socket.Saved.{unserialize}
use agssock.Socket.System.{Fresh}
use agssock.Socket.System.Script.{
  ScriptCall, creates, restores, connects, binds, accepts, listens, sends, sends_to, receives,
  receives_data, receives_from, receives_data_from, asks_local, asks_remote, closes, disposes,
}
use agssock.Socket.References.{holds, releases, references, all_references, RefsKept}
use agssock.Socket.References.Kept.{
  listen-RefsKept, recv-RefsKept, recv_data-RefsKept, recv_from-RefsKept, recv_data_from-RefsKept,
  close-RefsKept, create-RefsKept, bind-RefsKept, connect-RefsKept, send-RefsKept, send_to-RefsKept,
  accept-RefsKept,
}
use agssock.Socket.References.Takes.{
  Found, Balanced, get_local-Balanced, get_remote-Balanced, dispose-Balanced, restore-references,
  get_local-Found, get_remote-Found, dispose-Found,
}

pub all_references-same :
    (a n : ℕ) (h h' : Heap)
    → ((q : ℕ) → references a (h' q) ≡ references a (h q))
    → all_references a n h' ≡ all_references a n h
all_references-same a zero h h' same = refl
all_references-same a (suc n) h h' same = omega (arith, same n, all_references-same a n h h' same)

-- Below a number, only one socket has come to point elsewhere, or none.
all_references-below :
    (a p n : ℕ) (h h' : Heap)
    → n ≤ p
    → ((q : ℕ) → p ≢ q → references a (h' q) ≡ references a (h q))
    → all_references a n h' ≡ all_references a n h
all_references-below a p zero h h' le same = refl
all_references-below a p (suc n) h h' le same =
    omega (arith, same n (omega arith), all_references-below a p n h h' (omega arith) same)

all_references-changed :
    (a p n : ℕ) (h h' : Heap)
    → p < n
    → ((q : ℕ) → p ≢ q → references a (h' q) ≡ references a (h q))
    → all_references a n h' + references a (h p) ≡ all_references a n h + references a (h' p)
all_references-changed a p zero h h' lt same = omega arith
all_references-changed a p (suc n) h h' lt same = elim (Bool-cases (p == n)) [
  | inl last ↦
      let e : p ≡ n = ground arith in
      omega (
        arith,
        all_references-below a p n h h' (omega arith) same,
        ap (λ m. references a (h m)) e,
        ap (λ m. references a (h' m)) e,
      )
  | inr before ↦
      let ne : p ≢ n = ground arith in
      omega (arith, same n ne, all_references-changed a p n h h' (omega arith) same)
]

Found-below : {K : Type 0} (p n : ℕ) (w : World K) → Found p w → Fresh w → w.next < n → p < n
Found-below p n w (sock, at) free lt = elim (Bool-cases (ltb p n)) [
  | inl below ↦ ground arith
  | inr above ↦ no_result (sym (free p (ground arith)) ∙ at)
]

-- The references that a restored socket brings; other calls bring none.
abbrev pub brought :
    {K : Type 0} {os : Os K} {capacity : ℕ} {w w' : World K} → ScriptCall os capacity w w' → ℕ → ℕ
brought (restores keys left key buffer) a = references a (some (unserialize keys left buffer))
brought _ a = 0

-- The balance of one address, over the sockets below a number
abbrev pub Even : {K : Type 0} → ℕ → ℕ → ℕ → World K → World K → Type 0
Even a n new w w' =
    holds a w'.calls + releases a w.calls + all_references a n w.sockets + new
    ≡ holds a w.calls + releases a w'.calls + all_references a n w'.sockets

Even-of_RefsKept : {K : Type 0} (a n : ℕ) (w w' : World K) → RefsKept a w w' → Even a n 0 w w'
Even-of_RefsKept a n w w' (h, r, same) =
    omega (arith, h, r, all_references-same a n w.sockets w'.sockets same)

Even-of_Balanced :
    {K : Type 0} (a p n : ℕ) (w w' : World K) → p < n → Balanced p a w w' → Even a n 0 w w'
Even-of_Balanced a p n w w' lt (e, same) =
    omega (arith, e, all_references-changed a p n w.sockets w'.sockets lt same)

module _ {K : Type 0} (os : Os K) (capacity : ℕ) where
  -- Every call of a script keeps the balance of the references to each address: what the engine was
  -- asked to hold and not to release is what the sockets point to. A restored socket brings what its
  -- bytes name, for which the engine keeps the count in the saved game. No socket is allocated from the
  -- next number on, and the bound is above that.
  pub script_keeps_balance :
      (a n : ℕ) (w w' : World K)
      → Fresh w
      → w.next < n
      → (c : ScriptCall os capacity w w') → Even a n (brought c a) w w'
  script_keeps_balance a n w w' free lt (creates d t p) =
      Even-of_RefsKept a n w w' (create-RefsKept os capacity a d t p w (free w.next (omega arith)))
  script_keeps_balance a n w w' free lt (restores keys left key buffer) =
      let (h, r, here, same) = restore-references os capacity keys left key buffer a w in
      let none_there : w.sockets w.next ≡ none = free w.next (omega arith) in
      omega (
        arith,
        h,
        r,
        here,
        ap (references a) none_there,
        all_references-changed a w.next n w.sockets w'.sockets lt same,
      )
  script_keeps_balance a n w w' free lt (connects p addr async r u o e) =
      Even-of_RefsKept a n w w' (connect-RefsKept os capacity a p addr async r w w' e)
  script_keeps_balance a n w w' free lt (binds p addr r u o e) =
      Even-of_RefsKept a n w w' (bind-RefsKept os capacity a p addr r w w' e)
  script_keeps_balance a n w w' free lt (accepts p r fits e) =
      Even-of_RefsKept a n w w'
        (accept-RefsKept os capacity a p r w w' (free w.next (omega arith)) e)
  script_keeps_balance a n w w' free lt (listens p backlog r e) =
      Even-of_RefsKept a n w w' (listen-RefsKept os capacity a p backlog r w w' e)
  script_keeps_balance a n w w' free lt (sends p text r e) =
      Even-of_RefsKept a n w w' (send-RefsKept os capacity a p text r w w' e)
  script_keeps_balance a n w w' free lt (sends_to p addr text r e) =
      Even-of_RefsKept a n w w' (send_to-RefsKept os capacity a p addr text r w w' e)
  script_keeps_balance a n w w' free lt (receives p r sock at text e) =
      Even-of_RefsKept a n w w' (recv-RefsKept os capacity a p r w w' e)
  script_keeps_balance a n w w' free lt (receives_data p r sock at e) =
      Even-of_RefsKept a n w w' (recv_data-RefsKept os capacity a p r w w' e)
  script_keeps_balance a n w w' free lt (receives_from left p addr r e) =
      Even-of_RefsKept a n w w' (recv_from-RefsKept os capacity a left p addr r w w' e)
  script_keeps_balance a n w w' free lt (receives_data_from p addr r e) =
      Even-of_RefsKept a n w w' (recv_data_from-RefsKept os capacity a p addr r w w' e)
  script_keeps_balance a n w w' free lt (asks_local p addr e) =
      Even-of_Balanced a p n w w'
        (Found-below p n w (get_local-Found os capacity p addr w w' e) free lt)
        (get_local-Balanced os capacity p a addr w w' e)
  script_keeps_balance a n w w' free lt (asks_remote p addr e) =
      Even-of_Balanced a p n w w'
        (Found-below p n w (get_remote-Found os capacity p addr w w' e) free lt)
        (get_remote-Balanced os capacity p a addr w w' e)
  script_keeps_balance a n w w' free lt (closes p e) =
      Even-of_RefsKept a n w w' (close-RefsKept os capacity a p w w' e)
  script_keeps_balance a n w w' free lt (disposes p e) =
      Even-of_Balanced a p n w w' (Found-below p n w (dispose-Found os capacity p w w' e) free lt)
        (dispose-Balanced os capacity p a w w' e)
