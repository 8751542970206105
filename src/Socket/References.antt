-- ===== src/Socket/References.antt =====
-- The references to addresses that the sockets of src/Socket.cpp hold: what the engine was asked to
-- hold and to release, and what the sockets point to.
pub mod Kept
pub mod Takes
pub mod Balance
pub mod Games
mod Tests
use agssock.Base.{ℕ, zero, suc, ◌+◌, ◌≡◌, Option, none, some, List, [], ◌∷◌, ◌==◌, if◌then◌else◌}
use agssock.Objects.{Socket, Heap}
use agssock.World.{World, Call, hold, release}

-- How often an address was held and released
abbrev pub holds : ℕ → List Call → ℕ
holds a [] = 0
holds a (hold b ∷ cs) = (if a == b then 1 else 0) + holds a cs
holds a (_ ∷ cs) = holds a cs

abbrev pub releases : ℕ → List Call → ℕ
releases a [] = 0
releases a (release b ∷ cs) = (if a == b then 1 else 0) + releases a cs
releases a (_ ∷ cs) = releases a cs

abbrev pub points_to : ℕ → Option ℕ → ℕ
points_to a none = 0
points_to a (some b) = if a == b then 1 else 0

-- The pointers to an address that a socket has, if there is one
abbrev pub references : ℕ → Option Socket → ℕ
references a none = 0
references a (some sock) = points_to a sock.local + points_to a sock.remote

-- The pointers to an address that the sockets below a number have
abbrev pub all_references : ℕ → ℕ → Heap → ℕ
all_references a zero h = 0
all_references a (suc n) h = references a (h n) + all_references a n h

-- Nothing is held or released, and no socket comes to point elsewhere.
abbrev pub RefsKept : {K : Type 0} → ℕ → World K → World K → Type 0
RefsKept a w w' =
    (holds a w'.calls ≡ holds a w.calls)
    × (releases a w'.calls ≡ releases a w.calls)
    × ((q : ℕ) → references a (w'.sockets q) ≡ references a (w.sockets q))
