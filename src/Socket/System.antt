-- ===== src/Socket/System.antt =====
-- The functions of src/Socket.cpp beside the read loop of src/Pool.cpp: what a function does to the
-- pool, the sockets and the system is a run of the steps that the pool's system allows.
pub mod Heaps
pub mod Steps
pub mod Opens
pub mod Ends
pub mod Moves
pub mod Takes
pub mod Makes
pub mod Script
pub mod Safety
mod Tests
use agssock.Base.{
  ℕ, ◌<◌, ◌≡◌, refl, ap, ◌∙◌, Bool, true, false, ◌||◌, Option, none, some, List, [], ◌∷◌, elem, All,
  arith, Bool-cases, Option-cases, inl, inr, ◌==◌, ==_iff, if◌then◌else◌, ◌⊎◌, sym, not, ◌&&◌,
  one_result, ◌≤◌,
}
use agssock.Api.Os.{Os}
use agssock.Objects.{Socket, Heap, update}
use agssock.Pool.{add, remove, is_operating, Pool}
use agssock.Pool.Round.{usable}
use agssock.Pool.Reading.{IsUsable}
use agssock.Pool.System.{
  Phase, System, Step, adds, removes, changes, networks, Inv, after_start, with_pool, is_running,
  same_phase, collecting,
}
use agssock.Pool.System.Keeps.{Step-Inv}
use agssock.Pool.System.Safety.{operating-Inv}
use agssock.World.{
  World, Call, abort_game, store, pool_add, pool_remove, check_pool_invariant, asks,
}
use agssock.Socket.Receive.Leaves.{Leaves}
use mathlib.Core.Path.{subst}
use agssock.Pool.Open.{IsOpen, IsOpenAt, away_open}
use agssock.Pool.Sets.{erase-All}
use agssock.Socket.Connect.{join_pool}

-- What the pool's system sees of a world, with the read loop at the given place.
abbrev pub view : {K : Type 0} → World K → Phase → System K
view w phase = record { pool = w.pool; heap = w.sockets; kernel = w.kernel; phase = phase }

-- The sockets of the pool are those of which more can be read.
abbrev pub OpenPool : {K : Type 0} → World K → Type 0
OpenPool w = All (IsOpenAt w.sockets) w.pool.sockets

-- No socket is allocated from the next number on.
abbrev pub Fresh : {K : Type 0} → World K → Type 0
Fresh w = (q : ℕ) → w.next ≤ q → w.sockets q ≡ none

-- Whether the engine was asked to abort the game.
abbrev pub aborts : List Call → Bool
aborts [] = false
aborts (abort_game ∷ calls) = true
aborts (_ ∷ calls) = aborts calls

-- A call of the engine that is no abort
abbrev pub Quiet : (List ℕ → Call) → Type 0
Quiet call = (text : List ℕ) (rest : List Call) → aborts (call text ∷ rest) ≡ aborts rest

module _ {K : Type 0} (os : Os K) (capacity beacon : ℕ) where
  -- Runs of the steps of the pool's system
  pub data Runs (s : System K) : System K → Type 0 where
    stays : Runs s s
    runs_on : {t u : System K} → Runs s t → Step os capacity beacon t u → Runs s u

  -- A run of steps from one world to the other, with no abort in it, that keeps the pool open
  -- and the next numbers free.
  abbrev pub Leads : World K → Phase → World K → Phase → Type 0
  Leads w phase w' phase' =
      Runs (view w phase) (view w' phase')
      × (aborts w'.calls ≡ aborts w.calls)
      × (OpenPool w → OpenPool w')
      × (Fresh w → Fresh w')

  -- A run that ends where the flag of the thread says: the loop is at its start if the flag has been
  -- set, and else where it was.
  abbrev pub Follows : World K → Phase → World K → Type 0
  Follows w phase w' = Leads w phase w' (after_start w.pool.thread w'.pool.thread phase)
