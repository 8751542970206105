-- ===== src/Pool.antt =====
-- src/Pool.h and src/Pool.cpp: the set of sockets of which a thread reads the input. Each function
-- here runs under the lock `guard_`; the read loop of `Pool::run` is cut where it gives the lock up.
-- `none` is undefined behaviour: a dangling pointer, or a descriptor that no `fd_set` can hold.
pub mod Round
pub mod Sets
pub mod Reading
pub mod Passes
pub mod Deliver
pub mod Open
pub mod System
pub mod Locking
pub mod Tests
use agssock.Base.{
  ℕ, zero, suc, Bool, true, false, not, ◌&&◌, ◌||◌, Option, none, some, List, [], ◌∷◌, length, elem,
  is_empty, ltb, ◌==◌, if◌then◌else◌,
}
use agssock.Api.Thread.{Thread, new_thread, start, is_active}
use agssock.Api.Beacon.{Beacon, new_beacon, signal}
use agssock.Objects.{Socket, Heap}

-- The order of an `unordered_set` is not specified; the list holds no pointer twice.
pub record Pool : Type 0 where
  pub sockets : List ℕ
  pub beacon : Beacon
  pub thread : Thread

abbrev pub new_pool : Pool
new_pool = record { sockets = []; beacon = new_beacon; thread = new_thread }

-- `erase` of a key, and the number of elements that it removes.
pub erase : ℕ → List ℕ → List ℕ
erase p [] = []
erase p (q ∷ qs) = if q == p then qs else q ∷ erase p qs

-- `capacity` is that of the beacon's pipe; `created` is the result of `pthread_create`, if the
-- thread has to be started.
module _ (capacity : ℕ) where
  unfoldable pub add : Bool → ℕ → Pool → Pool
  add created sock p =
      if not (elem sock p.sockets) && (length (sock ∷ p.sockets) == 1)
      then record p { sockets = sock ∷ p.sockets; thread = start created p.thread }
      else record p {
        sockets = if elem sock p.sockets then p.sockets else sock ∷ p.sockets;
        beacon = signal capacity p.beacon;
      }

  unfoldable pub remove : ℕ → Pool → Pool
  unfolding erase
  remove sock p =
      if elem sock p.sockets
      then record p { sockets = erase sock p.sockets; beacon = signal capacity p.beacon }
      else p

  unfoldable pub clear : Pool → Pool
  clear p = record p { sockets = []; beacon = signal capacity p.beacon }

-- The loop of `operator bool`: whether no socket of the pool is invalid.
all_valid : Heap → List ℕ → Option Bool
all_valid h [] = some true
all_valid h (p ∷ ps) =
    let rest = all_valid h ps in
    elim (h p) [ none ↦ none | some sock ↦ elim sock.id [ none ↦ some false | some fd ↦ rest ] ]

unfoldable pub is_operating : Heap → Pool → Option Bool
unfolding all_valid
is_operating h p =
    if ltb 0 (length p.sockets) && not (is_active p.thread)
    then some false
    else all_valid h p.sockets
