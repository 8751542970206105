-- ===== src/Socket/Blocking.antt =====
-- The constructor and the destructor of `Beacon` in src/API.cpp, which open and close its pipe, and
-- what `setblocking` there does to the flags of a descriptor.
mod Tests
use agssock.Base.{
  ℕ, ◌+◌, ◌-◌, ◌/◌, ◌%◌, ◌^◌, ◌≡◌, refl, ap, sym, ◌∙◌, ◌≢◌, Bool, true, false, some, arith, ◌==◌,
  if◌then◌else◌,
}
use agssock.Api.Os.{Os, Result, done, failed}
use agssock.World.{World, sys}
use mathlib.Core.Path.{subst}
use agssock.Socket.Create.{setblocking, with_blocking}

-- What `pipe` leaves in the array; a failure leaves what it held.
abbrev pub ends_of : Result (ℕ × ℕ) → ℕ × ℕ → ℕ × ℕ
ends_of (done ends) stale = ends
ends_of (failed e) stale = stale

module _ {K : Type 0} (os : Os K) where
  -- `pipe` is that of the system, whose failure is not looked at.
  unfoldable pub open_beacon : (K → Result (ℕ × ℕ) × K) → ℕ × ℕ → World K → (ℕ × ℕ) × World K
  unfolding setblocking
  open_beacon pipe stale w =
      let (r, w₁) = sys pipe w in
      let fds = ends_of r stale in
      (fds, setblocking os (some fds.1) false (setblocking os (some fds.0) false w₁))

  unfoldable pub close_beacon : ℕ × ℕ → World K → World K
  close_beacon fds w =
      let (r₁, w₁) = sys (os.close (some fds.0)) w in (sys (os.close (some fds.1)) w₁).1

-- What `fcntl` does to the flags of open descriptors.
pub record Flags {K : Type 0} (os : Os K) (flags : K → ℕ → ℕ) : Type 0 where
  pub gets : (fd : ℕ) (k : K) → os.get_flags (some fd) k ≡ (done (flags k fd), k)
  pub sets : (fd f : ℕ) (k : K) → flags (os.set_flags (some fd) f k).1 fd ≡ f
  pub keeps : (fd f q : ℕ) (k : K) → fd ≢ q → flags (os.set_flags (some fd) f k).1 q ≡ flags k q

-- O_NONBLOCK of a descriptor's flags
abbrev pub nonblock : ℕ → ℕ
nonblock flags = flags / 2 ^ 11 % 2

-- The flags below and above O_NONBLOCK
abbrev pub RestKept : ℕ → ℕ → Type 0
RestKept old new = (new % 2 ^ 11 ≡ old % 2 ^ 11) × (new / 2 ^ 12 ≡ old / 2 ^ 12)

with_blocking_lem :
    (state : Bool) (f : ℕ)
    → let f' = with_blocking state (done f) in
      (nonblock f' ≡ (if state then 0 else 1)) × RestKept f f'
with_blocking_lem state f = ground arith

-- A pipe of two ends that do not block, seen from the flags that a system had: these are the ends,
-- O_NONBLOCK is set for both, and nothing else is changed.
abbrev pub EndsUnblocked : {K : Type 0} → (K → ℕ → ℕ) → K → ℕ × ℕ → (ℕ × ℕ) × World K → Type 0
EndsUnblocked flags k (a, b) (fds, w) =
    (fds ≡ (a, b))
    × (nonblock (flags w.kernel a) ≡ 1)
    × (nonblock (flags w.kernel b) ≡ 1)
    × RestKept (flags k a) (flags w.kernel a)
    × RestKept (flags k b) (flags w.kernel b)
    × ((q : ℕ) → a ≢ q → b ≢ q → flags w.kernel q ≡ flags k q)

module _ {K : Type 0} (os : Os K) (flags : K → ℕ → ℕ) (laws : Flags os flags) where
  -- The flag of one descriptor is set or cleared, and no other flag or descriptor changes.
  pub setblocking_lem :
      (fd : ℕ) (state : Bool) (w : World K)
      → let w' = setblocking os (some fd) state w in
        (nonblock (flags w'.kernel fd) ≡ (if state then 0 else 1))
        × RestKept (flags w.kernel fd) (flags w'.kernel fd)
        × ((q : ℕ) → fd ≢ q → flags w'.kernel q ≡ flags w.kernel q)
  unfolding setblocking
  setblocking_lem fd state w =
      let f' : ℕ = with_blocking state (done (flags w.kernel fd)) in
      let kernel : (setblocking os (some fd) state w).kernel
          ≡ (os.set_flags (some fd) f' w.kernel).1 =
        ap (λ a. (os.set_flags (some fd) (with_blocking state a.0) a.1).1)
          (laws.gets fd w.kernel) in
      let at : flags (setblocking os (some fd) state w).kernel fd ≡ f' =
        ap (λ k. flags k fd) kernel ∙ laws.sets fd f' w.kernel in
      let (bit, rest) = with_blocking_lem state (flags w.kernel fd) in
      (rw at bit, rw at rest, λ q ne. ap (λ k. flags k q) kernel ∙ laws.keeps fd f' q w.kernel ne)

  -- If `pipe` gives two ends, then neither end of a new beacon blocks: O_NONBLOCK is set for both. Their
  -- other flags, and those of all other descriptors, are as `pipe` left them.
  pub beacon_never_blocks :
      (pipe : K → Result (ℕ × ℕ) × K) (stale : ℕ × ℕ) (a b : ℕ) (w : World K)
      → (pipe w.kernel).0 ≡ done (a, b)
      → a ≢ b
      → EndsUnblocked flags (pipe w.kernel).1 (a, b) (open_beacon os pipe stale w)
  unfolding open_beacon
  beacon_never_blocks pipe stale a b w opened other =
      let w₁ : World K = (sys pipe w).1 in
      let w₂ : World K = setblocking os (some a) false w₁ in
      let (bit, rest, same) = setblocking_lem a false w₁ in
      let (bit', rest', same') = setblocking_lem b false w₂ in
      let kept : flags (setblocking os (some b) false w₂).kernel a ≡ flags w₂.kernel a =
        same' a (λ e. other (sym e)) in
      let start : open_beacon os pipe stale w ≡ ((a, b), setblocking os (some b) false w₂) =
        ap
          (λ r. (
            ends_of r stale,
            setblocking os (some (ends_of r stale).1) false
                (setblocking os (some (ends_of r stale).0) false w₁),
          ))
          opened in
      let above : RestKept (flags w₁.kernel b) (flags (setblocking os (some b) false w₂).kernel b) =
        rw (← same b other) rest' in
      subst (EndsUnblocked flags (pipe w.kernel).1 (a, b)) (sym start)
        (refl, rw kept bit, bit', rw kept rest, above, λ q na nb. same' q nb ∙ same q na)
