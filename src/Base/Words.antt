-- ===== src/Base/Words.antt =====
-- Machine integers as bit patterns in two's complement: an `int` is a number below 2 ^ 32, an
-- `ags_t` (the `intptr_t` of a 64-bit build) a number below 2 ^ 64, a `char` one below 256.
use Prim.Native.Nat.{ℕ, ◌+◌, ◌-◌, ◌%◌, ◌^◌, ◌<◌}
use mathlib.Core.Path.{◌≡◌}
use mathlib.Core.Bool.{Bool}
use native.Mathlib.Omega.{arith}
use agssock.Base.Tests.{ltb, leb, if◌then◌else◌}

-- `(int) x` of an `ags_t`, and the other way round with the sign extended
abbrev pub int_of_ags : ℕ → ℕ
int_of_ags x = x % 2 ^ 32

abbrev pub ags_of_int : ℕ → ℕ
ags_of_int x = if ltb x (2 ^ 31) then x else x + (2 ^ 64 - 2 ^ 32)

-- `(char) x` of an `ags_t`, and the value of a signed `char` as an `ags_t`
abbrev pub char_of_ags : ℕ → ℕ
char_of_ags x = x % 256

abbrev pub ags_of_char : ℕ → ℕ
ags_of_char c = if ltb c 128 then c else c + (2 ^ 64 - 256)

-- `x < 0` of an `ags_t`
abbrev pub is_negative : ℕ → Bool
is_negative x = leb (2 ^ 63) x

pub char_of_ags-ags_of_char : (c : ℕ) → c < 256 → char_of_ags (ags_of_char c) ≡ c
char_of_ags-ags_of_char c h = ground arith

pub int_of_ags-ags_of_int : (x : ℕ) → x < 2 ^ 32 → int_of_ags (ags_of_int x) ≡ x
int_of_ags-ags_of_int x h = ground arith
