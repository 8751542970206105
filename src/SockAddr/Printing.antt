-- ===== src/SockAddr/Printing.antt =====
-- `SockAddr_get_Address` of src/SockAddr.cpp: the text of an address, by what the system's
-- `getnameinfo` says of it.
pub mod Laws
use agssock.Base.{
  ℕ, zero, suc, ◌+◌, ◌-◌, ◌/◌, ◌%◌, Bool, true, false, not, ◌&&◌, ◌||◌, Option, none, some, List,
  [], ◌∷◌, ◌++◌, leb, ltb, ◌==◌, if◌then◌else◌, c_str, is_empty, ◌≡◌, refl,
}
use agssock.SockAddr.Names.{Resolver}
use agssock.SockAddr.Text.{colon, separator}
use agssock.SockAddr.{SockAddr, get_port}

-- `sprintf` with "%d": the digits of a number below ten to the `fuel`
digits : ℕ → ℕ → List ℕ → List ℕ
digits zero n rest = rest
digits (suc fuel) n rest =
    let shown = (48 + n % 10) ∷ rest in
    let more = digits fuel (n / 10) shown in if ltb n 10 then shown else more

-- A port has at most five digits.
unfoldable pub decimal : ℕ → List ℕ
unfolding digits
decimal n = digits 5 n []

-- The parts of the syntax of `atof` that tell whether the number is zero, exponents aside
is_space : ℕ → Bool
is_space c = (leb 9 c && leb c 13) || (c == 32)

skip_spaces : List ℕ → List ℕ
unfolding is_space
skip_spaces [] = []
skip_spaces (c ∷ cs) = if is_space c then skip_spaces cs else c ∷ cs

skip_sign : List ℕ → List ℕ
skip_sign [] = []
skip_sign (c ∷ cs) = if (c == b'+') || (c == b'-') then cs else c ∷ cs

lower : ℕ → ℕ
lower c = if leb 65 c && leb c 90 then c + 32 else c

begins : List ℕ → List ℕ → Bool
unfolding lower
begins [] s = true
begins (p ∷ ps) [] = false
begins (p ∷ ps) (x ∷ xs) = (lower x == p) && begins ps xs

-- Whether a digit other than zero stands among the digits in front, in either base; `point` says
-- that the decimal point may still come.
nonzero_digits : Bool → Bool → List ℕ → Bool
unfolding lower
nonzero_digits hex point [] = false
nonzero_digits hex point (c ∷ cs) =
    let later = nonzero_digits hex (point && not (c == b'.')) cs in
    if (leb b'1' c && leb c b'9') || (hex && (leb 97 (lower c) && leb (lower c) 102))
    then true
    else if (c == b'0') || (point && (c == b'.'))
    then later
    else false

number_nonzero : List ℕ → Bool
unfolding begins nonzero_digits
number_nonzero s =
    if begins (b'i' ∷ b'n' ∷ b'f' ∷ []) s || begins (b'n' ∷ b'a' ∷ b'n' ∷ []) s
    then true
    else if begins (b'0' ∷ b'x' ∷ []) s
    then nonzero_digits true true (elim s [ [] ↦ [] | _ ∷ t ↦ elim t [ [] ↦ [] | _ ∷ u ↦ u ] ])
    else nonzero_digits false true s

-- `atof(serv) == 0.0`
unfoldable pub atof_is_zero : List ℕ → Bool
unfolding skip_spaces skip_sign number_nonzero
atof_is_zero serv = not (number_nonzero (skip_sign (skip_spaces serv)))

-- The text for a host and a service
unfoldable pub address_text : List ℕ → List ℕ → List ℕ
unfolding atof_is_zero
address_text host serv = elim serv [
  | [] ↦ host
  | c ∷ cs ↦
      if (c == b'0') && is_empty cs
      then host
      else if atof_is_zero (c ∷ cs)
      then (c ∷ cs) ++ (separator ++ host)
      else host ++ (colon ∷ c ∷ cs)
]

unfoldable pub get_address : Resolver → SockAddr → List ℕ
unfolding address_text decimal
get_address r sa = elim (r.getnameinfo sa.bytes) [
  | some (host, serv) ↦ c_str (address_text host serv)
  | none ↦ elim (r.getnameinfo_host sa.bytes) [
    | none ↦ []
    | some host ↦ c_str (host ++ (colon ∷ decimal (get_port sa)))
  ]
]
