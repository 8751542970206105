-- ===== src/SockAddr/Text.antt =====
-- How `SockAddr_set_Address` of src/SockAddr.cpp takes an address apart: an optional
-- `service://` in front and, unless the address is an IPv6 one, an optional `:service` behind.
pub mod Parse
use agssock.Base.{
  ℕ, ◌+◌, suc, Bool, true, false, ◌&&◌, Option, none, some, List, [], ◌∷◌, take, drop, is_empty,
  ◌==◌, if◌then◌else◌,
}

abbrev pub colon : ℕ
colon = b':'

abbrev pub slash : ℕ
slash = b'/'

abbrev pub separator : List ℕ
separator = colon ∷ slash ∷ slash ∷ []

abbrev pub is_prefix : List ℕ → List ℕ → Bool
is_prefix [] s = true
is_prefix (p ∷ ps) [] = false
is_prefix (p ∷ ps) (x ∷ xs) = (x == p) && is_prefix ps xs

abbrev next : Option ℕ → Option ℕ
next none = none
next (some i) = some (suc i)

-- `find` of a string and `rfind` of a character, with `none` for `npos`
find : List ℕ → List ℕ → Option ℕ
find pat [] = none
find pat (x ∷ xs) = if is_prefix pat (x ∷ xs) then some 0 else next (find pat xs)

rfind : ℕ → List ℕ → Option ℕ
rfind c [] = none
rfind c (x ∷ xs) = elim (rfind c xs) [
  | some i ↦ some (suc i)
  | none ↦ if x == c then some 0 else none
]

-- Both steps go from the node and the service found so far to those left.
split_front : List ℕ → List ℕ × List ℕ
unfolding find
split_front addr = elim (find separator addr) [
  | none ↦ (addr, [])
  | some index ↦ (drop (index + 3) addr, take index addr)
]

split_back : List ℕ × List ℕ → List ℕ × List ℕ
unfolding rfind
split_back (node, service) = elim (rfind colon node) [
  | none ↦ (node, service)
  | some index ↦ (take index node, drop (index + 1) node)
]

unfoldable pub split_address : Bool → List ℕ → List ℕ × List ℕ
unfolding split_front split_back
split_address ipv6 addr = if ipv6 then split_front addr else split_back (split_front addr)

-- AI_ADDRCONFIG, AI_V4MAPPED and, for an empty node, AI_PASSIVE
pub hint_flags : List ℕ → ℕ
hint_flags node = 0x28 + (if is_empty node then 1 else 0)
