-- ===== src/SockAddr/Fallback.antt =====
-- The versions of `inet_ntop` and `inet_pton` in src/API.cpp for a Windows that has none: both go by
-- the name service. Addresses have the layout of src/SockAddr.cpp here.
pub mod Laws
use agssock.Base.{
  ℕ, ◌+◌, Option, none, some, List, [], ◌∷◌, length, take, replicate, leb, ◌==◌, if◌then◌else◌,
}
use agssock.Base.Memory.{write_at, slice}
use agssock.SockAddr.Names.{Resolver}
use agssock.SockAddr.{SockAddr, af_inet, af_inet6, storage_size, family_bytes}

-- What of the name service the two use: the first address of a text, by the flags and the family of
-- the hint, and the numeric text of an address.
pub record Numbers : Type 0 where
  pub lookup : List ℕ → ℕ → ℕ → Option (List ℕ)
  pub text_of : List ℕ → Option (List ℕ)

-- What `inet_pton` returns: 1 with the bytes stored, 0, or -1.
pub data Conversion : Type 0 where
  converted : List ℕ → Conversion
  refused : Conversion
  no_family : Conversion

-- AI_NUMERICHOST of Windows, with AI_ADDRCONFIG and AI_V4MAPPED of src/API.h
abbrev pub numeric_flags : ℕ
numeric_flags = 0x4 + 0x400 + 0x800

-- A zeroed `SOCKADDR_STORAGE` with the family, and `n` bytes of the address at `off`.
abbrev pub storage_of : ℕ → ℕ → ℕ → List ℕ → List ℕ
storage_of f off n src =
    write_at off (take n src) (write_at 0 (family_bytes f) (replicate storage_size 0))

-- The bytes of an address that is found, if it is as long as one of its kind.
abbrev pub found_bytes : ℕ → ℕ → ℕ → List ℕ → Conversion
found_bytes size off n found =
    if leb size (length found) then converted (slice off n found) else refused

-- Only a conversion stores bytes.
abbrev pub stored : Conversion → Option (List ℕ)
stored (converted bytes) = some bytes
stored refused = none
stored no_family = none

-- The buffer of a caller is empty before the call.
abbrev pub shown : Option (List ℕ) → List ℕ
shown none = []
shown (some text) = text

module _ (s : Numbers) where
  -- `none` is the null pointer.
  unfoldable pub inet_ntop : ℕ → List ℕ → Option (List ℕ)
  unfolding write_at
  inet_ntop f src =
      if f == af_inet
      then s.text_of (storage_of f 4 4 src)
      else if f == af_inet6
      then s.text_of (storage_of f 8 16 src)
      else none

  unfoldable pub inet_pton : ℕ → List ℕ → Conversion
  inet_pton f src = elim (s.lookup src numeric_flags f) [
    | none ↦ refused
    | some found ↦
        if f == af_inet
        then found_bytes 16 4 4 found
        else if f == af_inet6
        then found_bytes 28 8 16 found
        else no_family
  ]

  -- The rest of the system with the two functions in place of its own
  unfoldable pub with_fallback : Resolver → Resolver
  unfolding inet_ntop inet_pton
  with_fallback r = record r {
    inet_pton = λ f ip. stored (inet_pton f ip);
    inet_ntop = λ f bytes. shown (inet_ntop f bytes);
  }
