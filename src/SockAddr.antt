-- ===== src/SockAddr.antt =====
-- src/SockAddr.cpp and src/SockAddr.h: socket addresses, the bytes of a `sockaddr_storage` of
-- Linux on a little-endian machine, where `ADDR_SIZE` is its size and `ADDR_INIT` does nothing.
-- The registration at the engine is left to the callers.
pub mod Names
pub mod Text
pub mod Fields
pub mod Fallback
pub mod Printing
mod Tests
use agssock.Base.{
  ℕ, ◌+◌, ◌*◌, ◌/◌, ◌%◌, ◌^◌, ◌-◌, min, Bool, Option, none, some, List, [], ◌∷◌, ◌||◌, length, take,
  replicate, c_str, ◌==◌, if◌then◌else◌, get_or,
}
use agssock.Base.Memory.{write_at, slice}
use agssock.SockData.{SockData}
use Names.{Resolver}
use Text.{split_address, hint_flags}

abbrev pub af_inet : ℕ
af_inet = 2

abbrev pub af_inet6 : ℕ
af_inet6 = 10

abbrev pub storage_size : ℕ
storage_size = 128

pub record SockAddr : Type 0 where
  pub bytes : List ℕ

-- `ss_family`, 16 bits with the low byte first
unfoldable pub family : SockAddr → ℕ
family sa = get_or sa.bytes 0 0 + 256 * get_or sa.bytes 1 0

abbrev family_bytes : ℕ → List ℕ
family_bytes f = f % 256 ∷ f / 256 % 256 ∷ []

-- A port as `htons` stores it, and as `ntohs` reads it: the high byte first.
abbrev port_bytes : ℕ → List ℕ
port_bytes port = port / 256 % 256 ∷ port % 256 ∷ []

abbrev port_of : List ℕ → ℕ
port_of bytes = get_or bytes 0 0 * 256 + get_or bytes 1 0

-- -1 and -2 of a script stand for IPv4 and IPv6.
pub decode_type : ℕ → ℕ
decode_type type =
    if type == 2 ^ 64 - 1 then af_inet else if type == 2 ^ 64 - 2 then af_inet6 else type

unfoldable pub create : ℕ → SockAddr
unfolding decode_type
create type = record {
  bytes = write_at 0 (family_bytes (decode_type type)) (replicate storage_size 0);
}

-- `sin_port` and `sin6_port` stand at offset 2 in both kinds of address.
unfoldable pub get_port : SockAddr → ℕ
unfolding family
get_port sa =
    if family sa == af_inet
    then port_of (slice 2 2 sa.bytes)
    else if family sa == af_inet6
    then port_of (slice 2 2 sa.bytes)
    else 0

unfoldable pub set_port : SockAddr → ℕ → SockAddr
unfolding family
set_port sa port =
    if family sa == af_inet
    then record { bytes = write_at 2 (port_bytes port) sa.bytes }
    else if family sa == af_inet6
    then record { bytes = write_at 2 (port_bytes port) sa.bytes }
    else sa

-- `sin_addr` is 4 bytes at offset 4, `sin6_addr` 16 bytes at offset 8. A failure of `inet_pton`
-- leaves the address.
abbrev store_ip : SockAddr → ℕ → Option (List ℕ) → SockAddr
store_ip sa off none = sa
store_ip sa off (some ip) = record { bytes = write_at off ip sa.bytes }

module _ (r : Resolver) where
  unfoldable pub set_ip : SockAddr → List ℕ → SockAddr
  unfolding family
  set_ip sa ip =
      if family sa == af_inet
      then store_ip sa 4 (r.inet_pton af_inet ip)
      else if family sa == af_inet6
      then store_ip sa 8 (r.inet_pton af_inet6 ip)
      else sa

  -- `none` is the null pointer.
  unfoldable pub get_ip : SockAddr → Option (List ℕ)
  unfolding family
  get_ip sa =
      if family sa == af_inet
      then some (r.inet_ntop af_inet (slice 4 4 sa.bytes))
      else if family sa == af_inet6
      then some (r.inet_ntop af_inet6 (slice 8 16 sa.bytes))
      else none

  -- A name that is not resolved leaves the address.
  unfoldable pub set_address : SockAddr → List ℕ → SockAddr
  unfolding family
  set_address sa addr =
      let (node, service) = split_address (family sa == af_inet6) (c_str addr) in
      store_ip sa 0 (r.getaddrinfo node service (hint_flags node) (family sa))

  unfoldable pub create_ip : List ℕ → ℕ → SockAddr
  create_ip ip port = set_port (set_ip (create af_inet) ip) port

  unfoldable pub create_ipv6 : List ℕ → ℕ → SockAddr
  create_ipv6 ip port = set_port (set_ip (create af_inet6) ip) port

  unfoldable pub create_from_string : List ℕ → ℕ → SockAddr
  unfolding decode_type
  create_from_string str type = set_address (create (decode_type type)) str

-- `memcpy` of at most the storage's size; `fresh` is what `new SockAddr` leaves uninitialised.
unfoldable pub create_from_data : List ℕ → SockData → SockAddr
create_from_data fresh d = record {
  bytes = write_at 0 (take (min (length d.text) storage_size) d.text) fresh;
}

unfoldable pub get_data : SockAddr → SockData
get_data sa = record { text = take storage_size sa.bytes }

-- `Serialize` returns what it has copied to the buffer, whose size is not negative.
unfoldable pub serialize : SockAddr → ℕ → List ℕ
serialize sa size = take (min size storage_size) sa.bytes

unfoldable pub unserialize : List ℕ → List ℕ → ℕ → SockAddr
unserialize fresh buffer size = record {
  bytes = write_at 0 (take (min size storage_size) buffer) fresh;
}
