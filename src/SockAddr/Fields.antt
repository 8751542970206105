-- ===== src/SockAddr/Fields.antt =====
-- The fields of a socket address: what a setter changes, and that it changes nothing else.
use agssock.Base.{
  ℕ, zero, suc, ◌+◌, ◌%◌, ◌^◌, ◌≤◌, min, ◌≡◌, refl, ap, sym, ◌∙◌, ◌⊎◌, inl, inr, none, some, List,
  [], ◌∷◌, length, drop, arith, take_all,
}
use agssock.Base.Memory.{
  write_at, slice, length-write_at, slice-write_at, slice-write_at_before, drop-write_at,
  write_at_all,
}
use agssock.SockAddr.Names.{Resolver}
use agssock.SockAddr.{
  SockAddr, af_inet, af_inet6, storage_size, family, port_bytes, port_of, decode_type, create,
  get_port, set_port, store_ip, set_ip, get_ip, create_from_data, get_data,
}

-- All bytes of the storage are there.
abbrev pub IsStorage : SockAddr → Type 0
IsStorage sa = length sa.bytes ≡ storage_size

-- An address of the two kinds that have ports.
abbrev pub IsInet : SockAddr → Type 0
IsInet sa = (family sa ≡ af_inet) ⊎ (family sa ≡ af_inet6)

pub family-write_at :
    (off : ℕ) (bytes block : List ℕ)
    → 2 ≤ off
    → family (record { bytes = write_at off bytes block }) ≡ family (record { bytes = block })
unfolding family write_at
family-write_at off bytes [] h = refl
family-write_at zero bytes (a ∷ block) h = absurd (omega arith)
family-write_at (suc zero) bytes (a ∷ block) h = absurd (omega arith)
family-write_at (suc (suc k)) bytes (a ∷ []) h = refl
family-write_at (suc (suc k)) bytes (a ∷ b ∷ block) h = refl

port_of-port_bytes : (p : ℕ) → port_of (port_bytes p) ≡ p % 2 ^ 16
port_of-port_bytes p = omega arith

-- `write_at` at the port's place, as the setter does it.
with_port : SockAddr → ℕ → SockAddr
with_port sa p = record { bytes = write_at 2 (port_bytes p) sa.bytes }

set_port-with_port : (sa : SockAddr) (p : ℕ) → IsInet sa → set_port sa p ≡ with_port sa p
unfolding set_port with_port
set_port-with_port sa p h = ground arith

get_port-with_port :
    (sa : SockAddr) (p : ℕ)
    → IsStorage sa
    → IsInet sa
    → (get_port (with_port sa p) ≡ p % 2 ^ 16)
      × (family (with_port sa p) ≡ family sa)
      × (drop 4 (with_port sa p).bytes ≡ drop 4 sa.bytes)
      × IsStorage (with_port sa p)
unfolding get_port with_port
get_port-with_port sa p full h =
    let fam = family-write_at 2 (port_bytes p) sa.bytes (omega arith) in
    (
      ground (
        arith,
        fam,
        slice-write_at 2 (port_bytes p) sa.bytes (omega arith),
        port_of-port_bytes p,
      ),
      fam,
      drop-write_at 4 2 (port_bytes p) sa.bytes (omega arith),
      length-write_at 2 (port_bytes p) sa.bytes ∙ full,
    )

-- On an IPv4 or IPv6 address a port is stored modulo 2 ^ 16 and read back; the family, the bytes
-- behind the port and the size of the storage stay.
pub get_port-set_port :
    (sa : SockAddr) (p : ℕ)
    → IsStorage sa
    → IsInet sa
    → let sa' = set_port sa p in
      (get_port sa' ≡ p % 2 ^ 16)
      × (family sa' ≡ family sa)
      × (drop 4 sa'.bytes ≡ drop 4 sa.bytes)
      × IsStorage sa'
get_port-set_port sa p full h = rw (set_port-with_port sa p h) (get_port-with_port sa p full h)

-- On an address of another family a port is not stored and reads as 0, and an IP address is not
-- stored and reads as the null pointer.
pub not-IsInet :
    (r : Resolver) (sa : SockAddr) (p : ℕ) (ip : List ℕ)
    → ¬ IsInet sa
    → (set_port sa p ≡ sa) × (get_port sa ≡ 0) × (set_ip r sa ip ≡ sa) × (get_ip r sa ≡ none)
unfolding set_port get_port set_ip get_ip
not-IsInet r sa p ip h = ground arith

family-create : (t : ℕ) → family (create t) ≡ decode_type t % 2 ^ 16
unfolding family create write_at
family-create t = omega arith

-- The bytes that `inet_pton` gives for a family have the size of that family's address.
abbrev pub IsSized : Resolver → Type 0
IsSized r =
    (ip bytes : List ℕ)
    → (r.inet_pton af_inet ip ≡ some bytes → length bytes ≡ 4)
      × (r.inet_pton af_inet6 ip ≡ some bytes → length bytes ≡ 16)

-- An IP address is written behind the port, and within the storage.
store_ip_fields :
    (sa : SockAddr) (off : ℕ) (ip : List ℕ)
    → IsStorage sa
    → 4 ≤ off
    → off + length ip ≤ storage_size
    → let sa' = store_ip sa off (some ip) in
      (family sa' ≡ family sa)
      × (get_port sa' ≡ get_port sa)
      × (slice off (length ip) sa'.bytes ≡ ip)
      × IsStorage sa'
unfolding get_port
store_ip_fields sa off ip full h fits =
    let fam = family-write_at off ip sa.bytes (omega arith) in
    (
      fam,
      ground (arith, fam, slice-write_at_before 2 2 off ip sa.bytes (omega arith)),
      slice-write_at off ip sa.bytes (omega arith),
      length-write_at off ip sa.bytes ∙ full,
    )

-- What `get_ip` and `set_ip` do at a family of which the address stands at `off` in `n` bytes.
record StoresAt (r : Resolver) (f off n : ℕ) : Type 0 where
  behind : 4 ≤ off
  within : off + n ≤ storage_size
  sets :
      (sa : SockAddr) (ip bytes : List ℕ)
      → family sa ≡ f
      → r.inet_pton f ip ≡ some bytes
      → set_ip r sa ip ≡ store_ip sa off (some bytes)
  gets : (sa : SockAddr) → family sa ≡ f → get_ip r sa ≡ some (r.inet_ntop f (slice off n sa.bytes))

inet-StoresAt : (r : Resolver) → StoresAt r af_inet 4 4
unfolding set_ip get_ip
inet-StoresAt r = record {
  behind = omega arith;
  within = omega arith;
  sets = λ sa ip bytes e h. ground arith;
  gets = λ sa e. ground arith;
}

inet6-StoresAt : (r : Resolver) → StoresAt r af_inet6 8 16
unfolding set_ip get_ip
inet6-StoresAt r = record {
  behind = omega arith;
  within = omega arith;
  sets = λ sa ip bytes e h. ground arith;
  gets = λ sa e. ground arith;
}

get_ip-stored :
    (r : Resolver) (f off : ℕ) (sa : SockAddr) (ip bytes : List ℕ)
    → StoresAt r f off (length bytes)
    → IsStorage sa
    → family sa ≡ f
    → r.inet_pton f ip ≡ some bytes
    → let sa' = set_ip r sa ip in
      (get_ip r sa' ≡ some (r.inet_ntop f bytes))
      × (family sa' ≡ family sa)
      × (get_port sa' ≡ get_port sa)
      × IsStorage sa'
get_ip-stored r f off sa ip bytes at full e accepted =
    let (fam, port, same, storage) = store_ip_fields sa off bytes full at.behind at.within in
    rw (at.sets sa ip bytes e accepted) (
      at.gets (store_ip sa off (some bytes)) (fam ∙ e) ∙ ap (λ b. some (r.inet_ntop f b)) same,
      fam,
      port,
      storage,
    )

-- A text that `inet_pton` accepts for the address's family, IPv4 or IPv6, sets the IP address
-- that is read back through `inet_ntop`; the family, the port and the size of the storage stay.
-- `inet_pton` gives 4 and 16 bytes.
pub get_ip-set_ip :
    (r : Resolver) (sa : SockAddr) (ip bytes : List ℕ)
    → IsSized r
    → IsStorage sa
    → IsInet sa
    → r.inet_pton (family sa) ip ≡ some bytes
    → let sa' = set_ip r sa ip in
      (get_ip r sa' ≡ some (r.inet_ntop (family sa) bytes))
      × (family sa' ≡ family sa)
      × (get_port sa' ≡ get_port sa)
      × IsStorage sa'
get_ip-set_ip r sa ip bytes sized full (inl e) accepted =
    let n = (sized ip bytes).0 (rw e at accepted) in
    get_ip-stored r (family sa) 4 sa ip bytes (rw (e, n) (inet-StoresAt r)) full refl accepted
get_ip-set_ip r sa ip bytes sized full (inr e) accepted =
    let n = (sized ip bytes).1 (rw e at accepted) in
    get_ip-stored r (family sa) 8 sa ip bytes (rw (e, n) (inet6-StoresAt r)) full refl accepted

-- The raw data of an address makes the same address again, whatever the fresh memory held.
pub create_from_data-get_data :
    (sa : SockAddr) (fresh : List ℕ)
    → IsStorage sa
    → length fresh ≡ storage_size
    → create_from_data fresh (get_data sa) ≡ sa
unfolding create_from_data get_data
create_from_data-get_data sa fresh full room =
    let same = take_all storage_size sa.bytes (omega arith) in
    let e : min (length sa.bytes) storage_size ≡ storage_size = omega arith in
    rw (same, e, same, write_at_all sa.bytes fresh (full ∙ sym room)) refl
