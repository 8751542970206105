-- ===== src/SockAddr/Fallback/Laws.antt =====
-- What the versions of `inet_ntop` and `inet_pton` in src/API.cpp give the address functions.
use agssock.Base.{
  ℕ, ◌+◌, ◌≤◌, ◌≡◌, refl, ◌∙◌, ◌⊎◌, inl, inr, true, some, List, length, take, replicate, arith, leb,
  Option-cases, Bool-cases, take_all, no_result, one_result, length-take, length-drop, drop, leb→le,
}
use agssock.Base.Memory.{write_at, slice, length-write_at, slice-write_at}
use agssock.SockAddr.Names.{Resolver}
use agssock.SockAddr.{SockAddr, af_inet, af_inet6, storage_size, family, family_bytes}
use agssock.SockAddr.Fields.{IsSized, IsStorage, family-write_at}
use agssock.SockAddr.Fallback.{
  Numbers, converted, numeric_flags, storage_of, found_bytes, inet_ntop, inet_pton, stored,
  with_fallback,
}

-- A name service whose numeric texts it finds again: the address that it finds for the text of an
-- address is as long as one of its kind, and is the same in the bytes of the IP address.
pub record IsNumeric (s : Numbers) : Type 0 where
  pub inet :
      (sa : SockAddr) (text : List ℕ)
      → IsStorage sa
      → family sa ≡ af_inet
      → s.text_of sa.bytes ≡ some text
      → (found : List ℕ) × (s.lookup text numeric_flags af_inet ≡ some found)
        × (16 ≤ length found)
        × (slice 4 4 found ≡ slice 4 4 sa.bytes)
  pub inet6 :
      (sa : SockAddr) (text : List ℕ)
      → IsStorage sa
      → family sa ≡ af_inet6
      → s.text_of sa.bytes ≡ some text
      → (found : List ℕ) × (s.lookup text numeric_flags af_inet6 ≡ some found)
        × (28 ≤ length found)
        × (slice 8 16 found ≡ slice 8 16 sa.bytes)

-- An IP address that is written to an address of its size, and what the address is then.
written :
    (f : ℕ) (sa : SockAddr) (off : ℕ) (src : List ℕ)
    → IsStorage sa
    → family sa ≡ f
    → 4 ≤ off
    → off + length src ≤ storage_size
    → let sa' : SockAddr = record { bytes = write_at off (take (length src) src) sa.bytes } in
      IsStorage sa' × (family sa' ≡ f) × (slice off (length src) sa'.bytes ≡ src)
written f sa off src full fam h fits =
    let all : take (length src) src ≡ src = take_all (length src) src (omega arith) in
    rw all (
      length-write_at off src sa.bytes ∙ full,
      family-write_at off src sa.bytes (omega arith) ∙ fam,
      slice-write_at off src sa.bytes (omega arith),
    )

found-converted :
    (size off n : ℕ) (found bytes : List ℕ)
    → size ≤ length found
    → slice off n found ≡ bytes
    → found_bytes size off n found ≡ converted bytes
found-converted size off n found bytes long same =
    let fits : leb size (length found) ≡ true = ground arith in rw (fits, same) refl

-- A zeroed address of a family
abbrev blank : ℕ → SockAddr
blank f = record { bytes = write_at 0 (family_bytes f) (replicate storage_size 0) }

blank-IsStorage : (f : ℕ) → IsStorage (blank f)
blank-IsStorage f = length-write_at 0 (family_bytes f) (replicate storage_size 0)

blank-inet : family (blank af_inet) ≡ af_inet
unfolding family write_at
blank-inet = refl

blank-inet6 : family (blank af_inet6) ≡ af_inet6
unfolding family write_at
blank-inet6 = refl

found-sized :
    (size off n : ℕ) (found bytes : List ℕ)
    → off + n ≤ size
    → stored (found_bytes size off n found) ≡ some bytes
    → length bytes ≡ n
found-sized size off n found bytes h e = elim (Bool-cases (leb size (length found))) [
  | inl long ↦
      let same : slice off n found ≡ bytes = one_result (rw long at e) in
      let enough : size ≤ length found = leb→le size (length found) long in
      rw (← same) (omega (arith, length-take n (drop off found), length-drop off found))
  | inr short ↦ no_result (rw short at e)
]

module _ (s : Numbers) where
  inet_round :
      (src text : List ℕ)
      → IsNumeric s
      → length src ≡ 4
      → inet_ntop s af_inet src ≡ some text
      → inet_pton s af_inet text ≡ converted src
  unfolding inet_ntop inet_pton
  inet_round src text numeric n printed =
      let (full, fam, same) =
        written af_inet (blank af_inet) 4 src (blank-IsStorage af_inet) blank-inet (omega arith)
          (omega arith) in
      let (found, there, long, part) =
        numeric.inet (record { bytes = storage_of af_inet 4 4 src }) text (rw n at full)
          (rw n at fam) printed in
      rw (there, inet_pton) (found-converted 16 4 4 found src long (part ∙ rw n at same))

  inet6_round :
      (src text : List ℕ)
      → IsNumeric s
      → length src ≡ 16
      → inet_ntop s af_inet6 src ≡ some text
      → inet_pton s af_inet6 text ≡ converted src
  unfolding inet_ntop inet_pton
  inet6_round src text numeric n printed =
      let (full, fam, same) =
        written af_inet6 (blank af_inet6) 8 src (blank-IsStorage af_inet6) blank-inet6 (omega arith)
          (omega arith) in
      let (found, there, long, part) =
        numeric.inet6 (record { bytes = storage_of af_inet6 8 16 src }) text (rw n at full)
          (rw n at fam) printed in
      rw (there, inet_pton) (found-converted 28 8 16 found src long (part ∙ rw n at same))

  -- What `inet_ntop` prints of an IPv4 or IPv6 address, `inet_pton` reads as the same bytes, if the
  -- name service finds the addresses of its own numeric texts again.
  pub inet_pton-inet_ntop :
      (f : ℕ) (src text : List ℕ)
      → IsNumeric s
      → ((f ≡ af_inet) × (length src ≡ 4)) ⊎ ((f ≡ af_inet6) × (length src ≡ 16))
      → inet_ntop s f src ≡ some text
      → inet_pton s f text ≡ converted src
  inet_pton-inet_ntop f src text numeric (inl (e, n)) printed =
      rw e (inet_round src text numeric n (rw e at printed))
  inet_pton-inet_ntop f src text numeric (inr (e, n)) printed =
      rw e (inet6_round src text numeric n (rw e at printed))

  inet_sized : (ip bytes : List ℕ) → stored (inet_pton s af_inet ip) ≡ some bytes → length bytes ≡ 4
  unfolding inet_pton
  inet_sized ip bytes e = elim (Option-cases (s.lookup ip numeric_flags af_inet)) [
    | inl gone ↦ no_result (rw (gone, inet_pton) at e)
    | inr (found, there) ↦ found-sized 16 4 4 found bytes (omega arith) (rw (there, inet_pton) at e)
  ]

  inet6_sized :
      (ip bytes : List ℕ) → stored (inet_pton s af_inet6 ip) ≡ some bytes → length bytes ≡ 16
  unfolding inet_pton
  inet6_sized ip bytes e = elim (Option-cases (s.lookup ip numeric_flags af_inet6)) [
    | inl gone ↦ no_result (rw (gone, inet_pton) at e)
    | inr (found, there) ↦
        found-sized 28 8 16 found bytes (omega arith) (rw (there, inet_pton) at e)
  ]

  -- Whatever the name service answers, the bytes that are stored have the size of an address of the
  -- family, 4 or 16, as the setters of addresses rely on.
  pub with_fallback-IsSized : (r : Resolver) → IsSized (with_fallback s r)
  unfolding with_fallback
  with_fallback-IsSized r ip bytes = (inet_sized ip bytes, inet6_sized ip bytes)
