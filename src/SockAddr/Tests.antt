-- ===== src/SockAddr/Tests.antt =====
-- Addresses of 128 bytes, and address texts.
use agssock.Base.{
  ◌≡◌, refl, ap, sym, inl, none, some, [], ◌∷◌, length, replicate, true, false, arith,
  if◌then◌else◌, ◌==◌, one_result,
}
use agssock.SockAddr.{SockAddr, af_inet, family, set_address, store_ip}
use agssock.SockAddr.Names.{Resolver}
use agssock.SockAddr.Text.{hint_flags}
use agssock.SockAddr.Printing.{atof_is_zero, decimal, get_address}
use agssock.SockAddr.Printing.Laws.{shown, get_address-set_address}
use agssock.SockAddr.Fallback.{Numbers, converted, storage_of, inet_ntop, inet_pton, with_fallback}
use agssock.SockAddr.Fallback.Laws.{IsNumeric, inet_pton-inet_ntop, with_fallback-IsSized}
use agssock.SockAddr.Fields.{IsSized}

abbrev inet : SockAddr
inet = record { bytes = 2 ∷ 0 ∷ replicate 126 0 }

abbrev resolver : Resolver
resolver = record {
  getaddrinfo = λ node service flags f. none;
  inet_pton = λ f ip. some (if f == af_inet then 127 ∷ 0 ∷ 0 ∷ 1 ∷ [] else replicate 16 0);
  inet_ntop = λ f bytes. b'1' ∷ [];
  getnameinfo = λ bytes. some (b'h' ∷ [], b'8' ∷ b'0' ∷ []);
  getnameinfo_host = λ bytes. some (b'h' ∷ []);
}

resolver-IsSized : IsSized resolver
resolver-IsSized ip bytes = (
  λ e. ap (λ o. elim o [ none ↦ 4 | some b ↦ length b ]) (sym e),
  λ e. ap (λ o. elim o [ none ↦ 16 | some b ↦ length b ]) (sym e),
)

-- A service that is a number, a name, and a name that begins like infinity.
numbers_and_names :
    (atof_is_zero (b'8' ∷ b'0' ∷ []) ≡ false)
    × (atof_is_zero (b'h' ∷ b't' ∷ b't' ∷ b'p' ∷ []) ≡ true)
    × (atof_is_zero (b'i' ∷ b'n' ∷ b'f' ∷ b'o' ∷ []) ≡ false)
    × (decimal 8080 ≡ b'8' ∷ b'0' ∷ b'8' ∷ b'0' ∷ [])
unfolding atof_is_zero decimal
numbers_and_names = (refl, refl, refl, refl)

get_address-set_address_example :
    set_address resolver inet (get_address resolver inet)
    ≡ store_ip inet 0 (
        resolver.getaddrinfo
          (b'h' ∷ [])
          (shown (b'8' ∷ b'0' ∷ []))
          (hint_flags (b'h' ∷ []))
          (family inet))
unfolding family
get_address-set_address_example =
    get_address-set_address resolver inet inet (b'h' ∷ []) (b'8' ∷ b'0' ∷ []) refl (omega arith)
      (omega arith) (omega arith) (omega arith) refl refl

-- A name service whose text of an address is the address itself.
abbrev plain_numbers : Numbers
plain_numbers = record { lookup = λ text flags f. some text; text_of = λ block. some block }

plain-IsNumeric : IsNumeric plain_numbers
plain-IsNumeric = record {
  inet = λ sa text full fam e.
      let same : sa.bytes ≡ text = one_result e in
      (sa.bytes, ap some (sym same), omega arith, refl);
  inet6 = λ sa text full fam e.
      let same : sa.bytes ≡ text = one_result e in
      (sa.bytes, ap some (sym same), omega arith, refl);
}

inet_pton-inet_ntop_example :
    inet_pton plain_numbers af_inet (storage_of af_inet 4 4 (127 ∷ 0 ∷ 0 ∷ 1 ∷ []))
    ≡ converted (127 ∷ 0 ∷ 0 ∷ 1 ∷ [])
unfolding inet_ntop
inet_pton-inet_ntop_example =
    inet_pton-inet_ntop plain_numbers af_inet (127 ∷ 0 ∷ 0 ∷ 1 ∷ [])
      (storage_of af_inet 4 4 (127 ∷ 0 ∷ 0 ∷ 1 ∷ [])) plain-IsNumeric (inl (refl, refl)) refl

with_fallback-IsSized_example : IsSized (with_fallback plain_numbers resolver)
with_fallback-IsSized_example = with_fallback-IsSized plain_numbers resolver
