-- ===== src/SockAddr/Printing/Laws.antt =====
-- The text that `SockAddr_get_Address` prints, read by `SockAddr_set_Address`.
use agssock.Base.{
  ℕ, ◌≡◌, refl, ◌≢◌, inl, inr, false, ◌&&◌, some, List, [], ◌∷◌, ◌++◌, All, is_empty, c_str, ◌==◌,
  if◌then◌else◌, arith, Bool-cases,
}
use agssock.SockAddr.Names.{Resolver}
use agssock.SockAddr.Text.{colon, slash, separator, is_prefix, split_address, hint_flags}
use agssock.SockAddr.Text.Parse.{IsPlain, split_address_forms}
use agssock.SockAddr.Printing.{address_text, atof_is_zero, get_address}
use agssock.SockAddr.{SockAddr, af_inet6, family, store_ip, set_address}

-- A text with no zero, as C strings are.
abbrev pub IsText : List ℕ → Type 0
IsText = All (λ c. c ≢ 0)

-- The service that is shown: none for port 0.
abbrev pub shown : List ℕ → List ℕ
shown [] = []
shown (c ∷ cs) = if (c == b'0') && is_empty cs then [] else c ∷ cs

IsText-append : (xs ys : List ℕ) → IsText xs → IsText ys → IsText (xs ++ ys)
IsText-append [] ys hx hy = hy
IsText-append (x ∷ xs) ys hx hy = (hx.0, IsText-append xs ys hx.1 hy)

c_str-IsText : (xs : List ℕ) → IsText xs → c_str xs ≡ xs
c_str-IsText [] h = refl
c_str-IsText (x ∷ xs) h = ground (arith, h.0, c_str-IsText xs h.1)

-- The forms of the text.
address_text-cases :
    (P : List ℕ → List ℕ → Type 0) (host serv : List ℕ)
    → P host []
    → P (serv ++ (separator ++ host)) serv
    → P (host ++ (colon ∷ serv)) serv
    → P (address_text host serv) (shown serv)
unfolding address_text
address_text-cases P host [] alone named numbered = alone
address_text-cases P host (c ∷ cs) alone named numbered =
    elim (Bool-cases ((c == b'0') && is_empty cs)) [
      | inl nothing ↦ rw nothing alone
      | inr port ↦ elim (Bool-cases (atof_is_zero (c ∷ cs))) [
        | inl name ↦ rw port (rw name named)
        | inr number ↦ rw port (rw number numbered)
      ]
    ]

address_text-IsText :
    (host serv : List ℕ) → IsText host → IsText serv → IsText (address_text host serv)
address_text-IsText host serv h s =
    address_text-cases (λ text shown_serv. IsText text) host serv h
      (IsText-append serv (separator ++ host) s (IsText-append separator host (omega arith) h))
      (IsText-append host (colon ∷ serv) h (omega arith, s))

split_address-address_text :
    (host serv : List ℕ)
    → IsPlain host
    → IsPlain serv
    → is_prefix (slash ∷ slash ∷ []) serv ≡ false
    → split_address false (address_text host serv) ≡ (host, shown serv)
split_address-address_text host serv h s no_slashes =
    let (alone, named, numbered, both) = split_address_forms serv host serv s h s no_slashes in
    address_text-cases (λ text service. split_address false text ≡ (host, service)) host serv alone
      named numbered

-- Setting the address that was read from another asks the name service for the host and the service
-- that the system named, or no service for port 0, if the address is not an IPv6 one. The names hold
-- no zero and no colon, and the service does not begin with two slashes.
pub get_address-set_address :
    (r : Resolver) (sa other : SockAddr) (host serv : List ℕ)
    → r.getnameinfo sa.bytes ≡ some (host, serv)
    → IsText host
    → IsText serv
    → IsPlain host
    → IsPlain serv
    → is_prefix (slash ∷ slash ∷ []) serv ≡ false
    → (family other == af_inet6) ≡ false
    → set_address r other (get_address r sa)
      ≡ store_ip other 0 (r.getaddrinfo host (shown serv) (hint_flags host) (family other))
unfolding get_address set_address
get_address-set_address r sa other host serv named th ts h s no_slashes old =
    let text = c_str-IsText (address_text host serv) (address_text-IsText host serv th ts) in
    rw (named, get_address)
      (rw (text, text, old, split_address-address_text host serv h s no_slashes) refl)
