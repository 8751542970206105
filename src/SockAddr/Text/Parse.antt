-- ===== src/SockAddr/Text/Parse.antt =====
-- What `SockAddr_set_Address` makes of the forms of an address.
use mathlib.Core.Path.{ap₂}
use agssock.Base.{
  ℕ, suc, ◌+◌, ◌≡◌, refl, ◌≢◌, true, false, none, some, List, [], ◌∷◌, ◌++◌, drop, length, arith,
  All, take-append,
}
use agssock.SockAddr.Text.{
  colon, slash, separator, is_prefix, find, rfind, split_front, split_back, split_address,
}

-- A text with no colon.
abbrev pub IsPlain : List ℕ → Type 0
IsPlain = All (λ c. c ≢ colon)

rfind-plain : (xs : List ℕ) → IsPlain xs → rfind colon xs ≡ none
unfolding rfind
rfind-plain [] h = refl
rfind-plain (x ∷ xs) h = ground (arith, h.0, rfind-plain xs h.1)

rfind-append :
    (host port : List ℕ) → IsPlain port → rfind colon (host ++ (colon ∷ port)) ≡ some (length host)
unfolding rfind
rfind-append [] port h = rw (rfind-plain port h, rfind) refl
rfind-append (x ∷ xs) port h = rw (rfind-append xs port h, rfind) refl

find-plain : (xs : List ℕ) → IsPlain xs → find separator xs ≡ none
unfolding find
find-plain [] h = refl
find-plain (x ∷ xs) h = ground (arith, h.0, find-plain xs h.1)

find-separator :
    (scheme rest : List ℕ)
    → IsPlain scheme
    → find separator (scheme ++ (separator ++ rest)) ≡ some (length scheme)
unfolding find
find-separator [] rest h = refl
find-separator (x ∷ xs) rest h = ground (arith, h.0, find-separator xs rest h.1)

find-port :
    (host port : List ℕ)
    → IsPlain host
    → IsPlain port
    → is_prefix (slash ∷ slash ∷ []) port ≡ false
    → find separator (host ++ (colon ∷ port)) ≡ none
unfolding find
find-port [] port h p s = rw s (rw (find-plain port p) refl)
find-port (x ∷ xs) port h p s = ground (arith, h.0, find-port xs port h.1 p s)

drop-suc3 :
    (xs : List ℕ) (a b c : ℕ) (rest : List ℕ)
    → drop (length xs + 3) (xs ++ (a ∷ b ∷ c ∷ rest)) ≡ rest
drop-suc3 [] a b c rest = refl
drop-suc3 (x ∷ xs) a b c rest =
    let e : suc (length xs) + 3 ≡ suc (length xs + 3) = omega arith in
    rw e (drop-suc3 xs a b c rest)

drop-suc1 : (xs : List ℕ) (a : ℕ) (rest : List ℕ) → drop (length xs + 1) (xs ++ (a ∷ rest)) ≡ rest
drop-suc1 [] a rest = refl
drop-suc1 (x ∷ xs) a rest =
    let e : suc (length xs) + 1 ≡ suc (length xs + 1) = omega arith in rw e (drop-suc1 xs a rest)

split_front-separator :
    (scheme rest : List ℕ)
    → IsPlain scheme
    → split_front (scheme ++ (separator ++ rest)) ≡ (rest, scheme)
unfolding split_front
split_front-separator scheme rest h =
    rw (find-separator scheme rest h, split_front)
      (ap₂ (λ a b. (a, b)) (drop-suc3 scheme colon slash slash rest)
        (take-append scheme (separator ++ rest)))

split_front-plain : (xs : List ℕ) → IsPlain xs → split_front xs ≡ (xs, [])
unfolding split_front
split_front-plain xs h = rw (find-plain xs h, split_front) refl

split_front-port :
    (host port : List ℕ)
    → IsPlain host
    → IsPlain port
    → is_prefix (slash ∷ slash ∷ []) port ≡ false
    → split_front (host ++ (colon ∷ port)) ≡ (host ++ (colon ∷ port), [])
unfolding split_front
split_front-port host port h p q = rw (find-port host port h p q, split_front) refl

split_back-plain :
    (node service : List ℕ) → IsPlain node → split_back (node, service) ≡ (node, service)
unfolding split_back
split_back-plain node service h = rw (rfind-plain node h, split_back) refl

split_back-colon :
    (host port service : List ℕ)
    → IsPlain port
    → split_back (host ++ (colon ∷ port), service) ≡ (host, port)
unfolding split_back
split_back-colon host port service h =
    rw (rfind-append host port h, split_back)
      (ap₂ (λ a b. (a, b)) (take-append host (colon ∷ port)) (drop-suc1 host colon port))

-- An address that is not an IPv6 one is read as `host`, `service://host`, `host:port` or
-- `service://host:port`, where the port wins over the service. None of the parts holds a colon, and
-- the port does not begin with two slashes.
pub split_address_forms :
    (scheme host port : List ℕ)
    → IsPlain scheme
    → IsPlain host
    → IsPlain port
    → is_prefix (slash ∷ slash ∷ []) port ≡ false
    → (split_address false host ≡ (host, []))
      × (split_address false (scheme ++ (separator ++ host)) ≡ (host, scheme))
      × (split_address false (host ++ (colon ∷ port)) ≡ (host, port))
      × (split_address false (scheme ++ (separator ++ (host ++ (colon ∷ port)))) ≡ (host, port))
unfolding split_address
split_address_forms scheme host port s h p q = (
  rw (split_front-plain host h) (split_back-plain host [] h),
  rw (split_front-separator scheme host s) (split_back-plain host scheme h),
  rw (split_front-port host port h p q) (split_back-colon host port [] p),
  rw (split_front-separator scheme (host ++ (colon ∷ port)) s)
      (split_back-colon host port scheme p),
)

-- An IPv6 address keeps its colons: only a service in front is taken off, whatever stands behind
-- it, and `host:port` is all host, if there are no two slashes behind the colon.
pub split_address_ipv6 :
    (scheme rest host port : List ℕ)
    → IsPlain scheme
    → IsPlain host
    → IsPlain port
    → is_prefix (slash ∷ slash ∷ []) port ≡ false
    → (split_address true (scheme ++ (separator ++ rest)) ≡ (rest, scheme))
      × (split_address true (host ++ (colon ∷ port)) ≡ (host ++ (colon ∷ port), []))
unfolding split_address
split_address_ipv6 scheme rest host port s h p q =
    (split_front-separator scheme rest s, split_front-port host port h p q)
