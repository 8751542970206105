-- ===== src/Api/Windows/Beacon.antt =====
-- `AGSSockAPI::Beacon` of src/API.cpp on Windows (IMPL_MODE 2): a socket that is closed to signal and
-- made anew to reset.
use agssock.Base.{
  ℕ, ◌≡◌, refl, ◌∙◌, ap, ◌≢◌, Bool-cases, ◌⊎◌, inl, inr, arith, ◌==◌, Bool, true, false, Option,
  some,
}
use agssock.Api.Windows.{Winsock, Laws, setblocking, af_inet, sock_dgram, ipproto_udp}

pub record Beacon : Type 0 where
  pub fd : Option ℕ

module _ {K : Type 0} (ws : Winsock K) where
  -- The constructor
  unfoldable pub open_beacon : K → Beacon × K
  unfolding setblocking
  open_beacon k =
      let (fd, k₁) = ws.socket af_inet sock_dgram ipproto_udp k in
      (record { fd = fd }, setblocking ws fd false k₁)

  -- The destructor
  unfoldable pub close_beacon : Beacon → K → K
  close_beacon b k = ws.closesocket b.fd k

  unfoldable pub reset : Beacon → K → Beacon × K
  unfolding setblocking
  reset b k =
      let k₁ = ws.closesocket b.fd k in
      let (fd, k₂) = ws.socket af_inet sock_dgram ipproto_udp k₁ in
      (record { fd = fd }, setblocking ws fd false k₂)

  unfoldable pub signal : Beacon → K → K
  signal b k = ws.closesocket b.fd k

abbrev pub beacon_on : ℕ → Beacon
beacon_on fd = record { fd = some fd }

-- Every socket but two is as it was, open or not and blocking or not.
abbrev pub OthersKept : {K : Type 0} → (K → ℕ → Bool) → (K → ℕ → Bool) → ℕ → ℕ → K → K → Type 0
OthersKept is_open blocks a b k k' =
    (q : ℕ) → a ≢ q → b ≢ q → (is_open k' q ≡ is_open k q) × (blocks k' q ≡ blocks k q)

module _ {K : Type 0} (ws : Winsock K) (is_open blocks : K → ℕ → Bool)
    (laws : Laws ws is_open blocks) where
  -- What a new socket of the beacon is like
  made :
      (fd : ℕ) (k : K)
      → (ws.socket af_inet sock_dgram ipproto_udp k).0 ≡ some fd
      → let k' = setblocking ws (some fd) false (ws.socket af_inet sock_dgram ipproto_udp k).1 in
        (is_open k' fd ≡ true)
        × (blocks k' fd ≡ false)
        × ((q : ℕ) → fd ≢ q → (is_open k' q ≡ is_open k q) × (blocks k' q ≡ blocks k q))
  unfolding setblocking
  made fd k e =
      let k₁ : K = (ws.socket af_inet sock_dgram ipproto_udp k).1 in
      let (_, opened, kept) = laws.socket_new af_inet sock_dgram ipproto_udp fd k e in
      let (still, unblocked) = laws.mode_set fd 1 k₁ in
      (
        still ∙ opened,
        unblocked,
        λ q ne. (
          (laws.mode_keeps fd 1 q k₁ ne).0 ∙ (kept q ne).0,
          (laws.mode_keeps fd 1 q k₁ ne).1 ∙ (kept q ne).1,
        ),
      )

  -- What a reset does, if the system gives a socket
  reset_lem :
      (fd fd' : ℕ) (k : K)
      → (ws.socket af_inet sock_dgram ipproto_udp (ws.closesocket (some fd) k)).0 ≡ some fd'
      → reset ws (beacon_on fd) k ≡ (
        beacon_on fd',
        setblocking ws
            (some fd')
            false
            (ws.socket af_inet sock_dgram ipproto_udp (ws.closesocket (some fd) k)).1,
      )
  unfolding reset
  reset_lem fd fd' k gives =
      ap
        (λ o. (
          record { fd = o },
          setblocking ws o false
              (ws.socket af_inet sock_dgram ipproto_udp (ws.closesocket (some fd) k)).1,
        ))
        gives

  -- A beacon whose socket is open and does not block, where no socket but two has changed
  abbrev pub Dark : ℕ → ℕ → K → Beacon × K → Type 0
  Dark fd fd' k (b, k') =
      (b.fd ≡ some fd')
      × (is_open k' fd' ≡ true)
      × (blocks k' fd' ≡ false)
      × OthersKept is_open blocks fd fd' k k'

  -- A signal closes the socket of the beacon, and touches no other. A reset right after it makes a
  -- socket of the beacon that is open and does not block, if the system gives one, and touches no
  -- socket but this and the closed one. What `select` does for the closed socket is not stated.
  pub signal_then_reset :
      (fd fd' : ℕ) (k : K)
      → (ws.socket af_inet sock_dgram ipproto_udp
          (ws.closesocket (some fd) (signal ws (beacon_on fd) k))).0
        ≡ some fd'
      → let k₁ = signal ws (beacon_on fd) k in
        (is_open k₁ fd ≡ false)
        × OthersKept is_open blocks fd fd k k₁
        × Dark fd fd' k (reset ws (beacon_on fd) k₁)
  unfolding signal
  signal_then_reset fd fd' k gives =
      let k₁ : K = ws.closesocket (some fd) k in
      let k₂ : K = ws.closesocket (some fd) k₁ in
      let (opened, unblocked, kept) = made fd' k₂ gives in
      (
        laws.close_frees fd k,
        λ q ne _. laws.close_keeps fd q k ne,
        rw (reset_lem fd fd' k₁ gives) (
          refl,
          opened,
          unblocked,
          λ q na nb. (
            (kept q nb).0 ∙ (laws.close_keeps fd q k₁ na).0 ∙ (laws.close_keeps fd q k na).0,
            (kept q nb).1 ∙ (laws.close_keeps fd q k₁ na).1 ∙ (laws.close_keeps fd q k na).1,
          ),
        ),
      )

  -- The number of the beacon's socket is that of another socket once the system has given it away: if
  -- a script's socket gets the number that a signal has freed, then the next signal closes that socket,
  -- and so does the reset that answers the first signal, where at most the beacon has a socket of
  -- that number afterwards.
  pub beacon_closes_another :
      (d t p fd fd' : ℕ) (k : K)
      → let k₁ = (ws.socket d t p (signal ws (beacon_on fd) k)).1 in
        (ws.socket d t p (signal ws (beacon_on fd) k)).0 ≡ some fd
        → (ws.socket af_inet sock_dgram ipproto_udp (ws.closesocket (some fd) k₁)).0 ≡ some fd'
        → (is_open k₁ fd ≡ true)
          × (is_open (signal ws (beacon_on fd) k₁) fd ≡ false)
          × ((is_open (reset ws (beacon_on fd) k₁).1 fd ≡ false)
              ⊎ ((reset ws (beacon_on fd) k₁).0.fd ≡ some fd))
  unfolding signal
  beacon_closes_another d t p fd fd' k gets gives =
      let k₁ : K = (ws.socket d t p (ws.closesocket (some fd) k)).1 in
      let k₂ : K = ws.closesocket (some fd) k₁ in
      let (_, opened, _) = laws.socket_new d t p fd (ws.closesocket (some fd) k) gets in
      let (_, _, kept) = made fd' k₂ gives in
      (
        opened,
        laws.close_frees fd k₁,
        rw (reset_lem fd fd' k₁ gives) elim (Bool-cases (fd' == fd)) [
          | inl same ↦ inr (ap (λ n. some n) (ground arith))
          | inr other ↦ inl ((kept fd (ground arith)).0 ∙ laws.close_frees fd k₁)
        ],
      )
