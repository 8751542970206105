-- ===== src/Api/Windows/Tests.antt =====
-- A Windows on which a program has at most three sockets, and gives the lowest free number.
use mathlib.Core.Path.{subst}
use agssock.Base.{
  no_result, one_result, Bool-cases, inl, inr, sym, ◌∙◌, ℕ, ◌≡◌, ◌≢◌, refl, ◌⊎◌, Bool, true, false,
  not, Option, none, some, List, [], ◌∷◌, ◌==◌, if◌then◌else◌, arith,
}
use agssock.Api.Windows.{Winsock, Laws}
use agssock.Api.Windows.Beacon.{
  beacon_on, signal, reset, OthersKept, Dark, signal_then_reset, beacon_closes_another,
}
use agssock.Api.Windows.Thread.{run_ended, new_thread, start, stop, destroy, ended_threads_leak}

-- Which sockets are open, and which of them block.
abbrev Kernel : Type 0
Kernel = (ℕ → Bool) × (ℕ → Bool)

abbrev put : (ℕ → Bool) → ℕ → Bool → ℕ → Bool
put f fd b q = if fd == q then b else f q

abbrev lowest : (ℕ → Bool) → Option ℕ
lowest f =
    if not (f 0)
    then some 0
    else (if not (f 1) then some 1 else (if not (f 2) then some 2 else none))

abbrev opened : Option ℕ → Kernel → Option ℕ × Kernel
opened none k = (none, k)
opened (some fd) (o, b) = (some fd, (put o fd true, put b fd true))

abbrev closed : Option ℕ → Kernel → Kernel
closed none k = k
closed (some fd) (o, b) = (put o fd false, b)

abbrev moded : Option ℕ → ℕ → Kernel → Kernel
moded none mode k = k
moded (some fd) mode (o, b) = (o, put b fd (mode == 0))

abbrev small : Winsock Kernel
small = record {
  socket = λ d t p k. opened (lowest k.0) k;
  closesocket = closed;
  ioctlsocket = moded;
  startup = λ v k. k;
  cleanup = λ k. k;
}

abbrev is_open : Kernel → ℕ → Bool
is_open k = k.0

abbrev blocks : Kernel → ℕ → Bool
blocks k = k.1

free_at : (f : ℕ → Bool) (n fd : ℕ) → f n ≡ false → some n ≡ some fd → f fd ≡ false
free_at f n fd free e = subst (λ m. f m ≡ false) (one_result e) free

lowest-free : (f : ℕ → Bool) (fd : ℕ) → lowest f ≡ some fd → f fd ≡ false
lowest-free f fd e = elim (Bool-cases (f 0)) [
  | inr free ↦ free_at f 0 fd free (rw free at e)
  | inl taken ↦ elim (Bool-cases (f 1)) [
    | inr free ↦ free_at f 1 fd free (rw (taken, free) at e)
    | inl taken' ↦ elim (Bool-cases (f 2)) [
      | inr free ↦ free_at f 2 fd free (rw (taken, taken', free) at e)
      | inl taken'' ↦ no_result (rw (taken, taken', taken'') at e)
    ]
  ]
]

opened-given : (o : Option ℕ) (k : Kernel) → (opened o k).0 ≡ o
opened-given none k = refl
opened-given (some fd) k = refl

-- What a call of `socket` may do to the sockets
abbrev New : ℕ → Kernel → Option ℕ × Kernel → Type 0
New fd k (o, k') = (k'.0 fd ≡ true) × ((q : ℕ) → fd ≢ q → (k'.0 q ≡ k.0 q) × (k'.1 q ≡ k.1 q))

opened-New : (o : Option ℕ) (fd : ℕ) (k : Kernel) → o ≡ some fd → New fd k (opened o k)
opened-New o fd k e =
    subst (λ o. New fd k (opened o k)) (sym e) (ground arith, λ q ne. (ground arith, ground arith))

small-Laws : Laws small is_open blocks
small-Laws = record {
  socket_new = λ d t p fd k e.
      let gives : lowest k.0 ≡ some fd = sym (opened-given (lowest k.0) k) ∙ e in
      let (set, kept) = opened-New (lowest k.0) fd k gives in (lowest-free k.0 fd gives, set, kept);
  close_frees = λ fd k. ground arith;
  close_keeps = λ fd q k ne. (ground arith, refl);
  mode_set = λ fd mode k. (refl, ground arith);
  mode_keeps = λ fd mode q k ne. (refl, ground arith);
}

-- Socket 0 is the beacon's.
abbrev busy : Kernel
busy = (put (λ q. false) 0 true, λ q. false)

signal_then_reset_example :
    (is_open (signal small (beacon_on 0) busy) 0 ≡ false)
    × OthersKept is_open blocks 0 0 busy (signal small (beacon_on 0) busy)
    × Dark small is_open blocks small-Laws 0 0 busy
        (reset small (beacon_on 0) (signal small (beacon_on 0) busy))
unfolding signal
signal_then_reset_example = signal_then_reset small is_open blocks small-Laws 0 0 busy refl

-- What a script's `socket` leaves after the signal
abbrev reused : Kernel
reused = (small.socket 2 1 6 (closed (some 0) busy)).1

beacon_closes_another_example :
    (is_open reused 0 ≡ true)
    × (is_open (signal small (beacon_on 0) reused) 0 ≡ false)
    × ((is_open (reset small (beacon_on 0) reused).1 0 ≡ false)
        ⊎ ((reset small (beacon_on 0) reused).0.fd ≡ some 0))
unfolding signal
beacon_closes_another_example =
    beacon_closes_another small is_open blocks small-Laws 2 1 6 0 0 busy refl refl

abbrev ended : List ℕ
ended = 7 ∷ 8 ∷ []

ended_threads_leak_example :
    ((run_ended ended new_thread).created ≡ ended)
    × ((destroy true (run_ended ended new_thread)).closed ≡ [])
    × ((destroy true (start (some 9) (run_ended ended new_thread))).closed ≡ some 9 ∷ [])
    × ((stop (stop (start (some 9) (run_ended ended new_thread)))).closed ≡ some 9 ∷ some 9 ∷ [])
ended_threads_leak_example = ended_threads_leak ended 9 true
