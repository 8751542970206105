-- ===== src/Pool/Locking/Scopes.antt =====
-- What the statements of a scope of src/Pool.cpp come to, one behind the other.
use agssock.Base.{
  ℕ, ◌≡◌, refl, sym, ap, ◌∙◌, inl, inr, Bool, true, false, not, ◌&&◌, Option, none, some, List, [],
  ◌∷◌, ◌++◌, length, elem, is_empty, ◌==◌, if◌then◌else◌, All, arith, Bool-cases, append_assoc,
}
use agssock.Api.Thread.{exit}
use agssock.Api.Beacon.{reset}
use agssock.Api.Os.{Os}
use agssock.Objects.{Heap}
use agssock.Pool.{erase, add, remove, clear}
use agssock.Pool.Round.{usable, collect, collect_from, read_one, pass, rejoin, process}
use agssock.Pool.Reading.{IsUsable}
use agssock.Pool.System.{Phase, collecting, reported}
use agssock.Pool.Locking.{
  Call, call_add, call_remove, call_clear, change_heap, change_kernel, Shared, Line, at_insert,
  at_branch, at_erase, at_erased, at_clear, at_cleared, at_change, at_end, at_birth, at_list,
  at_reset, at_read, at_last, start_thread, signal_pool, with_sockets, change, Work, inserts,
  branches, erases, signals, empties, signals_cleared, alters, begins, lists, resets, reads, ends,
}

erase-absent : (p : ℕ) (ps : List ℕ) → elem p ps ≡ false → erase p ps ≡ ps
unfolding erase
erase-absent p [] h = refl
erase-absent p (q ∷ qs) h = ground (arith, erase-absent p qs)

module _ (capacity beacon : ℕ) where
  -- What a call does as a whole
  abbrev pub apply : {K : Type 0} → Os K → Call K → Shared K → Shared K
  apply os (call_add sock) s = record s {
    pool = add capacity (os.thread_starts s.kernel) sock s.pool;
    born =
        if not s.pool.thread.active
          && (add capacity (os.thread_starts s.kernel) sock s.pool).thread.active
        then true
        else s.born;
  }
  apply os (call_remove sock) s = record s { pool = remove capacity sock s.pool }
  apply os call_clear s = record s { pool = clear capacity s.pool }
  apply os (change_heap h) s = record s { heap = h }
  apply os (change_kernel k) s = record s { kernel = k }

  -- What a call asks of the state that it meets
  abbrev pub Allowed : {K : Type 0} → Call K → Shared K → Type 0
  Allowed (call_add sock) s = IsUsable s.heap sock
  Allowed (change_heap h) s = All (λ p. usable (h p) ≡ usable (s.heap p)) s.pool.sockets
  Allowed _ s = Unit {0}

  -- The sockets that a pass has kept, before those that the rest of it keeps
  abbrev pub after : {K : Type 0} → List ℕ → Option (List ℕ × Heap × K) → Option (List ℕ × Heap × K)
  after kept none = none
  after kept (some (rest, h, k)) = some (kept ++ rest, h, k)

  module _ {K : Type 0} (os : Os K) where
    -- How far the scope has come that began at `s₀`, where the loop was in a phase.
    abbrev pub Progress : Phase → Shared K → Line K → Shared K → Type 0
    Progress ph s₀ (at_insert sock rest) s = Allowed (call_add sock) s₀ × (s ≡ s₀)
    Progress ph s₀ (at_branch sock inserted rest) s =
        Allowed (call_add sock) s₀
        × (inserted ≡ not (elem sock s₀.pool.sockets))
        × (s
            ≡ with_sockets s₀
                (if elem sock s₀.pool.sockets then s₀.pool.sockets else sock ∷ s₀.pool.sockets))
    Progress ph s₀ (at_erase sock rest) s = s ≡ s₀
    Progress ph s₀ (at_erased sock erased rest) s =
        (erased ≡ elem sock s₀.pool.sockets) × (s ≡ with_sockets s₀ (erase sock s₀.pool.sockets))
    Progress ph s₀ (at_clear rest) s = s ≡ s₀
    Progress ph s₀ (at_cleared rest) s = s ≡ with_sockets s₀ []
    Progress ph s₀ (at_change c rest) s = Allowed c s₀ × (change c s₀ ≡ apply os c s₀) × (s ≡ s₀)
    Progress ph s₀ (at_end c rest) s = Allowed c s₀ × (s ≡ apply os c s₀)
    Progress ph s₀ at_birth s = (ph ≡ collecting) × (s ≡ s₀)
    Progress ph s₀ (at_list ps r) s =
        (ph ≡ collecting)
        × (s ≡ record s₀ { born = s.born })
        × (s.born ≡ false)
        × (collect s₀.heap beacon s₀.pool ≡ collect_from s₀.heap ps r)
    Progress ph s₀ (at_reset read) s = (ph ≡ reported read) × (s ≡ s₀)
    Progress ph s₀ (at_read read kept ps) s =
        (ph ≡ reported read)
        × (s.pool.sockets ≡ kept ++ ps)
        × (s.pool.beacon ≡ (if elem beacon read then reset s₀.pool.beacon else s₀.pool.beacon))
        × (s.pool.thread ≡ s₀.pool.thread)
        × (s.born ≡ s₀.born)
        × (pass os read s₀.heap s₀.pool.sockets s₀.kernel
            ≡ after kept (pass os read s.heap ps s.kernel))
    Progress ph s₀ (at_last read finished) s =
        (ph ≡ reported read)
        × (finished ≡ is_empty s.pool.sockets)
        × (s.born ≡ s₀.born)
        × (process os read beacon s₀.heap s₀.pool s₀.kernel ≡ some (s.pool, s.heap, s.kernel))

    no_birth : {A : Type 0} (active : Bool) (x y : A) → (if not active && active then x else y) ≡ y
    no_birth true x y = refl
    no_birth false x y = refl

    add_lem :
        (s : Shared K) (sock : ℕ)
        → let s' =
            with_sockets s
              (if elem sock s.pool.sockets then s.pool.sockets else sock ∷ s.pool.sockets) in
          (if not (elem sock s.pool.sockets) && (length s'.pool.sockets == 1)
            then start_thread (os.thread_starts s.kernel) s'
            else signal_pool capacity s')
          ≡ apply os (call_add sock) s
    unfolding add
    add_lem s sock = elim (Bool-cases (elem sock s.pool.sockets)) [
      | inl held ↦ rw (held, no_birth s.pool.thread.active true s.born) refl
      | inr absent ↦ elim (Bool-cases (length (sock ∷ s.pool.sockets) == 1)) [
        | inl first ↦ rw (absent, first) refl
        | inr later ↦ rw (absent, later, no_birth s.pool.thread.active true s.born) refl
      ]
    ]

    remove_lem :
        (s : Shared K) (sock : ℕ)
        → (if elem sock s.pool.sockets
            then signal_pool capacity (with_sockets s (erase sock s.pool.sockets))
            else with_sockets s (erase sock s.pool.sockets))
          ≡ apply os (call_remove sock) s
    unfolding remove
    remove_lem s sock = elim (Bool-cases (elem sock s.pool.sockets)) [
      | inl held ↦ rw held refl
      | inr absent ↦ rw (absent, erase-absent sock s.pool.sockets absent) refl
    ]

    after-append :
        (kept : List ℕ) (p : ℕ) (stays : Bool) (r : Option (List ℕ × Heap × K))
        → after kept (rejoin p stays r) ≡ after (if stays then kept ++ p ∷ [] else kept) r
    after-append kept p stays none = refl
    after-append kept p true (some (rest, h, k)) =
        ap (λ a. some (a, h, k)) (sym (append_assoc kept (p ∷ []) rest))
    after-append kept p false (some (rest, h, k)) = refl

    after-nil : (r : Option (List ℕ × Heap × K)) → r ≡ after [] r
    after-nil none = refl
    after-nil (some r) = refl

    pass-next :
        (read : List ℕ) (p : ℕ) (ps : List ℕ) (h : Heap) (stays : Bool) (k : K) (s : Shared K)
        → read_one os read s.heap p s.kernel ≡ some (h, stays, k)
        → pass os read s.heap (p ∷ ps) s.kernel ≡ rejoin p stays (pass os read h ps k)
    unfolding pass
    pass-next read p ps h stays k s e = rw (e, pass) refl

    pass-after :
        (read kept : List ℕ) (p : ℕ) (ps : List ℕ) (h : Heap) (stays : Bool) (k : K) (s : Shared K)
        → read_one os read s.heap p s.kernel ≡ some (h, stays, k)
        → after kept (pass os read s.heap (p ∷ ps) s.kernel)
          ≡ after (if stays then kept ++ p ∷ [] else kept) (pass os read h ps k)
    pass-after read kept p ps h stays k s e =
        ap (after kept) (pass-next read p ps h stays k s e)
        ∙ after-append kept p stays (pass os read h ps k)

    -- A pass that has seen all sockets
    process-of_pass :
        (read kept : List ℕ) (s₀ s : Shared K)
        → s.pool.sockets ≡ kept ++ []
        → s.pool.beacon ≡ (if elem beacon read then reset s₀.pool.beacon else s₀.pool.beacon)
        → s.pool.thread ≡ s₀.pool.thread
        → pass os read s₀.heap s₀.pool.sockets s₀.kernel ≡ after kept (some ([], s.heap, s.kernel))
        → process os read beacon s₀.heap s₀.pool s₀.kernel
          ≡ some (
            record (s.pool) {
              thread = if is_empty s.pool.sockets then exit s.pool.thread else s.pool.thread;
            },
            s.heap,
            s.kernel,
          )
    unfolding process
    process-of_pass read kept s₀ s sockets beacon_is thread e =
        rw (e, process, ← sockets, ← beacon_is, ← thread) refl

    -- Each statement brings its scope on.
    pub Work-Progress :
        (ph : Phase) (s₀ s s' : Shared K) (x x' : Line K)
        → Progress ph s₀ x s
        → Work capacity beacon os s x s' x'
        → Progress ph s₀ x' s'
    unfolding clear collect collect_from pass
    Work-Progress ph s₀ s s' x x' p (inserts sock rest) = (
      p.0,
      ap (λ a. not (elem sock a.pool.sockets)) p.1,
      ap
          (λ a.
            with_sockets a
              (if elem sock a.pool.sockets then a.pool.sockets else sock ∷ a.pool.sockets))
          p.1,
    )
    Work-Progress ph s₀ s s' x x' p (branches sock inserted rest) =
        (p.0, rw (p.1, p.2) (add_lem s₀ sock))
    Work-Progress ph s₀ s s' x x' p (erases sock rest) = (
      ap (λ a. elem sock a.pool.sockets) p,
      ap (λ a. with_sockets a (erase sock a.pool.sockets)) p,
    )
    Work-Progress ph s₀ s s' x x' p (signals sock erased rest) =
        (tt, rw (p.0, p.1) (remove_lem s₀ sock))
    Work-Progress ph s₀ s s' x x' p (empties rest) = ap (λ a. with_sockets a []) p
    Work-Progress ph s₀ s s' x x' p (signals_cleared rest) = (tt, rw p refl)
    Work-Progress ph s₀ s s' x x' p (alters c rest) = (p.0, ap (change c) p.2 ∙ p.1)
    Work-Progress ph s₀ s s' x x' p begins =
        (p.0, ap {A = Shared K} (λ a. record a { born = false }) p.1, refl, rw p.1 refl)
    Work-Progress ph s₀ s s' x x' p (lists q fd ps r e) =
        (p.0, p.1, p.2, p.3 ∙ rw (ap (λ a. usable (a.heap q)) (sym p.1) ∙ e, collect_from) refl)
    Work-Progress ph s₀ s s' x x' p (resets read) = (
      p.0,
      refl,
      ap (λ a. if elem beacon read then reset a.pool.beacon else a.pool.beacon) p.1,
      ap (λ a. a.pool.thread) p.1,
      ap (λ a. a.born) p.1,
      rw p.1 (after-nil (pass os read s₀.heap s₀.pool.sockets s₀.kernel)),
    )
    Work-Progress ph s₀ s s' x x' p (reads read kept q ps h stays k e) =
        (p.0, refl, p.2, p.3, p.4, p.5 ∙ pass-after read kept q ps h stays k s e)
    Work-Progress ph s₀ s s' x x' p (ends read kept) =
        (p.0, refl, p.4, process-of_pass read kept s₀ s p.1 p.2 p.3 p.5)
