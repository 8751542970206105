-- ===== src/Pool/Locking/Ends.antt =====
-- The scopes of src/Pool.cpp come to their end: no statement of theirs is left without a next one.
use agssock.Base.{
  ℕ, ◌≡◌, refl, sym, ◌∙◌, ◌≢◌, inl, inr, Bool, true, false, Option, none, some, List, [], ◌∷◌, ◌++◌,
  if◌then◌else◌, is_empty, arith, Option-cases,
}
use agssock.Api.Os.{Os}
use agssock.Api.Mutex.Atomic.{Works, none_yet, more}
use agssock.Api.Mutex.Ends.{Ends, finishes, goes}
use agssock.Objects.{Heap}
use agssock.Pool.Round.{Request, usable, collect, collect_from, read_one, pass}
use agssock.Pool.Reading.{collect_lem}
use agssock.Pool.Passes.{rejoin-some, pass-total}
use agssock.Pool.System.{Phase, Sound}
use agssock.Pool.Locking.{
  Call, Shared, Local, Line, at_insert, at_branch, at_erase, at_erased, at_clear, at_cleared,
  at_change, at_end, at_birth, at_list, at_reset, at_read, at_last, first_request, Enters, into_add,
  into_remove, into_clear, into_heap, into_kernel, LoopEnters, into_first, into_list, into_process,
  from_call, from_list, from_round, by_loop, by_caller, Work, inserts, branches, erases, signals,
  empties, signals_cleared, alters, begins, lists, resets, reads, ends, program,
}
use agssock.Pool.Locking.Scopes.{Progress, after}
use agssock.Pool.Locking.Calls.{system_of}

-- The statements of the read loop
abbrev pub in_loop : {K : Type 0} → Line K → Bool
in_loop at_birth = true
in_loop (at_list ps r) = true
in_loop (at_reset read) = true
in_loop (at_read read kept ps) = true
in_loop (at_last read finished) = true
in_loop _ = false

module _ {K : Type 0} (os : Os K) (capacity beacon : ℕ) where
  after-some :
      (kept : List ℕ) (o : Option (List ℕ × Heap × K)) (r : List ℕ × Heap × K)
      → after capacity beacon kept o ≡ some r
      → (q : List ℕ × Heap × K) × (o ≡ some q)
  after-some kept none r h = cc
  after-some kept (some q) r h = (q, refl)

  Work-in_loop :
      (s s' : Shared K) (x x' : Line K) → Work capacity beacon os s x s' x' → in_loop x' ≡ in_loop x
  Work-in_loop s s' x x' (inserts sock rest) = refl
  Work-in_loop s s' x x' (branches sock inserted rest) = refl
  Work-in_loop s s' x x' (erases sock rest) = refl
  Work-in_loop s s' x x' (signals sock erased rest) = refl
  Work-in_loop s s' x x' (empties rest) = refl
  Work-in_loop s s' x x' (signals_cleared rest) = refl
  Work-in_loop s s' x x' (alters c rest) = refl
  Work-in_loop s s' x x' begins = refl
  Work-in_loop s s' x x' (lists p fd ps r e) = refl
  Work-in_loop s s' x x' (resets read) = refl
  Work-in_loop s s' x x' (reads read kept p ps h stays k e) = refl
  Work-in_loop s s' x x' (ends read kept) = refl

  pub Works-in_loop :
      (i : ℕ) (s : Shared K) (x : Line K) (s' : Shared K) (x' : Line K)
      → Works (program capacity beacon os) i s x s' x'
      → in_loop x' ≡ in_loop x
  unfolding program
  Works-in_loop i s x s' x' none_yet = refl
  Works-in_loop i s x s' x' (more {s₁} {s₂} {x₁} {x₂} ws w) =
      Work-in_loop s₁ s' x₁ x' w ∙ Works-in_loop i s x s₁ x₁ ws

  pub LoopEnters-in_loop :
      (s : Shared K) (l : Local K) (x : Line K)
      → LoopEnters capacity beacon s l x
      → in_loop x ≡ true
  LoopEnters-in_loop s l x (into_first h) = refl
  LoopEnters-in_loop s l x into_list = refl
  LoopEnters-in_loop s l x (into_process read) = refl

  pub Enters-in_loop : (s : Shared K) (l : Local K) (x : Line K) → Enters s l x → in_loop x ≡ false
  Enters-in_loop s l x (into_add sock rest u) = refl
  Enters-in_loop s l x (into_remove sock rest) = refl
  Enters-in_loop s l x (into_clear rest) = refl
  Enters-in_loop s l x (into_heap h rest same) = refl
  Enters-in_loop s l x (into_kernel k rest) = refl

  abbrev pub ScopeEnds : ℕ → Shared K → Line K → Type 0
  ScopeEnds = Ends (program capacity beacon os)

  module _ (i : ℕ) where
    end_ends :
        i ≢ 0 → (s : Shared K) (c : Call K) (rest : List (Call K)) → ScopeEnds i s (at_end c rest)
    unfolding program
    end_ends ne s c rest = finishes s _ _ (by_caller ne (from_call c rest))

    pub call_ends : i ≢ 0 → (s : Shared K) (x : Line K) → in_loop x ≡ false → ScopeEnds i s x
    unfolding program
    call_ends ne s (at_end c rest) h = end_ends ne s c rest
    call_ends ne s (at_branch sock inserted rest) h =
        goes s _ _ _ (branches sock inserted rest) (end_ends ne _ _ rest)
    call_ends ne s (at_insert sock rest) h =
        goes s _ _ _ (inserts sock rest)
          (goes _ _ _ _ (branches sock _ rest) (end_ends ne _ _ rest))
    call_ends ne s (at_erased sock erased rest) h =
        goes s _ _ _ (signals sock erased rest) (end_ends ne _ _ rest)
    call_ends ne s (at_erase sock rest) h =
        goes s _ _ _ (erases sock rest) (goes _ _ _ _ (signals sock _ rest) (end_ends ne _ _ rest))
    call_ends ne s (at_cleared rest) h = goes s _ _ _ (signals_cleared rest) (end_ends ne _ _ rest)
    call_ends ne s (at_clear rest) h =
        goes s _ _ _ (empties rest) (goes _ _ _ _ (signals_cleared rest) (end_ends ne _ _ rest))
    call_ends ne s (at_change c rest) h = goes s _ _ _ (alters c rest) (end_ends ne _ c rest)
    call_ends ne s at_birth h = cc
    call_ends ne s (at_list ps r) h = cc
    call_ends ne s (at_reset read) h = cc
    call_ends ne s (at_read read kept ps) h = cc
    call_ends ne s (at_last read finished) h = cc

    list_ends :
        i ≡ 0
        → (s : Shared K) (ps : List ℕ) (r r' : Request) → collect_from s.heap ps r ≡ some r'
        → ScopeEnds i s (at_list ps r)
    unfolding program collect_from
    list_ends e s [] r r' h = finishes s _ _ (by_loop e (from_list r))
    list_ends e s (p ∷ ps) r r' h = elim (Option-cases (usable (s.heap p))) [
      | inl unusable ↦ absurd (ground arith)
      | inr (fd, at) ↦
          goes s s _ _ (lists p fd ps r at) (list_ends e s ps _ r' (rw (at, collect_from) at h))
    ]

    last_ends :
        i ≡ 0
        → (s : Shared K) (read : List ℕ) (finished : Bool) → ScopeEnds i s (at_last read finished)
    unfolding program
    last_ends e s read finished = finishes s _ _ (by_loop e (from_round read finished))

    read_ends :
        i ≡ 0
        → (ps : List ℕ) (s : Shared K) (read kept : List ℕ) (r : List ℕ × Heap × K)
        → pass os read s.heap ps s.kernel ≡ some r
        → ScopeEnds i s (at_read read kept ps)
    unfolding program pass
    read_ends e [] s read kept r h =
        goes s _ _ _ (ends read kept) (last_ends e _ read (is_empty s.pool.sockets))
    read_ends e (p ∷ ps) s read kept r h =
        elim (Option-cases (read_one os read s.heap p s.kernel)) [
          | inl stuck ↦ absurd (ground arith)
          | inr ((h', stays, k'), at) ↦
              let (left, rest, _) =
                rejoin-some p stays (pass os read h' ps k') r.0 r.1 r.2 (rw (at, pass) at h) in
              goes s _ _ _ (reads read kept p ps h' stays k' at) (
                read_ends e ps _ read (if stays then kept ++ p ∷ [] else kept) (left, r.1, r.2)
                  rest)
        ]

    -- The loop's statements, in a scope that began where the invariant holds
    pub loop_ends :
        i ≡ 0
        → (ph : Phase) (s₀ s : Shared K) (x : Line K) → Sound beacon (system_of s₀ ph)
        → Progress capacity beacon os ph s₀ x s
        → in_loop x ≡ true
        → ScopeEnds i s x
    unfolding program collect
    loop_ends e ph s₀ s at_birth v p h =
        let c = collect_lem s₀.heap beacon s₀.pool v.sockets_usable in
        goes s _ _ _ begins (
          list_ends e (record s { born = false }) s.pool.sockets (first_request beacon) c.0
            (rw p.1 c.1))
    loop_ends e ph s₀ s (at_list ps r) v p h =
        let c = collect_lem s₀.heap beacon s₀.pool v.sockets_usable in
        list_ends e s ps r c.0 (rw p.1 (sym p.3 ∙ c.1))
    loop_ends e ph s₀ s (at_reset read) v p h =
        let (rest, h', k', found) =
          pass-total os read s₀.heap s₀.pool.sockets s₀.kernel v.sockets_usable in
        goes s _ _ _ (resets read)
          (read_ends e s.pool.sockets _ read [] (rest, h', k') (rw p.1 found))
    loop_ends e ph s₀ s (at_read read kept ps) v p h =
        let (rest, h', k', found) =
          pass-total os read s₀.heap s₀.pool.sockets s₀.kernel v.sockets_usable in
        let (q, found') =
          after-some kept (pass os read s.heap ps s.kernel) (rest, h', k') (sym p.5 ∙ found) in
        read_ends e ps s read kept q found'
    loop_ends e ph s₀ s (at_last read finished) v p h = last_ends e s read finished
    loop_ends e ph s₀ s (at_insert sock rest) v p h = cc
    loop_ends e ph s₀ s (at_branch sock inserted rest) v p h = cc
    loop_ends e ph s₀ s (at_erase sock rest) v p h = cc
    loop_ends e ph s₀ s (at_erased sock erased rest) v p h = cc
    loop_ends e ph s₀ s (at_clear rest) v p h = cc
    loop_ends e ph s₀ s (at_cleared rest) v p h = cc
    loop_ends e ph s₀ s (at_change c rest) v p h = cc
    loop_ends e ph s₀ s (at_end c rest) v p h = cc
