-- ===== src/Socket/Connect/Disposal.antt =====
-- `AGSSocket::Dispose` of src/Socket.cpp: a socket that is freed while the pool holds it is met by the
-- read loop.
use agssock.Base.{
  ℕ, ◌≡◌, refl, ap, ◌∙◌, ◌≢◌, ◌⊎◌, inl, inr, true, false, Option, none, some, List, [], ◌∷◌, elem,
  All, arith, ◌==◌, ==_iff, Bool-cases, Option-cases,
}
use agssock.Api.Os.{Os}
use agssock.Objects.{Socket, Heap, update, sock_stream}
use agssock.Pool.Round.{Request, usable, collect_from, collect}
use agssock.Pool.Sets.{Distinct, ThreadRuns, IsValidAt}
use agssock.World.{World, Call, release, pool_remove}
use agssock.Socket.Connect.{dispose, released, closed}
use agssock.Socket.Connect.Joins.{Operating}
use agssock.Socket.Receive.{recv}
use agssock.Socket.Receive.Zeros.{recv_zero_breaks_pool}
use agssock.Socket.Connect.Closing.{away_valid, removed_valid, removed_runs}

-- A freed pointer in the pool is met before the next `select`.
collect_from-dangling :
    (h : Heap) (p : ℕ) (ps : List ℕ) (r : Request)
    → h p ≡ none
    → elem p ps ≡ true
    → collect_from h ps r ≡ none
unfolding collect_from usable
collect_from-dangling h p [] r gone m = cc
collect_from-dangling h p (q ∷ qs) r gone m = elim (Bool-cases (q == p)) [
  | inl same ↦
      let here : h q ≡ none = ap h ((==_iff q p).0 same) ∙ gone in rw (here, collect_from) refl
  | inr other ↦ elim (Option-cases (usable (h q))) [
    | inl stuck ↦ rw (stuck, collect_from) refl
    | inr (fd, u) ↦ rw (u, collect_from) (collect_from-dangling h p qs _ gone (ground arith))
  ]
]

-- The calls of the engine that a disposal makes for the addresses of a socket.
abbrev pub releases : Option ℕ → List Call → List Call
releases none calls = calls
releases (some addr) calls = release addr ∷ calls

released_lem :
    {K : Type 0} (o : Option ℕ) (w : World K)
    → let w' = released o w in
      (w'.sockets ≡ w.sockets) × (w'.pool ≡ w.pool) × (w'.calls ≡ releases o w.calls)
released_lem none w = (refl, refl, refl)
released_lem (some addr) w = (refl, refl, refl)

freed : (h : Heap) (p : ℕ) → update h p none p ≡ none
freed h p = ground arith

module _ {K : Type 0} (os : Os K) (capacity : ℕ) where
  closed_lem :
      (p : ℕ) (o : Option ℕ) (w : World K)
      → Operating w
      → Distinct w.pool.sockets
      → (o ≢ none) ⊎ (elem p w.pool.sockets ≡ false)
      → let w' = closed os capacity p o w in
        (w'.sockets ≡ w.sockets)
        × ThreadRuns w'.pool
        × All (IsValidAt (update w.sockets p none)) w'.pool.sockets
        × (elem p w'.pool.sockets ≡ false)
        × (w'.calls ≡ w.calls)
  unfolding pool_remove
  closed_lem p none w (runs, valid) d (inl open_socket) = absurd (open_socket refl)
  closed_lem p none w (runs, valid) d (inr absent) =
      (refl, runs, away_valid w.sockets p none w.pool.sockets absent valid, absent, refl)
  closed_lem p (some fd) w (runs, valid) d why =
      let (valid', out, d') = removed_valid capacity p none w.sockets w.pool d valid in
      (refl, removed_runs capacity p w.pool runs, valid', out, refl)

  -- `AGSSocket::Dispose` of a socket that is open, or is not in the pool, with an operating pool: the
  -- object is freed and is not in the pool, which operates after it; the engine is told to release
  -- the addresses that the socket holds, and nothing else.
  pub dispose_lem :
      (p : ℕ) (sock : Socket) (w : World K)
      → Operating w
      → Distinct w.pool.sockets
      → w.sockets p ≡ some sock
      → (sock.id ≢ none) ⊎ (elem p w.pool.sockets ≡ false)
      → (w' : World K) × (dispose os capacity p w ≡ some w')
        × Operating w'
        × (w'.sockets ≡ update w.sockets p none)
        × (elem p w'.pool.sockets ≡ false)
        × (w'.calls ≡ releases sock.remote (releases sock.local w.calls))
  unfolding dispose
  dispose_lem p sock w operating d at why =
      let w₁ : World K = closed os capacity p sock.id w in
      let (heap, runs, valid, out, calls) = closed_lem p sock.id w operating d why in
      let w₂ : World K = released sock.local w₁ in
      let (heap₂, pool₂, calls₂) = released_lem sock.local w₁ in
      let w₃ : World K = released sock.remote w₂ in
      let (heap₃, pool₃, calls₃) = released_lem sock.remote w₂ in
      let pool : w₃.pool ≡ w₁.pool = pool₃ ∙ pool₂ in
      let heap' : update w₃.sockets p none ≡ update w.sockets p none =
        ap (λ h. update h p none) (heap₃ ∙ heap₂ ∙ heap) in
      (
        record w₃ { sockets = update w₃.sockets p none },
        rw (at, dispose) refl,
        (rw pool runs, rw (heap', pool) valid),
        heap',
        rw pool out,
        calls₃ ∙ ap (releases sock.remote) (calls₂ ∙ ap (releases sock.local) calls),
      )

  dispose_invalid_lem :
      (p : ℕ) (sock : Socket) (w : World K)
      → w.sockets p ≡ some sock
      → sock.id ≡ none
      → (w' : World K) × (dispose os capacity p w ≡ some w')
        × (w'.sockets p ≡ none)
        × (w'.pool ≡ w.pool)
  unfolding dispose
  dispose_invalid_lem p sock w at id =
      let w₁ : World K = released sock.local w in
      let w₂ : World K = released sock.remote w₁ in
      let pool = (released_lem sock.remote w₁).1 ∙ (released_lem sock.local w).1 in
      let nothing : closed os capacity p sock.id w ≡ w = ap (λ o. closed os capacity p o w) id in
      (
        record w₂ { sockets = update w₂.sockets p none },
        rw (at, dispose)
            (ap
              (λ v. some (record (released sock.remote (released sock.local v)) {
                sockets = update (released sock.remote (released sock.local v)).sockets p none;
              }))
              nothing),
        freed w₂.sockets p,
        pool,
      )

  -- A stream that begins with a zero, in a socket that the pool holds: once `Socket_Recv` has read it
  -- and the engine has disposed of the socket, the next round of the read loop has no defined
  -- behaviour, since the pool holds a pointer to freed memory.
  pub recv_zero_dangles :
      (w : World K) (p beacon : ℕ) (sock : Socket) (text : List ℕ) (rest : List (List ℕ))
      → w.sockets p ≡ some sock
      → sock.type ≡ sock_stream
      → sock.incoming.queue ≡ (0 ∷ text) ∷ rest
      → elem p w.pool.sockets ≡ true
      → (w' w'' : World K) × (recv os p w ≡ some (some [], w'))
        × (dispose os capacity p w' ≡ some w'')
        × (collect w''.sockets beacon w''.pool ≡ none)
  unfolding collect
  recv_zero_dangles w p beacon sock text rest at stream zero_first held =
      let (w', sock', run, at', id, held', broken) =
        recv_zero_breaks_pool os w p sock text rest at stream zero_first held in
      let (w'', run', gone, pool) = dispose_invalid_lem p sock' w' at' id in
      (
        w',
        w'',
        run,
        run',
        collect_from-dangling w''.sockets p w''.pool.sockets _ gone (rw pool held'),
      )
