-- ===== src/Socket/Connect/Closing.antt =====
-- `Socket_Close` of src/Socket.cpp, and the sockets that stay in the pool when one leaves it.
use agssock.Base.{
  ℕ, ◌<◌, ◌≡◌, refl, ap, ◌∙◌, ◌≢◌, ◌⊎◌, inl, inr, Bool, true, false, Option, none, some, List, [],
  ◌∷◌, elem, All, arith, ◌==◌, ==_iff, ltb, Bool-cases, if◌then◌else◌,
}
use agssock.Api.Os.{Os, Result, done, failed}
use agssock.Objects.{Socket, Heap, update, sock_stream}
use agssock.Pool.{Pool, erase, remove}
use agssock.Pool.Sets.{Distinct, ThreadRuns, IsValidAt, erase-All, erase-Distinct, elem-erase_self}
use agssock.World.{World, errno_after, sys, pool_remove}
use agssock.Socket.Connect.{force_close, after_wait, close_stream, close}
use agssock.Socket.Connect.Joins.{Operating}

-- A change of one object leaves the other sockets valid.
pub away_valid :
    (h : Heap) (p : ℕ) (o : Option Socket) (ps : List ℕ)
    → elem p ps ≡ false
    → All (IsValidAt h) ps
    → All (IsValidAt (update h p o)) ps
away_valid h p o [] m v = tt
away_valid h p o (q ∷ qs) m ((sock, fd, at, id), vs) =
    ((sock, fd, ground arith, id), away_valid h p o qs (ground arith) vs)

-- What leaves the pool may become invalid or go.
pub removed_valid :
    (capacity p : ℕ) (o : Option Socket) (h : Heap) (pool : Pool)
    → Distinct pool.sockets
    → All (IsValidAt h) pool.sockets
    → let pool' = remove capacity p pool in
      All (IsValidAt (update h p o)) pool'.sockets
      × (elem p pool'.sockets ≡ false)
      × Distinct pool'.sockets
unfolding remove
removed_valid capacity p o h pool d v = elim (Bool-cases (elem p pool.sockets)) [
  | inl member ↦
      let out = elem-erase_self p pool.sockets d in
      rw member (
        away_valid h p o (erase p pool.sockets) out (erase-All (IsValidAt h) p pool.sockets v),
        out,
        erase-Distinct p pool.sockets d,
      )
  | inr absent ↦ rw absent (away_valid h p o pool.sockets absent v, absent, d)
]

pub removed_runs :
    (capacity p : ℕ) (pool : Pool) → ThreadRuns pool → ThreadRuns (remove capacity p pool)
unfolding remove
removed_runs capacity p pool (inl none_left) =
    let absent : elem p pool.sockets ≡ false = rw none_left refl in rw absent (inl none_left)
removed_runs capacity p pool (inr running) = ground arith

-- How `Socket_Close` ends, where `v` is the world after the shutdown: an answer in time leaves the
-- socket to the read loop, and anything else takes it out of the pool and closes its descriptor, whose
-- `errno` is the error of the socket then.
pub data Closed {K : Type 0} (os : Os K) (p : ℕ) (sock : Socket) (answer : Result Bool)
    (w v w' : World K) : Type 0 where
  answered :
      sock.type ≡ sock_stream
      → answer ≡ done true
      → w'.sockets ≡ w.sockets
      → w'.pool ≡ w.pool
      → w'.kernel ≡ v.kernel
      → Closed os p sock answer w v w'
  forced :
      (sock.type ≢ sock_stream) ⊎ (answer ≢ done true)
      → w'.sockets
        ≡ update w.sockets p (
            some (record sock {
              id = none;
              error = errno_after (os.close sock.id v.kernel).0 v.errno;
            }))
      → elem p w'.pool.sockets ≡ false
      → w'.kernel ≡ (os.close sock.id v.kernel).1
      → Closed os p sock answer w v w'

-- What `select` says of the socket after its shutdown
abbrev pub close_answer : {K : Type 0} → Os K → ℕ → World K → Result Bool
close_answer os fd w = (os.wait_readable fd 500 (os.shutdown (some fd) w.kernel).1).0

-- The world after the shutdown of a stream and the wait for an answer
abbrev pub after_shutdown : {K : Type 0} → Os K → ℕ → World K → World K
after_shutdown os fd w = (sys (os.wait_readable fd 500) (sys (os.shutdown (some fd)) w).1).1

module _ {K : Type 0} (os : Os K) (capacity : ℕ) where
  force_close_lem :
      (p : ℕ) (sock : Socket) (w : World K)
      → Operating w
      → Distinct w.pool.sockets
      → let w' = force_close os capacity p sock w in
        (w'.sockets
          ≡ update w.sockets p (
              some (record sock {
                id = none;
                error = errno_after (os.close sock.id w.kernel).0 w.errno;
              })))
        × (w'.kernel ≡ (os.close sock.id w.kernel).1)
        × Operating w'
        × Distinct w'.pool.sockets
        × (elem p w'.pool.sockets ≡ false)
        × (w'.calls ≡ w.calls)
  unfolding force_close pool_remove
  force_close_lem p sock w (runs, valid) d =
      let e : ℕ = (sys (os.close sock.id) (pool_remove capacity w p)).1.errno in
      let (valid', out, d') =
        removed_valid capacity p (some (record sock { id = none; error = e })) w.sockets w.pool d
          valid in
      (refl, refl, (removed_runs capacity p w.pool runs, valid'), d', out, refl)

  -- The outcome of a close, with the pool in order after it.
  CloseDone : ℕ → Socket → Result Bool → World K → World K → World K → Type 0
  CloseDone p sock answer w v w' =
      Operating w'
      × Distinct w'.pool.sockets
      × Closed os p sock answer w v w'
      × (w'.calls ≡ w.calls)

  forced_CloseDone :
      (p : ℕ) (sock : Socket) (answer : Result Bool) (w w₁ : World K)
      → Operating w
      → Distinct w.pool.sockets
      → w₁.sockets ≡ w.sockets
      → w₁.pool ≡ w.pool
      → w₁.calls ≡ w.calls
      → (sock.type ≢ sock_stream) ⊎ (answer ≢ done true)
      → CloseDone p sock answer w w₁ (force_close os capacity p sock w₁)
  unfolding CloseDone
  forced_CloseDone p sock answer w w₁ (runs, valid) d same_heap same_pool same_calls why =
      let e : ℕ = errno_after (os.close sock.id w₁.kernel).0 w₁.errno in
      let (heap, closes, operating, d', out, calls) =
        force_close_lem p sock w₁ (rw same_pool runs, rw (same_heap, same_pool) valid)
          (rw same_pool d) in
      (
        operating,
        d',
        forced why
            (heap ∙ ap (λ h. update h p (some (record sock { id = none; error = e }))) same_heap)
            out closes,
        calls ∙ same_calls,
      )

  after_wait_lem :
      (p : ℕ) (sock : Socket) (answer : Result Bool) (w w₁ : World K)
      → Operating w
      → Distinct w.pool.sockets
      → sock.type ≡ sock_stream
      → w₁.sockets ≡ w.sockets
      → w₁.pool ≡ w.pool
      → w₁.calls ≡ w.calls
      → CloseDone p sock answer w w₁ (after_wait os capacity p sock answer w₁)
  unfolding after_wait CloseDone
  after_wait_lem p sock (done true) w w₁ (runs, valid) d stream same_heap same_pool same_calls = (
    (rw same_pool runs, rw (same_heap, same_pool) valid),
    rw same_pool d,
    answered stream refl same_heap same_pool refl,
    same_calls,
  )
  after_wait_lem p sock (done false) w w₁ operating d stream same_heap same_pool same_calls =
      forced_CloseDone p sock (done false) w w₁ operating d same_heap same_pool same_calls
        (inr (λ h. cc))
  after_wait_lem p sock (failed e) w w₁ operating d stream same_heap same_pool same_calls =
      forced_CloseDone p sock (failed e) w w₁ operating d same_heap same_pool same_calls
        (inr (λ h. cc))

  -- `Socket_Close` on an open socket whose descriptor fits into an `fd_set`, with an operating pool: a
  -- stream is shut down, and if it answers in time, it stays as it is, for the read loop to see its
  -- end. Any other socket leaves the pool, the system's `close` is called with its descriptor, and the
  -- socket is invalid, with the `errno` of that as its error. The pool operates after it, and the
  -- engine is not called.
  pub close_lem :
      (p fd : ℕ) (sock : Socket) (w : World K)
      → Operating w
      → Distinct w.pool.sockets
      → w.sockets p ≡ some sock
      → sock.id ≡ some fd
      → fd < 1024
      → (w' : World K) × (close os capacity p w ≡ some w')
        × Operating w'
        × Distinct w'.pool.sockets
        × Closed os p sock
            (close_answer os fd w)
            w
            (if sock.type == sock_stream then after_shutdown os fd w else w)
            w'
        × (w'.calls ≡ w.calls)
  unfolding close close_stream CloseDone
  close_lem p fd sock w operating d at id small = elim (Bool-cases (sock.type == sock_stream)) [
    | inl stream ↦
        let w₂ : World K = (sys (os.wait_readable fd 500) (sys (os.shutdown (some fd)) w).1).1 in
        let fits : ltb fd 1024 ≡ true = ground arith in
        let (operating', d', ended, calls) =
          after_wait_lem p sock (close_answer os fd w) w w₂ operating d
            ((==_iff sock.type sock_stream).0 stream) refl refl refl in
        (
          after_wait os capacity p sock (close_answer os fd w) w₂,
          rw (at, close)
              (rw stream (ap (λ o. close_stream os capacity p sock o w) id ∙ rw fits refl)),
          operating',
          d',
          rw stream ended,
          calls,
        )
    | inr packets ↦
        let other : sock.type ≢ sock_stream = ground arith in
        let (operating', d', ended, calls) =
          forced_CloseDone p sock (close_answer os fd w) w w operating d refl refl refl
            (inl other) in
        (
          force_close os capacity p sock w,
          rw (at, close) (rw packets refl),
          operating',
          d',
          rw packets ended,
          calls,
        )
  ]
