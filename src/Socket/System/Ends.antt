-- ===== src/Socket/System/Ends.antt =====
-- `Socket_Close` and the disposal of a socket of src/Socket.cpp as runs of the pool's system.
use agssock.Base.{
  ℕ, ◌≡◌, refl, ◌⊎◌, Bool, true, false, Option, none, some, List, elem, arith, Bool-cases,
  Option-cases, inl, inr, ◌==◌, ltb, All, All-elem, ◌≢◌, no_result, one_result,
}
use agssock.Api.Os.{Os, Result, done, failed}
use agssock.Objects.{Socket, Heap, sock_stream}
use agssock.Pool.{remove}
use agssock.Pool.Round.{usable}
use agssock.Pool.Reading.{IsUsable}
use agssock.Pool.Sets.{Distinct, elem-erase_self}
use agssock.Pool.System.{Phase, Inv}
use agssock.World.{World, sys, pool_remove}
use agssock.Socket.Connect.{force_close, after_wait, close_stream, close, closed, released, dispose}
use agssock.Socket.System.{view, Leads}
use agssock.Socket.System.Heaps.{Fresh-live, Fresh-freed}
use agssock.Socket.System.Steps.{kept-Leads, away-Leads, removed-Leads, none_yet}

removed_absent :
    (capacity : ℕ) {K : Type 0} (p : ℕ) (w : World K)
    → Distinct w.pool.sockets
    → elem p (pool_remove capacity w p).pool.sockets ≡ false
unfolding pool_remove remove
removed_absent capacity p w d = elim (Bool-cases (elem p w.pool.sockets)) [
  | inl member ↦ rw member (elem-erase_self p w.pool.sockets d)
  | inr absent ↦ rw absent absent
]

-- A pool of usable sockets holds no invalid one.
invalid_absent :
    (h : Heap) (p : ℕ) (sock : Socket) (ps : List ℕ)
    → h p ≡ some sock
    → All (IsUsable h) ps
    → (elem p ps ≡ false) ⊎ (sock.id ≢ none)
unfolding usable
invalid_absent h p sock ps at us = elim (Bool-cases (elem p ps)) [
  | inr absent ↦ inl absent
  | inl held ↦ let (fd, u) = All-elem (IsUsable h) p ps us held in inr (λ invalid. ground arith)
]

module _ {K : Type 0} (os : Os K) (capacity beacon : ℕ) where
  forced-Leads :
      (p : ℕ) (sock : Socket) (w v : World K) (phase : Phase)
      → Distinct v.pool.sockets
      → v.sockets p ≡ some sock
      → Leads os capacity beacon w phase v phase
      → Leads os capacity beacon w phase (force_close os capacity p sock v) phase
  unfolding force_close pool_remove
  forced-Leads p sock w v phase d at led =
      let v₁ : World K = pool_remove capacity v p in
      let v₂ : World K = (sys (os.close sock.id) v₁).1 in
      away-Leads os capacity beacon w v₂ p (some (record sock { id = none; error = v₂.errno }))
        phase phase (removed_absent capacity p v d)
        (Fresh-live v₂ p sock (some (record sock { id = none; error = v₂.errno })) at)
        (kept-Leads os capacity beacon w v₁ v₂ phase phase refl refl refl refl
          (removed-Leads os capacity beacon w v p phase phase led))

  waited-Leads :
      (p : ℕ) (sock : Socket) (answer : Result Bool) (w v : World K) (phase : Phase)
      → Distinct v.pool.sockets
      → v.sockets p ≡ some sock
      → Leads os capacity beacon w phase v phase
      → Leads os capacity beacon w phase (after_wait os capacity p sock answer v) phase
  unfolding after_wait
  waited-Leads p sock (done true) w v phase d at led = led
  waited-Leads p sock (done false) w v phase d at led = forced-Leads p sock w v phase d at led
  waited-Leads p sock (failed e) w v phase d at led = forced-Leads p sock w v phase d at led

  stream-Leads :
      (p : ℕ) (sock : Socket) (o : Option ℕ) (w w' : World K) (phase : Phase)
      → Distinct w.pool.sockets
      → w.sockets p ≡ some sock
      → close_stream os capacity p sock o w ≡ some w'
      → Leads os capacity beacon w phase w' phase
  unfolding close_stream
  stream-Leads p sock none w w' phase d at e = no_result e
  stream-Leads p sock (some fd) w w' phase d at e =
      let w₂ : World K = (sys (os.wait_readable fd 500) (sys (os.shutdown (some fd)) w).1).1 in
      let answer = (os.wait_readable fd 500 (os.shutdown (some fd) w.kernel).1).0 in
      elim (Bool-cases (ltb fd 1024)) [
        | inr large ↦ no_result (rw large at e)
        | inl fits ↦ rw (← one_result (rw fits at e)) (
            waited-Leads p sock answer w w₂ phase d at (
              kept-Leads os capacity beacon w w w₂ phase phase refl refl refl refl
                (none_yet os capacity beacon w phase)))
      ]

  pub close-Leads :
      (p : ℕ) (w w' : World K) (phase : Phase)
      → Inv beacon (view w phase)
      → close os capacity p w ≡ some w'
      → Leads os capacity beacon w phase w' phase
  unfolding close
  close-Leads p w w' phase inv e = elim (Option-cases (w.sockets p)) [
    | inl gone ↦ no_result (rw gone at e)
    | inr (sock, at) ↦ elim (Bool-cases (sock.type == sock_stream)) [
      | inl stream ↦
          stream-Leads p sock sock.id w w' phase inv.sound.distinct at (rw (at, stream) at e)
      | inr packets ↦ rw (← one_result (rw (at, packets) at e)) (
          forced-Leads p sock w w phase inv.sound.distinct at (none_yet os capacity beacon w phase))
    ]
  ]

  -- Either the socket is open and leaves the pool, or it is invalid and the pool does not hold it.
  closed-Leads :
      (p : ℕ) (o : Option ℕ) (w : World K) (phase : Phase)
      → Distinct w.pool.sockets
      → (elem p w.pool.sockets ≡ false) ⊎ (o ≢ none)
      → let v = closed os capacity p o w in
        Leads os capacity beacon w phase v phase × (elem p v.pool.sockets ≡ false)
  closed-Leads p none w phase d (inl absent) = ((none_yet os capacity beacon w phase), absent)
  closed-Leads p none w phase d (inr open_socket) = absurd (open_socket refl)
  closed-Leads p (some fd) w phase d why =
      let v₁ : World K = pool_remove capacity w p in
      let v₂ : World K = (sys (os.close (some fd)) v₁).1 in
      (
        kept-Leads os capacity beacon w v₁ v₂ phase phase refl refl refl refl (
            removed-Leads os capacity beacon w w p phase phase
              (none_yet os capacity beacon w phase)),
        removed_absent capacity p w d,
      )

  released-Leads :
      (o : Option ℕ) (w v : World K) (phase : Phase)
      → Leads os capacity beacon w phase v phase
      → Leads os capacity beacon w phase (released o v) phase × ((released o v).pool ≡ v.pool)
  released-Leads none w v phase led = (led, refl)
  released-Leads (some addr) w v phase led = (led, refl)

  pub dispose-Leads :
      (p : ℕ) (w w' : World K) (phase : Phase)
      → Inv beacon (view w phase)
      → dispose os capacity p w ≡ some w'
      → Leads os capacity beacon w phase w' phase
  unfolding dispose
  dispose-Leads p w w' phase inv e = elim (Option-cases (w.sockets p)) [
    | inl gone ↦ no_result (rw gone at e)
    | inr (sock, at) ↦
        let v : World K = closed os capacity p sock.id w in
        let (led, out) =
          closed-Leads p sock.id w phase inv.sound.distinct
            (invalid_absent w.sockets p sock w.pool.sockets at inv.sound.sockets_usable) in
        let (led₁, pool₁) = released-Leads sock.local w v phase led in
        let v₁ : World K = released sock.local v in
        let (led₂, pool₂) = released-Leads sock.remote w v₁ phase led₁ in
        let v₂ : World K = released sock.remote v₁ in
        rw (← one_result (rw at at e)) (
          away-Leads os capacity beacon w v₂ p none phase phase (rw (pool₂, pool₁) out)
            (Fresh-freed v₂ p) led₂)
  ]
