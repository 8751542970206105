-- ===== src/Socket/System/Takes.antt =====
-- The functions of src/Socket.cpp that take from a socket's buffer, as runs of the pool's system.
use agssock.Base.{
  ℕ, ◌≡◌, refl, ap, ◌∙◌, Bool, Option, none, some, List, All, arith, Option-cases, Bool-cases, inl,
  inr, ◌==◌, no_result, one_world,
}
use agssock.Api.Os.{Os}
use agssock.Objects.{Socket, sock_stream}
use agssock.Buffer.{Buffer, empty, extract_string, extract_data}
use agssock.Buffer.Ends.{NoZeroFront}
use agssock.Pool.Open.{IsOpenAt}
use agssock.Pool.System.{Phase, Inv}
use agssock.Pool.System.Safety.{All-IsValidAt}
use agssock.World.{World, Call, script_string, register_data}
use agssock.Socket.Receive.{Reply, recv_nothing, recv_chunk, recv_impl, recv, recv_data, returned}
use agssock.Socket.Receive.Gives.{Gives, string-Gives, data-Gives}
use agssock.Socket.Receive.Keeps.{recv_impl-Operating}
use agssock.Socket.System.{view, Leads, aborts, Quiet}
use agssock.Socket.System.Steps.{noted-Leads}

module _ {K : Type 0} (os : Os K) (capacity beacon : ℕ) where
  nothing_calls :
      (w : World K) (p : ℕ) (sock : Socket)
      → let v = (recv_nothing os w p sock).1 in (v.calls ≡ w.calls) × (v.next ≡ w.next)
  unfolding recv_nothing
  nothing_calls w p sock = (ground arith, ground arith)

  chunk_calls :
      (w : World K) (p : ℕ) (sock : Socket) (r : List ℕ × Buffer)
      → let v = (recv_chunk os w p sock r).1 in (v.calls ≡ w.calls) × (v.next ≡ w.next)
  unfolding recv_chunk
  chunk_calls w p sock r = (ground arith, ground arith)

  recv_impl-calls :
      (extract : Buffer → Bool → Option (List ℕ × Buffer)) (p : ℕ) (r : Reply) (w w' : World K)
      → recv_impl os extract p w ≡ some (r, w')
      → (w'.calls ≡ w.calls) × (w'.next ≡ w.next)
  unfolding recv_impl
  recv_impl-calls extract p r w w' e = elim (Option-cases (w.sockets p)) [
    | inl gone ↦ no_result (rw gone at e)
    | inr (sock, at) ↦ elim (Bool-cases (empty sock.incoming)) [
      | inl bare ↦ rw (← one_world (rw (at, bare) at e)) (nothing_calls w p sock)
      | inr filled ↦ elim (Option-cases (extract sock.incoming (sock.type == sock_stream))) [
        | inl stuck ↦ no_result (rw (at, filled, stuck) at e)
        | inr (t, run) ↦ rw (← one_world (rw (at, filled, run) at e)) (chunk_calls w p sock t)
      ]
    ]
  ]

  returned-Leads :
      (call : List ℕ → Call) (reply : Reply) (w v : World K) (phase : Phase)
      → Quiet call
      → Leads os capacity beacon w phase v phase
      → Leads os capacity beacon w phase (returned call reply v) phase
  returned-Leads call none w v phase quiet led = led
  returned-Leads call (some text) w v phase quiet (run, calm, opens, news) =
      (run, quiet text v.calls ∙ calm, opens, news)

  -- What both functions do with an open pool
  took-Leads :
      (extract : Buffer → Bool → Option (List ℕ × Buffer)) (call : List ℕ → Call) (p : ℕ)
      (sock : Socket) (w : World K) (phase : Phase)
      → Quiet call
      → Inv beacon (view w phase)
      → All (IsOpenAt w.sockets) w.pool.sockets
      → w.sockets p ≡ some sock
      → Gives extract sock
      → (reply : Reply) × (v : World K) × (recv_impl os extract p w ≡ some (reply, v))
        × Leads os capacity beacon w phase (returned call reply v) phase
  took-Leads extract call p sock w phase quiet inv opened at gives =
      let (reply, v, sock', run, safe, more, left) =
        recv_impl-Operating os extract w p sock
          (inv.threaded, All-IsValidAt w.sockets w.pool.sockets inv.sound.sockets_usable) opened at
          gives in
      let (calls, next) = recv_impl-calls extract p reply w v run in
      (
        reply,
        v,
        run,
        returned-Leads call reply w v phase quiet (
            noted-Leads os capacity beacon w v p sock sock' phase at safe more left
              (ap aborts calls) (omega arith)),
      )

  pub recv-Leads :
      (p : ℕ) (r : Reply) (sock : Socket) (w w' : World K) (phase : Phase)
      → Inv beacon (view w phase)
      → All (IsOpenAt w.sockets) w.pool.sockets
      → w.sockets p ≡ some sock
      → All NoZeroFront sock.incoming.queue
      → recv os p w ≡ some (r, w')
      → Leads os capacity beacon w phase w' phase
  unfolding recv
  recv-Leads p r sock w w' phase inv opened at text e =
      let (reply, v, run, led) =
        took-Leads extract_string script_string p sock w phase (λ t calls. refl) inv opened at
          (string-Gives sock text) in
      rw (← one_world (rw run at e)) led

  pub recv_data-Leads :
      (p : ℕ) (r : Reply) (sock : Socket) (w w' : World K) (phase : Phase)
      → Inv beacon (view w phase)
      → All (IsOpenAt w.sockets) w.pool.sockets
      → w.sockets p ≡ some sock
      → recv_data os p w ≡ some (r, w')
      → Leads os capacity beacon w phase w' phase
  unfolding recv_data
  recv_data-Leads p r sock w w' phase inv opened at e =
      let (reply, v, run, led) =
        took-Leads (λ b stream. extract_data b) register_data p sock w phase (λ t calls. refl) inv
          opened at (data-Gives sock) in
      rw (← one_world (rw run at e)) led
