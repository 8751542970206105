-- ===== src/Socket/System/Safety.antt =====
-- What scripts that call the functions of src/Socket.cpp can reach beside the read loop.
use agssock.Base.{ℕ, ◌<◌, ◌≡◌, ◌∙◌, true, false, some, All, arith, none}
use agssock.Api.Os.{Os}
use agssock.Pool.{is_operating}
use agssock.Pool.Open.{IsOpenAt, pass_keeps_open}
use agssock.Pool.System.{
  Phase, System, after_start, LoopStep, loops, networks, Reach, starts, later, Inv, collects,
  reports, processes,
}
use agssock.Pool.System.Safety.{Reach-Inv, operating-Inv}
use agssock.World.{World}
use agssock.Socket.System.{view, Runs, stays, runs_on, Follows, aborts, OpenPool, Fresh}
use agssock.Socket.System.Steps.{settled, Runs-Inv}
use agssock.Socket.System.Opens.{connect-Leads, bind-Leads, accept-Leads}
use agssock.Socket.System.Ends.{close-Leads, dispose-Leads}
use agssock.Socket.System.Moves.{
  send-Leads, send_to-Leads, listen-Leads, recv_from-Leads, recv_data_from-Leads,
}
use agssock.Socket.System.Takes.{recv-Leads, recv_data-Leads}
use agssock.Pool.System.Keeps.{process-some, left_pool}
use agssock.Socket.System.Makes.{create-Leads, restore-Leads, get_local-Leads, get_remote-Leads}
use agssock.Pool.Passes.{pass-Passed}
use agssock.Pool.Deliver.{gone-Passed}
use agssock.Socket.System.Script.{
  ScriptCall, Live, creates, restores, connects, binds, accepts, listens, sends, sends_to, receives,
  receives_data, receives_from, receives_data_from, asks_local, asks_remote, closes, disposes,
  begins, calls, turns, moves,
}

module _ {K : Type 0} (os : Os K) (capacity beacon : ℕ) (room : 0 < capacity)
    (threads : (k : K) → os.thread_starts k ≡ true) where
  ScriptCall-Follows :
      {w w' : World K} (phase : Phase)
      → Inv beacon (view w phase)
      → OpenPool w
      → Fresh w
      → ScriptCall os capacity w w'
      → Follows os capacity beacon w phase w'
  ScriptCall-Follows {w} {w'} phase inv opened free (creates domain type protocol) =
      settled os capacity beacon room w w' phase inv (
        create-Leads os capacity beacon domain type protocol w phase inv
          (free w.next (omega arith)))
  ScriptCall-Follows {w} {w'} phase inv opened free (restores keys left key buffer) =
      settled os capacity beacon room w w' phase inv (
        restore-Leads os capacity beacon keys left key buffer w phase inv
          (free w.next (omega arith)))
  ScriptCall-Follows {w} {w'} phase inv opened free (connects p addr async r u o e) =
      connect-Leads os capacity beacon room threads p addr async r w w' phase inv u o e
  ScriptCall-Follows {w} {w'} phase inv opened free (binds p addr r u o e) =
      bind-Leads os capacity beacon room threads p addr r w w' phase inv u o e
  ScriptCall-Follows {w} {w'} phase inv opened free (accepts p r fits e) =
      accept-Leads os capacity beacon room threads p r w w' phase inv (free w.next (omega arith))
        fits e
  ScriptCall-Follows {w} {w'} phase inv opened free (listens p backlog r e) =
      settled os capacity beacon room w w' phase inv
        (listen-Leads os capacity beacon p backlog r w w' phase e)
  ScriptCall-Follows {w} {w'} phase inv opened free (sends p text r e) =
      settled os capacity beacon room w w' phase inv
        (send-Leads os capacity beacon p text r w w' phase e)
  ScriptCall-Follows {w} {w'} phase inv opened free (sends_to p addr text r e) =
      settled os capacity beacon room w w' phase inv
        (send_to-Leads os capacity beacon p addr text r w w' phase e)
  ScriptCall-Follows {w} {w'} phase inv opened free (receives p r sock at text e) =
      settled os capacity beacon room w w' phase inv
        (recv-Leads os capacity beacon p r sock w w' phase inv opened at text e)
  ScriptCall-Follows {w} {w'} phase inv opened free (receives_data p r sock at e) =
      settled os capacity beacon room w w' phase inv
        (recv_data-Leads os capacity beacon p r sock w w' phase inv opened at e)
  ScriptCall-Follows {w} {w'} phase inv opened free (receives_from left p addr r e) =
      settled os capacity beacon room w w' phase inv
        (recv_from-Leads os capacity beacon left p addr r w w' phase e)
  ScriptCall-Follows {w} {w'} phase inv opened free (receives_data_from p addr r e) =
      settled os capacity beacon room w w' phase inv
        (recv_data_from-Leads os capacity beacon p addr r w w' phase e)
  ScriptCall-Follows {w} {w'} phase inv opened free (asks_local p a e) =
      settled os capacity beacon room w w' phase inv
        (get_local-Leads os capacity beacon p a w w' phase e)
  ScriptCall-Follows {w} {w'} phase inv opened free (asks_remote p a e) =
      settled os capacity beacon room w w' phase inv
        (get_remote-Leads os capacity beacon p a w w' phase e)
  ScriptCall-Follows {w} {w'} phase inv opened free (closes p e) =
      settled os capacity beacon room w w' phase inv
        (close-Leads os capacity beacon p w w' phase inv e)
  ScriptCall-Follows {w} {w'} phase inv opened free (disposes p e) =
      settled os capacity beacon room w w' phase inv
        (dispose-Leads os capacity beacon p w w' phase inv e)

  -- Every call of a script is a run of the steps that the pool's system allows, in a world that meets
  -- the invariant of the pool and its thread, of whose pooled sockets more can be read, and that has
  -- allocated no socket from its next number on; so it is after the call, which asks for no abort.
  -- Threads can be created, the beacon can hold a byte, and the call is one that `ScriptCall` admits.
  pub script_calls_step :
      {w w' : World K} (phase : Phase)
      → Inv beacon (view w phase)
      → OpenPool w
      → Fresh w
      → ScriptCall os capacity w w'
      → Runs os capacity beacon
          (view w phase)
          (view w' (after_start w.pool.thread w'.pool.thread phase))
        × Inv beacon (view w' (after_start w.pool.thread w'.pool.thread phase))
        × OpenPool w'
        × Fresh w'
        × (aborts w'.calls ≡ aborts w.calls)
  script_calls_step phase inv opened free c =
      let (run, calm, opens, news) = ScriptCall-Follows phase inv opened free c in
      (run, Runs-Inv os capacity beacon room threads run inv, opens opened, news free, calm)

  Runs-Reach :
      {s t : System K}
      → Runs os capacity beacon s t
      → Reach os capacity beacon s
      → Reach os capacity beacon t
  Runs-Reach stays r = r
  Runs-Reach (runs_on run st) r = later (Runs-Reach run r) st

  -- A turn of the loop keeps the pool open.
  turned_open :
      {s t : System K}
      → LoopStep os capacity beacon s t
      → Inv beacon s
      → All (IsOpenAt s.heap) s.pool.sockets
      → All (IsOpenAt t.heap) t.pool.sockets
  unfolding left_pool
  turned_open (collects r at e) inv opened = opened
  turned_open (reports r read at some_of) inv opened = opened
  turned_open {s} (processes read p h k at e) inv opened =
      let (rest, passed, left) =
        process-some os capacity beacon room read s.heap s.pool s.kernel p h k e in
      rw left (
        pass_keeps_open os read s.heap s.pool.sockets s.kernel rest h k inv.sound.distinct opened
          passed)

  -- A turn of the loop allocates no socket.
  turned_free :
      {s t : System K}
      → LoopStep os capacity beacon s t
      → (q : ℕ) → s.heap q ≡ none
      → t.heap q ≡ none
  unfolding left_pool
  turned_free (collects r at e) q free = free
  turned_free (reports r read at some_of) q free = free
  turned_free {s} (processes read p h k at e) q free =
      let (rest, passed, left) =
        process-some os capacity beacon room read s.heap s.pool s.kernel p h k e in
      gone-Passed os read q (pass-Passed os read s.heap s.pool.sockets s.kernel rest h k passed)
        free

  -- What scripts, the read loop and the network can reach is what the pool's system can reach, with no
  -- abort, with a pool of sockets of which more can be read, and with the next numbers free.
  pub Live-Reach :
      {w : World K} {phase : Phase}
      → Live os capacity beacon w phase
      → Reach os capacity beacon (view w phase) × OpenPool w × Fresh w × (aborts w.calls ≡ false)
  Live-Reach (begins w empty_pool calm free) =
      (rw empty_pool (starts w.sockets w.kernel), rw empty_pool tt, free, calm)
  Live-Reach (calls {phase = phase} live c) =
      let (reach, opened, free, calm) = Live-Reach live in
      let (run, inv, opened', free', same) =
        script_calls_step phase (Reach-Inv os capacity beacon room threads reach) opened free c in
      (Runs-Reach run reach, opened', free', same ∙ calm)
  Live-Reach (turns live st) =
      let (reach, opened, free, calm) = Live-Reach live in
      (
        later reach (loops st),
        turned_open st (Reach-Inv os capacity beacon room threads reach) opened,
        λ q h. turned_free st q (free q h),
        calm,
      )
  Live-Reach (moves live k) =
      let (reach, opened, free, calm) = Live-Reach live in
      (later reach (networks k), opened, free, calm)

  -- Whatever scripts call, in whatever order with the read loop and the network: after every call the
  -- check of the pool passes, the game has not been asked to abort, no socket of the pool has seen an
  -- error, and no stream in it its end. Threads can be created, the beacon can hold a byte, the
  -- descriptors of accepted connections fit into an `fd_set`, a socket that is connected or bound is
  -- open with such a descriptor and more can be read of it, and no chunk of a buffer that is read as
  -- a string begins with a zero.
  pub script_never_aborts :
      {w : World K} {phase : Phase}
      → Live os capacity beacon w phase
      → (is_operating w.sockets w.pool ≡ some true) × (aborts w.calls ≡ false) × OpenPool w
  script_never_aborts {w} {phase} live =
      let (reach, opened, free, calm) = Live-Reach live in
      (
        operating-Inv beacon (view w phase) (Reach-Inv os capacity beacon room threads reach),
        calm,
        opened,
      )
