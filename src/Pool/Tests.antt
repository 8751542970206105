-- ===== src/Pool/Tests.antt =====
-- A pool with one open socket, over a system whose calls all fail.
use agssock.Base.{
  is_empty, List, ℕ, ◌≡◌, ◌<◌, ◌⊎◌, ◌↔◌, refl, true, false, ◌&&◌, if◌then◌else◌, some, none, [],
  ◌∷◌, elem, All, arith, inr,
}
use agssock.Api.Os.{Os, failed}
use agssock.Api.Thread.{start, destroy, left_alone, cancelled}
use agssock.Buffer.{new_buffer}
use agssock.Objects.{Socket, Heap, update}
use agssock.Pool.{Pool, add, remove, erase, clear, new_pool}
use agssock.Pool.Round.{usable, Request, collect, pass, collect_from, read_one}
use agssock.Pool.Reading.{IsUsable, IsListed}
use agssock.Pool.Deliver.{Outcome, pass_lem}
use agssock.Pool.System.Keeps.{Step-Inv}
use agssock.Pool.Sets.{Distinct, ThreadRuns, set_operations}
use agssock.Pool.System.{
  System, Reach, starts, later, loops, collects, adds, removes, selecting, Step, Sound, with_pool,
  stopped, is_running,
}
use agssock.Pool.Open.{IsOpenAt, pass_keeps_open}
use agssock.Pool.System.Ending.{destructor_by_phase}
use agssock.Pool.System.Safety.{no_lost_wakeup, Reach-Inv, empty_pool_stops, LoopRun}

abbrev pub opened : Socket
opened = record {
  id = some 4;
  domain = 2;
  type = 1;
  protocol = 6;
  error = 0;
  local = none;
  remote = none;
  tag = [];
  incoming = new_buffer;
}

abbrev heap : Heap
heap = update (λ p. none) 9 (some opened)

abbrev pub one_socket : Pool
one_socket = record new_pool { sockets = 9 ∷ []; thread = record { active = true } }

set_operations_example :
    (elem 8 (add 16 true 8 one_socket).sockets ≡ true)
    × (elem 9 (add 16 true 8 one_socket).sockets ≡ elem 9 one_socket.sockets)
    × Distinct (add 16 true 8 one_socket).sockets
    × (elem 8 (remove 16 8 one_socket).sockets ≡ false)
    × (elem 9 (remove 16 8 one_socket).sockets ≡ elem 9 one_socket.sockets)
    × Distinct (remove 16 8 one_socket).sockets
    × (elem 9 (clear 16 one_socket).sockets ≡ false)
set_operations_example = set_operations 16 true 8 9 one_socket (refl, tt) (omega arith)

abbrev pub failing : Os ℕ
failing = record {
  socket = λ d t p k. (failed 1, k);
  get_flags = λ id k. (failed 1, k);
  set_flags = λ id f k. (failed 1, k);
  bind = λ id a k. (failed 1, k);
  listen = λ id n k. (failed 1, k);
  connect = λ id a k. (failed 1, k);
  accept = λ id k. (failed 1, k);
  shutdown = λ id k. (failed 1, k);
  close = λ id k. (failed 1, k);
  wait_readable = λ fd n k. (failed 1, k);
  send = λ id t k. (failed 1, k);
  send_to = λ id a t k. (failed 1, k);
  recv = λ id n k. (failed 1, k);
  recv_from = λ id n k. (failed 1, k);
  local_name = λ id k. (failed 1, k);
  peer_name = λ id k. (failed 1, k);
  thread_starts = λ k. true;
}

abbrev idle : System ℕ
idle = record { pool = new_pool; heap = heap; kernel = 0; phase = stopped }

abbrev joined : System ℕ
joined = with_pool idle (add 16 true 9 new_pool)

abbrev emptied : System ℕ
emptied = record joined { pool = remove 16 9 joined.pool }

-- The states are reached by an `add`, and by a `remove` after it.
joined-Reach : Reach failing 16 3 joined
unfolding usable
joined-Reach = later (starts heap 0) (adds 9 (4, refl))

emptied-Reach : Reach failing 16 3 emptied
emptied-Reach = later joined-Reach (removes 9)

empty_pool_stops_example :
    (t : System ℕ) × LoopRun failing 16 3 (omega arith) emptied t
    × (t.phase ≡ stopped)
    × (t.pool.thread.active ≡ false)
unfolding add remove erase
empty_pool_stops_example = empty_pool_stops failing 16 3 (omega arith) emptied-Reach refl

-- The request that the thread makes for the joined socket, and the state in which it waits.
abbrev request : Request
request = record { read = 4 ∷ 3 ∷ []; nfds = 4 }

abbrev waiting : System ℕ
waiting = record joined { phase = selecting request }

waits : Step failing 16 3 joined waiting
unfolding collect collect_from usable add start
waits = loops (collects request refl refl)

waiting-Reach : Reach failing 16 3 waiting
waiting-Reach = later joined-Reach waits

no_lost_wakeup_example :
    (elem 3 request.read ≡ true)
    × ((0 < waiting.pool.beacon.pending)
        ⊎ ((is_empty waiting.pool.sockets ≡ false)
            × All (IsListed waiting.heap request.read) waiting.pool.sockets))
no_lost_wakeup_example = no_lost_wakeup failing 16 3 (omega arith) waiting-Reach request refl

Step-Inv_example :
    Sound 3 waiting × (ThreadRuns waiting.pool ⊎ (failing.thread_starts joined.kernel ≡ false))
Step-Inv_example =
    Step-Inv failing 16 3 (omega arith) waits
      (Reach-Inv failing 16 3 (omega arith) (λ k. refl) joined-Reach)

opened-IsUsable : IsUsable heap 9
unfolding usable
opened-IsUsable = (4, refl)

pass_lem_example :
    (rest : List ℕ) × (h' : Heap) × (k' : ℕ) × (pass failing (4 ∷ []) heap (9 ∷ []) 0
      ≡ some (rest, h', k'))
    × Outcome failing (4 ∷ []) 9 4 opened rest h'
    × (h' 8 ≡ heap 8)
    × (elem 8 rest ≡ false)
unfolding usable
pass_lem_example =
    pass_lem failing (4 ∷ []) heap (9 ∷ []) 0 9 8 4 opened (refl, tt) (opened-IsUsable, tt) refl
      refl refl refl

-- The socket is not reported, so it stays as it is.
pass_keeps_open_example : All (IsOpenAt heap) (9 ∷ [])
unfolding pass read_one usable
pass_keeps_open_example =
    pass_keeps_open failing [] heap (9 ∷ []) 0 (9 ∷ []) heap 0 (refl, tt)
      ((opened, refl, (refl, inr tt)), tt) refl

destructor_by_phase_example :
    (destroy true true false joined.pool.thread ≡ (
      if is_running joined.phase
      then (if true && true && false then agssock.Api.Thread.joined else cancelled)
      else left_alone))
    × ((destroy true true false joined.pool.thread ≡ left_alone) ↔ (joined.phase ≡ stopped))
destructor_by_phase_example = destructor_by_phase 16 3 true true false (omega arith) joined-Reach
