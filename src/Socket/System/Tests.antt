-- ===== src/Socket/System/Tests.antt =====
-- Scripts over the test system: a socket that connects, and one that is closed while the pool holds it.
use agssock.Base.{◌≡◌, refl, inl, inr, true, false, some, [], ◌∷◌, arith, ◌==◌}
use agssock.Objects.{Socket}
use agssock.Pool.{new_pool, is_operating}
use agssock.Pool.Round.{usable}
use agssock.Pool.Reading.{IsUsable}
use agssock.Pool.System.{collecting, after_start, Inv}
use agssock.World.{World}
use agssock.Socket.Samples.{Net, sample_os, sample_socket, sample_addr, sample_world}
use agssock.Socket.Connect.{connect_call}
use agssock.Socket.Connect.Connecting.{connect_joins}
use agssock.Socket.Connect.Closing.{close_lem}
use agssock.Socket.System.{view, Runs, OpenPool, aborts, Fresh}
use agssock.Socket.System.Script.{begins, calls, connects, closes}
use agssock.Socket.System.Safety.{script_never_aborts, script_calls_step}

abbrev plain : Socket
plain = sample_socket 1 6 []

-- No socket is in the pool yet.
abbrev at_first : World Net
at_first = record (sample_world plain [] []) { pool = new_pool }

abbrev connected : World Net
connected =
    (connect_joins sample_os 16 9 3 4 false plain sample_addr at_first (inl refl, tt) refl refl refl
      tt (λ k. refl)).0

plain-IsUsable : (w : World Net) → w.sockets 9 ≡ some plain → IsUsable w.sockets 9
unfolding usable
plain-IsUsable w at = (4, rw at refl)

at_first-Fresh : Fresh at_first
at_first-Fresh q h = let other : (9 == q) ≡ false = ground arith in rw other refl

script_never_aborts_example :
    (is_operating connected.sockets connected.pool ≡ some true)
    × (aborts connected.calls ≡ false)
    × OpenPool connected
unfolding connect_call
script_never_aborts_example =
    script_never_aborts sample_os 16 3 (omega arith) (λ k. refl)
      (calls (begins at_first refl refl at_first-Fresh) (
        connects 9 3 false true (plain-IsUsable at_first refl) (plain, refl, (refl, inr tt))
          (connect_joins sample_os 16 9 3 4 false plain sample_addr at_first (inl refl, tt) refl
            refl refl tt (λ k. refl)).1))

-- The pool holds the socket, and its thread is before a round.
abbrev held : World Net
held = sample_world plain [] (9 ∷ [])

held-Inv : Inv 3 (view held collecting)
held-Inv = record {
  sound = record {
    distinct = (refl, tt);
    sockets_usable = (plain-IsUsable held refl, tt);
    running = refl;
    awake = inr refl;
    listens = tt;
  };
  threaded = inr refl;
}

held-Fresh : Fresh held
held-Fresh q h = let other : (9 == q) ≡ false = ground arith in rw other refl

abbrev closed_world : World Net
closed_world =
    (close_lem sample_os 16 9 4 plain held (inr refl, ((plain, 4, refl, refl), tt)) (refl, tt) refl
      refl (omega arith)).0

script_calls_step_example :
    Runs sample_os 16 3
      (view held collecting)
      (view closed_world (after_start held.pool.thread closed_world.pool.thread collecting))
    × Inv 3 (view closed_world (after_start held.pool.thread closed_world.pool.thread collecting))
    × OpenPool closed_world
    × Fresh closed_world
    × (aborts closed_world.calls ≡ aborts held.calls)
script_calls_step_example =
    script_calls_step sample_os 16 3 (omega arith) (λ k. refl) collecting held-Inv
      ((plain, refl, (refl, inr tt)), tt) held-Fresh
      (closes 9
        (close_lem sample_os 16 9 4 plain held (inr refl, ((plain, 4, refl, refl), tt)) (refl, tt)
          refl refl (omega arith)).1)
