-- ===== src/Socket/References/Tests.antt =====
-- A game in which a socket is created and asked for its address.
use agssock.Base.{◌+◌, ◌≡◌, refl, none, some, [], arith}
use agssock.Pool.{new_pool}
use agssock.World.{World}
use agssock.Socket.Samples.{Net, sample_os, sample_socket, sample_world}
use agssock.Socket.Create.{create, setblocking, get_local}
use agssock.Socket.System.Script.{begins, calls, creates, asks_local}
use agssock.Socket.References.{holds, releases, all_references}
use agssock.Socket.References.Games.{references_balance}

-- No socket is allocated.
abbrev bare : World Net
bare = record (sample_world (sample_socket 1 6 []) [] []) { sockets = λ p. none; pool = new_pool }

abbrev created : World Net
created = (create sample_os 2 1 6 bare).1

asked : (w : World Net) × (get_local sample_os 10 created ≡ some (11, w))
unfolding create setblocking get_local
asked = (_, refl)

references_balance_example :
    holds 11 asked.0.calls + 0
    ≡ releases 11 asked.0.calls + all_references 11 asked.0.next asked.0.sockets
references_balance_example =
    references_balance sample_os 16 3 (omega arith) (λ k. refl) 11
      (calls (calls (begins bare refl refl (λ q h. refl)) (creates 2 1 6))
        (asks_local 10 11 asked.1))
      refl (λ q. refl)
