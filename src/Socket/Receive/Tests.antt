-- ===== src/Socket/Receive/Tests.antt =====
-- Reads of a socket with some input, and of a datagram.
use agssock.Base.{
  ℕ, ◌≡◌, ◌≢◌, refl, some, List, [], ◌∷◌, length, replicate, length-replicate, arith, true, inr,
}
use agssock.Objects.{Socket}
use agssock.Buffer.Stream.{Stream, text_mark, take_string}
use agssock.World.{World}
use agssock.Socket.Samples.{Net, sample_os, sample_socket, sample_addr, sample_world}
use agssock.Socket.Receive.{Reply, recv, recv_from, recv_data_from}
use agssock.Socket.Receive.Leaves.{Leaves}
use agssock.Socket.Receive.Laws.{Received, Kernel, recv_reads_string}
use agssock.Socket.Receive.Keeps.{recv_keeps_pool}
use agssock.Socket.Connect.Joins.{Operating}
use agssock.Socket.Receive.Zeros.{recv_from_runs_on}

abbrev reading : Socket
reading = sample_socket 1 6 ((72 ∷ 0 ∷ 33 ∷ []) ∷ [] ∷ [])

abbrev read_stream : Stream
read_stream = record { text = 72 ∷ 0 ∷ 33 ∷ []; ended = true }

recv_reads_string_example :
    (reply : Reply) × (w' : World Net) × (sock' : Socket) × (recv sample_os 9
        (sample_world reading [] [])
      ≡ some (reply, w'))
    × Received (take_string read_stream) reading reply sock'
    × Leaves (sample_world reading [] []) 9 sock' w'
    × Kernel sample_os
        (take_string read_stream)
        reading
        (sample_world reading [] []).kernel
        w'.kernel
recv_reads_string_example =
    recv_reads_string sample_os (sample_world reading [] []) 9 reading read_stream refl refl
      (text_mark 72 (0 ∷ 33 ∷ []))

-- An array that holds an exclamation mark behind the place of the datagram.
unfoldable behind : List ℕ
behind = replicate 65533 0

abbrev stale : List ℕ
stale = 0 ∷ 0 ∷ 33 ∷ behind

length-stale : length stale ≡ 65536
unfolding behind
length-stale = omega (arith, length-replicate {A = ℕ} 65533 0)

abbrev datagram : Socket
datagram = sample_socket 2 17 []

recv_from_runs_on_example :
    (text : List ℕ) × (w' w'' : World Net) × (recv_from sample_os stale 9 3
        (sample_world datagram [] [])
      ≡ some (some text, w'))
    × (text ≢ 72 ∷ 105 ∷ [])
    × (recv_data_from sample_os 9 3 (sample_world datagram [] [])
        ≡ some (some (72 ∷ 105 ∷ []), w''))
recv_from_runs_on_example =
    recv_from_runs_on sample_os (sample_world datagram [] []) 9 3 datagram sample_addr
      (record { taken = []; plan = []; inbox = [] }) (72 ∷ 105 ∷ []) (2 ∷ 0 ∷ []) stale behind 33
      refl refl refl (omega arith) (omega arith) length-stale refl (omega arith)

abbrev in_pool : World Net
in_pool = sample_world (sample_socket 1 6 ((72 ∷ 105 ∷ []) ∷ [])) [] (9 ∷ [])

recv_keeps_pool_example :
    (reply : Reply) × (w' : World Net) × (recv sample_os 9 in_pool ≡ some (reply, w'))
    × Operating w'
recv_keeps_pool_example =
    recv_keeps_pool sample_os in_pool 9 (sample_socket 1 6 ((72 ∷ 105 ∷ []) ∷ []))
      (inr refl, ((sample_socket 1 6 ((72 ∷ 105 ∷ []) ∷ []), 4, refl, refl), tt))
      ((sample_socket 1 6 ((72 ∷ 105 ∷ []) ∷ []), refl, (refl, inr (refl, tt))), tt) refl
      (omega arith)
