-- ===== src/Socket/Stream/Tests.antt =====
-- Two strings in three chunks.
use agssock.Base.{ℕ, ◌≡◌, refl, Option, none, some, List, [], ◌∷◌, map, flatten, arith}
use agssock.Objects.{Socket, Heap}
use agssock.Buffer.{new_buffer}
use agssock.Buffer.Lines.{frame}
use agssock.Pool.Round.{usable}
use agssock.World.{World}
use agssock.Socket.Samples.{Net, sample_os, sample_socket, sample_world}
use agssock.Socket.Stream.{rounds, recvs, answer, end_of, stream_reaches_script}

abbrev words : List (List ℕ)
words = (72 ∷ 105 ∷ []) ∷ (33 ∷ []) ∷ []

abbrev chunks : List (List ℕ)
chunks = (72 ∷ []) ∷ (105 ∷ 0 ∷ 33 ∷ []) ∷ (0 ∷ []) ∷ []

abbrev stream : Socket
stream = sample_socket 1 6 []

abbrev drained : Net
drained = record { taken = []; plan = []; inbox = [] }

abbrev arriving : World Net
arriving = record (sample_world stream [] (9 ∷ [])) { kernel = record drained { inbox = chunks } }

stream_reaches_script_example :
    (h' : Heap) × (w' : World Net) × (sock' : Socket) × (rounds sample_os
        (4 ∷ [])
        3
        arriving.sockets
        (9 ∷ [])
        arriving.kernel
      ≡ some (9 ∷ [], h', drained))
    × (recvs sample_os 2 9 (record arriving { sockets = h'; kernel = drained })
        ≡ some (map some words, w'))
    × (w'.sockets 9 ≡ some sock')
    × (sock'.id ≡ stream.id)
    × (sock'.incoming ≡ new_buffer)
unfolding frame agssock.Base.flatten usable
stream_reaches_script_example =
    stream_reaches_script sample_os words chunks 9 4 drained arriving stream refl refl refl refl
      (ground arith) (ground arith) refl (answer refl (answer refl (answer refl end_of)))
