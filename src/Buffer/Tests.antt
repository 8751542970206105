-- ===== src/Buffer/Tests.antt =====
-- Buffers of a few chunks.
use agssock.Base.{ℕ, ◌≡◌, refl, true, false, some, List, [], ◌∷◌, arith}
use agssock.Buffer.{extract_string, Buffer, new_buffer}
use agssock.Buffer.Lines.{frame, read_strings, deliver, strings_round_trip}
use agssock.Buffer.Stream.{Stream, take_string, text_mark, Agrees, string_refines}
use agssock.Buffer.Packets.{read_packets, enqueue, packets_in_order}

abbrev words : List (List ℕ)
words = (72 ∷ 105 ∷ []) ∷ (33 ∷ []) ∷ []

abbrev cuts : List (List ℕ)
cuts = (72 ∷ []) ∷ (105 ∷ 0 ∷ 33 ∷ []) ∷ (0 ∷ []) ∷ []

strings_round_trip_example : read_strings 2 (deliver new_buffer cuts) ≡ some (words, new_buffer)
unfolding frame agssock.Base.flatten
strings_round_trip_example = strings_round_trip words cuts (ground arith) (ground arith) refl

abbrev one_packet : Buffer
one_packet = record { queue = (7 ∷ []) ∷ []; error = 0 }

packets_in_order_example :
    read_packets 2 (enqueue one_packet ([] ∷ []))
    ≡ some ((7 ∷ []) ∷ [] ∷ [], record { queue = []; error = 0 })
packets_in_order_example = packets_in_order one_packet ([] ∷ [])

-- Text that arrived in one piece, before and after the end of the stream.
abbrev arrived : Buffer
arrived = record { queue = (72 ∷ 0 ∷ 33 ∷ []) ∷ []; error = 0 }

abbrev arrived_stream : Stream
arrived_stream = record { text = 72 ∷ 0 ∷ 33 ∷ []; ended = false }

abbrev finished : Buffer
finished = record { queue = (72 ∷ 0 ∷ 33 ∷ []) ∷ [] ∷ []; error = 0 }

abbrev finished_stream : Stream
finished_stream = record { text = 72 ∷ 0 ∷ 33 ∷ []; ended = true }

string_refines_example : Agrees 0 (extract_string finished true) (take_string finished_stream)
string_refines_example = string_refines finished finished_stream (text_mark 72 (0 ∷ 33 ∷ []))
