-- ===== src/Socket/Saved/Tests.antt =====
-- A socket with a tag of three characters and one address, in a buffer for two of them.
use agssock.Base.{
  zero, suc, ◌+◌, ◌≡◌, ◌≤◌, refl, min, none, some, [], ◌∷◌, length, take, replicate, arith,
}
use agssock.Buffer.{new_buffer}
use agssock.Objects.{Socket}
use agssock.Socket.Samples.{sample_socket}
use agssock.Socket.Saved.{Keys, serial_size, serialize, unserialize}
use agssock.Socket.Saved.Laws.{serialize_fits, unserialize-serialize_socket}

-- Keys of the engine: one more than the object's number, and zero for none.
abbrev sample_keys : Keys
sample_keys = record {
  key_of = λ o. elim o [ none ↦ 0 | some a ↦ a + 1 ];
  address_of = λ k. elim k [ zero ↦ none | suc a ↦ some a ];
}

abbrev tagged : Socket
tagged = record (sample_socket 1 6 []) { tag = 97 ∷ 98 ∷ 99 ∷ []; remote = some 3 }

serialize_fits_example :
    (length (serialize sample_keys tagged 26) ≤ 26)
    × (length (serialize sample_keys tagged 26) ≡ min 26 (serial_size + length tagged.tag))
serialize_fits_example = serialize_fits sample_keys tagged 26

unserialize-serialize_socket_example :
    unserialize sample_keys (replicate 24 0) (serialize sample_keys tagged 26)
    ≡ record tagged { id = none; tag = take 2 tagged.tag; incoming = new_buffer }
unserialize-serialize_socket_example =
    unserialize-serialize_socket sample_keys tagged (replicate 24 0) 26
      (record {
        domain = omega arith;
        type = omega arith;
        protocol = omega arith;
        error = omega arith;
        local = omega arith;
        remote = omega arith;
      })
      (refl, refl) refl (omega arith)
