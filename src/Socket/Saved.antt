-- ===== src/Socket/Saved.antt =====
-- `AGSSocket::Serialize` and `AGSSocket::Unserialize` of src/Socket.cpp: what of a socket is written
-- to a saved game. The keys of managed objects are the engine's.
pub mod Laws
mod Tests
use agssock.Base.{
  ℕ, suc, ◌+◌, ◌-◌, ◌*◌, ◌/◌, ◌%◌, ◌^◌, min, Option, none, some, List, [], ◌∷◌, ◌++◌, length, take,
  drop, get_or,
}
use agssock.Base.Memory.{write_at, slice}
use agssock.Buffer.{new_buffer}
use agssock.Objects.{Socket, update}
use agssock.World.{World, restore_socket, store, asks}

-- `GetManagedObjectKeyByAddress` and `GetManagedObjectAddressByKey`
pub record Keys : Type 0 where
  pub key_of : Option ℕ → ℕ
  pub address_of : ℕ → Option ℕ

-- An `int32_t` in a packed struct, the low byte first
abbrev pub int_bytes : ℕ → List ℕ
int_bytes x = x % 256 ∷ x / 2 ^ 8 % 256 ∷ x / 2 ^ 16 % 256 ∷ x / 2 ^ 24 % 256 ∷ []

abbrev pub int_at : List ℕ → ℕ → ℕ
int_at block off =
    get_or block off 0
    + 2 ^ 8 * get_or block (off + 1) 0
    + 2 ^ 16 * get_or block (off + 2) 0
    + 2 ^ 24 * get_or block (off + 3) 0

-- `sizeof (AGSSocketSerial)`
abbrev pub serial_size : ℕ
serial_size = 24

abbrev pub serial_bytes : Keys → Socket → List ℕ
serial_bytes keys sock =
    int_bytes sock.domain
    ++ (int_bytes sock.type
        ++ (int_bytes sock.protocol
            ++ (int_bytes sock.error
                ++ (int_bytes (keys.key_of sock.local) ++ int_bytes (keys.key_of sock.remote)))))

-- What is written to a buffer of `size` bytes: the struct, and what fits of the tag.
unfoldable pub serialize : Keys → Socket → ℕ → List ℕ
serialize keys sock size =
    let head = min size serial_size in
    take head (serial_bytes keys sock) ++ take (size - head) sock.tag

-- The socket that the bytes make; `fresh` is what the struct holds before the copy.
unfoldable pub unserialize : Keys → List ℕ → List ℕ → Socket
unserialize keys fresh buffer =
    let head = min (length buffer) serial_size in
    let serial = write_at 0 (take head buffer) fresh in
    record {
      id = none;
      domain = int_at serial 0;
      type = int_at serial 4;
      protocol = int_at serial 8;
      error = int_at serial 12;
      local = keys.address_of (int_at serial 16);
      remote = keys.address_of (int_at serial 20);
      tag = drop head buffer;
      incoming = new_buffer;
    }

-- The new object is registered at the engine under the key that it had.
unfoldable pub restore : {K : Type 0} → Keys → List ℕ → ℕ → List ℕ → World K → World K
unfolding unserialize
restore keys fresh key buffer w =
    asks (store (record w { next = suc w.next }) w.next (unserialize keys fresh buffer))
      (restore_socket key w.next)
