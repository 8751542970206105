-- ===== src/Socket/Saved/Laws.antt =====
-- What comes back from a saved game, and that writing it stays inside the engine's buffer.
use agssock.Base.{
  ℕ, ◌+◌, ◌-◌, ◌^◌, ◌<◌, ◌≤◌, min, ◌≡◌, refl, sym, ◌∙◌, none, List, ◌++◌, length, take,
  length-append, length-take, arith,
}
use agssock.Base.Memory.{write_at_all}
use agssock.Buffer.{new_buffer}
use agssock.Objects.{Socket}
use agssock.Socket.Saved.{
  Keys, int_bytes, int_at, serial_size, serial_bytes, serialize, unserialize,
}

-- The whole number comes back.
int_lem : (x : ℕ) → x < 2 ^ 32 → int_at (int_bytes x) 0 ≡ x
int_lem x h = omega arith

-- The fields of a socket are 32-bit patterns.
pub record IsInt32 (keys : Keys) (sock : Socket) : Type 0 where
  pub domain : sock.domain < 2 ^ 32
  pub type : sock.type < 2 ^ 32
  pub protocol : sock.protocol < 2 ^ 32
  pub error : sock.error < 2 ^ 32
  pub local : keys.key_of sock.local < 2 ^ 32
  pub remote : keys.key_of sock.remote < 2 ^ 32

-- The engine finds an object again by the key that it gave for it.
abbrev pub Knows : Keys → Socket → Type 0
Knows keys sock =
    (keys.address_of (keys.key_of sock.local) ≡ sock.local)
    × (keys.address_of (keys.key_of sock.remote) ≡ sock.remote)

-- `Serialize` writes at most as many bytes as the buffer has: the struct of 24 bytes, or what fits of
-- it, and behind it as much of the tag as fits.
pub serialize_fits :
    (keys : Keys) (sock : Socket) (size : ℕ)
    → (length (serialize keys sock size) ≤ size)
      × (length (serialize keys sock size) ≡ min size (serial_size + length sock.tag))
unfolding serialize
serialize_fits keys sock size =
    let n : length (serialize keys sock size)
        ≡ min (min size 24) 24 + min (size - min size 24) (length sock.tag) =
      length-append (take (min size 24) (serial_bytes keys sock))
        (take (size - min size 24) sock.tag)
      ∙ rw
          (
            length-take (min size 24) (serial_bytes keys sock),
            length-take (size - min size 24) sock.tag,
          )
          refl in
    (omega arith, omega arith)

-- A socket comes back from a buffer that holds the struct, with its kind, its error and its
-- addresses, and with what fits of its tag, if the engine finds the addresses by their keys; it is
-- invalid, and its input is empty.
pub unserialize-serialize_socket :
    (keys : Keys) (sock : Socket) (fresh : List ℕ) (size : ℕ)
    → IsInt32 keys sock
    → Knows keys sock
    → length fresh ≡ serial_size
    → serial_size ≤ size
    → unserialize keys fresh (serialize keys sock size)
      ≡ record sock { id = none; tag = take (size - serial_size) sock.tag; incoming = new_buffer }
unfolding serialize unserialize
unserialize-serialize_socket keys sock fresh size ints (local, remote) full room =
    let head : min size 24 ≡ 24 = omega arith in
    let rest : List ℕ = take (size - 24) sock.tag in
    let read : min (length (serial_bytes keys sock ++ rest)) 24 ≡ 24 = omega arith in
    rw (head, read, write_at_all (serial_bytes keys sock) fresh (sym full))
      (rw
        (
          int_lem sock.domain ints.domain,
          int_lem sock.type ints.type,
          int_lem sock.protocol ints.protocol,
          int_lem sock.error ints.error,
          int_lem (keys.key_of sock.local) ints.local,
          int_lem (keys.key_of sock.remote) ints.remote,
          local,
          remote,
        )
        refl)
