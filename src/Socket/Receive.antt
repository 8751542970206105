-- ===== src/Socket/Receive.antt =====
-- `recv_impl` and `recvfrom_impl` of src/Socket.cpp, with the functions on top of them.
pub mod Leaves
pub mod Laws
pub mod Zeros
pub mod Gives
pub mod Keeps
mod Tests
use agssock.Base.{
  ℕ, Bool, true, false, not, ◌&&◌, Option, none, some, List, [], ◌∷◌, is_empty, c_str, take, ◌==◌,
  if◌then◌else◌,
}
use agssock.Api.Os.{Os, Result, done, failed}
use agssock.Objects.{Socket, update, sock_stream}
use agssock.Buffer.{Buffer, empty, extract_string, extract_data}
use agssock.SockAddr.{SockAddr}
use agssock.Base.Memory.{write_at}
use agssock.World.{World, Call, script_string, register_data, ◌>>=◌, sys, store, asks}

-- The result of the receiving functions: a null pointer, or a string or data object.
abbrev pub Reply : Type 0
Reply = Option (List ℕ)

-- The engine is handed the object that a function returns.
abbrev pub returned : {K : Type 0} → (List ℕ → Call) → Reply → World K → World K
returned call none w = w
returned call (some text) w = asks w (call text)

-- `char buffer[65536]` with its last byte set to zero. `stale` is what the array held before, and
-- `recvfrom` writes at most one byte less than its size.
abbrev pub received_buffer : List ℕ → List ℕ → List ℕ
received_buffer stale bytes = write_at 0 bytes (write_at 65535 (0 ∷ []) stale)

module _ {K : Type 0} (os : Os K) where
  -- `closesocket(sock->id); sock->id = INVALID_SOCKET;`
  abbrev pub invalidate : World K → ℕ → Socket → World K
  invalidate w p sock = store (sys (os.close sock.id) w).1 p (record sock { id = none })

  -- Nothing to read: the error of the read loop is passed on, and closes the socket.
  unfoldable pub recv_nothing : World K → ℕ → Socket → Reply × World K
  recv_nothing w p sock =
      let sock' = record sock { error = sock.incoming.error } in
      if sock.incoming.error == 0 then (none, store w p sock') else (none, invalidate w p sock')

  -- A chunk was taken from the buffer; an empty one on a stream closes the socket.
  unfoldable pub recv_chunk : World K → ℕ → Socket → List ℕ × Buffer → Reply × World K
  recv_chunk w p sock (text, rest) =
      let sock' = record sock { incoming = rest; error = 0 } in
      if is_empty text && (sock.type == sock_stream)
      then (some text, invalidate w p sock')
      else (some text, store w p sock')

  unfoldable pub recv_impl :
      (Buffer → Bool → Option (List ℕ × Buffer)) → ℕ → World K → Option (Reply × World K)
  recv_impl extract p w = do
    sock ← w.sockets p
    if empty sock.incoming
        then some (recv_nothing w p sock)
        else (extract sock.incoming (sock.type == sock_stream) >>= λ r.
            some (recv_chunk w p sock r))

  -- The engine keeps the string or the data object that is returned.
  unfoldable pub recv : ℕ → World K → Option (Reply × World K)
  recv p w = do
    (reply, w') ← recv_impl extract_string p w
    some (reply, returned script_string reply w')

  unfoldable pub recv_data : ℕ → World K → Option (Reply × World K)
  recv_data p w = do
    (reply, w') ← recv_impl (λ b stream. extract_data b) p w
    some (reply, returned register_data reply w')

  -- `recvfrom_impl` up to its return: the bytes received, with the sender's address stored.
  unfoldable pub recvfrom_impl : ℕ → ℕ → World K → Option (Option (List ℕ) × World K)
  recvfrom_impl p addr w = do
    sock ← w.sockets p
    sender ← w.addrs addr
    let call = sys (os.recv_from sock.id 65535) w
    some (elim call.0 [
      | failed e ↦ (none, store call.1 p (record sock { error = call.1.errno }))
      | done (bytes, name) ↦ (
        some bytes,
        store
            (record (call.1) {
              addrs = update w.addrs addr (some (record { bytes = write_at 0 name sender.bytes }));
            })
            p (record sock { error = call.1.errno }),
      )
    ])

  -- `recvfrom_return` for strings and for data objects: the former ends at the first zero of the
  -- array, whatever the number of bytes received.
  abbrev pub return_string : List ℕ → World K → Reply × World K
  return_string buffer w = (some (c_str buffer), asks w (script_string (c_str buffer)))

  abbrev pub return_data : List ℕ → World K → Reply × World K
  return_data bytes w = (some bytes, asks w (register_data bytes))

  unfoldable pub recv_from : List ℕ → ℕ → ℕ → World K → Option (Reply × World K)
  recv_from stale p addr w = do
    (got, w') ← recvfrom_impl p addr w
    some (elim got [
      | none ↦ (none, w')
      | some bytes ↦ return_string (received_buffer stale bytes) w'
    ])

  unfoldable pub recv_data_from : ℕ → ℕ → World K → Option (Reply × World K)
  recv_data_from p addr w = do
    (got, w') ← recvfrom_impl p addr w
    some (elim got [ none ↦ (none, w') | some bytes ↦ return_data bytes w' ])
