-- ===== src/Socket/Send.antt =====
-- `send_impl` and `sendto_impl` of src/Socket.cpp, with the functions on top of them.
pub mod Loop
pub mod Laws
mod Tests
use agssock.Base.{
  ℕ, zero, suc, Bool, true, false, Option, none, some, List, [], ◌∷◌, length, drop, c_str,
  if◌then◌else◌,
}
use agssock.Errors.{would_block}
use agssock.Api.Os.{Os, Result, done, failed}
use agssock.SockAddr.{SockAddr}
use agssock.SockData.{SockData}
use agssock.World.{World, ◌>>=◌, errno_after, store}

-- `sock->error = GET_ERROR(); if (WOULD_BLOCK(sock->error)) sock->error = 0;`
abbrev pub error_of : ℕ → ℕ
error_of e = if would_block e then 0 else e

module _ {K : Type 0} where
  -- The loop of both functions, over the call that sends: `true` is an end with nothing left, and
  -- `false` the `break` on an error. `none` is only for want of fuel: see `send_loop_lem`.
  unfoldable pub send_loop :
      (List ℕ → K → Result ℕ × K) → ℕ → List ℕ → World K → Option (Bool × World K)
  send_loop call fuel [] w = some (true, w)
  send_loop call zero (x ∷ xs) w = none
  send_loop call (suc fuel) (x ∷ xs) w = elim (call (x ∷ xs) w.kernel).0 [
    | failed e ↦ some (false, record w { kernel = (call (x ∷ xs) w.kernel).1; errno = e })
    | done n ↦
        send_loop call fuel (drop n (x ∷ xs)) (record w { kernel = (call (x ∷ xs) w.kernel).1 })
  ]

module _ {K : Type 0} (os : Os K) where
  unfoldable pub send_impl : ℕ → List ℕ → World K → Option (Bool × World K)
  send_impl p text w = do
    sock ← w.sockets p
    (sent, w') ← send_loop (os.send sock.id) (length text) text w
    some (sent, store w' p (record sock { error = error_of w'.errno }))

  unfoldable pub send : ℕ → List ℕ → World K → Option (Bool × World K)
  unfolding send_impl
  send p str w = send_impl p (c_str str) w

  unfoldable pub send_data : ℕ → SockData → World K → Option (Bool × World K)
  unfolding send_impl
  send_data p d w = send_impl p d.text w

  unfoldable pub sendto_impl : ℕ → ℕ → List ℕ → World K → Option (Bool × World K)
  sendto_impl p addr text w = do
    sock ← w.sockets p
    target ← w.addrs addr
    (sent, w') ← send_loop (os.send_to sock.id target.bytes) (length text) text w
    some (sent, store w' p (record sock { error = error_of w'.errno }))

  unfoldable pub send_to : ℕ → ℕ → List ℕ → World K → Option (Bool × World K)
  unfolding sendto_impl
  send_to p addr str w = sendto_impl p addr (c_str str) w

  unfoldable pub send_data_to : ℕ → ℕ → SockData → World K → Option (Bool × World K)
  unfolding sendto_impl
  send_data_to p addr d w = sendto_impl p addr d.text w
