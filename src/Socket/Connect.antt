-- ===== src/Socket/Connect.antt =====
-- The functions of src/Socket.cpp that connect, bind, accept and close sockets, and their disposal.
-- The functions of the pool are given the capacity of the beacon's pipe.
pub mod Joins
pub mod Connecting
pub mod Serving
pub mod Closing
pub mod Disposal
mod Tests
use agssock.Base.{
  ℕ, suc, ◌+◌, ◌-◌, ◌/◌, ◌%◌, ◌^◌, Bool, true, false, ◌&&◌, Option, none, some, List, [], ◌∷◌, ltb,
  ◌==◌, if◌then◌else◌, int_of_ags, ags_of_int, is_negative,
}
use agssock.Base.Memory.{write_at}
use agssock.Errors.{already}
use agssock.Buffer.{new_buffer}
use agssock.Api.Os.{Os, Result, done, failed}
use agssock.Objects.{Socket, update, sock_stream, sock_dgram}
use agssock.SockAddr.{SockAddr, af_inet, af_inet6}
use agssock.SockAddr as Addr
use agssock.World.{
  World, Call, register_socket, register_addr, hold, release, ◌>>=◌, sys, store, asks, pool_add,
  pool_remove, check_pool_invariant,
}
use agssock.Socket.Send.{error_of}
use agssock.Socket.Create.{
  ipproto_tcp, ipproto_udp, somaxconn, is_done, descriptor, setblocking, new_socket, create,
  create_udp, create_tcp, create_udpv6, create_tcpv6, update_name, refresh, held_addr, get_local,
  get_remote, listen,
}

-- The socket of a connection, of the kind of the socket that accepts it
abbrev pub accepted_socket : ℕ → Socket → Socket
accepted_socket conn sock = record {
  id = some conn;
  domain = sock.domain;
  type = sock.type;
  protocol = sock.protocol;
  error = 0;
  local = none;
  remote = none;
  tag = [];
  incoming = new_buffer;
}

module _ {K : Type 0} (os : Os K) where
  -- The call of `connect`, blocking unless `async`
  unfoldable pub connect_call : Socket → List ℕ → Bool → World K → Result (Unit {0}) × World K
  unfolding setblocking
  connect_call sock target async w =
      if async
      then sys (os.connect sock.id target) w
      else (let (r, w₁) = sys (os.connect sock.id target) (setblocking os sock.id true w) in
          (r, setblocking os sock.id false w₁))

-- The engine is told that a socket lets go of an address.
abbrev pub released : {K : Type 0} → Option ℕ → World K → World K
released none w = w
released (some addr) w = asks w (release addr)

module _ {K : Type 0} (os : Os K) (capacity : ℕ) where
  -- `pool->add(sock); CheckPoolInvariant();`
  unfoldable pub join_pool : ℕ → World K → Option (World K)
  join_pool p w = check_pool_invariant (pool_add os capacity w p)

  unfoldable pub bind : ℕ → ℕ → World K → Option (Bool × World K)
  unfolding join_pool refresh
  bind p addr w = do
    sock ← w.sockets p
    target ← w.addrs addr
    let (r, w₁) = sys (os.bind sock.id target.bytes) w
    w₂ ← refresh os os.local_name sock.id sock.local (store w₁ p (record sock { error = w₁.errno }))
    if is_done r && (sock.protocol == ipproto_udp)
        then (join_pool p w₂ >>= λ w₃. some (true, w₃))
        else some (is_done r, w₂)

  unfoldable pub connect : ℕ → ℕ → Bool → World K → Option (Bool × World K)
  unfolding connect_call join_pool refresh
  connect p addr async w = do
    sock ← w.sockets p
    target ← w.addrs addr
    let (r, w₁) = connect_call os sock target.bytes async w
    let w₂ = store w₁ p (record sock { error = if already w₁.errno then 0 else w₁.errno })
    if is_done r
        then (do
          w₃ ← refresh os os.peer_name sock.id sock.remote w₂
          w₄ ← join_pool p w₃
          some (true, w₄))
        else some (false, w₂)

  -- The part of `Socket_Accept` behind its early return
  unfoldable pub take_connection : ℕ → Socket → World K → Option (Option ℕ × World K)
  unfolding setblocking join_pool
  take_connection conn sock w = do
    let (q, w₁) = new_socket os (accepted_socket conn sock) w
    w₂ ← join_pool q (setblocking os (some conn) false w₁)
    some (some q, w₂)

  -- What follows the call of `accept`, by its result
  unfoldable pub after_accept : ℕ → Socket → Result ℕ → World K → Option (Option ℕ × World K)
  unfolding take_connection
  after_accept p sock (failed e) w =
      some (none, store w p (record sock { error = error_of w.errno }))
  after_accept p sock (done conn) w =
      take_connection conn sock (store w p (record sock { error = error_of w.errno }))

  unfoldable pub accept : ℕ → World K → Option (Option ℕ × World K)
  unfolding after_accept
  accept p w = do
    sock ← w.sockets p
    let (r, w₁) = sys (os.accept sock.id) w
    after_accept p sock r w₁

  -- The forced close: out of the pool, and then closed
  unfoldable pub force_close : ℕ → Socket → World K → World K
  force_close p sock w =
      let (r, w₁) = sys (os.close sock.id) (pool_remove capacity w p) in
      store w₁ p (record sock { id = none; error = w₁.errno })

  -- The answer of `select` decides whether the socket is closed now.
  unfoldable pub after_wait : ℕ → Socket → Result Bool → World K → World K
  unfolding force_close
  after_wait p sock (done true) w = w
  after_wait p sock (done false) w = force_close p sock w
  after_wait p sock (failed e) w = force_close p sock w

  -- No `fd_set` can hold -1, nor a descriptor from 1024 on.
  unfoldable pub close_stream : ℕ → Socket → Option ℕ → World K → Option (World K)
  unfolding after_wait
  close_stream p sock none w = none
  close_stream p sock (some fd) w =
      let (r₁, w₁) = sys (os.shutdown (some fd)) w in
      let (r₂, w₂) = sys (os.wait_readable fd 500) w₁ in
      if ltb fd 1024 then some (after_wait p sock r₂ w₂) else none

  unfoldable pub close : ℕ → World K → Option (World K)
  unfolding force_close close_stream
  close p w = do
    sock ← w.sockets p
    if sock.type == sock_stream then close_stream p sock sock.id w else some (force_close p sock w)

  -- An open socket is closed by force first.
  abbrev pub closed : ℕ → Option ℕ → World K → World K
  closed p none w = w
  closed p (some fd) w = (sys (os.close (some fd)) (pool_remove capacity w p)).1

  -- The fields that are cleared before `delete` are left aside.
  unfoldable pub dispose : ℕ → World K → Option (World K)
  dispose p w = do
    sock ← w.sockets p
    let w' = released sock.remote (released sock.local (closed p sock.id w))
    some (record w' { sockets = update w'.sockets p none })
