-- ===== src/Socket/Create.antt =====
-- `setblocking` of src/API.cpp, and the functions of src/Socket.cpp that create sockets, report their
-- addresses and listen.
use agssock.Base.{
  ℕ, suc, ◌+◌, ◌-◌, ◌/◌, ◌%◌, ◌^◌, Bool, true, false, Option, none, some, List, [], ◌==◌,
  if◌then◌else◌, int_of_ags, ags_of_int, is_negative,
}
use agssock.Base.Memory.{write_at}
use agssock.Buffer.{new_buffer}
use agssock.Api.Os.{Os, Result, done, failed}
use agssock.Objects.{Socket, update, sock_stream, sock_dgram}
use agssock.SockAddr.{SockAddr, af_inet, af_inet6}
use agssock.SockAddr as Addr
use agssock.World.{World, register_socket, register_addr, hold, ◌>>=◌, sys, store, asks}

abbrev pub ipproto_tcp : ℕ
ipproto_tcp = 6

abbrev pub ipproto_udp : ℕ
ipproto_udp = 17

abbrev pub somaxconn : ℕ
somaxconn = 4096

abbrev pub is_done : {A : Type 0} → Result A → Bool
is_done (done a) = true
is_done (failed e) = false

-- The descriptor, or `none` for -1
abbrev pub descriptor : Result ℕ → Option ℕ
descriptor (done fd) = some fd
descriptor (failed e) = none

-- `flags & ~O_NONBLOCK` and `flags | O_NONBLOCK`, a failed F_GETFL being all ones
abbrev pub with_blocking : Bool → Result ℕ → ℕ
with_blocking state (failed e) = if state then 2 ^ 32 - 1 - 2 ^ 11 else 2 ^ 32 - 1
with_blocking state (done flags) =
    if flags / 2 ^ 11 % 2 == 1
    then (if state then flags - 2 ^ 11 else flags)
    else (if state then flags else flags + 2 ^ 11)

module _ {K : Type 0} (os : Os K) where
  unfoldable pub setblocking : Option ℕ → Bool → World K → World K
  setblocking id state w =
      let (flags, w₁) = sys (os.get_flags id) w in
      (sys (os.set_flags id (with_blocking state flags)) w₁).1

  -- The new socket object with its number, and the world that has it.
  abbrev pub new_socket : Socket → World K → ℕ × World K
  new_socket sock w =
      (w.next, asks (store (record w { next = suc w.next }) w.next sock) (register_socket w.next))

  unfoldable pub create : ℕ → ℕ → ℕ → World K → ℕ × World K
  create domain type protocol w =
      let (r, w₁) =
        sys (os.socket (int_of_ags domain) (int_of_ags type) (int_of_ags protocol))
          (record w { errno = 0 }) in
      new_socket
        (record {
          id = descriptor r;
          domain = int_of_ags domain;
          type = int_of_ags type;
          protocol = int_of_ags protocol;
          error = w₁.errno;
          local = none;
          remote = none;
          tag = [];
          incoming = new_buffer;
        })
        (setblocking (descriptor r) false w₁)

  unfoldable pub create_udp : World K → ℕ × World K
  unfolding create
  create_udp = create af_inet sock_dgram ipproto_udp

  unfoldable pub create_tcp : World K → ℕ × World K
  unfolding create
  create_tcp = create af_inet sock_stream ipproto_tcp

  unfoldable pub create_udpv6 : World K → ℕ × World K
  unfolding create
  create_udpv6 = create af_inet6 sock_dgram ipproto_udp

  unfoldable pub create_tcpv6 : World K → ℕ × World K
  unfolding create
  create_tcpv6 = create af_inet6 sock_stream ipproto_tcp

  -- `getsockname` or `getpeername` into an address object
  unfoldable pub update_name :
      (Option ℕ → K → Result (List ℕ) × K) → Option ℕ → ℕ → World K → Option (World K)
  update_name call id addr w = do
    target ← w.addrs addr
    let (r, w₁) = sys (call id) w
    some (elim r [
      | failed e ↦ w₁
      | done name ↦ record w₁ {
        addrs = update w₁.addrs addr (some (record { bytes = write_at 0 name target.bytes }));
      }
    ])

  -- `Socket_update_Local` and `Socket_update_Remote`, under the test that there is an address
  unfoldable pub refresh :
      (Option ℕ → K → Result (List ℕ) × K) → Option ℕ → Option ℕ → World K → Option (World K)
  unfolding update_name
  refresh call id none w = some w
  refresh call id (some addr) w = update_name call id addr w

  -- A new address object that the socket holds
  abbrev pub held_addr : ℕ → World K → World K
  held_addr type w =
      asks
        (asks
          (record w {
            addrs = update w.addrs w.next (some (Addr.create (ags_of_int type)));
            next = suc w.next;
          })
          (register_addr w.next))
        (hold w.next)

  unfoldable pub get_local : ℕ → World K → Option (ℕ × World K)
  unfolding update_name
  get_local p w = do
    sock ← w.sockets p
    elim sock.local [
      | some addr ↦ some (addr, w)
      | none ↦ do
        w₁ ← update_name os.local_name sock.id w.next (held_addr sock.type w)
        some (w.next, store w₁ p (record sock { local = some w.next; error = w₁.errno }))
    ]

  unfoldable pub get_remote : ℕ → World K → Option (ℕ × World K)
  unfolding update_name
  get_remote p w = do
    sock ← w.sockets p
    elim sock.remote [
      | some addr ↦ some (addr, w)
      | none ↦ do
        w₁ ← update_name os.peer_name sock.id w.next (held_addr sock.type w)
        some (w.next, store w₁ p (record sock { remote = some w.next; error = w₁.errno }))
    ]

  unfoldable pub listen : ℕ → ℕ → World K → Option (Bool × World K)
  listen p backlog w = do
    sock ← w.sockets p
    let size = if is_negative backlog then somaxconn else backlog
    let (r, w₁) = sys (os.listen sock.id (int_of_ags size)) w
    some (is_done r, store w₁ p (record sock { error = w₁.errno }))
