-- ===== src/Api/Windows.antt =====
-- src/API.cpp where `_WIN32` is defined: what it takes from winsock2.h and windows.h, and
-- `setblocking`, `Initialize` and `Terminate`.
pub mod Beacon
pub mod Thread
mod Tests
use agssock.Base.{ℕ, Bool, true, false, ◌≡◌, ◌≢◌, Option, none, some, ◌==◌, if◌then◌else◌}

-- The kernel's state is abstract. A socket is a number, or `none` for INVALID_SOCKET; what closing
-- it or setting its mode returns is not looked at.
pub record Winsock (K : Type 0) : Type 0 where
  pub socket : ℕ → ℕ → ℕ → K → Option ℕ × K
  pub closesocket : Option ℕ → K → K
  -- `ioctlsocket` with FIONBIO
  pub ioctlsocket : Option ℕ → ℕ → K → K
  pub startup : ℕ → K → K
  pub cleanup : K → K

-- AF_INET, SOCK_DGRAM and IPPROTO_UDP
abbrev pub af_inet : ℕ
af_inet = 2

abbrev pub sock_dgram : ℕ
sock_dgram = 2

abbrev pub ipproto_udp : ℕ
ipproto_udp = 17

-- MAKEWORD(2, 2)
abbrev pub winsock_version : ℕ
winsock_version = 514

module _ {K : Type 0} (ws : Winsock K) where
  unfoldable pub setblocking : Option ℕ → Bool → K → K
  setblocking sock state k = ws.ioctlsocket sock (if state then 0 else 1) k

  -- `AGSSockAPI::Initialize` and `AGSSockAPI::Terminate`
  unfoldable pub initialize : K → K
  initialize k = ws.startup winsock_version k

  unfoldable pub terminate : K → K
  terminate k = ws.cleanup k

-- What is documented of these calls, seen from the sockets that are open and those that block: a new
-- socket was not open and blocks, a close frees the number, and no call touches another socket.
pub record Laws {K : Type 0} (ws : Winsock K) (is_open blocks : K → ℕ → Bool) : Type 0 where
  pub socket_new :
      (d t p fd : ℕ) (k : K)
      → (ws.socket d t p k).0 ≡ some fd
      → (is_open k fd ≡ false)
        × (is_open (ws.socket d t p k).1 fd ≡ true)
        × ((q : ℕ)
            → fd ≢ q
            → (is_open (ws.socket d t p k).1 q ≡ is_open k q)
              × (blocks (ws.socket d t p k).1 q ≡ blocks k q))
  pub close_frees : (fd : ℕ) (k : K) → is_open (ws.closesocket (some fd) k) fd ≡ false
  pub close_keeps :
      (fd q : ℕ) (k : K)
      → fd ≢ q
      → (is_open (ws.closesocket (some fd) k) q ≡ is_open k q)
        × (blocks (ws.closesocket (some fd) k) q ≡ blocks k q)
  pub mode_set :
      (fd mode : ℕ) (k : K)
      → (is_open (ws.ioctlsocket (some fd) mode k) fd ≡ is_open k fd)
        × (blocks (ws.ioctlsocket (some fd) mode k) fd ≡ (mode == 0))
  pub mode_keeps :
      (fd mode q : ℕ) (k : K)
      → fd ≢ q
      → (is_open (ws.ioctlsocket (some fd) mode k) q ≡ is_open k q)
        × (blocks (ws.ioctlsocket (some fd) mode k) q ≡ blocks k q)
