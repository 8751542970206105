-- ===== src/Api/Os.antt =====
-- What the plug-in takes from the system: the calls of `sys/socket.h` and their kin, which are no
-- part of this repository. A call that fails gives -1 and sets `errno`; one that succeeds leaves
-- `errno` as it was.
use agssock.Base.{ℕ, Bool, List, Option}

pub data Result (A : Type 0) : Type 0 where
  done : A → Result A
  failed : ℕ → Result A

-- The kernel's state is abstract, and each call gives its next state. A descriptor is a number,
-- or `none` for -1.
pub record Os (K : Type 0) : Type 0 where
  pub socket : ℕ → ℕ → ℕ → K → Result ℕ × K
  -- `fcntl` with F_GETFL and F_SETFL
  pub get_flags : Option ℕ → K → Result ℕ × K
  pub set_flags : Option ℕ → ℕ → K → Result (Unit {0}) × K
  pub bind : Option ℕ → List ℕ → K → Result (Unit {0}) × K
  pub listen : Option ℕ → ℕ → K → Result (Unit {0}) × K
  pub connect : Option ℕ → List ℕ → K → Result (Unit {0}) × K
  pub accept : Option ℕ → K → Result ℕ × K
  pub shutdown : Option ℕ → K → Result (Unit {0}) × K
  pub close : Option ℕ → K → Result (Unit {0}) × K
  -- Whether one descriptor becomes readable within a time-out, in microseconds.
  pub wait_readable : ℕ → ℕ → K → Result Bool × K
  -- The bytes to send, and the number of them that were taken.
  pub send : Option ℕ → List ℕ → K → Result ℕ × K
  pub send_to : Option ℕ → List ℕ → List ℕ → K → Result ℕ × K
  -- At most as many bytes as asked for, and the sender's address.
  pub recv : Option ℕ → ℕ → K → Result (List ℕ) × K
  pub recv_from : Option ℕ → ℕ → K → Result (List ℕ × List ℕ) × K
  pub local_name : Option ℕ → K → Result (List ℕ) × K
  pub peer_name : Option ℕ → K → Result (List ℕ) × K
  -- Whether `pthread_create` would succeed now.
  pub thread_starts : K → Bool
