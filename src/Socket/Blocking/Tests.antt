-- ===== src/Socket/Blocking/Tests.antt =====
-- A pipe with the ends 7 and 8, over a system that keeps the flags of its descriptors.
use agssock.Base.{ℕ, ◌≡◌, refl, true, false, some, none, [], Option, ◌==◌, if◌then◌else◌, arith}
use agssock.Api.Os.{Os, done, failed}
use agssock.Pool.{new_pool}
use agssock.World.{World}
use agssock.Socket.Blocking.{Flags, EndsUnblocked, open_beacon, beacon_never_blocks}

-- The flags of each descriptor are the kernel.
abbrev flags_of : Option ℕ → (ℕ → ℕ) → ℕ
flags_of none k = 0
flags_of (some fd) k = k fd

abbrev with_flags : Option ℕ → ℕ → (ℕ → ℕ) → ℕ → ℕ
with_flags none f k = k
with_flags (some fd) f k = λ q. if fd == q then f else k q

abbrev flag_os : Os (ℕ → ℕ)
flag_os = record {
  socket = λ d t p k. (done 4, k);
  get_flags = λ id k. (done (flags_of id k), k);
  set_flags = λ id f k. (done tt, with_flags id f k);
  bind = λ id a k. (done tt, k);
  listen = λ id n k. (done tt, k);
  connect = λ id a k. (done tt, k);
  accept = λ id k. (done 6, k);
  shutdown = λ id k. (done tt, k);
  close = λ id k. (done tt, k);
  wait_readable = λ fd n k. (done false, k);
  send = λ id t k. (failed 11, k);
  send_to = λ id a t k. (failed 11, k);
  recv = λ id n k. (failed 11, k);
  recv_from = λ id n k. (failed 11, k);
  local_name = λ id k. (failed 9, k);
  peer_name = λ id k. (failed 9, k);
  thread_starts = λ k. true;
}

flag_os-Flags : Flags flag_os (λ k fd. k fd)
flag_os-Flags = record {
  gets = λ fd k. refl;
  sets = λ fd f k. let same : (fd == fd) ≡ true = ground arith in rw same refl;
  keeps = λ fd f q k ne. let other : (fd == q) ≡ false = ground arith in rw other refl;
}

abbrev idle : World (ℕ → ℕ)
idle = record {
  kernel = λ fd. 2;
  errno = 0;
  sockets = λ p. none;
  addrs = λ p. none;
  next = 0;
  pool = new_pool;
  calls = [];
}

beacon_never_blocks_example :
    EndsUnblocked
      (λ k fd. k fd)
      (λ fd. 2)
      (7, 8)
      (open_beacon flag_os (λ k. (done (7, 8), k)) (0, 0) idle)
beacon_never_blocks_example =
    beacon_never_blocks flag_os (λ k fd. k fd) flag_os-Flags (λ k. (done (7, 8), k)) (0, 0) 7 8 idle
      refl (λ e. omega arith)
