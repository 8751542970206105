-- ===== src/Socket/Samples.antt =====
-- A system for tests whose calls succeed, with a socket and an address. What it sends is kept, and a
-- plan says how many bytes each sending call takes: it fails with EAGAIN at a zero, and takes all at
-- the end of the plan. What it receives stands in an inbox.
use agssock.Base.{
  ℕ, zero, suc, ◌≡◌, refl, ◌≤◌, ◌≢◌, min, none, some, List, [], ◌∷◌, ◌++◌, length, take, true,
  false, arith, take_all,
}
use agssock.Api.Os.{Os, Result, done, failed}
use agssock.Objects.{Socket, update}
use agssock.SockAddr.{SockAddr}
use agssock.Pool.{new_pool}
use agssock.World.{World}
use agssock.Socket.Send.Loop.{Sends}

pub record Net : Type 0 where
  pub taken : List ℕ
  pub plan : List ℕ
  pub inbox : List (List ℕ)

abbrev send_planned : List ℕ → Net → List ℕ → Result ℕ × Net
send_planned text net [] = (done (length text), record net { taken = net.taken ++ text; plan = [] })
send_planned text net (zero ∷ plan) = (failed 11, record net { plan = plan })
send_planned text net (suc n ∷ plan) =
    let m = min (suc n) (length text) in
    (done m, record net { taken = net.taken ++ take m text; plan = plan })

abbrev pub send_sample : List ℕ → Net → Result ℕ × Net
send_sample text net = send_planned text net net.plan

abbrev recv_next : Net → List (List ℕ) → Result (List ℕ) × Net
recv_next net [] = (failed 11, net)
recv_next net (c ∷ cs) = (done c, record net { inbox = cs })

abbrev pub sample_os : Os Net
sample_os = record {
  socket = λ d t p k. (done 4, k);
  get_flags = λ id k. (done 2, k);
  set_flags = λ id f k. (done tt, k);
  bind = λ id a k. (done tt, k);
  listen = λ id n k. (done tt, k);
  connect = λ id a k. (done tt, k);
  accept = λ id k. (done 6, k);
  shutdown = λ id k. (done tt, k);
  close = λ id k. (done tt, k);
  wait_readable = λ fd n k. (done false, k);
  send = λ id t k. send_sample t k;
  send_to = λ id a t k. send_sample t k;
  recv = λ id n k. recv_next k k.inbox;
  recv_from = λ id n k. (done (72 ∷ 105 ∷ [], 2 ∷ 0 ∷ []), k);
  local_name = λ id k. (done (2 ∷ 0 ∷ []), k);
  peer_name = λ id k. (done (2 ∷ 0 ∷ []), k);
  thread_starts = λ k. true;
}

planned-Sends-takes :
    (x : ℕ) (xs : List ℕ) (net : Net) (plan : List ℕ) (n : ℕ)
    → (send_planned (x ∷ xs) net plan).0 ≡ done n
    → (1 ≤ n)
      × (n ≤ length (x ∷ xs))
      × ((send_planned (x ∷ xs) net plan).1.taken ≡ net.taken ++ take n (x ∷ xs))
planned-Sends-takes x xs net [] n e =
    let same : length (x ∷ xs) ≡ n = cc in
    (
      omega arith,
      omega arith,
      rw (← same) (rw (take_all (length (x ∷ xs)) (x ∷ xs) (omega arith)) refl),
    )
planned-Sends-takes x xs net (zero ∷ plan) n e = cc
planned-Sends-takes x xs net (suc m ∷ plan) n e =
    let same : min (suc m) (length (x ∷ xs)) ≡ n = cc in (omega arith, omega arith, rw same refl)

planned-Sends-refuses :
    (x : ℕ) (xs : List ℕ) (net : Net) (plan : List ℕ) (e : ℕ)
    → (send_planned (x ∷ xs) net plan).0 ≡ failed e
    → (e ≢ 0) × ((send_planned (x ∷ xs) net plan).1.taken ≡ net.taken)
planned-Sends-refuses x xs net [] e h = cc
planned-Sends-refuses x xs net (zero ∷ plan) e h =
    let same : ◌≡◌ {A = ℕ} 11 e = cc in (omega arith, refl)
planned-Sends-refuses x xs net (suc m ∷ plan) e h = cc

pub sample-Sends : Sends (λ (net : Net). net.taken) send_sample
sample-Sends = record {
  takes = λ x xs k n e. planned-Sends-takes x xs k k.plan n e;
  refuses = λ x xs k e h. planned-Sends-refuses x xs k k.plan e h;
}

-- A socket of the given kind and protocol with the given input.
abbrev pub sample_socket : ℕ → ℕ → List (List ℕ) → Socket
sample_socket type protocol queue = record {
  id = some 4;
  domain = 2;
  type = type;
  protocol = protocol;
  error = 0;
  local = none;
  remote = none;
  tag = [];
  incoming = record { queue = queue; error = 0 };
}

abbrev pub sample_addr : SockAddr
sample_addr = record { bytes = 2 ∷ 0 ∷ [] }

-- The socket at 9, the address at 3, and a pool with the given sockets.
abbrev pub sample_world : Socket → List ℕ → List ℕ → World Net
sample_world sock plan pooled = record {
  kernel = record { taken = []; plan = plan; inbox = [] };
  errno = 0;
  sockets = update (λ p. none) 9 (some sock);
  addrs = update (λ p. none) 3 (some sample_addr);
  next = 10;
  pool = record new_pool { sockets = pooled; thread = record { active = true } };
  calls = [];
}
