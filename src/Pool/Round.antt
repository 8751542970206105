-- ===== src/Pool/Round.antt =====
-- One round of the event loop of `Pool::run` in src/Pool.cpp: `collect` stands before the call of
-- `select`, `process` behind it.
use agssock.Base.{
  ℕ, Bool, true, false, not, Option, none, some, List, [], ◌∷◌, elem, is_empty, ltb, ◌==◌,
  if◌then◌else◌,
}
use agssock.Errors.{would_block}
use agssock.Api.Thread.{exit}
use agssock.Api.Beacon.{reset}
use agssock.Api.Os.{Os, Result, done, failed}
use agssock.Objects.{Socket, Heap, update, sock_stream}
use agssock.Buffer.{append, push}
use agssock.Pool.{Pool}

-- FD_SETSIZE
abbrev pub fd_setsize : ℕ
fd_setsize = 1024

-- The descriptor of a live and valid socket that fits into an `fd_set`.
unfoldable pub usable : Option Socket → Option ℕ
usable none = none
usable (some sock) = elim sock.id [
  | none ↦ none
  | some fd ↦ if ltb fd fd_setsize then some fd else none
]

-- What the loop gives to `select`: the descriptors that are set, and `nfds`.
pub record Request : Type 0 where
  pub read : List ℕ
  pub nfds : ℕ

unfoldable pub collect_from : Heap → List ℕ → Request → Option Request
collect_from h [] r = some r
collect_from h (p ∷ ps) r = elim (usable (h p)) [
  | none ↦ none
  | some fd ↦
      collect_from h ps (record { read = fd ∷ r.read; nfds = if ltb r.nfds fd then fd else r.nfds })
]

-- `beacon` is the descriptor of the beacon's reading end.
unfoldable pub collect : Heap → ℕ → Pool → Option Request
unfolding collect_from
collect h beacon p = collect_from h p.sockets (record { read = beacon ∷ []; nfds = beacon })

-- The size of the buffer that `recv` is given.
abbrev pub chunk_size : ℕ
chunk_size = 65536

-- What one `recv` does to a socket, and whether the socket stays in the pool.
unfoldable pub take_in : Socket → Result (List ℕ) → Socket × Bool
take_in sock (failed e) =
    if would_block e
    then (sock, true)
    else (record sock { incoming = record (sock.incoming) { error = e } }, false)
take_in sock (done chunk) =
    if sock.type == sock_stream
    then (record sock { incoming = append sock.incoming chunk }, not (is_empty chunk))
    else (record sock { incoming = push sock.incoming chunk }, true)

-- A pass over the rest of the pool, behind a socket that stays in the pool or leaves it.
abbrev pub rejoin :
    {K : Type 0} → ℕ → Bool → Option (List ℕ × Heap × K) → Option (List ℕ × Heap × K)
rejoin p stays none = none
rejoin p stays (some (rest, h, k)) = some (if stays then p ∷ rest else rest, h, k)

module _ {K : Type 0} (os : Os K) where
  -- The body of the loop over the sockets: the store after it, whether the socket stays in the
  -- pool, and the kernel.
  unfoldable pub read_one : List ℕ → Heap → ℕ → K → Option (Heap × Bool × K)
  unfolding take_in
  read_one read h p k = elim (h p) [
    | none ↦ none
    | some sock ↦ elim (usable (some sock)) [
      | none ↦ none
      | some fd ↦
          if elem fd read
          then (let (answer, k') = os.recv (some fd) chunk_size k in
              let (sock', stays) = take_in sock answer in some (update h p (some sock'), stays, k'))
          else some (h, true, k)
    ]
  ]

  unfoldable pub pass : List ℕ → Heap → List ℕ → K → Option (List ℕ × Heap × K)
  unfolding read_one
  pass read h [] k = some ([], h, k)
  pass read h (p ∷ ps) k = elim (read_one read h p k) [
    | none ↦ none
    | some (h', stays, k') ↦ rejoin p stays (pass read h' ps k')
  ]

  -- The second locked part: the beacon is reset if it was signalled, and the thread ends if no
  -- socket is left.
  unfoldable pub process : List ℕ → ℕ → Heap → Pool → K → Option (Pool × Heap × K)
  process read beacon h p k = elim (pass read h p.sockets k) [
    | none ↦ none
    | some (rest, h', k') ↦ some (
      record {
        sockets = rest;
        beacon = if elem beacon read then reset p.beacon else p.beacon;
        thread = if is_empty rest then exit p.thread else p.thread;
      },
      h',
      k',
    )
  ]
