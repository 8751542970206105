-- ===== src/Socket/Receive/Zeros.antt =====
-- Zeros at the front of what is received, and bytes behind its end: where `Socket_Recv` and
-- `Socket_RecvFrom` of src/Socket.cpp mistake the one for the other.
use agssock.Base.{
  ℕ, ◌≡◌, refl, ap, sym, ◌∙◌, ◌≢◌, true, none, some, List, [], ◌∷◌, ◌++◌, ◌<◌, ◌≤◌, ◌+◌, ◌-◌, suc,
  length, drop, length-append, elem, c_str, ◌==◌, arith, All, All-elem,
}
use agssock.Api.Os.{Os, done}
use agssock.Objects.{Socket, Heap, update, sock_stream}
use agssock.Buffer.{Buffer, extract_string}
use agssock.Buffer.Stream.{keep, after_string, extract_string-keep}
use agssock.Pool.{Pool, is_operating}
use agssock.Pool.Sets.{is_operating_iff, IsValidAt}
use agssock.Base.Memory.{write_at, length-write_at, drop-write_at_before}
use agssock.SockAddr.{SockAddr}
use agssock.World.{World, script_string, register_data, asks}
use agssock.Socket.Receive.{
  recv_chunk, recv, returned, received_buffer, recvfrom_impl, recv_from, recv_data_from,
}
use agssock.Socket.Receive.Leaves.{recv_impl-chunk, recv_chunk-Leaves, chunk_socket}

-- A pool that holds a socket whose descriptor is gone does not pass its check.
pub not-operating :
    (h : Heap) (p : ℕ) (pool : Pool) (sock : Socket)
    → h p ≡ some sock
    → sock.id ≡ none
    → elem p pool.sockets ≡ true
    → ¬ (is_operating h pool ≡ some true)
not-operating h p pool sock at closed held operating =
    let (sock', fd, at', id) =
      All-elem (IsValidAt h) p pool.sockets ((is_operating_iff h pool).0 operating).1 held in
    ground arith

extract_string-front :
    (b : Buffer) (d : List ℕ) (rest : List (List ℕ))
    → b.queue ≡ d ∷ rest
    → extract_string b true
      ≡ some (c_str d, record { queue = keep (after_string d) rest; error = b.error })
extract_string-front b d rest e = rw e (extract_string-keep d rest b.error)

module _ {K : Type 0} (os : Os K) where
  -- A stream that begins with a zero, in a socket that the pool holds: `Socket_Recv` returns the
  -- empty string and closes the socket, but the pool keeps it, and its check fails from then on.
  pub recv_zero_breaks_pool :
      (w : World K) (p : ℕ) (sock : Socket) (text : List ℕ) (rest : List (List ℕ))
      → w.sockets p ≡ some sock
      → sock.type ≡ sock_stream
      → sock.incoming.queue ≡ (0 ∷ text) ∷ rest
      → elem p w.pool.sockets ≡ true
      → (w' : World K) × (sock' : Socket) × (recv os p w ≡ some (some [], w'))
        × (w'.sockets p ≡ some sock')
        × (sock'.id ≡ none)
        × (elem p w'.pool.sockets ≡ true)
        × ¬ (is_operating w'.sockets w'.pool ≡ some true)
  unfolding recv
  recv_zero_breaks_pool w p sock text rest at stream zero_first held =
      let left : Buffer = record {
        queue = keep (after_string (0 ∷ text)) rest;
        error = sock.incoming.error;
      } in
      let taken : extract_string sock.incoming (sock.type == sock_stream) ≡ some ([], left) =
        rw stream (extract_string-front sock.incoming (0 ∷ text) rest zero_first) in
      let run =
        recv_impl-chunk os extract_string w p sock ([], left) at (rw zero_first refl) taken in
      let (reply, leaves) = recv_chunk-Leaves os w p sock ([], left) in
      let w' : World K = (recv_chunk os w p sock ([], left)).1 in
      let sock' : Socket = chunk_socket sock ([], left) in
      let at' : w'.sockets p ≡ some sock' = rw leaves.0 (ground arith) in
      let closed : sock'.id ≡ none = rw stream refl in
      let held' : elem p w'.pool.sockets ≡ true = rw leaves.1 held in
      (
        returned script_string (some []) w',
        sock',
        rw (run, recv) (rw reply refl),
        at',
        closed,
        held',
        not-operating w'.sockets p w'.pool sock' at' closed held',
      )

-- A text in front of a block: a string runs on over it into what stands behind.
c_str-write_at :
    (bytes block : List ℕ)
    → All (λ c. c ≢ 0) bytes
    → length bytes ≤ length block
    → c_str (write_at 0 bytes block) ≡ bytes ++ c_str (drop (length bytes) block)
unfolding write_at
c_str-write_at [] [] h fits = refl
c_str-write_at [] (m ∷ ms) h fits = refl
c_str-write_at (x ∷ xs) [] h fits = absurd (omega arith)
c_str-write_at (x ∷ xs) (m ∷ ms) h fits = ground (arith, h.0, c_str-write_at xs ms h.1)

-- A string that has grown by at least one character.
append-ne : (xs ys : List ℕ) (c : ℕ) → xs ++ (c ∷ ys) ≢ xs
append-ne xs ys c e = absurd (omega (arith, length-append xs (c ∷ ys), ap length e))

behind_received :
    (stale : List ℕ) (n k c : ℕ) (more : List ℕ)
    → n + suc k ≡ 65535
    → drop n stale ≡ c ∷ more
    → drop n (write_at 65535 (0 ∷ []) stale) ≡ c ∷ write_at k (0 ∷ []) more
unfolding write_at
behind_received stale n k c more e behind =
    rw (← e) (drop-write_at_before n (suc k) (0 ∷ []) stale ∙ rw behind refl)

c_str-received_buffer :
    (stale bytes : List ℕ) (k c : ℕ) (more : List ℕ)
    → All (λ b. b ≢ 0) bytes
    → length bytes + suc k ≡ 65535
    → length stale ≡ 65536
    → drop (length bytes) stale ≡ c ∷ more
    → c ≢ 0
    → c_str (received_buffer stale bytes) ≡ bytes ++ (c ∷ c_str (write_at k (0 ∷ []) more))
c_str-received_buffer stale bytes k c more h e size behind ne =
    c_str-write_at bytes (write_at 65535 (0 ∷ []) stale) h
      (omega (arith, length-write_at 65535 (0 ∷ []) stale))
    ∙ rw (behind_received stale (length bytes) k c more e behind) (ground arith)

module _ {K : Type 0} (os : Os K) where
  recvfrom_impl-done :
      (w : World K) (p addr : ℕ) (sock : Socket) (sender : SockAddr) (k : K) (bytes name : List ℕ)
      → w.sockets p ≡ some sock
      → w.addrs addr ≡ some sender
      → os.recv_from sock.id 65535 w.kernel ≡ (done (bytes, name), k)
      → (w' : World K) × (recvfrom_impl os p addr w ≡ some (some bytes, w'))
  unfolding recvfrom_impl
  recvfrom_impl-done w p addr sock sender k bytes name at live got = (
    record w {
      kernel = k;
      addrs = update w.addrs addr (some (record { bytes = write_at 0 name sender.bytes }));
      sockets = update w.sockets p (some (record sock { error = w.errno }));
    },
    rw (at, recvfrom_impl) (rw (live, got) (rw got refl)),
  )

  -- A datagram without zeros, shorter than the array that it is received in: `Socket_RecvFrom`
  -- returns another string than was sent if the array held no zero behind it, while
  -- `Socket_RecvDataFrom` returns the datagram.
  pub recv_from_runs_on :
      (w : World K) (p addr : ℕ) (sock : Socket) (sender : SockAddr) (k : K)
      (bytes name stale more : List ℕ) (c : ℕ)
      → w.sockets p ≡ some sock
      → w.addrs addr ≡ some sender
      → os.recv_from sock.id 65535 w.kernel ≡ (done (bytes, name), k)
      → All (λ b. b ≢ 0) bytes
      → length bytes < 65535
      → length stale ≡ 65536
      → drop (length bytes) stale ≡ c ∷ more
      → c ≢ 0
      → (text : List ℕ) × (w' w'' : World K) × (recv_from os stale p addr w ≡ some (some text, w'))
        × (text ≢ bytes)
        × (recv_data_from os p addr w ≡ some (some bytes, w''))
  unfolding recv_from recv_data_from
  recv_from_runs_on w p addr sock sender k bytes name stale more c at live got h short size behind
        ne =
      let (w₁, run) = recvfrom_impl-done w p addr sock sender k bytes name at live got in
      let rest : ℕ = 65535 - length bytes - 1 in
      let text = c_str (received_buffer stale bytes) in
      let runs_on = c_str-received_buffer stale bytes rest c more h (omega arith) size behind ne in
      (
        text,
        asks w₁ (script_string text),
        asks w₁ (register_data bytes),
        rw (run, recv_from) refl,
        λ e. append-ne bytes (c_str (write_at rest (0 ∷ []) more)) c (sym runs_on ∙ e),
        rw (run, recv_data_from) refl,
      )
