-- ===== src/Socket/Stream.antt =====
-- From the network to the script: the read loop of src/Pool.cpp takes in the chunks of a stream, and
-- `Socket_Recv` of src/Socket.cpp reads the strings in it.
mod Tests
use agssock.Base.{
  ℕ, zero, suc, ◌<◌, ◌≡◌, refl, ap, sym, ◌∙◌, ◌≢◌, inl, inr, Bool, true, false, not, ◌&&◌, Option,
  none, some, List, [], ◌∷◌, map, length, is_empty, flatten, elem, ltb, All, ◌==◌, ==_iff,
  if◌then◌else◌, arith, Bool-cases, Option-cases,
}
use agssock.Api.Os.{Os, done}
use agssock.Objects.{Socket, Heap, update, sock_stream}
use agssock.Buffer.{Buffer, new_buffer, append, empty, extract_string}
use agssock.Buffer.Lines.{IsWord, frame, deliver, read_strings, strings_round_trip}
use agssock.Pool.Round.{usable, take_in, chunk_size, pass, read_one}
use agssock.Pool.Reading.{read_one_lem}
use agssock.World.{World, script_string, asks}
use agssock.Socket.Receive.{Reply, recv, recv_impl, recv_chunk, returned}
use agssock.Socket.Connect.Joins.{updated}
use agssock.Socket.Receive.Leaves.{
  chunk_socket, recv_impl-chunk, recv_chunk-Leaves, returned-Leaves,
}

take_in_chunk :
    (sock : Socket) (c : List ℕ)
    → sock.type ≡ sock_stream
    → is_empty c ≡ false
    → take_in sock (done c) ≡ (record sock { incoming = append sock.incoming c }, true)
unfolding take_in
take_in_chunk sock c stream filled =
    let test : (sock.type == sock_stream) ≡ true = (==_iff sock.type sock_stream).1 stream in
    rw (test, filled) refl

extract_string-full :
    (b : Buffer) (m : List ℕ) (rest : Buffer)
    → extract_string b true ≡ some (m, rest)
    → empty b ≡ false
unfolding extract_string
extract_string-full b m rest e = elim (Bool-cases (empty b)) [
  | inl none_there ↦ ground arith
  | inr there ↦ there
]

filled_of : (c : List ℕ) → c ≢ [] → is_empty c ≡ false
filled_of [] ne = absurd (ne refl)
filled_of (x ∷ xs) ne = refl

All-filled : (cs : List (List ℕ)) → All (λ c. c ≢ []) cs → All (λ c. is_empty c ≡ false) cs
All-filled [] ne = tt
All-filled (c ∷ cs) ne = (filled_of c ne.0, All-filled cs ne.1)

-- The first of several reads.
read_strings-next :
    (n : ℕ) (b : Buffer) (m : List ℕ) (ms : List (List ℕ)) (rest : Buffer)
    → read_strings (suc n) b ≡ some (m ∷ ms, rest)
    → (b' : Buffer) × (extract_string b true ≡ some (m, b')) × (read_strings n b' ≡ some (ms, rest))
unfolding read_strings
read_strings-next n b m ms rest e = elim (Option-cases (extract_string b true)) [
  | inl stuck ↦ absurd (ground arith)
  | inr ((m', b'), e₁) ↦ elim (Option-cases (read_strings n b')) [
    | inl stuck ↦ absurd (ground arith)
    | inr ((ms', rest'), e₂) ↦ (b', ground arith, ground arith)
  ]
]

module _ {K : Type 0} (os : Os K) where
  -- Rounds of the read loop in which `select` reports the same descriptors.
  pub rounds : List ℕ → ℕ → Heap → List ℕ → K → Option (List ℕ × Heap × K)
  unfolding pass
  rounds read zero h ps k = some (ps, h, k)
  rounds read (suc n) h ps k = elim (pass os read h ps k) [
    | none ↦ none
    | some (ps', h', k') ↦ rounds read n h' ps' k'
  ]

  -- As many calls of `Socket_Recv`.
  pub recvs : ℕ → ℕ → World K → Option (List Reply × World K)
  unfolding recv
  recvs zero p w = some ([], w)
  recvs (suc n) p w = elim (recv os p w) [
    | none ↦ none
    | some (reply, w') ↦ elim (recvs n p w') [
      | none ↦ none
      | some (replies, w'') ↦ some (reply ∷ replies, w'')
    ]
  ]

  -- The answers of `recv` on a descriptor, one after the other.
  pub data Answers (fd : ℕ) : List (List ℕ) → K → K → Type 0 where
    end_of : {k : K} → Answers fd [] k k
    answer :
        {c : List ℕ} {cs : List (List ℕ)} {k k₁ k' : K}
        → os.recv (some fd) chunk_size k ≡ (done c, k₁)
        → Answers fd cs k₁ k'
        → Answers fd (c ∷ cs) k k'

  -- A stream of one socket: each round appends one chunk.
  round_lem :
      (h : Heap) (p fd : ℕ) (sock : Socket) (c : List ℕ) (k k₁ : K)
      → h p ≡ some sock
      → usable (some sock) ≡ some fd
      → sock.type ≡ sock_stream
      → is_empty c ≡ false
      → os.recv (some fd) chunk_size k ≡ (done c, k₁)
      → pass os (fd ∷ []) h (p ∷ []) k
        ≡ some (p ∷ [], update h p (some (record sock { incoming = append sock.incoming c })), k₁)
  unfolding pass
  round_lem h p fd sock c k k₁ at u stream filled e =
      let sock' : Socket = record sock { incoming = append sock.incoming c } in
      let ready : elem fd (fd ∷ []) ≡ true = ground arith in
      let body : read_one os (fd ∷ []) h p k ≡ some (update h p (some sock'), true, k₁) =
        read_one_lem os (fd ∷ []) h p k sock fd at u
        ∙ rw (ready, e, take_in_chunk sock c stream filled) refl in
      rw (body, pass) refl

  rounds_lem :
      (fd p : ℕ) (cs : List (List ℕ)) (k k' : K) (h : Heap) (sock : Socket)
      → Answers fd cs k k'
      → h p ≡ some sock
      → usable (some sock) ≡ some fd
      → sock.type ≡ sock_stream
      → All (λ c. is_empty c ≡ false) cs
      → (h' : Heap) × (rounds (fd ∷ []) (length cs) h (p ∷ []) k ≡ some (p ∷ [], h', k'))
        × (h' p ≡ some (record sock { incoming = deliver sock.incoming cs }))
  unfolding rounds deliver usable
  rounds_lem fd p _ k _ h sock end_of at u stream filled = (h, refl, at)
  rounds_lem fd p _ k k' h sock (answer {c = c} {cs = cs} {k₁ = k₁} e more) at u stream filled =
      let sock' : Socket = record sock { incoming = append sock.incoming c } in
      let h₁ : Heap = update h p (some sock') in
      let first = round_lem h p fd sock c k k₁ at u stream filled.0 e in
      let at' : h₁ p ≡ some sock' = ground arith in
      let (h', run, there) = rounds_lem fd p cs k₁ k' h₁ sock' more at' u stream filled.1 in
      (h', rw (first, rounds) run, there)

  -- A read of a string that is not empty, through the socket.
  recv_word :
      (p : ℕ) (w : World K) (sock : Socket) (m : List ℕ) (rest : Buffer)
      → w.sockets p ≡ some sock
      → sock.type ≡ sock_stream
      → extract_string sock.incoming true ≡ some (m, rest)
      → is_empty m ≡ false
      → (w' : World K) × (recv os p w ≡ some (some m, w'))
        × (w'.sockets p ≡ some (record sock { incoming = rest; error = 0 }))
        × (w'.pool ≡ w.pool)
  unfolding recv
  recv_word p w sock m rest at stream e filled =
      let full : empty sock.incoming ≡ false = extract_string-full sock.incoming m rest e in
      let test : (sock.type == sock_stream) ≡ true = (==_iff sock.type sock_stream).1 stream in
      let run = recv_impl-chunk os extract_string w p sock (m, rest) at full (rw test e) in
      let (reply, (heap, pool)) = recv_chunk-Leaves os w p sock (m, rest) in
      let w₁ : World K = (recv_chunk os w p sock (m, rest)).1 in
      let open_still : chunk_socket sock (m, rest) ≡ record sock { incoming = rest; error = 0 } =
        rw filled refl in
      (
        returned script_string (some m) w₁,
        rw (run, recv) (rw reply refl),
        ap (λ h. h p) heap ∙ updated w.sockets p _ ∙ ap some open_still,
        pool,
      )

  recvs_lem :
      (ms : List (List ℕ)) (p : ℕ) (w : World K) (sock : Socket) (rest : Buffer)
      → w.sockets p ≡ some sock
      → sock.type ≡ sock_stream
      → read_strings (length ms) sock.incoming ≡ some (ms, rest)
      → All IsWord ms
      → (w' : World K) × (sock' : Socket) × (recvs (length ms) p w ≡ some (map some ms, w'))
        × (w'.sockets p ≡ some sock')
        × (sock'.id ≡ sock.id)
        × (sock'.incoming ≡ rest)
        × (w'.pool ≡ w.pool)
  unfolding recvs read_strings
  recvs_lem [] p w sock rest at stream e words =
      (w, sock, refl, at, refl, ap (λ o. elim o [ none ↦ sock.incoming | some r ↦ r.1 ]) e, refl)
  recvs_lem (m ∷ ms) p w sock rest at stream e words =
      let (b, first, later) = read_strings-next (length ms) sock.incoming m ms rest e in
      let (w₁, run, at₁, pool) = recv_word p w sock m b at stream first (filled_of m words.0.0) in
      let (w', sock', runs, at', id, left, pool') =
        recvs_lem ms p w₁ (record sock { incoming = b; error = 0 }) rest at₁ stream later words.1 in
      (w', sock', rw (run, recvs) (rw runs refl), at', id, left, pool' ∙ pool)

  -- Strings that a peer sends with a zero after each reach the script: if the stream arrives in any
  -- chunks (none of them empty), as many rounds of the read loop take them in, and as many calls of
  -- `Socket_Recv` as there are strings return them in order. The socket, which is alone in the pool,
  -- stays open and in it, and its buffer is empty again. The strings hold no zero and none is empty.
  pub stream_reaches_script :
      (ms chunks : List (List ℕ)) (p fd : ℕ) (k' : K) (w : World K) (sock : Socket)
      → w.sockets p ≡ some sock
      → usable (some sock) ≡ some fd
      → sock.type ≡ sock_stream
      → sock.incoming ≡ new_buffer
      → All IsWord ms
      → All (λ c. c ≢ []) chunks
      → flatten chunks ≡ frame ms
      → Answers fd chunks w.kernel k'
      → (h' : Heap) × (w' : World K) × (sock' : Socket) × (rounds
            (fd ∷ [])
            (length chunks)
            w.sockets
            (p ∷ [])
            w.kernel
          ≡ some (p ∷ [], h', k'))
        × (recvs (length ms) p (record w { sockets = h'; kernel = k' }) ≡ some (map some ms, w'))
        × (w'.sockets p ≡ some sock')
        × (sock'.id ≡ sock.id)
        × (sock'.incoming ≡ new_buffer)
  stream_reaches_script ms chunks p fd k' w sock at u stream fresh words chunked sent answers =
      let (h', taken_in, there) =
        rounds_lem fd p chunks w.kernel k' w.sockets sock answers at u stream
          (All-filled chunks chunked) in
      let read = strings_round_trip ms chunks words chunked sent in
      let (w', sock', runs, at', id, left, pool) =
        recvs_lem ms p (record w { sockets = h'; kernel = k' })
          (record sock { incoming = deliver sock.incoming chunks }) new_buffer there stream
          (rw fresh read) words in
      (h', w', sock', taken_in, runs, at', id, left)
