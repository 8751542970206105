-- ===== src/Socket/Connect/Tests.antt =====
-- Calls on one socket that is not yet in the pool, over a system whose calls succeed.
use agssock.Base.{
  arith, ℕ, ◌≡◌, refl, inl, true, false, none, some, [], ◌∷◌, elem, if◌then◌else◌, Option, inr,
}
use agssock.Errors.{already}
use agssock.Objects.{Socket, update}
use agssock.World.{World, sys}
use agssock.Socket.Samples.{Net, sample_os, sample_socket, sample_addr, sample_world}
use agssock.Socket.Connect.{connect, accept, close, dispose}
use agssock.Socket.Create.{is_done, setblocking}
use agssock.Socket.Connect.Joins.{Operating}
use agssock.Socket.Connect.Connecting.{connect_joins}
use agssock.Socket.Connect.Closing.{Closed, close_answer, after_shutdown, close_lem}
use agssock.Socket.Connect.Disposal.{releases, dispose_lem, recv_zero_dangles}
use agssock.Pool.Sets.{Distinct}
use agssock.Pool.Round.{collect}
use agssock.Socket.Receive.{recv}
use agssock.Socket.Connect.Serving.{Accepted, accept_joins}

abbrev fresh : Socket
fresh = sample_socket 2 17 []

abbrev start : World Net
start = sample_world fresh [] []

connect_joins_example :
    let w₀ = setblocking sample_os fresh.id true start in
    let answer = (sample_os.connect fresh.id sample_addr.bytes w₀.kernel).0 in
    let w₁ = (sys (sample_os.connect fresh.id sample_addr.bytes) w₀).1 in
    let errno = (setblocking sample_os fresh.id false w₁).errno in
    (w' : World Net) × (connect sample_os 16 9 3 false start ≡ some (is_done answer, w'))
    × Operating w'
    × (if is_done answer then elem 9 w'.pool.sockets ≡ true else w'.pool ≡ start.pool)
    × (w'.calls ≡ start.calls)
    × (w'.sockets
        ≡ update start.sockets 9
            (some (record fresh { error = if already errno then 0 else errno })))
connect_joins_example =
    connect_joins sample_os 16 9 3 4 false fresh sample_addr start (inl refl, tt) refl refl refl tt
      (λ k. refl)

-- A socket of a stream that the pool holds.
abbrev streaming : Socket
streaming = sample_socket 1 6 []

abbrev held : World Net
held = sample_world streaming [] (9 ∷ [])

held-Operating : Operating held
held-Operating = (inr refl, ((streaming, 4, refl, refl), tt))

accept_joins_example :
    (reply : Option ℕ) × (w' : World Net) × (accept sample_os 16 9 held ≡ some (reply, w'))
    × Operating w'
    × Accepted (sample_os.accept streaming.id held.kernel).0 9 streaming held reply w'
accept_joins_example =
    accept_joins sample_os 16 9 streaming held held-Operating refl refl (λ k. refl)

close_lem_example :
    (w' : World Net) × (close sample_os 16 9 held ≡ some w')
    × Operating w'
    × Distinct w'.pool.sockets
    × Closed sample_os 9 streaming
        (close_answer sample_os 4 held)
        held
        (after_shutdown sample_os 4 held)
        w'
    × (w'.calls ≡ held.calls)
close_lem_example =
    close_lem sample_os 16 9 4 streaming held held-Operating (refl, tt) refl refl (omega arith)

dispose_lem_example :
    (w' : World Net) × (dispose sample_os 16 9 held ≡ some w')
    × Operating w'
    × (w'.sockets ≡ update held.sockets 9 none)
    × (elem 9 w'.pool.sockets ≡ false)
    × (w'.calls ≡ releases none (releases none held.calls))
dispose_lem_example =
    dispose_lem sample_os 16 9 streaming held held-Operating (refl, tt) refl (inl (λ h. cc))

abbrev zero_first : Socket
zero_first = sample_socket 1 6 ((0 ∷ 7 ∷ []) ∷ [])

recv_zero_dangles_example :
    (w' w'' : World Net) × (recv sample_os 9 (sample_world zero_first [] (9 ∷ []))
      ≡ some (some [], w'))
    × (dispose sample_os 16 9 w' ≡ some w'')
    × (collect w''.sockets 3 w''.pool ≡ none)
recv_zero_dangles_example =
    recv_zero_dangles sample_os 16 (sample_world zero_first [] (9 ∷ [])) 9 3 zero_first (7 ∷ []) []
      refl refl refl refl
