-- ===== src/Socket/References/Takes.antt =====
-- The functions of src/Socket.cpp that take references to addresses and give them back.
use agssock.Base.{
  ℕ, ◌+◌, ◌≡◌, refl, ap, ◌∙◌, ◌≢◌, Option, none, some, List, arith, Option-cases, inl, inr,
  no_result, one_result, one_world,
}
use agssock.Api.Os.{Os, Result}
use agssock.Objects.{Socket, update_self, update_other}
use agssock.World.{World, pool_remove}
use agssock.Socket.Create.{update_name, held_addr, get_local, get_remote}
use agssock.Socket.Connect.{dispose, released, closed}
use agssock.Socket.Saved.{Keys, restore, unserialize}
use agssock.Socket.References.{holds, releases, points_to, references}

abbrev pub Found : {K : Type 0} → ℕ → World K → Type 0
Found p w = (sock : Socket) × (w.sockets p ≡ some sock)

-- What was held and not released has changed by what one socket points to; others point to what they
-- did.
abbrev pub Balanced : {K : Type 0} → ℕ → ℕ → World K → World K → Type 0
Balanced p a w w' =
    (holds a w'.calls + releases a w.calls + references a (w.sockets p)
      ≡ holds a w.calls + releases a w'.calls + references a (w'.sockets p))
    × ((q : ℕ) → p ≢ q → references a (w'.sockets q) ≡ references a (w.sockets q))

module _ {K : Type 0} (os : Os K) (capacity : ℕ) where
  named_lem :
      (call : Option ℕ → K → Result (List ℕ) × K) (id : Option ℕ) (addr : ℕ) (w w' : World K)
      → update_name os call id addr w ≡ some w'
      → (w'.calls ≡ w.calls) × (w'.sockets ≡ w.sockets)
  unfolding update_name
  named_lem call id addr w w' e = elim (Option-cases (w.addrs addr)) [
    | inl gone ↦ no_result (rw gone at e)
    | inr (target, at) ↦ rw (← one_result (rw at at e)) (ground arith, ground arith)
  ]

  pub get_local-Balanced :
      (p a addr : ℕ) (w w' : World K) → get_local os p w ≡ some (addr, w') → Balanced p a w w'
  unfolding get_local
  get_local-Balanced p a addr w w' e = elim (Option-cases (w.sockets p)) [
    | inl gone ↦ no_result (rw gone at e)
    | inr (sock, at) ↦ elim (Option-cases sock.local) [
      | inr (b, known) ↦ rw (← one_world (rw (at, known) at e)) (refl, λ q ne. refl)
      | inl unknown ↦
          elim (Option-cases
            (update_name os os.local_name sock.id w.next (held_addr os sock.type w))) [
              | inl stuck ↦ no_result (rw (at, unknown, stuck) at e)
              | inr (w₁, run) ↦
                  let (calls, sockets) =
                    named_lem os.local_name sock.id w.next (held_addr os sock.type w) w₁ run in
                  rw (← one_world (rw (at, unknown, run) at e))
                    (rw (calls, at) (ground arith), λ q ne. rw sockets (ground arith))
            ]
    ]
  ]

  pub get_remote-Balanced :
      (p a addr : ℕ) (w w' : World K) → get_remote os p w ≡ some (addr, w') → Balanced p a w w'
  unfolding get_remote
  get_remote-Balanced p a addr w w' e = elim (Option-cases (w.sockets p)) [
    | inl gone ↦ no_result (rw gone at e)
    | inr (sock, at) ↦ elim (Option-cases sock.remote) [
      | inr (b, known) ↦ rw (← one_world (rw (at, known) at e)) (refl, λ q ne. refl)
      | inl unknown ↦
          elim (Option-cases
            (update_name os os.peer_name sock.id w.next (held_addr os sock.type w))) [
              | inl stuck ↦ no_result (rw (at, unknown, stuck) at e)
              | inr (w₁, run) ↦
                  let (calls, sockets) =
                    named_lem os.peer_name sock.id w.next (held_addr os sock.type w) w₁ run in
                  rw (← one_world (rw (at, unknown, run) at e))
                    (rw (calls, at) (ground arith), λ q ne. rw sockets (ground arith))
            ]
    ]
  ]

  closed-calls :
      (p : ℕ) (id : Option ℕ) (w : World K)
      → ((closed os capacity p id w).calls ≡ w.calls)
        × ((closed os capacity p id w).sockets ≡ w.sockets)
  unfolding pool_remove
  closed-calls p none w = (refl, refl)
  closed-calls p (some fd) w = (refl, refl)

  released_lem :
      (a : ℕ) (o : Option ℕ) (w : World K)
      → (holds a (released o w).calls ≡ holds a w.calls)
        × (releases a (released o w).calls ≡ points_to a o + releases a w.calls)
        × ((released o w).sockets ≡ w.sockets)
  released_lem a none w = (refl, omega arith, refl)
  released_lem a (some b) w = (refl, refl, refl)

  disposed_lem :
      (p a : ℕ) (sock : Socket) (w : World K)
      → let w' = released sock.remote (released sock.local (closed os capacity p sock.id w)) in
        (holds a w'.calls ≡ holds a w.calls)
        × (releases a w'.calls ≡ references a (some sock) + releases a w.calls)
        × (w'.sockets ≡ w.sockets)
  disposed_lem p a sock w =
      let w₁ : World K = closed os capacity p sock.id w in
      let (h, r, s) = released_lem a sock.local w₁ in
      let (h', r', s') = released_lem a sock.remote (released sock.local w₁) in
      let (same, heap) = closed-calls p sock.id w in
      (h' ∙ h ∙ ap (holds a) same, omega (arith, r', r, ap (releases a) same), s' ∙ s ∙ heap)

  pub dispose-Balanced :
      (p a : ℕ) (w w' : World K) → dispose os capacity p w ≡ some w' → Balanced p a w w'
  unfolding dispose
  dispose-Balanced p a w w' e = elim (Option-cases (w.sockets p)) [
    | inl gone ↦ no_result (rw gone at e)
    | inr (sock, at) ↦
        let (held, gone, heap) = disposed_lem p a sock w in
        rw (← one_result (rw at at e))
          (rw (at, held, gone) (ground arith), λ q ne. rw heap (ground arith))
  ]

  pub get_local-Found :
      (p addr : ℕ) (w w' : World K) → get_local os p w ≡ some (addr, w') → Found p w
  unfolding get_local
  get_local-Found p addr w w' e = elim (Option-cases (w.sockets p)) [
    | inl gone ↦ no_result (rw gone at e)
    | inr found ↦ found
  ]

  pub get_remote-Found :
      (p addr : ℕ) (w w' : World K) → get_remote os p w ≡ some (addr, w') → Found p w
  unfolding get_remote
  get_remote-Found p addr w w' e = elim (Option-cases (w.sockets p)) [
    | inl gone ↦ no_result (rw gone at e)
    | inr found ↦ found
  ]

  pub dispose-Found : (p : ℕ) (w w' : World K) → dispose os capacity p w ≡ some w' → Found p w
  unfolding dispose
  dispose-Found p w w' e = elim (Option-cases (w.sockets p)) [
    | inl gone ↦ no_result (rw gone at e)
    | inr found ↦ found
  ]

  -- A restored socket brings the references that its bytes name.
  pub restore-references :
      (keys : Keys) (left : List ℕ) (key : ℕ) (buffer : List ℕ) (a : ℕ) (w : World K)
      → let w' = restore keys left key buffer w in
        (holds a w'.calls ≡ holds a w.calls)
        × (releases a w'.calls ≡ releases a w.calls)
        × (references a (w'.sockets w.next) ≡ references a (some (unserialize keys left buffer)))
        × ((q : ℕ) → w.next ≢ q → references a (w'.sockets q) ≡ references a (w.sockets q))
  unfolding restore
  restore-references keys left key buffer a w = (
    refl,
    refl,
    ap (references a) (update_self w.sockets w.next (some (unserialize keys left buffer))),
    λ q ne.
        ap (references a)
          (update_other w.sockets w.next q (some (unserialize keys left buffer)) ne),
  )
