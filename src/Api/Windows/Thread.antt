-- ===== src/Api/Windows/Thread.antt =====
-- `AGSSockAPI::Thread` of src/API.cpp on Windows, by its flag and its handle, and a record of what the
-- system has been asked to do with handles.
use agssock.Base.{
  ℕ, ◌≡◌, refl, sym, ◌∙◌, Bool, true, false, Option, none, some, List, [], ◌∷◌, ◌++◌, append_assoc,
  append-nil, if◌then◌else◌,
}

pub record Thread : Type 0 where
  pub active : Bool
  pub handle : Option ℕ
  -- The handles that CreateThread has given, and those that were terminated and closed, in order;
  -- `none` is a null handle.
  pub created : List ℕ
  pub terminated : List (Option ℕ)
  pub closed : List (Option ℕ)

abbrev pub new_thread : Thread
new_thread = record { active = false; handle = none; created = []; terminated = []; closed = [] }

-- The handle that CreateThread gives, or null
abbrev pub with_handle : Option ℕ → Thread → Thread
with_handle none t = record t { handle = none; active = false }
with_handle (some h) t = record t { handle = some h; active = true; created = t.created ++ h ∷ [] }

unfoldable pub start : Option ℕ → Thread → Thread
start gives t = if t.active then t else with_handle gives t

abbrev close_handle : Thread → Thread
close_handle t = record t { closed = t.closed ++ t.handle ∷ [] }

abbrev terminate_thread : Thread → Thread
terminate_thread t = record t { terminated = t.terminated ++ t.handle ∷ [] }

unfoldable pub stop : Thread → Thread
stop t = close_handle (if t.active then record (terminate_thread t) { active = false } else t)

unfoldable pub exit : Thread → Thread
exit t = record t { active = false }

-- The destructor, which waits for two seconds; `in_time` says whether the thread ends within them.
unfoldable pub destroy : Bool → Thread → Thread
destroy in_time t = if t.active then close_handle (if in_time then t else terminate_thread t) else t

-- Threads that are started one behind the other and end by themselves, as the read loop does whenever
-- its pool has become empty
abbrev pub run_ended : List ℕ → Thread → Thread
run_ended [] t = t
run_ended (h ∷ hs) t = run_ended hs (exit (start (some h) t))

abbrev after_one : ℕ → Thread → Thread
after_one h t = record t { active = false; handle = some h; created = t.created ++ h ∷ [] }

exit-start : (h : ℕ) (t : Thread) → t.active ≡ false → exit (start (some h) t) ≡ after_one h t
unfolding start exit
exit-start h t idle = rw idle refl

-- What is left of them: all handles that were created, of which none was closed
abbrev pub Leaked : List ℕ → Thread → Thread → Type 0
Leaked hs t t' =
    (t'.active ≡ false)
    × (t'.created ≡ t.created ++ hs)
    × (t'.terminated ≡ t.terminated)
    × (t'.closed ≡ t.closed)

run_ended_lem : (hs : List ℕ) (t : Thread) → t.active ≡ false → Leaked hs t (run_ended hs t)
run_ended_lem [] t idle = (idle, sym (append-nil t.created), refl, refl)
run_ended_lem (h ∷ hs) t idle =
    let (idle', created, terminated, closed) = run_ended_lem hs (after_one h t) refl in
    rw (exit-start h t idle, run_ended)
      (idle', created ∙ append_assoc t.created (h ∷ []) hs, terminated, closed)

-- What the destructor asks the system to close, of a thread that is running
destroy_lem :
    (in_time : Bool) (t : Thread) (h : ℕ)
    → t.active ≡ false
    → t.closed ≡ []
    → ((destroy in_time t).closed ≡ [])
      × ((destroy in_time (start (some h) t)).closed ≡ some h ∷ [])
      × ((stop (stop (start (some h) t))).closed ≡ some h ∷ some h ∷ [])
unfolding destroy start stop
destroy_lem true t h idle closed = rw (idle, closed) (refl, refl, refl)
destroy_lem false t h idle closed = rw (idle, closed) (refl, refl, refl)

-- A thread that has ended by itself leaks its handle: after any number of them the destructor closes
-- none, and where another is running, it closes that one's alone. Stopping a thread twice closes its
-- handle twice.
pub ended_threads_leak :
    (hs : List ℕ) (h : ℕ) (in_time : Bool)
    → let t = run_ended hs new_thread in
      (t.created ≡ hs)
      × ((destroy in_time t).closed ≡ [])
      × ((destroy in_time (start (some h) t)).closed ≡ some h ∷ [])
      × ((stop (stop (start (some h) t))).closed ≡ some h ∷ some h ∷ [])
ended_threads_leak hs h in_time =
    let (idle, created, _, closed) = run_ended_lem hs new_thread refl in
    let (none_closed, one_closed, twice) =
      destroy_lem in_time (run_ended hs new_thread) h idle closed in
    (created, none_closed, one_closed, twice)
