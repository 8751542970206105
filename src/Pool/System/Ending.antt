-- ===== src/Pool/System/Ending.antt =====
-- The end of the pool: what the destructor of `Thread` of src/API.cpp does to the read loop.
use agssock.Base.{ℕ, ◌<◌, ◌≡◌, refl, ◌↔◌, Bool, true, false, ◌&&◌, if◌then◌else◌}
use agssock.Api.Os.{Os}
use agssock.Api.Thread.{Thread, Fate, left_alone, joined, cancelled, destroy}
use agssock.Pool.System.{Phase, stopped, collecting, selecting, reported, is_running, System, Reach}
use agssock.Pool.System.Safety.{Reach-Sound}

destroy_lem :
    (timed clock in_time : Bool) (t : Thread)
    → destroy timed clock in_time t
      ≡ (if t.active then (if timed && clock && in_time then joined else cancelled) else left_alone)
unfolding destroy
destroy_lem true true in_time t = refl
destroy_lem true false in_time t = refl
destroy_lem false clock in_time t = refl

alone_iff :
    (phase : Phase) (ends : Bool) (fate : Fate)
    → fate ≡ (if is_running phase then (if ends then joined else cancelled) else left_alone)
    → (fate ≡ left_alone) ↔ (phase ≡ stopped)
alone_iff stopped ends fate e = (λ h. refl, λ h. e)
alone_iff collecting true fate e = (λ h. cc, λ h. cc)
alone_iff collecting false fate e = (λ h. cc, λ h. cc)
alone_iff (selecting r) true fate e = (λ h. cc, λ h. cc)
alone_iff (selecting r) false fate e = (λ h. cc, λ h. cc)
alone_iff (reported read) true fate e = (λ h. cc, λ h. cc)
alone_iff (reported read) false fate e = (λ h. cc, λ h. cc)

-- What the destructor of the thread does in every reachable state: it leaves the thread alone exactly
-- where the read loop has made its last round, though the thread itself may then not have ended. In
-- any other state it waits for the thread and lets it end, if there is a timed join, the clock can be
-- read and the thread ends in time, and else it asks for its cancellation. The beacon's pipe can hold
-- a byte.
pub destructor_by_phase :
    {K : Type 0} {os : Os K} (capacity beacon : ℕ) (timed clock in_time : Bool) {s : System K}
    → 0 < capacity
    → Reach os capacity beacon s
    → (destroy timed clock in_time s.pool.thread ≡ (
        if is_running s.phase
        then (if timed && clock && in_time then joined else cancelled)
        else left_alone))
      × ((destroy timed clock in_time s.pool.thread ≡ left_alone) ↔ (s.phase ≡ stopped))
destructor_by_phase {os = os} capacity beacon timed clock in_time {s} room reach =
    let v = Reach-Sound os capacity beacon room reach in
    let e = destroy_lem timed clock in_time s.pool.thread in
    (rw (← v.running) e, alone_iff s.phase (timed && clock && in_time) _ (rw (← v.running) e))
