-- ===== src/Api/Thread.antt =====
-- `AGSSockAPI::Thread` of src/API.cpp, by the flag that its operations keep.
use agssock.Base.{Bool, false, if◌then◌else◌}

pub record Thread : Type 0 where
  pub active : Bool

abbrev pub new_thread : Thread
new_thread = record { active = false }

-- `created` says whether `pthread_create` succeeds.
unfoldable pub start : Bool → Thread → Thread
start created t = if t.active then t else record { active = created }

unfoldable pub stop : Thread → Thread
stop t = if t.active then record { active = false } else t

-- `active`
abbrev pub is_active : Thread → Bool
is_active t = t.active

unfoldable pub exit : Thread → Thread
exit t = record { active = false }

-- What the destructor does with the system's thread: nothing to one that is not active, and else a
-- wait of two seconds at most, and a cancellation.
pub data Fate : Type 0 where
  left_alone joined cancelled : Fate

-- `timed` says whether there is a timed join (HAVE_TIMEDJOIN), `clock` whether the clock can be read,
-- and `in_time` whether the thread ends within the two seconds.
unfoldable pub destroy : Bool → Bool → Bool → Thread → Fate
destroy timed clock in_time t =
    if t.active
    then (if timed
        then (if clock then (if in_time then joined else cancelled) else cancelled)
        else cancelled)
    else left_alone
