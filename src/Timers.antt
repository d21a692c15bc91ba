-- ===== src/Timers.antt =====
-- The timers of src/workers/heartbeat.ts and src/modules/scheduler/scheduler.service.ts. setInterval and
-- clearInterval are those of Node: an interval that has been set fires until it is cleared.
pub mod Single
use zolt.Prelude.{
  ℕ, suc, Bool, true, false, not, ◌==◌, if◌then◌else◌, Option, none, some, is_some, List, [], ◌∷◌,
  delete, contains,
}

-- `current` is heartbeatInterval or schedulerInterval, `live` the intervals that are set, and `runs` counts the
-- calls of renewActiveLeases or runSchedulerTick.
pub record Timers : Type 0 where
  pub current : Option ℕ
  pub live : List ℕ
  pub next : ℕ
  pub runs : ℕ

abbrev pub unset : Timers
unset = record { current = none; live = []; next = 0; runs = 0 }

unfoldable pub set_interval : Timers → Timers
set_interval t = record t { current = some t.next; live = t.next ∷ t.live; next = suc t.next }

-- clearInterval(...), and the variable is undefined again
unfoldable pub clear_current : Timers → Timers
clear_current t = elim (t.current) [
  | none ↦ t
  | some id ↦ record t { current = none; live = delete (λ x. x == id) t.live }
]

unfoldable pub start_heartbeat : Timers → Timers
unfolding set_interval
start_heartbeat t = if is_some t.current then t else set_interval t

unfoldable pub stop_heartbeat : Timers → Timers
unfolding clear_current
stop_heartbeat t = clear_current t

-- One tick at once, and the others by the timer.
unfoldable pub start_scheduler : Timers → Timers
unfolding set_interval
start_scheduler t = set_interval (record t { runs = suc t.runs })

unfoldable pub stop_scheduler : Timers → Timers
unfolding clear_current
stop_scheduler t = clear_current t

-- The callback of an interval, which Node calls only while it is set.
unfoldable pub fire : ℕ → Timers → Timers
fire id t = if contains t.live id then record t { runs = suc t.runs } else t

pub data TimerEvent : Type 0 where
  start stop : TimerEvent
  fires : ℕ → TimerEvent

unfoldable pub on_heartbeat_event : TimerEvent → Timers → Timers
unfolding start_heartbeat stop_heartbeat fire
on_heartbeat_event start t = start_heartbeat t
on_heartbeat_event stop t = stop_heartbeat t
on_heartbeat_event (fires id) t = fire id t

unfoldable pub on_heartbeat_events : List TimerEvent → Timers → Timers
unfolding on_heartbeat_event
on_heartbeat_events [] t = t
on_heartbeat_events (e ∷ es) t = on_heartbeat_events es (on_heartbeat_event e t)
