-- ===== src/Timers/Single.antt =====
-- That the heartbeat has at most one timer.
use zolt.Prelude.{
  sym, ◌∙◌, ap, ℕ, ◌≡◌, refl, ◌==◌, Option, none, some, List, [], ◌∷◌, delete, contains, Bool-cases,
  inl, inr, arith,
}
use zolt.Timers.{
  Timers, unset, set_interval, clear_current, start_heartbeat, stop_heartbeat, start_scheduler,
  stop_scheduler, fire, TimerEvent, start, stop, fires, on_heartbeat_event, on_heartbeat_events,
}

abbrev pub owned : Option ℕ → List ℕ
owned none = []
owned (some id) = id ∷ []

-- The intervals that are set are the one that the variable holds.
pub record IsSingle (t : Timers) : Type 0 where
  pub live : t.live ≡ owned t.current

delete_self : (id : ℕ) → delete (λ x. x == id) (id ∷ []) ≡ []
unfolding delete
delete_self id = ground arith

pub cleared :
    (o : Option ℕ) (live : List ℕ) (next runs : ℕ)
    → live ≡ owned o
    → (clear_current (record { current = o; live = live; next = next; runs = runs })).live ≡ []
unfolding clear_current
cleared none live next runs h = h
cleared (some id) live next runs h = ap (delete (λ x. x == id)) h ∙ delete_self id

cleared_current :
    (o : Option ℕ) (live : List ℕ) (next runs : ℕ)
    → (clear_current (record { current = o; live = live; next = next; runs = runs })).current ≡ none
unfolding clear_current
cleared_current none live next runs = refl
cleared_current (some id) live next runs = refl

clear_current-IsSingle : (t : Timers) → IsSingle t → IsSingle (clear_current t)
clear_current-IsSingle t h = record {
  live =
      cleared t.current t.live t.next t.runs h.live
      ∙ sym (ap owned (cleared_current t.current t.live t.next t.runs));
}

started :
    (o : Option ℕ) (live : List ℕ) (next runs : ℕ)
    → live ≡ owned o
    → IsSingle (start_heartbeat (record { current = o; live = live; next = next; runs = runs }))
unfolding start_heartbeat set_interval
started none live next runs h = record { live = ap (λ l. next ∷ l) h }
started (some id) live next runs h = record { live = h }

fire-IsSingle : (id : ℕ) (t : Timers) → IsSingle t → IsSingle (fire id t)
unfolding fire
fire-IsSingle id t h = elim (Bool-cases (contains t.live id)) [
  | inl e ↦ rw e (record { live = h.live })
  | inr e ↦ rw e h
]

event-IsSingle : (e : TimerEvent) (t : Timers) → IsSingle t → IsSingle (on_heartbeat_event e t)
unfolding on_heartbeat_event stop_heartbeat
event-IsSingle start t h = started t.current t.live t.next t.runs h.live
event-IsSingle stop t h = clear_current-IsSingle t h
event-IsSingle (fires id) t h = fire-IsSingle id t h

events-IsSingle :
    (es : List TimerEvent) (t : Timers) → IsSingle t → IsSingle (on_heartbeat_events es t)
unfolding on_heartbeat_events
events-IsSingle [] t h = h
events-IsSingle (e ∷ es) t h = events-IsSingle es (on_heartbeat_event e t) (event-IsSingle e t h)

-- Whatever starts, stops and firings come after each other, the intervals of the heartbeat that are set are
-- the one that heartbeatInterval holds, and none if it holds none.
pub on_heartbeat_events-IsSingle : (es : List TimerEvent) → IsSingle (on_heartbeat_events es unset)
on_heartbeat_events-IsSingle es = events-IsSingle es unset (record { live = refl })

-- Stopping a scheduler that was started once leaves no interval, and a second stop does nothing.
pub stop_scheduler-ends :
    ((stop_scheduler (start_scheduler unset)).live ≡ [])
    × (stop_scheduler (stop_scheduler (start_scheduler unset))
        ≡ stop_scheduler (start_scheduler unset))
unfolding stop_scheduler start_scheduler clear_current set_interval delete
stop_scheduler-ends = (refl, refl)
