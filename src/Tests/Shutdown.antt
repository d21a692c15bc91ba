-- ===== src/Tests/Shutdown.antt =====
-- A shutdown with a second signal, and a queue that cannot be closed.
use zolt.Prelude.{◌≡◌, refl, true, false, [], ◌∷◌, List}
use zolt.Shutdown.{
  ServerEvent, signal, server_closed, timer_fires, settled, started, on_server_events,
}
use zolt.Shutdown.Order.{IsOrderly, on_server_events-IsOrderly, shutdown-ends, is_none, settling}

abbrev two_signals : List ServerEvent
two_signals = signal ∷ timer_fires ∷ signal ∷ server_closed ∷ settled false ∷ []

on_server_events-IsOrderly_example : IsOrderly (on_server_events two_signals started)
on_server_events-IsOrderly_example = on_server_events-IsOrderly two_signals

begun : (on_server_events (signal ∷ signal ∷ []) started).shutting_down ≡ true
unfolding on_server_events
begun = refl

shutdown-ends_example :
    is_none
      (on_server_events
        (settling true true false)
        (on_server_events (signal ∷ signal ∷ []) started)).exit_code
    ≡ false
shutdown-ends_example = shutdown-ends (signal ∷ signal ∷ []) true true false begun
