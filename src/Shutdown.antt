-- ===== src/Shutdown.antt =====
-- The shutdown of the API process, in src/app/server.ts. The calls that close the server and the clients are of
-- Node, BullMQ, ioredis and pg: how each of them settles is an event.
pub mod Order
use zolt.Prelude.{suc, ℕ, Bool, true, false, Option, none, some, List, [], ◌∷◌, ◌++◌, if◌then◌else◌}

-- What the shutdown calls, in closeResources the last three.
pub data Call : Type 0 where
  close_metrics_server close_server close_queue close_redis close_database : Call

-- The await at which a shutdown is, or at which it ended.
pub data Stage : Type 0 where
  at_server at_queue at_redis at_database : Stage

pub data Phase : Type 0 where
  serving : Phase
  closing stopped : Stage → Phase

-- `shutting_down` is isShuttingDown, `timer` says whether the timer of the forced close is set, and `forced`
-- counts its calls of closeAllConnections.
pub record Server : Type 0 where
  pub phase : Phase
  pub shutting_down : Bool
  pub timer : Bool
  pub forced : ℕ
  pub calls : List Call
  pub exit_code : Option ℕ

-- A signal, the end of the last connection, the timer, or how a call of closeResources settles.
pub data ServerEvent : Type 0 where
  signal server_closed timer_fires : ServerEvent
  settled : Bool → ServerEvent

unfoldable pub calling : Stage → Call → Server → Server
calling stage c s = record s { phase = closing stage; calls = s.calls ++ (c ∷ []) }

-- process.exit(code), and the finally block
unfoldable pub exit : Stage → ℕ → Server → Server
exit stage code s = record s { phase = stopped stage; exit_code = some code; timer = false }

unfoldable pub shutdown : Server → Server
unfolding calling
shutdown s =
    if s.shutting_down
    then s
    else calling at_server close_server (record s {
      shutting_down = true;
      timer = true;
      calls = s.calls ++ (close_metrics_server ∷ []);
    })

-- The awaits of closeResources, and what follows the last.
unfoldable pub close_resources : Stage → Bool → Server → Server
unfolding calling exit
close_resources at_server b s = s
close_resources at_queue true s = calling at_redis close_redis s
close_resources at_queue false s = exit at_queue 1 s
close_resources at_redis true s = calling at_database close_database s
close_resources at_redis false s = exit at_redis 1 s
close_resources at_database true s = exit at_database 0 s
close_resources at_database false s = exit at_database 1 s

unfoldable pub on_settled : Bool → Phase → Server → Server
unfolding close_resources
on_settled b serving s = s
on_settled b (closing stage) s = close_resources stage b s
on_settled b (stopped stage) s = s

unfoldable pub on_closed : Phase → Server → Server
unfolding calling
on_closed (closing at_server) s = calling at_queue close_queue s
on_closed _ s = s

unfoldable pub force_close : Server → Server
force_close s = if s.timer then record s { timer = false; forced = suc s.forced } else s

-- After the exit nothing happens.
unfoldable pub on_server_event : ServerEvent → Server → Server
unfolding shutdown on_settled on_closed force_close
on_server_event signal s = shutdown s
on_server_event server_closed s = on_closed s.phase s
on_server_event timer_fires s = force_close s
on_server_event (settled b) s = on_settled b s.phase s

unfoldable pub on_server_events : List ServerEvent → Server → Server
unfolding on_server_event
on_server_events [] s = s
on_server_events (e ∷ es) s = on_server_events es (on_server_event e s)

abbrev pub started : Server
started = record {
  phase = serving;
  shutting_down = false;
  timer = false;
  forced = 0;
  calls = [];
  exit_code = none;
}
