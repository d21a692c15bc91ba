-- ===== src/Shutdown/Order.antt =====
-- In which order the shutdown of src/app/server.ts closes what it uses.
use zolt.Prelude.{
  ℕ, suc, ◌≡◌, refl, Bool, true, false, not, ◌||◌, ◌&&◌, ◌==◌, Option, none, some, List, [], ◌∷◌,
  if◌then◌else◌, ap, ◌++◌, sym, ◌∙◌,
}
use zolt.Shutdown.{
  timer_fires, server_closed, signal, settled, started, force_close, on_server_events,
  on_server_event, on_closed, ServerEvent, close_database, close_redis, at_database, serving,
  close_queue, at_redis, stopped, close_server, close_metrics_server, at_queue, closing,
  close_resources, at_server, Call, shutdown, on_settled, exit, calling, Stage, Server, Phase,
}

abbrev calls_to : Stage → List Call
calls_to at_server = close_metrics_server ∷ close_server ∷ []
calls_to at_queue = close_metrics_server ∷ close_server ∷ close_queue ∷ []
calls_to at_redis = close_metrics_server ∷ close_server ∷ close_queue ∷ close_redis ∷ []
calls_to at_database =
    close_metrics_server ∷ close_server ∷ close_queue ∷ close_redis ∷ close_database ∷ []

-- The calls that have been made in a phase.
abbrev pub calls_in : Phase → List Call
calls_in serving = []
calls_in (closing stage) = calls_to stage
calls_in (stopped stage) = calls_to stage

abbrev pub is_serving : Phase → Bool
is_serving serving = true
is_serving (closing _) = false
is_serving (stopped _) = false

abbrev pub is_none : Option ℕ → Bool
is_none none = true
is_none (some _) = false

abbrev is_last : Stage → Bool
is_last at_server = false
is_last at_queue = false
is_last at_redis = false
is_last at_database = true

-- The codes of an exit: 0 only after the last stage.
abbrev may_end : Stage → Option ℕ → Bool
may_end stage none = false
may_end stage (some code) = code == 1 || is_last stage && code == 0

abbrev pub may_exit : Phase → Option ℕ → Bool
may_exit serving code = is_none code
may_exit (closing _) code = is_none code
may_exit (stopped stage) code = may_end stage code

pub record IsOrderly (s : Server) : Type 0 where
  pub calls : s.calls ≡ calls_in s.phase
  pub flag : s.shutting_down ≡ not (is_serving s.phase)
  pub exits : may_exit s.phase s.exit_code ≡ true

called :
    (stage : Stage) (c : Call) (s : Server)
    → s.calls ++ (c ∷ []) ≡ calls_to stage
    → s.shutting_down ≡ true
    → is_none s.exit_code ≡ true
    → IsOrderly (calling stage c s)
unfolding calling
called stage c s h g k = record { calls = h; flag = g; exits = k }

ended :
    (stage : Stage) (code : ℕ) (s : Server)
    → s.calls ≡ calls_to stage
    → s.shutting_down ≡ true
    → may_end stage (some code) ≡ true
    → IsOrderly (exit stage code s)
unfolding exit
ended stage code s h g k = record { calls = h; flag = g; exits = k }

called_signal :
    (b : Bool) (p : Phase) (s : Server)
    → s.phase ≡ p
    → s.shutting_down ≡ b
    → IsOrderly s
    → IsOrderly (
        if b
        then s
        else calling at_server close_server (record s {
          shutting_down = true;
          timer = true;
          calls = s.calls ++ (close_metrics_server ∷ []);
        }))
called_signal true p s h g i = i
called_signal false serving s h g i =
    called at_server close_server _
      (ap (λ cs. (cs ++ (close_metrics_server ∷ [])) ++ (close_server ∷ []))
        (i.calls ∙ ap calls_in h))
      refl (ap (λ p. may_exit p s.exit_code) (sym h) ∙ i.exits)
called_signal false (closing _) s h g i = cc
called_signal false (stopped _) s h g i = cc

resources-IsOrderly :
    (stage : Stage) (b : Bool) (s : Server)
    → s.phase ≡ closing stage
    → IsOrderly s
    → s.calls ≡ calls_to stage
    → s.shutting_down ≡ true
    → is_none s.exit_code ≡ true
    → IsOrderly (close_resources stage b s)
unfolding close_resources
resources-IsOrderly at_server b s h i calls flag exits = i
resources-IsOrderly at_queue true s h i calls flag exits =
    called at_redis close_redis s (ap (λ cs. cs ++ (close_redis ∷ [])) calls) flag exits
resources-IsOrderly at_queue false s h i calls flag exits = ended at_queue 1 s calls flag refl
resources-IsOrderly at_redis true s h i calls flag exits =
    called at_database close_database s (ap (λ cs. cs ++ (close_database ∷ [])) calls) flag exits
resources-IsOrderly at_redis false s h i calls flag exits = ended at_redis 1 s calls flag refl
resources-IsOrderly at_database true s h i calls flag exits = ended at_database 0 s calls flag refl
resources-IsOrderly at_database false s h i calls flag exits = ended at_database 1 s calls flag refl

settled-IsOrderly :
    (b : Bool) (p : Phase) (s : Server) → s.phase ≡ p → IsOrderly s → IsOrderly (on_settled b p s)
unfolding on_settled
settled-IsOrderly b serving s h i = i
settled-IsOrderly b (stopped _) s h i = i
settled-IsOrderly b (closing stage) s h i =
    resources-IsOrderly stage b s h i (i.calls ∙ ap calls_in h)
      (i.flag ∙ ap (λ p. not (is_serving p)) h) (ap (λ p. may_exit p s.exit_code) (sym h) ∙ i.exits)

closed-IsOrderly : (p : Phase) (s : Server) → s.phase ≡ p → IsOrderly s → IsOrderly (on_closed p s)
unfolding on_closed
closed-IsOrderly serving s h i = i
closed-IsOrderly (stopped _) s h i = i
closed-IsOrderly (closing at_server) s h i =
    called at_queue close_queue s (ap (λ cs. cs ++ (close_queue ∷ [])) (i.calls ∙ ap calls_in h))
      (i.flag ∙ ap (λ p. not (is_serving p)) h) (ap (λ p. may_exit p s.exit_code) (sym h) ∙ i.exits)
closed-IsOrderly (closing at_queue) s h i = i
closed-IsOrderly (closing at_redis) s h i = i
closed-IsOrderly (closing at_database) s h i = i

forced_case :
    (b : Bool) (s : Server)
    → IsOrderly s
    → IsOrderly (if b then record s { timer = false; forced = suc s.forced } else s)
forced_case true s i = record { calls = i.calls; flag = i.flag; exits = i.exits }
forced_case false s i = i

step-IsOrderly : (e : ServerEvent) (s : Server) → IsOrderly s → IsOrderly (on_server_event e s)
unfolding on_server_event shutdown force_close
step-IsOrderly signal s i = called_signal s.shutting_down s.phase s refl refl i
step-IsOrderly server_closed s i = closed-IsOrderly s.phase s refl i
step-IsOrderly timer_fires s i = forced_case s.timer s i
step-IsOrderly (settled b) s i = settled-IsOrderly b s.phase s refl i

kept : (es : List ServerEvent) (s : Server) → IsOrderly s → IsOrderly (on_server_events es s)
unfolding on_server_events
kept [] s i = i
kept (e ∷ es) s i = kept es (on_server_event e s) (step-IsOrderly e s i)

-- Whatever signals come, however often, and however the closing calls settle, the calls of the shutdown are
-- made in the order metrics server, server, queue, Redis, database, each at most once, and the process ends
-- with the code 0 only after all of them, and otherwise with the code 1.
pub on_server_events-IsOrderly : (es : List ServerEvent) → IsOrderly (on_server_events es started)
on_server_events-IsOrderly es = kept es started (record { calls = refl; flag = refl; exits = refl })

abbrev pub settling : Bool → Bool → Bool → List ServerEvent
settling a b c = server_closed ∷ settled a ∷ settled b ∷ settled c ∷ []

ended_code : (stage : Stage) (o : Option ℕ) → may_end stage o ≡ true → is_none o ≡ false
ended_code stage none h = cc
ended_code stage (some code) h = refl

ends_case :
    (p : Phase) (a b c : Bool) (s : Server)
    → s.phase ≡ p
    → s.shutting_down ≡ true
    → IsOrderly s
    → is_none (on_server_events (settling a b c) s).exit_code ≡ false
unfolding on_server_events on_server_event on_closed on_settled close_resources calling exit
ends_case serving a b c s h g i = cc
ends_case (closing at_server) false b c s h g i = rw h refl
ends_case (closing at_server) true false c s h g i = rw h refl
ends_case (closing at_server) true true false s h g i = rw h refl
ends_case (closing at_server) true true true s h g i = rw h refl
ends_case (closing at_queue) false b c s h g i = rw h refl
ends_case (closing at_queue) true false c s h g i = rw h refl
ends_case (closing at_queue) true true false s h g i = rw h refl
ends_case (closing at_queue) true true true s h g i = rw h refl
ends_case (closing at_redis) false b c s h g i = rw h refl
ends_case (closing at_redis) true false c s h g i = rw h refl
ends_case (closing at_redis) true true c s h g i = rw h refl
ends_case (closing at_database) false b c s h g i = rw h refl
ends_case (closing at_database) true b c s h g i = rw h refl
ends_case (stopped stage) a b c s h g i =
    rw h (ended_code stage s.exit_code (ap (λ p. may_exit p s.exit_code) (sym h) ∙ i.exits))

-- A shutdown that has begun, whatever has happened since, ends the process with some code once the last
-- connection has ended and three more calls have settled, be it well or not.
pub shutdown-ends :
    (es : List ServerEvent) (a b c : Bool)
    → (on_server_events es started).shutting_down ≡ true
    → is_none (on_server_events (settling a b c) (on_server_events es started)).exit_code ≡ false
shutdown-ends es a b c begun =
    let s = on_server_events es started in
    ends_case s.phase a b c s refl begun (on_server_events-IsOrderly es)
