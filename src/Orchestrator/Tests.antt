-- ===== src/Orchestrator/Tests.antt =====
-- A runtime with one service, whose hooks do not raise.
use yasin_core.Prelude.{
  ℕ, suc, ◌≡◌, ◌≢◌, refl, ap, ◌==◌, String, Bool, true, false, none, some, List, [], ◌∷◌, inl,
}
use yasin_core.Dict
use yasin_core.Services.{Hosting, bool_reply, active, empty_manager}
use yasin_core.Services.History.{Call, registers, run, run-IsWellformed}
use yasin_core.Services.Lifecycle.{Host, initialize_services}
use yasin_core.Orchestrator.{Orchestrator, make_orchestrator, running, stopped, start, stop}
use yasin_core.Orchestrator.Lifecycle.{Launched, IsDown, start-Launched, stop-returns}
use yasin_core.Orchestrator.Sequences.{
  IsSettled, starts, stops, reloads, execute_all, execute_all-IsSettled,
}

abbrev quiet : Hosting
quiet = record {
  Service = Bool;
  World = ℕ;
  has_method = λ hook service. true;
  call = λ hook service w. (none, suc w);
  has_health = λ service. true;
  health = λ service w. (some (bool_reply service), w);
}

abbrev one_call : List (Call quiet)
one_call =
    registers true (record { name = "config"; version = "1"; description = ""; dependencies = [] })
    ∷ []

abbrev one_service : Host quiet
one_service = run quiet one_call (empty_manager, 0)

abbrev fresh : Orchestrator
fresh = make_orchestrator

fresh-IsDown : IsDown quiet fresh.state
unfolding make_orchestrator
fresh-IsDown = inl refl

unmarked : one_service.0.is_initialized ≡ false
unfolding run empty_manager
unmarked = refl

start-Launched_example :
    Launched quiet one_service.0
      (initialize_services quiet one_service)
      (start quiet 5 (fresh, one_service))
start-Launched_example =
    start-Launched quiet 5 fresh one_service.0 one_service.1 fresh-IsDown
      (run-IsWellformed quiet one_call 0) unmarked

abbrev started : Orchestrator × Host quiet
started = execute_all quiet (starts 5 ∷ []) (fresh, one_service)

started_running : started.0.state ≡ running
unfolding execute_all run empty_manager make_orchestrator
started_running = refl

nothing_remains : (stop quiet 9 started).0 ≡ none
unfolding execute_all run empty_manager make_orchestrator stop
nothing_remains = refl

config_there : Dict.has (stop quiet 9 started).2.0.services "config" ≡ true
unfolding execute_all run empty_manager make_orchestrator stop Dict.has
config_there = refl

abbrev config : String
config = "config"

not_services : config ≢ "services"
not_services e = absurd (cc (ap (λ (t : String). t == "services") e))

stop-returns_example :
    ((stop quiet 9 started).1.state ≡ stopped)
    × (Dict.get (stop quiet 9 started).2.0.states "config" ≢ some active)
stop-returns_example =
    stop-returns quiet 9 started.0 started.1 "config" started_running not_services nothing_remains
      config_there

fresh-IsSettled : IsSettled fresh.state
unfolding make_orchestrator
fresh-IsSettled = (λ e. cc, λ e. cc)

execute_all-IsSettled_example :
    IsSettled (execute_all quiet (starts 5 ∷ reloads ∷ stops 9 ∷ []) (fresh, one_service)).0.state
execute_all-IsSettled_example =
    execute_all-IsSettled quiet (starts 5 ∷ reloads ∷ stops 9 ∷ []) (fresh, one_service)
      fresh-IsSettled
