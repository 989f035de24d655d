-- ===== src/Orchestrator.antt =====
-- `RuntimeOrchestrator` of yasin_core/core/orchestrator.py over the service manager, which the
-- registry (yasin_core/runtime/registry.py) only wraps in a lock. The state changes are logged in the
-- order in which they are published; the calls of the event bus and of the configuration, whose
-- exceptions are caught there, are left out.
pub mod Lifecycle
pub mod Sequences
mod Tests
use yasin_core.Prelude.{
  ℕ, Bool, true, false, ◌||◌, Option, none, some, String, List, [], ◌∷◌, ◌++◌, if◌then◌else◌, ◌==◌,
}
use yasin_core.Dict
use yasin_core.Dict.{Dict}
use yasin_core.Services.{ServiceState, active, ServiceError, Result, ok, err, Hosting, Manager}
use yasin_core.Services.Lifecycle.{
  Host, initialize_services, shutdown_services, reload_services, health_report,
}

pub data RuntimeState : Type 0 where
  uninitialized initializing running shutting_down stopped failed : RuntimeState

pub data OrchestratorError : Type 0 where
  is_initializing : OrchestratorError
  startup_failed reload_failed : ServiceError → OrchestratorError
  remains_active : String → OrchestratorError
  not_running : RuntimeState → OrchestratorError

pub record Orchestrator : Type 0 where
  pub state : RuntimeState
  pub start_time : Option ℕ
  pub stop_time : Option ℕ
  pub transitions : List (RuntimeState × RuntimeState)

unfoldable pub make_orchestrator : Orchestrator
make_orchestrator = record {
  state = uninitialized;
  start_time = none;
  stop_time = none;
  transitions = [];
}

unfoldable pub transition_to : RuntimeState → Orchestrator → Orchestrator
transition_to new_state o = record o {
  state = new_state;
  transitions = o.transitions ++ (o.state, new_state) ∷ [];
}

-- An answer, or an exception.
abbrev pub Answer : Type 0
Answer = Option OrchestratorError

-- The first service whose reported state is ACTIVE. The orchestrator itself is known as "services".
unfoldable pub still_active : {Service : Type 0} → Dict Service → Dict ServiceState → Option String
unfolding Dict.get_or
still_active [] states = none
still_active ((name, service) ∷ rest) states =
    let later = still_active rest states in
    if name == "services"
    then later
    else elim (Dict.get_or states name ServiceState.uninitialized) [
      | active ↦ some name
      | _ ↦ later
    ]

module _ (hosting : Hosting) where
  -- The end of `start`, behind the services' initialization.
  unfoldable pub settle_start :
      Orchestrator → Result (Unit {0}) × Host hosting → Answer × Orchestrator × Host hosting
  unfolding transition_to
  settle_start o (ok _, host) = (none, transition_to running o, host)
  settle_start o (err e, host) = (some (startup_failed e), transition_to failed o, host)

  unfoldable pub begin_start : ℕ → Orchestrator → Orchestrator
  unfolding transition_to
  begin_start now o = record (transition_to initializing o) {
    start_time = some now;
    stop_time = none;
  }

  -- `start` in each of the states.
  unfoldable pub start_in :
      RuntimeState → ℕ → Orchestrator → Host hosting → Answer × Orchestrator × Host hosting
  unfolding settle_start begin_start initialize_services
  start_in running now o host = (none, o, host)
  start_in initializing now o host = (some is_initializing, o, host)
  start_in _ now o host = settle_start (begin_start now o) (initialize_services hosting host)

  unfoldable pub start : ℕ → Orchestrator × Host hosting → Answer × Orchestrator × Host hosting
  unfolding start_in
  start now (o, host) = start_in o.state now o host

  -- The end of `stop`, behind the services' shutdown.
  unfoldable pub settle_stop :
      ℕ → Orchestrator → Option String → Host hosting → Answer × Orchestrator × Host hosting
  unfolding transition_to
  settle_stop now o none host =
      (none, transition_to stopped (record o { stop_time = some now }), host)
  settle_stop now o (some name) host = (some (remains_active name), transition_to failed o, host)

  abbrev pub remaining : Host hosting → Option String
  remaining (m, world) = still_active m.services m.states

  unfoldable pub stop_services :
      ℕ → Orchestrator × Host hosting → Answer × Orchestrator × Host hosting
  unfolding settle_stop transition_to shutdown_services still_active
  stop_services now (o, host) =
      let host' = shutdown_services hosting host in
      settle_stop now (transition_to shutting_down o) (remaining host') host'

  -- `stop` in each of the states.
  unfoldable pub stop_in :
      RuntimeState → ℕ → Orchestrator → Host hosting → Answer × Orchestrator × Host hosting
  unfolding stop_services
  stop_in stopped now o host = (none, o, host)
  stop_in uninitialized now o host = (none, o, host)
  stop_in _ now o host = stop_services now (o, host)

  unfoldable pub stop : ℕ → Orchestrator × Host hosting → Answer × Orchestrator × Host hosting
  unfolding stop_in
  stop now (o, host) = stop_in o.state now o host

  abbrev pub settle_reload :
      Orchestrator
      → Manager hosting.Service
      → Result (Unit {0}) × hosting.World
      → Answer × Orchestrator × Host hosting
  settle_reload o m (ok _, world) = (none, o, (m, world))
  settle_reload o m (err e, world) = (some (reload_failed e), o, (m, world))

  -- `reload` in each of the states.
  unfoldable pub reload_in :
      RuntimeState → Orchestrator → Host hosting → Answer × Orchestrator × Host hosting
  unfolding reload_services
  reload_in running o (m, world) = settle_reload o m (reload_services hosting (m, world))
  reload_in state o host = (some (not_running state), o, host)

  unfoldable pub reload : Orchestrator × Host hosting → Answer × Orchestrator × Host hosting
  unfolding reload_in
  reload (o, host) = reload_in o.state o host
