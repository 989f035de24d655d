-- ===== src/Services/Lifecycle.antt =====
-- `initialize`, `shutdown`, `reload`, `health` and `status` of
-- yasin_core/runtime/service_manager.py. Each takes the manager and the world, and returns both
-- beside its result: what was written before an exception stays written.
pub mod Initialize
pub mod Started
pub mod Keys
pub mod Shutdown
pub mod Reports
use yasin_core.Prelude.{
  String, Bool, true, false, ◌&&◌, Option, none, some, List, [], ◌∷◌, reverse, if◌then◌else◌, ◌==◌,
}
use yasin_core.Dict
use yasin_core.Dict.{Dict}
use yasin_core.Services.{
  ServiceState, uninitialized, initializing, active, failed, stopped, ServiceMetadata, ServiceError,
  initialization_failed, reload_failed, reload_dependency_error, service_not_found, Result, ok, err,
  HealthReply, bool_reply, dict_reply, other_reply, Hosting, Hook, initialize, shutdown, reload,
  call_hook, Manager,
}
use yasin_core.Services.Startup.{startup_order}

abbrev pub set_state :
    {Service : Type 0} → Manager Service → String → ServiceState → Manager Service
set_state m name state = record m { states = Dict.put m.states name state }

module _ (hosting : Hosting) where
  open hosting use {Service, World, has_health, health}

  -- The state of the manager and of the world beside it.
  abbrev pub Host : Type 0
  Host = Manager Service × World

  -- services[name].m(), if there is such a method; a missing key is not met on a startup order.
  unfoldable pub call_on : Hook → String → Host → Option String × World
  unfolding call_hook Dict.get
  call_on hook name (m, world) = elim (Dict.get m.services name) [
    | none ↦ (none, world)
    | some service ↦ call_hook hosting hook service world
  ]

  -- The outcome of one `initialize()` call.
  unfoldable pub settle :
      String → Manager Service → Option String × World → Result (Unit {0}) × Host
  unfolding Dict.put
  settle name m (none, world) = (ok tt, (set_state m name active, world))
  settle name m (some message, world) =
      (err (initialization_failed name message), (set_state m name failed, world))

  unfoldable pub initialize_one : String → Host → Result (Unit {0}) × Host
  unfolding call_on settle Dict.put
  initialize_one name (m, world) =
      let m' = set_state m name initializing in settle name m' (call_on initialize name (m', world))

  -- The `for` loop; an exception leaves it.
  unfoldable pub initialize_all : List String → Host → Result (Unit {0}) × Host
  unfolding initialize_one
  initialize_all [] host = (ok tt, host)
  initialize_all (name ∷ names) host =
      let (result, host') = initialize_one name host in
      elim result [ ok _ ↦ initialize_all names host' | err e ↦ (err e, host') ]

  -- `_is_initialized = True`, behind the loop.
  abbrev pub mark_initialized : Result (Unit {0}) × Host → Result (Unit {0}) × Host
  mark_initialized (ok _, (m, world)) = (ok tt, (record m { is_initialized = true }, world))
  mark_initialized (err e, host) = (err e, host)

  unfoldable pub initialize_services : Host → Result (Unit {0}) × Host
  unfolding startup_order initialize_all
  initialize_services (m, world) =
      if m.is_initialized then (ok tt, (m, world)) else (elim (startup_order m) [
        | err e ↦ (err e, (m, world))
        | ok order ↦ mark_initialized (initialize_all order (m, world))
      ])

  -- A service that raises on shutdown keeps its state.
  abbrev pub stop_settle : String → Manager Service → Option String × World → Host
  stop_settle name m (none, world) = (set_state m name stopped, world)
  stop_settle name m (some message, world) = (m, world)

  unfoldable pub shutdown_one : String → Host → Host
  unfolding call_on Dict.get Dict.put
  shutdown_one name (m, world) = elim (Dict.get m.states name) [
    | some active ↦ stop_settle name m (call_on shutdown name (m, world))
    | _ ↦ (m, world)
  ]

  unfoldable pub shutdown_all : List String → Host → Host
  unfolding shutdown_one
  shutdown_all [] host = host
  shutdown_all (name ∷ names) host = shutdown_all names (shutdown_one name host)

  -- Without a startup order the services are taken in the order of their registration.
  unfoldable pub order_or_keys : Manager Service → List String
  unfolding startup_order Dict.keys
  order_or_keys m = elim (startup_order m) [ ok order ↦ order | err _ ↦ Dict.keys m.services ]

  abbrev pub mark_stopped : Host → Host
  mark_stopped (m, world) = (record m { is_initialized = false }, world)

  unfoldable pub shutdown_services : Host → Host
  unfolding order_or_keys shutdown_all
  shutdown_services (m, world) = mark_stopped (shutdown_all (reverse (order_or_keys m)) (m, world))

  abbrev pub reload_settle : String → Option String × World → Result (Unit {0}) × World
  reload_settle name (none, world) = (ok tt, world)
  reload_settle name (some message, world) = (err (reload_failed name message), world)

  unfoldable pub reload_one : Manager Service → String → World → Result (Unit {0}) × World
  unfolding call_on Dict.get
  reload_one m name world = elim (Dict.get m.states name) [
    | some active ↦ reload_settle name (call_on reload name (m, world))
    | _ ↦ (ok tt, world)
  ]

  unfoldable pub reload_all : Manager Service → List String → World → Result (Unit {0}) × World
  unfolding reload_one
  reload_all m [] world = (ok tt, world)
  reload_all m (name ∷ names) world =
      let (result, world') = reload_one m name world in
      elim result [ ok _ ↦ reload_all m names world' | err e ↦ (err e, world') ]

  unfoldable pub reload_services : Host → Result (Unit {0}) × World
  unfolding startup_order reload_all
  reload_services (m, world) = elim (startup_order m) [
    | err e ↦ (err (reload_dependency_error e), world)
    | ok order ↦ reload_all m order world
  ]

  -- `h.get("healthy", True) and h.get("status", "healthy") == "healthy"` for a dict.
  abbrev pub is_healthy : Option HealthReply → Bool
  is_healthy none = false
  is_healthy (some (bool_reply b)) = b
  is_healthy (some (dict_reply healthy status)) =
      (elim healthy [ none ↦ true | some b ↦ b ])
      && (elim status [ none ↦ true | some s ↦ s == "healthy" ])
  is_healthy (some other_reply) = true

  -- The entry of one service: whether it is healthy, and its state.
  unfoldable pub health_one : Service → ServiceState → World → (Bool × ServiceState) × World
  health_one service failed world = ((false, failed), world)
  health_one service active world =
      if has_health service
      then (let (reply, world') = health service world in ((is_healthy reply, active), world'))
      else ((true, active), world)
  health_one service state world = ((true, state), world)

  unfoldable pub health_all :
      Dict ServiceState → Dict Service → World → List (String × Bool × ServiceState) × World
  unfolding health_one Dict.get_or
  health_all states [] world = ([], world)
  health_all states ((name, service) ∷ rest) world =
      let ((healthy, state), world') =
        health_one service (Dict.get_or states name uninitialized) world in
      let (entries, world'') = health_all states rest world' in
      ((name, healthy, state) ∷ entries, world'')

  -- `overall_healthy`: no entry is unhealthy.
  unfoldable pub all_healthy : List (String × Bool × ServiceState) → Bool
  all_healthy [] = true
  all_healthy ((name, healthy, state) ∷ rest) = healthy && all_healthy rest

  unfoldable pub health_report : Host → (Bool × List (String × Bool × ServiceState)) × World
  unfolding health_all all_healthy
  health_report (m, world) =
      let (entries, world') = health_all m.states m.services world in
      ((all_healthy entries, entries), world')
