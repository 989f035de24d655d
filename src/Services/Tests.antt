-- ===== src/Services/Tests.antt =====
-- The service manager at the runtime's own registrations: `config`, and `execution`, which depends
-- on it. A third registration closes a cycle.
use yasin_core.Prelude.{
  ℕ, suc, String, ◌≡◌, ◌≢◌, refl, Bool, true, false, Option, none, some, List, [], ◌∷◌, arith, ◌==◌,
  eq_iff, if◌then◌else◌, ◌⊎◌, ◌↔◌,
}
use yasin_core.Prelude.Counting.{count, elem}
use yasin_core.Dict
use yasin_core.Dict.{Dict}
use yasin_core.Services.{
  active, ServiceMetadata, ServiceError, Manager, ok, err, missing_dependency, circular_dependency,
  Hosting, Hook, bool_reply, empty_manager, call_hook,
}
use yasin_core.Services.{add_service, register_named, register_service}
use yasin_core.Services.Wellformed.{IsWellformed}
use yasin_core.Services.Startup.{startup_order}
use yasin_core.Services.Startup.Links.{dependencies}
use yasin_core.Services.Startup.Loop.{Respects}
use yasin_core.Services.Startup.Acyclic.{IsRanked, IsClosed}
use yasin_core.Services.Startup.Correct.{
  startup_order-Respects, startup_order-total, startup_order-circular,
}
use yasin_core.Services.Lifecycle.{
  Host, initialize_all, initialize_services, mark_initialized, shutdown_services,
}
use yasin_core.Services.Lifecycle.Started.{
  Started, initialize_services_outcome, initialize_services_dependencies_active,
}
use yasin_core.Services.Lifecycle.Shutdown.{IsCalm, shutdown_services-none_active}
use yasin_core.Services.History.{Call, registers, initializes, run, run-IsWellformed}

-- A service is the answer to its `initialize` call; the world counts the calls.
abbrev demo_call : Hook → Bool → ℕ → Option String × ℕ
demo_call Hook.initialize false w = (some "boom", suc w)
demo_call hook service w = (none, suc w)

abbrev demo : Hosting
demo = record {
  Service = Bool;
  World = ℕ;
  has_method = λ hook service. true;
  call = demo_call;
  has_health = λ service. true;
  health = λ service w. (some (bool_reply service), w);
}

abbrev meta : String → List String → ServiceMetadata
meta name deps = record { name = name; version = "3.0.0"; description = ""; dependencies = deps }

abbrev runtime_calls : List (Call demo)
runtime_calls =
    registers true (meta "execution" ("config" ∷ [])) ∷ registers true (meta "config" []) ∷ []

abbrev runtime : Manager Bool
runtime = (run demo runtime_calls (empty_manager, 0)).0

runtime-IsWellformed : IsWellformed runtime
runtime-IsWellformed = run-IsWellformed demo runtime_calls 0

runtime_order : startup_order runtime ≡ ok ("config" ∷ "execution" ∷ [])
unfolding run startup_order empty_manager
runtime_order = refl

startup_order-Respects_example :
    ((n : String) → count n ("config" ∷ "execution" ∷ []) ≡ count n (Dict.keys runtime.services))
    × Respects (dependencies runtime.metadata) [] ("config" ∷ "execution" ∷ [])
startup_order-Respects_example =
    startup_order-Respects runtime runtime-IsWellformed ("config" ∷ "execution" ∷ []) runtime_order

run-IsWellformed_example : IsWellformed (run demo runtime_calls (empty_manager, 0)).0
run-IsWellformed_example = run-IsWellformed demo runtime_calls 0

abbrev depth : String → ℕ
depth n = if "execution" == n then 1 else 0

runtime-IsRanked : IsRanked depth (dependencies runtime.metadata)
unfolding run empty_manager elem Dict.get
runtime-IsRanked n dep h = ground (
  arith,
  eq_iff "execution" n,
  eq_iff "config" n,
  eq_iff "config" dep,
  eq_iff "execution" dep,
  eq_iff "config" "execution",
)

runtime-IsClosed : IsClosed (Dict.keys runtime.services) (dependencies runtime.metadata)
unfolding run empty_manager elem Dict.get Dict.keys
runtime-IsClosed n dep h =
    ground
      (arith, eq_iff "execution" n, eq_iff "config" n, eq_iff "config" dep, eq_iff "execution" dep)

startup_order-total_example : (order : List String) × (startup_order runtime ≡ ok order)
startup_order-total_example =
    startup_order-total runtime runtime-IsWellformed depth runtime-IsClosed runtime-IsRanked

-- `a` and `b` depend on one another.
abbrev circular_calls : List (Call demo)
circular_calls = registers true (meta "a" ("b" ∷ [])) ∷ registers true (meta "b" ("a" ∷ [])) ∷ []

abbrev circular : Manager Bool
circular = (run demo circular_calls (empty_manager, 0)).0

circular-IsClosed : IsClosed (Dict.keys circular.services) (dependencies circular.metadata)
unfolding run empty_manager elem Dict.get Dict.keys
circular-IsClosed n dep h =
    ground (arith, eq_iff "a" n, eq_iff "b" n, eq_iff "a" dep, eq_iff "b" dep)

startup_order-circular_example :
    (startup_order circular ≡ err circular_dependency)
    ↔ ((rank : String → ℕ) → ¬ IsRanked rank (dependencies circular.metadata))
startup_order-circular_example =
    startup_order-circular circular (run-IsWellformed demo circular_calls 0) circular-IsClosed

circular_order : startup_order circular ≡ err circular_dependency
unfolding run startup_order empty_manager
circular_order = refl

-- The execution service without its configuration.
abbrev missing_calls : List (Call demo)
missing_calls = registers true (meta "execution" ("config" ∷ [])) ∷ []

abbrev missing : Manager Bool
missing = (run demo missing_calls (empty_manager, 0)).0

missing_order : startup_order missing ≡ err (missing_dependency "execution" "config")
unfolding run startup_order empty_manager
missing_order = refl

runtime_fresh : runtime.is_initialized ≡ false
unfolding run empty_manager
runtime_fresh = refl

initialize_services_outcome_example :
    let (result, host') = initialize_services demo (runtime, 0) in
    ((e : ServiceError) × (startup_order runtime ≡ err e)
      × (result ≡ err e)
      × (host' ≡ (runtime, 0)))
    ⊎ ((order : List String) × (startup_order runtime ≡ ok order)
        × ((n : String) → count n order ≡ count n (Dict.keys runtime.services))
        × Started demo order (runtime, 0) result host')
initialize_services_outcome_example =
    initialize_services_outcome demo runtime 0 runtime_fresh runtime-IsWellformed

abbrev config_started : Host demo
config_started = (initialize_all demo ("config" ∷ []) (runtime, 0)).1

initialize_services_dependencies_active_example :
    (initialize_services demo (runtime, 0)
      ≡ mark_initialized demo (initialize_all demo ("execution" ∷ []) config_started))
    × ((dep : String)
        → elem dep (dependencies runtime.metadata "execution") ≡ true
        → Dict.get config_started.0.states dep ≡ some active)
unfolding run empty_manager initialize_all
initialize_services_dependencies_active_example =
    initialize_services_dependencies_active demo runtime 0 runtime_fresh ("config" ∷ []) "execution"
      [] config_started runtime-IsWellformed runtime_order refl

demo-IsCalm : IsCalm demo
unfolding call_hook
demo-IsCalm true w = refl
demo-IsCalm false w = refl

abbrev started : Manager Bool
started = (initialize_services demo (runtime, 0)).1.0

started-IsWellformed : IsWellformed started
unfolding run empty_manager
started-IsWellformed =
    run-IsWellformed demo
      (registers true (meta "execution" ("config" ∷ []))
        ∷ registers true (meta "config" [])
        ∷ initializes
        ∷ [])
      0

shutdown_services-none_active_example :
    Dict.get (shutdown_services demo (started, 0)).0.states "config" ≢ some active
unfolding run empty_manager Dict.has initialize_services
shutdown_services-none_active_example =
    shutdown_services-none_active demo demo-IsCalm started 0 "config" started-IsWellformed refl

abbrev with_storage : Manager Bool
with_storage = add_service runtime true (meta "storage" [])

storage_accepted : register_named runtime "storage" true "3.0.0" "" [] ≡ ok with_storage
unfolding register_named register_service run empty_manager Dict.has elem Dict.keys
storage_accepted = refl
