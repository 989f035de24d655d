-- ===== src/Plugins/Tests.antt =====
-- A plugin over another one, and two that depend on each other.
use yasin_core.Prelude.{
  ◌≡◌, refl, String, Bool, true, false, ◌||◌, none, some, List, [], ◌∷◌, ◌==◌, eq_iff, Bool-cases,
  inl, inr, arith,
}
use yasin_core.Prelude.Counting.{elem}
use yasin_core.Cron.{codes, split_on}
use yasin_core.Dict
use yasin_core.Dict.{Dict}
use yasin_core.Plugins.{
  YasinPlugin, Host, registered, loaded, active, failed, on_load, on_stop, PluginFailure, during,
  too_deep, PluginRegistry, valid, invalid, validate, state_of,
}
use yasin_core.Plugins.Versions.{check_version_compatibility, check_expression, parse_version}
use yasin_core.Plugins.Lifecycle.{load_plugin, start_plugin}
use yasin_core.Plugins.Service.{shutdown_registry}
use yasin_core.Plugins.Dependencies.{IsOrdered, validate-IsOrdered}
use yasin_core.Plugins.Depth.{ran_out, validate-terminates}
use yasin_core.Plugins.Outcomes.{Settled, load_plugin-outcome, start_plugin-circular}
use yasin_core.Plugins.Shutdown.{Down, shutdown_registry-Down}

abbrev quiet : Host
quiet = record { outcome = λ calls hook name. none; core_version = codes "3.4.0" }

abbrev plugin : String → List String → YasinPlugin
plugin name dependencies = record {
  name = name;
  version = codes "1.0.0";
  dependencies = dependencies;
  core_version_compat = codes "^3.1";
}

abbrev pair : Dict YasinPlugin
pair = ("ui", plugin "ui" ("core" ∷ [])) ∷ ("core", plugin "core" []) ∷ []

pair-valid : validate quiet 3 pair [] [] "ui" ≡ valid ("ui" ∷ "core" ∷ [])
unfolding validate Dict.get elem check_version_compatibility check_expression parse_version split_on
pair-valid = refl

validate-IsOrdered_example :
    IsOrdered quiet pair ("ui" ∷ "core" ∷ []) × (elem "ui" ("ui" ∷ "core" ∷ []) ≡ true)
validate-IsOrdered_example = validate-IsOrdered quiet pair 3 "ui" ("ui" ∷ "core" ∷ []) pair-valid

abbrev ring : Dict YasinPlugin
ring = ("a", plugin "a" ("b" ∷ [])) ∷ ("b", plugin "b" ("a" ∷ [])) ∷ []

validate-terminates_example : ran_out (validate quiet 3 ring [] [] "a") ≡ false
validate-terminates_example = validate-terminates quiet ring "a"

abbrev new_pair : PluginRegistry
new_pair = record {
  plugins = pair;
  states = ("ui", registered) ∷ ("core", registered) ∷ [];
  errors = [];
  published = [];
  calls = [];
}

ui_found : Dict.get new_pair.plugins "ui" ≡ some (plugin "ui" ("core" ∷ []))
unfolding Dict.get
ui_found = refl

ui_registered : state_of "ui" new_pair ≡ registered
unfolding state_of Dict.get_or
ui_registered = refl

load_plugin-outcome_example :
    Settled on_load "ui" loaded (load_plugin quiet 3 "ui" new_pair)
    × ((e : PluginFailure)
        → validate quiet 3 pair [] [] "ui" ≡ invalid e
        → ((load_plugin quiet 3 "ui" new_pair).0 ≡ some (during on_load "ui" e))
          × ((load_plugin quiet 3 "ui" new_pair).1.calls ≡ []))
load_plugin-outcome_example =
    load_plugin-outcome quiet 2 "ui" (plugin "ui" ("core" ∷ [])) new_pair ui_found ui_registered

abbrev failed_ring : PluginRegistry
failed_ring = record {
  plugins = ring;
  states = ("a", failed) ∷ ("b", failed) ∷ [];
  errors = [];
  published = [];
  calls = [];
}

abbrev in_ring : String → Bool
in_ring n = n == "a" || n == "b"

ring_entry :
    (n : String)
    → in_ring n ≡ true
    → (p : YasinPlugin) × (next : String) × (rest : List String) × (Dict.get ring n ≡ some p)
      × (p.dependencies ≡ next ∷ rest)
      × (in_ring next ≡ true)
      × (state_of n failed_ring ≡ failed)
unfolding Dict.get state_of Dict.get_or
ring_entry n h = elim (Bool-cases (n == "a")) [
  | inl e ↦ (
    plugin "a" ("b" ∷ []),
    "b",
    [],
    ground (arith, e, eq_iff n "a"),
    refl,
    refl,
    ground (arith, e, eq_iff n "a"),
  )
  | inr e ↦ (
    plugin "b" ("a" ∷ []),
    "a",
    [],
    ground (arith, e, h, eq_iff n "a", eq_iff n "b", eq_iff "a" n),
    refl,
    refl,
    ground (arith, e, h, eq_iff n "a", eq_iff n "b"),
  )
]

start_plugin-circular_example :
    start_plugin quiet 100 "a" failed_ring ≡ (some too_deep, failed_ring)
start_plugin-circular_example =
    start_plugin-circular quiet 100 in_ring failed_ring "a" ring_entry refl

abbrev running : PluginRegistry
running = record new_pair { states = ("ui", active) ∷ ("core", active) ∷ [] }

-- A host where every plugin raises when it is stopped.
abbrev stubborn : Host
stubborn = record {
  outcome = λ calls hook name. elim hook [ on_stop ↦ some "boom" | _ ↦ none ];
  core_version = codes "3.4.0";
}

shutdown_registry-Down_example :
    Down running.calls
      (state_of "ui" running ≡ failed)
      stubborn
      "ui"
      (shutdown_registry stubborn running)
shutdown_registry-Down_example =
    shutdown_registry-Down stubborn "ui" (plugin "ui" ("core" ∷ [])) running ui_found
