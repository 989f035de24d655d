-- ===== src/Plugins/Lifecycle.antt =====
-- `load_plugin`, `unload_plugin`, `start_plugin`, `stop_plugin` and `unregister` of yasin_core/plugins/registry.py.
use yasin_core.Prelude.{
  ℕ, zero, suc, String, Bool, true, false, not, ◌&&◌, Option, none, some, List, [], ◌∷◌,
  if◌then◌else◌, ◌==◌, length,
}
use yasin_core.Prelude.Counting.{elem}
use yasin_core.Dict
use yasin_core.Dict.{Dict}
use yasin_core.Plugins.{
  state_of, dependencies_of, call, fail_plugin, settle_hook, is_active, is_registered, is_none,
  validate, unless_raised, load_each, PluginState, YasinPlugin, PluginFailure, Host, PluginRegistry,
  Validation, registered, loaded, active, stopped, failed, on_initialize, on_load, on_start,
  on_stop, on_unload, not_found, has_dependents, raised, too_deep, plugin_loaded, plugin_unloaded,
  plugin_started, plugin_stopped, valid, invalid,
}

-- The `try` block of `load_plugin`.
abbrev pub load_hooks : Host → String → PluginRegistry → Option PluginFailure × PluginRegistry
load_hooks host name s =
    let (e, s1) : Option String × PluginRegistry = call host on_initialize name s in
    elim e [
      | some message ↦ fail_plugin on_load name (raised message) s1
      | none ↦ settle_hook on_load name loaded (plugin_loaded name) (
          let (f, s2) : Option String × PluginRegistry = call host on_load name s1 in
          (f, if is_none f then record s2 { errors = Dict.remove s2.errors name } else s2))
    ]

abbrev pub after_dependencies :
    Host → String → Option PluginFailure × PluginRegistry → Option PluginFailure × PluginRegistry
after_dependencies host name (some e, s) = fail_plugin on_load name e s
after_dependencies host name (none, s) = load_hooks host name s

abbrev pub after_validation :
    Validation
    → (PluginRegistry → Option PluginFailure × PluginRegistry)
    → String
    → PluginRegistry
    → Option PluginFailure × PluginRegistry
after_validation (invalid e) go name s = fail_plugin on_load name e s
after_validation (valid visited) go name s = go s

-- load_plugin
unfoldable pub load_plugin :
    Host → ℕ → String → PluginRegistry → Option PluginFailure × PluginRegistry
unfolding Dict.get Dict.remove validate fail_plugin settle_hook state_of
load_plugin host zero name s = (some too_deep, s)
load_plugin host (suc fuel) name s =
    let go = λ (t : PluginRegistry).
      after_dependencies host name
        (load_each (load_plugin host fuel) (dependencies_of (Dict.get s.plugins name)) t) in
    let checked =
      after_validation (validate host (suc (length s.plugins)) s.plugins [] [] name) go name s in
    elim (Dict.get s.plugins name) [
      | none ↦ (some (not_found name), s)
      | some plugin ↦ if is_registered (state_of name s) then checked else (none, s)
    ]

-- stop_plugin
unfoldable pub stop_plugin : Host → String → PluginRegistry → Option PluginFailure × PluginRegistry
unfolding Dict.get settle_hook state_of
stop_plugin host name s = elim (Dict.get s.plugins name) [
  | none ↦ (some (not_found name), s)
  | some plugin ↦
      if is_active (state_of name s)
      then settle_hook on_stop name stopped (plugin_stopped name) (call host on_stop name s)
      else (none, s)
]

abbrev pub unload_hook : Host → String → PluginRegistry → Option PluginFailure × PluginRegistry
unload_hook host name s =
    settle_hook on_unload name registered (plugin_unloaded name) (call host on_unload name s)

abbrev pub unload_stopped :
    Host → String → Option PluginFailure × PluginRegistry → Option PluginFailure × PluginRegistry
unload_stopped host name (some e, s) = (some e, s)
unload_stopped host name (none, s) = unload_hook host name s

-- unload_plugin
unfoldable pub unload_plugin :
    Host → String → PluginRegistry → Option PluginFailure × PluginRegistry
unfolding Dict.get settle_hook state_of stop_plugin
unload_plugin host name s = elim (Dict.get s.plugins name) [
  | none ↦ (some (not_found name), s)
  | some plugin ↦ elim (state_of name s) [
    | registered ↦ (none, s)
    | active ↦ unload_stopped host name (stop_plugin host name s)
    | loaded ↦ unload_hook host name s
    | stopped ↦ unload_hook host name s
    | failed ↦ unload_hook host name s
  ]
]

-- The dependencies that are not active are started, in order, until one raises.
abbrev pub start_each :
    (String → PluginRegistry → Option PluginFailure × PluginRegistry)
    → List String
    → PluginRegistry
    → Option PluginFailure × PluginRegistry
start_each go [] s = (none, s)
start_each go (dep ∷ deps) s =
    unless_raised (if is_active (state_of dep s) then (none, s) else go dep s) (start_each go deps)

abbrev pub start_hook :
    Host → String → Option PluginFailure × PluginRegistry → Option PluginFailure × PluginRegistry
start_hook host name (some e, s) = (some e, s)
start_hook host name (none, s) =
    settle_hook on_start name active (plugin_started name) (call host on_start name s)

-- start_plugin
unfoldable pub start_plugin :
    Host → ℕ → String → PluginRegistry → Option PluginFailure × PluginRegistry
unfolding Dict.get load_plugin settle_hook state_of
start_plugin host zero name s = (some too_deep, s)
start_plugin host (suc fuel) name s =
    let go = λ (t : PluginRegistry).
      start_hook host name
        (start_each (start_plugin host fuel) (dependencies_of (Dict.get s.plugins name)) t) in
    let started =
      unless_raised
        (if is_registered (state_of name s)
          then load_plugin host (suc (length s.plugins)) name s
          else (none, s))
        go in
    elim (Dict.get s.plugins name) [
      | none ↦ (some (not_found name), s)
      | some plugin ↦ if is_active (state_of name s) then (none, s) else started
    ]

abbrev pub is_brought_up : PluginState → Bool
is_brought_up active = true
is_brought_up loaded = true
is_brought_up stopped = true
is_brought_up _ = false

-- The other plugins that name it among their dependencies.
unfoldable pub plugin_dependents : String → Dict YasinPlugin → List String
unfolding elem
plugin_dependents name [] = []
plugin_dependents name ((other, plugin) ∷ rest) =
    let found = plugin_dependents name rest in
    if not (other == name) && elem name plugin.dependencies then other ∷ found else found

abbrev pub bring_down : Host → String → PluginState → PluginRegistry → PluginRegistry
bring_down host name state s =
    let s1 = if is_active state then (stop_plugin host name s).1 else s in
    if is_brought_up state then (unload_plugin host name s1).1 else s1

abbrev pub forget_plugin : String → PluginRegistry → PluginRegistry
forget_plugin name s = record s {
  plugins = Dict.remove s.plugins name;
  states = Dict.remove s.states name;
  errors = Dict.remove s.errors name;
}

-- PluginRegistry.unregister
unfoldable pub unregister_plugin :
    Host → String → PluginRegistry → Option PluginFailure × PluginRegistry
unfolding Dict.has Dict.remove plugin_dependents state_of stop_plugin unload_plugin
unregister_plugin host name s =
    if Dict.has s.plugins name
    then elim (plugin_dependents name s.plugins) [
      | d ∷ ds ↦ (some (has_dependents name (d ∷ ds)), s)
      | [] ↦ (none, forget_plugin name (bring_down host name (state_of name s) s))
    ]
    else (some (not_found name), s)
