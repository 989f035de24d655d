-- ===== src/Plugins/Service.antt =====
-- `initialize`, `shutdown`, `reload` and `health` of yasin_core/plugins/registry.py.
use yasin_core.Prelude.{
  suc, String, Bool, true, false, not, ◌&&◌, Option, none, some, List, [], ◌∷◌, reverse,
  if◌then◌else◌, length,
}
use yasin_core.Dict
use yasin_core.Dict.{Dict}
use yasin_core.Plugins.{
  state_of, is_active, is_failed, validate, PluginState, PluginFailure, Host, PluginRegistry,
  loaded, stopped, failed, valid, invalid,
}
use yasin_core.Plugins.Lifecycle.{load_plugin, stop_plugin, unload_plugin, start_plugin}

-- PluginRegistry.initialize: what a plugin raises is noted, and the next one is tried.
abbrev pub note_failure : String → Option PluginFailure × PluginRegistry → PluginRegistry
note_failure name (none, s) = s
note_failure name (some e, s) = record s {
  states = Dict.put s.states name failed;
  errors = Dict.put s.errors name e;
}

unfoldable pub initialize_plugin : Host → String → PluginRegistry → PluginRegistry
unfolding validate load_plugin Dict.put
initialize_plugin host name s =
    let fuel = suc (length s.plugins) in
    note_failure name (elim (validate host fuel s.plugins [] [] name) [
      | invalid e ↦ (some e, s)
      | valid visited ↦ load_plugin host fuel name s
    ])

unfoldable pub initialize_plugins : Host → List String → PluginRegistry → PluginRegistry
unfolding initialize_plugin
initialize_plugins host [] s = s
initialize_plugins host (name ∷ names) s =
    initialize_plugins host names (initialize_plugin host name s)

abbrev pub can_unload : PluginState → Bool
can_unload loaded = true
can_unload stopped = true
can_unload _ = false

abbrev pub unload_if_down : Host → String → Option PluginFailure × PluginRegistry → PluginRegistry
unload_if_down host name (some e, s) = s
unload_if_down host name (none, s) =
    if can_unload (state_of name s) then (unload_plugin host name s).1 else s

unfoldable pub shutdown_plugins : Host → List String → PluginRegistry → PluginRegistry
unfolding state_of stop_plugin unload_plugin
shutdown_plugins host [] s = s
shutdown_plugins host (name ∷ names) s = shutdown_plugins host names (
    unload_if_down host name
      (if is_active (state_of name s) then stop_plugin host name s else (none, s)))

-- PluginRegistry.initialize and PluginRegistry.shutdown
unfoldable pub initialize_registry : Host → PluginRegistry → PluginRegistry
unfolding initialize_plugins Dict.keys
initialize_registry host s = initialize_plugins host (Dict.keys s.plugins) s

unfoldable pub shutdown_registry : Host → PluginRegistry → PluginRegistry
unfolding shutdown_plugins Dict.keys
shutdown_registry host s = shutdown_plugins host (reverse (Dict.keys s.plugins)) s

abbrev pub active_names : Dict PluginState → List String
active_names [] = []
active_names ((name, state) ∷ rest) =
    let found = active_names rest in if is_active state then name ∷ found else found

unfoldable pub restart_plugins : Host → List String → PluginRegistry → PluginRegistry
unfolding Dict.has state_of start_plugin
restart_plugins host [] s = s
restart_plugins host (name ∷ names) s = restart_plugins host names (
    if Dict.has s.plugins name && not (is_failed (state_of name s))
    then (start_plugin host (suc (length s.plugins)) name s).1
    else s)

-- PluginRegistry.reload
unfoldable pub reload_registry : Host → PluginRegistry → PluginRegistry
unfolding shutdown_registry initialize_registry restart_plugins
reload_registry host s =
    restart_plugins host (active_names s.states)
      (initialize_registry host (shutdown_registry host s))

-- PluginRegistry.health
unfoldable pub failed_plugins : Dict PluginState → List String
failed_plugins [] = []
failed_plugins ((name, state) ∷ rest) =
    let found = failed_plugins rest in if is_failed state then name ∷ found else found
