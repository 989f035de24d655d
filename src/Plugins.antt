-- ===== src/Plugins.antt =====
-- yasin_core/plugins/registry.py: plugins, their states and their life cycle. What a plugin's hook does is a
-- function of the calls before it; a hook does not call the registry. `none` is a normal return.
-- The recursion over dependencies runs on fuel; without fuel it is a RecursionError.
pub mod Versions
pub mod Lifecycle
pub mod Service
pub mod Dependencies
pub mod Depth
pub mod Outcomes
pub mod Shutdown
mod Tests
use yasin_core.Prelude.{
  ℕ, zero, suc, String, Bool, true, false, not, ◌&&◌, ◌||◌, Option, none, some, List, [], ◌∷◌, ◌++◌,
  reverse, if◌then◌else◌, ◌==◌, length,
}
use yasin_core.Prelude.Counting.{elem}
use yasin_core.Dict
use yasin_core.Dict.{Dict}
use yasin_core.Cron.{Text}
use yasin_core.Plugins.Versions.{check_version_compatibility}

pub data PluginState : Type 0 where
  registered loaded active stopped failed : PluginState

pub record YasinPlugin : Type 0 where
  pub name : String
  pub version : Text
  pub dependencies : List String
  pub core_version_compat : Text

pub data Hook : Type 0 where
  on_initialize on_load on_start on_stop on_unload : Hook

-- What is raised; `raised` is the exception of a hook.
pub data PluginFailure : Type 0 where
  not_found circular missing incompatible : String → PluginFailure
  has_dependents : String → List String → PluginFailure
  raised : String → PluginFailure
  during : Hook → String → PluginFailure → PluginFailure
  too_deep : PluginFailure

pub record Host : Type 0 where
  pub outcome : List (Hook × String) → Hook → String → Option String
  pub core_version : Text

pub data PluginEvent : Type 0 where
  plugin_registered plugin_loaded plugin_unloaded plugin_started plugin_stopped :
      String → PluginEvent
  plugin_failed : String → Hook → PluginEvent

pub record PluginRegistry : Type 0 where
  pub plugins : Dict YasinPlugin
  pub states : Dict PluginState
  pub errors : Dict PluginFailure
  pub published : List PluginEvent
  pub calls : List (Hook × String)

abbrev pub publish_plugin : PluginEvent → PluginRegistry → PluginRegistry
publish_plugin e s = record s { published = s.published ++ e ∷ [] }

abbrev pub enter_state : String → PluginState → PluginRegistry → PluginRegistry
enter_state name state s = record s { states = Dict.put s.states name state }

-- PluginRegistry.register
unfoldable pub register_plugin : YasinPlugin → PluginRegistry → PluginRegistry
unfolding Dict.put Dict.remove
register_plugin plugin s = publish_plugin (plugin_registered plugin.name) (record s {
  plugins = Dict.put s.plugins plugin.name plugin;
  states = Dict.put s.states plugin.name registered;
  errors = Dict.remove s.errors plugin.name;
})

-- self.states.get(name, REGISTERED)
unfoldable pub state_of : String → PluginRegistry → PluginState
unfolding Dict.get_or
state_of name s = Dict.get_or s.states name registered

unfoldable pub get_state : String → PluginRegistry → Option PluginState
unfolding Dict.has state_of
get_state name s = if Dict.has s.plugins name then some (state_of name s) else none

abbrev pub dependencies_of : Option YasinPlugin → List String
dependencies_of none = []
dependencies_of (some plugin) = plugin.dependencies

-- One hook, and whether it raised.
abbrev pub call : Host → Hook → String → PluginRegistry → Option String × PluginRegistry
call host hook name s =
    (host.outcome s.calls hook name, record s { calls = s.calls ++ (hook, name) ∷ [] })

-- The `except` branch of an operation.
unfoldable pub fail_plugin :
    Hook → String → PluginFailure → PluginRegistry → Option PluginFailure × PluginRegistry
unfolding Dict.put
fail_plugin stage name e s = (
  some (during stage name e),
  publish_plugin (plugin_failed name stage)
      (record s { states = Dict.put s.states name failed; errors = Dict.put s.errors name e }),
)

-- What follows the last hook of an operation.
unfoldable pub settle_hook :
    Hook
    → String
    → PluginState
    → PluginEvent
    → Option String × PluginRegistry
    → Option PluginFailure × PluginRegistry
unfolding Dict.put fail_plugin
settle_hook stage name state e (none, s) = (none, publish_plugin e (enter_state name state s))
settle_hook stage name state e (some message, s) = fail_plugin stage name (raised message) s

abbrev pub is_active : PluginState → Bool
is_active active = true
is_active _ = false

abbrev pub is_registered : PluginState → Bool
is_registered registered = true
is_registered _ = false

abbrev pub is_none : Option String → Bool
is_none none = true
is_none (some e) = false

abbrev pub is_failed : PluginState → Bool
is_failed failed = true
is_failed _ = false

-- The visited names, or what is raised; `visited` has the names that were finished, the last one first.
pub data Validation : Type 0 where
  valid : List String → Validation
  invalid : PluginFailure → Validation

abbrev pub chain : (List String → String → Validation) → Validation → List String → Validation
chain go (invalid e) deps = invalid e
chain go (valid visited) [] = valid visited
chain go (valid visited) (dep ∷ deps) = chain go (go visited dep) deps

abbrev pub finish : String → Validation → Validation
finish name (invalid e) = invalid e
finish name (valid visited) = valid (name ∷ visited)

abbrev pub check_core : Host → String → Option YasinPlugin → Validation → Validation
check_core host name none otherwise = invalid (missing name)
check_core host name (some plugin) otherwise =
    if check_version_compatibility plugin.core_version_compat host.core_version
    then otherwise
    else invalid (incompatible name)

-- validate_dependencies
unfoldable pub validate :
    Host → ℕ → Dict YasinPlugin → List String → List String → String → Validation
unfolding Dict.get elem
validate host zero plugins stack visited name = invalid too_deep
validate host (suc fuel) plugins stack visited name =
    let below =
      chain (validate host fuel plugins (name ∷ stack)) (valid visited)
        (dependencies_of (Dict.get plugins name)) in
    let checked = check_core host name (Dict.get plugins name) (finish name below) in
    if elem name stack
    then invalid (circular name)
    else if elem name visited
    then valid visited
    else checked

-- The rest of an operation, unless something was raised.
abbrev pub unless_raised :
    Option PluginFailure × PluginRegistry
    → (PluginRegistry → Option PluginFailure × PluginRegistry)
    → Option PluginFailure × PluginRegistry
unless_raised (some e, s) go = (some e, s)
unless_raised (none, s) go = go s

-- The dependencies that are only registered are loaded, in order, until one raises.
abbrev pub load_each :
    (String → PluginRegistry → Option PluginFailure × PluginRegistry)
    → List String
    → PluginRegistry
    → Option PluginFailure × PluginRegistry
load_each go [] s = (none, s)
load_each go (dep ∷ deps) s =
    unless_raised (if is_registered (state_of dep s) then go dep s else (none, s))
      (load_each go deps)
