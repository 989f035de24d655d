-- ===== src/Plugins/Outcomes.antt =====
-- How `load_plugin`, `start_plugin` and `shutdown` leave a plugin.
use yasin_core.Prelude.{
  ℕ, zero, suc, ◌≡◌, ◌⊎◌, refl, ap, ◌∙◌, String, Bool, true, Option, none, some, List, [], ◌∷◌,
  if◌then◌else◌, eq_refl, length, inl, inr,
}
use yasin_core.Dict
use yasin_core.Dict.{Dict, get_or-put, get-put}
use yasin_core.Plugins.{
  is_none, YasinPlugin, Host, PluginState, registered, loaded, failed, Hook, on_initialize, on_load,
  PluginFailure, during, raised, too_deep, PluginEvent, plugin_loaded, PluginRegistry, Validation,
  valid, invalid, validate, dependencies_of, state_of, call, fail_plugin, settle_hook,
}
use yasin_core.Plugins.Lifecycle.{
  load_hooks, load_plugin, after_dependencies, after_validation, start_plugin, start_each,
}

-- Either the operation returned and the plugin is in the state, or what was raised is noted and the plugin has failed.
abbrev pub Settled : Hook → String → PluginState → Option PluginFailure × PluginRegistry → Type 0
Settled stage name state (e, s) =
    ((e ≡ none) × (state_of name s ≡ state))
    ⊎ ((f : PluginFailure) × (e ≡ some (during stage name f))
        × (state_of name s ≡ failed)
        × (Dict.get s.errors name ≡ some f))

pub put-own :
    (d : Dict PluginState) (name : String) (state other : PluginState)
    → Dict.get_or (Dict.put d name state) name other ≡ state
put-own d name state other = rw (get_or-put d name name state other, eq_refl name) refl

fail_plugin-Settled :
    (stage : Hook) (name : String) (state : PluginState) (f : PluginFailure) (s : PluginRegistry)
    → Settled stage name state (fail_plugin stage name f s)
unfolding fail_plugin state_of
fail_plugin-Settled stage name state f s = inr (
  f,
  refl,
  put-own s.states name failed registered,
  rw (get-put s.errors name name f, eq_refl name) refl,
)

pub settle_hook-Settled :
    (stage : Hook) (name : String) (state : PluginState) (e : PluginEvent)
    (r : Option String × PluginRegistry)
    → Settled stage name state (settle_hook stage name state e r)
unfolding settle_hook state_of
settle_hook-Settled stage name state e (none, s) =
    inl (refl, put-own s.states name state registered)
settle_hook-Settled stage name state e (some message, s) =
    fail_plugin-Settled stage name state (raised message) s

load_hooks-Settled :
    (host : Host) (name : String) (s : PluginRegistry)
    → Settled on_load name loaded (load_hooks host name s)
load_hooks-Settled host name s = after_first (call host on_initialize name s)
  where
    after_first :
        (r : Option String × PluginRegistry)
        → Settled on_load name loaded (elim r.0 [
          | some message ↦ fail_plugin on_load name (raised message) r.1
          | none ↦ settle_hook on_load name loaded (plugin_loaded name) (
              let (f, s2) : Option String × PluginRegistry = call host on_load name r.1 in
              (f, if is_none f then record s2 { errors = Dict.remove s2.errors name } else s2))
        ])
    after_first (some message, t) = fail_plugin-Settled on_load name loaded (raised message) t
    after_first (none, t) = settle_hook-Settled on_load name loaded (plugin_loaded name) _

after_dependencies-Settled :
    (host : Host) (name : String) (r : Option PluginFailure × PluginRegistry)
    → Settled on_load name loaded (after_dependencies host name r)
after_dependencies-Settled host name (some e, s) = fail_plugin-Settled on_load name loaded e s
after_dependencies-Settled host name (none, s) = load_hooks-Settled host name s

after_validation-Settled :
    (v : Validation) (go : PluginRegistry → Option PluginFailure × PluginRegistry) (name : String)
    (s : PluginRegistry)
    → Settled on_load name loaded (go s)
    → Settled on_load name loaded (after_validation v go name s)
after_validation-Settled (invalid e) go name s h = fail_plugin-Settled on_load name loaded e s
after_validation-Settled (valid visited) go name s h = h

-- A registered plugin that is not loaded ends in one of two ways: `load_plugin` returns and the plugin is LOADED, or it raises
-- the failure of the loading, the plugin is FAILED, and the cause is noted under its name. Where its
-- dependencies are not accepted, that is the failure, and no hook of any plugin was called.
pub load_plugin-outcome :
    (host : Host) (fuel : ℕ) (name : String) (plugin : YasinPlugin) (s : PluginRegistry)
    → Dict.get s.plugins name ≡ some plugin
    → state_of name s ≡ registered
    → Settled on_load name loaded (load_plugin host (suc fuel) name s)
      × ((e : PluginFailure)
          → validate host (suc (length s.plugins)) s.plugins [] [] name ≡ invalid e
          → ((load_plugin host (suc fuel) name s).0 ≡ some (during on_load name e))
            × ((load_plugin host (suc fuel) name s).1.calls ≡ s.calls))
unfolding load_plugin fail_plugin
load_plugin-outcome host fuel name plugin s g r = (
  rw (g, load_plugin, r)
      (after_validation-Settled (validate host (suc (length s.plugins)) s.plugins [] [] name) _ name
        s (after_dependencies-Settled host name _)),
  λ e v. rw (load_plugin, g, r, v) (refl, refl),
)

start_each-fails :
    (go : String → PluginRegistry → Option PluginFailure × PluginRegistry) (dep : String)
    (deps : List String) (s : PluginRegistry) (e : PluginFailure)
    → state_of dep s ≡ failed
    → go dep s ≡ (some e, s)
    → start_each go (dep ∷ deps) s ≡ (some e, s)
start_each-fails go dep deps s e f h = rw (start_each, f, h) refl

-- A cycle of dependencies that has failed to load sends `start_plugin` into an endless recursion: where each plugin of a set
-- is FAILED and has a plugin of the set as its first dependency, the call runs out of any depth.
pub start_plugin-circular :
    (host : Host) (fuel : ℕ) (cycle : String → Bool) (s : PluginRegistry) (name : String)
    → ((n : String)
        → cycle n ≡ true
        → (plugin : YasinPlugin) × (next : String) × (rest : List String) × (Dict.get s.plugins n
            ≡ some plugin)
          × (plugin.dependencies ≡ next ∷ rest)
          × (cycle next ≡ true)
          × (state_of n s ≡ failed))
    → cycle name ≡ true
    → start_plugin host fuel name s ≡ (some too_deep, s)
unfolding start_plugin
start_plugin-circular host zero cycle s name h c = refl
start_plugin-circular host (suc fuel) cycle s name h c =
    let (plugin, next, rest, g, d, c', f) = h name c in
    let (plugin', next', rest', g', d', c'', f') = h next c' in
    rw
      (
        start_plugin,
        g,
        f,
        ap dependencies_of g ∙ d,
        start_each-fails (start_plugin host fuel) next rest s too_deep f'
            (start_plugin-circular host fuel cycle s next h c'),
      )
      refl
