-- ===== src/Plugins/Shutdown.antt =====
-- What `shutdown` leaves of the plugins.
use yasin_core.Prelude.{
  ◌++◌, append_assoc, append_nil, Option-cases, ◌≡◌, ◌⊎◌, refl, sym, ap, ◌∙◌, subst, String, Bool,
  true, false, Option, none, some, List, [], ◌∷◌, reverse, if◌then◌else◌, ◌==◌, eq_iff, eq_refl,
  Bool-cases, inl, inr, arith,
}
use yasin_core.Prelude.Counting.{elem, elem→count, count→elem, count-reverse}
use yasin_core.Dict
use yasin_core.Dict.{Dict, get_or-put, get-put, has-get, get-has}
use yasin_core.Plugins.{
  YasinPlugin, Host, during, raised, PluginState, registered, loaded, active, stopped, failed, Hook,
  on_stop, on_unload, PluginFailure, PluginEvent, PluginRegistry, state_of, is_active, call,
  fail_plugin, settle_hook, plugin_stopped, plugin_unloaded,
}
use yasin_core.Plugins.Lifecycle.{stop_plugin, unload_plugin, unload_hook}
use yasin_core.Plugins.Service.{shutdown_plugins, shutdown_registry, unload_if_down, can_unload}
use yasin_core.Plugins.Outcomes.{put-own}

-- One of the plugin's hooks, called after the calls `start`, raised, and this is noted as its error.
abbrev pub Raised : List (Hook × String) → Host → String → PluginRegistry → Type 0
Raised start host name t =
    (before : List (Hook × String)) × (hook : Hook) × (message : String) × (after : List
      (Hook × String))
    × (t.calls ≡ start ++ (before ++ (hook, name) ∷ after))
    × (host.outcome (start ++ before) hook name ≡ some message)
    × (Dict.get t.errors name ≡ some (raised message))

-- The plugin is down: REGISTERED, or FAILED by a hook that raised, or for the reason `was`.
abbrev pub Down : List (Hook × String) → Type 0 → Host → String → PluginRegistry → Type 0
Down start was host name t =
    (state_of name t ≡ registered) ⊎ ((state_of name t ≡ failed) × (was ⊎ Raised start host name t))

-- Nothing but the state and the error of `name` has changed, and more hooks may have been called.
record Keeps (name : String) (s t : PluginRegistry) : Type 0 where
  same_plugins : t.plugins ≡ s.plugins
  others : (x : String) → (name == x) ≡ false → state_of x t ≡ state_of x s
  other_errors : (x : String) → (name == x) ≡ false → Dict.get t.errors x ≡ Dict.get s.errors x
  more_calls : (more : List (Hook × String)) × (t.calls ≡ s.calls ++ more)

Keeps-refl : (name : String) (s : PluginRegistry) → Keeps name s s
Keeps-refl name s = record {
  same_plugins = refl;
  others = λ x e. refl;
  other_errors = λ x e. refl;
  more_calls = ([], sym (append_nil s.calls));
}

Keeps-trans :
    (name : String) (s t u : PluginRegistry) → Keeps name s t → Keeps name t u → Keeps name s u
Keeps-trans name s t u h l = record {
  same_plugins = l.same_plugins ∙ h.same_plugins;
  others = λ x e. l.others x e ∙ h.others x e;
  other_errors = λ x e. l.other_errors x e ∙ h.other_errors x e;
  more_calls = (
    h.more_calls.0 ++ l.more_calls.0,
    l.more_calls.1
        ∙ ap (λ (c : List (Hook × String)). c ++ l.more_calls.0) h.more_calls.1
        ∙ append_assoc s.calls h.more_calls.0 l.more_calls.0,
  );
}

settle_hook-Keeps :
    (stage : Hook) (name : String) (state : PluginState) (e : PluginEvent)
    (r : Option String × PluginRegistry)
    → Keeps name r.1 (settle_hook stage name state e r).1
unfolding settle_hook fail_plugin state_of
settle_hook-Keeps stage name state e (none, s) = record {
  same_plugins = refl;
  others = λ x h. rw (get_or-put s.states name x state registered, h) refl;
  other_errors = λ x h. refl;
  more_calls = ([], sym (append_nil s.calls));
}
settle_hook-Keeps stage name state e (some message, s) = record {
  same_plugins = refl;
  others = λ x h. rw (get_or-put s.states name x failed registered, h) refl;
  other_errors = λ x h. rw (get-put s.errors name x (raised message), h) refl;
  more_calls = ([], sym (append_nil s.calls));
}

call-Keeps :
    (host : Host) (hook : Hook) (name : String) (s : PluginRegistry)
    → Keeps name s (call host hook name s).1
unfolding state_of
call-Keeps host hook name s = record {
  same_plugins = refl;
  others = λ x e. refl;
  other_errors = λ x e. refl;
  more_calls = ((hook, name) ∷ [], refl);
}

-- A hook was called: it returned and the plugin is in the state, or it raised and the plugin failed.
abbrev Called :
    List (Hook × String)
    → Host
    → String
    → PluginState
    → Option PluginFailure × PluginRegistry
    → Type 0
Called start host name state (e, t) =
    ((e ≡ none) × (state_of name t ≡ state))
    ⊎ ((f : PluginFailure) × (e ≡ some f) × (state_of name t ≡ failed) × Raised start host name t)

-- A call of a hook, with what follows it.
abbrev run_hook :
    Host
    → Hook
    → String
    → PluginState
    → PluginEvent
    → PluginRegistry
    → Option PluginFailure × PluginRegistry
run_hook host hook name state e s = settle_hook hook name state e (call host hook name s)

run_hook-Keeps :
    (host : Host) (hook : Hook) (name : String) (state : PluginState) (e : PluginEvent)
    (s : PluginRegistry)
    → Keeps name s (run_hook host hook name state e s).1
run_hook-Keeps host hook name state e s =
    Keeps-trans name s (call host hook name s).1 (run_hook host hook name state e s).1
      (call-Keeps host hook name s) (settle_hook-Keeps hook name state e (call host hook name s))

run_hook-Called :
    (host : Host) (hook : Hook) (name : String) (state : PluginState) (e : PluginEvent)
    (s : PluginRegistry)
    → Called s.calls host name state (run_hook host hook name state e s)
unfolding settle_hook fail_plugin state_of
run_hook-Called host hook name state e s = elim (Option-cases (host.outcome s.calls hook name)) [
  | inl r ↦ rw (r, settle_hook) (inl (refl, put-own s.states name state registered))
  | inr (message, r) ↦
      rw (r, settle_hook, fail_plugin)
        (inr (
          during hook name (raised message),
          refl,
          put-own s.states name failed registered,
          (
            [],
            hook,
            message,
            [],
            refl,
            rw (append_nil s.calls) r,
            rw (get-put s.errors name name (raised message), eq_refl name) refl,
          ),
        ))
]

-- The calls before may be counted from an earlier state.
Raised-from :
    (start more : List (Hook × String)) (host : Host) (name : String) (t : PluginRegistry)
    → Raised (start ++ more) host name t
    → Raised start host name t
Raised-from start more host name t (before, hook, message, after, c, o, e) = (
  more ++ before,
  hook,
  message,
  after,
  c
      ∙ append_assoc start more (before ++ (hook, name) ∷ after)
      ∙ ap (λ (l : List (Hook × String)). start ++ l)
          (sym (append_assoc more before ((hook, name) ∷ after))),
  rw (sym (append_assoc start more before)) o,
  e,
)

Called-Down :
    (start : List (Hook × String)) (was : Type 0) (host : Host) (name : String)
    (r : Option PluginFailure × PluginRegistry)
    → Called start host name registered r
    → Down start was host name r.1
Called-Down start was host name (e, t) (inl (p, q)) = inl q
Called-Down start was host name (e, t) (inr (f, p, q, l)) = inr (q, inr l)

-- The plugin is down, and the others are as they were.
abbrev Lowers : Type 0 → Host → String → PluginRegistry → PluginRegistry → Type 0
Lowers was host name s t = Down s.calls was host name t × Keeps name s t

unload_hook-Lowers :
    (was : Type 0) (host : Host) (name : String) (s : PluginRegistry)
    → Lowers was host name s (unload_hook host name s).1
unload_hook-Lowers was host name s = (
  Called-Down s.calls was host name (unload_hook host name s)
      (run_hook-Called host on_unload name registered (plugin_unloaded name) s),
  run_hook-Keeps host on_unload name registered (plugin_unloaded name) s,
)

unload_plugin-Lowers :
    (was : Type 0) (host : Host) (name : String) (plugin : YasinPlugin) (s : PluginRegistry)
    (state : PluginState)
    → Dict.get s.plugins name ≡ some plugin
    → state_of name s ≡ state
    → can_unload state ≡ true
    → Lowers was host name s (unload_plugin host name s).1
unfolding unload_plugin
unload_plugin-Lowers was host name plugin s loaded g r c =
    rw (unload_plugin, g, r) (unload_hook-Lowers was host name s)
unload_plugin-Lowers was host name plugin s stopped g r c =
    rw (unload_plugin, g, r) (unload_hook-Lowers was host name s)
unload_plugin-Lowers was host name plugin s registered g r c = absurd (cc)
unload_plugin-Lowers was host name plugin s active g r c = absurd (cc)
unload_plugin-Lowers was host name plugin s failed g r c = absurd (cc)

Down-from :
    (start more : List (Hook × String)) (was was' : Type 0) (host : Host) (name : String)
    (t : PluginRegistry)
    → (was → was')
    → Down (start ++ more) was host name t
    → Down start was' host name t
Down-from start more was was' host name t w (inl q) = inl q
Down-from start more was was' host name t w (inr (q, inl b)) = inr (q, inl (w b))
Down-from start more was was' host name t w (inr (q, inr l)) =
    inr (q, inr (Raised-from start more host name t l))

-- After the hook `stop`.
stopped-Lowers :
    (was : Type 0) (host : Host) (name : String) (plugin : YasinPlugin) (s : PluginRegistry)
    (r : Option PluginFailure × PluginRegistry)
    → Dict.get s.plugins name ≡ some plugin
    → Keeps name s r.1
    → Called s.calls host name stopped r
    → Lowers was host name s (unload_if_down host name r)
stopped-Lowers was host name plugin s (none, t) g k (inl (p, q)) =
    let (down, kept) =
      unload_plugin-Lowers was host name plugin t stopped
        (ap (λ (d : Dict YasinPlugin). Dict.get d name) k.same_plugins ∙ g) q refl in
    rw q (
      Down-from s.calls k.more_calls.0 was was host name (unload_plugin host name t).1 (λ w. w)
          (subst (λ (c : List (Hook × String)). Down c was host name (unload_plugin host name t).1)
            k.more_calls.1 down),
      Keeps-trans name s t (unload_plugin host name t).1 k kept,
    )
stopped-Lowers was host name plugin s (some e, t) g k (inl (p, q)) = absurd (cc)
stopped-Lowers was host name plugin s (none, t) g k (inr (f, p, q, l)) = absurd (cc)
stopped-Lowers was host name plugin s (some e, t) g k (inr (f, p, q, l)) = (inr (q, inr l), k)

-- One turn of the loop.
abbrev lower : Host → String → PluginRegistry → PluginRegistry
lower host name s =
    unload_if_down host name
      (if is_active (state_of name s) then stop_plugin host name s else (none, s))

inactive :
    (host : Host) (name : String) (s : PluginRegistry) (state : PluginState) (b : Bool)
    → state_of name s ≡ state
    → is_active state ≡ false
    → can_unload state ≡ b
    → lower host name s ≡ (if b then (unload_plugin host name s).1 else s)
inactive host name s state b r a c =
    ap (λ (b : Bool). unload_if_down host name (if b then stop_plugin host name s else (none, s)))
      (ap is_active r ∙ a)
    ∙ ap (λ (b : Bool). if b then (unload_plugin host name s).1 else s) (ap can_unload r ∙ c)

lower-Lowers :
    (host : Host) (name : String) (plugin : YasinPlugin) (s : PluginRegistry) (state : PluginState)
    → Dict.get s.plugins name ≡ some plugin
    → state_of name s ≡ state
    → Lowers (state ≡ failed) host name s (lower host name s)
unfolding stop_plugin
lower-Lowers host name plugin s active g r =
    rw (r, stop_plugin, g, r)
      (stopped-Lowers (active ≡ failed) host name plugin s
        (run_hook host on_stop name stopped (plugin_stopped name) s) g
        (run_hook-Keeps host on_stop name stopped (plugin_stopped name) s)
        (run_hook-Called host on_stop name stopped (plugin_stopped name) s))
lower-Lowers host name plugin s loaded g r =
    subst (Lowers (loaded ≡ failed) host name s)
      (sym (inactive host name s loaded true r refl refl))
      (unload_plugin-Lowers (loaded ≡ failed) host name plugin s loaded g r refl)
lower-Lowers host name plugin s stopped g r =
    subst (Lowers (stopped ≡ failed) host name s)
      (sym (inactive host name s stopped true r refl refl))
      (unload_plugin-Lowers (stopped ≡ failed) host name plugin s stopped g r refl)
lower-Lowers host name plugin s registered g r =
    subst (Lowers (registered ≡ failed) host name s)
      (sym (inactive host name s registered false r refl refl)) (inl r, Keeps-refl name s)
lower-Lowers host name plugin s failed g r =
    subst (Lowers (failed ≡ failed) host name s)
      (sym (inactive host name s failed false r refl refl)) (inr (r, inl refl), Keeps-refl name s)

-- Every name among `names` is registered.
abbrev AreRegistered : Dict YasinPlugin → List String → Type 0
AreRegistered plugins [] = Unit
AreRegistered plugins (name ∷ names) =
    ((plugin : YasinPlugin) × (Dict.get plugins name ≡ some plugin)) × AreRegistered plugins names

-- A plugin that is down stays so while another one is lowered, and while it is lowered again.
Down-other :
    (start : List (Hook × String)) (was : Type 0) (host : Host) (name x : String)
    (s t : PluginRegistry)
    → Keeps name s t
    → (name == x) ≡ false
    → Down start was host x s
    → Down start was host x t
Down-other start was host name x s t k f (inl q) = inl (k.others x f ∙ q)
Down-other start was host name x s t k f (inr (q, inl w)) = inr (k.others x f ∙ q, inl w)
Down-other start was host name x s t k f (inr (q, inr (before, hook, message, after, c, o, e))) =
    inr (
      k.others x f ∙ q,
      inr (
        before,
        hook,
        message,
        after ++ k.more_calls.0,
        k.more_calls.1
            ∙ ap (λ (l : List (Hook × String)). l ++ k.more_calls.0) c
            ∙ append_assoc start (before ++ (hook, x) ∷ after) k.more_calls.0
            ∙ ap (λ (l : List (Hook × String)). start ++ l)
                (append_assoc before ((hook, x) ∷ after) k.more_calls.0),
        o,
        k.other_errors x f ∙ e,
      ),
    )

Down-again :
    (start : List (Hook × String)) (was : Type 0) (host : Host) (x : String) (s : PluginRegistry)
    → Down start was host x s
    → Down start was host x (lower host x s)
Down-again start was host x s (inl q) =
    subst (Down start was host x) (sym (inactive host x s registered false q refl refl)) (inl q)
Down-again start was host x s (inr (q, r)) =
    subst (Down start was host x) (sym (inactive host x s failed false q refl refl)) (inr (q, r))

shutdown_plugins-Down :
    (start more : List (Hook × String)) (was : Type 0) (host : Host) (names : List String)
    (s : PluginRegistry) (x : String)
    → AreRegistered s.plugins names
    → s.calls ≡ start ++ more
    → ((elem x names ≡ true) × (state_of x s ≡ failed → was)) ⊎ Down start was host x s
    → Down start was host x (shutdown_plugins host names s)
unfolding shutdown_plugins elem
shutdown_plugins-Down start more was host [] s x h c (inl (e, w)) = absurd (cc)
shutdown_plugins-Down start more was host [] s x h c (inr d) = d
shutdown_plugins-Down start more was host (name ∷ names) s x h c e =
    let t = lower host name s in
    let (down, kept) = lower-Lowers host name h.0.0 s (state_of name s) h.0.1 refl in
    shutdown_plugins-Down start (more ++ kept.more_calls.0) was host names t x
      (subst (λ (d : Dict YasinPlugin). AreRegistered d names) (sym kept.same_plugins) h.1)
      (kept.more_calls.1
        ∙ ap (λ (l : List (Hook × String)). l ++ kept.more_calls.0) c
        ∙ append_assoc start more kept.more_calls.0)
      (elim (Bool-cases (name == x)) [
        | inl f ↦
            let same : name ≡ x = ground (arith, f, eq_iff name x) in
            inr (elim e [
              | inl p ↦
                  subst (λ (y : String). Down start was host y t) same
                    (Down-from start more (state_of name s ≡ failed) was host name t
                      (λ r. p.1 (ap (λ (y : String). state_of y s) (sym same) ∙ r))
                      (subst
                        (λ (l : List (Hook × String)).
                          Down l (state_of name s ≡ failed) host name t)
                        c down))
              | inr d ↦
                  subst (λ (y : String). Down start was host x (lower host y s)) (sym same)
                    (Down-again start was host x s d)
            ])
        | inr f ↦ elim e [
          | inl p ↦ inl (ground (arith, p.0, f), λ r. p.1 (sym (kept.others x f) ∙ r))
          | inr d ↦ inr (Down-other start was host name x s t kept f d)
        ]
      ])

all_registered :
    (plugins : Dict YasinPlugin) (names : List String)
    → ((x : String) → elem x names ≡ true → Dict.has plugins x ≡ true)
    → AreRegistered plugins names
unfolding elem
all_registered plugins [] h = tt
all_registered plugins (n ∷ ns) h = (
  has-get plugins n (h n (ground (arith, eq_refl n))),
  all_registered plugins ns (λ x e. h x (ground (arith, e))),
)

elem-reverse : (x : String) (xs : List String) → elem x (reverse xs) ≡ true → elem x xs ≡ true
elem-reverse x xs h =
    count→elem x xs (omega (arith, count-reverse x xs, elem→count x (reverse xs) h))

reverse-elem : (x : String) (xs : List String) → elem x xs ≡ true → elem x (reverse xs) ≡ true
reverse-elem x xs h =
    count→elem x (reverse xs) (omega (arith, count-reverse x xs, elem→count x xs h))

-- After `shutdown` no registered plugin is loaded, active or stopped, whatever the hooks of the others
-- did: each one is either back to REGISTERED, or it is FAILED, and then it was FAILED before, or one of its
-- own hooks raised during the shutdown and this exception is noted as its error.
pub shutdown_registry-Down :
    (host : Host) (name : String) (plugin : YasinPlugin) (s : PluginRegistry)
    → Dict.get s.plugins name ≡ some plugin
    → Down s.calls (state_of name s ≡ failed) host name (shutdown_registry host s)
unfolding shutdown_registry Dict.has
shutdown_registry-Down host name plugin s g =
    shutdown_plugins-Down s.calls [] (state_of name s ≡ failed) host (reverse (Dict.keys s.plugins))
      s name
      (all_registered s.plugins (reverse (Dict.keys s.plugins))
        (λ x e. elem-reverse x (Dict.keys s.plugins) e))
      (sym (append_nil s.calls))
      (inl (reverse-elem name (Dict.keys s.plugins) (get-has s.plugins name plugin g), λ r. r))
