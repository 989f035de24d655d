-- ===== src/Orchestrator/Sequences.antt =====
-- The states that a runtime is in between the calls of its orchestrator.
use yasin_core.Prelude.{ℕ, ◌≢◌, Option, none, some, String, List, [], ◌∷◌}
use yasin_core.Services.{Result, ok, err, Hosting, Manager}
use yasin_core.Services.Lifecycle.{Host, reload_services}
use yasin_core.Orchestrator.{
  RuntimeState, uninitialized, initializing, running, shutting_down, stopped, failed, Orchestrator,
  transition_to, settle_start, start_in, start, settle_stop, stop_services, stop_in, stop,
  settle_reload, reload_in, reload,
}

-- No start and no stop is under way.
abbrev pub IsSettled : RuntimeState → Type 0
IsSettled state = (state ≢ initializing) × (state ≢ shutting_down)

pub data Command : Type 0 where
  starts stops : ℕ → Command
  reloads : Command

module _ (hosting : Hosting) where
  -- A caller that goes on after an exception.
  unfoldable pub execute : Command → Orchestrator × Host hosting → Orchestrator × Host hosting
  unfolding start stop reload
  execute (starts now) s = ((start hosting now s).1, (start hosting now s).2)
  execute (stops now) s = ((stop hosting now s).1, (stop hosting now s).2)
  execute reloads s = ((reload hosting s).1, (reload hosting s).2)

  unfoldable pub execute_all :
      List Command → Orchestrator × Host hosting → Orchestrator × Host hosting
  unfolding execute
  execute_all [] s = s
  execute_all (command ∷ commands) s = execute_all commands (execute command s)

  settle_start-IsSettled :
      (o : Orchestrator) (result : Result (Unit {0})) (host : Host hosting)
      → IsSettled (settle_start hosting o (result, host)).1.state
  unfolding settle_start transition_to
  settle_start-IsSettled o (ok u) host = (λ e. cc, λ e. cc)
  settle_start-IsSettled o (err x) host = (λ e. cc, λ e. cc)

  start_in-IsSettled :
      (state : RuntimeState) (now : ℕ) (o : Orchestrator) (host : Host hosting)
      → IsSettled o.state
      → IsSettled (start_in hosting state now o host).1.state
  unfolding start_in
  start_in-IsSettled running now o host h = h
  start_in-IsSettled initializing now o host h = h
  start_in-IsSettled uninitialized now o host h = settle_start-IsSettled _ _ _
  start_in-IsSettled shutting_down now o host h = settle_start-IsSettled _ _ _
  start_in-IsSettled stopped now o host h = settle_start-IsSettled _ _ _
  start_in-IsSettled failed now o host h = settle_start-IsSettled _ _ _

  settle_stop-IsSettled :
      (now : ℕ) (o : Orchestrator) (left : Option String) (host : Host hosting)
      → IsSettled (settle_stop hosting now o left host).1.state
  unfolding settle_stop transition_to
  settle_stop-IsSettled now o none host = (λ e. cc, λ e. cc)
  settle_stop-IsSettled now o (some name) host = (λ e. cc, λ e. cc)

  stop_in-IsSettled :
      (state : RuntimeState) (now : ℕ) (o : Orchestrator) (host : Host hosting)
      → IsSettled o.state
      → IsSettled (stop_in hosting state now o host).1.state
  unfolding stop_in stop_services
  stop_in-IsSettled stopped now o host h = h
  stop_in-IsSettled uninitialized now o host h = h
  stop_in-IsSettled running now o host h = settle_stop-IsSettled _ _ _ _
  stop_in-IsSettled initializing now o host h = settle_stop-IsSettled _ _ _ _
  stop_in-IsSettled shutting_down now o host h = settle_stop-IsSettled _ _ _ _
  stop_in-IsSettled failed now o host h = settle_stop-IsSettled _ _ _ _

  settle_reload-IsSettled :
      (o : Orchestrator) (m : Manager hosting.Service) (result : Result (Unit {0}))
      (world : hosting.World)
      → IsSettled o.state
      → IsSettled (settle_reload hosting o m (result, world)).1.state
  settle_reload-IsSettled o m (ok u) world h = h
  settle_reload-IsSettled o m (err e) world h = h

  reload_in-IsSettled :
      (state : RuntimeState) (o : Orchestrator) (host : Host hosting)
      → IsSettled o.state
      → IsSettled (reload_in hosting state o host).1.state
  unfolding reload_in
  reload_in-IsSettled running o (m, w) h =
      let (result, world) = reload_services hosting (m, w) in
      settle_reload-IsSettled o m result world h
  reload_in-IsSettled _ o host h = h

  execute-IsSettled :
      (command : Command) (s : Orchestrator × Host hosting)
      → IsSettled s.0.state
      → IsSettled (execute command s).0.state
  unfolding execute start stop reload
  execute-IsSettled (starts now) (o, host) h = start_in-IsSettled o.state now o host h
  execute-IsSettled (stops now) (o, host) h = stop_in-IsSettled o.state now o host h
  execute-IsSettled reloads (o, host) h = reload_in-IsSettled o.state o host h

  -- After any sequence of start, stop and reload calls, failing ones included, from a state that is
  -- neither initializing nor shutting down, the runtime is neither initializing nor shutting down.
  pub execute_all-IsSettled :
      (commands : List Command) (s : Orchestrator × Host hosting)
      → IsSettled s.0.state
      → IsSettled (execute_all commands s).0.state
  unfolding execute_all
  execute_all-IsSettled [] s h = h
  execute_all-IsSettled (command ∷ commands) s h =
      execute_all-IsSettled commands (execute command s) (execute-IsSettled command s h)
