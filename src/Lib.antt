-- ===== src/Lib.antt =====
-- Yasin-Core: the runtime service manager, the orchestrator over it, the task execution engine
-- with its distributed workers, the scheduler in front of it, the plugin registry and the event bus.
--
-- The program is a runtime for agents. `RuntimeServiceManager` (yasin_core/runtime/service_manager.py)
-- registers services with their dependencies and starts, stops, reloads and checks them;
-- `RuntimeOrchestrator` (yasin_core/core/orchestrator.py) drives it as a state machine.
-- `TaskExecutionEngine` (yasin_core/execution/engine.py) takes jobs and either puts them into a priority
-- queue (yasin_core/execution/queue.py), which local threads (yasin_core/execution/worker.py) empty, or
-- hands them to a worker node of `DistributedWorkerManager` (yasin_core/execution/distributed.py), which
-- reads the engine's job registry and puts jobs back into the engine's queue when a worker goes away.
-- `Scheduler` (yasin_core/execution/scheduler.py) submits its jobs to that engine when their time has come,
-- by interval, delay or cron expression, and keeps its schedule in a storage. `PluginRegistry`
-- (yasin_core/plugins/registry.py) checks, loads, starts and stops plugins by their dependencies.
-- `SchemaMigrator` and `VersionNegotiator` (yasin_core/compatibility) find chains of migrations and the best
-- version for a client.
-- `ContextEngine` (yasin_core/context/engine.py) keeps the contexts of requests.
-- `EventBus` (yasin_core/events/event_bus.py) hands events to their subscribers.
--
-- The files:
--   Prelude, Dict               Shared names, lists counted by multiplicity, integers, Python's dict with
--                               text keys in insertion order.
--   Services                    yasin_core/runtime/models.py, exceptions.py, and of service_manager.py the
--                               registration: `register_service`, `unregister_service` and the lookups.
--     Services/Startup          `_get_startup_order`: `check_dependencies` is its first loop,
--                               `build_graph` the two dicts, `run_visit` the `while` loop with `relax` as
--                               the inner one. The modules below it hold the lemmas: what a graph is
--                               (Links), one step of the loop (Relax, Loop), that the fuel is enough
--                               (Drain), what a non-empty rest means (Acyclic, Outcome).
--     Services/Lifecycle        `initialize`, `shutdown`, `reload`, `health`, under the names
--                               `initialize_services`, `shutdown_services`, `reload_services`,
--                               `health_report`.
--     Services/Lookup           Registration and the lookups of yasin_core/runtime/registry.py.
--     Services/Wellformed,
--     Preserve, History         The invariant of the manager, and sequences of calls.
--   Execution                   yasin_core/execution/models.py. Job objects are shared by reference, so
--                               they live in a heap.
--     Execution/Queue           yasin_core/execution/queue.py: Occurrences counts the entries of a job, Serving
--                               has the abstract queue that says which job is taken next.
--     Execution/System          The state that engine and manager share, and `WorkerNode`.
--     Execution/Workers         `DistributedWorkerManager`: registration, discovery and assignment;
--                               Reports has `report_job_status` and a worker's `_fetch_job` and
--                               `_execute_job`; Monitor has `monitor_workers` and `_recover_worker_jobs`.
--     Execution/Placement       In how many queues a job waits.
--     Execution/Engine          `TaskExecutionEngine`, and `JobWorker._process_job` in two halves,
--                               `begin_job` and `finish_job`, so that other calls can come between.
--   Events                      yasin_core/events/event_bus.py: Subscriptions is about `subscribe` and
--                               `unsubscribe`, Delivery and History about `publish` and `get_history`.
--   Orchestrator                yasin_core/core/orchestrator.py: `start`, `stop` and `reload`; Lifecycle is
--                               about what they mean for the services, Sequences about the states between.
--   Cron                        `parse_cron_field` and `get_next_cron_time` of
--                               yasin_core/execution/scheduler.py, over dates in Calendar, which is
--                               Python's `datetime` by its documentation, up to the year 9999; Printing
--                               writes the expressions and Reading reads them, Fields has their ranges,
--                               Search is about the minute that is found.
--   Scheduler                   `ScheduledJob` of the same file; Saving has `to_dict` and the (de)serialization
--                               of targets.
--     Scheduler/Registry        `schedule_job`, `unschedule_job`, `clear_jobs` (`clear_finished_jobs`),
--                               `_save_schedule` and `_load_schedule`, over a heap of job objects.
--     Scheduler/Ticks           `_tick` and `_trigger_job`, which submits to Execution/Engine.
--     Scheduler/Restore, Limits,
--     Changes, Runs, Due        Saving and loading, the invariant of `max_runs` (what it is, what the
--                               registry's operations and the ticks do to it), and which jobs a tick runs.
--   Plugins                     yasin_core/plugins/registry.py: the registry and `validate_dependencies`
--                               (`validate`); Versions has `check_version_compatibility`, Lifecycle the
--                               operations on one plugin, Service `initialize`, `shutdown`, `reload`.
--     Plugins/Dependencies,
--     Depth, Outcomes, Shutdown What validation accepts and how deep it goes, how the operations end.
--   Migration                   `SchemaMigrator` of yasin_core/compatibility/migration.py: Rounds is about one
--                               round of the search (`extend`), Chains about what it answers.
--   Versions                    yasin_core/compatibility/version.py: `parse` is `Version(...)`; Negotiation is
--                               about `negotiate` and the caret ranges.
--   Context                     yasin_core/context/engine.py: `RuntimeContext`; Engine has `ContextEngine` and the
--                               lookup of a value (`get_value`), Restore and Expiry are about saved contexts
--                               and about pruning.
--   */Tests                     Concrete runs.
--
-- State and errors: an operation takes the state and returns it with its result; an exception is the
-- constructor `err` or the Boolean that the caller sees. A service's hooks, the outcome of a job's target
-- and the clock are arguments. Where the source holds a lock for a whole method, a call is one step.
--
-- Bounds: the `while` loop of `_get_startup_order` runs on fuel, one round for each registered service;
-- the lemma visit-drains of Services/Startup/Drain shows that the loop is over by then. All other loops
-- are over lists. `validate_dependencies` recurs on fuel, one more than the number of plugins, which is enough by
-- validate-settles of Plugins/Depth; `load_plugin` and `start_plugin` recur on fuel too, and running out is
-- Python's RecursionError. The search for the next cron time takes the number of its rounds, 100000 in the
-- source. The search for a chain of migrations runs on fuel, two more than the number of migrations, which
-- search_paths-Answers of Migration/Chains shows to be enough. `work` takes the number of turns as an argument.
--
-- Not modelled: the threads themselves, the blocking wait on a queue, timeouts of targets (an outcome like
-- any other), targets and handlers that call the engine or the bus while they run, `async_publish`, log lines, metrics, the payloads of events and memory entries, display
-- formats, the discovery of plugins on disk, and the other packages of yasin_core.
mod Prelude
pub mod Dict
pub mod Services
pub mod Execution
pub mod Events
pub mod Orchestrator
pub mod Cron
pub mod Scheduler
pub mod Plugins
pub mod Migration
pub mod Versions
pub mod Context
