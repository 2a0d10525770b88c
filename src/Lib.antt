-- ===== src/Lib.antt =====
-- The core of an offline companion (Python, src/offline_companion): the parts that keep its state
-- and decide what happens next. Paths below are from src/offline_companion.
--
-- The parts, and the files that model them:
--
-- Base has the names that the other files share, with Python's dicts (Base/Dict), texts (Base/Text),
-- lists, Boolean tests, equality classes and results.
--
-- EventStream has the append-only streams of domain events, core/event_stream. `Types` and
-- `Registry` are types.py and registry.py; `Stream` is the class EventStream of stream.py, one
-- function for a method (`prepare` is `append` up to the commit); `Store` is EventPersistence of
-- persistence.py; `Manager` is manager.py. `append` hands a committed event to the store's queue;
-- the manager restores its streams from the store. `Append`, `Numbering`, `Batches`, `Replay`,
-- `Restore` and `History` are about them.
--
-- StateManager has the versioned key-value state of core/state_manager.py, with its audit log, its
-- cache and its subscribers. `Access` is the check of domain and role, `Notify` the
-- subscriptions, `Store` reading, writing and deleting, `Retry` the retries and the wrappers,
-- `Publish` the events. `Roles`, `Coherence`, `Versions`, `Races` and `History` are about them. `View`
-- specifies the calls on a map of values and versions, which `Refinement` compares with the manager.
--
-- In Plan stand the plans of core/plan_orchestrator.py (`Types`, `Context`, and in `Control` resume,
-- pause, cancel and retry_failed_step) with their engine, core/plan_dag_engine.py (`Dag` is
-- validate_dag, `Successors` propagate_failure and propagate_unblock, `Engine` run_until_blocked
-- and execute_with_retry). The operations of the user change a context, on which the engine is
-- then run. `Order`, `Depth`, `Walks`, `Attempts`, `Termination`, `Safety`, `Completion` and
-- `Decisions` are about them.
--
-- Lifecycle has the plugins, core/lifecycle. `Effects` is effect_scope.py and `Fiber` is fiber.py; a
-- fiber owns a scope, and reports to an event stream. `Topo` is topo.py over the entries of config.py,
-- with its lemmas below it, and `Loader` is loader.py: it sorts the entries, makes a fiber for each,
-- and hands the services of those that are active to the next. `Rollback`, `States`, `Topo/Sorted`,
-- `Loader/Services` and `Loader/Reload` are about them.
--
-- Scheduler has shell/job_scheduler.py. `Cron` is CronExpression, `Tasks`, `Registration` and
-- `Table` are the operations of JobScheduler on its table, `CronLaws` is about
-- the expressions and `Heartbeats` about the sweep.
--
-- Router has the messages of shared/messages.py (`Messages`) and the router of
-- shell/message_router.py (`Dispatch`), which finds a handler by the topic, calls it again after a
-- failure, keeps a row for each idempotency key and files dead letters. `Once`, `Attempts` and
-- `Letters` are about it.
--
-- Outbound has the gate of shell/policy_engine/engine.py (`Policy`), and the requests for the user's
-- consent of shell/outbound_manager/a3_gateway.py with consent.py and
-- runtime/storage_index/consent_store.py (`Consent`). `Visible`, `Sessions` and `Decisions` are about
-- the requests.
--
-- Subagent has core/subagent_scheduler.py with the context of core/subagent_types.py: `Tools` is
-- RestrictedToolRegistry and the calls of tools, `Loop` is `run` and the reading of reviews.
-- `Guarded`, `Budget` and `Reviews` are about a run.
--
-- Toolbox has shell/tool_registry: `Registry` is the registry with the permissions, `Invoker` the calls
-- over the consent gateway. `Permissions`, `External` and `Once` are about the calls.
--
-- The files named Tests hold small runs.
--
-- State is passed along: an operation takes a record and gives the record that it leaves, with its
-- result. An exception is a value of an error type, and what was changed before it stays changed.
-- The JSON library, the clocks, random identifiers, the calendar, SQLite's acceptance of a row, the
-- executor of a step, the observers, the callbacks, the plugins' factories, the handlers of messages and
-- the user's answers are arguments. Times
-- are values that are stored; in the scheduler they are whole seconds. Queues, dicts and tables are
-- lists in insertion order. A lock is not represented: what other threads may do in between is
-- written as a sequence of steps.
--
-- Loops that are not structural take fuel. validate_dag has the number of steps and one more, since
-- the path of a search holds distinct steps. run_until_blocked has the number of steps and one
-- more, since each turn but the last ends a waiting step. A walk over the successors has twice the
-- number of edges and one more, since each step adds its successors once. The retries have
-- retry_max + 1 rounds, as in the source. The search for the next minute has the 366 days and one
-- minute of the source. The loop of topological_sort has the number of enabled plugins and one more,
-- since each round but the last puts one out. The loop of a dispatch has five rounds, since three
-- retries after a conflict and one after a failure are allowed. The run of a subagent has the calls of
-- the language model that are left, and one more.
--
-- Not modelled: the interfaces (shell/ui_host), the inference backends, the storage of
-- SQL statements, the prompts and personas, and the parts of core and shell beyond those above,
-- which stand by themselves. In the plans, the snapshots, the templates, the publishers,
-- execute_next, and the fallback and _finalize_plan_status after the engine's run are left out; in the scheduler, the polling thread and the message to the router.
pub mod Base
pub mod EventStream
pub mod StateManager
pub mod Plan
pub mod Lifecycle
pub mod Scheduler
pub mod Router
pub mod Outbound
pub mod Subagent
pub mod Toolbox
