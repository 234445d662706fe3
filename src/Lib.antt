-- ===== src/Lib.antt =====
-- PatchHub: a job server that runs AM Patch, and the decisions of the AM Patch runner itself.
--
-- A client enqueues jobs at the server. One loop takes them in turn, waits until no runner is at
-- work, starts the runner and, when it has gone, gives the job its final status. Meanwhile
-- handlers enqueue, cancel and stop jobs. The runner's events go through a broker to any number of
-- subscribers, and clients of the overview are told what changed since the snapshot they have. The
-- runner checks which paths a patch touched and runs a list of gates.
--
--   Broker           scripts/patchhub/asgi/job_event_broker.py. `Broker` is `JobEventBroker`;
--                    `publish`, `subscribe` and `close` are its methods, `receive` and `discard`
--                    the sections of the generator that `subscribe` returns, and `generated` what
--                    it yields. An asyncio queue is a list with its bound.
--   JobQueue         scripts/patchhub/asgi/async_queue.py. `Queue` is the state of `AsyncJobQueue`;
--                    `enqueue`, `cancel_local` and `hard_stop_local` are its handlers,
--                    `JobQueue.Finalize` has `_finalize_running_job` and `_reconcile_active_job`,
--                    `JobQueue.Loop` and `JobQueue.Round` have `_run_loop`. `JobQueue.Life` and
--                    its children have the proofs.
--   CommandLine      scripts/patchhub/gate_argv.py and command_parse.py, on lists of arguments.
--   SnapshotDelta    scripts/patchhub/asgi/snapshot_delta_store.py.
--   Gates            scripts/am_patch/gates.py (`run_gates`, the js gate), gate_docs.py,
--                    gate_dont_touch.py, and the triggers of gate_pyright.py and gate_badguys.py.
--   Scope            scripts/am_patch/scope.py.
--   Routing          scripts/am_patch/pytest_bucket_routing.py, pytest_namespace_routing.py and
--                    pytest_namespace_config.py: from the changed paths to the tests to run.
--                    `Routing.Closure` has `reverse_dependency_closure`, `Routing.Match` the
--                    namespace of a path and the tests of a namespace, `Routing.Select` the rest.
--   Monolith         scripts/am_patch/monolith_gate.py and monolith_js_metrics.py: `Metrics` and
--                    `Javascript` measure a file, `Fan` is `_fan_graph`, `Rules` has the body of
--                    the loop of `run_monolith_gate`, and `Gate` the rest of it, with the reads
--                    of the files that raise.
--   Rollback         scripts/patchhub/rollback_scope_manifest.py (`Diff`, `Manifest`),
--                    rollback_preflight.py (`Authority`, `Later`, `Repository`, `Preflight`),
--                    rollback_helper_actions.py (`Actions`) and asgi/rollback_runtime.py
--                    (`Execution`). The other children have the proofs.
--   IssueAlloc       scripts/patchhub/issue_alloc.py.
--   ZipSubset        scripts/patchhub/zip_patch_subset.py.
--   Prelude, Dict    shared helpers: Python's text methods, lists, and dicts in insertion order.
--   Answers          what holds of the answer of code that can fail.
--   Tests            the theorems on concrete data.
--
-- The queue's handlers are coroutines under one lock. Code between two awaits, or under the lock,
-- is one step; where a handler awaits with the lock released, it takes a function on the queue:
-- what other tasks do there. The answers of processes, sockets, git and clocks are fields of the
-- records `Request`, `Work` and `After`. An exception is its text. Writes to the job store succeed.
-- The wait for the runner slot stands outside the `try` of a round: its exception, which `Work` has,
-- ends the loop, and a wait that never returns is a run that ends before it.
-- The callback of a client is one of three outcomes. An event offset is a natural number.
--
-- The rounds of the loop are given as a list of `Work`, one for each turn, so a run is as long as
-- that list and any finite run is such a list. The wait for the runner slot is a list of polls. Only
-- the breadth-first search of the routing uses fuel: one more than the members that it can come to
-- read, each list of which it reads once at most.
--
-- `lower`, `upper` and `isdigit` are modelled on ASCII. Python's `sorted` is an argument. In Gates
-- the tools that start processes are arguments: whether they pass, or the error they raise. Log
-- lines are left out, apart from those that say why a gate was skipped.
--
-- A rollback works on repositories of any type: the record `Git` has the commands that the code runs
-- on one, with the error text of each and the repository after it. The paths that the commands are
-- given are pathspecs. What a theorem needs of git is among its hypotheses. The routing takes the ownership that the discovery reads from the test files
-- as an argument, and the monolith gate the syntax trees and the matches of regular expressions.
--
-- Not modelled: the web handlers, the job database and the files, the event pump and the executor,
-- the indexer, the runner's engine, configuration, log, workspace and archive, the discovery and the
-- validator of the pytest routing, BadGuys, and the client's JavaScript: input and output around
-- these parts. `start`, `stop` and the hand-over between event loops of the queue are not modelled
-- either, nor are the log lines and events of a rollback.

pub mod Prelude
pub mod Dict
pub mod Broker
pub mod JobQueue
pub mod CommandLine
pub mod Answers
pub mod Gates
pub mod Routing
pub mod Monolith
pub mod Scope
pub mod Rollback
pub mod IssueAlloc
pub mod ZipSubset
pub mod SnapshotDelta
mod Tests
