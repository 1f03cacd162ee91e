-- ===== src/Lib.antt =====
-- Verification library of the AI data operations employee (backend/app): a task engine whose
-- workers claim, execute and report runs under leases, and the deterministic engines that the runs
-- execute on a customer's data.
--
-- The parts and their files. A run is a row of task_runs. The scheduler and the API create it, a
-- worker claims it and reports it, and the reaper reports it when its lease expires; all of them go
-- through the same guarded UPDATEs. The handlers of a claimed run call one of the engines.
--   Prelude             shared: Boolean tests, lists, sorting by an order, texts as code points,
--                       dicts and counters by key
--   Worker.Model        backend/app/models/task.py, task_run.py, task_run_event.py, enums.py,
--                       core/config.py and worker/metrics.py: rows, settings, counters; a World is
--                       what is committed
--   Worker.Table        the CHECK constraints of task_runs, and UPDATE with its row count
--   Worker.Session, Worker.Claim, Worker.Lease, Worker.Failure
--                       backend/app/worker/engine.py: claim_batch, heartbeat, complete_success,
--                       complete_failure
--   Worker.Reaper       backend/app/worker/reaper.py: reap_expired_runs; its child modules are about
--                       what one report and what a whole sweep make of the table
--   Worker.Scheduler    backend/app/worker/scheduler.py and services/task_run_factory.py
--   Worker.System       the transactions of all sessions as a step relation, and its reachability;
--                       its child modules are about the reachable states
--   Worker.Runner       backend/app/worker/runner.py: execute_one and the loop over the claimed runs
--   Retention           backend/app/worker/retention.py: purge_expired_artifacts, on any file
--                       system, with backend/app/artifacts/storage.py and resolve_artifact_path of
--                       download.py
--   Remediation         backend/app/remediation/engine.py, types.py, base.py: remediate
--   Validation          backend/app/validation/engine.py, types.py, base.py: validate
--   Export              backend/app/export/engine.py and types.py: materialize
--   Quality             backend/app/quality/engine.py, types.py, base.py: quality_control
--   Detection           backend/app/detection/engine.py, types.py, base.py: detect_issues
--   Matching.Blocking, Matching.Clustering, Matching.Comparison
--                       backend/app/matching/blocking.py, clustering.py (UnionFind) and comparison.py
--   Matching.Decisions, Matching.Exact, Matching.Composite, Matching.Groups, Matching.Engine
--                       backend/app/matching/engine.py: the variables of match and record_decision,
--                       its three stages, match; canonical.py is in Matching.Groups
--   Matching.Results    what match returns; the modules beside it are the lemmas on its stages
--
-- Conventions. Identifiers and tokens are numbers that are only compared; an instant is a number of
-- microseconds; the n-th UUID is `uuid4 n`, a parameter, and where a theorem needs that UUIDs do not
-- collide it says so (IsFresh). An exception is an outcome: LeaseLostError and IntegrityError in
-- Worker.Session, `none` for a failed assertion of an engine, for an exception of match and for the
-- rollback of claim_batch.
-- A call that reads before it writes takes what other sessions commit in between as a function on
-- worlds; execute_one reads the run, its token included, when its turn comes, and reports from that
-- copy. The rows that other sessions lock, which SKIP LOCKED leaves out, are a parameter. The
-- rules, detectors and categories that an engine finds in its registry are a parameter too, through
-- the records RemediationRule, ValidationRule, DetectionRule and QualityCategory. Python's floats
-- and the methods of its strings are records of operations of which nothing is assumed.
--
-- Fuel and bounds. Every loop is structural recursion over its list, except the scheduler's and the
-- retention pass's, which recurse on the attempts that are left of their batch. The digits of a
-- number are taken on fuel one above the number, and the two loops of UnionFind.find on fuel one
-- above the sum of the ranks, which grow along a path to the root. Integers are Python's, which do
-- not overflow, so counters are natural numbers; an override of a quality weight may be negative
-- and is an integer.
--
-- Not modelled: the HTTP API and its schemas, authentication and encryption, the file and database
-- I/O of the handlers, log lines and the last-success gauge of the scheduler, the timers of the
-- worker loop, the download of artifacts, and the engines of cleaning, standardization and profiling.
pub mod Prelude
pub mod Worker
pub mod Remediation
pub mod Retention
pub mod Validation
pub mod Export
pub mod Quality
pub mod Detection
pub mod Matching
