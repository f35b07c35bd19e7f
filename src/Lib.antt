-- ===== src/Lib.antt =====
-- scenario_pipeliner: a worker that polls a PostgreSQL table of tasks and runs plugin pipelines on
-- them, and a broker that turns messages into tasks and finished tasks into replies.
--
-- The parts and their files. Paths are from the repository's root, under scenario_pipeliner/.
--   Base, Table, Table/Keys   tests on numbers, lists, options; the statements on a table (UPDATE … WHERE,
--               SELECT … WHERE, ORDER BY) that SQLAlchemy sends, as functions on a list of rows
--   Text, Json  the text functions and the JSON values that the source uses
--   Db          db/enums.py, db/tables.py, db/schema_utils.py: enumerations, rows, exceptions as values,
--               transactions (`begin` rolls every table back and keeps sequences), and the retry of an
--               insert that met a stale identity sequence
--   Task        worker/core/states.py and utils.py, worker/task_repositories/postgres.py: Task/Storage has
--               the transactions of PostgresTaskStorage, Task/Rows the conversion of a row, Task/Repository
--               the methods of PostgresTaskRepository. Task/Machine is the status machine that
--               docs/TASK_STATUS.md describes and every transaction is a step of; Task/Rollup is its
--               table of children and parents; Task/Create has worker/runtime/runner_helpers.py
--   Exec        worker/core/step.py and pipeline.py (Exec/Step, Exec/Pipeline), and worker/execution:
--               task_dispatch.py (Exec/Router), process_task of db_orchestrator.py (Exec/Process), and
--               runner_db.py with active_flag_poller.py (Exec/Runner)
--   Broker      worker/broker: settings.py, storage.py (Broker/Outbox, Broker/Ingress), ingress.py and
--               utils.py (Broker/Delivery, Broker/Ingress), outbox.py (Broker/Egress), and of runner.py
--               the owners of the queues and the hooks that fill in a scenario (Broker/Runner)
--   Plugins     plugins from their manifests on: Plugins/Names (db/schemes_names.py), Plugins/Manifest
--               (api/settings.py, core/manifest_loader.py, core/migration_paths.py), Plugins/Checksum
--               (core/checksum.py, core/plugin_checksum.py), Plugins/Registry (core/registry.py,
--               core/plugin_identity.py), Plugins/Runtime (worker/plugin_registry.py and
--               worker/runtime/registry.py), Plugins/DryRun (core/dry_run.py), Plugins/Sql (db/sql_templates.py),
--               Plugins/Migrate (core/plugin_migrate.py and the ledger of db/schema_utils.py). Api has api/enums.py, Dict
--               the dictionaries with text keys
--   Tests       small databases, messages and pipelines
--
-- How they interact. All parts share the Database, the record of the core tables. A transaction is a
-- function from a database to an answer and a database; other workers are sequences of such transactions
-- (Task/Machine/Runs, Broker/Outbox/Lifecycle/Runs). process_task calls plugin code, which takes a task's
-- state to a new state and returns or raises, and the repository. Rows that other transactions have
-- locked are a predicate on ids, which SKIP LOCKED passes over. What others commit in the middle of an
-- ingress insert is a function on the database.
--
-- A plugin directory is the list of the files below it. The worker registry is filled by plugin code, a
-- tree of calls of the registry (Script); the registry that is built is what Exec/Router routes by.
--
-- Representation. Times are natural numbers of microseconds, and a comparison with `now - interval` is
-- written with the interval on the other side, since numbers stop at 0. Ids and counters are natural
-- numbers; the widths of the columns are not modelled. An exception is a constructor of Exc.
-- Definitions are structural recursions; `deliveries` takes fuel, one for each delivery, and its theorems
-- name the fuel that is enough; the splitter of SQL takes one unit for each character.
--
-- Parameters: what pydantic, json, hashlib and packaging do (Models, Digests, Host), where serialising an
-- outcome and the driver may raise, what pathlib finds, the import of an entrypoint (Importer), PostgreSQL
-- with a plugin's statements (Sql), plugin factories, steps and hooks, and the redelivery of a queue.
--
-- Not modelled: the command line, logging, the engine and its pools, third-party clients, the core
-- migrations, the wiring of the runtime, the packages that an entrypoint puts into
-- sys.modules, a plugin file that cannot be read, the shutdown of a batch, the poller's cancellation
-- of tasks, a database that fails in a task's transactions, but for the one that stores an outcome, the loop
-- of the broker's runner with its time limit for a handler, and its connection handling. A message whose
-- handler takes too long is requeued without the cap by that runner, so the theorems on the cap are about
-- handlers that answer. Foreign keys are not checked on inserts. A negative
-- number in a delivery header does not occur.

mod Base
mod Table
mod Text
mod Json
mod Dict
mod Api
pub mod Db
pub mod Task
pub mod Exec
pub mod Broker
pub mod Plugins
mod Tests
