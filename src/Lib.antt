-- ===== src/Lib.antt =====
-- Model Forge: a model of its run lifecycle, its durable storage and its orchestration.
--
-- The program takes sealed commands, makes a run of each, executes the stages of the phase contract
-- that the run is bound to, and seals one submission for validation and publication. What must
-- survive a crash is in one SQLite database, which all other parts read and change through the
-- methods of one repository class.
--
-- Parts and files, with paths from the root of the repository:
--   * Domain/RunStatus models src/model_forge/domain/runs.py: `RunStatus`, `TERMINAL_RUN_STATUSES`,
--     `_TRANSITIONS` and `require_transition`. A history is a list of statuses, each reached from the
--     one before by an accepted transition.
--   * Storage/Text models the argument checks at the top of src/model_forge/storage/repository.py.
--   * Storage/Database models `Database.immediate_transaction` of src/model_forge/storage/database.py.
--     A statement takes the database to a result and a database; a transaction whose body raises
--     gives back the database that was there before.
--   * Storage/Schema models src/model_forge/storage/migrations.py: a record for each row, the tables
--     as lists in `Hub`, and one insert for each table with its keys, foreign keys, checks and
--     monotone triggers. A refused insert raises.
--   * Storage/Commands and Storage/Runs model the methods of `HubRepository` of
--     src/model_forge/storage/repository.py that write commands and runs: `create_project`,
--     `record_raw_command`, `seal_command`, `create_run`, `freeze_manifest`,
--     `compare_and_swap_run`, `request_cancellation`, `seal_submission`, the `_cas_run` which three
--     of them end with, and `list_incomplete_runs`. Storage/Executions models
--     `get_or_create_execution`, `acknowledge_execution`, `append_execution_heartbeat` and
--     `close_execution`, each with the body of its transaction as a definition of its own.
--     Storage/Operations makes the calls on commands and runs a data type, so that a client is a
--     list of calls. `BEGIN IMMEDIATE` lets one transaction run at a time, so every interleaving of
--     several clients is such a list.
--   * Storage/Publication models `PublicationUnitOfWork` and `publication_transaction` of the same file:
--     Session its fields, Writing and Sealing its methods, with a list of calls as the body of the
--     `with` block. Ledger says independently what the chain of authority events of a project is. The
--     SHA-256 of a root and a content digest is a parameter, `chained`.
--   * Storage/Settings models `_set_revisioned`, `set_profile_mapping`, `set_project_setting` and
--     `compare_and_set_profile_mapping` of the same file, over a record of what a table with revisions
--     offers, and Storage/Artifacts its `record_artifact`.
--   * Storage/Paths models `_relative_parts` and `WorkspacePaths` of src/model_forge/storage/paths.py
--     over `lstat` and `mkdir` as parameters.
--   * Digests models src/model_forge/digests/jcs.py: Json the values and Python's texts of them, Utf16
--     the order of the keys, Canonical `_serialize` and `canonicalize`; Decimal reads the texts of
--     integers back.
--   * Application/Lifecycle models src/model_forge/application/run_lifecycle.py, which reads a run,
--     checks the transition and calls `compare_and_swap_run`. The read and the write are given two
--     databases, so that calls of others may come between. `json.loads`, `json.dumps` and SHA-256 are
--     parameters. Application/Correction models the bounds, the scope and the attempt ids of
--     src/model_forge/application/correction.py.
--   * Orchestration/Protocol, Orchestration/Sequential and Orchestration/Registry model the three
--     files of src/model_forge/orchestration. The services of the adapter are a record of calls on a
--     state that the adapter does not see, and may raise or answer in any way. Sequential/Runs puts a
--     log of the calls before them, and says what calls a run of the adapter makes.
--   * Diagnostics models the states of an invocation in src/model_forge/diagnostics/contracts.py and
--     `DiagnosticStore` of src/model_forge/diagnostics/store.py: Store/Invocations, Store/Fencing and
--     Store/Locks its methods on its three tables, Store/Restart the reconciliation after a restart, and
--     Store/Calls the calls of any number of callers as a list. Store/Leases says which calls leave the
--     lock of a profile with its holder; a release that names no token does not. The time that the clock reads is an
--     argument, in microseconds. The guard, the read and the write of `update_status` are given three
--     databases; in a list of calls they are one. `int` and `os.kill` are parameters. A
--     transaction that begins deferred runs alone as the others do: SQLite refuses its write where
--     another wrote after it read. That refusal, like a database that stays locked, is not modelled.
--   * Harness/Indexes models the reducers of src/model_forge/harness/index_reducers.py: Indexes the keys
--     of items and the items of a prior index, Reducers the merging and what is written. A JSON document
--     is one of the values of Digests/Json; `str.casefold`, `str`, `bool` and SHA-256 are parameters.
--   * Prelude has the shared operations, and Examples has concrete inputs.
--
-- Payloads are the text that `json.dumps` makes of them, or none where it raises; a time is the text
-- that is stored. Errors are the codes that the program gives them, or the names of Python's exceptions.
-- Loops are structural, but for the decimal digits of a number, which have one more fuel than the number
-- is large; each round divides by ten.
--
-- Not modelled: opening the database file and its migrations, researcher materials, submission and
-- validation attempts, the validation of identifiers and versions in constructors, the other application
-- services, the rest of the harness and of the diagnostics, the executors, the interfaces and the web
-- front end.
pub mod Prelude
pub mod Domain
pub mod Digests
pub mod Storage
pub mod Orchestration
pub mod Application
pub mod Diagnostics
pub mod Harness
pub mod Examples
