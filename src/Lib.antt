-- ===== src/Lib.antt =====
-- The stores of the ComfyUI account manager: the job scheduler, the agent tasks, the cloud archive, the
-- history and the users; the recovery of lost API results; and the checks that guard them.
--
-- Several ComfyUI processes share one SQLite database. A process enqueues jobs, registers as a
-- worker, claims a job, completes it, and sends heartbeats, each call one transaction; the agent
-- service keeps its own tasks, events and child prompts in a second store. The archive uploads the
-- outputs of finished jobs: a task with its artifacts, each with a lease while it is uploaded, and a
-- manifest after them. Each method is a function from the database (and the arguments, the
-- clock's reading and the fresh identifier that the source draws inside) to its answer and the next
-- database; a method that raises gives an error and the database that its transaction leaves. A step
-- relation lets any process make any call at any time, so that `Reach` covers every interleaving of
-- whole transactions. When a worker is lost, the recovery asks the provider for the results of the requests
-- that it had observed, and merges them into the history, which keeps the finished items of all
-- accounts. In front of the stores, IPFilter and Timeout decide which addresses may log in, the users
-- file which passwords, TaskSessions and AgentTaskRoutes what the token of a running prompt or agent
-- task may ask, and InternalSigner which instance sent a message.
--
-- Base: Booleans, lists and options over the native numbers; Base/Table.antt is the part of SQL that
-- the stores use (select, count, update, delete, upsert, order by), Base/Dict.antt a Python dict.
-- Json: JSON values, as the stores encode and decode them.
-- Scheduler (utils/scheduler_store.py): Rows (the tables), Settings (`__init__`, `classify_item`,
-- `_encode_item`, `_decode_item`), Logs (`_line_at_offset`, `_log_position`), Store (the object and
-- the UPDATE of a lost job), Submit (`enqueue`, `_classify_legacy_queued_jobs`), Workers
-- (`register_worker`, `heartbeat`), Claim (`claim`), Complete (`complete`, the job and API logs),
-- Cancel (`cancel`, `cancel_all`, `delete_matching`), Queries (the reading methods, the assets);
-- Changes, Limits, WellFormed, Choice, Lifecycle, Sweeping, Isolation, Restart and Visible are
-- proofs, Tests the runs.
-- AgentTasks (utils/agent_tasks.py): Rows, Tasks (`create` to `recover`), Children (`events`,
-- `children`, `reserve_child`, `child_response`); Leases, Steps, Idempotence and Cancelling are
-- proofs, Tests the runs.
-- CloudArchive (the class CloudArchiveStore of utils/cloud_archive.py): Rows, Enqueue
-- (`enqueue_task`), Artifacts (`claim_artifact` to `_refresh_counts`, `artifacts`, `reset_failed`),
-- Manifests (`claim_manifest` to `task`); Steps, Counts, Consistent, Tasks, Reachable, Completed and
-- Claims
-- are proofs, Tests the runs.
-- Access: IpFilter (the class IPFilter of utils/ip_filter.py), Timeout (the class Timeout of
-- utils/timeout.py), both by address: a failed login counts against an address, and the address lists
-- are files that are read again when they change; Signer (InternalSigner of utils/internal_api.py, with
-- its law). Reloading and Blocking are proofs, Tests the runs.
-- History (utils/history_store.py): Items (`_repair_recovery_fields`), Store (`save`, `load`, `query`,
-- `delete`, `delete_owner`, `clear`), Recovering (`merge_api_recovery`); Replay is the abstract history
-- (for each prompt the last saved owner and item), Contents, Refinement, Exact and Answers compare the
-- table with it; Saving, Views, Repairing, Merging and Protected are proofs, Tests the runs.
-- Recovery (utils/api_recovery.py, utils/recovery_providers.py): Submissions (`submission`), Providers
-- (`result`), Rows (the table, `observe`), Checks (`_query`, `_download`, `_require_lost` and the `try`
-- statement of `_recover_one`), Cycle (`_publish` and the rest of `_recover_one`); Verdicts, Ending,
-- Tidy, Publishing and Raising are proofs, Tests the runs.
-- Users (utils/users_db.py): the class UsersDB; Accounts are proofs, Tests the runs.
-- Sessions (utils/task_sessions.py: `_local_owner`, `authorize`), with Sessions/Assets and
-- Sessions/Delegated (`delegated` of utils/agent_task_routes.py, before and after the handler that it
-- calls); Allowed, Rooms, Authorized, Children, Once, Repeats, Gate, Outputs and Admitted are proofs, Tests
-- the runs.
-- Control (utils/access_control.py: the current user and the owners of items), with Control/Queue and
-- Control/Past (the `user_queue_` methods on the queue and the history, with and without the
-- scheduler, whose modules they call), Control/Getting (one round of the loops of `user_queue_get`, whose
-- waiting is left out); Views, Putting and Taking are proofs, Tests the runs.
--
-- Assumptions. SQLite runs a transaction as one step, and gives rows in the order of insertion where
-- a query has no ORDER BY. Errors of SQLite itself (a locked database, a full disk) are not modelled.
-- Times are natural numbers of microseconds, ports and process ids natural numbers, a priority is an
-- integer (REAL in the table), and a JSON column holds the value that its text encodes. `complete`
-- reads the job's log offset in a first transaction and writes in a second one; the model reads and
-- writes one state. Files are an argument of the methods that read them,
-- and one that is there can be opened. What `str` and `float`
-- answer for values of other types is the parameter `Python`. Fresh identifiers are arguments, and
-- a repeated one is refused by the key that the source declares. The object keys and addresses that a
-- CloudArchiveConfig formats (from a date, a cleaned file name and URL quoting) are fields of Config. The
-- digest of a file, `strip` and `ipaddress.ip_address` are the parameter Library of Access. Hashing,
-- HMAC, Fernet, bcrypt and the functions of urllib, re and str that cannot be written out here are
-- records of functions too; a law of one of them is a hypothesis of the theorem that needs it. What a
-- provider answers, what a download comes to, and the job table at each moment at which a check of the
-- recovery reads it, are the parameter Outside, so that the theorems hold for any of them. An exception
-- is `none` where the program treats all exceptions alike.
--
-- Fuel: `read_on` reads a file in chunks with the number of remaining bytes as fuel. A round that
-- goes on reads a byte at least, so the fuel is enough.
--
-- The checks of a recovery need no fuel: Recovery/Ending bounds how many a row can have.
--
-- Not modelled: the HTTP routes and middleware but those named above, the patches of the ComfyUI
-- server in utils/access_control.py with `user_queue_task_done`, the registration of
-- assets and the paths of a user, the uploading threads of the cloud archive, the proxying between instances,
-- the making of tokens (the library jwt), the browser code and the command-line tools; the SQL expression
-- that `query` selects with `for_jobs`, which is an argument; and the threads of `WorkerHeartbeat` and
-- `ApiRecoveryManager`, which only repeat `heartbeat` and `_recover_one`.
pub mod Base
pub mod Json
pub mod Scheduler
pub mod AgentTasks
pub mod CloudArchive
pub mod Access
pub mod History
pub mod Recovery
pub mod Users
pub mod Sessions
pub mod Control
