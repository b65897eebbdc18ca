-- ===== src/Scheduler/Store.antt =====
-- The object that the methods of utils/scheduler_store.py work on: the shared database, and the
-- process's cache of log lines. A method is one SQLite transaction; where the source rolls back,
-- the model returns the database unchanged. Errors of SQLite itself are not modelled.
use comfy_ui_account_manager.Base.{
  ℕ, String, Bool, ◌&&◌, List, Option, none, some, max, ◌+◌, ◌*◌, str_eq, ltb, ◌==◌, if◌then◌else◌,
  or_else,
}
use comfy_ui_account_manager.Base.Table.{count, update, fetch_one}
use comfy_ui_account_manager.Scheduler.Rows.{
  Job, Worker, Db, worker_lost, is_running, is_queued, second,
}
use comfy_ui_account_manager.Scheduler.Logs.{Disk, Cache, Position, log_position}

pub record Store : Type 0 where
  pub db : Db
  pub line_cache : Cache

-- WHERE prompt_id = ?
abbrev pub has_prompt : String → Job → Bool
has_prompt prompt_id job = str_eq job.prompt_id prompt_id

-- WHERE prompt_id = ? AND status = RUNNING
abbrev pub runs_prompt : String → Job → Bool
runs_prompt prompt_id job = has_prompt prompt_id job && is_running job.status

-- WHERE prompt_id = ? AND status = QUEUED
abbrev pub queues_prompt : String → Job → Bool
queues_prompt prompt_id job = has_prompt prompt_id job && is_queued job.status

-- WHERE port = ?
abbrev pub has_port : ℕ → Worker → Bool
has_port port worker = worker.port == port

-- str(resource_class or "default")
abbrev pub or_default : String → String
or_default resource_class = if str_eq resource_class "" then "default" else resource_class

-- The value of a text column where it is neither NULL nor empty, as `if` tests it.
abbrev pub if_text : Option String → Option String
if_text none = none
if_text (some t) = if str_eq t "" then none else some t

abbrev pub with_jobs : Db → List Job → Db
with_jobs db jobs = record db { jobs = jobs }

abbrev pub with_workers : Db → List Worker → Db
with_workers db workers = record db { workers = workers }

-- The log file of the job with this prompt id, or the empty text.
abbrev pub log_file_of : Option Job → String
log_file_of none = ""
log_file_of (some job) = or_else job.log_file ""

-- The new values of a job whose worker is lost.
abbrev pub as_lost : ℕ → String → Position → Job → Job
as_lost now message position job = record job {
  status = worker_lost;
  finished_at = some now;
  error = some message;
  log_end_offset = position.offset;
  log_end_line = position.line;
}

-- The steps that `register_worker` and `heartbeat` share: end the running job of a lost worker.
-- The first result is the rowcount of the UPDATE.
unfoldable pub lose_job : Disk → ℕ → String → String → Store → ℕ × Store
lose_job disk now message prompt_id s =
    let active_job = fetch_one (has_prompt prompt_id) s.db.jobs in
    let (position, cache) = log_position disk s.line_cache (log_file_of active_job) in
    let jobs = update (runs_prompt prompt_id) (as_lost now message position) s.db.jobs in
    (
      count (runs_prompt prompt_id) s.db.jobs,
      record { db = with_jobs s.db jobs; line_cache = cache },
    )

-- now - max(1, int(stale_seconds)) > last_heartbeat, with the subtraction moved to the other side
abbrev pub is_stale : ℕ → ℕ → Worker → Bool
is_stale now stale_seconds worker = ltb (worker.last_heartbeat + max 1 stale_seconds * second) now
