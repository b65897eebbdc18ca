-- ===== src/Scheduler/Complete.antt =====
-- `complete`, `get_job_log`, `record_api_call` and `get_api_logs` of utils/scheduler_store.py.
use comfy_ui_account_manager.Base.{
  ℕ, String, Bool, ◌&&◌, ◌||◌, List, [], ◌∷◌, ◌++◌, Option, none, some, ◌+◌, ◌-◌, str_eq,
  if◌then◌else◌, holds, or_else, length, take, drop,
}
use comfy_ui_account_manager.Base.Table.{select, update, fetch_one, upsert}
use comfy_ui_account_manager.Scheduler.Rows.{
  Job, Worker, Db, JobLog, ApiLog, Status, completed, failed, is_running, is_worker_lost,
}
use comfy_ui_account_manager.Scheduler.Logs.{Disk, Position, log_position}
use comfy_ui_account_manager.Scheduler.Store.{Store, has_prompt, has_port, if_text}

-- Where the excerpt of a job's log begins, and its bytes.
pub record Excerpt : Type 0 where
  pub start_offset : ℕ
  pub start_line : Option ℕ
  pub content : List ℕ

-- The bytes from the start of the job to the end of the file.
abbrev excerpt_from : Disk → String → ℕ → ℕ → Option ℕ → Option Excerpt
excerpt_from disk path end start line = elim (disk.bytes path) [
  | none ↦ none
  | some bytes ↦ some (record {
    start_offset = start;
    start_line = line;
    content = take (end - start) (drop start bytes);
  })
]

abbrev excerpt_of : Disk → String → ℕ → Option Job → Option Excerpt
excerpt_of disk path end none = none
excerpt_of disk path end (some row) = elim row.log_start_offset [
  | none ↦ none
  | some start ↦ excerpt_from disk path end start row.log_start_line
]

-- `excerpt` where the log path is a non-empty text and the offset is known.
unfoldable pub read_excerpt : Disk → Position → Option Job → Option Excerpt
read_excerpt disk position row = elim (if_text position.path) [
  | none ↦ none
  | some path ↦ elim position.offset [ none ↦ none | some end ↦ excerpt_of disk path end row ]
]

-- WHERE prompt_id = ? AND status IN (RUNNING, WORKER_LOST)
abbrev pub may_complete : String → Job → Bool
may_complete prompt_id job =
    has_prompt prompt_id job && (is_running job.status || is_worker_lost job.status)

-- COALESCE(a, b)
abbrev pub coalesce {ℓ} : {A : Type ℓ} → Option A → Option A → Option A
coalesce none b = b
coalesce (some a) b = some a

abbrev outcome : Bool → Status
outcome succeeded = if succeeded then completed else failed

abbrev pub as_finished : ℕ → Bool → String → Position → Job → Job
as_finished now succeeded error position job = record job {
  status = outcome succeeded;
  finished_at = some now;
  error = (if str_eq error "" then none else some error);
  log_file = coalesce job.log_file position.path;
  log_end_offset = position.offset;
  log_end_line = position.line;
}

-- INSERT INTO scheduler_job_logs ... ON CONFLICT(prompt_id) DO UPDATE
unfoldable pub save_excerpt : ℕ → String → ℕ → Position → Option Excerpt → List JobLog → List JobLog
save_excerpt now prompt_id port position none logs = logs
save_excerpt now prompt_id port position (some excerpt) logs =
    let row : JobLog = record {
      prompt_id = prompt_id;
      worker_port = port;
      log_file = or_else position.path "";
      start_offset = excerpt.start_offset;
      end_offset = or_else position.offset 0;
      start_line = excerpt.start_line;
      end_line = position.line;
      content = excerpt.content;
      content_bytes = length excerpt.content;
      captured_at = now;
    } in
    upsert (λ log. str_eq log.prompt_id prompt_id) (λ log. row) row logs

-- WHERE port = ? AND active_prompt_id = ?
abbrev pub works_on : ℕ → String → Worker → Bool
works_on port prompt_id worker = has_port port worker && holds worker.active_prompt_id prompt_id

unfoldable pub complete_at : Position → Option Excerpt → ℕ → String → ℕ → Bool → String → Db → Db
unfolding save_excerpt
complete_at position excerpt now prompt_id worker_port succeeded error db = record db {
  jobs = update (may_complete prompt_id) (as_finished now succeeded error position) db.jobs;
  job_logs = save_excerpt now prompt_id worker_port position excerpt db.job_logs;
  workers =
      update (works_on worker_port prompt_id)
        (λ w. record w { active_prompt_id = none; last_heartbeat = now }) db.workers;
}

unfoldable pub complete : Disk → ℕ → String → ℕ → Bool → String → String → Store → Store
unfolding complete_at read_excerpt
complete disk now prompt_id worker_port succeeded error log_file s =
    let (position, cache) = log_position disk s.line_cache log_file in
    let excerpt = read_excerpt disk position (fetch_one (has_prompt prompt_id) s.db.jobs) in
    record {
      db = complete_at position excerpt now prompt_id worker_port succeeded error s.db;
      line_cache = cache;
    }

unfoldable pub get_job_log : String → Db → Option JobLog
get_job_log prompt_id db = fetch_one (λ log. str_eq log.prompt_id prompt_id) db.job_logs

-- The columns of the record; the sequence is the next AUTOINCREMENT number.
unfoldable pub record_api_call : ApiLog → Db → Db
record_api_call call db = record db {
  api_logs = db.api_logs ++ record call { sequence = db.next_api_sequence } ∷ [];
  next_api_sequence = db.next_api_sequence + 1;
}

-- The rows stand in the order of their sequence, which ORDER BY asks for.
unfoldable pub get_api_logs : String → Db → List ApiLog
unfolding select
get_api_logs prompt_id db = select (λ log. str_eq log.prompt_id prompt_id) db.api_logs
