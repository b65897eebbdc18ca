-- ===== src/Scheduler/Claim.antt =====
-- `claim` of utils/scheduler_store.py.
use Prim.Native.Nat.{Ordering}
use comfy_ui_account_manager.Base.{
  ℕ, String, Bool, true, false, ◌&&◌, ◌||◌, List, [], ◌∷◌, ◌++◌, Option, none, some, str_eq, ltb,
  ◌==◌, if◌then◌else◌, head?,
}
use comfy_ui_account_manager.Base.Int.{compare_ℤ}
use comfy_ui_account_manager.Base.Table.{select, count, update, fetch_one, order_by, upsert}
use comfy_ui_account_manager.Json.{Json, text}
use comfy_ui_account_manager.Scheduler.Rows.{
  Job, Worker, Db, Result, ok, ◌>>=◌, running, is_queued, is_running,
}
use comfy_ui_account_manager.Scheduler.Settings.{decode_item}
use comfy_ui_account_manager.Scheduler.Logs.{Disk, Position, log_position}
use comfy_ui_account_manager.Scheduler.Store.{
  Store, has_prompt, queues_prompt, has_port, or_default, if_text, with_workers,
}
use comfy_ui_account_manager.Scheduler.Workers.{beat}

-- ORDER BY priority ASC, sequence ASC
abbrev pub before : Job → Job → Bool
before a b = elim (compare_ℤ a.priority b.priority) [
  | Ordering.lt ↦ true
  | Ordering.eq ↦ ltb a.sequence b.sequence
  | Ordering.gt ↦ false
]

-- The jobs that the inner SELECT COUNT(*) counts for a candidate.
abbrev pub shares : Job → Job → Bool
shares candidate active =
    str_eq active.owner_id candidate.owner_id
    && (is_running active.status && str_eq active.resource_class candidate.resource_class)

-- The condition on `candidate.concurrency_limit`.
unfoldable pub has_room : List Job → Job → Bool
has_room jobs candidate =
    candidate.concurrency_limit == 0
    || ltb (count (shares candidate) jobs) candidate.concurrency_limit

-- A worker of class 'default' takes every job, and every worker takes a job of class 'default'.
unfoldable pub suits : String → Job → Bool
suits resource_class candidate =
    str_eq resource_class "default"
    || (str_eq candidate.resource_class "default" || str_eq candidate.resource_class resource_class)

-- The WHERE clause of the query.
unfoldable pub is_eligible : String → List Job → Job → Bool
unfolding has_room suits
is_eligible resource_class jobs candidate =
    is_queued candidate.status && (suits resource_class candidate && has_room jobs candidate)

-- The row that the query finds.
unfoldable pub next_job : String → List Job → Option Job
unfolding is_eligible
next_job resource_class jobs =
    head? (order_by before (select (is_eligible resource_class jobs) jobs))

abbrev status_is_running : Option Job → Bool
status_is_running none = false
status_is_running (some job) = is_running job.status

abbrev active_of : Option Worker → Option String
active_of none = none
active_of (some worker) = if_text worker.active_prompt_id

-- Whether the worker at the port still runs a job.
unfoldable pub is_busy : Db → ℕ → Bool
is_busy db port = elim (active_of (fetch_one (has_port port) db.workers)) [
  | none ↦ false
  | some prompt_id ↦ status_is_running (fetch_one (has_prompt prompt_id) db.jobs)
]

abbrev pub as_running : ℕ → ℕ → Position → Job → Job
as_running now port position job = record job {
  status = running;
  worker_port = some port;
  started_at = some now;
  heartbeat_at = some now;
  log_file = position.path;
  log_start_offset = position.offset;
  log_end_offset = none;
  log_start_line = position.line;
  log_end_line = none;
}

-- The worker's row names the claimed job.
unfoldable pub take_up : ℕ → ℕ → ℕ → String → String → List Worker → List Worker
take_up now port pid resource_class prompt_id =
    upsert (has_port port)
      (λ w. record w {
        pid = pid;
        active_prompt_id = some prompt_id;
        last_heartbeat = now;
        resource_class = resource_class;
      })
      (record {
        port = port;
        pid = pid;
        active_prompt_id = some prompt_id;
        last_heartbeat = now;
        resource_class = resource_class;
      })

abbrev Claimed : Type 0
Claimed = Result (Option (List Json))

-- The UPDATE of the job, with its check of the rowcount, and the UPDATE of the worker. The item is
-- decoded after the COMMIT.
unfoldable pub start_job : Position → ℕ → ℕ → ℕ → String → Job → Db → Claimed × Db
unfolding take_up
start_job position now port pid resource_class row db =
    if count (queues_prompt row.prompt_id) db.jobs == 1
    then (
      decode_item row.payload >>= λ item. ok (some (item ++ text row.owner_id ∷ [])),
      record db {
        jobs = update (queues_prompt row.prompt_id) (as_running now port position) db.jobs;
        workers = take_up now port pid resource_class row.prompt_id db.workers;
      },
    )
    else (ok none, db)

-- The transaction.
unfoldable pub claim_at : Position → ℕ → ℕ → ℕ → String → Db → Claimed × Db
unfolding is_busy next_job start_job beat
claim_at position now port pid resource_class db =
    if is_busy db port then (ok none, db) else elim (next_job resource_class db.jobs) [
      | none ↦ (ok none, with_workers db (beat now port pid resource_class db.workers))
      | some row ↦ start_job position now port pid resource_class row db
    ]

unfoldable pub claim : Disk → ℕ → ℕ → ℕ → String → String → Store → Claimed × Store
unfolding claim_at
claim disk now port pid resource_class log_file s =
    let (position, cache) = log_position disk s.line_cache log_file in
    let (result, db) = claim_at position now port pid (or_default resource_class) s.db in
    (result, record { db = db; line_cache = cache })
