-- ===== src/Scheduler/Changes.antt =====
-- The primitive changes that the methods of utils/scheduler_store.py make to the job table, and
-- the steps of the shared database: one for each method that writes, by any process.
pub mod Calls
use comfy_ui_account_manager.Base.{
  ℕ, String, Bool, true, false, ◌&&◌, List, [], ◌∷◌, ◌++◌, Option, none, some, ◌≡◌, refl, arith,
  length, ltb, ◌==◌, Bool-cases, inl, inr, Option-cases,
}
use comfy_ui_account_manager.Base.Table.{count, update, fetch_one}
use comfy_ui_account_manager.Json.{Json, Members, Python}
use comfy_ui_account_manager.Scheduler.Rows.{
  Job, Worker, Db, ApiLog, Settings, Result, ok, err, queued, is_queued, empty_db,
}
use comfy_ui_account_manager.Scheduler.Settings.{classify_item, decode_item}
use comfy_ui_account_manager.Scheduler.Logs.{Disk, Cache, Position}
use comfy_ui_account_manager.Scheduler.Store.{
  Store, has_prompt, runs_prompt, queues_prompt, as_lost,
}
use comfy_ui_account_manager.Scheduler.Submit.{
  Submission, is_legacy, enqueue, classify_legacy_queued_jobs,
}
use comfy_ui_account_manager.Scheduler.Workers.{register_worker, heartbeat}
use comfy_ui_account_manager.Scheduler.Claim.{next_job, as_running, claim}
use comfy_ui_account_manager.Scheduler.Complete.{
  Excerpt, may_complete, as_finished, complete, record_api_call,
}
use comfy_ui_account_manager.Scheduler.Cancel.{as_cancelled, cancel, cancel_all, delete_matching}
use comfy_ui_account_manager.Scheduler.Queries.{upsert_asset}

-- One change of the job table.
pub data Change (jobs : List Job) : List Job → Type 0 where
  lost :
      (now : ℕ) (message : String) (position : Position) (prompt_id : String)
      → Change jobs (update (runs_prompt prompt_id) (as_lost now message position) jobs)
  finished :
      (now : ℕ) (succeeded : Bool) (error : String) (position : Position) (prompt_id : String)
      → Change jobs
          (update (may_complete prompt_id) (as_finished now succeeded error position) jobs)
  cancelled :
      (now : ℕ) (p : Job → Bool)
      → ((job : Job) → p job ≡ true → is_queued job.status ≡ true)
      → Change jobs (update p (as_cancelled now) jobs)
  started :
      (now port : ℕ) (position : Position) (resource_class : String) (row : Job)
      → next_job resource_class jobs ≡ some row
      → count (queues_prompt row.prompt_id) jobs ≡ 1
      → Change jobs (update (queues_prompt row.prompt_id) (as_running now port position) jobs)
  added :
      (job : Job)
      → job.status ≡ queued
      → length job.payload ≡ 6
      → fetch_one (has_prompt job.prompt_id) jobs ≡ none
      → Change jobs (jobs ++ job ∷ [])
  reclassified :
      (prompt_id resource_class : String) (limit : ℕ)
      → Change jobs (
          update
            (λ job. has_prompt prompt_id job && is_legacy job)
            (λ job. record job { resource_class = resource_class; concurrency_limit = limit })
            jobs)

pub data Changes (jobs : List Job) : List Job → Type 0 where
  unchanged : Changes jobs jobs
  followed : {mid after : List Job} → Changes jobs mid → Change mid after → Changes jobs after

-- One call of a method by some process, at some time, with some files and some line cache.
pub data Step (py : Python) (settings : Settings) (db : Db) : Db → Type 0 where
  enqueues :
      (now : ℕ) (r : Submission) {db' : Db}
      → enqueue py settings now r db ≡ ok db'
      → Step py settings db db'
  classifies :
      {db' : Db} → classify_legacy_queued_jobs py settings db ≡ ok db' → Step py settings db db'
  registers :
      (disk : Disk) (cache : Cache) (now port pid : ℕ) (resource_class : String)
      → Step py settings db
          (register_worker disk now port pid resource_class
            (record { db = db; line_cache = cache })).db
  beats :
      (disk : Disk) (cache : Cache) (message : ℕ → String) (now port pid stale_seconds : ℕ)
      (resource_class : String)
      → Step py settings db
          (heartbeat disk message now port pid stale_seconds resource_class
            (record { db = db; line_cache = cache })).1.db
  claims :
      (disk : Disk) (cache : Cache) (now port pid : ℕ) (resource_class log_file : String)
      → Step py settings db
          (claim disk now port pid resource_class log_file
            (record { db = db; line_cache = cache })).1.db
  completes :
      (disk : Disk) (cache : Cache) (now : ℕ) (prompt_id : String) (worker_port : ℕ)
      (succeeded : Bool) (error log_file : String)
      → Step py settings db
          (complete disk now prompt_id worker_port succeeded error log_file
            (record { db = db; line_cache = cache })).db
  cancels :
      (now : ℕ) (prompt_id owner_id : String) (admin : Bool)
      → Step py settings db (cancel now prompt_id owner_id admin db).1
  cancels_all :
      (now : ℕ) (owner_id : String) (admin : Bool)
      → Step py settings db (cancel_all now owner_id admin db).1
  deletes :
      (now : ℕ) (predicate : List Json → Bool) (owner_id : String) (admin : Bool)
      → Step py settings db (delete_matching now predicate owner_id admin db).1
  saves_asset :
      (now : ℕ) (asset_id owner_id prompt_id : String) (worker_port : ℕ) (body : Members)
      → Step py settings db (upsert_asset py now asset_id owner_id prompt_id worker_port body db)
  records_call : (call : ApiLog) → Step py settings db (record_api_call call db)

-- The databases that any sequence of calls reaches from `start`.
pub data Reach (py : Python) (settings : Settings) (start : Db) : Db → Type 0 where
  here : Reach py settings start start
  next :
      {mid after : Db}
      → Reach py settings start mid
      → Step py settings mid after
      → Reach py settings start after
