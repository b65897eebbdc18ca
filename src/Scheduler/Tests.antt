-- ===== src/Scheduler/Tests.antt =====
-- The theorems on utils/scheduler_store.py at one run: two jobs of one user with a limit of one,
-- of which a worker claims the first one.
use comfy_ui_account_manager.Base.{
  ℕ, Bool, String, true, false, List, [], ◌∷◌, none, some, ◌≡◌, refl, ◌≤◌, ◌↔◌, inl, arith, Memᴰ,
  ◌+◌, ◌&&◌, ◌||◌, str_eq, map, take,
}
use comfy_ui_account_manager.Base.Int.{pos}
use comfy_ui_account_manager.Base.Dict.{lookup}
use comfy_ui_account_manager.Base.Table.{count, fetch_one, order_by, select, upsert}
use comfy_ui_account_manager.Json.{
  Json, num, text, obj, end, arr, nil, Python, to_float, to_str, text_field,
}
use comfy_ui_account_manager.Scheduler.Rows.{
  queued, completed, Job, Worker, Db, Settings, Result, ok, err, empty_db, is_running, is_queued,
}
use comfy_ui_account_manager.Scheduler.Settings.{make_settings, encode_item, classify_item}
use comfy_ui_account_manager.Scheduler.Logs.{Disk, Cache, no_position, line_at_offset, newlines}
use comfy_ui_account_manager.Scheduler.Logs.Lines.{IsSound, line_at_offset_lem}
use comfy_ui_account_manager.Scheduler.Store.{Store, runs_prompt, has_port}
use comfy_ui_account_manager.Scheduler.Submit.{Submission, enqueue}
use comfy_ui_account_manager.Scheduler.Claim.{claim, claim_at, is_eligible, is_busy}
use comfy_ui_account_manager.Scheduler.Workers.{register_worker, beat, heartbeat}
use comfy_ui_account_manager.Scheduler.Changes.{Reach, here, next, enqueues, claims}
use comfy_ui_account_manager.Scheduler.Limits.{IsWithinLimits, Reach-IsWithinLimits}
use comfy_ui_account_manager.Scheduler.Choice.{
  IsFirst, starts, claim_at-IsFirst, NothingToStart, claim_at-none,
}
use comfy_ui_account_manager.Scheduler.Lifecycle.{Follows, Reach-Keeps, final_stays}
use comfy_ui_account_manager.Scheduler.Cancel.{cancel, cancel_all, delete_matching}
use comfy_ui_account_manager.Scheduler.Restart.{
  register_worker-IsStopped, register_worker_forgets_job,
}
use comfy_ui_account_manager.Scheduler.Queries.{visible_items}
use comfy_ui_account_manager.Scheduler.Visible.{AreListed, visible_items_lem}
use comfy_ui_account_manager.Scheduler.Isolation.{protected_stays}
use comfy_ui_account_manager.Scheduler.Sweeping.{IsStopped, heartbeat_lem}
use comfy_ui_account_manager.Scheduler.WellFormed.{IsWellFormed, Reach-IsWellFormed}

abbrev python : Python
python = record { repr = λ v. "value"; parse_float = λ t. none }

abbrev one_each : Settings
one_each = make_settings 1 0 [] []

abbrev disk : Disk
disk = record { abspath = λ path. path; bytes = λ path. none }

abbrev submission : String → Submission
submission prompt_id = record {
  item = num (pos 0) ∷ text prompt_id ∷ obj end ∷ obj end ∷ arr nil ∷ obj end ∷ [];
  owner_id = "ann";
  ingress_port = 8188;
  concurrency_exempt = false;
  resource_class = "";
}

abbrev db_of : Result Db → Db
db_of (ok db) = db
db_of (err e) = empty_db

abbrev first : Db
first = db_of (enqueue python one_each 100 (submission "p1") empty_db)

abbrev both : Db
both = db_of (enqueue python one_each 200 (submission "p2") first)

first-Reach : Reach python one_each empty_db first
unfolding enqueue to_float encode_item fetch_one
first-Reach = next here (enqueues 100 (submission "p1") refl)

both-Reach : Reach python one_each empty_db both
unfolding enqueue to_float to_str encode_item fetch_one
both-Reach = next first-Reach (enqueues 200 (submission "p2") refl)

abbrev after_claim : Store
after_claim = (claim disk 300 8188 41 "" "" (record { db = both; line_cache = [] })).1

claimed-Reach : Reach python one_each empty_db after_claim.db
claimed-Reach = next both-Reach (claims disk [] 300 8188 41 "" "")

Reach-IsWithinLimits_example : IsWithinLimits after_claim.db.jobs
Reach-IsWithinLimits_example = Reach-IsWithinLimits claimed-Reach

Reach-IsWellFormed_example : IsWellFormed after_claim.db.jobs
Reach-IsWellFormed_example = Reach-IsWellFormed claimed-Reach

-- The first job, as it is stored.
abbrev candidate : Job
candidate = record {
  sequence = 1;
  prompt_id = "p1";
  owner_id = "ann";
  client_id = none;
  ingress_port = some 8188;
  worker_port = none;
  priority = pos 0;
  payload = (submission "p1").item;
  status = queued;
  concurrency_limit = 1;
  submitted_at = 100;
  started_at = none;
  finished_at = none;
  heartbeat_at = none;
  error = none;
  resource_class = "default";
  log_file = none;
  log_start_offset = none;
  log_end_offset = none;
  log_start_line = none;
  log_end_line = none;
}

candidate-stored : Memᴰ candidate both.jobs
unfolding enqueue to_float to_str encode_item fetch_one text_field lookup make_settings
    classify_item
candidate-stored = Memᴰ.head refl

candidate-eligible : is_eligible "default" both.jobs candidate ≡ true
unfolding enqueue to_float to_str encode_item fetch_one is_eligible count
candidate-eligible = refl

both-free : is_busy both 8188 ≡ false
unfolding enqueue to_float to_str encode_item fetch_one is_busy
both-free = refl

claim_at-IsFirst_example :
    (row : Job) × IsFirst "default" both.jobs row
    × (claim_at no_position 300 8188 41 "default" both
        ≡ starts no_position 300 8188 41 "default" both row)
claim_at-IsFirst_example =
    claim_at-IsFirst no_position 300 8188 41 "default" both candidate
      (Reach-IsWellFormed both-Reach) both-free candidate-stored candidate-eligible

-- The second job waits for the first one.
claim_at-none_example :
    ((claim_at no_position 400 8189 42 "default" after_claim.db).0 ≡ ok none) ↔ (
      NothingToStart no_position 400 8189 42 "default" after_claim.db
      × ((claim_at no_position 400 8189 42 "default" after_claim.db).1.jobs ≡ after_claim.db.jobs))
claim_at-none_example =
    claim_at-none no_position 400 8189 42 "default" after_claim.db
      (Reach-IsWellFormed claimed-Reach)

Reach-Keeps_example : (later : Job) × Memᴰ later after_claim.db.jobs × Follows candidate later
Reach-Keeps_example =
    Reach-Keeps {py = python} {settings = one_each} (next here (claims disk [] 300 8188 41 "" ""))
      candidate candidate-stored

abbrev done : Job
done = record candidate { status = completed }

abbrev done_db : Db
done_db = record both { jobs = done ∷ [] }

abbrev after_done : Db
after_done = (claim disk 300 8188 41 "" "" (record { db = done_db; line_cache = [] })).1.db

final_stays_example :
    (later : Job) × Memᴰ later after_done.jobs
    × (later.prompt_id ≡ "p1")
    × (later.status ≡ completed)
final_stays_example =
    final_stays {py = python} {settings = one_each} done
      (next here (claims disk [] 300 8188 41 "" "")) (Memᴰ.head refl) (inl refl)

abbrev log_bytes : List ℕ
log_bytes = 97 ∷ 10 ∷ 98 ∷ 10 ∷ 99 ∷ []

abbrev log_disk : Disk
log_disk = record { abspath = λ path. path; bytes = λ path. some log_bytes }

abbrev no_cache : Cache
no_cache = []

no_cache-IsSound : IsSound log_disk no_cache
unfolding lookup
no_cache-IsSound = record { within = λ path bytes offset n file found. absurd (ground arith) }

-- The second call starts at the cached offset.
line_at_offset_lem_example :
    let cache = (line_at_offset log_disk no_cache "log" 2).1 in
    ((line_at_offset log_disk cache "log" 5).0 ≡ newlines (take 5 log_bytes) + 1)
    × IsSound log_disk (line_at_offset log_disk cache "log" 5).1
line_at_offset_lem_example =
    line_at_offset_lem log_disk (line_at_offset log_disk no_cache "log" 2).1 "log" log_bytes 5
      (line_at_offset_lem log_disk no_cache "log" log_bytes 2 no_cache-IsSound refl).1 refl

abbrev silent : Worker
silent = record {
  port = 8188;
  pid = 41;
  active_prompt_id = some "p1";
  last_heartbeat = 300;
  resource_class = "default";
}

abbrev lost_message : ℕ → String
lost_message port = "lost"

abbrev later : ℕ
later = 100000000

silent-stored : Memᴰ silent (beat later 8189 42 "default" after_claim.db.workers)
unfolding beat upsert claim fetch_one enqueue to_float encode_item to_str order_by select lookup
    make_settings count
silent-stored = Memᴰ.head refl

heartbeat_lem_example :
    let out = heartbeat disk lost_message later 8189 42 60 "" after_claim in
    IsStopped "p1" out.1.db.jobs
    × (Memᴰ "p1" out.0 ↔ (1 ≤ count (runs_prompt "p1") after_claim.db.jobs))
heartbeat_lem_example =
    heartbeat_lem disk lost_message later 8189 42 60 "" after_claim silent silent-stored refl

after-registered : fetch_one (has_port 8188) after_claim.db.workers ≡ some silent
unfolding claim fetch_one upsert enqueue to_float encode_item to_str order_by select lookup
    make_settings count
after-registered = refl

register_worker-IsStopped_example :
    IsStopped "p1" (register_worker disk 500 8188 99 "" after_claim).db.jobs
register_worker-IsStopped_example =
    register_worker-IsStopped disk 500 8188 99 "" after_claim silent "p1" after-registered refl refl

register_worker_forgets_job_example :
    ((register_worker disk 500 8188 41 "" after_claim).db.jobs ≡ after_claim.db.jobs)
    × ((worker : Worker) × (fetch_one
            (has_port 8188)
            (register_worker disk 500 8188 41 "" after_claim).db.workers
          ≡ some worker)
        × (worker.active_prompt_id ≡ none))
register_worker_forgets_job_example =
    register_worker_forgets_job disk 500 8188 41 "" after_claim silent "p1" after-registered refl
      refl

abbrev any_item : List Json → Bool
any_item item = true

protected_stays_example :
    Memᴰ candidate (cancel 500 "p1" "bob" false both).1.jobs
    × Memᴰ candidate (cancel_all 500 "bob" false both).1.jobs
    × Memᴰ candidate (delete_matching 500 any_item "bob" false both).1.jobs
protected_stays_example =
    protected_stays 500 "bob" both (Reach-IsWellFormed both-Reach) candidate candidate-stored
      (inl refl) "p1" any_item

visible_items_lem_example :
    (running waiting : List Job) × (visible_items "ann" false both
      ≡ ok (map (λ job. job.payload) running, map (λ job. job.payload) waiting))
    × AreListed
        (λ job. is_running job.status && (false || str_eq job.owner_id "ann"))
        both.jobs
        running
    × AreListed
        (λ job. is_queued job.status && (false || str_eq job.owner_id "ann"))
        both.jobs
        waiting
visible_items_lem_example = visible_items_lem "ann" false both (Reach-IsWellFormed both-Reach)
