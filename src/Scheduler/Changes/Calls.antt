-- ===== src/Scheduler/Changes/Calls.antt =====
-- Each method of utils/scheduler_store.py changes the job table by the primitive changes only.
use comfy_ui_account_manager.Base.{
  ℕ, String, Bool, List, [], ◌∷◌, ◌++◌, Option, none, some, ◌≡◌, subst, arith, ◌==◌, ==_iff,
  Bool-cases, inl, inr, Option-cases, &&-eq-true, if_ind, str_eq, length,
}
use comfy_ui_account_manager.Base.Table.{count, fetch_one, select}
use comfy_ui_account_manager.Json.{Json, Python}
use comfy_ui_account_manager.Scheduler.Rows.{
  Job, Worker, Db, Settings, Result, ok, Result-cases, >>=-eq-ok, ok-injective, queued,
}
use comfy_ui_account_manager.Scheduler.Settings.{encode_item, decode_item}
use comfy_ui_account_manager.Scheduler.Logs.{Disk, Position, log_position}
use comfy_ui_account_manager.Scheduler.Store.{
  Store, has_prompt, queues_prompt, if_text, lose_job, log_file_of, has_port, or_default,
}
use comfy_ui_account_manager.Scheduler.Submit.{
  Submission, enqueue, new_job, insert_job, reclassify, classify_with, is_legacy,
  classify_legacy_queued_jobs,
}
use comfy_ui_account_manager.Scheduler.Workers.{
  restart_message, map_workers, beat, is_lost, lose_old, register_worker, sweep, heartbeat,
}
use comfy_ui_account_manager.Scheduler.Claim.{next_job, start_job, claim_at, claim, is_busy}
use comfy_ui_account_manager.Scheduler.Complete.{complete, complete_at, record_api_call}
use comfy_ui_account_manager.Scheduler.Cancel.{
  cancel, cancel_all, delete_rows, delete_matching, may_cancel, is_visible_queued,
}
use comfy_ui_account_manager.Scheduler.Queries.{upsert_asset}
use comfy_ui_account_manager.Scheduler.Changes.{
  Change, Changes, Step, unchanged, followed, lost, finished, cancelled, started, added,
  reclassified, enqueues, classifies, registers, beats, claims, completes, cancels, cancels_all,
  deletes, saves_asset, records_call,
}

Changes-trans : {a b c : List Job} → Changes a b → Changes b c → Changes a c
Changes-trans p unchanged = p
Changes-trans p (followed q c) = followed (Changes-trans p q) c

once : {a b : List Job} → Change a b → Changes a b
once c = followed unchanged c

lose_job-Changes :
    (disk : Disk) (now : ℕ) (message prompt_id : String) (s : Store)
    → Changes s.db.jobs (lose_job disk now message prompt_id s).1.db.jobs
unfolding lose_job
lose_job-Changes disk now message prompt_id s =
    once (lost now message (log_position disk s.line_cache (log_file_of active)).0 prompt_id)
  where
    active : Option Job
    active = fetch_one (has_prompt prompt_id) s.db.jobs

lose_old-Changes :
    (disk : Disk) (now pid : ℕ) (old : Option Worker) (s : Store)
    → Changes s.db.jobs (lose_old disk now pid old s).db.jobs
unfolding lose_old
lose_old-Changes disk now pid none s = unchanged
lose_old-Changes disk now pid (some old) s = elim (Option-cases (if_text old.active_prompt_id)) [
  | inl e ↦ rw (e, lose_old) unchanged
  | inr (prompt_id, e) ↦
      rw (e, lose_old)
        (elim (Bool-cases (old.pid == pid)) [
          | inl t ↦ rw t unchanged
          | inr n ↦ rw n (lose_job-Changes disk now restart_message prompt_id s)
        ])
]

sweep-Changes :
    (disk : Disk) (now : ℕ) (message : ℕ → String) (stale : List Worker) (s : Store)
    → Changes s.db.jobs (sweep disk now message stale s).1.db.jobs
unfolding sweep
sweep-Changes disk now message [] s = unchanged
sweep-Changes disk now message (worker ∷ rest) s =
    Changes-trans (lose_job-Changes disk now (message worker.port) _ s)
      (sweep-Changes disk now message rest _)

start_job-Changes :
    (position : Position) (now port pid : ℕ) (resource_class : String) (row : Job) (db : Db)
    → next_job resource_class db.jobs ≡ some row
    → Changes db.jobs (start_job position now port pid resource_class row db).1.jobs
unfolding start_job
start_job-Changes position now port pid resource_class row db e =
    elim (Bool-cases (count (queues_prompt row.prompt_id) db.jobs == 1)) [
      | inl one ↦
          rw one (once (started now port position resource_class row e ((==_iff _ 1).0 one)))
      | inr other ↦ rw other unchanged
    ]

claim_at-Changes :
    (position : Position) (now port pid : ℕ) (resource_class : String) (db : Db)
    → Changes db.jobs (claim_at position now port pid resource_class db).1.jobs
unfolding claim_at
claim_at-Changes position now port pid resource_class db = elim (Bool-cases (is_busy db port)) [
  | inl busy ↦ rw busy unchanged
  | inr free ↦ rw free (elim (Option-cases (next_job resource_class db.jobs)) [
    | inl e ↦ rw e unchanged
    | inr (row, e) ↦ rw e (start_job-Changes position now port pid resource_class row db e)
  ])
]

cancel-Changes :
    (now : ℕ) (prompt_id owner_id : String) (admin : Bool) (db : Db)
    → Changes db.jobs (cancel now prompt_id owner_id admin db).1.jobs
unfolding cancel
cancel-Changes now prompt_id owner_id admin db =
    elim (Bool-cases (may_cancel owner_id admin (fetch_one (has_prompt prompt_id) db.jobs))) [
      | inl may ↦
          rw may (once (cancelled now (queues_prompt prompt_id) (λ job h. (&&-eq-true _ _ h).1)))
      | inr not_allowed ↦ rw not_allowed unchanged
    ]

delete_rows-Changes :
    (now : ℕ) (predicate : List Json → Bool) (owner_id : String) (admin : Bool) (rows : List Job)
    (db : Db)
    → Changes db.jobs (delete_rows now predicate owner_id admin rows db).1.jobs
unfolding delete_rows
delete_rows-Changes now predicate owner_id admin [] db = unchanged
delete_rows-Changes now predicate owner_id admin (row ∷ rows) db =
    elim (Result-cases (decode_item row.payload)) [
      | inl (item, e) ↦
          rw (e, delete_rows)
            (if_ind (λ (out : Result Bool × Db). Changes db.jobs out.1.jobs) (predicate item)
              (λ _.
                if_ind (λ (out : Result Bool × Db). Changes db.jobs out.1.jobs) done.0 (λ _. tried)
                  (λ _.
                    Changes-trans tried
                      (delete_rows-Changes now predicate owner_id admin rows done.1)))
              (λ _. delete_rows-Changes now predicate owner_id admin rows db))
      | inr (e, raised) ↦ rw (raised, delete_rows) unchanged
    ]
  where
    done : Bool × Db
    done = cancel now row.prompt_id owner_id admin db

    tried : Changes db.jobs done.1.jobs
    tried = cancel-Changes now row.prompt_id owner_id admin db

new_job-queued :
    (py : Python) (settings : Settings) (now : ℕ) (r : Submission) (sequence : ℕ) {job : Job}
    → new_job py settings now r sequence ≡ ok job
    → job.status ≡ queued
unfolding new_job
new_job-queued py settings now r sequence e = ground arith

encode_item-length : (item payload : List Json) → encode_item item ≡ ok payload → length payload ≡ 6
unfolding encode_item
encode_item-length (a ∷ b ∷ c ∷ d ∷ e ∷ f ∷ rest) payload h = ground arith
encode_item-length item payload h = ground arith

new_job-length :
    (py : Python) (settings : Settings) (now : ℕ) (r : Submission) (sequence : ℕ) {job : Job}
    → new_job py settings now r sequence ≡ ok job
    → length job.payload ≡ 6
unfolding new_job
new_job-length py settings now r sequence {job} e =
    ground (arith, encode_item-length r.item job.payload)

insert_job-Changes :
    (db : Db) (job : Job) {db' : Db}
    → job.status ≡ queued
    → length job.payload ≡ 6
    → insert_job db job ≡ ok db'
    → Changes db.jobs db'.jobs
unfolding insert_job
insert_job-Changes db job {db'} q six e =
    elim (Option-cases (fetch_one (has_prompt job.prompt_id) db.jobs)) [
      | inl none_yet ↦
          let same : db.jobs ++ job ∷ [] ≡ db'.jobs = ground arith in
          subst (Changes db.jobs) same (once (added job q six none_yet))
      | inr (old, taken) ↦ absurd (ground arith)
    ]

enqueue-Changes :
    (py : Python) (settings : Settings) (now : ℕ) (r : Submission) (db : Db) {db' : Db}
    → enqueue py settings now r db ≡ ok db'
    → Changes db.jobs db'.jobs
unfolding enqueue
enqueue-Changes py settings now r db e =
    let (job, inserted, made) = >>=-eq-ok (new_job py settings now r db.next_sequence) _ e in
    insert_job-Changes db job (new_job-queued py settings now r db.next_sequence made)
      (new_job-length py settings now r db.next_sequence made) inserted

reclassify-Changes :
    (py : Python) (settings : Settings) (rows jobs : List Job) {jobs' : List Job}
    → reclassify py settings rows jobs ≡ ok jobs'
    → Changes jobs jobs'
unfolding reclassify
reclassify-Changes py settings [] jobs e = subst (Changes jobs) (ok-injective e) unchanged
reclassify-Changes py settings (row ∷ rows) jobs e =
    let (item, rest, decoded) = >>=-eq-ok (decode_item row.payload) _ e in
    Changes-trans (once (reclassified row.prompt_id _ _))
      (reclassify-Changes py settings rows _ rest)

classify-Changes :
    (py : Python) (settings : Settings) (names : List String) (db : Db) {db' : Db}
    → classify_with py settings names db ≡ ok db'
    → Changes db.jobs db'.jobs
unfolding classify_with
classify-Changes py settings [] db e =
    subst (λ (d : Db). Changes db.jobs d.jobs) (ok-injective e) unchanged
classify-Changes py settings (name ∷ names) db e =
    let (jobs, same, done) =
      >>=-eq-ok (reclassify py settings (select is_legacy db.jobs) db.jobs) _ e in
    subst (λ (d : Db). Changes db.jobs d.jobs) (ok-injective same)
      (reclassify-Changes py settings (select is_legacy db.jobs) db.jobs done)

heartbeat-Changes :
    (disk : Disk) (message : ℕ → String) (now port pid stale_seconds : ℕ) (resource_class : String)
    (s : Store)
    → Changes s.db.jobs
        (heartbeat disk message now port pid stale_seconds resource_class s).1.db.jobs
unfolding heartbeat
heartbeat-Changes disk message now port pid stale_seconds resource_class s =
    let s' : Store = map_workers (beat now port pid (or_default resource_class)) s in
    sweep-Changes disk now message (select (is_lost now stale_seconds) s'.db.workers) s'

-- Every call of a writing method changes the job table by primitive changes only.
pub Step-Changes :
    {py : Python} {settings : Settings} {db db' : Db}
    → Step py settings db db'
    → Changes db.jobs db'.jobs
unfolding register_worker claim classify_legacy_queued_jobs complete complete_at cancel_all
    delete_matching upsert_asset record_api_call
Step-Changes {db = db} (enqueues now r e) = enqueue-Changes _ _ now r db e
Step-Changes {settings = settings} {db = db} (classifies e) =
    classify-Changes _ settings settings.gpu_node_types db e
Step-Changes {db = db} (registers disk cache now port pid resource_class) =
    lose_old-Changes disk now pid (fetch_one (has_port port) db.workers)
      (record { db = db; line_cache = cache })
Step-Changes {db = db} (beats disk cache message now port pid stale_seconds resource_class) =
    heartbeat-Changes disk message now port pid stale_seconds resource_class
      (record { db = db; line_cache = cache })
Step-Changes {db = db} (claims disk cache now port pid resource_class log_file) =
    claim_at-Changes _ now port pid _ db
Step-Changes {db = db} (completes disk cache now prompt_id worker_port succeeded error log_file) =
    once (finished now succeeded error _ prompt_id)
Step-Changes {db = db} (cancels now prompt_id owner_id admin) =
    cancel-Changes now prompt_id owner_id admin db
Step-Changes {db = db} (cancels_all now owner_id admin) =
    once (cancelled now (is_visible_queued owner_id admin) (λ job h. (&&-eq-true _ _ h).0))
Step-Changes {db = db} (deletes now predicate owner_id admin) =
    delete_rows-Changes now predicate owner_id admin _ db
Step-Changes {db = db} (saves_asset now asset_id owner_id prompt_id worker_port body) =
    if_ind (λ (d : Db). Changes db.jobs d.jobs) (str_eq asset_id "") (λ _. unchanged)
      (λ _. unchanged)
Step-Changes (records_call call) = unchanged
