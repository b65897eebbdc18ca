-- ===== src/Scheduler/Submit.antt =====
-- `enqueue` and `_classify_legacy_queued_jobs` of utils/scheduler_store.py.
use comfy_ui_account_manager.Base.{
  ℕ, String, Bool, ◌&&◌, List, [], ◌∷◌, ◌++◌, Option, none, some, ◌+◌, str_eq, ◌==◌, if◌then◌else◌,
  or_else, get_elem?,
}
use comfy_ui_account_manager.Base.Dict.{lookup}
use comfy_ui_account_manager.Base.Table.{select, update, fetch_one}
use comfy_ui_account_manager.Json.{
  Json, text, obj, Members, end, Python, to_str, text_field, to_float,
}
use comfy_ui_account_manager.Scheduler.Rows.{
  Job, Db, Settings, Result, ok, err, ◌>>=◌, or_raise, index_error, type_error, value_error, Error,
  integrity_error, queued, is_queued,
}
use comfy_ui_account_manager.Scheduler.Settings.{classify_item, encode_item, decode_item}
use comfy_ui_account_manager.Scheduler.Store.{has_prompt, with_jobs}

-- The arguments of `enqueue`. An absent `resource_class` is the empty text.
pub record Submission : Type 0 where
  pub item : List Json
  pub owner_id : String
  pub ingress_port : ℕ
  pub concurrency_exempt : Bool
  pub resource_class : String

-- item[3] if isinstance(item[3], dict) else {}
abbrev as_members : Json → Members
as_members (obj ms) = ms
as_members _ = end

abbrev non_empty : String → Option String
non_empty t = if str_eq t "" then none else some t

-- str(resource_class or self.classify_item(item))
unfoldable pub class_of : Python → Settings → Submission → String
class_of py settings r =
    if str_eq r.resource_class "" then classify_item py settings r.item else r.resource_class

unfoldable pub limit_of : Settings → Bool → String → ℕ
limit_of settings exempt resource_class =
    if exempt
    then settings.admin_concurrency_limit
    else or_else (lookup resource_class settings.resource_concurrency_limits)
        settings.max_concurrent_jobs_per_user

-- float(v) raises ValueError for a text, and TypeError for a value that is neither text nor number.
abbrev float_error : Json → Error
float_error (text t) = value_error
float_error other = type_error

-- The row that the INSERT adds, or the exception of a malformed item.
unfoldable pub new_job : Python → Settings → ℕ → Submission → ℕ → Result Job
unfolding class_of limit_of
new_job py settings now r sequence = do
  second ← or_raise (get_elem? r.item 1) index_error
  extra ← or_raise (get_elem? r.item 3) index_error
  first ← or_raise (get_elem? r.item 0) index_error
  priority ← or_raise (to_float py first) (float_error first)
  payload ← encode_item r.item
  let resource_class = class_of py settings r
  ok (record {
    sequence = sequence;
    prompt_id = to_str py second;
    owner_id = r.owner_id;
    client_id = non_empty (text_field py (as_members extra) "client_id");
    ingress_port = some r.ingress_port;
    worker_port = none;
    priority = priority;
    payload = payload;
    status = queued;
    concurrency_limit = limit_of settings r.concurrency_exempt resource_class;
    submitted_at = now;
    started_at = none;
    finished_at = none;
    heartbeat_at = none;
    error = none;
    resource_class = resource_class;
    log_file = none;
    log_start_offset = none;
    log_end_offset = none;
    log_start_line = none;
    log_end_line = none;
  })

-- The UNIQUE constraint on prompt_id refuses a second row.
unfoldable pub insert_job : Db → Job → Result Db
insert_job db job = elim (fetch_one (has_prompt job.prompt_id) db.jobs) [
  | some old ↦ err integrity_error
  | none ↦ ok (record db { jobs = db.jobs ++ job ∷ []; next_sequence = db.next_sequence + 1 })
]

unfoldable pub enqueue : Python → Settings → ℕ → Submission → Db → Result Db
unfolding new_job insert_job
enqueue py settings now r db = do
  job ← new_job py settings now r db.next_sequence
  insert_job db job

-- WHERE status = QUEUED AND resource_class = 'default'
abbrev pub is_legacy : Job → Bool
is_legacy job = is_queued job.status && str_eq job.resource_class "default"

-- The new limit: one of a classified job is looked up, and 0 (no limit) stays.
abbrev relimit : Settings → String → ℕ → ℕ
relimit settings resource_class limit =
    if limit == 0
    then 0
    else or_else (lookup resource_class settings.resource_concurrency_limits) limit

-- The loop over the fetched rows; an unreadable payload raises, and all is rolled back.
unfoldable pub reclassify : Python → Settings → List Job → List Job → Result (List Job)
reclassify py settings [] jobs = ok jobs
reclassify py settings (row ∷ rows) jobs = decode_item row.payload >>= λ item.
    let resource_class = classify_item py settings item in
    reclassify py settings rows (
      update (λ job. has_prompt row.prompt_id job && is_legacy job)
        (λ job. record job {
          resource_class = resource_class;
          concurrency_limit = relimit settings resource_class row.concurrency_limit;
        })
        jobs)

-- Nothing is to be done without `gpu_node_types`.
unfoldable pub classify_with : Python → Settings → List String → Db → Result Db
unfolding reclassify
classify_with py settings [] db = ok db
classify_with py settings (name ∷ names) db =
    reclassify py settings (select is_legacy db.jobs) db.jobs >>= λ jobs. ok (with_jobs db jobs)

unfoldable pub classify_legacy_queued_jobs : Python → Settings → Db → Result Db
unfolding classify_with
classify_legacy_queued_jobs py settings db = classify_with py settings settings.gpu_node_types db
