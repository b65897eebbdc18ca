-- ===== src/Scheduler/Queries.antt =====
-- The methods of utils/scheduler_store.py that only read, the asset table, and the settings of
-- `WorkerHeartbeat`.
use comfy_ui_account_manager.Base.{
  ℕ, String, Bool, true, not, ◌&&◌, ◌||◌, List, [], ◌∷◌, Option, none, some, max, ◌*◌, map, str_eq,
  ltb, ◌==◌, if◌then◌else◌, is_some, holds, head?,
}
use comfy_ui_account_manager.Base.Table.{select, fetch_one, order_by, upsert}
use comfy_ui_account_manager.Json.{Json, obj, Members, Python, get, truthy, to_str, text_field}
use comfy_ui_account_manager.Scheduler.Rows.{
  Job, Worker, Asset, Db, Result, ok, ◌>>=◌, is_queued, is_running,
}
use comfy_ui_account_manager.Scheduler.Settings.{decode_item}
use comfy_ui_account_manager.Scheduler.Store.{has_prompt, is_stale}
use comfy_ui_account_manager.Scheduler.Claim.{before}

-- owner_id = ?, unless an administrator asks
abbrev pub is_own : String → Bool → Job → Bool
is_own owner_id admin job = admin || str_eq job.owner_id owner_id

abbrev pub is_pending : String → Bool → Job → Bool
is_pending owner_id admin job =
    (is_running job.status || is_queued job.status) && is_own owner_id admin job

-- The loop of `visible_items` that deals the decoded rows out to (running, queued).
unfoldable pub deal : List Job → Result (List (List Json) × List (List Json))
deal [] = ok ([], [])
deal (row ∷ rows) = do
  item ← decode_item row.payload
  rest ← deal rows
  ok (if is_running row.status then (item ∷ rest.0, rest.1) else (rest.0, item ∷ rest.1))

unfoldable pub visible_items : String → Bool → Db → Result (List (List Json) × List (List Json))
unfolding deal
visible_items owner_id admin db =
    deal (order_by before (select (is_pending owner_id admin) db.jobs))

unfoldable pub get_job : String → Db → Option Job
get_job prompt_id db = fetch_one (has_prompt prompt_id) db.jobs

unfoldable pub running_jobs : String → Bool → Db → List Job
running_jobs owner_id admin db =
    select (λ job. is_running job.status && is_own owner_id admin job) db.jobs

-- ORDER BY sequence DESC
abbrev later : Job → Job → Bool
later a b = ltb b.sequence a.sequence

-- A port that is not 0.
abbrev port_of : Option Job → Option ℕ
port_of none = none
port_of (some row) = elim row.ingress_port [
  | none ↦ none
  | some port ↦ if port == 0 then none else some port
]

unfoldable pub client_ingress : String → Db → Option ℕ
client_ingress client_id db =
    if str_eq client_id ""
    then none
    else port_of (
        head? (
          order_by later
            (select (λ job. holds job.client_id client_id && is_some job.ingress_port) db.jobs)))

abbrev pub by_port : Worker → Worker → Bool
by_port a b = ltb a.port b.port

-- last_heartbeat >= cutoff
unfoldable pub worker_ports : ℕ → ℕ → Db → List ℕ
worker_ports now stale_seconds db =
    map (λ w. w.port)
      (order_by by_port (select (λ w. not (is_stale now stale_seconds w)) db.workers))

-- The LEFT JOIN finds no running job with the worker's active prompt id.
unfoldable pub is_free : List Job → Worker → Bool
is_free jobs worker = elim worker.active_prompt_id [
  | none ↦ true
  | some prompt_id ↦
      not (is_some (fetch_one (λ job. has_prompt prompt_id job && is_running job.status) jobs))
]

abbrev pub serves : String → Worker → Bool
serves resource_class worker =
    str_eq worker.resource_class "default"
    || (str_eq resource_class "default" || str_eq worker.resource_class resource_class)

unfoldable pub is_idle : ℕ → ℕ → String → List Job → Worker → Bool
unfolding is_free
is_idle now stale_seconds resource_class jobs worker =
    not (is_stale now stale_seconds worker) && (is_free jobs worker && serves resource_class worker)

unfoldable pub idle_worker_ports : ℕ → String → ℕ → Db → List ℕ
unfolding is_idle
idle_worker_ports now resource_class stale_seconds db =
    map (λ w. w.port)
      (order_by by_port (select (is_idle now stale_seconds resource_class db.jobs) db.workers))

-- str(data.get("fullpath") or data.get("file_path") or "")
unfoldable pub file_path_of : Python → Members → String
file_path_of py data_ =
    let other = text_field py data_ "file_path" in
    elim (get data_ "fullpath") [ none ↦ other | some v ↦ if truthy v then to_str py v else other ]

unfoldable pub upsert_asset : Python → ℕ → String → String → String → ℕ → Members → Db → Db
unfolding file_path_of
upsert_asset py now asset_id owner_id prompt_id worker_port data_ db =
    let row : Asset = record {
      asset_id = asset_id;
      owner_id = owner_id;
      prompt_id = prompt_id;
      worker_port = worker_port;
      file_path = file_path_of py data_;
      body = obj data_;
      updated_at = now;
    } in
    if str_eq asset_id "" then db else record db {
      assets = upsert (λ (a : Asset). str_eq a.asset_id asset_id) (λ a. row) row db.assets;
    }

unfoldable pub get_asset : String → Db → Option Asset
get_asset asset_id db = fetch_one (λ a. str_eq a.asset_id asset_id) db.assets

-- `interval_seconds` and `stale_seconds` of a `WorkerHeartbeat`
unfoldable pub heartbeat_settings : ℕ → ℕ → ℕ × ℕ
heartbeat_settings interval_seconds stale_seconds =
    let interval = max 1 interval_seconds in (interval, max (interval * 2) stale_seconds)
