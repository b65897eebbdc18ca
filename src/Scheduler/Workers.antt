-- ===== src/Scheduler/Workers.antt =====
-- `register_worker` and `heartbeat` of utils/scheduler_store.py.
use comfy_ui_account_manager.Base.{
  ℕ, String, Bool, ◌&&◌, List, [], ◌∷◌, Option, none, some, ◌==◌, if◌then◌else◌, is_some, or_else,
}
use comfy_ui_account_manager.Base.Table.{select, update, fetch_one, upsert}
use comfy_ui_account_manager.Scheduler.Rows.{Worker}
use comfy_ui_account_manager.Scheduler.Logs.{Disk}
use comfy_ui_account_manager.Scheduler.Store.{
  Store, has_port, or_default, if_text, with_workers, lose_job, is_stale,
}

abbrev pub restart_message : String
restart_message = "Worker process restarted before the task completed"

abbrev pub map_workers : (List Worker → List Worker) → Store → Store
map_workers f s = record s { db = with_workers s.db (f s.db.workers) }

-- The job of a worker that another process replaces at its port is lost.
unfoldable pub lose_old : Disk → ℕ → ℕ → Option Worker → Store → Store
lose_old disk now pid none s = s
lose_old disk now pid (some old) s = elim (if_text old.active_prompt_id) [
  | none ↦ s
  | some prompt_id ↦ if old.pid == pid then s else (lose_job disk now restart_message prompt_id s).1
]

unfoldable pub register_worker : Disk → ℕ → ℕ → ℕ → String → Store → Store
unfolding lose_old
register_worker disk now port pid resource_class s =
    map_workers
      (upsert (has_port port)
        (λ w. record w {
          pid = pid;
          active_prompt_id = none;
          last_heartbeat = now;
          resource_class = or_default resource_class;
        })
        (record {
          port = port;
          pid = pid;
          active_prompt_id = none;
          last_heartbeat = now;
          resource_class = or_default resource_class;
        }))
      (lose_old disk now pid (fetch_one (has_port port) s.db.workers) s)

-- The INSERT ... ON CONFLICT of `heartbeat`, and of `claim` where there is no job.
unfoldable pub beat : ℕ → ℕ → ℕ → String → List Worker → List Worker
beat now port pid resource_class =
    upsert (has_port port)
      (λ w. record w { pid = pid; last_heartbeat = now; resource_class = resource_class })
      (record {
        port = port;
        pid = pid;
        active_prompt_id = none;
        last_heartbeat = now;
        resource_class = resource_class;
      })

-- The loop over the stale workers. `message` gives the text that names a port. The first result
-- is the list `lost`.
unfoldable pub sweep : Disk → ℕ → (ℕ → String) → List Worker → Store → List String × Store
sweep disk now message [] s = ([], s)
sweep disk now message (worker ∷ rest) s =
    let prompt_id = or_else worker.active_prompt_id "" in
    let (updated, s') = lose_job disk now (message worker.port) prompt_id s in
    let cleared =
      map_workers (update (has_port worker.port) (λ w. record w { active_prompt_id = none })) s' in
    let (lost, final) = sweep disk now message rest cleared in
    (if updated == 0 then lost else prompt_id ∷ lost, final)

-- WHERE last_heartbeat < ? AND active_prompt_id IS NOT NULL
abbrev pub is_lost : ℕ → ℕ → Worker → Bool
is_lost now stale_seconds worker =
    is_stale now stale_seconds worker && is_some worker.active_prompt_id

unfoldable pub heartbeat :
    Disk → (ℕ → String) → ℕ → ℕ → ℕ → ℕ → String → Store → List String × Store
unfolding beat sweep
heartbeat disk message now port pid stale_seconds resource_class s =
    let s' = map_workers (beat now port pid (or_default resource_class)) s in
    sweep disk now message (select (is_lost now stale_seconds) s'.db.workers) s'
