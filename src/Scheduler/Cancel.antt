-- ===== src/Scheduler/Cancel.antt =====
-- `cancel`, `cancel_all` and `delete_matching` of utils/scheduler_store.py. An absent owner is the
-- empty text, which `owner_id or ""` makes of it.
use comfy_ui_account_manager.Base.{
  ℕ, String, Bool, true, false, ◌&&◌, ◌||◌, List, [], ◌∷◌, Option, none, some, str_eq,
  if◌then◌else◌,
}
use comfy_ui_account_manager.Base.Table.{select, count, update, fetch_one, order_by}
use comfy_ui_account_manager.Json.{Json}
use comfy_ui_account_manager.Scheduler.Rows.{Job, Db, Result, ok, err, cancelled, is_queued}
use comfy_ui_account_manager.Scheduler.Settings.{decode_item}
use comfy_ui_account_manager.Scheduler.Store.{has_prompt, queues_prompt, with_jobs}
use comfy_ui_account_manager.Scheduler.Claim.{before}

abbrev pub as_cancelled : ℕ → Job → Job
as_cancelled now job = record job { status = cancelled; finished_at = some now }

-- The row is there, is queued, and belongs to the caller unless an administrator asks.
abbrev pub may_cancel : String → Bool → Option Job → Bool
may_cancel owner_id admin none = false
may_cancel owner_id admin (some row) =
    is_queued row.status && (admin || str_eq row.owner_id owner_id)

unfoldable pub cancel : ℕ → String → String → Bool → Db → Bool × Db
cancel now prompt_id owner_id admin db =
    if may_cancel owner_id admin (fetch_one (has_prompt prompt_id) db.jobs)
    then (true, with_jobs db (update (queues_prompt prompt_id) (as_cancelled now) db.jobs))
    else (false, db)

-- WHERE status = QUEUED, and the owner's own rows unless `admin`
abbrev pub is_visible_queued : String → Bool → Job → Bool
is_visible_queued owner_id admin job =
    is_queued job.status && (admin || str_eq job.owner_id owner_id)

unfoldable pub cancel_all : ℕ → String → Bool → Db → ℕ × Db
cancel_all now owner_id admin db = (
  count (is_visible_queued owner_id admin) db.jobs,
  with_jobs db (update (is_visible_queued owner_id admin) (as_cancelled now) db.jobs),
)

-- The loop: the first row that the predicate takes and that can still be cancelled. Each call of
-- `cancel` is a transaction of its own, and reads the clock: `now` is the time of the call.
unfoldable pub delete_rows :
    ℕ → (List Json → Bool) → String → Bool → List Job → Db → Result Bool × Db
unfolding cancel
delete_rows now predicate owner_id admin [] db = (ok false, db)
delete_rows now predicate owner_id admin (row ∷ rows) db =
    let rest = delete_rows now predicate owner_id admin rows in
    elim (decode_item row.payload) [
      | err e ↦ (err e, db)
      | ok item ↦
          if predicate item
          then (let (done, db') = cancel now row.prompt_id owner_id admin db in
              if done then (ok true, db') else rest db')
          else rest db
    ]

unfoldable pub delete_matching : ℕ → (List Json → Bool) → String → Bool → Db → Result Bool × Db
unfolding delete_rows
delete_matching now predicate owner_id admin db =
    delete_rows now predicate owner_id admin
      (order_by before (select (is_visible_queued owner_id admin) db.jobs)) db
