-- ===== src/Control/Getting.antt =====
-- `user_queue_get` of the class AccessControl of utils/access_control.py: one round of its loops. The
-- waiting between the rounds and its time limit are the caller's.
use comfy_ui_account_manager.Base.{ℕ, ◌+◌, String, true, List, [], ◌∷◌, ◌++◌, Option, none, some}
use comfy_ui_account_manager.Json.{Json}
use comfy_ui_account_manager.Scheduler.Rows.{Result, ok, err}
use comfy_ui_account_manager.Scheduler.Logs.{Disk, Cache}
use comfy_ui_account_manager.Scheduler.Claim.{claim}
use comfy_ui_account_manager.Control.{
  Site, Control, set_current_user_id, queue_item_user_id, unwrap_queue_item,
}

-- The process, its clock and files, and the settings of its instance.
pub record Host : Type 0 where
  pub disk : Disk
  pub now : ℕ
  pub pid : ℕ
  pub worker_resource_class : String
  pub log_file : String

-- What both branches do with the item that they took.
unfoldable pub take_item : List Json → Control → (List Json × ℕ) × Control
unfolding set_current_user_id queue_item_user_id unwrap_queue_item
take_item item c = (
  (unwrap_queue_item item, c.task_counter),
  record (set_current_user_id (queue_item_user_id item) true c) {
    currently_running = c.currently_running ++ (c.task_counter, item) ∷ [];
    task_counter = c.task_counter + 1;
  },
)

-- The item and its id, where there is one, with the object and the cache of line counts after it.
abbrev pub Taken : Type 0
Taken = Result (Option (List Json × ℕ)) × Control × Cache

abbrev pub take_claimed : Result (Option (List Json)) → Control → Cache → Taken
unfolding take_item
take_claimed (err e) c cache = (err e, c, cache)
take_claimed (ok none) c cache = (ok none, c, cache)
take_claimed (ok (some item)) c cache =
    let taken = take_item item c in (ok (some taken.0), taken.1, cache)

abbrev pub take_local : Site → List (List Json) → Control → Cache → Taken
unfolding take_item
take_local site [] c cache = (ok none, c, cache)
take_local site (first ∷ items) c cache =
    let popped = site.pop first items in
    let taken = take_item popped.0 (record c { queue = popped.1 }) in
    (ok (some taken.0), taken.1, cache)

unfoldable pub user_queue_get : Site → Host → Control → Cache → Taken
unfolding claim take_claimed take_local
user_queue_get site host c cache = elim c.scheduler [
  | some db ↦
      let claimed =
        claim host.disk host.now site.instance_port host.pid host.worker_resource_class
          host.log_file (record { db = db; line_cache = cache }) in
      take_claimed claimed.0 (record c { scheduler = some claimed.1.db }) claimed.1.line_cache
  | none ↦ take_local site c.queue c cache
]
