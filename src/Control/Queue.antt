-- ===== src/Control/Queue.antt =====
-- The methods of the class AccessControl of utils/access_control.py on the queue. An exception of the
-- scheduler is that of its module.
use comfy_ui_account_manager.Base.{
  ℕ, ◌+◌, String, Bool, true, false, not, ◌&&◌, List, [], ◌∷◌, map, Option, none, some, str_eq,
  if◌then◌else◌, length,
}
use comfy_ui_account_manager.Base.Table.{select}
use comfy_ui_account_manager.Control.{
  Site, Control, get_current_user_id, is_admin_user, can_access_owner, wrap_queue_item,
  unwrap_queue_item, queue_item_user_id, visible_queue_items,
}
use comfy_ui_account_manager.Json.{Json}
use comfy_ui_account_manager.Scheduler.Cancel.{cancel_all, delete_matching}
use comfy_ui_account_manager.Scheduler.Queries.{visible_items}
use comfy_ui_account_manager.Scheduler.Rows.{Db, Result, ok, ◌>>=◌}
use comfy_ui_account_manager.Scheduler.Submit.{Submission, enqueue}

abbrev pub with_scheduler : Control → Db → Control
with_scheduler c db = record c { scheduler = some db }

-- self.get_current_user_id() or "", and the scheduler's `owner_id or ""`
abbrev pub user_text : Option String → String
user_text none = ""
user_text (some user) = user

unfoldable pub submission_of : Site → List Json → Control → Submission
unfolding unwrap_queue_item get_current_user_id is_admin_user
submission_of site item c =
    let user = user_text (get_current_user_id c) in
    record {
      item = unwrap_queue_item item;
      owner_id = user;
      ingress_port = site.instance_port;
      concurrency_exempt = is_admin_user site (some user) c;
      resource_class = "";
    }

unfoldable pub user_queue_put : Site → ℕ → List Json → Control → Result Control
unfolding unwrap_queue_item get_current_user_id is_admin_user submission_of enqueue wrap_queue_item
user_queue_put site now item c = elim c.scheduler [
  | some db ↦ enqueue site.py site.settings now (submission_of site item c) db >>= λ queued.
      ok (with_scheduler c queued)
  | none ↦ ok (record c { queue = site.push (wrap_queue_item item c) c.queue })
]

unfoldable pub user_queue_get_current_queue :
    Site → Control → Result (List (List Json) × List (List Json))
unfolding get_current_user_id is_admin_user visible_items visible_queue_items
user_queue_get_current_queue site c =
    let user = get_current_user_id c in
    elim c.scheduler [
      | some db ↦ visible_items (user_text user) (is_admin_user site user c) db
      | none ↦ ok (
        visible_queue_items site c (map (λ entry. entry.1) c.currently_running),
        visible_queue_items site c c.queue,
      )
    ]

unfoldable pub user_queue_get_tasks_remaining : Site → Control → Result ℕ
unfolding user_queue_get_current_queue
user_queue_get_tasks_remaining site c =
    user_queue_get_current_queue site c >>= λ (running, queued). ok (length running + length queued)

-- self._queue_item_user_id(item) != current_user_id
abbrev pub is_others : Option String → List Json → Bool
unfolding queue_item_user_id
is_others user item = elim (queue_item_user_id item) [
  | none ↦ elim user [ none ↦ false | some id ↦ true ]
  | some owner ↦ elim user [ none ↦ true | some id ↦ not (str_eq owner id) ]
]

unfoldable pub user_queue_wipe_queue : Site → ℕ → Control → Control
unfolding get_current_user_id cancel_all is_admin_user select queue_item_user_id
user_queue_wipe_queue site now c =
    let user = get_current_user_id c in
    elim c.scheduler [
      | some db ↦
          with_scheduler c (cancel_all now (user_text user) (is_admin_user site user c) db).1
      | none ↦ record c {
        queue = if is_admin_user site user c then [] else select (is_others user) c.queue;
      }
    ]

-- The loop over the indices: the queue without the first item that may be removed, if there is one.
unfoldable pub remove_first :
    Site → (List Json → Bool) → Control → List (List Json) → Option (List (List Json))
unfolding can_access_owner unwrap_queue_item queue_item_user_id
remove_first site function c [] = none
remove_first site function c (item ∷ items) =
    let later = remove_first site function c items in
    if function (unwrap_queue_item item) && can_access_owner site (queue_item_user_id item) none c
    then some items
    else elim later [ none ↦ none | some left ↦ some (item ∷ left) ]

unfoldable pub user_queue_delete_queue_item :
    Site → ℕ → (List Json → Bool) → Control → Result Bool × Control
unfolding get_current_user_id is_admin_user delete_matching remove_first
user_queue_delete_queue_item site now function c = elim c.scheduler [
  | some db ↦
      let user = get_current_user_id c in
      let deleted = delete_matching now function (user_text user) (is_admin_user site user c) db in
      (deleted.0, with_scheduler c deleted.1)
  | none ↦ elim (remove_first site function c c.queue) [
    | none ↦ (ok false, c)
    | some left ↦ (ok true, record c { queue = site.heapify left })
  ]
]
