-- ===== src/AgentTasks/Idempotence.antt =====
-- A repeated request makes no second task and no second child.
use comfy_ui_account_manager.Base.{
  ℕ, String, Bool, true, false, some, ◌≡◌, refl, arith, str_eq, str_eq_refl, str_eq_iff,
  if◌then◌else◌,
}
use comfy_ui_account_manager.Base.Table.{fetch_one}
use comfy_ui_account_manager.Base.Table.Laws.{fetch_one-snoc}
use comfy_ui_account_manager.Json.{Json}
use comfy_ui_account_manager.AgentTasks.Rows.{Task, Child, Db, Settings, ok, err, value_error}
use comfy_ui_account_manager.AgentTasks.Tasks.{has_id, is_submission, new_task, insert_task, create}
use comfy_ui_account_manager.AgentTasks.Children.{
  is_request, may_submit, new_child, insert_child, reserve_child,
}

-- A successful `create` leaves the task where a submission with the same key finds it.
create-found :
    (settings : Settings) (now : ℕ) (id owner key : String) (job : Json) (db : Db) (task : Task)
    → (create settings now id owner key job db).0 ≡ ok task
    → fetch_one (is_submission owner key) (create settings now id owner key job db).1.tasks
      ≡ some task
unfolding create insert_task
create-found settings now id owner key job db task e = ground (
  arith,
  str_eq_refl owner,
  str_eq_refl key,
  fetch_one-snoc (is_submission owner key) db.tasks (new_task now id owner key job),
)

-- After a successful `create`, a second one with the same owner and submission key, whatever its
-- job, its new id and its time, answers with the same task and changes nothing.
pub create_again :
    (settings : Settings) (now later : ℕ) (id id' owner key : String) (job job' : Json) (db : Db)
    (task : Task)
    → (create settings now id owner key job db).0 ≡ ok task
    → let db' = (create settings now id owner key job db).1 in
      create settings later id' owner key job' db' ≡ (ok task, db')
create_again settings now later id id' owner key job job' db task e =
    let found = create-found settings now id owner key job db task e in
    unfold create in rw (found, create)

pub reserve-found :
    (now : ℕ) (prompt_id task_id key fingerprint : String) (db : Db) (child : Child) (fresh : Bool)
    → (reserve_child now prompt_id task_id key fingerprint db).0 ≡ ok (child, fresh)
    → (fetch_one
          (is_request task_id key)
          (reserve_child now prompt_id task_id key fingerprint db).1.children
        ≡ some child)
      × (str_eq child.fingerprint fingerprint ≡ true)
unfolding reserve_child insert_child
reserve-found now prompt_id task_id key fingerprint db child fresh e = ground (
  arith,
  str_eq_refl task_id,
  str_eq_refl key,
  str_eq_refl fingerprint,
  fetch_one-snoc (is_request task_id key) db.children (new_child task_id key fingerprint prompt_id),
)

-- After a child was reserved, a request with the same key makes no other one while the task may
-- submit: with the same fingerprint it answers with that child, marked as not new, and with another
-- fingerprint it raises. The store is unchanged in both cases.
pub reserve_again :
    (now later : ℕ) (prompt_id prompt_id' task_id key fingerprint fingerprint' : String) (db : Db)
    (child : Child) (fresh : Bool)
    → (reserve_child now prompt_id task_id key fingerprint db).0 ≡ ok (child, fresh)
    → may_submit later (
        fetch_one (has_id task_id) (reserve_child now prompt_id task_id key fingerprint db).1.tasks)
      ≡ true
    → let db' = (reserve_child now prompt_id task_id key fingerprint db).1 in
      reserve_child later prompt_id' task_id key fingerprint' db' ≡ (
        if str_eq fingerprint fingerprint'
        then (ok (child, false), db')
        else (err value_error, db'))
reserve_again now later prompt_id prompt_id' task_id key fingerprint fingerprint' db child fresh e
      may =
    let (found, same) = reserve-found now prompt_id task_id key fingerprint db child fresh e in
    let equal : child.fingerprint ≡ fingerprint =
      (str_eq_iff child.fingerprint fingerprint).0 same in
    unfold reserve_child in rw (may, found, equal) refl
