-- ===== src/AgentTasks/Tests.antt =====
-- The theorems on utils/agent_tasks.py at one run: a task is created, claimed, and reserves a child.
use comfy_ui_account_manager.Base.{true, [], ◌∷◌, none, some, ◌≡◌, refl, arith}
use comfy_ui_account_manager.Base.Table.{fetch_one, count, select, update as update_rows, order_by}
use comfy_ui_account_manager.Json.{null}
use comfy_ui_account_manager.AgentTasks.Rows.{
  Task, Child, Db, Settings, make_settings, ok, err, value_error, empty_db, completed, cancelled,
  cancel_requested, delivering,
}
use comfy_ui_account_manager.AgentTasks.Tasks
use comfy_ui_account_manager.AgentTasks.Children.{reserve_child, new_child}
use comfy_ui_account_manager.AgentTasks.Leases.{IsLeasedRight}
use comfy_ui_account_manager.AgentTasks.Steps.{Reach-IsLeasedRight, here, next, creates, claims}
use comfy_ui_account_manager.AgentTasks.Idempotence.{create_again, reserve_again}
use comfy_ui_account_manager.AgentTasks.Cancelling.{Ends, reporting, delivering_forgets_cancel}

abbrev settings : Settings
settings = make_settings 4 2 20

abbrev created : Db
created = (Tasks.create settings 100 "t1" "ann" "key" null empty_db).1

abbrev working : Db
working = (Tasks.claim settings 200 "l1" created).1

Reach-IsLeasedRight_example : IsLeasedRight settings working.tasks
Reach-IsLeasedRight_example =
    Reach-IsLeasedRight (next (next here (creates 100 "t1" "ann" "key" null)) (claims 200 "l1"))

create_again_example :
    Tasks.create settings 150 "t2" "ann" "key" null created
    ≡ (ok (Tasks.new_task 100 "t1" "ann" "key" null), created)
unfolding Tasks.create fetch_one make_settings count
create_again_example =
    create_again settings 100 150 "t1" "t2" "ann" "key" null null empty_db
      (Tasks.new_task 100 "t1" "ann" "key" null) refl

abbrev child : Child
child = new_child "t1" "k" "f" "p1"

abbrev reserved : Db
reserved = (reserve_child 300 "p1" "t1" "k" "f" working).1

reserve_again_example :
    reserve_child 400 "p2" "t1" "k" "other" reserved ≡ (err value_error, reserved)
unfolding reserve_child Tasks.create fetch_one Tasks.claim make_settings count update_rows order_by
    select
reserve_again_example =
    reserve_again 300 400 "p1" "p2" "t1" "k" "f" "other" working child true refl refl

-- The owner asked to cancel the task, and its worker goes on.
abbrev asked_row : Task
asked_row = record (Tasks.new_task 100 "t1" "ann" "key" null) {
  state = cancel_requested;
  lease = some "l1";
  lease_until = 1000;
}

abbrev asked : Db
asked = record empty_db { tasks = asked_row ∷ [] }

abbrev silent : Tasks.Report
silent = record { events = []; checkpoint = none; state = none; result = none; error = "" }

delivering_forgets_cancel_example :
    Ends "t1" cancelled (Tasks.update 300 "t1" "l1" (reporting completed silent) asked)
    × Ends "t1" completed (
        Tasks.update 400 "t1" "l1"
          (reporting completed silent)
          (Tasks.update 300 "t1" "l1" (reporting delivering silent) asked).1)
unfolding fetch_one
delivering_forgets_cancel_example =
    delivering_forgets_cancel 300 400 "t1" "l1" silent silent asked asked_row refl refl
      (omega arith)
