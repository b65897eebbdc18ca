-- ===== src/AgentTasks/Cancelling.antt =====
-- What becomes of a request to cancel an agent task.
use comfy_ui_account_manager.Base.{
  ℕ, ◌+◌, ◌*◌, ◌≤◌, String, none, some, ◌≡◌, ap, ◌∙◌, arith, str_eq_refl, true, refl, subst,
  if◌then◌else◌, &&-eq-true,
}
use mathlib.Core.Option
use comfy_ui_account_manager.Base.Table.{fetch_one, update as update_rows}
use comfy_ui_account_manager.Base.Table.Laws.{fetch_one-mem, fetch_one-update, fetch_one-some}
use comfy_ui_account_manager.AgentTasks.Rows.{
  State, Task, Db, Result, ok, is_terminal, delivering, completed, cancelled, cancel_requested,
  second,
}
use comfy_ui_account_manager.AgentTasks.Tasks.{
  Report, has_id, holds_lease, is_allowed, target_of, as_reported, update, get,
}

-- The call answers with the state, and the task that the store then has is in this state, without a lease.
abbrev pub Ends : String → State → Result State × Db → Type 0
Ends task_id state done =
    (done.0 ≡ ok state)
    × (row : Task) × (get task_id done.1 ≡ some row)
    × (row.state ≡ state)
    × (row.lease ≡ none)

module _ (now : ℕ) (task_id lease : String) (db : Db) (row : Task)
    (found : fetch_one (holds_lease now task_id lease) db.tasks ≡ some row) where
  -- A report of a state is stored in the row with the id, and the answer is the state that it stores.
  update-stores :
      (r : Report)
      → is_allowed r.state ≡ true
      → let done = update now task_id lease r db in
        (done.0 ≡ ok (target_of row.state r.state))
        × (done.1.tasks
            ≡ update_rows
                (has_id task_id)
                (as_reported now lease (target_of row.state r.state) r)
                db.tasks)
  unfolding update
  update-stores r allowed = (rw (found, update, allowed) refl, rw (found, update, allowed) refl)

  stored : (b : Task) × (fetch_one (has_id task_id) db.tasks ≡ some b)
  stored =
      let (m, held) = fetch_one-mem (holds_lease now task_id lease) db.tasks found in
      fetch_one-some (has_id task_id) db.tasks m (&&-eq-true _ _ held).0

  update-Ends :
      (r : Report)
      → is_allowed r.state ≡ true
      → is_terminal (target_of row.state r.state) ≡ true
      → Ends task_id (target_of row.state r.state) (update now task_id lease r db)
  unfolding get
  update-Ends r allowed terminal =
      let target = target_of row.state r.state in
      let (answered, tasks) = update-stores r allowed in
      let (b, e) = stored in
      (
        answered,
        as_reported now lease target r b,
        rw tasks (
            fetch_one-update (has_id task_id) (has_id task_id) (as_reported now lease target r)
              db.tasks (λ t. ground arith)
            ∙ ap (Option.map (as_reported now lease target r)) e),
        refl,
        rw terminal refl,
      )

-- The report with another state.
abbrev pub reporting : State → Report → Report
reporting s r = record r { state = some s }

module _ (now later : ℕ) (task_id lease : String) (r s : Report) (db : Db) (row : Task)
    (found : fetch_one (holds_lease now task_id lease) db.tasks ≡ some row)
    (asked : row.state ≡ cancel_requested) where
  abbrev reported : Task → Task
  reported = as_reported now lease delivering (reporting delivering r)

  tasks-delivering :
      (update now task_id lease (reporting delivering r) db).1.tasks
      ≡ update_rows (has_id task_id) reported db.tasks
  tasks-delivering =
      (update-stores now task_id lease db row found (reporting delivering r) refl).1
      ∙ ap
          (λ state.
            update_rows (has_id task_id)
              (as_reported now lease (target_of state (some delivering)) (reporting delivering r))
              db.tasks)
          asked

  -- The lease holds for every row with the id, and for no other.
  held-reported :
      later ≤ now + 90 * second
      → (t : Task)
      → holds_lease later task_id lease (if has_id task_id t then reported t else t)
        ≡ has_id task_id t
  held-reported h t = ground (arith, str_eq_refl lease)

  found_again :
      later ≤ now + 90 * second
      → (b : Task) × (fetch_one
            (holds_lease later task_id lease)
            (update now task_id lease (reporting delivering r) db).1.tasks
          ≡ some (reported b))
  found_again h =
      let (b, e) = stored now task_id lease db row found in
      (
        b,
        rw tasks-delivering (
            fetch_one-update (holds_lease later task_id lease) (has_id task_id) reported db.tasks
              (held-reported h)
            ∙ ap (Option.map reported) e),
      )

  -- A worker holds the lease of a task whose owner asked to cancel it. If it reports `completed`, the
  -- answer and the stored task are cancelled; if it first reports `delivering` and within 90 seconds
  -- `completed`, both are completed, and the request to cancel is forgotten. The task then has no lease.
  pub delivering_forgets_cancel :
      later ≤ now + 90 * second
      → Ends task_id cancelled (update now task_id lease (reporting completed s) db)
        × Ends task_id completed (
            update later task_id lease
              (reporting completed s)
              (update now task_id lease (reporting delivering r) db).1)
  delivering_forgets_cancel h =
      let (b, e) = found_again h in
      let given : target_of row.state (some completed) ≡ cancelled = rw asked refl in
      (
        subst (λ state. Ends task_id state (update now task_id lease (reporting completed s) db))
            given
            (update-Ends now task_id lease db row found (reporting completed s) refl
              (ap is_terminal given)),
        update-Ends later task_id lease (update now task_id lease (reporting delivering r) db).1
            (reported b) e (reporting completed s) refl refl,
      )
