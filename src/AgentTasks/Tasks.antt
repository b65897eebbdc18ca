-- ===== src/AgentTasks/Tasks.antt =====
-- `create`, `get`, `list`, `expire`, `claim`, `update`, `cancel` and `recover` of
-- utils/agent_tasks.py. Each is one transaction; where the source raises inside it, the database
-- is unchanged.
use comfy_ui_account_manager.Base.{
  ℕ, ◌+◌, ◌*◌, String, Bool, true, false, not, ◌&&◌, ◌||◌, List, [], ◌∷◌, ◌++◌, Option, none, some,
  str_eq, ltb, leb, if◌then◌else◌, is_some, or_else, holds, head?, take,
}
use comfy_ui_account_manager.Base.Table.{select, count, update as update_rows, fetch_one, order_by}
use comfy_ui_account_manager.Json.{Json}
use comfy_ui_account_manager.AgentTasks.Rows.{
  State, queued, running, delivering, cancel_requested, completed, cancelled, recovery_required,
  is_terminal, is_active, is_queued, is_delivering, is_recovery, Task, Event, Child, Db, Settings,
  Result, ok, err, value_error, integrity_error, second, clip,
}

abbrev pub with_tasks : Db → List Task → Db
with_tasks db tasks = record db { tasks = tasks }

-- WHERE id = ?
abbrev pub has_id : String → Task → Bool
has_id task_id task = str_eq task.id task_id

-- WHERE owner = ? AND state NOT IN TERMINAL
abbrev pub is_pending : String → Task → Bool
is_pending owner task = str_eq task.owner owner && not (is_terminal task.state)

-- WHERE owner = ? AND submission_key = ?
abbrev pub is_submission : String → String → Task → Bool
is_submission owner key task = str_eq task.owner owner && str_eq task.submission_key key

abbrev pub new_task : ℕ → String → String → String → Json → Task
new_task now task_id owner submission_key job = record {
  id = task_id;
  owner = owner;
  submission_key = submission_key;
  job = job;
  recovery_only = false;
  state = queued;
  created = now;
  updated = now;
  lease = none;
  lease_until = 0;
  checkpoint = none;
  result = none;
  error = "";
}

-- The INSERT, which the PRIMARY KEY refuses for a repeated id.
unfoldable pub insert_task : Task → Db → Result Task × Db
insert_task task db = elim (fetch_one (has_id task.id) db.tasks) [
  | some old ↦ (err integrity_error, db)
  | none ↦ (ok task, with_tasks db (db.tasks ++ task ∷ []))
]

unfoldable pub create : Settings → ℕ → String → String → String → Json → Db → Result Task × Db
unfolding insert_task
create settings now task_id owner submission_key job db =
    elim (fetch_one (is_submission owner submission_key) db.tasks) [
      | some old ↦ (ok old, db)
      | none ↦
          if leb settings.pending_per_user (count (is_pending owner) db.tasks)
          then (err value_error, db)
          else insert_task (new_task now task_id owner submission_key job) db
    ]

unfoldable pub get : String → Db → Option Task
get task_id db = fetch_one (has_id task_id) db.tasks

-- ORDER BY created DESC LIMIT 100
unfoldable pub list : String → Db → List Task
list owner db =
    take 100
      (order_by (λ a b. ltb b.created a.created) (select (λ t. str_eq t.owner owner) db.tasks))

-- WHERE state IN ACTIVE AND lease_until < ?
abbrev pub is_expired : ℕ → Task → Bool
is_expired now task = is_active task.state && ltb task.lease_until now

-- `message` is the fixed text that the source writes.
abbrev pub as_expired : ℕ → String → Task → Task
as_expired now message task = record task {
  state = (if is_delivering task.state then queued else recovery_required);
  lease = none;
  updated = now;
  error = message;
}

abbrev pub expired_message : String
expired_message = "执行服务失联；已保留产物和子任务，未自动重新生成。"

unfoldable pub expire : ℕ → Db → Db
expire now db =
    with_tasks db (update_rows (is_expired now) (as_expired now expired_message) db.tasks)

-- WHERE lease IS NOT NULL
abbrev pub is_leased : Task → Bool
is_leased task = is_some task.lease

-- WHERE owner = t.owner AND lease IS NOT NULL
abbrev pub is_leased_of : String → Task → Bool
is_leased_of owner task = str_eq task.owner owner && is_leased task

unfoldable pub may_start : Settings → List Task → Task → Bool
may_start settings tasks t =
    is_queued t.state && ltb (count (is_leased_of t.owner) tasks) settings.per_user

-- The row of the query: ORDER BY created LIMIT 1.
unfoldable pub next_task : Settings → List Task → Option Task
unfolding may_start
next_task settings tasks =
    head? (order_by (λ a b. ltb a.created b.created) (select (may_start settings tasks) tasks))

abbrev pub as_claimed : ℕ → String → Option Json → Task → Task
as_claimed now lease checkpoint task = record task {
  state = (if is_some checkpoint then delivering else running);
  lease = some lease;
  lease_until = now + 90 * second;
  updated = now;
  error = "";
}

unfoldable pub start_task : Settings → ℕ → String → Db → Option Task × Db
unfolding next_task
start_task settings now lease db = elim (next_task settings db.tasks) [
  | none ↦ (none, db)
  | some row ↦
      let tasks = update_rows (has_id row.id) (as_claimed now lease row.checkpoint) db.tasks in
      (fetch_one (has_id row.id) tasks, with_tasks db tasks)
]

-- What `expire` did is kept where there is no task to claim.
unfoldable pub claim : Settings → ℕ → String → Db → Option Task × Db
unfolding expire start_task
claim settings now lease db =
    let db' = expire now db in
    if leb settings.concurrency (count is_leased db'.tasks)
    then (none, db')
    else start_task settings now lease db'

-- The arguments of `update` after the lease.
pub record Report : Type 0 where
  pub events : List Json
  pub checkpoint : Option Json
  pub state : Option State
  pub result : Option Json
  pub error : String

-- WHERE id = ? AND lease = ? AND lease_until >= ?
abbrev pub holds_lease : ℕ → String → String → Task → Bool
holds_lease now task_id lease task =
    has_id task_id task && (holds task.lease lease && leb now task.lease_until)

-- state is None, or in TERMINAL | {'delivering'}
abbrev pub is_allowed : Option State → Bool
is_allowed none = true
is_allowed (some s) = is_terminal s || is_delivering s

abbrev pub is_cancel_requested : State → Bool
is_cancel_requested cancel_requested = true
is_cancel_requested _ = false

abbrev pub is_completed : State → Bool
is_completed completed = true
is_completed _ = false

abbrev pub target_of : State → Option State → State
target_of current wanted =
    let target = or_else wanted current in
    if is_cancel_requested current && is_completed target then cancelled else target

abbrev add_events : String → List Json → ℕ → List Event
add_events task_id [] seq = []
add_events task_id (e ∷ es) seq =
    record { seq = seq; task_id = task_id; event = e } ∷ add_events task_id es (seq + 1)

abbrev count_of : List Json → ℕ
count_of [] = 0
count_of (e ∷ es) = count_of es + 1

abbrev coalesce : Option Json → Option Json → Option Json
coalesce none b = b
coalesce (some a) b = some a

abbrev pub as_reported : ℕ → String → State → Report → Task → Task
as_reported now lease target r task = record task {
  state = target;
  updated = now;
  lease_until = now + 90 * second;
  lease = (if is_terminal target then none else some lease);
  checkpoint = coalesce r.checkpoint task.checkpoint;
  result = coalesce r.result task.result;
  error = clip 1000 r.error;
}

unfoldable pub update : ℕ → String → String → Report → Db → Result State × Db
update now task_id lease r db = elim (fetch_one (holds_lease now task_id lease) db.tasks) [
  | none ↦ (err value_error, db)
  | some row ↦
      let target = target_of row.state r.state in
      if is_allowed r.state
      then (
        ok target,
        record db {
          tasks = update_rows (has_id task_id) (as_reported now lease target r) db.tasks;
          events = db.events ++ add_events task_id r.events db.next_seq;
          next_seq = db.next_seq + count_of r.events;
        },
      )
      else (err value_error, db)
]

-- WHERE id = ? AND owner = ? AND state IN ('queued', 'running', 'delivering')
abbrev pub may_cancel : String → String → Task → Bool
may_cancel task_id owner task =
    has_id task_id task
    && (str_eq task.owner owner
        && (is_queued task.state || (is_active task.state && not (is_cancel_requested task.state))))

abbrev pub as_cancelled : ℕ → Task → Task
as_cancelled now task = record task {
  state = (if is_queued task.state then cancelled else cancel_requested);
  updated = now;
}

unfoldable pub cancel : ℕ → String → String → Db → Db
cancel now task_id owner db =
    with_tasks db (update_rows (may_cancel task_id owner) (as_cancelled now) db.tasks)

abbrev pub as_recovered : ℕ → Bool → Task → Task
as_recovered now recovery_only task = record task {
  state = queued;
  lease = none;
  error = "";
  recovery_only = recovery_only;
  updated = now;
}

-- The job of a task without a checkpoint must have a child, and may only be recovered.
abbrev pub may_recover : List Child → String → Task → Bool
may_recover children task_id row =
    is_some row.checkpoint || is_some (fetch_one (λ c. str_eq c.task_id task_id) children)

-- WHERE id = ? AND owner = ?
abbrev pub is_owned : String → String → Task → Bool
is_owned task_id owner task = has_id task_id task && str_eq task.owner owner

unfoldable pub recover_row : ℕ → String → Task → Db → Result (Unit {0}) × Db
recover_row now task_id row db =
    if is_recovery row.state && may_recover db.children task_id row
    then (
      ok tt,
      with_tasks db (
          update_rows (has_id task_id)
            (as_recovered now (if is_some row.checkpoint then row.recovery_only else true))
            db.tasks),
    )
    else (err value_error, db)

-- Where it raises, what `expire` did is rolled back. `later` is the time of the second reading of
-- the clock.
unfoldable pub recover : ℕ → ℕ → String → String → Db → Result (Unit {0}) × Db
unfolding expire recover_row
recover now later task_id owner db =
    let db' = expire now db in
    elim (fetch_one (is_owned task_id owner) db'.tasks) [
      | none ↦ (err value_error, db)
      | some row ↦
          let (answer, after) = recover_row later task_id row db' in
          (answer, elim answer [ ok u ↦ after | err e ↦ db ])
    ]
