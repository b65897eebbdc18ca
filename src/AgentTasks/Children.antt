-- ===== src/AgentTasks/Children.antt =====
-- `events`, `children`, `reserve_child` and `child_response` of utils/agent_tasks.py.
use comfy_ui_account_manager.Base.{
  ℕ, String, Bool, true, false, not, ◌&&◌, List, [], ◌∷◌, ◌++◌, Option, none, some, str_eq, ltb,
  if◌then◌else◌, take,
}
use comfy_ui_account_manager.Base.Table.{select, update, fetch_one}
use comfy_ui_account_manager.Json.{Json}
use comfy_ui_account_manager.AgentTasks.Rows.{
  Task, Event, Child, Db, Result, ok, err, value_error, integrity_error, is_running,
}
use comfy_ui_account_manager.AgentTasks.Tasks.{has_id}

-- WHERE task_id = ? AND seq > ? ORDER BY seq LIMIT 200; the rows stand in the order of `seq`.
unfoldable pub events : String → ℕ → Db → List Event
events task_id after db =
    take 200 (select (λ e. str_eq e.task_id task_id && ltb after e.seq) db.events)

unfoldable pub children : String → Db → List Child
children task_id db = select (λ c. str_eq c.task_id task_id) db.children

abbrev pub is_request : String → String → Child → Bool
is_request task_id key child = str_eq child.task_id task_id && str_eq child.request_key key

-- The state and the lease of the row that is read.
abbrev pub may_submit : ℕ → Option Task → Bool
may_submit now none = false
may_submit now (some row) = is_running row.state && not (ltb row.lease_until now)

abbrev pub new_child : String → String → String → String → Child
new_child task_id key fingerprint prompt_id = record {
  task_id = task_id;
  request_key = key;
  fingerprint = fingerprint;
  prompt_id = prompt_id;
  response = none;
}

-- The INSERT; `prompt_id` is UNIQUE.
unfoldable pub insert_child : Child → Db → Result (Child × Bool) × Db
insert_child child db = elim (fetch_one (λ c. str_eq c.prompt_id child.prompt_id) db.children) [
  | some other ↦ (err integrity_error, db)
  | none ↦ (ok (child, true), record db { children = db.children ++ child ∷ [] })
]

-- The child, and whether it is new. `prompt_id` is the identifier for a new one.
unfoldable pub reserve_child :
    ℕ → String → String → String → String → Db → Result (Child × Bool) × Db
unfolding insert_child
reserve_child now prompt_id task_id key fingerprint db =
    if may_submit now (fetch_one (has_id task_id) db.tasks)
    then (elim (fetch_one (is_request task_id key) db.children) [
      | some old ↦
          if str_eq old.fingerprint fingerprint
          then (ok (old, false), db)
          else (err value_error, db)
      | none ↦ insert_child (new_child task_id key fingerprint prompt_id) db
    ])
    else (err value_error, db)

unfoldable pub child_response : String → Json → Db → Db
child_response prompt_id response db = record db {
  children =
      update (λ c. str_eq c.prompt_id prompt_id) (λ c. record c { response = some response })
        db.children;
}
