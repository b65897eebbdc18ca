-- ===== src/AgentTasks/Steps.antt =====
-- The calls of utils/agent_tasks.py by any number of processes, and what they keep.
use comfy_ui_account_manager.Base.{
  ℕ, String, false, ◌&&◌, [], ◌≡◌, inl, inr, arith, leb, if_ind, Bool-cases, Option-cases,
}
use comfy_ui_account_manager.Base.Table.{count, fetch_one}
use comfy_ui_account_manager.Json.{Json}
use comfy_ui_account_manager.AgentTasks.Rows.{
  Task, Db, Settings, Result, ok, err, empty_db, is_recovery,
}
use comfy_ui_account_manager.AgentTasks.Tasks
use comfy_ui_account_manager.AgentTasks.Children.{reserve_child, child_response}
use comfy_ui_account_manager.AgentTasks.Leases.{
  IsLeasedRight, expire-IsLeasedRight, cancel-IsLeasedRight, recover-IsLeasedRight,
  report-IsLeasedRight, start-IsLeasedRight, new-IsLeasedRight,
}

-- One call that writes.
pub data Step (settings : Settings) (db : Db) : Db → Type 0 where
  creates :
      (now : ℕ) (task_id owner submission_key : String) (job : Json)
      → Step settings db (Tasks.create settings now task_id owner submission_key job db).1
  claims : (now : ℕ) (lease : String) → Step settings db (Tasks.claim settings now lease db).1
  updates :
      (now : ℕ) (task_id lease : String) (r : Tasks.Report)
      → Step settings db (Tasks.update now task_id lease r db).1
  cancels :
      (now : ℕ) (task_id owner : String) → Step settings db (Tasks.cancel now task_id owner db)
  recovers :
      (now later : ℕ) (task_id owner : String)
      → Step settings db (Tasks.recover now later task_id owner db).1
  reserves :
      (now : ℕ) (prompt_id task_id key fingerprint : String)
      → Step settings db (reserve_child now prompt_id task_id key fingerprint db).1
  responds :
      (prompt_id : String) (response : Json)
      → Step settings db (child_response prompt_id response db)

pub data Reach (settings : Settings) (start : Db) : Db → Type 0 where
  here : Reach settings start start
  next :
      {mid after : Db}
      → Reach settings start mid
      → Step settings mid after
      → Reach settings start after

module _ {settings : Settings} (db : Db) (w : IsLeasedRight settings db.tasks) where
  insert_task-IsLeasedRight :
      (now : ℕ) (id owner key : String) (job : Json)
      → IsLeasedRight settings (Tasks.insert_task (Tasks.new_task now id owner key job) db).1.tasks
  unfolding Tasks.insert_task
  insert_task-IsLeasedRight now id owner key job =
      elim (Option-cases (fetch_one (Tasks.has_id id) db.tasks)) [
        | inl fresh ↦ rw (fresh, Tasks.insert_task) (new-IsLeasedRight w now id owner key job fresh)
        | inr (old, taken) ↦ rw (taken, Tasks.insert_task) w
      ]

  create-IsLeasedRight :
      (now : ℕ) (id owner key : String) (job : Json)
      → IsLeasedRight settings (Tasks.create settings now id owner key job db).1.tasks
  unfolding Tasks.create
  create-IsLeasedRight now id owner key job =
      elim (Option-cases (fetch_one (Tasks.is_submission owner key) db.tasks)) [
        | inl e ↦
            rw (e, Tasks.create)
              (if_ind (λ (out : Result Task × Db). IsLeasedRight settings out.1.tasks)
                (leb settings.pending_per_user (count (Tasks.is_pending owner) db.tasks)) (λ _. w)
                (λ _. insert_task-IsLeasedRight now id owner key job))
        | inr (old, e) ↦ rw (e, Tasks.create) w
      ]

  expired-IsLeasedRight : (now : ℕ) → IsLeasedRight settings (Tasks.expire now db).tasks
  unfolding Tasks.expire
  expired-IsLeasedRight now = expire-IsLeasedRight w now

  start_task-IsLeasedRight :
      (now : ℕ) (lease : String)
      → leb settings.concurrency (count Tasks.is_leased db.tasks) ≡ false
      → IsLeasedRight settings (Tasks.start_task settings now lease db).1.tasks
  unfolding Tasks.start_task
  start_task-IsLeasedRight now lease room =
      elim (Option-cases (Tasks.next_task settings db.tasks)) [
        | inl e ↦ rw (e, Tasks.start_task) w
        | inr (row, e) ↦ rw (e, Tasks.start_task) (start-IsLeasedRight w now lease row room e)
      ]

  update-IsLeasedRight :
      (now : ℕ) (task_id lease : String) (r : Tasks.Report)
      → IsLeasedRight settings (Tasks.update now task_id lease r db).1.tasks
  unfolding Tasks.update
  update-IsLeasedRight now task_id lease r =
      elim (Option-cases (fetch_one (Tasks.holds_lease now task_id lease) db.tasks)) [
        | inl e ↦ rw (e, Tasks.update) w
        | inr (row, e) ↦
            rw (e, Tasks.update)
              (elim (Bool-cases (Tasks.is_allowed r.state)) [
                | inl t ↦ rw t (report-IsLeasedRight w now task_id lease r row e t)
                | inr f ↦ rw f w
              ])
      ]

  recover_row-IsLeasedRight :
      (now : ℕ) (task_id : String) (row : Task)
      → IsLeasedRight settings (Tasks.recover_row now task_id row db).1.tasks
  unfolding Tasks.recover_row
  recover_row-IsLeasedRight now task_id row =
      if_ind (λ (out : Result (Unit {0}) × Db). IsLeasedRight settings out.1.tasks)
        (is_recovery row.state && Tasks.may_recover db.children task_id row)
        (λ _. recover-IsLeasedRight w now task_id _) (λ _. w)

module _ {settings : Settings} (db : Db) (w : IsLeasedRight settings db.tasks) where
  claim-IsLeasedRight :
      (now : ℕ) (lease : String)
      → IsLeasedRight settings (Tasks.claim settings now lease db).1.tasks
  unfolding Tasks.claim
  claim-IsLeasedRight now lease =
      let db' : Db = Tasks.expire now db in
      let w' = expired-IsLeasedRight db w now in
      elim (Bool-cases (leb settings.concurrency (count Tasks.is_leased db'.tasks))) [
        | inl full ↦ rw full w'
        | inr room ↦ rw room (start_task-IsLeasedRight db' w' now lease room)
      ]

  recover_row-kept :
      (later : ℕ) (task_id : String) (row : Task) (db' : Db)
      → IsLeasedRight settings db'.tasks
      → let out = Tasks.recover_row later task_id row db' in
        IsLeasedRight settings (elim out.0 as (λ _. Db) [ ok u ↦ out.1 | err e ↦ db ]).tasks
  recover_row-kept later task_id row db' w' =
      either (Tasks.recover_row later task_id row db').0 _
        (recover_row-IsLeasedRight db' w' later task_id row)
    where
      either :
          (r : Result (Unit {0})) (after : Db)
          → IsLeasedRight settings after.tasks
          → IsLeasedRight settings (elim r as (λ _. Db) [ ok u ↦ after | err e ↦ db ]).tasks
      either (ok u) after h = h
      either (err e) after h = w

  recover-IsLeasedRight_lem :
      (now later : ℕ) (task_id owner : String)
      → IsLeasedRight settings (Tasks.recover now later task_id owner db).1.tasks
  unfolding Tasks.recover
  recover-IsLeasedRight_lem now later task_id owner =
      let db' : Db = Tasks.expire now db in
      elim (Option-cases (fetch_one (Tasks.is_owned task_id owner) db'.tasks)) [
        | inl e ↦ rw (e, Tasks.recover) w
        | inr (row, e) ↦
            rw (e, Tasks.recover)
              (recover_row-kept later task_id row db' (expired-IsLeasedRight db w now))
      ]

  reserve_child-tasks :
      (now : ℕ) (prompt_id task_id key fingerprint : String)
      → (reserve_child now prompt_id task_id key fingerprint db).1.tasks ≡ db.tasks
  unfolding reserve_child
  reserve_child-tasks now prompt_id task_id key fingerprint = ground arith

pub Step-IsLeasedRight :
    {settings : Settings} {db db' : Db}
    → Step settings db db'
    → IsLeasedRight settings db.tasks
    → IsLeasedRight settings db'.tasks
unfolding Tasks.cancel child_response
Step-IsLeasedRight {db = db} (creates now id owner key job) w =
    create-IsLeasedRight db w now id owner key job
Step-IsLeasedRight {db = db} (claims now lease) w = claim-IsLeasedRight db w now lease
Step-IsLeasedRight {db = db} (updates now id lease r) w = update-IsLeasedRight db w now id lease r
Step-IsLeasedRight {db = db} (cancels now id owner) w = cancel-IsLeasedRight w now id owner
Step-IsLeasedRight {db = db} (recovers now later id owner) w =
    recover-IsLeasedRight_lem db w now later id owner
Step-IsLeasedRight {db = db} (reserves now prompt_id id key fingerprint) w =
    rw (reserve_child-tasks db w now prompt_id id key fingerprint) w
Step-IsLeasedRight {db = db} (responds prompt_id response) w = w

empty-IsLeasedRight : (settings : Settings) → IsLeasedRight settings []
unfolding count
empty-IsLeasedRight settings = record {
  unique = λ id. omega arith;
  active = λ t m. elim m [ ];
  total = omega arith;
  each = λ owner. omega arith;
}

-- Whatever calls are made on an empty store, task ids are unique, a task has a lease exactly while it
-- is active, at most `concurrency` tasks have one, and of one owner at most `per_user`.
pub Reach-IsLeasedRight :
    {settings : Settings} {db : Db} → Reach settings empty_db db → IsLeasedRight settings db.tasks
Reach-IsLeasedRight {settings} here = empty-IsLeasedRight settings
Reach-IsLeasedRight (next r s) = Step-IsLeasedRight s (Reach-IsLeasedRight r)
