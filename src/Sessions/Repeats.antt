-- ===== src/Sessions/Repeats.antt =====
-- `delegated` as a whole: a repeated submission.
use comfy_ui_account_manager.AgentTasks.Children.{is_request, child_response}
use comfy_ui_account_manager.AgentTasks.Rows as Agent
use comfy_ui_account_manager.AgentTasks.Tasks as Tasks
use comfy_ui_account_manager.Base.{
  ℕ, String, false, List, some, ◌≡◌, refl, sym, ap, ◌∙◌, arith, str_eq, str_eq_iff,
}
use comfy_ui_account_manager.Base.Table.{count}
use comfy_ui_account_manager.Base.Table.Laws.{count-update, fetch_one-mem}
use comfy_ui_account_manager.History.Store as History
use comfy_ui_account_manager.Json.{Json}
use comfy_ui_account_manager.Scheduler.Rows as Scheduler
use comfy_ui_account_manager.Sessions.{ok, Request}
use comfy_ui_account_manager.Sessions.Assets.{Wanted}
use comfy_ui_account_manager.Sessions.Children.{current_task-IsOwned, HasChild}
use comfy_ui_account_manager.Sessions.Delegated.{Library, Claims, current_task, submit, admit}
use comfy_ui_account_manager.Sessions.Once.{
  is_submit, admit_task-keeps, admit_task-HasChild, admit_task-once,
}

-- The agent store after any calls: of `admit`, for any requests; of `child_response`; and of whatever
-- else leaves the children as they are.
pub data Later (db : Agent.Db) : Agent.Db → Type 0 where
  same : Later db db
  admitted :
      (lib : Library) (now : ℕ) (new_id : String) (r : Request) (wanted : Wanted) (claims : Claims)
      (scheduler : Scheduler.Db) (history : List History.Row) (mid : Agent.Db)
      → Later db mid
      → Later db (admit lib now new_id r wanted claims scheduler history mid).1
  responded :
      (prompt_id : String) (response : Json) (mid : Agent.Db)
      → Later db mid
      → Later db (child_response prompt_id response mid)
  changed : (mid next : Agent.Db) → next.children ≡ mid.children → Later db mid → Later db next

Later-HasChild :
    (task_id key : String) (db later : Agent.Db)
    → Later db later
    → HasChild task_id key db
    → HasChild task_id key later
unfolding admit child_response
Later-HasChild task_id key db later same has = has
Later-HasChild task_id key db later
      (admitted lib now new_id r wanted claims scheduler history mid before) has =
    omega (
      arith,
      Later-HasChild task_id key db mid before has,
      admit_task-keeps lib now new_id scheduler mid r wanted history (current_task now claims mid)
          (is_request task_id key),
    )
Later-HasChild task_id key db later (responded prompt_id response mid before) has = omega (
  arith,
  Later-HasChild task_id key db mid before has,
  count-update (is_request task_id key) (λ c. str_eq c.prompt_id prompt_id)
      (λ c. record c { response = some response }) mid.children (λ c _. refl),
)
Later-HasChild task_id key db later (changed mid next e before) has =
    omega
      (arith, Later-HasChild task_id key db mid before has, ap (count (is_request task_id key)) e)

claimed_id :
    (now : ℕ) (claims : Claims) (db : Agent.Db) (task : Agent.Task)
    → current_task now claims db ≡ ok task
    → task.id ≡ claims.am_agent
unfolding Tasks.get
claimed_id now claims db task e =
    let owned = current_task-IsOwned now claims db e in
    (str_eq_iff task.id claims.am_agent).0 (fetch_one-mem _ db.tasks owned.found).1

-- If `admit` submits a child for a request, then it never submits one again for this request by the same
-- task, whatever happens to the store in between and whenever and with whatever it is asked.
pub admit_once :
    (lib : Library) (now now' : ℕ) (new_id new_id' prompt_id : String) (r : Request)
    (wanted wanted' : Wanted) (claims claims' : Claims) (scheduler scheduler' : Scheduler.Db)
    (history history' : List History.Row) (db later : Agent.Db)
    → (admit lib now new_id r wanted claims scheduler history db).0 ≡ ok (submit prompt_id)
    → Later (admit lib now new_id r wanted claims scheduler history db).1 later
    → claims'.am_agent ≡ claims.am_agent
    → is_submit (admit lib now' new_id' r wanted' claims' scheduler' history' later).0 ≡ false
unfolding admit
admit_once lib now now' new_id new_id' prompt_id r wanted wanted' claims claims' scheduler
      scheduler' history history' db later e after agent =
    let (task, kw, found, read, has) =
      admit_task-HasChild lib now new_id scheduler db r wanted history (current_task now claims db)
        (ap is_submit e) in
    admit_task-once lib now' new_id' scheduler' later r wanted' history'
      (current_task now' claims' later) task.id kw
      (λ task' found'.
        claimed_id now' claims' later task' found'
        ∙ agent
        ∙ sym (claimed_id now claims db task found))
      read (Later-HasChild task.id kw.0 _ later after has)
