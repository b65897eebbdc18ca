-- ===== src/Sessions/Delegated.antt =====
-- `delegated` of the class AgentTaskRoutes of utils/agent_task_routes.py: the requests that the worker of
-- an agent task may make. The handler that it calls is outside: `admit` is the part before the call, and
-- `respond` the part after it.
use package.text.Mathlib.Text.{starts_with, find?}
use comfy_ui_account_manager.AgentTasks.Children.{children, reserve_child, child_response}
use comfy_ui_account_manager.AgentTasks.Rows as Agent
use comfy_ui_account_manager.AgentTasks.Tasks as Tasks
use comfy_ui_account_manager.Base.{
  ℕ, String, Bool, true, false, not, ◌&&◌, ◌||◌, List, Option, none, some, str_eq, ltb,
  if◌then◌else◌, is_some, or_else, map,
}
use comfy_ui_account_manager.Base.Options.{◌>>=◌ as ◌then_try◌}
use comfy_ui_account_manager.History.Store as History
use comfy_ui_account_manager.Json.{
  Json, text, obj, Members, end, member, Python, get, to_str, text_field,
}
use comfy_ui_account_manager.Json.Writing.{as_dict}
use comfy_ui_account_manager.Recovery.Providers.{is_any_of}
use comfy_ui_account_manager.Scheduler.Cancel.{cancel}
use comfy_ui_account_manager.Scheduler.Queries.{get_job}
use comfy_ui_account_manager.Scheduler.Rows as Scheduler
use comfy_ui_account_manager.Sessions.Assets.{Wanted, may_view}
use comfy_ui_account_manager.Sessions.{
  Answer, ok, http, raised, ◌>>=◌, require, or_raise, Request, is_get, is_post_to,
}

-- The claims of a token of an agent task.
pub record Claims : Type 0 where
  pub id : String
  pub am_agent : String
  pub am_lease : Option String

-- The code outside: path.split('/')[-1], and the SHA-256 of a workflow as JSON.
pub record Library : Type 0 where
  pub py : Python
  pub last_segment : String → String
  pub fingerprint : Members → String

-- task['lease'] == claims.get('am_lease')
abbrev pub same_lease : Option String → Option String → Bool
same_lease none none = true
same_lease (some a) (some b) = str_eq a b
same_lease _ _ = false

-- The negation of the first test, for a task.
abbrev pub is_current : ℕ → Claims → Agent.Task → Bool
is_current now claims task =
    str_eq task.owner claims.id
    && (same_lease task.lease claims.am_lease
        && (not (ltb task.lease_until now)
            && (Agent.is_running task.state || Agent.is_delivering task.state)))

abbrev pub check_task : ℕ → Claims → Option Agent.Task → Answer Agent.Task
check_task now claims none = http 401
check_task now claims (some task) = if is_current now claims task then ok task else http 401

unfoldable pub current_task : ℕ → Claims → Agent.Db → Answer Agent.Task
unfolding Tasks.get
current_task now claims db = check_task now claims (Tasks.get claims.am_agent db)

-- {c['prompt_id'] for c in self.store.children(task['id'])}
unfoldable pub child_prompts : String → Agent.Db → List String
unfolding children
child_prompts task_id db = map (λ c. c.prompt_id) (children task_id db)

-- str(node.get('class_type', ''))
unfoldable pub class_type : Python → Members → String
unfolding get
class_type py node = elim (get node "class_type") [ none ↦ "" | some v ↦ to_str py v ]

-- t in s
abbrev contains : String → String → Bool
contains t s = is_some (find? s t)

-- Whether any node of the workflow is an agent; `none` where a node is no dict.
unfoldable pub has_agent : Python → Members → Option Bool
unfolding class_type
has_agent py end = some false
has_agent py (member id node nodes) = as_dict node then_try λ ms.
    let kind = class_type py ms in
    let rest = has_agent py nodes in
    if contains "Agent" kind && contains "ComfyUI-LLM" kind then some true else rest

-- What `admit` decides: to call the handler with the request as it is; to call it with a new prompt id;
-- or to answer with a saved response, or with the id of a prompt that is known to the scheduler.
pub data Decision : Type 0 where
  forward : Decision
  submit : String → Decision
  reply : Json → Decision
  known : String → Decision

-- The answers where the child is not new. The text of a saved response is never empty.
unfoldable pub repeated : Agent.Child → Scheduler.Db → Answer Decision
unfolding get_job
repeated child scheduler =
    if is_some child.response
    then ok (reply (or_else child.response (obj end)))
    else if is_some (get_job child.prompt_id scheduler)
    then ok (known child.prompt_id)
    else http 409

abbrev pub decide : Agent.Result (Agent.Child × Bool) → Scheduler.Db → Answer Decision
decide (Agent.err Agent.value_error) scheduler = http 409
decide (Agent.err other) scheduler = raised
decide (Agent.ok (child, true)) scheduler = ok (submit child.prompt_id)
decide (Agent.ok (child, false)) scheduler = repeated child scheduler

-- From the key and the workflow on; `new_id` is the identifier of a new child.
unfoldable pub reserve :
    Library
    → ℕ
    → String
    → String
    → String
    → Members
    → Scheduler.Db
    → Agent.Db
    → Answer Decision × Agent.Db
unfolding reserve_child repeated
reserve lib now new_id task_id key workflow scheduler db =
    let reserved = reserve_child now new_id task_id key (lib.fingerprint workflow) db in
    (decide reserved.0 scheduler, reserved.1)

-- payload.get('prompt', {}), which must be a dict
unfoldable pub workflow_of : Members → Option Members
unfolding get
workflow_of payload = as_dict (or_else (get payload "prompt") (obj end))

-- The tests of a workflow that is submitted: its key and itself.
unfoldable pub read_workflow : Library → Request → Answer (String × Members)
unfolding workflow_of has_agent text_field
read_workflow lib r = do
  body ← or_raise r.payload
  payload ← or_raise (as_dict body)
  workflow ← or_raise (workflow_of payload)
  nested ← or_raise (has_agent lib.py workflow)
  allowed ← require (not nested) 400
  let key = text_field lib.py payload "client_id"
  keyed ← require (not (str_eq key "")) 400
  ok (key, workflow)

-- The branches of a POST to /prompt.
unfoldable pub admit_prompt :
    Library
    → ℕ
    → String
    → String
    → Scheduler.Db
    → Agent.Db
    → Answer (String × Members)
    → Answer Decision × Agent.Db
unfolding reserve
admit_prompt lib now new_id task_id scheduler db (http code) = (http code, db)
admit_prompt lib now new_id task_id scheduler db raised = (raised, db)
admit_prompt lib now new_id task_id scheduler db (ok (key, workflow)) =
    reserve lib now new_id task_id key workflow scheduler db

-- The answers that need no child: none where the request submits a workflow.
unfoldable pub admit_other :
    Library → Request → Wanted → Agent.Task → List History.Row → Agent.Db → Option (Answer Decision)
unfolding child_prompts may_view
admit_other lib r wanted task history db =
    if is_get r && starts_with r.path "/history/"
    then some (
        require (is_any_of (lib.last_segment r.path) (child_prompts task.id db)) 403 >>= λ _.
        ok forward)
    else if is_get r && str_eq r.path "/view"
    then some (
        or_raise (may_view wanted task.owner (child_prompts task.id db) history) >>= λ allowed.
        require allowed 403 >>= λ _. ok forward)
    else if is_get r && str_eq r.path "/object_info" || is_post_to "/upload/image" r
    then some (ok forward)
    else if is_post_to "/prompt" r
    then none
    else some (http 403)

unfoldable pub admit_task :
    Library
    → ℕ
    → String
    → Request
    → Wanted
    → Scheduler.Db
    → List History.Row
    → Agent.Db
    → Answer Agent.Task
    → Answer Decision × Agent.Db
unfolding admit_other read_workflow admit_prompt
admit_task lib now new_id r wanted scheduler history db (http code) = (http code, db)
admit_task lib now new_id r wanted scheduler history db raised = (raised, db)
admit_task lib now new_id r wanted scheduler history db (ok task) =
    elim (admit_other lib r wanted task history db) [
      | some answer ↦ (answer, db)
      | none ↦ admit_prompt lib now new_id task.id scheduler db (read_workflow lib r)
    ]

-- The part before the handler. A missing history is an empty one.
unfoldable pub admit :
    Library
    → ℕ
    → String
    → Request
    → Wanted
    → Claims
    → Scheduler.Db
    → List History.Row
    → Agent.Db
    → Answer Decision × Agent.Db
unfolding current_task admit_task
admit lib now new_id r wanted claims scheduler history db =
    admit_task lib now new_id r wanted scheduler history db (current_task now claims db)

-- What is saved of the handler's response.
abbrev pub saved_response : Json → Json → Json
saved_response status body = obj (member "status" status (member "body" body end))

-- The part after the handler that was called with a new prompt id: the response is saved, and the prompt
-- is cancelled if the task runs no more. `none` where the task is gone or the cancellation raises.
unfoldable pub respond :
    ℕ
    → String
    → Agent.Task
    → Json
    → Json
    → Scheduler.Db
    → Agent.Db
    → Option (Scheduler.Db × Agent.Db)
unfolding child_response Tasks.get cancel
respond now prompt_id task status body scheduler db =
    let saved = child_response prompt_id (saved_response status body) db in
    elim (Tasks.get task.id saved) [
      | none ↦ none
      | some current ↦
          if Agent.is_running current.state
          then some (scheduler, saved)
          else some ((cancel now prompt_id task.owner false scheduler).1, saved)
    ]
