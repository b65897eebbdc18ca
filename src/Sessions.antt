-- ===== src/Sessions.antt =====
-- The class TaskSessions of utils/task_sessions.py, and with it the shared form of a request and of what
-- a handler comes to. The scheduler is that of the module Scheduler, the users are those of Users.
pub mod Allowed
pub mod Rooms
pub mod Authorized
pub mod Assets
pub mod Delegated
pub mod Children
pub mod Once
pub mod Repeats
pub mod Gate
pub mod Outputs
pub mod Admitted
mod Tests
use package.text.Mathlib.Text.{starts_with}
use comfy_ui_account_manager.Base.{
  ℕ, String, Bool, true, false, not, ◌&&◌, ◌||◌, List, [], ◌∷◌, Option, none, some, str_eq, ltb,
  leb, ◌==◌, if◌then◌else◌, or_else, get_elem?, length,
}
use comfy_ui_account_manager.Base.Dict.{lookup}
use comfy_ui_account_manager.Base.Int.{pos}
use comfy_ui_account_manager.Base.Table.{count, select}
use comfy_ui_account_manager.Json.{Json, num, text, obj, Members, end, Python, get, truthy}
use comfy_ui_account_manager.Json.Writing.{is_text, as_dict}
use comfy_ui_account_manager.Scheduler.Rows.{Job, Settings, is_running}
use comfy_ui_account_manager.Scheduler.Rows as Scheduler
use comfy_ui_account_manager.Scheduler.Queries.{
  get_job, running_jobs, worker_ports, idle_worker_ports,
}
use comfy_ui_account_manager.Scheduler.Settings.{classify_item}

-- What a handler comes to: a value, one of aiohttp's HTTP exceptions, or another exception.
pub data Answer (A : Type 0) : Type 0 where
  ok : A → Answer A
  http : ℕ → Answer A
  raised : Answer A

infixl 5 ◌>>=◌
abbrev pub ◌>>=◌ : {A : Type 0} {B : Type 0} → Answer A → (A → Answer B) → Answer B
ok a >>= next = next a
http code >>= next = http code
raised >>= next = raised

-- if not condition: raise web.HTTP...
abbrev pub require : Bool → ℕ → Answer Unit
require true code = ok tt
require false code = http code

abbrev pub or_raise : {A : Type 0} → Option A → Answer A
or_raise none = raised
or_raise (some a) = ok a

-- A request: the method, the path without the prefix /api, and the body (none where it is no JSON).
pub record Request : Type 0 where
  pub method : String
  pub path : String
  pub payload : Option Json

-- The claims of a token of a task session.
pub record Claims : Type 0 where
  pub id : String
  pub am_task : String

-- What the object reaches: the port of its server, the scheduler with its settings, the items that the
-- server's own queue runs, and the users by id.
pub record Server : Type 0 where
  pub py : Python
  pub port : ℕ
  pub scheduler : Option (Settings × Scheduler.Db)
  pub currently_running : List (List Json)
  pub user : String → Members

abbrev pub second_is : String → List Json → Bool
second_is prompt_id item = elim (get_elem? item 1) [ none ↦ false | some v ↦ is_text v prompt_id ]

abbrev pub owner_at_six : List Json → Option String
owner_at_six item = elim (get_elem? item 6) [ some (text t) ↦ some t | _ ↦ none ]

-- The owner in the first item of the prompt that has one; an owner is a text or None.
unfoldable pub local_owner : String → List (List Json) → Option String
local_owner prompt_id [] = none
local_owner prompt_id (item ∷ items) =
    let later = local_owner prompt_id items in
    if leb 7 (length item) && second_is prompt_id item then owner_at_six item else later

-- job["owner_id"] if job and job["status"] == "running" else None
abbrev pub owner_of_running : Option Job → Option String
owner_of_running none = none
owner_of_running (some job) = if is_running job.status then some job.owner_id else none

unfoldable pub current_owner : Server → String → Option String
unfolding get_job local_owner
current_owner server prompt_id = elim server.scheduler [
  | none ↦ local_owner prompt_id server.currently_running
  | some (settings, db) ↦ owner_of_running (get_job prompt_id db)
]

-- not (not owner or owner != claims["id"])
abbrev pub is_claimed : Option String → Claims → Bool
is_claimed none claims = false
is_claimed (some owner) claims = not (str_eq owner "") && str_eq owner claims.id

abbrev pub is_get : Request → Bool
is_get r = str_eq r.method "GET"

abbrev pub is_post_to : String → Request → Bool
is_post_to path r = str_eq r.method "POST" && str_eq r.path path

-- allowed
abbrev pub is_allowed : Request → Bool
is_allowed r =
    is_get r
      && (str_eq r.path "/object_info"
          || (str_eq r.path "/view" || (str_eq r.path "/queue" || starts_with r.path "/history/")))
    || (is_post_to "/upload/image" r || is_post_to "/prompt" r)

-- payload.get("prompt", {})
unfoldable pub prompt_of : Request → Option Json
unfolding get
prompt_of r = elim r.payload [
  | some (obj ms) ↦ some (or_else (get ms "prompt") (obj end))
  | _ ↦ none
]

unfoldable pub resource_of : Server → Settings → Json → String
unfolding classify_item
resource_of server settings prompt =
    classify_item server.py settings (num (pos 0) ∷ text "" ∷ prompt ∷ [])

-- The limit of an account: an administrator's, or that of the resource class.
unfoldable pub limit_of : Server → Settings → String → String → ℕ
unfolding get lookup
limit_of server settings owner resource =
    if elim (get (server.user owner) "admin") [ none ↦ false | some v ↦ truthy v ]
    then settings.admin_concurrency_limit
    else or_else (lookup resource settings.resource_concurrency_limits)
        settings.max_concurrent_jobs_per_user

-- sum(job["resource_class"] == resource for job in active)
unfoldable pub active_jobs : Scheduler.Db → String → String → ℕ
unfolding count running_jobs
active_jobs db owner resource =
    count (λ job. str_eq job.resource_class resource) (running_jobs owner false db)

-- limit and sum(...) >= limit
abbrev pub is_full : ℕ → ℕ → Bool
is_full limit active = not (limit == 0) && leb limit active

-- set(...) - {self.server.port}
unfoldable pub other_ports : ℕ → List ℕ → List ℕ
unfolding select
other_ports port = select (λ p. not (p == port))

abbrev pub is_empty : List ℕ → Bool
is_empty [] = true
is_empty (p ∷ ports) = false

-- The part after the tests of the endpoint.
unfoldable pub authorize_prompt :
    ℕ → Server → Request → String → Settings × Scheduler.Db → Answer Unit
unfolding worker_ports prompt_of resource_of limit_of active_jobs idle_worker_ports other_ports
authorize_prompt now server r owner (settings, db) = do
  workers ← require (leb 2 (length (worker_ports now 60 db))) 409
  prompt ← or_raise (prompt_of r)
  let resource = resource_of server settings prompt
  room ←
      require
        (not (is_full (limit_of server settings owner resource) (active_jobs db owner resource)))
        409
  require (not (is_empty (other_ports server.port (idle_worker_ports now resource 60 db)))) 409

-- if request.method != "POST" or path != "/prompt": return
unfoldable pub authorize_post :
    ℕ → Server → Request → Claims → Bool → Option (Settings × Scheduler.Db) → Answer Unit
unfolding authorize_prompt
authorize_post now server r claims false scheduler = ok tt
authorize_post now server r claims true none = http 409
authorize_post now server r claims true (some scheduler) =
    authorize_prompt now server r claims.id scheduler

-- `ok` where the request may go on.
unfoldable pub authorize : ℕ → Server → Request → Claims → Answer Unit
unfolding current_owner authorize_post
authorize now server r claims = do
  parent ← require (is_claimed (current_owner server claims.am_task) claims) 401
  endpoint ← require (is_allowed r) 403
  authorize_post now server r claims (is_post_to "/prompt" r) server.scheduler
