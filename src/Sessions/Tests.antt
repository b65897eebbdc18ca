-- ===== src/Sessions/Tests.antt =====
-- The theorems on utils/task_sessions.py and utils/agent_task_routes.py at one run: a task session that
-- submits a prompt, and an agent task that submits a workflow and repeats it.
use comfy_ui_account_manager.AgentTasks.Rows as Agent
use comfy_ui_account_manager.Base.{ℕ, String, Option, false, [], ◌∷◌, none, some, ◌≡◌, refl}
use comfy_ui_account_manager.Base.Int.{pos}
use comfy_ui_account_manager.Base.Table.{fetch_one, order_by}
use comfy_ui_account_manager.Json.{null, text, obj, end, member, Python}
use comfy_ui_account_manager.Scheduler.Rows as Scheduler
use comfy_ui_account_manager.Scheduler.Settings.{make_settings}
use comfy_ui_account_manager.Sessions.{Answer, ok, Request, Server, authorize}
use comfy_ui_account_manager.Sessions as Sessions
use comfy_ui_account_manager.Sessions.Authorized.{IsAuthorized, authorize-IsAuthorized}
use comfy_ui_account_manager.Sessions.Assets.{Wanted}
use comfy_ui_account_manager.Sessions.Delegated.{Library, Claims, submit, admit}
use comfy_ui_account_manager.Sessions.Admitted.{IsAdmitted, admit-IsAdmitted}
use comfy_ui_account_manager.Sessions.Once.{is_submit}
use comfy_ui_account_manager.Sessions.Repeats.{same, admit_once}

abbrev python : Python
python = record { repr = λ v. ""; parse_float = λ t. none }

-- Alice's prompt runs on one of two workers, and submits another one.
abbrev parent_job : Scheduler.Job
parent_job = record {
  sequence = 1;
  prompt_id = "p1";
  owner_id = "alice";
  client_id = none;
  ingress_port = some 8188;
  worker_port = some 8188;
  priority = pos 0;
  payload = [];
  status = Scheduler.running;
  concurrency_limit = 2;
  submitted_at = 0;
  started_at = some 0;
  finished_at = none;
  heartbeat_at = none;
  error = none;
  resource_class = "default";
  log_file = none;
  log_start_offset = none;
  log_end_offset = none;
  log_start_line = none;
  log_end_line = none;
}

abbrev worker_at : ℕ → Option String → Scheduler.Worker
worker_at port prompt_id = record {
  port = port;
  pid = port;
  active_prompt_id = prompt_id;
  last_heartbeat = 0;
  resource_class = "default";
}

abbrev two_workers : Scheduler.Db
two_workers = record Scheduler.empty_db {
  jobs = parent_job ∷ [];
  workers = worker_at 8188 (some "p1") ∷ worker_at 8189 none ∷ [];
}

abbrev server : Server
server = record {
  py = python;
  port = 8188;
  scheduler = some (make_settings 2 0 [] [], two_workers);
  currently_running = [];
  user = λ id. end;
}

abbrev post_prompt : Request
post_prompt = record {
  method = "POST";
  path = "/prompt";
  payload = some (obj (member "prompt" (obj end) end));
}

abbrev session : Sessions.Claims
session = record { id = "alice"; am_task = "p1" }

prompt-allowed : authorize 0 server post_prompt session ≡ ok tt
unfolding authorize fetch_one order_by make_settings
prompt-allowed = refl

authorize-IsAuthorized_example : IsAuthorized 0 server post_prompt session
authorize-IsAuthorized_example = authorize-IsAuthorized 0 server post_prompt session prompt-allowed

abbrev library : Library
library = record { py = python; last_segment = λ path. path; fingerprint = λ workflow. "print" }

abbrev task : Agent.Task
task = record {
  id = "a1";
  owner = "alice";
  submission_key = "k";
  job = null;
  recovery_only = false;
  state = Agent.running;
  created = 0;
  updated = 0;
  lease = some "l1";
  lease_until = 100;
  checkpoint = none;
  result = none;
  error = "";
}

abbrev agent_db : Agent.Db
agent_db = record Agent.empty_db { tasks = task ∷ [] }

abbrev claims : Claims
claims = record { id = "alice"; am_agent = "a1"; am_lease = some "l1" }

abbrev wanted : Wanted
wanted = record { filename = ""; subfolder = ""; kind = "output" }

abbrev post : Request
post = record {
  method = "POST";
  path = "/prompt";
  payload = some (obj (member "client_id" (text "c1") (member "prompt" (obj end) end)));
}

first_submits :
    (admit library 10 "p9" post wanted claims Scheduler.empty_db [] agent_db).0 ≡ ok (submit "p9")
unfolding admit fetch_one
first_submits = refl

admit-IsAdmitted_example : IsAdmitted library 10 post wanted claims [] agent_db
admit-IsAdmitted_example =
    admit-IsAdmitted library 10 "p9" post wanted claims Scheduler.empty_db [] agent_db first_submits

abbrev after : Agent.Db
after = (admit library 10 "p9" post wanted claims Scheduler.empty_db [] agent_db).1

admit_once_example :
    is_submit (admit library 20 "p10" post wanted claims Scheduler.empty_db [] after).0 ≡ false
admit_once_example =
    admit_once library 10 20 "p9" "p10" "p9" post wanted wanted claims claims Scheduler.empty_db
      Scheduler.empty_db [] [] agent_db after first_submits same refl
