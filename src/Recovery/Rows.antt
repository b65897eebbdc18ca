-- ===== src/Recovery/Rows.antt =====
-- The table scheduler_api_recovery of utils/api_recovery.py, and `observe`. Times are microseconds.
use comfy_ui_account_manager.Base.{
  ℕ, String, Bool, true, false, not, ◌&&◌, List, [], ◌∷◌, ◌++◌, Option, none, some, str_eq, leb,
  ltb, if◌then◌else◌, is_some,
}
use comfy_ui_account_manager.Base.Table.{fetch_one}
use comfy_ui_account_manager.Json.{Json}
use comfy_ui_account_manager.Recovery.Submissions.{
  Texts, Submission, Answer, raised, nothing, found, submission,
}
use comfy_ui_account_manager.Scheduler.Rows.{Job}
use comfy_ui_account_manager.Scheduler.Store.{runs_prompt}

pub data State : Type 0 where
  pending recovered failed ignored : State

abbrev pub is_pending : State → Bool
is_pending pending = true
is_pending _ = false

-- The text of the column.
abbrev pub state_text : State → String
state_text pending = "pending"
state_text recovered = "recovered"
state_text failed = "failed"
state_text ignored = "ignored"

-- A row of scheduler_api_recovery.
pub record Row : Type 0 where
  pub id : String
  pub prompt_id : String
  pub node_id : String
  pub provider : String
  pub task_id : String
  pub query_method : String
  pub query_url : String
  pub query_body : Json
  pub credentials : Option String
  pub state : State
  pub created_at : ℕ
  pub next_check : ℕ
  pub failures : ℕ
  pub message : Option String

abbrev pub has_id : String → Row → Bool
has_id id row = str_eq row.id id

abbrev pub second : ℕ
second = 1000000

-- A request that a node made, and its response, as `observe` reads them: `content` is the decoded body
-- (none where it is no JSON) and `authorization` the header, or the empty text.
pub record Observed : Type 0 where
  pub prompt_id : String
  pub node_id : String
  pub method : String
  pub url : String
  pub authorization : String
  pub status_code : ℕ
  pub content : Option Json

-- The code outside that `observe` calls: str.upper, the methods that the test of the header
-- calls, the key by SHA-256, and the encryption by Fernet.
pub record Library : Type 0 where
  pub upper : String → String
  pub is_bearer : String → Bool
  pub texts : Texts
  pub key : String → String → String → String
  pub encrypt : String → String

abbrev pub is_success_code : ℕ → Bool
is_success_code code = leb 200 code && ltb code 300

abbrev pub new_row : Library → ℕ → Observed → Submission → Row
new_row lib now o s = record {
  id = lib.key o.prompt_id s.query_url s.task_id;
  prompt_id = o.prompt_id;
  node_id = o.node_id;
  provider = s.provider;
  task_id = s.task_id;
  query_method = s.query_method;
  query_url = s.query_url;
  query_body = s.query_body;
  credentials = some (lib.encrypt o.authorization);
  state = pending;
  created_at = now;
  next_check = 0;
  failures = 0;
  message = none;
}

-- INSERT OR IGNORE ... SELECT ... FROM scheduler_jobs WHERE prompt_id=? AND status='running'
unfoldable pub insert_row : List Job → Row → List Row → List Row
unfolding fetch_one
insert_row jobs row rows =
    if is_some (fetch_one (runs_prompt row.prompt_id) jobs)
      && not (is_some (fetch_one (has_id row.id) rows))
    then rows ++ row ∷ []
    else rows

-- The test of the header, and the rest.
abbrev pub keep :
    Library → ℕ → List Job → Observed → List Row → Answer Submission → Answer (List Row)
keep lib now jobs o rows raised = raised
keep lib now jobs o rows nothing = found rows
keep lib now jobs o rows (found s) =
    found
      (if lib.is_bearer o.authorization then insert_row jobs (new_row lib now o s) rows else rows)

-- The part after the tests of the method and the status.
unfoldable pub read_body :
    Library → ℕ → List Job → Observed → List Row → Option Json → Answer (List Row)
unfolding insert_row submission
read_body lib now jobs o rows none = found rows
read_body lib now jobs o rows (some body) =
    keep lib now jobs o rows (submission lib.texts o.url body)

-- The rows after the call.
unfoldable pub observe : Library → ℕ → List Job → Observed → List Row → Answer (List Row)
unfolding read_body
observe lib now jobs o rows =
    if str_eq (lib.upper o.method) "POST" && is_success_code o.status_code
    then read_body lib now jobs o rows o.content
    else found rows
