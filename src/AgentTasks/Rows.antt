-- ===== src/AgentTasks/Rows.antt =====
-- The tables and the settings of utils/agent_tasks.py. Times are microseconds, and a JSON column is
-- kept as its value. New identifiers (`uuid4`) are arguments of the methods that make them.
use comfy_ui_account_manager.Base.{ℕ, zero, suc, String, Bool, true, false, List, [], Option, max}
use comfy_ui_account_manager.Json.{Json}

pub data State : Type 0 where
  queued running delivering cancel_requested completed failed cancelled recovery_required : State

-- TERMINAL
abbrev pub is_terminal : State → Bool
is_terminal completed = true
is_terminal failed = true
is_terminal cancelled = true
is_terminal recovery_required = true
is_terminal _ = false

-- ACTIVE
abbrev pub is_active : State → Bool
is_active running = true
is_active delivering = true
is_active cancel_requested = true
is_active _ = false

abbrev pub is_queued : State → Bool
is_queued queued = true
is_queued _ = false

abbrev pub is_running : State → Bool
is_running running = true
is_running _ = false

abbrev pub is_delivering : State → Bool
is_delivering delivering = true
is_delivering _ = false

abbrev pub is_recovery : State → Bool
is_recovery recovery_required = true
is_recovery _ = false

-- A row of agent_tasks.
pub record Task : Type 0 where
  pub id : String
  pub owner : String
  pub submission_key : String
  pub job : Json
  pub recovery_only : Bool  -- job['recovery_only'], which `recover` adds
  pub state : State
  pub created : ℕ
  pub updated : ℕ
  pub lease : Option String
  pub lease_until : ℕ
  pub checkpoint : Option Json
  pub result : Option Json
  pub error : String

-- A row of agent_events.
pub record Event : Type 0 where
  pub seq : ℕ
  pub task_id : String
  pub event : Json

-- A row of agent_children.
pub record Child : Type 0 where
  pub task_id : String
  pub request_key : String
  pub fingerprint : String
  pub prompt_id : String
  pub response : Option Json

pub record Db : Type 0 where
  pub tasks : List Task
  pub events : List Event
  pub next_seq : ℕ
  pub children : List Child

abbrev pub empty_db : Db
empty_db = record { tasks = []; events = []; next_seq = 1; children = [] }

pub record Settings : Type 0 where
  pub concurrency : ℕ
  pub per_user : ℕ
  pub pending_per_user : ℕ

-- `__init__`
unfoldable pub make_settings : ℕ → ℕ → ℕ → Settings
make_settings concurrency per_user pending_per_user = record {
  concurrency = max 1 concurrency;
  per_user = max 1 per_user;
  pending_per_user = max 1 pending_per_user;
}

-- The source raises ValueError, and sqlite3.IntegrityError for a repeated key.
pub data Error : Type 0 where
  value_error integrity_error : Error

pub data Result {ℓ} (A : Type ℓ) : Type ℓ where
  ok : A → Result A
  err : Error → Result A

abbrev pub second : ℕ
second = 1000000

-- text[:n]
unfoldable pub clip : ℕ → String → String
clip zero s = ""
clip (suc n) String.[] = ""
clip (suc n) (String.◌∷◌ c s) = String.◌∷◌ c (clip n s)
