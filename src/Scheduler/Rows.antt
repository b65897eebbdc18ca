-- ===== src/Scheduler/Rows.antt =====
-- The tables, the settings and the errors of utils/scheduler_store.py. Times are natural numbers
-- of microseconds (REAL seconds in the source), and a missing value (NULL) is `none`.
use comfy_ui_account_manager.Base.{
  ℕ, String, Bool, true, false, List, [], Option, none, some, ◌≡◌, refl, ◌⊎◌, inl, inr,
}
use comfy_ui_account_manager.Base.Int.{ℤ}
use comfy_ui_account_manager.Json.{Json}

pub data Status : Type 0 where
  queued running completed failed cancelled worker_lost : Status

-- status = RUNNING, and so on
abbrev pub is_queued : Status → Bool
is_queued queued = true
is_queued _ = false

abbrev pub is_running : Status → Bool
is_running running = true
is_running _ = false

abbrev pub is_worker_lost : Status → Bool
is_worker_lost worker_lost = true
is_worker_lost _ = false

-- A row of scheduler_jobs.
pub record Job : Type 0 where
  pub sequence : ℕ
  pub prompt_id : String
  pub owner_id : String
  pub client_id : Option String
  pub ingress_port : Option ℕ
  pub worker_port : Option ℕ
  pub priority : ℤ
  pub payload : List Json
  pub status : Status
  pub concurrency_limit : ℕ
  pub submitted_at : ℕ
  pub started_at : Option ℕ
  pub finished_at : Option ℕ
  pub heartbeat_at : Option ℕ
  pub error : Option String
  pub resource_class : String
  pub log_file : Option String
  pub log_start_offset : Option ℕ
  pub log_end_offset : Option ℕ
  pub log_start_line : Option ℕ
  pub log_end_line : Option ℕ

-- A row of scheduler_workers.
pub record Worker : Type 0 where
  pub port : ℕ
  pub pid : ℕ
  pub active_prompt_id : Option String
  pub last_heartbeat : ℕ
  pub resource_class : String

-- A row of scheduler_assets.
pub record Asset : Type 0 where
  pub asset_id : String
  pub owner_id : String
  pub prompt_id : String
  pub worker_port : ℕ
  pub file_path : String
  pub body : Json
  pub updated_at : ℕ

-- A row of scheduler_job_logs. The column `truncated` is always 0.
pub record JobLog : Type 0 where
  pub prompt_id : String
  pub worker_port : ℕ
  pub log_file : String
  pub start_offset : ℕ
  pub end_offset : ℕ
  pub start_line : Option ℕ
  pub end_line : Option ℕ
  pub content : List ℕ
  pub content_bytes : ℕ
  pub captured_at : ℕ

-- A row of scheduler_api_logs.
pub record ApiLog : Type 0 where
  pub sequence : ℕ
  pub prompt_id : String
  pub recorded_at : ℕ
  pub client : String
  pub method : String
  pub url : String
  pub request_headers : String
  pub request_body : Option (List ℕ)
  pub response_status : Option ℕ
  pub response_headers : String
  pub response_body : Option (List ℕ)
  pub error : Option String

-- The database file. The two `next` fields are the AUTOINCREMENT counters.
pub record Db : Type 0 where
  pub jobs : List Job
  pub next_sequence : ℕ
  pub workers : List Worker
  pub assets : List Asset
  pub job_logs : List JobLog
  pub api_logs : List ApiLog
  pub next_api_sequence : ℕ

abbrev pub empty_db : Db
empty_db = record {
  jobs = [];
  next_sequence = 1;
  workers = [];
  assets = [];
  job_logs = [];
  api_logs = [];
  next_api_sequence = 1;
}

-- What `__init__` keeps of its arguments.
pub record Settings : Type 0 where
  pub max_concurrent_jobs_per_user : ℕ
  pub admin_concurrency_limit : ℕ
  pub resource_concurrency_limits : List (String × ℕ)
  pub gpu_node_types : List String

pub data Error : Type 0 where
  index_error type_error value_error integrity_error : Error

pub data Result {ℓ} (A : Type ℓ) : Type ℓ where
  err : Error → Result A
  ok : A → Result A

infixl 5 ◌>>=◌
abbrev pub ◌>>=◌ {ℓ κ} : {A : Type ℓ} {B : Type κ} → Result A → (A → Result B) → Result B
err raised >>= next = err raised
ok value >>= next = next value

pub ok-injective {ℓ} : {A : Type ℓ} {a b : A} → ok a ≡ ok b → a ≡ b
ok-injective e = cc

-- Inversion of a bind that does not raise.
pub >>=-eq-ok {ℓ κ} :
    {A : Type ℓ} {B : Type κ} (first : Result A) (next : A → Result B) {last : B}
    → (first >>= next) ≡ ok last
    → (value : A) × (next value ≡ ok last) × (first ≡ ok value)
>>=-eq-ok (err raised) next e = cc
>>=-eq-ok (ok value) next e = (value, e, refl)

pub Result-cases {ℓ} :
    {A : Type ℓ} (r : Result A) → ((a : A) × (r ≡ ok a)) ⊎ ((e : Error) × (r ≡ err e))
Result-cases (ok a) = inl (a, refl)
Result-cases (err e) = inr (e, refl)

abbrev pub or_raise {ℓ} : {A : Type ℓ} → Option A → Error → Result A
or_raise none e = err e
or_raise (some a) e = ok a

abbrev pub second : ℕ
second = 1000000
