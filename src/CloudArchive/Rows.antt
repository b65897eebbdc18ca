-- ===== src/CloudArchive/Rows.antt =====
-- The tables of the class CloudArchiveStore of utils/cloud_archive.py. Times are microseconds, a
-- missing value (NULL) is `none`, and a JSON column holds the value that its text encodes.
use comfy_ui_account_manager.Base.{
  ℕ, String, Bool, true, false, ◌||◌, List, [], ◌∷◌, Option, none, some, ◌*◌, ◌-◌, str_eq, ltb, leb,
  ◌==◌, get_elem?, or_else,
}
use Prim.Native.Nat.{min}
use comfy_ui_account_manager.Json.{Json}

-- The constants of the three status columns; `failed` is the text that `manifest_failed` writes.
pub data State : Type 0 where
  pending uploading uploaded cloud_completed cloud_failed no_artifacts source_missing failed : State

abbrev pub is_pending : State → Bool
is_pending pending = true
is_pending _ = false

abbrev pub is_uploading : State → Bool
is_uploading uploading = true
is_uploading _ = false

abbrev pub is_uploaded : State → Bool
is_uploaded uploaded = true
is_uploaded _ = false

-- upload_status IN ('cloud_failed', 'source_missing')
abbrev pub is_failed : State → Bool
is_failed cloud_failed = true
is_failed source_missing = true
is_failed _ = false

-- upload_status IN ('uploaded', 'cloud_failed', 'source_missing')
abbrev pub is_terminal : State → Bool
is_terminal s = is_uploaded s || is_failed s

-- A row of scheduler_cloud_tasks.
pub record Task : Type 0 where
  pub prompt_id : String
  pub server_id : String
  pub owner_id : String
  pub worker_port : ℕ
  pub generation_status : String
  pub cloud_status : State
  pub artifact_count : ℕ
  pub uploaded_count : ℕ
  pub failed_count : ℕ
  pub manifest_object_key : String
  pub manifest_oss_uri : String
  pub manifest_size_bytes : Option ℕ
  pub manifest_sha256 : Option String
  pub manifest_upload_status : State
  pub manifest_attempt_count : ℕ
  pub manifest_next_attempt_at : Option ℕ
  pub manifest_lease_owner : Option String
  pub manifest_lease_expires_at : Option ℕ
  pub last_error : Option String
  pub created_at : ℕ
  pub updated_at : ℕ
  pub completed_at : Option ℕ

-- A row of scheduler_cloud_artifacts.
pub record Artifact : Type 0 where
  pub id : ℕ
  pub prompt_id : String
  pub server_id : String
  pub ordinal : ℕ
  pub source_kind : String
  pub source_path : Option String
  pub source_url : Option String
  pub output_path : Option String
  pub reference_data : Json
  pub filename : String
  pub mime_type : Option String
  pub size_bytes : Option ℕ
  pub sha256 : Option String
  pub oss_object_key : String
  pub oss_uri : String
  pub public_url : String
  pub etag : Option String
  pub oss_crc64 : Option String
  pub upload_status : State
  pub attempt_count : ℕ
  pub next_attempt_at : Option ℕ
  pub lease_owner : Option String
  pub lease_expires_at : Option ℕ
  pub last_error : Option String
  pub created_at : ℕ
  pub updated_at : ℕ
  pub uploaded_at : Option ℕ

pub record Db : Type 0 where
  pub tasks : List Task
  pub artifacts : List Artifact
  pub next_id : ℕ

abbrev pub empty_db : Db
empty_db = record { tasks = []; artifacts = []; next_id = 1 }

abbrev pub with_tasks : Db → List Task → Db
with_tasks db tasks = record db { tasks = tasks }

abbrev pub second : ℕ
second = 1000000

-- WHERE prompt_id = ?
abbrev pub is_task : String → Task → Bool
is_task prompt_id task = str_eq task.prompt_id prompt_id

abbrev pub has_id : ℕ → Artifact → Bool
has_id artifact_id artifact = artifact.id == artifact_id

abbrev pub is_part : String → Artifact → Bool
is_part prompt_id artifact = str_eq artifact.prompt_id prompt_id

-- lease_expires_at > ?
abbrev pub after : Option ℕ → ℕ → Bool
after none now = false
after (some time) now = ltb now time

-- COALESCE(time, 0) <= ?
abbrev pub due : Option ℕ → ℕ → Bool
due time now = leb (or_else time 0) now

-- RETRY_DELAYS[min(max(0, attempts - 1), len(RETRY_DELAYS) - 1)], in microseconds
unfoldable pub retry_delay : ℕ → ℕ
retry_delay attempts = or_else (get_elem? (30 ∷ 120 ∷ []) (min (attempts - 1) 1)) 0 * second
