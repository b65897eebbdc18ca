-- ===== src/CloudArchive/Enqueue.antt =====
-- `enqueue_task` of utils/cloud_archive.py.
use comfy_ui_account_manager.Base.{
  ℕ, String, Bool, false, not, ◌&&◌, List, [], ◌∷◌, ◌++◌, Option, none, some, ◌+◌, str_eq, ◌==◌,
  if◌then◌else◌, length,
}
use comfy_ui_account_manager.Base.Table.{fetch_one, update, upsert}
use comfy_ui_account_manager.Json.{Json}
use comfy_ui_account_manager.CloudArchive.Rows.{
  State, pending, no_artifacts, Task, Artifact, Db, is_task,
}

-- What the methods use of a CloudArchiveConfig: the server's name, and the methods that format
-- object keys and addresses.
pub record Config : Type 0 where
  pub server_id : String
  pub media_key : String → ℕ → String → ℕ → String
  pub manifest_key : String → String
  pub oss_uri : String → String
  pub public_url : String → String

-- A discovered artifact.
pub record Found : Type 0 where
  pub source_kind : String
  pub source_path : Option String
  pub source_url : Option String
  pub output_path : Option String
  pub reference : Json
  pub filename : String
  pub mime_type : Option String

-- The arguments after the configuration.
pub record Completion : Type 0 where
  pub prompt_id : String
  pub owner_id : String
  pub worker_port : ℕ
  pub generation_status : String
  pub finished_at : ℕ
  pub artifacts : List Found

-- PENDING if artifacts else NO_ARTIFACTS
abbrev status_of : List Found → State
status_of [] = no_artifacts
status_of (a ∷ rest) = pending

abbrev pub new_task : Config → ℕ → Completion → Task
new_task config now c = record {
  prompt_id = c.prompt_id;
  server_id = config.server_id;
  owner_id = c.owner_id;
  worker_port = c.worker_port;
  generation_status = c.generation_status;
  cloud_status = status_of c.artifacts;
  artifact_count = length c.artifacts;
  uploaded_count = 0;
  failed_count = 0;
  manifest_object_key = config.manifest_key c.prompt_id;
  manifest_oss_uri = config.oss_uri (config.manifest_key c.prompt_id);
  manifest_size_bytes = none;
  manifest_sha256 = none;
  manifest_upload_status = pending;
  manifest_attempt_count = 0;
  manifest_next_attempt_at = some now;
  manifest_lease_owner = none;
  manifest_lease_expires_at = none;
  last_error = none;
  created_at = now;
  updated_at = now;
  completed_at = none;
}

-- ON CONFLICT(prompt_id) DO UPDATE SET
abbrev pub as_repeated : Config → ℕ → Completion → Task → Task
as_repeated config now c task = record task {
  owner_id = c.owner_id;
  worker_port = c.worker_port;
  generation_status = c.generation_status;
  artifact_count = length c.artifacts;
  manifest_object_key = config.manifest_key c.prompt_id;
  manifest_oss_uri = config.oss_uri (config.manifest_key c.prompt_id);
  updated_at = now;
}

abbrev pub new_artifact : Config → ℕ → Completion → ℕ → Found → ℕ → Artifact
new_artifact config now c ordinal a id =
    let key = config.media_key c.prompt_id ordinal a.filename c.finished_at in
    record {
      id = id;
      prompt_id = c.prompt_id;
      server_id = config.server_id;
      ordinal = ordinal;
      source_kind = a.source_kind;
      source_path = a.source_path;
      source_url = a.source_url;
      output_path = a.output_path;
      reference_data = a.reference;
      filename = a.filename;
      mime_type = a.mime_type;
      size_bytes = none;
      sha256 = none;
      oss_object_key = key;
      oss_uri = config.oss_uri key;
      public_url = config.public_url key;
      etag = none;
      oss_crc64 = none;
      upload_status = pending;
      attempt_count = 0;
      next_attempt_at = some now;
      lease_owner = none;
      lease_expires_at = none;
      last_error = none;
      created_at = now;
      updated_at = now;
      uploaded_at = none;
    }

-- ON CONFLICT(prompt_id, ordinal) DO UPDATE SET
abbrev pub as_found : Config → ℕ → Completion → ℕ → Found → Artifact → Artifact
as_found config now c ordinal a artifact =
    let key = config.media_key c.prompt_id ordinal a.filename c.finished_at in
    record artifact {
      source_path = a.source_path;
      source_url = a.source_url;
      output_path = a.output_path;
      reference_data = a.reference;
      filename = a.filename;
      mime_type = a.mime_type;
      oss_object_key = key;
      oss_uri = config.oss_uri key;
      public_url = config.public_url key;
      updated_at = now;
    }

abbrev pub is_numbered : String → ℕ → Artifact → Bool
is_numbered prompt_id ordinal artifact =
    str_eq artifact.prompt_id prompt_id && artifact.ordinal == ordinal

-- The INSERT of one artifact.
unfoldable pub save_artifact : Config → ℕ → Completion → ℕ → Found → Db → Db
save_artifact config now c ordinal a db =
    elim (fetch_one (is_numbered c.prompt_id ordinal) db.artifacts) [
      | some old ↦ record db {
        artifacts =
            update (is_numbered c.prompt_id ordinal) (as_found config now c ordinal a) db.artifacts;
      }
      | none ↦ record db {
        artifacts = db.artifacts ++ new_artifact config now c ordinal a db.next_id ∷ [];
        next_id = db.next_id + 1;
      }
    ]

-- The loop over enumerate(artifacts, 1), from an ordinal on.
unfoldable pub save_artifacts : Config → ℕ → Completion → ℕ → List Found → Db → Db
unfolding save_artifact
save_artifacts config now c ordinal [] db = db
save_artifacts config now c ordinal (a ∷ rest) db =
    save_artifacts config now c (ordinal + 1) rest (save_artifact config now c ordinal a db)

unfoldable pub save_task : Config → ℕ → Completion → List Task → List Task
save_task config now c =
    upsert (is_task c.prompt_id) (as_repeated config now c) (new_task config now c)

-- existing and existing["server_id"] != config.server_id
abbrev pub is_foreign : Config → Option Task → Bool
is_foreign config none = false
is_foreign config (some task) = not (str_eq task.server_id config.server_id)

-- The database after the call; `none` where it raises RuntimeError.
unfoldable pub enqueue_task : Config → ℕ → Completion → Db → Option Db
unfolding save_artifacts save_task
enqueue_task config now c db =
    if is_foreign config (fetch_one (is_task c.prompt_id) db.tasks)
    then none
    else some (
        save_artifacts config now c 1 c.artifacts
          (record db { tasks = save_task config now c db.tasks }))
