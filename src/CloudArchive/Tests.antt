-- ===== src/CloudArchive/Tests.antt =====
-- The theorems on the cloud archive's store at one run: a task with one artifact is enqueued, its
-- artifact is claimed and uploaded, and its manifest is claimed.
use comfy_ui_account_manager.Base.{◌≤◌, true, [], ◌∷◌, Option, none, some, ◌≡◌, refl, Memᴰ}
use comfy_ui_account_manager.Base.Table.{count, fetch_one, update, select, order_by, upsert}
use comfy_ui_account_manager.Json.{null}
use comfy_ui_account_manager.CloudArchive.Rows.{
  Task, Artifact, Db, empty_db, is_uploaded, is_task, uploading, pending, cloud_completed,
}
use comfy_ui_account_manager.CloudArchive.Enqueue.{
  Config, Completion, enqueue_task, save_artifact, save_task, save_artifacts,
}
use comfy_ui_account_manager.CloudArchive.Artifacts.{
  Uploaded, active, claim_artifact, artifact_succeeded, next_artifact, as_uploaded,
}
use comfy_ui_account_manager.CloudArchive.Manifests.{
  claim_manifest, is_unfinished, manifest_succeeded, next_manifest, as_claimed, as_archived,
}
use comfy_ui_account_manager.CloudArchive.Counts.{IsConsistent}
use comfy_ui_account_manager.CloudArchive.Steps.{
  Reach, here, next, enqueues, claims_artifact, succeeds,
}
use comfy_ui_account_manager.CloudArchive.Reachable.{Reach-IsConsistent}
use comfy_ui_account_manager.CloudArchive.Completed.{manifest_succeeded-completed}
use comfy_ui_account_manager.CloudArchive.Claims.{claim_artifact-active, claim_manifest-ready}

abbrev config : Config
config = record {
  server_id = "s1";
  media_key = λ prompt_id ordinal filename finished_at. filename;
  manifest_key = λ prompt_id. prompt_id;
  oss_uri = λ key. key;
  public_url = λ key. key;
}

abbrev completion : Completion
completion = record {
  prompt_id = "p1";
  owner_id = "ann";
  worker_port = 8188;
  generation_status = "completed";
  finished_at = 50;
  artifacts =
      record {
        source_kind = "local";
        source_path = some "out.png";
        source_url = none;
        output_path = none;
        reference = null;
        filename = "out.png";
        mime_type = none;
      }
      ∷ [];
}

abbrev db_of : Option Db → Db
db_of none = empty_db
db_of (some db) = db

abbrev queued : Db
queued = db_of (enqueue_task config 100 completion empty_db)

abbrev claimed : Db
claimed = (claim_artifact 200 "u1" 2 1800 queued).1

abbrev result : Uploaded
result = record {
  mime_type = none;
  size_bytes = some 9;
  sha256 = none;
  etag = none;
  oss_crc64 = none;
}

abbrev sent : Db
sent = artifact_succeeded 300 1 result claimed

queued-Reach : Reach empty_db queued
unfolding enqueue_task fetch_one
queued-Reach = next here (enqueues config 100 completion refl)

sent-Reach : Reach empty_db sent
sent-Reach = next (next queued-Reach (claims_artifact 200 "u1" 2 1800)) (succeeds 300 1 result)

Reach-IsConsistent_example : IsConsistent sent
Reach-IsConsistent_example = Reach-IsConsistent sent-Reach

-- The stored artifact, as it is claimed.
abbrev piece : Artifact
piece = record {
  id = 1;
  prompt_id = "p1";
  server_id = "s1";
  ordinal = 1;
  source_kind = "local";
  source_path = some "out.png";
  source_url = none;
  output_path = none;
  reference_data = null;
  filename = "out.png";
  mime_type = none;
  size_bytes = none;
  sha256 = none;
  oss_object_key = "out.png";
  oss_uri = "out.png";
  public_url = "out.png";
  etag = none;
  oss_crc64 = none;
  upload_status = uploading;
  attempt_count = 1;
  next_attempt_at = some 100;
  lease_owner = some "u1";
  lease_expires_at = some 1800000200;
  last_error = none;
  created_at = 100;
  updated_at = 200;
  uploaded_at = none;
}

piece-claimed : (claim_artifact 200 "u1" 2 1800 queued).0 ≡ some piece
unfolding enqueue_task fetch_one save_task save_artifacts save_artifact upsert claim_artifact
    next_artifact select order_by update count
piece-claimed = refl

claim_artifact-active_example : active 200 claimed ≤ 2
claim_artifact-active_example =
    claim_artifact-active 200 "u1" 2 1800 queued piece queued-Reach piece-claimed

-- The artifact, the task and the task with its manifest after the upload.
abbrev sent_piece : Artifact
sent_piece = as_uploaded 300 result piece

abbrev sent_task : Task
sent_task = record {
  prompt_id = "p1";
  server_id = "s1";
  owner_id = "ann";
  worker_port = 8188;
  generation_status = "completed";
  cloud_status = uploading;
  artifact_count = 1;
  uploaded_count = 1;
  failed_count = 0;
  manifest_object_key = "p1";
  manifest_oss_uri = "p1";
  manifest_size_bytes = none;
  manifest_sha256 = none;
  manifest_upload_status = pending;
  manifest_attempt_count = 0;
  manifest_next_attempt_at = some 100;
  manifest_lease_owner = none;
  manifest_lease_expires_at = none;
  last_error = none;
  created_at = 100;
  updated_at = 300;
  completed_at = none;
}

abbrev claimed_task : Task
claimed_task = as_claimed 400 "u2" 1800 sent_task

claimed-task : (claim_manifest 400 "u2" 3 2 1800 sent).0 ≡ some claimed_task
unfolding enqueue_task fetch_one save_task save_artifacts save_artifact upsert claim_artifact
    next_artifact select order_by update count artifact_succeeded claim_manifest next_manifest
claimed-task = refl

claim_manifest-ready_example :
    (claimed_task.manifest_lease_owner ≡ some "u2")
    × (count (is_unfinished "p1") sent.artifacts ≡ 0)
claim_manifest-ready_example = claim_manifest-ready 400 "u2" 3 2 1800 sent claimed_task claimed-task

abbrev archived_task : Task
archived_task = as_archived 500 (some 9) none cloud_completed sent_task

archived-stored : Memᴰ archived_task (manifest_succeeded 500 "p1" (some 9) none sent).tasks
unfolding enqueue_task fetch_one save_task save_artifacts save_artifact upsert claim_artifact
    next_artifact select order_by update count artifact_succeeded manifest_succeeded
archived-stored = Memᴰ.head refl

sent-settled : count (is_unfinished "p1") sent.artifacts ≡ 0
unfolding enqueue_task fetch_one save_task save_artifacts save_artifact upsert claim_artifact
    next_artifact select order_by update count artifact_succeeded
sent-settled = refl

sent-found : fetch_one (is_task "p1") sent.tasks ≡ some sent_task
unfolding enqueue_task fetch_one save_task save_artifacts save_artifact upsert claim_artifact
    next_artifact select order_by update count artifact_succeeded
sent-found = refl

piece-sent : Memᴰ sent_piece sent.artifacts
unfolding enqueue_task fetch_one save_task save_artifacts save_artifact upsert claim_artifact
    next_artifact select order_by update count artifact_succeeded
piece-sent = Memᴰ.head refl

manifest_succeeded-completed_example : is_uploaded sent_piece.upload_status ≡ true
manifest_succeeded-completed_example =
    manifest_succeeded-completed sent 500 "p1" (some 9) none sent_task archived_task sent_piece
      sent-Reach sent-found sent-settled archived-stored refl refl piece-sent refl
