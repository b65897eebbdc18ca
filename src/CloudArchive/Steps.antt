-- ===== src/CloudArchive/Steps.antt =====
-- The calls of the cloud archive's store that write, by any number of processes.
use comfy_ui_account_manager.Base.{ℕ, String, Option, some, ◌≡◌}
use comfy_ui_account_manager.CloudArchive.Rows.{Db}
use comfy_ui_account_manager.CloudArchive.Enqueue.{Config, Completion, enqueue_task}
use comfy_ui_account_manager.CloudArchive.Artifacts.{
  Uploaded, claim_artifact, artifact_succeeded, artifact_failed, artifact_source_missing,
  renew_artifact_lease, reset_failed,
}
use comfy_ui_account_manager.CloudArchive.Manifests.{
  claim_manifest, manifest_succeeded, manifest_failed, renew_manifest_lease,
}

pub data Step (db : Db) : Db → Type 0 where
  enqueues :
      (config : Config) (now : ℕ) (c : Completion) {db' : Db}
      → enqueue_task config now c db ≡ some db'
      → Step db db'
  claims_artifact :
      (now : ℕ) (claimant : String) (concurrency lease_seconds : ℕ)
      → Step db (claim_artifact now claimant concurrency lease_seconds db).1
  succeeds :
      (now artifact_id : ℕ) (r : Uploaded) → Step db (artifact_succeeded now artifact_id r db)
  fails :
      (now artifact_id : ℕ) (error : String) (max_attempts : ℕ)
      → Step db (artifact_failed now artifact_id error max_attempts db)
  misses :
      (now artifact_id : ℕ) (error : String)
      → Step db (artifact_source_missing now artifact_id error db)
  renews :
      (now artifact_id : ℕ) (claimant : String) (lease_seconds : ℕ)
      → Step db (renew_artifact_lease now artifact_id claimant lease_seconds db).1
  claims_manifest :
      (now : ℕ) (claimant : String) (max_attempts concurrency lease_seconds : ℕ)
      → Step db (claim_manifest now claimant max_attempts concurrency lease_seconds db).1
  archives :
      (now : ℕ) (prompt_id : String) (size_bytes : Option ℕ) (sha256 : Option String)
      → Step db (manifest_succeeded now prompt_id size_bytes sha256 db)
  misfires :
      (now : ℕ) (prompt_id error : String) (max_attempts : ℕ)
      → Step db (manifest_failed now prompt_id error max_attempts db)
  renews_manifest :
      (now : ℕ) (prompt_id claimant : String) (lease_seconds : ℕ)
      → Step db (renew_manifest_lease now prompt_id claimant lease_seconds db).1
  resets : (now : ℕ) (prompt_id : String) → Step db (reset_failed now prompt_id db).1

pub data Reach (start : Db) : Db → Type 0 where
  here : Reach start start
  next : {mid after : Db} → Reach start mid → Step mid after → Reach start after
