-- ===== src/CloudArchive/Artifacts.antt =====
-- The methods of utils/cloud_archive.py on artifacts: claims, results, leases and a reset.
use comfy_ui_account_manager.Base.{
  ℕ, String, Bool, not, ◌&&◌, ◌||◌, List, Option, none, some, ◌+◌, ◌*◌, ltb, leb, ◌==◌, holds,
  head?, if◌then◌else◌,
}
use comfy_ui_account_manager.Base.Table.{select, count, fetch_one, update, order_by}
use comfy_ui_account_manager.CloudArchive.Rows.{
  pending, uploading, uploaded, cloud_failed, source_missing, is_pending, is_uploading, is_uploaded,
  is_failed, Task, Artifact, Db, with_tasks, second, is_task, has_id, is_part, after, due,
  retry_delay,
}

abbrev pub is_active_artifact : ℕ → Artifact → Bool
is_active_artifact now a = is_uploading a.upload_status && after a.lease_expires_at now

abbrev pub is_active_manifest : ℕ → Task → Bool
is_active_manifest now t =
    is_uploading t.manifest_upload_status && after t.manifest_lease_expires_at now

-- active_artifacts + active_manifests
abbrev pub active : ℕ → Db → ℕ
active now db =
    count (is_active_artifact now) db.artifacts + count (is_active_manifest now) db.tasks

-- The WHERE clause of `claim_artifact`.
abbrev pub is_claimable : ℕ → Artifact → Bool
is_claimable now a =
    (is_pending a.upload_status || (is_uploading a.upload_status && due a.lease_expires_at now))
    && due a.next_attempt_at now

unfoldable pub next_artifact : ℕ → List Artifact → Option Artifact
next_artifact now artifacts =
    head? (order_by (λ a b. ltb a.id b.id) (select (is_claimable now) artifacts))

abbrev pub as_claimed : ℕ → String → ℕ → Artifact → Artifact
as_claimed now claimant lease_seconds a = record a {
  upload_status = uploading;
  attempt_count = a.attempt_count + 1;
  lease_owner = some claimant;
  lease_expires_at = some (now + lease_seconds * second);
  updated_at = now;
}

-- The two UPDATEs, and the row that is read again.
unfoldable pub take_artifact : ℕ → String → ℕ → Artifact → Db → Option Artifact × Db
take_artifact now claimant lease_seconds row db =
    let artifacts = update (has_id row.id) (as_claimed now claimant lease_seconds) db.artifacts in
    (
      fetch_one (has_id row.id) artifacts,
      record db {
        artifacts = artifacts;
        tasks =
            update (is_task row.prompt_id)
              (λ t. record t { cloud_status = uploading; updated_at = now }) db.tasks;
      },
    )

unfoldable pub claim_artifact : ℕ → String → ℕ → ℕ → Db → Option Artifact × Db
unfolding next_artifact take_artifact
claim_artifact now claimant concurrency lease_seconds db =
    if leb concurrency (active now db) then (none, db) else elim (next_artifact now db.artifacts) [
      | none ↦ (none, db)
      | some row ↦ take_artifact now claimant lease_seconds row db
    ]

-- WHERE prompt_id = ?, with the status
abbrev pub is_uploaded_of : String → Artifact → Bool
is_uploaded_of prompt_id a = is_part prompt_id a && is_uploaded a.upload_status

abbrev pub is_failed_of : String → Artifact → Bool
is_failed_of prompt_id a = is_part prompt_id a && is_failed a.upload_status

abbrev pub with_counts : ℕ → String → List Artifact → Task → Task
with_counts now prompt_id artifacts t = record t {
  artifact_count = count (is_part prompt_id) artifacts;
  uploaded_count = count (is_uploaded_of prompt_id) artifacts;
  failed_count = count (is_failed_of prompt_id) artifacts;
  updated_at = now;
}

unfoldable pub refresh_counts : ℕ → String → Db → Db
refresh_counts now prompt_id db =
    with_tasks db (update (is_task prompt_id) (with_counts now prompt_id db.artifacts) db.tasks)

-- What the three methods that end an upload share: nothing without the row; else the UPDATE and
-- `_refresh_counts`.
unfoldable pub settle : ℕ → ℕ → (Artifact → Artifact → Artifact) → Db → Db
unfolding refresh_counts
settle now artifact_id f db = elim (fetch_one (has_id artifact_id) db.artifacts) [
  | none ↦ db
  | some row ↦
      refresh_counts now row.prompt_id
        (record db { artifacts = update (has_id artifact_id) (f row) db.artifacts })
]

-- The dict of a successful upload.
pub record Uploaded : Type 0 where
  pub mime_type : Option String
  pub size_bytes : Option ℕ
  pub sha256 : Option String
  pub etag : Option String
  pub oss_crc64 : Option String

abbrev pub as_uploaded : ℕ → Uploaded → Artifact → Artifact
as_uploaded now r a = record a {
  upload_status = uploaded;
  mime_type = r.mime_type;
  size_bytes = r.size_bytes;
  sha256 = r.sha256;
  etag = r.etag;
  oss_crc64 = r.oss_crc64;
  lease_owner = none;
  lease_expires_at = none;
  next_attempt_at = none;
  last_error = none;
  uploaded_at = some now;
  updated_at = now;
}

unfoldable pub artifact_succeeded : ℕ → ℕ → Uploaded → Db → Db
unfolding settle
artifact_succeeded now artifact_id r = settle now artifact_id (λ row. as_uploaded now r)

abbrev pub as_failed : ℕ → String → Bool → ℕ → Artifact → Artifact
as_failed now error terminal attempts a = record a {
  upload_status = (if terminal then cloud_failed else pending);
  next_attempt_at = (if terminal then none else some (now + retry_delay attempts));
  lease_owner = none;
  lease_expires_at = none;
  last_error = some error;
  updated_at = now;
}

unfoldable pub artifact_failed : ℕ → ℕ → String → ℕ → Db → Db
unfolding settle
artifact_failed now artifact_id error max_attempts =
    settle now artifact_id
      (λ row. as_failed now error (leb max_attempts row.attempt_count) row.attempt_count)

abbrev pub as_missing : ℕ → String → Artifact → Artifact
as_missing now error a = record a {
  upload_status = source_missing;
  next_attempt_at = none;
  lease_owner = none;
  lease_expires_at = none;
  last_error = some error;
  updated_at = now;
}

unfoldable pub artifact_source_missing : ℕ → ℕ → String → Db → Db
unfolding settle
artifact_source_missing now artifact_id error = settle now artifact_id (λ row. as_missing now error)

-- WHERE id = ? AND upload_status = ? AND lease_owner = ?
abbrev pub holds_artifact : ℕ → String → Artifact → Bool
holds_artifact artifact_id claimant a =
    has_id artifact_id a && (is_uploading a.upload_status && holds a.lease_owner claimant)

abbrev pub as_renewed : ℕ → ℕ → Artifact → Artifact
as_renewed now lease_seconds a = record a {
  lease_expires_at = some (now + lease_seconds * second);
  updated_at = now;
}

unfoldable pub renew_artifact_lease : ℕ → ℕ → String → ℕ → Db → Bool × Db
renew_artifact_lease now artifact_id claimant lease_seconds db = (
  not (count (holds_artifact artifact_id claimant) db.artifacts == 0),
  record db {
    artifacts =
        update (holds_artifact artifact_id claimant) (as_renewed now lease_seconds) db.artifacts;
  },
)

-- The artifacts of a prompt, ORDER BY ordinal.
unfoldable pub artifacts : String → Db → List Artifact
artifacts prompt_id db =
    order_by (λ a b. ltb a.ordinal b.ordinal) (select (is_part prompt_id) db.artifacts)

-- WHERE prompt_id = ? AND upload_status IN (CLOUD_FAILED, SOURCE_MISSING)
abbrev pub as_reset : ℕ → Artifact → Artifact
as_reset now a = record a {
  upload_status = pending;
  attempt_count = 0;
  next_attempt_at = some now;
  lease_owner = none;
  lease_expires_at = none;
  last_error = none;
  updated_at = now;
}

abbrev pub as_restarted : ℕ → Task → Task
as_restarted now t = record t {
  cloud_status = pending;
  manifest_upload_status = pending;
  manifest_attempt_count = 0;
  manifest_next_attempt_at = some now;
  manifest_lease_owner = none;
  manifest_lease_expires_at = none;
  last_error = none;
  completed_at = none;
  updated_at = now;
}

unfoldable pub reset_failed : ℕ → String → Db → Bool × Db
reset_failed now prompt_id db = (
  not (count (is_failed_of prompt_id) db.artifacts == 0)
      || not (count (is_task prompt_id) db.tasks == 0),
  record db {
    artifacts = update (is_failed_of prompt_id) (as_reset now) db.artifacts;
    tasks = update (is_task prompt_id) (as_restarted now) db.tasks;
  },
)
