-- ===== src/CloudArchive/Manifests.antt =====
-- The methods of utils/cloud_archive.py on manifests: a task's manifest waits for its artifacts.
use comfy_ui_account_manager.Base.{
  ℕ, String, Bool, not, ◌&&◌, ◌||◌, List, Option, none, some, ◌+◌, ◌*◌, ltb, leb, ◌==◌, holds,
  head?, if◌then◌else◌,
}
use comfy_ui_account_manager.Base.Table.{select, count, fetch_one, update, order_by}
use comfy_ui_account_manager.CloudArchive.Rows.{
  State, pending, uploading, uploaded, cloud_completed, cloud_failed, no_artifacts, failed,
  is_pending, is_uploading, is_terminal, Task, Artifact, Db, with_tasks, second, is_task, is_part,
  due, retry_delay,
}
use comfy_ui_account_manager.CloudArchive.Artifacts.{active}

-- An artifact of the prompt that is still to be uploaded.
abbrev pub is_unfinished : String → Artifact → Bool
is_unfinished prompt_id a = is_part prompt_id a && not (is_terminal a.upload_status)

-- The WHERE clause of `claim_manifest`.
abbrev pub is_ready : ℕ → ℕ → List Artifact → Task → Bool
is_ready now max_attempts artifacts t =
    (is_pending t.manifest_upload_status
      || (is_uploading t.manifest_upload_status && due t.manifest_lease_expires_at now))
    && (ltb t.manifest_attempt_count max_attempts
        && (due t.manifest_next_attempt_at now && count (is_unfinished t.prompt_id) artifacts == 0))

unfoldable pub next_manifest : ℕ → ℕ → Db → Option Task
next_manifest now max_attempts db = head? (
    order_by (λ a b. ltb a.created_at b.created_at)
      (select (is_ready now max_attempts db.artifacts) db.tasks))

abbrev pub as_claimed : ℕ → String → ℕ → Task → Task
as_claimed now claimant lease_seconds t = record t {
  manifest_upload_status = uploading;
  manifest_attempt_count = t.manifest_attempt_count + 1;
  manifest_lease_owner = some claimant;
  manifest_lease_expires_at = some (now + lease_seconds * second);
  updated_at = now;
}

unfoldable pub take_manifest : ℕ → String → ℕ → Task → Db → Option Task × Db
take_manifest now claimant lease_seconds row db =
    let tasks = update (is_task row.prompt_id) (as_claimed now claimant lease_seconds) db.tasks in
    (fetch_one (is_task row.prompt_id) tasks, with_tasks db tasks)

unfoldable pub claim_manifest : ℕ → String → ℕ → ℕ → ℕ → Db → Option Task × Db
unfolding next_manifest take_manifest
claim_manifest now claimant max_attempts concurrency lease_seconds db =
    if leb concurrency (active now db)
    then (none, db)
    else elim (next_manifest now max_attempts db) [
      | none ↦ (none, db)
      | some row ↦ take_manifest now claimant lease_seconds row db
    ]

-- The cloud status that the counts give.
unfoldable pub final_status : Task → State
final_status task =
    if task.artifact_count == 0
    then no_artifacts
    else if ltb 0 task.failed_count
    then cloud_failed
    else cloud_completed

abbrev pub as_archived : ℕ → Option ℕ → Option String → State → Task → Task
as_archived now size_bytes sha256 status t = record t {
  cloud_status = status;
  manifest_upload_status = uploaded;
  manifest_size_bytes = size_bytes;
  manifest_sha256 = sha256;
  manifest_next_attempt_at = none;
  manifest_lease_owner = none;
  manifest_lease_expires_at = none;
  last_error = none;
  completed_at = some now;
  updated_at = now;
}

-- `size_bytes` and `sha256` are the values of the dict `result`.
unfoldable pub manifest_succeeded : ℕ → String → Option ℕ → Option String → Db → Db
unfolding final_status
manifest_succeeded now prompt_id size_bytes sha256 db =
    elim (fetch_one (is_task prompt_id) db.tasks) [
      | none ↦ db
      | some task ↦ with_tasks db (
          update (is_task prompt_id) (as_archived now size_bytes sha256 (final_status task))
            db.tasks)
    ]

abbrev pub as_unarchived : ℕ → String → Bool → ℕ → Task → Task
as_unarchived now error terminal attempts t = record t {
  cloud_status = (if terminal then cloud_failed else uploading);
  manifest_upload_status = (if terminal then failed else pending);
  manifest_next_attempt_at = (if terminal then none else some (now + retry_delay attempts));
  manifest_lease_owner = none;
  manifest_lease_expires_at = none;
  last_error = some error;
  updated_at = now;
  completed_at = (if terminal then some now else none);
}

unfoldable pub manifest_failed : ℕ → String → String → ℕ → Db → Db
manifest_failed now prompt_id error max_attempts db =
    elim (fetch_one (is_task prompt_id) db.tasks) [
      | none ↦ db
      | some task ↦
          let attempts = task.manifest_attempt_count in
          with_tasks db (
            update (is_task prompt_id)
              (as_unarchived now error (leb max_attempts attempts) attempts) db.tasks)
    ]

-- WHERE prompt_id = ? AND manifest_upload_status = ? AND manifest_lease_owner = ?
abbrev pub holds_manifest : String → String → Task → Bool
holds_manifest prompt_id claimant t =
    is_task prompt_id t
    && (is_uploading t.manifest_upload_status && holds t.manifest_lease_owner claimant)

abbrev pub as_renewed : ℕ → ℕ → Task → Task
as_renewed now lease_seconds t = record t {
  manifest_lease_expires_at = some (now + lease_seconds * second);
  updated_at = now;
}

unfoldable pub renew_manifest_lease : ℕ → String → String → ℕ → Db → Bool × Db
renew_manifest_lease now prompt_id claimant lease_seconds db = (
  not (count (holds_manifest prompt_id claimant) db.tasks == 0),
  with_tasks db
      (update (holds_manifest prompt_id claimant) (as_renewed now lease_seconds) db.tasks),
)

unfoldable pub task : String → Db → Option Task
task prompt_id db = fetch_one (is_task prompt_id) db.tasks
