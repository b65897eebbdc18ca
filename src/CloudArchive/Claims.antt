-- ===== src/CloudArchive/Claims.antt =====
-- What a claim of the cloud archive's store gives.
use comfy_ui_account_manager.Base.{
  ℕ, ◌+◌, ◌≤◌, ◌<◌, String, true, false, some, ◌≡◌, inl, inr, refl, ap, arith, str_eq_iff, ltb, leb,
  ==_iff, Bool-cases, Option-cases,
}
use comfy_ui_account_manager.Base.Table.{count, update}
use comfy_ui_account_manager.Base.Table.Laws.{count-update, count-update-le_add, fetch_one-mem}
use comfy_ui_account_manager.Base.Table.Members.{mem-update}
use comfy_ui_account_manager.Base.Table.Order.{first-mem}
use comfy_ui_account_manager.CloudArchive.Rows.{
  Task, Artifact, Db, is_task, has_id, empty_db, uploading,
}
use comfy_ui_account_manager.CloudArchive.Artifacts.{
  active, is_active_artifact, is_active_manifest, next_artifact, take_artifact, claim_artifact,
  as_claimed,
}
use comfy_ui_account_manager.CloudArchive.Manifests
use comfy_ui_account_manager.CloudArchive.Counts.{IsKeyed}
use comfy_ui_account_manager.CloudArchive.Steps.{Reach}
use comfy_ui_account_manager.CloudArchive.Reachable.{Reach-IsConsistent}

-- Taking an artifact makes at most one more upload active.
take_artifact-active :
    (now : ℕ) (claimant : String) (lease_seconds : ℕ) (row : Artifact) (db : Db)
    → IsKeyed db
    → active now (take_artifact now claimant lease_seconds row db).1 ≤ active now db + 1
unfolding take_artifact
take_artifact-active now claimant lease_seconds row db w = omega (
  arith,
  count-update-le_add (is_active_artifact now) (has_id row.id)
      (as_claimed now claimant lease_seconds) db.artifacts,
  w.ids row.id,
  count-update (is_active_manifest now) (is_task row.prompt_id)
      (λ t. record t { cloud_status = uploading; updated_at = now }) db.tasks (λ t _. refl),
)

-- In any database that calls reach from the empty one: if `claim_artifact` answers with an artifact,
-- then at that time at most `concurrency` uploads, of artifacts and manifests together, are active.
pub claim_artifact-active :
    (now : ℕ) (claimant : String) (concurrency lease_seconds : ℕ) (db : Db) (a : Artifact)
    → Reach empty_db db
    → (claim_artifact now claimant concurrency lease_seconds db).0 ≡ some a
    → active now (claim_artifact now claimant concurrency lease_seconds db).1 ≤ concurrency
unfolding claim_artifact
claim_artifact-active now claimant concurrency lease_seconds db a r e =
    elim (Bool-cases (leb concurrency (active now db))) [
      | inl full ↦ absurd (ground (arith, full))
      | inr room ↦ elim (Option-cases (next_artifact now db.artifacts)) [
        | inl n ↦ absurd (ground (arith, n, room))
        | inr (row, n) ↦
            rw (room, n)
              (omega (
                arith,
                take_artifact-active now claimant lease_seconds row db (Reach-IsConsistent r).keyed,
                below concurrency (active now db) room,
              ))
      ]
    ]
  where
    below : (n m : ℕ) → leb n m ≡ false → m < n
    below n m h = ground arith

next_manifest-ready :
    (now max_attempts : ℕ) (db : Db) (row : Task)
    → Manifests.next_manifest now max_attempts db ≡ some row
    → Manifests.is_ready now max_attempts db.artifacts row ≡ true
unfolding Manifests.next_manifest
next_manifest-ready now max_attempts db row e =
    (first-mem (λ a b. ltb a.created_at b.created_at)
      (Manifests.is_ready now max_attempts db.artifacts) db.tasks e).1

take_manifest-task :
    (now : ℕ) (claimant : String) (lease_seconds : ℕ) (row t : Task) (db : Db)
    → (Manifests.take_manifest now claimant lease_seconds row db).0 ≡ some t
    → (t.prompt_id ≡ row.prompt_id) × (t.manifest_lease_owner ≡ some claimant)
unfolding Manifests.take_manifest
take_manifest-task now claimant lease_seconds row t db e =
    let f = Manifests.as_claimed now claimant lease_seconds in
    let (m, own) =
      fetch_one-mem (is_task row.prompt_id) (update (is_task row.prompt_id) f db.tasks) e in
    let (old, m', here) = mem-update (is_task row.prompt_id) f db.tasks m in
    let i = (str_eq_iff t.prompt_id row.prompt_id).0 own in
    elim (Bool-cases (is_task row.prompt_id old)) [
      | inl old_own ↦ (i, ap (λ (x : Task). x.manifest_lease_owner) (rw old_own at here))
      | inr other ↦
          absurd (ground (arith, ap (λ (x : Task). x.prompt_id) (rw other at here), own, other))
    ]

-- If `claim_manifest` answers with a task, the claimant has the lease of its manifest, and no
-- artifact of the task is pending or uploading.
pub claim_manifest-ready :
    (now : ℕ) (claimant : String) (max_attempts concurrency lease_seconds : ℕ) (db : Db) (t : Task)
    → (Manifests.claim_manifest now claimant max_attempts concurrency lease_seconds db).0 ≡ some t
    → (t.manifest_lease_owner ≡ some claimant)
      × (count (Manifests.is_unfinished t.prompt_id) db.artifacts ≡ 0)
unfolding Manifests.claim_manifest
claim_manifest-ready now claimant max_attempts concurrency lease_seconds db t e =
    elim (Bool-cases (leb concurrency (active now db))) [
      | inl full ↦ absurd (ground (arith, full))
      | inr room ↦ elim (Option-cases (Manifests.next_manifest now max_attempts db)) [
        | inl n ↦ absurd (ground (arith, n, room))
        | inr (row, n) ↦
            let taken : (Manifests.take_manifest now claimant lease_seconds row db).0 ≡ some t =
              rw (room, n) at e in
            let (i, lease) = take_manifest-task now claimant lease_seconds row t db taken in
            let ready = next_manifest-ready now max_attempts db row n in
            (
              lease,
              rw i (
                  ground (
                    arith,
                    ready,
                    ==_iff (count (Manifests.is_unfinished row.prompt_id) db.artifacts) 0,
                  )),
            )
      ]
    ]
