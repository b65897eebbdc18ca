-- ===== src/CloudArchive/Completed.antt =====
-- What the status cloud_completed means.
use comfy_ui_account_manager.Base.{
  ℕ, String, true, List, Option, some, ◌≡◌, inl, inr, sym, ap, ◌∙◌, subst, arith, str_eq_iff, Memᴰ,
  Bool-cases,
}
use comfy_ui_account_manager.Base.Table.{count, fetch_one}
use comfy_ui_account_manager.Base.Table.Laws.{count-pos_of_mem, fetch_one-mem}
use comfy_ui_account_manager.Base.Table.Members.{mem-update}
use comfy_ui_account_manager.CloudArchive.Rows.{
  Task, Artifact, Db, is_task, is_part, is_uploaded, empty_db, cloud_completed,
}
use comfy_ui_account_manager.CloudArchive.Artifacts.{is_failed_of}
use comfy_ui_account_manager.CloudArchive.Manifests.{
  is_unfinished, final_status, manifest_succeeded, as_archived,
}
use comfy_ui_account_manager.CloudArchive.Steps.{Reach}
use comfy_ui_account_manager.CloudArchive.Reachable.{Reach-IsConsistent}

final_status-failed : (task : Task) → final_status task ≡ cloud_completed → task.failed_count ≡ 0
unfolding final_status
final_status-failed task e = ground arith

-- No artifact of the prompt is unfinished or failed: each is uploaded.
all-uploaded :
    (prompt_id : String) (artifacts : List Artifact) (a : Artifact)
    → count (is_unfinished prompt_id) artifacts ≡ 0
    → count (is_failed_of prompt_id) artifacts ≡ 0
    → Memᴰ a artifacts
    → is_part prompt_id a ≡ true
    → is_uploaded a.upload_status ≡ true
all-uploaded prompt_id artifacts a open_ones failed_ones m part =
    let settled = count-pos_of_mem (is_unfinished prompt_id) artifacts m in
    let failed = count-pos_of_mem (is_failed_of prompt_id) artifacts m in
    ground (arith, settled, failed, open_ones, failed_ones, part)

archived-status :
    (now : ℕ) (prompt_id : String) (size_bytes : Option ℕ) (sha256 : Option String) (db : Db)
    (task t : Task)
    → fetch_one (is_task prompt_id) db.tasks ≡ some task
    → Memᴰ t (manifest_succeeded now prompt_id size_bytes sha256 db).tasks
    → is_task prompt_id t ≡ true
    → t.cloud_status ≡ final_status task
unfolding manifest_succeeded
archived-status now prompt_id size_bytes sha256 db task t e m h =
    let f = as_archived now size_bytes sha256 (final_status task) in
    let (old, m', here) =
      mem-update (is_task prompt_id) f db.tasks (rw (e, manifest_succeeded) at m) in
    elim (Bool-cases (is_task prompt_id old)) [
      | inl own ↦ ap (λ (x : Task). x.cloud_status) (rw own at here)
      | inr other ↦
          absurd (ground (arith, ap (λ (x : Task). x.prompt_id) (rw other at here), h, other))
    ]

-- In any database that calls reach from the empty one: if no artifact of a stored task is pending or
-- uploading, and `manifest_succeeded` marks the task cloud_completed, then every artifact of the task
-- is uploaded.
pub manifest_succeeded-completed :
    (db : Db) (now : ℕ) (prompt_id : String) (size_bytes : Option ℕ) (sha256 : Option String)
    (task t : Task) (a : Artifact)
    → Reach empty_db db
    → fetch_one (is_task prompt_id) db.tasks ≡ some task
    → count (is_unfinished prompt_id) db.artifacts ≡ 0
    → Memᴰ t (manifest_succeeded now prompt_id size_bytes sha256 db).tasks
    → is_task prompt_id t ≡ true
    → t.cloud_status ≡ cloud_completed
    → Memᴰ a db.artifacts
    → is_part prompt_id a ≡ true
    → is_uploaded a.upload_status ≡ true
manifest_succeeded-completed db now prompt_id size_bytes sha256 task t a r e settled m own done m'
      part =
    let (stored, h) = fetch_one-mem (is_task prompt_id) db.tasks e in
    let i = (str_eq_iff task.prompt_id prompt_id).0 h in
    let counted = (Reach-IsConsistent r).counted task stored (rw i settled) in
    let none_failed =
      final_status-failed task
        (sym (archived-status now prompt_id size_bytes sha256 db task t e m own) ∙ done) in
    all-uploaded prompt_id db.artifacts a settled
      (subst (λ x. count (is_failed_of x) db.artifacts ≡ 0) i (sym counted.failed ∙ none_failed)) m'
      part
