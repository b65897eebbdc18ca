-- ===== src/CloudArchive/Consistent.antt =====
-- Every call of the cloud archive's store keeps the counts of its tasks right.
use comfy_ui_account_manager.Base.{
  ℕ, ◌≤◌, ◌<◌, String, Bool, true, Option, some, ◌≡◌, inl, inr, refl, sym, ap, subst, arith, str_eq,
  str_eq_iff, leb, ◌==◌, if_ind, Memᴰ, Option-cases,
}
use comfy_ui_account_manager.Base.Table.{count, update, fetch_one}
use comfy_ui_account_manager.Base.Table.Laws.{count-update, mem_unique, fetch_one-mem}
use comfy_ui_account_manager.Base.Table.Members.{mem-update}
use comfy_ui_account_manager.CloudArchive.Rows.{Task, Artifact, Db, is_task, has_id, uploading}
use comfy_ui_account_manager.CloudArchive.Artifacts
use comfy_ui_account_manager.CloudArchive.Counts.{
  IsKeyed, IsConsistent, Counted, IsSettledAlike, unsettling-IsSettledAlike, same-IsSettledAlike,
  other-IsSettledAlike, tasks-Counted, alike-Counted,
}

module _ (db : Db) (w : IsKeyed db) where
  artifacts-IsKeyed :
      (p : Artifact → Bool) (f : Artifact → Artifact)
      → ((a : Artifact) → (f a).id ≡ a.id)
      → ((a : Artifact) → (f a).prompt_id ≡ a.prompt_id)
      → IsKeyed (record db { artifacts = update p f db.artifacts })
  artifacts-IsKeyed p f same_id same = record {
    ids = λ id.
        rw (count-update (has_id id) p f db.artifacts (λ a _. ap (λ i. i == id) (same_id a)))
          (w.ids id);
    fresh = λ a m.
        let (old, m', e) = mem-update p f db.artifacts m in
        subst (λ (x : Artifact). x.id < db.next_id) (sym e)
          (if_ind (λ (x : Artifact). x.id < db.next_id) (p old)
            (λ _. omega (arith, same_id old, w.fresh old m')) (λ _. w.fresh old m'));
    owned = λ a m.
        let (old, m', e) = mem-update p f db.artifacts m in
        subst (λ (x : Artifact). 1 ≤ count (is_task x.prompt_id) db.tasks) (sym e)
          (if_ind (λ (x : Artifact). 1 ≤ count (is_task x.prompt_id) db.tasks) (p old)
            (λ _. rw (same old) (w.owned old m')) (λ _. w.owned old m'));
  }

  tasks-IsKeyed :
      (p : Task → Bool) (f : Task → Task)
      → ((t : Task) → (f t).prompt_id ≡ t.prompt_id)
      → IsKeyed (record db { tasks = update p f db.tasks })
  tasks-IsKeyed p f same = record {
    ids = w.ids;
    fresh = w.fresh;
    owned = λ a m.
        rw
          (count-update (is_task a.prompt_id) p f db.tasks
            (λ t _. ap (λ i. str_eq i a.prompt_id) (same t)))
          (w.owned a m);
  }

module _ (db : Db) (w : IsConsistent db) where
  -- An update of artifacts after which the counts are as right as before.
  pub artifacts-IsConsistent :
      (p : Artifact → Bool) (f : Artifact → Artifact)
      → ((a : Artifact) → (f a).id ≡ a.id)
      → ((a : Artifact) → (f a).prompt_id ≡ a.prompt_id)
      → ((prompt_id : String) → IsSettledAlike prompt_id db.artifacts (update p f db.artifacts))
      → IsConsistent (record db { artifacts = update p f db.artifacts })
  artifacts-IsConsistent p f same_id same alike = record {
    keyed = artifacts-IsKeyed db w.keyed p f same_id same;
    counted = λ t m.
        alike-Counted db.artifacts (update p f db.artifacts) t (alike t.prompt_id) (w.counted t m);
  }

  pub tasks-IsConsistent :
      (p : Task → Bool) (f : Task → Task)
      → ((t : Task) → (f t).prompt_id ≡ t.prompt_id)
      → ((t : Task) → (f t).uploaded_count ≡ t.uploaded_count)
      → ((t : Task) → (f t).failed_count ≡ t.failed_count)
      → IsConsistent (record db { tasks = update p f db.tasks })
  tasks-IsConsistent p f same up down = record {
    keyed = tasks-IsKeyed db w.keyed p f same;
    counted = tasks-Counted p f same up down w.counted;
  }

  -- The artifacts that an update by id changes belong to the row that was read.
  only-row :
      (artifact_id : ℕ) (row : Artifact)
      → fetch_one (has_id artifact_id) db.artifacts ≡ some row
      → (a : Artifact) → Memᴰ a db.artifacts
      → has_id artifact_id a ≡ true
      → a.prompt_id ≡ row.prompt_id
  only-row artifact_id row e a m h =
      let (m', h') = fetch_one-mem (has_id artifact_id) db.artifacts e in
      ap (λ (x : Artifact). x.prompt_id)
        (mem_unique (has_id artifact_id) db.artifacts (w.keyed.ids artifact_id) m h m' h')

  -- After the refresh, a task of the row's prompt has the counts, and another one those of before.
  refreshed-Counted :
      (now artifact_id : ℕ) (row : Artifact) (f : Artifact → Artifact)
      → fetch_one (has_id artifact_id) db.artifacts ≡ some row
      → ((a : Artifact) → (f a).prompt_id ≡ a.prompt_id)
      → let artifacts = update (has_id artifact_id) f db.artifacts in
        (t : Task)
        → Memᴰ t (
            update
              (is_task row.prompt_id)
              (Artifacts.with_counts now row.prompt_id artifacts)
              db.tasks)
        → Counted artifacts t
  refreshed-Counted now artifact_id row f e same t m =
      let artifacts = update (has_id artifact_id) f db.artifacts in
      let g = Artifacts.with_counts now row.prompt_id artifacts in
      let (old, m', here) = mem-update (is_task row.prompt_id) g db.tasks m in
      subst (Counted artifacts) (sym here) (
        if_ind (Counted artifacts) (is_task row.prompt_id old)
          (λ own h.
            let i = (str_eq_iff old.prompt_id row.prompt_id).0 own in
            record {
              uploaded = ap (λ x. count (Artifacts.is_uploaded_of x) artifacts) (sym i);
              failed = ap (λ x. count (Artifacts.is_failed_of x) artifacts) (sym i);
            })
          (λ ne.
            alike-Counted db.artifacts artifacts old
              (other-IsSettledAlike old.prompt_id row.prompt_id (has_id artifact_id) f db.artifacts
                same (only-row artifact_id row e)
                (ground (
                  arith,
                  ne,
                  str_eq_iff old.prompt_id row.prompt_id,
                  str_eq_iff row.prompt_id old.prompt_id,
                )))
              (w.counted old m')))

  pub settle-IsConsistent :
      (now artifact_id : ℕ) (f : Artifact → Artifact → Artifact)
      → ((row a : Artifact) → (f row a).id ≡ a.id)
      → ((row a : Artifact) → (f row a).prompt_id ≡ a.prompt_id)
      → IsConsistent (Artifacts.settle now artifact_id f db)
  unfolding Artifacts.settle Artifacts.refresh_counts
  settle-IsConsistent now artifact_id f same_id same =
      elim (Option-cases (fetch_one (has_id artifact_id) db.artifacts)) [
        | inl e ↦ rw (e, Artifacts.settle) w
        | inr (row, e) ↦
            rw (e, Artifacts.settle)
              (record {
                keyed =
                    tasks-IsKeyed
                      (record db { artifacts = update (has_id artifact_id) (f row) db.artifacts })
                      (artifacts-IsKeyed db w.keyed (has_id artifact_id) (f row) (same_id row)
                        (same row))
                      (is_task row.prompt_id)
                      (Artifacts.with_counts now row.prompt_id
                        (update (has_id artifact_id) (f row) db.artifacts))
                      (λ t. refl);
                counted = refreshed-Counted now artifact_id row (f row) e (same row);
              })
      ]

  pub renewed-IsConsistent :
      (now artifact_id : ℕ) (claimant : String) (lease_seconds : ℕ)
      → IsConsistent (Artifacts.renew_artifact_lease now artifact_id claimant lease_seconds db).1
  unfolding Artifacts.renew_artifact_lease
  renewed-IsConsistent now artifact_id claimant lease_seconds =
      artifacts-IsConsistent (Artifacts.holds_artifact artifact_id claimant)
        (Artifacts.as_renewed now lease_seconds) (λ a. refl) (λ a. refl)
        (λ prompt_id.
          same-IsSettledAlike prompt_id (Artifacts.holds_artifact artifact_id claimant)
            (Artifacts.as_renewed now lease_seconds) db.artifacts (λ a. refl) (λ a. refl))

module _ (db : Db) (w : IsConsistent db) where
  take-IsConsistent :
      (now : ℕ) (claimant : String) (lease_seconds : ℕ) (row : Artifact)
      → IsConsistent (Artifacts.take_artifact now claimant lease_seconds row db).1
  unfolding Artifacts.take_artifact
  take-IsConsistent now claimant lease_seconds row =
      let f = Artifacts.as_claimed now claimant lease_seconds in
      tasks-IsConsistent (record db { artifacts = update (has_id row.id) f db.artifacts })
        (artifacts-IsConsistent db w (has_id row.id) f (λ a. refl) (λ a. refl)
          (λ id.
            unsettling-IsSettledAlike id (has_id row.id) f db.artifacts (λ a. refl) (λ a. refl)))
        (is_task row.prompt_id) (λ t. record t { cloud_status = uploading; updated_at = now })
        (λ t. refl) (λ t. refl) (λ t. refl)

  pub claim_artifact-IsConsistent :
      (now : ℕ) (claimant : String) (concurrency lease_seconds : ℕ)
      → IsConsistent (Artifacts.claim_artifact now claimant concurrency lease_seconds db).1
  unfolding Artifacts.claim_artifact
  claim_artifact-IsConsistent now claimant concurrency lease_seconds =
      elim (Option-cases (Artifacts.next_artifact now db.artifacts)) [
        | inl e ↦
            rw (e, Artifacts.claim_artifact)
              (if_ind (λ (out : Option Artifact × Db). IsConsistent out.1)
                (leb concurrency (Artifacts.active now db)) (λ _. w) (λ _. w))
        | inr (row, e) ↦
            rw (e, Artifacts.claim_artifact)
              (if_ind (λ (out : Option Artifact × Db). IsConsistent out.1)
                (leb concurrency (Artifacts.active now db)) (λ _. w)
                (λ _. take-IsConsistent now claimant lease_seconds row))
      ]

  pub reset-IsConsistent :
      (now : ℕ) (prompt_id : String) → IsConsistent (Artifacts.reset_failed now prompt_id db).1
  unfolding Artifacts.reset_failed
  reset-IsConsistent now prompt_id =
      let p = Artifacts.is_failed_of prompt_id in
      let db' : Db = record db { artifacts = update p (Artifacts.as_reset now) db.artifacts } in
      tasks-IsConsistent db'
        (artifacts-IsConsistent db w p (Artifacts.as_reset now) (λ a. refl) (λ a. refl)
          (λ id.
            unsettling-IsSettledAlike id p (Artifacts.as_reset now) db.artifacts (λ a. refl)
              (λ a. refl)))
        (is_task prompt_id) (Artifacts.as_restarted now) (λ t. refl) (λ t. refl) (λ t. refl)
