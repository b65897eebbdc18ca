-- ===== src/CloudArchive/Tasks.antt =====
-- The calls on tasks keep the counts right: those on manifests, and the INSERT of a task.
use comfy_ui_account_manager.Base.{
  ℕ, ◌≤◌, String, Bool, true, Option, ◌≡◌, inl, inr, refl, sym, subst, arith, str_eq_iff, leb,
  if_ind, Bool-cases, Option-cases, &&-eq-true,
}
use comfy_ui_account_manager.Base.Table.{count, fetch_one}
use comfy_ui_account_manager.Base.Table.Upserts.{mem-upsert, count-upsert-le, count_of_none}
use comfy_ui_account_manager.CloudArchive.Rows.{Task, Artifact, Db, is_task, is_part, with_tasks}
use comfy_ui_account_manager.CloudArchive.Enqueue.{
  Config, Completion, save_task, as_repeated, new_task,
}
use comfy_ui_account_manager.CloudArchive.Artifacts
use comfy_ui_account_manager.CloudArchive.Manifests
use comfy_ui_account_manager.CloudArchive.Counts.{IsConsistent, Counted, kept-Counted}
use comfy_ui_account_manager.CloudArchive.Consistent.{tasks-IsConsistent}

module _ (db : Db) (w : IsConsistent db) where
  pub claim_manifest-IsConsistent :
      (now : ℕ) (claimant : String) (max_attempts concurrency lease_seconds : ℕ)
      → IsConsistent
          (Manifests.claim_manifest now claimant max_attempts concurrency lease_seconds db).1
  unfolding Manifests.claim_manifest Manifests.take_manifest
  claim_manifest-IsConsistent now claimant max_attempts concurrency lease_seconds =
      elim (Option-cases (Manifests.next_manifest now max_attempts db)) [
        | inl e ↦
            rw (e, Manifests.claim_manifest)
              (if_ind (λ (out : Option Task × Db). IsConsistent out.1)
                (leb concurrency (Artifacts.active now db)) (λ _. w) (λ _. w))
        | inr (row, e) ↦
            rw (e, Manifests.claim_manifest)
              (if_ind (λ (out : Option Task × Db). IsConsistent out.1)
                (leb concurrency (Artifacts.active now db)) (λ _. w)
                (λ _.
                  tasks-IsConsistent db w (is_task row.prompt_id)
                    (Manifests.as_claimed now claimant lease_seconds) (λ t. refl) (λ t. refl)
                    (λ t. refl)))
      ]

  pub manifest_succeeded-IsConsistent :
      (now : ℕ) (prompt_id : String) (size_bytes : Option ℕ) (sha256 : Option String)
      → IsConsistent (Manifests.manifest_succeeded now prompt_id size_bytes sha256 db)
  unfolding Manifests.manifest_succeeded
  manifest_succeeded-IsConsistent now prompt_id size_bytes sha256 =
      elim (Option-cases (fetch_one (is_task prompt_id) db.tasks)) [
        | inl e ↦ rw (e, Manifests.manifest_succeeded) w
        | inr (task, e) ↦
            rw (e, Manifests.manifest_succeeded)
              (tasks-IsConsistent db w (is_task prompt_id)
                (Manifests.as_archived now size_bytes sha256 (Manifests.final_status task))
                (λ t. refl) (λ t. refl) (λ t. refl))
      ]

  pub manifest_failed-IsConsistent :
      (now : ℕ) (prompt_id error : String) (max_attempts : ℕ)
      → IsConsistent (Manifests.manifest_failed now prompt_id error max_attempts db)
  unfolding Manifests.manifest_failed
  manifest_failed-IsConsistent now prompt_id error max_attempts =
      elim (Option-cases (fetch_one (is_task prompt_id) db.tasks)) [
        | inl e ↦ rw (e, Manifests.manifest_failed) w
        | inr (task, e) ↦
            rw (e, Manifests.manifest_failed)
              (tasks-IsConsistent db w (is_task prompt_id)
                (Manifests.as_unarchived now error (leb max_attempts task.manifest_attempt_count)
                  task.manifest_attempt_count)
                (λ t. refl) (λ t. refl) (λ t. refl))
      ]

  pub renew_manifest-IsConsistent :
      (now : ℕ) (prompt_id claimant : String) (lease_seconds : ℕ)
      → IsConsistent (Manifests.renew_manifest_lease now prompt_id claimant lease_seconds db).1
  unfolding Manifests.renew_manifest_lease
  renew_manifest-IsConsistent now prompt_id claimant lease_seconds =
      tasks-IsConsistent db w (Manifests.holds_manifest prompt_id claimant)
        (Manifests.as_renewed now lease_seconds) (λ t. refl) (λ t. refl) (λ t. refl)

  -- A prompt without a task has no artifacts.
  no-artifacts :
      (q : String → Artifact → Bool) (prompt_id : String)
      → ((a : Artifact) → q prompt_id a ≡ true → is_part prompt_id a ≡ true)
      → count (is_task prompt_id) db.tasks ≡ 0
      → count (q prompt_id) db.artifacts ≡ 0
  no-artifacts q prompt_id part absent = count_of_none (q prompt_id) db.artifacts λ a m.
      elim (Bool-cases (q prompt_id a)) [
        | inl t ↦
            let i = (str_eq_iff a.prompt_id prompt_id).0 (part a t) in
            absurd (
              omega
                (arith, absent, subst (λ x. 1 ≤ count (is_task x) db.tasks) i (w.keyed.owned a m)))
        | inr e ↦ e
      ]

  pub save_task-IsConsistent :
      (config : Config) (now : ℕ) (c : Completion)
      → IsConsistent (with_tasks db (save_task config now c db.tasks))
  unfolding save_task
  save_task-IsConsistent config now c = record {
    keyed = record {
      ids = w.keyed.ids;
      fresh = w.keyed.fresh;
      owned = λ a m. omega (
        arith,
        w.keyed.owned a m,
        count-upsert-le (is_task a.prompt_id) (is_task c.prompt_id) (as_repeated config now c)
            (new_task config now c) db.tasks (λ t. refl),
      );
    };
    counted = λ t m.
        elim (mem-upsert (is_task c.prompt_id) (as_repeated config now c) (new_task config now c)
          db.tasks m) [
            | inl old ↦ w.counted t old
            | inr (inl (old, m', e)) ↦ subst (Counted db.artifacts) (sym e) (
                kept-Counted db.artifacts old (as_repeated config now c old) refl refl refl
                  (w.counted old m'))
            | inr (inr (e, absent)) ↦ subst (Counted db.artifacts) (sym e) (λ h. record {
              uploaded = sym (
                  no-artifacts Artifacts.is_uploaded_of c.prompt_id (λ a k. (&&-eq-true _ _ k).0)
                    absent);
              failed = sym (
                  no-artifacts Artifacts.is_failed_of c.prompt_id (λ a k. (&&-eq-true _ _ k).0)
                    absent);
            })
          ];
  }
