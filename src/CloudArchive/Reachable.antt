-- ===== src/CloudArchive/Reachable.antt =====
-- The counts of the cloud archive after any calls, and what a completed archive means.
use comfy_ui_account_manager.Base.{
  ℕ, ◌+◌, ◌≤◌, true, List, [], ◌∷◌, ◌++◌, some, ◌≡◌, inl, inr, refl, sym, ap, subst, arith,
  str_eq_refl, leb, ◌==◌, ==_iff, Bool-cases, Option-cases,
}
use comfy_ui_account_manager.Base.Table.{count, fetch_one}
use comfy_ui_account_manager.Base.Table.Laws.{count-snoc}
use comfy_ui_account_manager.Base.Table.Members.{mem-snoc}
use comfy_ui_account_manager.Base.Table.Upserts.{upsert-stores, count_of_none}
use comfy_ui_account_manager.CloudArchive.Rows.{Artifact, Db, is_task, has_id, with_tasks, empty_db}
use comfy_ui_account_manager.CloudArchive.Enqueue.{
  Config, Completion, Found, save_artifact, save_artifacts, save_task, enqueue_task, as_found,
  as_repeated, is_foreign, is_numbered, new_artifact, new_task,
}
use comfy_ui_account_manager.CloudArchive.Artifacts
use comfy_ui_account_manager.CloudArchive.Counts.{
  IsConsistent, same-IsSettledAlike, added-IsSettledAlike, alike-Counted,
}
use comfy_ui_account_manager.CloudArchive.Consistent.{
  artifacts-IsConsistent, settle-IsConsistent, renewed-IsConsistent, claim_artifact-IsConsistent,
  reset-IsConsistent,
}
use comfy_ui_account_manager.CloudArchive.Steps.{
  Step, Reach, here, next, enqueues, claims_artifact, succeeds, fails, misses, renews,
  claims_manifest, archives, misfires, renews_manifest, resets,
}
use comfy_ui_account_manager.CloudArchive.Tasks.{
  claim_manifest-IsConsistent, manifest_succeeded-IsConsistent, manifest_failed-IsConsistent,
  renew_manifest-IsConsistent, save_task-IsConsistent,
}

module _ (db : Db) (w : IsConsistent db) (config : Config) (now : ℕ) (c : Completion) where
  -- The task of the artifacts that are added is stored.
  abbrev HasTask : Db → Type 0
  HasTask s = 1 ≤ count (is_task c.prompt_id) s.tasks

  fresh-id : count (has_id db.next_id) db.artifacts ≡ 0
  fresh-id =
      count_of_none (has_id db.next_id) db.artifacts (λ a m. ground (arith, w.keyed.fresh a m))

  added_artifact-IsConsistent :
      (ordinal : ℕ) (a : Found)
      → HasTask db
      → IsConsistent (record db {
        artifacts = db.artifacts ++ new_artifact config now c ordinal a db.next_id ∷ [];
        next_id = db.next_id + 1;
      })
  added_artifact-IsConsistent ordinal a stored =
      let new = new_artifact config now c ordinal a db.next_id in
      record {
        keyed = record {
          ids = λ id.
              ground (arith, count-snoc (has_id id) db.artifacts new, w.keyed.ids id, one_id id);
          fresh = λ x m. elim (mem-snoc db.artifacts m) [
            | inl old ↦ omega (arith, w.keyed.fresh x old)
            | inr e ↦ omega (arith, ap (λ (y : Artifact). y.id) e)
          ];
          owned = λ x m. elim (mem-snoc db.artifacts m) [
            | inl old ↦ w.keyed.owned x old
            | inr e ↦
                subst (λ (y : Artifact). 1 ≤ count (is_task y.prompt_id) db.tasks) (sym e) stored
          ];
        };
        counted = λ t m.
            alike-Counted db.artifacts (db.artifacts ++ new ∷ []) t
              (added-IsSettledAlike t.prompt_id db.artifacts new refl) (w.counted t m);
      }
    where
      one_id : (id : ℕ) → (db.next_id == id) ≡ true → count (has_id id) db.artifacts ≡ 0
      one_id id e =
          subst (λ i. count (has_id i) db.artifacts ≡ 0) ((==_iff db.next_id id).0 e) fresh-id

  save_artifact-IsConsistent :
      (ordinal : ℕ) (a : Found)
      → HasTask db
      → IsConsistent (save_artifact config now c ordinal a db)
  unfolding save_artifact
  save_artifact-IsConsistent ordinal a stored =
      elim (Option-cases (fetch_one (is_numbered c.prompt_id ordinal) db.artifacts)) [
        | inl e ↦ rw (e, save_artifact) (added_artifact-IsConsistent ordinal a stored)
        | inr (old, e) ↦
            rw (e, save_artifact)
              (artifacts-IsConsistent db w (is_numbered c.prompt_id ordinal)
                (as_found config now c ordinal a) (λ x. refl) (λ x. refl)
                (λ id.
                  same-IsSettledAlike id (is_numbered c.prompt_id ordinal)
                    (as_found config now c ordinal a) db.artifacts (λ x. refl) (λ x. refl)))
      ]

save_artifact-tasks :
    (config : Config) (now : ℕ) (c : Completion) (ordinal : ℕ) (a : Found) (db : Db)
    → (save_artifact config now c ordinal a db).tasks ≡ db.tasks
unfolding save_artifact
save_artifact-tasks config now c ordinal a db = ground arith

save_artifacts-IsConsistent :
    (config : Config) (now : ℕ) (c : Completion) (ordinal : ℕ) (found : List Found) (db : Db)
    → 1 ≤ count (is_task c.prompt_id) db.tasks
    → IsConsistent db
    → IsConsistent (save_artifacts config now c ordinal found db)
unfolding save_artifacts
save_artifacts-IsConsistent config now c ordinal [] db stored w = w
save_artifacts-IsConsistent config now c ordinal (a ∷ rest) db stored w =
    save_artifacts-IsConsistent config now c (ordinal + 1) rest
      (save_artifact config now c ordinal a db)
      (rw (save_artifact-tasks config now c ordinal a db) stored)
      (save_artifact-IsConsistent db w config now c ordinal a stored)

some-injective : {a b : Db} → some a ≡ some b → a ≡ b
some-injective e = cc

enqueue_task-IsConsistent :
    (config : Config) (now : ℕ) (c : Completion) (db : Db) {db' : Db}
    → enqueue_task config now c db ≡ some db'
    → IsConsistent db
    → IsConsistent db'
unfolding enqueue_task save_task
enqueue_task-IsConsistent config now c db e w =
    elim (Bool-cases (is_foreign config (fetch_one (is_task c.prompt_id) db.tasks))) [
      | inl foreign ↦ absurd (ground (arith, foreign))
      | inr ours ↦ subst IsConsistent (some-injective (rw (ours, enqueue_task) at e)) (
          save_artifacts-IsConsistent config now c 1 c.artifacts
            (with_tasks db (save_task config now c db.tasks))
            (upsert-stores (is_task c.prompt_id) (as_repeated config now c) (new_task config now c)
              db.tasks (λ t. refl) (str_eq_refl c.prompt_id))
            (save_task-IsConsistent db w config now c))
    ]

Step-IsConsistent : {db db' : Db} → Step db db' → IsConsistent db → IsConsistent db'
unfolding Artifacts.artifact_succeeded Artifacts.artifact_failed Artifacts.artifact_source_missing
Step-IsConsistent {db} (enqueues config now c e) w = enqueue_task-IsConsistent config now c db e w
Step-IsConsistent {db} (claims_artifact now claimant concurrency lease_seconds) w =
    claim_artifact-IsConsistent db w now claimant concurrency lease_seconds
Step-IsConsistent {db} (succeeds now id r) w =
    settle-IsConsistent db w now id (λ row. Artifacts.as_uploaded now r) (λ row a. refl)
      (λ row a. refl)
Step-IsConsistent {db} (fails now id error max_attempts) w =
    settle-IsConsistent db w now id
      (λ row. Artifacts.as_failed now error (leb max_attempts row.attempt_count) row.attempt_count)
      (λ row a. refl) (λ row a. refl)
Step-IsConsistent {db} (misses now id error) w =
    settle-IsConsistent db w now id (λ row. Artifacts.as_missing now error) (λ row a. refl)
      (λ row a. refl)
Step-IsConsistent {db} (renews now id claimant lease_seconds) w =
    renewed-IsConsistent db w now id claimant lease_seconds
Step-IsConsistent {db} (claims_manifest now claimant max_attempts concurrency lease_seconds) w =
    claim_manifest-IsConsistent db w now claimant max_attempts concurrency lease_seconds
Step-IsConsistent {db} (archives now prompt_id size_bytes sha256) w =
    manifest_succeeded-IsConsistent db w now prompt_id size_bytes sha256
Step-IsConsistent {db} (misfires now prompt_id error max_attempts) w =
    manifest_failed-IsConsistent db w now prompt_id error max_attempts
Step-IsConsistent {db} (renews_manifest now prompt_id claimant lease_seconds) w =
    renew_manifest-IsConsistent db w now prompt_id claimant lease_seconds
Step-IsConsistent {db} (resets now prompt_id) w = reset-IsConsistent db w now prompt_id

empty-IsConsistent : IsConsistent empty_db
unfolding count
empty-IsConsistent = record {
  keyed = record { ids = λ id. omega arith; fresh = λ a m. elim m [ ]; owned = λ a m. elim m [ ] };
  counted = λ t m. elim m [ ];
}

-- Whatever calls are made on an empty store: artifact ids are unique and below the next one, every
-- artifact has a task, and once no artifact of a task is pending or uploading, the uploaded and the
-- failed count of the task are the numbers of its uploaded and of its failed or missing artifacts.
pub Reach-IsConsistent : {db : Db} → Reach empty_db db → IsConsistent db
Reach-IsConsistent here = empty-IsConsistent
Reach-IsConsistent (next r s) = Step-IsConsistent s (Reach-IsConsistent r)
