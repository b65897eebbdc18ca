-- ===== src/CloudArchive/Counts.antt =====
-- The counts of a task against its artifacts.
use comfy_ui_account_manager.Base.{
  ℕ, ◌≤◌, ◌<◌, String, Bool, true, false, List, [], ◌∷◌, ◌++◌, ◌≡◌, refl, sym, ap, ◌∙◌, subst,
  arith, str_eq, if_ind, Memᴰ,
}
use comfy_ui_account_manager.Base.Table.{count, update}
use comfy_ui_account_manager.Base.Table.Laws.{count-update, count-snoc}
use comfy_ui_account_manager.Base.Table.Members.{mem-update}
use comfy_ui_account_manager.CloudArchive.Rows.{Task, Artifact, Db, is_task, has_id, is_terminal}
use comfy_ui_account_manager.CloudArchive.Artifacts.{is_uploaded_of, is_failed_of}
use comfy_ui_account_manager.CloudArchive.Manifests.{is_unfinished}

-- The counts that a task keeps are those of its artifacts.
pub record IsCounted (artifacts : List Artifact) (t : Task) : Type 0 where
  pub uploaded : t.uploaded_count ≡ count (is_uploaded_of t.prompt_id) artifacts
  pub failed : t.failed_count ≡ count (is_failed_of t.prompt_id) artifacts

-- So it is once no artifact of the task is unfinished.
abbrev pub Counted : List Artifact → Task → Type 0
Counted artifacts t = count (is_unfinished t.prompt_id) artifacts ≡ 0 → IsCounted artifacts t

-- The numbers and the tasks of the artifacts are as the keys of the tables ask for.
pub record IsKeyed (db : Db) : Type 0 where
  pub ids : (id : ℕ) → count (has_id id) db.artifacts ≤ 1
  pub fresh : (a : Artifact) → Memᴰ a db.artifacts → a.id < db.next_id
  pub owned : (a : Artifact) → Memᴰ a db.artifacts → 1 ≤ count (is_task a.prompt_id) db.tasks

-- Once no artifact of a task is unfinished, its counts are right.
pub record IsConsistent (db : Db) : Type 0 where
  pub keyed : IsKeyed db
  pub counted : (t : Task) → Memᴰ t db.tasks → Counted db.artifacts t

-- If no artifact of the prompt is unfinished afterwards, none was before, and the other two numbers
-- are the same.
abbrev pub IsSettledAlike : String → List Artifact → List Artifact → Type 0
IsSettledAlike prompt_id before after =
    count (is_unfinished prompt_id) after ≡ 0
    → (count (is_unfinished prompt_id) before ≡ 0)
      × (count (is_uploaded_of prompt_id) after ≡ count (is_uploaded_of prompt_id) before)
      × (count (is_failed_of prompt_id) after ≡ count (is_failed_of prompt_id) before)

-- An update that leaves no changed artifact settled.
pub unsettling-IsSettledAlike :
    (prompt_id : String) (p : Artifact → Bool) (f : Artifact → Artifact) (xs : List Artifact)
    → ((a : Artifact) → (f a).prompt_id ≡ a.prompt_id)
    → ((a : Artifact) → is_terminal (f a).upload_status ≡ false)
    → IsSettledAlike prompt_id xs (update p f xs)
unfolding count update
unsettling-IsSettledAlike prompt_id p f [] same open_again h = (refl, refl, refl)
unsettling-IsSettledAlike prompt_id p f (x ∷ xs) same open_again h =
    let ih = unsettling-IsSettledAlike prompt_id p f xs same open_again in
    let part = ap (λ i. str_eq i prompt_id) (same x) in ground (arith, part, open_again x, ih)

-- An update that leaves the prompts and the states.
pub same-IsSettledAlike :
    (prompt_id : String) (p : Artifact → Bool) (f : Artifact → Artifact) (xs : List Artifact)
    → ((a : Artifact) → (f a).prompt_id ≡ a.prompt_id)
    → ((a : Artifact) → (f a).upload_status ≡ a.upload_status)
    → IsSettledAlike prompt_id xs (update p f xs)
same-IsSettledAlike prompt_id p f xs same state h = (
  sym (count-update (is_unfinished prompt_id) p f xs (λ a _. rw (same a, state a) refl)) ∙ h,
  count-update (is_uploaded_of prompt_id) p f xs (λ a _. rw (same a, state a) refl),
  count-update (is_failed_of prompt_id) p f xs (λ a _. rw (same a, state a) refl),
)

pub added-IsSettledAlike :
    (prompt_id : String) (xs : List Artifact) (a : Artifact)
    → is_terminal a.upload_status ≡ false
    → IsSettledAlike prompt_id xs (xs ++ a ∷ [])
added-IsSettledAlike prompt_id xs a new h = ground (
  arith,
  count-snoc (is_unfinished prompt_id) xs a,
  count-snoc (is_uploaded_of prompt_id) xs a,
  count-snoc (is_failed_of prompt_id) xs a,
)

-- The artifacts of another prompt.
pub other-IsSettledAlike :
    (prompt_id other : String) (p : Artifact → Bool) (f : Artifact → Artifact) (xs : List Artifact)
    → ((a : Artifact) → (f a).prompt_id ≡ a.prompt_id)
    → ((a : Artifact) → Memᴰ a xs → p a ≡ true → a.prompt_id ≡ other)
    → str_eq other prompt_id ≡ false
    → IsSettledAlike prompt_id xs (update p f xs)
unfolding count update
other-IsSettledAlike prompt_id other p f [] same only ne h = (refl, refl, refl)
other-IsSettledAlike prompt_id other p f (x ∷ xs) same only ne h =
    let ih = other-IsSettledAlike prompt_id other p f xs same (λ a m. only a (Memᴰ.tail m)) ne in
    let part = ap (λ i. str_eq i prompt_id) (same x) in
    let theirs : p x ≡ true → str_eq x.prompt_id prompt_id ≡ str_eq other prompt_id =
      λ t. ap (λ i. str_eq i prompt_id) (only x (Memᴰ.head refl) t) in
    ground (arith, part, theirs, ih)

-- Tasks: an update that leaves the prompt and the two counts.
pub kept-Counted :
    (artifacts : List Artifact) (t t' : Task)
    → t'.prompt_id ≡ t.prompt_id
    → t'.uploaded_count ≡ t.uploaded_count
    → t'.failed_count ≡ t.failed_count
    → Counted artifacts t
    → Counted artifacts t'
kept-Counted artifacts t t' same up down c h =
    let k = c (ap (λ i. count (is_unfinished i) artifacts) (sym same) ∙ h) in
    record {
      uploaded = up ∙ k.uploaded ∙ ap (λ i. count (is_uploaded_of i) artifacts) (sym same);
      failed = down ∙ k.failed ∙ ap (λ i. count (is_failed_of i) artifacts) (sym same);
    }

pub tasks-Counted :
    {artifacts : List Artifact} {tasks : List Task} (p : Task → Bool) (f : Task → Task)
    → ((t : Task) → (f t).prompt_id ≡ t.prompt_id)
    → ((t : Task) → (f t).uploaded_count ≡ t.uploaded_count)
    → ((t : Task) → (f t).failed_count ≡ t.failed_count)
    → ((t : Task) → Memᴰ t tasks → Counted artifacts t)
    → (t : Task) → Memᴰ t (update p f tasks)
    → Counted artifacts t
tasks-Counted {artifacts} {tasks} p f same up down counted t m =
    let (old, m', e) = mem-update p f tasks m in
    subst (Counted artifacts) (sym e) (
      if_ind (Counted artifacts) (p old)
        (λ _. kept-Counted artifacts old (f old) (same old) (up old) (down old) (counted old m'))
        (λ _. counted old m'))

-- Artifacts that are alike for a task's prompt.
pub alike-Counted :
    (before after : List Artifact) (t : Task)
    → IsSettledAlike t.prompt_id before after
    → Counted before t
    → Counted after t
alike-Counted before after t alike c h =
    let (unfinished, up, down) = alike h in
    let k = c unfinished in record { uploaded = k.uploaded ∙ sym up; failed = k.failed ∙ sym down }
