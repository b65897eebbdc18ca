-- ===== src/Scheduler/WellFormed.antt =====
-- What holds of every row of the job table: prompt ids are unique, and every payload decodes.
use comfy_ui_account_manager.Base.{
  ◌≤◌, String, Bool, true, ◌&&◌, List, [], ◌∷◌, ◌++◌, none, ◌≡◌, refl, ap, ◌∙◌, arith, str_eq,
  str_eq_refl, str_eq_iff, subst, Bool-cases, if_ind, &&-eq-true, Memᴰ, length, inl, inr,
}
use comfy_ui_account_manager.Base.Table.{count, update, fetch_one}
use comfy_ui_account_manager.Base.Table.Laws.{
  count-update, count-snoc, count_mono, count-pos_of_mem, fetch_one-none,
}
use comfy_ui_account_manager.Base.Table.Members.{mem-update, mem-snoc}
use comfy_ui_account_manager.Json.{Python}
use comfy_ui_account_manager.Scheduler.Rows.{Job, Db, Settings, is_queued, empty_db}
use comfy_ui_account_manager.Scheduler.Store.{as_lost, has_prompt, runs_prompt, queues_prompt}
use comfy_ui_account_manager.Scheduler.Submit.{is_legacy}
use comfy_ui_account_manager.Scheduler.Claim.{as_running}
use comfy_ui_account_manager.Scheduler.Complete.{may_complete, as_finished}
use comfy_ui_account_manager.Scheduler.Cancel.{as_cancelled}
use comfy_ui_account_manager.Scheduler.Changes.{
  Change, Changes, Reach, unchanged, followed, here, next,
}
use comfy_ui_account_manager.Scheduler.Changes.Calls.{Step-Changes}

pub record IsWellFormed (jobs : List Job) : Type 0 where
  pub unique : (prompt_id : String) → count (has_prompt prompt_id) jobs ≤ 1
  pub decodes : (job : Job) → Memᴰ job jobs → length job.payload ≡ 6

-- An update that leaves the prompt id and the payload of each row.
update-IsWellFormed :
    {jobs : List Job} (p : Job → Bool) (f : Job → Job)
    → ((job : Job) → (f job).prompt_id ≡ job.prompt_id)
    → ((job : Job) → (f job).payload ≡ job.payload)
    → IsWellFormed jobs
    → IsWellFormed (update p f jobs)
update-IsWellFormed {jobs} p f same_id same_payload w = record {
  unique = λ id.
      rw (count-update (has_prompt id) p f jobs (λ job h. ap (λ i. str_eq i id) (same_id job)))
        (w.unique id);
  decodes = λ job m.
      let (old, m', e) = mem-update p f jobs m in
      rw e (
        if_ind (λ (j : Job). length j.payload ≡ 6) (p old)
          (λ h. ap length (same_payload old) ∙ w.decodes old m') (λ h. w.decodes old m'));
}

added_unique :
    (jobs : List Job) (job : Job) (id : String)
    → fetch_one (has_prompt job.prompt_id) jobs ≡ none
    → count (has_prompt id) jobs ≤ 1
    → count (has_prompt id) (jobs ++ job ∷ []) ≤ 1
added_unique jobs job id fresh one = elim (Bool-cases (str_eq job.prompt_id id)) [
  | inl t ↦
      let absent : count (has_prompt id) jobs ≡ 0 =
        subst (λ i. count (has_prompt i) jobs ≡ 0) ((str_eq_iff job.prompt_id id).0 t)
          (fetch_one-none (has_prompt job.prompt_id) jobs fresh) in
      ground (arith, count-snoc (has_prompt id) jobs job, absent)
  | inr n ↦ ground (arith, count-snoc (has_prompt id) jobs job)
]

added-IsWellFormed :
    {jobs : List Job} (job : Job)
    → length job.payload ≡ 6
    → fetch_one (has_prompt job.prompt_id) jobs ≡ none
    → IsWellFormed jobs
    → IsWellFormed (jobs ++ job ∷ [])
added-IsWellFormed {jobs} job six fresh w = record {
  unique = λ id. added_unique jobs job id fresh (w.unique id);
  decodes = λ x m. elim (mem-snoc jobs m) [
    | inl old ↦ w.decodes x old
    | inr e ↦ ap (λ (j : Job). length j.payload) e ∙ six
  ];
}

Change-IsWellFormed :
    {jobs jobs' : List Job} → Change jobs jobs' → IsWellFormed jobs → IsWellFormed jobs'
Change-IsWellFormed (Change.lost now message position prompt_id) w =
    update-IsWellFormed (runs_prompt prompt_id) (as_lost now message position) (λ job. refl)
      (λ job. refl) w
Change-IsWellFormed (Change.finished now succeeded error position prompt_id) w =
    update-IsWellFormed (may_complete prompt_id) (as_finished now succeeded error position)
      (λ job. refl) (λ job. refl) w
Change-IsWellFormed (Change.cancelled now p only) w =
    update-IsWellFormed p (as_cancelled now) (λ job. refl) (λ job. refl) w
Change-IsWellFormed (Change.started now port position class row e one) w =
    update-IsWellFormed (queues_prompt row.prompt_id) (as_running now port position) (λ job. refl)
      (λ job. refl) w
Change-IsWellFormed (Change.added job q six fresh) w = added-IsWellFormed job six fresh w
Change-IsWellFormed (Change.reclassified prompt_id class limit) w =
    update-IsWellFormed (λ job. has_prompt prompt_id job && is_legacy job)
      (λ job. record job { resource_class = class; concurrency_limit = limit }) (λ job. refl)
      (λ job. refl) w

pub Changes-IsWellFormed :
    {jobs jobs' : List Job} → Changes jobs jobs' → IsWellFormed jobs → IsWellFormed jobs'
Changes-IsWellFormed unchanged w = w
Changes-IsWellFormed (followed p c) w = Change-IsWellFormed c (Changes-IsWellFormed p w)

empty-IsWellFormed : IsWellFormed []
unfolding count
empty-IsWellFormed = record { unique = λ id. omega arith; decodes = λ job m. elim m [ ] }

-- In every database that any calls reach from the empty one, no two jobs share a prompt id, and
-- every payload has the six fields that `_decode_item` asks for.
pub Reach-IsWellFormed :
    {py : Python} {settings : Settings} {db : Db}
    → Reach py settings empty_db db
    → IsWellFormed db.jobs
Reach-IsWellFormed here = empty-IsWellFormed
Reach-IsWellFormed (next r s) = Changes-IsWellFormed (Step-Changes s) (Reach-IsWellFormed r)

-- A queued row is the only one that the UPDATE of `claim` finds.
pub queued_unique :
    {jobs : List Job} (row : Job)
    → IsWellFormed jobs
    → Memᴰ row jobs
    → is_queued row.status ≡ true
    → count (queues_prompt row.prompt_id) jobs ≡ 1
queued_unique {jobs} row w m q = omega (
  arith,
  count-pos_of_mem (queues_prompt row.prompt_id) jobs m (ground (arith, str_eq_refl row.prompt_id)),
  count_mono (queues_prompt row.prompt_id) (has_prompt row.prompt_id) jobs
      (λ job h. (&&-eq-true _ _ h).0),
  w.unique row.prompt_id,
)
