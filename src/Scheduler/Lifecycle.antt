-- ===== src/Scheduler/Lifecycle.antt =====
-- The life of one job: its identity never changes, and its status moves along a fixed diagram.
use comfy_ui_account_manager.Base.{
  Bool, true, false, ◌&&◌, ◌||◌, List, [], ◌∷◌, ◌≡◌, ◌⊎◌, refl, arith, if◌then◌else◌, Memᴰ, if_ind,
  &&-eq-true, subst, sym,
}
use comfy_ui_account_manager.Base.Table.{update}
use comfy_ui_account_manager.Base.Table.Members.{update-mem, mem-append_left}
use comfy_ui_account_manager.Json.{Python}
use comfy_ui_account_manager.Scheduler.Rows.{
  Job, Db, Settings, Status, queued, running, completed, failed, cancelled, worker_lost, is_queued,
  is_running, is_worker_lost,
}
use comfy_ui_account_manager.Scheduler.Store.{as_lost, has_prompt, runs_prompt, queues_prompt}
use comfy_ui_account_manager.Scheduler.Submit.{is_legacy}
use comfy_ui_account_manager.Scheduler.Complete.{may_complete, as_finished}
use comfy_ui_account_manager.Scheduler.Cancel.{as_cancelled}
use comfy_ui_account_manager.Scheduler.Claim.{as_running}
use comfy_ui_account_manager.Scheduler.Changes.{
  Change, Changes, Reach, unchanged, followed, here, next,
}
use comfy_ui_account_manager.Scheduler.Changes.Calls.{Step-Changes}

infix 40 ◌⟶◌ ◌⟶*◌
-- The diagram of the states.
pub data ◌⟶◌ : Status → Status → Type 0 where
  start : queued ⟶ running
  cancel : queued ⟶ cancelled
  succeed : running ⟶ completed
  fail : running ⟶ failed
  lose : running ⟶ worker_lost
  late_success : worker_lost ⟶ completed
  late_failure : worker_lost ⟶ failed

pub data ◌⟶*◌ (s : Status) : Status → Type 0 where
  stay : s ⟶* s
  step : {t u : Status} → s ⟶* t → t ⟶ u → s ⟶* u

⟶*-trans : {s t u : Status} → s ⟶* t → t ⟶* u → s ⟶* u
⟶*-trans p stay = p
⟶*-trans p (step q e) = step (⟶*-trans p q) e

-- The columns that no method changes.
pub record IsSameJob (earlier later : Job) : Type 0 where
  pub sequence : later.sequence ≡ earlier.sequence
  pub prompt_id : later.prompt_id ≡ earlier.prompt_id
  pub owner_id : later.owner_id ≡ earlier.owner_id
  pub client_id : later.client_id ≡ earlier.client_id
  pub priority : later.priority ≡ earlier.priority
  pub payload : later.payload ≡ earlier.payload
  pub submitted_at : later.submitted_at ≡ earlier.submitted_at

-- `later` is the same job as `earlier`, further along the diagram.
pub record Follows (earlier later : Job) : Type 0 where
  pub same : IsSameJob earlier later
  pub progress : earlier.status ⟶* later.status

Follows-refl : (job : Job) → Follows job job
Follows-refl job = record { same = ground arith; progress = stay }

Follows-trans : {a b c : Job} → Follows a b → Follows b c → Follows a c
Follows-trans f g = record {
  same = ground (arith, f.same, g.same);
  progress = ⟶*-trans f.progress g.progress;
}

-- Every job of the first table is followed by one of the second.
abbrev pub Keeps : List Job → List Job → Type 0
Keeps jobs jobs' =
    (job : Job) → Memᴰ job jobs → (later : Job) × Memᴰ later jobs' × Follows job later

-- An update keeps all jobs if it moves each one that it changes along an edge, or not at all.
update-Keeps :
    (p : Job → Bool) (f : Job → Job) (jobs : List Job)
    → ((job : Job) → p job ≡ true → Follows job (f job))
    → Keeps jobs (update p f jobs)
update-Keeps p f jobs moves job m = (
  if p job then f job else job,
  update-mem p f jobs m,
  if_ind (Follows job) (p job) (moves job) (λ _. Follows-refl job),
)

running-lose : (s : Status) → is_running s ≡ true → s ⟶* worker_lost
running-lose running h = step stay lose
running-lose _ h = absurd (ground arith)

queued-start : (s : Status) → is_queued s ≡ true → s ⟶* running
queued-start queued h = step stay start
queued-start _ h = absurd (ground arith)

queued-cancel : (s : Status) → is_queued s ≡ true → s ⟶* cancelled
queued-cancel queued h = step stay cancel
queued-cancel _ h = absurd (ground arith)

open-finish :
    (s : Status) (succeeded : Bool)
    → (is_running s || is_worker_lost s) ≡ true
    → s ⟶* (if succeeded then completed else failed)
open-finish running true h = step stay succeed
open-finish running false h = step stay fail
open-finish worker_lost true h = step stay late_success
open-finish worker_lost false h = step stay late_failure
open-finish _ _ h = absurd (ground arith)

Change-Keeps : {jobs jobs' : List Job} → Change jobs jobs' → Keeps jobs jobs'
Change-Keeps {jobs} (Change.lost now message position prompt_id) =
    update-Keeps (runs_prompt prompt_id) (as_lost now message position) jobs λ job h. record {
      same = ground arith;
      progress = running-lose job.status (&&-eq-true _ _ h).1;
    }
Change-Keeps {jobs} (Change.finished now succeeded error position prompt_id) =
    update-Keeps (may_complete prompt_id) (as_finished now succeeded error position) jobs λ job h.
      record {
        same = ground arith;
        progress = open-finish job.status succeeded (&&-eq-true _ _ h).1;
      }
Change-Keeps {jobs} (Change.cancelled now p only) =
    update-Keeps p (as_cancelled now) jobs
      λ job h. record { same = ground arith; progress = queued-cancel job.status (only job h) }
Change-Keeps {jobs} (Change.started now port position class row e one) =
    update-Keeps (queues_prompt row.prompt_id) (as_running now port position) jobs λ job h. record {
      same = ground arith;
      progress = queued-start job.status (&&-eq-true _ _ h).1;
    }
Change-Keeps {jobs} (Change.added new q six fresh) =
    λ job m. (job, mem-append_left jobs (new ∷ []) m, Follows-refl job)
Change-Keeps {jobs} (Change.reclassified prompt_id class limit) =
    update-Keeps (λ job. has_prompt prompt_id job && is_legacy job)
      (λ job. record job { resource_class = class; concurrency_limit = limit }) jobs
      λ job h. record { same = ground arith; progress = stay }

Changes-Keeps : {jobs jobs' : List Job} → Changes jobs jobs' → Keeps jobs jobs'
Changes-Keeps unchanged job m = (job, m, Follows-refl job)
Changes-Keeps (followed p c) job m =
    let (mid, m', f) = Changes-Keeps p job m in
    let (later, m'', g) = Change-Keeps c mid m' in (later, m'', Follows-trans f g)

-- Whatever is called, in any order and by any process, a stored job stays stored: its sequence,
-- prompt, owner, client, priority, payload and submission time do not change, and its status moves
-- only along the diagram.
pub Reach-Keeps :
    {py : Python} {settings : Settings} {start after : Db}
    → Reach py settings start after
    → (job : Job) → Memᴰ job start.jobs
    → (later : Job) × Memᴰ later after.jobs × Follows job later
Reach-Keeps here job m = (job, m, Follows-refl job)
Reach-Keeps (next r s) job m =
    let (mid, m', f) = Reach-Keeps r job m in
    let (later, m'', g) = Changes-Keeps (Step-Changes s) mid m' in (later, m'', Follows-trans f g)

-- The states that the diagram does not leave.
abbrev pub IsFinal : Status → Type 0
IsFinal s = (s ≡ completed) ⊎ (s ≡ failed) ⊎ (s ≡ cancelled)

IsFinal-⟶ : {s t : Status} → s ⟶ t → ¬ IsFinal s
IsFinal-⟶ start h = ground arith
IsFinal-⟶ cancel h = ground arith
IsFinal-⟶ succeed h = ground arith
IsFinal-⟶ fail h = ground arith
IsFinal-⟶ lose h = ground arith
IsFinal-⟶ late_success h = ground arith
IsFinal-⟶ late_failure h = ground arith

IsFinal-⟶* : {s t : Status} → s ⟶* t → IsFinal s → t ≡ s
IsFinal-⟶* stay h = refl
IsFinal-⟶* {s} (step p e) h = absurd (IsFinal-⟶ e (subst IsFinal (sym (IsFinal-⟶* p h)) h))

-- A completed, failed or cancelled job keeps that status, whatever is called afterwards.
pub final_stays :
    {py : Python} {settings : Settings} {start after : Db} (job : Job)
    → Reach py settings start after
    → Memᴰ job start.jobs
    → IsFinal job.status
    → (later : Job) × Memᴰ later after.jobs
      × (later.prompt_id ≡ job.prompt_id)
      × (later.status ≡ job.status)
final_stays job r m h =
    let (later, m', f) = Reach-Keeps r job m in
    (later, m', f.same.prompt_id, IsFinal-⟶* f.progress h)
