-- ===== src/Scheduler/Limits.antt =====
-- The concurrency limits: which jobs may run together, whatever the calls and their order.
use comfy_ui_account_manager.Base.{
  ℕ, ◌≤◌, ◌<◌, String, Bool, true, false, not, ◌&&◌, List, [], some, ◌≡◌, ◌⊎◌, refl, arith, str_eq,
  str_eq_iff, str_eq_refl, leb, ◌==◌, Memᴰ,
}
use comfy_ui_account_manager.Base.Table.{count, update}
use comfy_ui_account_manager.Base.Table.Laws.{
  count-update-le, count_mono, count-snoc, count-update_one,
}
use comfy_ui_account_manager.Base.Table.Order.{first-mem}
use comfy_ui_account_manager.Json.{Python}
use comfy_ui_account_manager.Scheduler.Rows.{Job, Db, Settings, is_running, is_queued, empty_db}
use comfy_ui_account_manager.Scheduler.Logs.{Position}
use comfy_ui_account_manager.Scheduler.Store.{queues_prompt}
use comfy_ui_account_manager.Scheduler.Claim.{
  before, shares, has_room, is_eligible, next_job, as_running,
}
use comfy_ui_account_manager.Scheduler.Changes.{
  Change, Changes, Step, Reach, unchanged, followed, lost, finished, cancelled, started, added,
  reclassified, here, next,
}
use comfy_ui_account_manager.Scheduler.Changes.Calls.{Step-Changes}

-- A running job of this owner and class, whose limit is not 0 and at most `n`.
abbrev pub is_limited : String → String → ℕ → Job → Bool
is_limited owner_id resource_class n job =
    is_running job.status
    && (str_eq job.owner_id owner_id
        && (str_eq job.resource_class resource_class
            && (not (job.concurrency_limit == 0) && leb job.concurrency_limit n)))

-- For every owner, class and number `n`, at most `n` running jobs have a limit of at most `n`.
pub record IsWithinLimits (jobs : List Job) : Type 0 where
  pub at :
      (owner_id resource_class : String) (n : ℕ)
      → count (is_limited owner_id resource_class n) jobs ≤ n

-- An update after which no changed job runs.
stop-IsWithinLimits :
    {jobs : List Job} (p : Job → Bool) (f : Job → Job)
    → ((job : Job) → p job ≡ true → is_running (f job).status ≡ false)
    → IsWithinLimits jobs
    → IsWithinLimits (update p f jobs)
stop-IsWithinLimits {jobs} p f stops w = record {
  at = λ o c n. omega (
    arith,
    count-update-le (is_limited o c n) p f jobs (λ job h k. ground (arith, stops job h)),
    w.at o c n,
  );
}

-- The query of `claim` finds a queued row with room.
pub next_job-mem :
    (resource_class : String) (jobs : List Job) {row : Job}
    → next_job resource_class jobs ≡ some row
    → Memᴰ row jobs × (is_eligible resource_class jobs row ≡ true)
unfolding next_job
next_job-mem resource_class jobs e = first-mem before (is_eligible resource_class jobs) jobs e

eligible-room :
    (resource_class : String) (jobs : List Job) (row : Job)
    → is_eligible resource_class jobs row ≡ true
    → (is_queued row.status ≡ true)
      × ((row.concurrency_limit ≡ 0) ⊎ (count (shares row) jobs < row.concurrency_limit))
unfolding is_eligible has_room
eligible-room resource_class jobs row h = ground arith

-- The running jobs with a limit share the owner and the class of a row that they are counted for.
limited-le-shares :
    (owner_id resource_class : String) (n : ℕ) (row : Job) (jobs : List Job)
    → str_eq row.owner_id owner_id ≡ true
    → str_eq row.resource_class resource_class ≡ true
    → count (is_limited owner_id resource_class n) jobs ≤ count (shares row) jobs
limited-le-shares owner_id resource_class n row jobs p q =
    count_mono (is_limited owner_id resource_class n) (shares row) jobs λ x h. ground (
      arith,
      str_eq_iff x.owner_id owner_id,
      str_eq_iff row.owner_id owner_id,
      str_eq_iff x.owner_id row.owner_id,
      str_eq_iff x.resource_class resource_class,
      str_eq_iff row.resource_class resource_class,
      str_eq_iff x.resource_class row.resource_class,
    )

start-le :
    (now port : ℕ) (position : Position) (class : String) (jobs : List Job) (row : Job)
    → Memᴰ row jobs
    → is_eligible class jobs row ≡ true
    → count (queues_prompt row.prompt_id) jobs ≡ 1
    → IsWithinLimits jobs
    → (o c : String) (n : ℕ)
    → count
        (is_limited o c n)
        (update (queues_prompt row.prompt_id) (as_running now port position) jobs)
      ≤ n
start-le now port position class jobs row m eligible one w o c n =
    let room = eligible-room class jobs row eligible in
    let exact =
      count-update_one (is_limited o c n) (queues_prompt row.prompt_id)
        (as_running now port position) jobs m (ground (arith, str_eq_refl row.prompt_id)) one in
    ground (arith, room, exact, w.at o c n, limited-le-shares o c n row jobs)

-- One change keeps the limits.
Change-IsWithinLimits :
    {jobs jobs' : List Job} → Change jobs jobs' → IsWithinLimits jobs → IsWithinLimits jobs'
Change-IsWithinLimits (lost now message position prompt_id) w =
    stop-IsWithinLimits _ _ (λ job h. refl) w
Change-IsWithinLimits (finished now true error position prompt_id) w =
    stop-IsWithinLimits _ _ (λ job h. refl) w
Change-IsWithinLimits (finished now false error position prompt_id) w =
    stop-IsWithinLimits _ _ (λ job h. refl) w
Change-IsWithinLimits (cancelled now p only) w = stop-IsWithinLimits _ _ (λ job h. refl) w
Change-IsWithinLimits {jobs} (started now port position class row e one) w = record {
  at =
      let (m, eligible) = next_job-mem class jobs e in
      start-le now port position class jobs row m eligible one w;
}
Change-IsWithinLimits {jobs} (added job q six fresh) w = record {
  at = λ o c n. ground (arith, w.at o c n, count-snoc (is_limited o c n) jobs job);
}
Change-IsWithinLimits (reclassified prompt_id class limit) w =
    stop-IsWithinLimits _ _ (λ job h. ground arith) w

Changes-IsWithinLimits :
    {jobs jobs' : List Job} → Changes jobs jobs' → IsWithinLimits jobs → IsWithinLimits jobs'
Changes-IsWithinLimits unchanged w = w
Changes-IsWithinLimits (followed p c) w = Change-IsWithinLimits c (Changes-IsWithinLimits p w)

-- Every method that writes, called by any process at any time, keeps the limits.
pub Step-IsWithinLimits :
    {py : Python} {settings : Settings} {db db' : Db}
    → Step py settings db db'
    → IsWithinLimits db.jobs
    → IsWithinLimits db'.jobs
Step-IsWithinLimits s w = Changes-IsWithinLimits (Step-Changes s) w

empty-IsWithinLimits : IsWithinLimits []
unfolding count
empty-IsWithinLimits = record { at = λ o c n. omega arith }

-- In every database that any calls reach from the empty one, for every owner, class and number n,
-- at most n running jobs of the owner and class have a concurrency limit of at most n (and not 0).
pub Reach-IsWithinLimits :
    {py : Python} {settings : Settings} {db : Db}
    → Reach py settings empty_db db
    → IsWithinLimits db.jobs
Reach-IsWithinLimits here = empty-IsWithinLimits
Reach-IsWithinLimits (next r s) = Step-IsWithinLimits s (Reach-IsWithinLimits r)
