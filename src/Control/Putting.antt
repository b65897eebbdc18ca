-- ===== src/Control/Putting.antt =====
-- A user who puts an item into the queue sees it there, where the scheduler keeps the queue.
use comfy_ui_account_manager.Base.{
  ℕ, zero, suc, Bool, true, List, [], ◌∷◌, ◌++◌, some, ◌≡◌, refl, sym, ap, ◌∙◌, subst, arith, Memᴰ,
  map, take, length, leb, Bool-cases, Option-cases, inl, inr, str_eq, str_eq_refl,
}
use comfy_ui_account_manager.Base.Table.{select, order_by, fetch_one}
use comfy_ui_account_manager.Base.Table.Members.{select-mem, order_by-mem}
use comfy_ui_account_manager.Json.{Json, Python}
use comfy_ui_account_manager.Scheduler.Rows.{
  Job, Db, Settings, ok, ◌>>=◌, queued, >>=-eq-ok, ok-injective,
}
use comfy_ui_account_manager.Scheduler.Settings.{encode_item}
use comfy_ui_account_manager.Scheduler.Store.{has_prompt}
use comfy_ui_account_manager.Scheduler.Submit.{Submission, enqueue, new_job, insert_job}
use comfy_ui_account_manager.Scheduler.Claim.{before}
use comfy_ui_account_manager.Scheduler.Queries.{is_pending}
use comfy_ui_account_manager.Scheduler.Visible.{items, is_waiting, visible_items-deal}
use comfy_ui_account_manager.Scheduler.Changes.{enqueues}
use comfy_ui_account_manager.Scheduler.Changes.Calls.{Step-Changes}
use comfy_ui_account_manager.Scheduler.WellFormed.{IsWellFormed, Changes-IsWellFormed}
use comfy_ui_account_manager.Control.{
  Site, Control, unwrap_queue_item, get_current_user_id, is_admin_user,
}
use comfy_ui_account_manager.Control.Queue.{
  with_scheduler, submission_of, user_queue_put, user_queue_get_current_queue,
}

take_twice : (n : ℕ) (item : List Json) → take n (take n item) ≡ take n item
take_twice zero item = refl
take_twice (suc n) [] = refl
take_twice (suc n) (v ∷ item) = ap (◌∷◌ v) (take_twice n item)

take-unwrap_queue_item : (item : List Json) → take 6 (unwrap_queue_item item) ≡ take 6 item
unfolding unwrap_queue_item
take-unwrap_queue_item item = elim (Bool-cases (leb 7 (length item))) [
  | inl long ↦ rw (long, unwrap_queue_item) (take_twice 6 item)
  | inr short ↦ rw (short, unwrap_queue_item) refl
]

-- The job that `enqueue` stores.
record IsStored (r : Submission) (job : Job) : Type 0 where
  waits : job.status ≡ queued
  owned : job.owner_id ≡ r.owner_id
  payload : job.payload ≡ take 6 r.item

new_job-IsStored :
    (py : Python) (settings : Settings) (now : ℕ) (r : Submission) (sequence : ℕ) {job : Job}
    → new_job py settings now r sequence ≡ ok job
    → IsStored r job
unfolding new_job encode_item
new_job-IsStored py settings now r sequence e = record {
  waits = ground arith;
  owned = ground arith;
  payload = ground arith;
}

insert_job-jobs :
    (db : Db) (job : Job) {db' : Db} → insert_job db job ≡ ok db' → db.jobs ++ job ∷ [] ≡ db'.jobs
unfolding insert_job
insert_job-jobs db job e = elim (Option-cases (fetch_one (has_prompt job.prompt_id) db.jobs)) [
  | inl none_yet ↦ ground arith
  | inr (old, taken) ↦ absurd (ground arith)
]

mem-last : (jobs : List Job) (job : Job) → Memᴰ job (jobs ++ job ∷ [])
mem-last [] job = Memᴰ.head refl
mem-last (other ∷ jobs) job = Memᴰ.tail (mem-last jobs job)

enqueue-IsStored :
    (py : Python) (settings : Settings) (now : ℕ) (r : Submission) (db : Db) {db' : Db}
    → enqueue py settings now r db ≡ ok db'
    → (job : Job) × Memᴰ job db'.jobs × IsStored r job
unfolding enqueue
enqueue-IsStored py settings now r db e =
    let (job, inserted, made) = >>=-eq-ok (new_job py settings now r db.next_sequence) _ e in
    (
      job,
      subst (Memᴰ job) (insert_job-jobs db job inserted) (mem-last db.jobs job),
      new_job-IsStored py settings now r db.next_sequence made,
    )

mem-payload :
    {job : Job} (jobs : List Job)
    → Memᴰ job jobs
    → Memᴰ job.payload (map (λ (j : Job). j.payload) jobs)
mem-payload [] m = elim m [ ]
mem-payload (other ∷ jobs) (Memᴰ.head e) = Memᴰ.head (ap (λ (j : Job). j.payload) e)
mem-payload (other ∷ jobs) (Memᴰ.tail m) = Memᴰ.tail (mem-payload jobs m)

-- A stored job that waits is among the items that its owner sees.
waiting_item :
    (r : Submission) (admin : Bool) (db : Db) (job : Job)
    → Memᴰ job db.jobs
    → IsStored r job
    → Memᴰ
        (take 6 r.item)
        (items is_waiting (order_by before (select (is_pending r.owner_id admin) db.jobs)))
waiting_item r admin db job m stored =
    let owned : str_eq job.owner_id r.owner_id ≡ true = rw stored.owned (str_eq_refl r.owner_id) in
    let pending : is_pending r.owner_id admin job ≡ true = ground (arith, stored.waits, owned) in
    let waiting : is_waiting job ≡ true = ground (arith, stored.waits) in
    subst (λ (item : List Json). Memᴰ item (items is_waiting rows)) stored.payload
      (mem-payload (select is_waiting rows) (
        select-mem is_waiting rows
          (order_by-mem before (select (is_pending r.owner_id admin) db.jobs)
            (select-mem (is_pending r.owner_id admin) db.jobs m pending))
          waiting))
  where
    rows : List Job
    rows = order_by before (select (is_pending r.owner_id admin) db.jobs)

put_scheduled :
    (site : Site) (now : ℕ) (item : List Json) (c : Control) {db : Db}
    → c.scheduler ≡ some db
    → user_queue_put site now item c ≡ (
        enqueue site.py site.settings now (submission_of site item c) db >>= λ stored.
        ok (with_scheduler c stored))
unfolding user_queue_put
put_scheduled site now item c scheduled = rw (scheduled, user_queue_put)

-- What the submitter sees in the scheduler's rows.
abbrev pub Shown : Site → List Json → Control → Type 0
Shown site item c =
    (running waiting : List (List Json)) × (user_queue_get_current_queue site c
      ≡ ok (running, waiting))
    × Memᴰ (take 6 item) waiting

stored-Shown :
    (site : Site) (now : ℕ) (item : List Json) (c : Control) (db after : Db)
    → IsWellFormed db.jobs
    → enqueue site.py site.settings now (submission_of site item c) db ≡ ok after
    → Shown site item (with_scheduler c after)
unfolding user_queue_get_current_queue get_current_user_id submission_of
stored-Shown site now item c db after w made =
    let (job, m, stored) = enqueue-IsStored site.py site.settings now r db made in
    let admin = is_admin_user site (get_current_user_id c) (with_scheduler c after) in
    let later = Changes-IsWellFormed (Step-Changes (enqueues now r made)) w in
    (
      _,
      _,
      visible_items-deal r.owner_id admin after later,
      subst
          (λ (fields : List Json).
            Memᴰ fields (
              items is_waiting (order_by before (select (is_pending r.owner_id admin) after.jobs))))
          (take-unwrap_queue_item item) (waiting_item r admin after job m stored),
    )
  where
    r : Submission
    r = submission_of site item c

-- Where there is a scheduler with a well-formed table: after a user_queue_put that does not raise,
-- user_queue_get_current_queue does not raise either, and the same user finds the six fields of the item
-- among the queued ones.
pub user_queue_put_then_get :
    (site : Site) (now : ℕ) (item : List Json) (c : Control) {c' : Control} {db : Db}
    → c.scheduler ≡ some db
    → IsWellFormed db.jobs
    → user_queue_put site now item c ≡ ok c'
    → Shown site item c'
user_queue_put_then_get site now item c scheduled w e =
    let (after, same, made) = >>=-eq-ok _ _ (sym (put_scheduled site now item c scheduled) ∙ e) in
    subst (Shown site item) (ok-injective same) (stored-Shown site now item c _ after w made)
