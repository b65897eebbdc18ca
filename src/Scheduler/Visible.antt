-- ===== src/Scheduler/Visible.antt =====
-- What `visible_items` shows.
use comfy_ui_account_manager.Base.{
  String, Bool, not, ◌&&◌, ◌||◌, ◌∙◌, arith, str_eq, List, [], ◌∷◌, ◌≡◌, refl, length, map, Memᴰ,
  Bool-cases, inl, inr,
}
use comfy_ui_account_manager.Base.Table.{select, order_by, count}
use comfy_ui_account_manager.Base.Table.Sorted.{
  IsSorted, count-order_by, count-select, count_ext, select-IsSorted, order_by-IsSorted,
}
use comfy_ui_account_manager.Base.Table.Members.{mem-select, mem-order_by}
use comfy_ui_account_manager.Json.{Json}
use comfy_ui_account_manager.Scheduler.Rows.{Job, Db, ok, is_running, is_queued}
use comfy_ui_account_manager.Scheduler.Claim.{before}
use comfy_ui_account_manager.Scheduler.Queries.{is_pending, deal, visible_items}
use comfy_ui_account_manager.Scheduler.WellFormed.{IsWellFormed}
use comfy_ui_account_manager.Scheduler.Choice.{
  decode_item_of_length, Precedes, before-IsOrder, before-Precedes,
}

-- The items of the jobs with a property, in the order of the jobs.
abbrev pub items : (Job → Bool) → List Job → List (List Json)
items p jobs = map (λ (job : Job). job.payload) (select p jobs)

abbrev pub is_waiting : Job → Bool
is_waiting job = not (is_running job.status)

abbrev pub runs : Job → Bool
runs job = is_running job.status

deal-items :
    (rows : List Job)
    → ((job : Job) → Memᴰ job rows → length job.payload ≡ 6)
    → deal rows ≡ ok (items runs rows, items is_waiting rows)
unfolding deal select
deal-items [] six = refl
deal-items (row ∷ rows) six =
    let decoded = decode_item_of_length row.payload (six row (Memᴰ.head refl)) in
    let rest = deal-items rows (λ job m. six job (Memᴰ.tail m)) in
    elim (Bool-cases (is_running row.status)) [
      | inl running ↦ rw (decoded, rest, running) refl
      | inr other ↦ rw (decoded, rest, other) refl
    ]

-- `visible_items` deals out the rows that its query answers with.
pub visible_items-deal :
    (owner_id : String) (admin : Bool) (db : Db)
    → IsWellFormed db.jobs
    → let rows = order_by before (select (is_pending owner_id admin) db.jobs) in
      visible_items owner_id admin db ≡ ok (items runs rows, items is_waiting rows)
unfolding visible_items
visible_items-deal owner_id admin db w =
    deal-items (order_by before (select (is_pending owner_id admin) db.jobs)) λ job m.
      w.decodes job
        (mem-select (is_pending owner_id admin) db.jobs
          (mem-order_by before (select (is_pending owner_id admin) db.jobs) m)).0

-- The rows are those of the jobs that the test takes, each as often as in the table, in the order of
-- priority and then sequence.
pub record AreListed (taken : Job → Bool) (jobs rows : List Job) : Type 0 where
  pub counted : (q : Job → Bool) → count q rows ≡ count (λ job. taken job && q job) jobs
  pub sorted : IsSorted Precedes rows

module _ (owner_id : String) (admin : Bool) (jobs : List Job) where
  abbrev pending : List Job
  pending = order_by before (select (is_pending owner_id admin) jobs)

  -- A part of the query's rows.
  dealt-AreListed :
      (part taken : Job → Bool)
      → ((job : Job) → (is_pending owner_id admin job && part job) ≡ taken job)
      → AreListed taken jobs (select part pending)
  dealt-AreListed part taken same = record {
    counted = λ q.
        count-select q part pending
        ∙ count-order_by before (λ job. part job && q job) (select (is_pending owner_id admin) jobs)
        ∙ count-select (λ job. part job && q job) (is_pending owner_id admin) jobs
        ∙ count_ext _ _ jobs (λ job. ground (arith, same job));
    sorted = select-IsSorted Precedes part pending (
        order_by-IsSorted before-IsOrder before-Precedes (select (is_pending owner_id admin) jobs));
  }

-- On a well-formed table `visible_items` does not raise: it answers with the items of the running and
-- of the queued jobs, all of them for an administrator and those of the owner for another caller, each
-- once, and both in the order of priority and then sequence.
pub visible_items_lem :
    (owner_id : String) (admin : Bool) (db : Db)
    → IsWellFormed db.jobs
    → (running waiting : List Job) × (visible_items owner_id admin db
        ≡ ok (map (λ job. job.payload) running, map (λ job. job.payload) waiting))
      × AreListed
          (λ job. is_running job.status && (admin || str_eq job.owner_id owner_id))
          db.jobs
          running
      × AreListed
          (λ job. is_queued job.status && (admin || str_eq job.owner_id owner_id))
          db.jobs
          waiting
visible_items_lem owner_id admin db w =
    let rows = order_by before (select (is_pending owner_id admin) db.jobs) in
    (
      select runs rows,
      select is_waiting rows,
      visible_items-deal owner_id admin db w,
      dealt-AreListed owner_id admin db.jobs runs _ (λ job. ground arith),
      dealt-AreListed owner_id admin db.jobs is_waiting _ (λ job. ground arith),
    )
