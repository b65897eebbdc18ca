-- ===== src/Scheduler/Isolation.antt =====
-- What a user who is no administrator can cancel: only queued jobs of their own.
use comfy_ui_account_manager.Base.{
  ℕ, String, Bool, true, false, List, [], ◌∷◌, some, ◌≡◌, ◌⊎◌, inl, inr, refl, subst, arith, str_eq,
  if◌then◌else◌, Memᴰ, Bool-cases, Option-cases, &&-eq-true,
}
use comfy_ui_account_manager.Base.Table.{update, fetch_one, select, order_by}
use comfy_ui_account_manager.Base.Table.Laws.{mem_unique, fetch_one-mem}
use comfy_ui_account_manager.Base.Table.Members.{update-mem}
use comfy_ui_account_manager.Json.{Json}
use comfy_ui_account_manager.Scheduler.Rows.{Job, Db, Result-cases, is_queued}
use comfy_ui_account_manager.Scheduler.Settings.{decode_item}
use comfy_ui_account_manager.Scheduler.Store.{has_prompt, queues_prompt}
use comfy_ui_account_manager.Scheduler.Claim.{before}
use comfy_ui_account_manager.Scheduler.Cancel.{
  as_cancelled, may_cancel, cancel, is_visible_queued, cancel_all, delete_rows, delete_matching,
}
use comfy_ui_account_manager.Scheduler.WellFormed.{IsWellFormed}

-- A row that an update does not select stays in the table.
update-keeps :
    {job : Job} (p : Job → Bool) (f : Job → Job) (jobs : List Job)
    → Memᴰ job jobs
    → p job ≡ false
    → Memᴰ job (update p f jobs)
update-keeps {job} p f jobs m e =
    subst (λ (b : Bool). Memᴰ (if b then f job else job) (update p f jobs)) e
      (update-mem p f jobs m)

-- The job is another user's, or is not queued.
abbrev pub IsProtected : String → Job → Type 0
IsProtected owner_id job = (str_eq job.owner_id owner_id ≡ false) ⊎ (is_queued job.status ≡ false)

module _ (now : ℕ) (owner_id : String) (db : Db) (w : IsWellFormed db.jobs) (job : Job)
    (stored : Memᴰ job db.jobs) (safe : IsProtected owner_id job) where
  -- The row that `cancel` reads is the only one with its prompt id.
  not-selected :
      (prompt_id : String) (row : Job)
      → fetch_one (has_prompt prompt_id) db.jobs ≡ some row
      → may_cancel owner_id false (some row) ≡ true
      → queues_prompt prompt_id job ≡ false
  not-selected prompt_id row e may = elim (Bool-cases (queues_prompt prompt_id job)) [
    | inr other ↦ other
    | inl t ↦
        let (m, h) = fetch_one-mem (has_prompt prompt_id) db.jobs e in
        let same =
          mem_unique (has_prompt prompt_id) db.jobs (w.unique prompt_id) m h stored
            (&&-eq-true _ _ t).0 in
        let mine = subst (λ (x : Job). may_cancel owner_id false (some x) ≡ true) same may in
        absurd (ground (arith, safe, mine))
  ]

  cancel-keeps : (prompt_id : String) → Memᴰ job (cancel now prompt_id owner_id false db).1.jobs
  unfolding cancel
  cancel-keeps prompt_id = elim (Option-cases (fetch_one (has_prompt prompt_id) db.jobs)) [
    | inl e ↦ rw (e, cancel) stored
    | inr (row, e) ↦ elim (Bool-cases (may_cancel owner_id false (some row))) [
      | inl may ↦
          rw (e, cancel, may)
            (update-keeps (queues_prompt prompt_id) (as_cancelled now) db.jobs stored
              (not-selected prompt_id row e may))
      | inr denied ↦ rw (e, cancel, denied) stored
    ]
  ]

  cancel_all-keeps : Memᴰ job (cancel_all now owner_id false db).1.jobs
  unfolding cancel_all
  cancel_all-keeps =
      update-keeps (is_visible_queued owner_id false) (as_cancelled now) db.jobs stored
        (ground (arith, safe))

  -- A `cancel` that answers false changes nothing.
  cancel-refused :
      (prompt_id : String)
      → (cancel now prompt_id owner_id false db).0 ≡ false
      → (cancel now prompt_id owner_id false db).1 ≡ db
  unfolding cancel
  cancel-refused prompt_id e =
      elim (Bool-cases (may_cancel owner_id false (fetch_one (has_prompt prompt_id) db.jobs))) [
        | inl may ↦ absurd (ground (arith, may))
        | inr denied ↦ rw denied refl
      ]

  delete_rows-keeps :
      (predicate : List Json → Bool) (rows : List Job)
      → Memᴰ job (delete_rows now predicate owner_id false rows db).1.jobs
  unfolding delete_rows
  delete_rows-keeps predicate [] = stored
  delete_rows-keeps predicate (row ∷ rows) = elim (Result-cases (decode_item row.payload)) [
    | inr (raised, e) ↦ rw (e, delete_rows) stored
    | inl (item, e) ↦ elim (Bool-cases (predicate item)) [
      | inr denied ↦ rw (e, delete_rows, denied) (delete_rows-keeps predicate rows)
      | inl wanted ↦ elim (Bool-cases (cancel now row.prompt_id owner_id false db).0) [
        | inl done ↦ rw (e, delete_rows, wanted, done) (cancel-keeps row.prompt_id)
        | inr refused ↦
            rw (e, delete_rows, wanted, refused, cancel-refused row.prompt_id refused)
              (delete_rows-keeps predicate rows)
      ]
    ]
  ]

  -- On a well-formed table, a stored job that is another user's or is not queued stays as it is,
  -- whether a user who is no administrator calls `cancel`, `cancel_all` or `delete_matching`.
  pub protected_stays :
      (prompt_id : String) (predicate : List Json → Bool)
      → Memᴰ job (cancel now prompt_id owner_id false db).1.jobs
        × Memᴰ job (cancel_all now owner_id false db).1.jobs
        × Memᴰ job (delete_matching now predicate owner_id false db).1.jobs
  unfolding delete_matching
  protected_stays prompt_id predicate = (
    cancel-keeps prompt_id,
    cancel_all-keeps,
    delete_rows-keeps predicate
        (order_by before (select (is_visible_queued owner_id false) db.jobs)),
  )
