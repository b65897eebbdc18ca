-- ===== src/Scheduler/Choice.antt =====
-- Which job `claim` takes: the least eligible one, and none only if there is none.
use comfy_ui_account_manager.Base.{
  ℕ, ◌≤◌, String, true, false, List, [], ◌∷◌, ◌++◌, Option, none, some, ◌≡◌, ◌↔◌, arith, ==_iff,
  Bool-cases, Option-cases, inl, inr, &&-eq-true, Memᴰ, ◌⊎◌, length,
}
use comfy_ui_account_manager.Base.Int.{◌≤ℤ◌, ◌<ℤ◌}
use comfy_ui_account_manager.Base.Table.{count, update, select}
use comfy_ui_account_manager.Base.Table.Order.{IsOrder, first-mem, first-none, order_by-IsLeast}
use comfy_ui_account_manager.Base.Table.Members.{select-mem}
use comfy_ui_account_manager.Json.{Json, text}
use comfy_ui_account_manager.Scheduler.Rows.{Job, Db, Result, ok, is_queued}
use comfy_ui_account_manager.Scheduler.Settings.{decode_item}
use comfy_ui_account_manager.Scheduler.Logs.{Position}
use comfy_ui_account_manager.Scheduler.Store.{queues_prompt}
use comfy_ui_account_manager.Scheduler.Claim.{
  before, is_busy, is_eligible, next_job, as_running, start_job, take_up, claim_at,
}
use comfy_ui_account_manager.Scheduler.WellFormed.{IsWellFormed, queued_unique}

pub before-IsOrder : IsOrder before
before-IsOrder = record {
  irrefl = λ a. ground arith;
  asym = λ a b h. ground arith;
  cotrans = λ a b c h k. ground arith;
}

-- The order that the source asks for: by priority, then by sequence.
abbrev pub Precedes : Job → Job → Type 0
Precedes a b = (a.priority <ℤ b.priority) ⊎ ((a.priority ≤ℤ b.priority) × (a.sequence ≤ b.sequence))

-- The query's order is no other one.
pub before-Precedes : (a b : Job) → before b a ≡ false → Precedes a b
before-Precedes a b h = ground arith

-- `row` is a row that the query may return, and it precedes every eligible row.
pub record IsFirst (resource_class : String) (jobs : List Job) (row : Job) : Type 0 where
  pub stored : Memᴰ row jobs
  pub eligible : is_eligible resource_class jobs row ≡ true
  pub least :
      (other : Job)
      → Memᴰ other jobs
      → is_eligible resource_class jobs other ≡ true
      → Precedes row other

pub next_job-IsFirst :
    (resource_class : String) (jobs : List Job) {row : Job}
    → next_job resource_class jobs ≡ some row
    → IsFirst resource_class jobs row
unfolding next_job
next_job-IsFirst resource_class jobs {row} e =
    let found = first-mem before (is_eligible resource_class jobs) jobs e in
    record {
      stored = found.0;
      eligible = found.1;
      least = λ other m h. before-Precedes row other (
          order_by-IsLeast before-IsOrder (select (is_eligible resource_class jobs) jobs) e other
            (select-mem (is_eligible resource_class jobs) jobs m h));
    }

next_job-none :
    (resource_class : String) (jobs : List Job)
    → next_job resource_class jobs ≡ none
    → (other : Job) → Memᴰ other jobs
    → is_eligible resource_class jobs other ≡ false
unfolding next_job
next_job-none resource_class jobs e other m =
    first-none before (is_eligible resource_class jobs) jobs e m

eligible-queued :
    (resource_class : String) (jobs : List Job) (row : Job)
    → is_eligible resource_class jobs row ≡ true
    → is_queued row.status ≡ true
unfolding is_eligible
eligible-queued resource_class jobs row h = (&&-eq-true _ _ h).0

pub decode_item_of_length :
    (payload : List Json) → length payload ≡ 6 → decode_item payload ≡ ok payload
unfolding decode_item
decode_item_of_length payload six = ground arith

module _ (position : Position) (now port pid : ℕ) (resource_class : String) (db : Db) where
  -- The answer and the database of a call that starts `row`.
  abbrev pub starts : Job → Result (Option (List Json)) × Db
  starts row = (
    ok (some (row.payload ++ text row.owner_id ∷ [])),
    record db {
      jobs = update (queues_prompt row.prompt_id) (as_running now port position) db.jobs;
      workers = take_up now port pid resource_class row.prompt_id db.workers;
    },
  )

  start_job-starts :
      (row : Job)
      → IsWellFormed db.jobs
      → IsFirst resource_class db.jobs row
      → start_job position now port pid resource_class row db ≡ starts row
  unfolding start_job
  start_job-starts row w f =
      let one =
        queued_unique row w f.stored (eligible-queued resource_class db.jobs row f.eligible) in
      rw (
        (==_iff (count (queues_prompt row.prompt_id) db.jobs) 1).1 one,
        decode_item_of_length row.payload (w.decodes row f.stored),
      )

  -- If the table is well-formed, the worker is free and a job is eligible, `claim` starts an eligible
  -- job that precedes every eligible job in the order of priority and then sequence, and answers with
  -- its item and its owner.
  pub claim_at-IsFirst :
      (candidate : Job)
      → IsWellFormed db.jobs
      → is_busy db port ≡ false
      → Memᴰ candidate db.jobs
      → is_eligible resource_class db.jobs candidate ≡ true
      → (row : Job) × IsFirst resource_class db.jobs row
        × (claim_at position now port pid resource_class db ≡ starts row)
  unfolding claim_at
  claim_at-IsFirst candidate w free m h = elim (Option-cases (next_job resource_class db.jobs)) [
    | inl e ↦ absurd (ground (arith, next_job-none resource_class db.jobs e candidate m))
    | inr (row, e) ↦
        let f = next_job-IsFirst resource_class db.jobs e in
        (row, f, rw (free, e) (start_job-starts row w f))
  ]

  -- The worker still runs a job, or no job is eligible.
  abbrev pub NothingToStart : Type 0
  NothingToStart =
      (is_busy db port ≡ true)
      ⊎ ((job : Job) → Memᴰ job db.jobs → is_eligible resource_class db.jobs job ≡ false)

  claim_at-idle :
      IsWellFormed db.jobs
      → (claim_at position now port pid resource_class db).0 ≡ ok none
      → NothingToStart × ((claim_at position now port pid resource_class db).1.jobs ≡ db.jobs)
  unfolding claim_at
  claim_at-idle w e = elim (Bool-cases (is_busy db port)) [
    | inl busy ↦ (inl busy, rw busy)
    | inr free ↦ elim (Option-cases (next_job resource_class db.jobs)) [
      | inl n ↦ (inr (next_job-none resource_class db.jobs n), rw (free, n))
      | inr (row, n) ↦
          let started : claim_at position now port pid resource_class db ≡ starts row =
            rw (free, n) (start_job-starts row w (next_job-IsFirst resource_class db.jobs n)) in
          absurd (ground (arith, started))
    ]
  ]

  idle-claim_at : NothingToStart → (claim_at position now port pid resource_class db).0 ≡ ok none
  unfolding claim_at
  idle-claim_at (inl busy) = rw busy
  idle-claim_at (inr absent) = elim (Bool-cases (is_busy db port)) [
    | inl busy ↦ rw busy
    | inr free ↦ elim (Option-cases (next_job resource_class db.jobs)) [
      | inl n ↦ rw (free, n)
      | inr (row, n) ↦
          let f = next_job-IsFirst resource_class db.jobs n in
          absurd (ground (arith, f.eligible, absent row f.stored))
    ]
  ]

  -- On a well-formed table `claim` answers with no job exactly when the worker still runs one or no
  -- job is eligible, and it leaves the job table as it was.
  pub claim_at-none :
      IsWellFormed db.jobs
      → ((claim_at position now port pid resource_class db).0 ≡ ok none)
        ↔ (NothingToStart × ((claim_at position now port pid resource_class db).1.jobs ≡ db.jobs))
  claim_at-none w = (claim_at-idle w, λ h. idle-claim_at h.0)
