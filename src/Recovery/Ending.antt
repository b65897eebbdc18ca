-- ===== src/Recovery/Ending.antt =====
-- Every recovery ends: a row can be checked only so often before it leaves the state `pending`.
use mathlib.Core.Option.{some-injective}
use comfy_ui_account_manager.Base.{
  ℕ, suc, ◌+◌, ◌*◌, ◌≤◌, max, true, List, some, ◌≡◌, refl, ap, ◌∙◌, inl, inr, arith, Bool-cases,
}
use comfy_ui_account_manager.Base.Options.{>>=-eq-some}
use comfy_ui_account_manager.History.Store as History
use comfy_ui_account_manager.Recovery.Checks.{Joined, Outside, Verdict, attempt, verdict_of}
use comfy_ui_account_manager.Recovery.Cycle.{
  is_ignored, publish, publish_unless_ignored, as_checked,
}
use comfy_ui_account_manager.Recovery.Rows.{State, is_pending, Row, second}
use comfy_ui_account_manager.Recovery.Verdicts.{verdict-age, delay-bounds}
use comfy_ui_account_manager.Scheduler.Rows.{Job}

-- A row is pending after publishing only if the verdict was.
pub published_state :
    (now : ℕ) (jobs : List Job) (j : Joined) (v : Verdict) (history : List History.Row)
    {after : State × List History.Row}
    → publish_unless_ignored now jobs j v history ≡ some after
    → is_pending after.0 ≡ true
    → is_pending v.state ≡ true
unfolding publish_unless_ignored
published_state now jobs j v history e p = elim (Bool-cases (is_ignored v.state)) [
  | inl given_up ↦
      absurd (ground (arith, p, ap (λ a. is_pending a.0) (some-injective _ _ (rw given_up at e))))
  | inr kept ↦
      let (published, done, _) = >>=-eq-some (publish now jobs j v history) _ (rw kept at e) in
      let state = ap (λ a. is_pending a.0) (some-injective _ _ done) ∙ p in
      elim (Bool-cases published.0) [
        | inl merged ↦ rw merged at state
        | inr refused ↦ absurd (ground (arith, rw refused at state))
      ]
]

-- The checks of one row, the first of which starts from `row`: each takes the row that the one before
-- left, when it is due and not before the creation, and returns. Others may write to the history, and the jobs may change, between
-- and during them.
pub data Checks (row : Row) : ℕ → Row → Type 0 where
  start : Checks row 0 row
  again :
      (n now : ℕ) (out : Outside) (j : Joined) (history : List History.Row)
      (after : State × List History.Row)
      → Checks row n j.row
      → is_pending j.row.state ≡ true
      → j.row.next_check ≤ now
      → row.created_at ≤ now
      → publish_unless_ignored now out.jobs_at_publish j
          (verdict_of j.row (attempt now out j))
          history
        ≡ some after
      → Checks row (suc n) (as_checked now (verdict_of j.row (attempt now out j)) after.0 j.row)

-- After n checks, if there was one, the next is due 30 n seconds after the creation, or later.
record IsPaced (row : Row) (n : ℕ) (last : Row) : Type 0 where
  created : last.created_at ≡ row.created_at
  paced : row.created_at + n * (30 * second) ≤ max last.next_check row.created_at

Checks-IsPaced : (row : Row) (n : ℕ) (last : Row) → Checks row n last → IsPaced row n last
Checks-IsPaced row n last start = record { created = refl; paced = ground arith }
Checks-IsPaced row n last (again m now out j history after before p due since e) =
    let ih = Checks-IsPaced row m j.row before in
    let v = verdict_of j.row (attempt now out j) in
    record {
      created = ih.created;
      paced = ground (arith, ih.paced, due, since, (delay-bounds v.failures).0);
    }

-- A row that is still pending after n checks, all of which returned, was checked at most 20,161 times: the
-- half minutes of seven days, and one.
pub Checks-le :
    (row : Row) (n : ℕ) (last : Row) → Checks row n last → is_pending last.state ≡ true → n ≤ 20161
Checks-le row n last start p = omega arith
Checks-le row n last (again m now out j history after before was due since e) p =
    let paced = Checks-IsPaced row m j.row before in
    let v = verdict_of j.row (attempt now out j) in
    let age = verdict-age now out j (published_state now out.jobs_at_publish j v history e p) in
    ground (arith, paced.created, paced.paced, due, since, age)
