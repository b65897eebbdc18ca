-- ===== src/Recovery/Raising.antt =====
-- `_recover_one` where publishing raises: the row that it took stays the first one.
use mathlib.Core.Option.{some-injective, none-ne-some}
use comfy_ui_account_manager.Base.{
  ℕ, ◌≤◌, ◌+◌, not, str_eq, Memᴰ, head?, Bool, true, false, List, [], ◌∷◌, Option, none, some, ◌≡◌,
  refl, sym, ap, ◌∙◌, subst, inl, inr, arith, Bool-cases, Option-cases,
}
use comfy_ui_account_manager.Base.Options.{◌>>=◌, >>=-eq-some}
use comfy_ui_account_manager.Base.Table.{update, select, order_by, fetch_one}
use comfy_ui_account_manager.Base.Table.Order.{first-mem}
use comfy_ui_account_manager.Base.Table.Sorted.{first_stays}
use comfy_ui_account_manager.Base.Table.Members.{mem-update}
use comfy_ui_account_manager.Recovery.Checks.{Joined, Outside, attempt, verdict_of}
use comfy_ui_account_manager.Recovery.Cycle.{
  is_settled, as_ignored, is_due, earlier, join_job, ignore_settled, next_row,
  publish_unless_ignored, Tables, check, finish_check, check_row, recover_one, as_checked,
}
use comfy_ui_account_manager.Recovery.Rows.{is_pending, has_id, Row}
use comfy_ui_account_manager.Scheduler.Rows.{Job}
use comfy_ui_account_manager.Scheduler.Store.{has_prompt}

update_idle :
    (p : Row → Bool) (f : Row → Row) (rows : List Row)
    → ((row : Row) → p (f row) ≡ false)
    → update p f (update p f rows) ≡ update p f rows
unfolding update
update_idle p f [] h = refl
update_idle p f (row ∷ rows) h = elim (Bool-cases (p row)) [
  | inl hit ↦ rw (hit, h row) (ap (λ rest. f row ∷ rest) (update_idle p f rows h))
  | inr miss ↦ rw (miss, miss) (ap (λ rest. row ∷ rest) (update_idle p f rows h))
]

ignore_settled_again :
    (jobs : List Job) (rows : List Row)
    → ignore_settled jobs (ignore_settled jobs rows) ≡ ignore_settled jobs rows
unfolding ignore_settled
ignore_settled_again jobs rows = update_idle (is_settled jobs) as_ignored rows (λ row. ground arith)

-- A row with a later deadline comes after every row that is due now.
earlier_due :
    (now later : ℕ) (jobs : List Job) (a b : Row)
    → is_due now jobs a ≡ true
    → is_due later jobs b ≡ true
    → is_due now jobs b ≡ false
    → earlier a b ≡ true
earlier_due now later jobs a b due_a due_b not_now = ground (arith, due_a, due_b, not_now)

-- The row that is taken now is taken later too, where the jobs and the rows are the same.
next_row_later :
    (now later : ℕ) (jobs : List Job) (rows : List Row) {j : Joined}
    → now ≤ later
    → next_row now jobs rows ≡ some j
    → next_row later jobs rows ≡ some j
unfolding next_row
next_row_later now later jobs rows h e =
    let (row, joined, first) =
      >>=-eq-some (head? (order_by earlier (select (is_due now jobs) rows))) _ e in
    ap (λ found. found >>= join_job jobs)
      (first_stays earlier (is_due now jobs) (is_due later jobs) (λ a due. ground (arith, due, h))
        (earlier_due now later jobs) (λ a b first. ground (arith, first)) rows first)
    ∙ joined

-- The joined row is one of the table that is due.
next_row-mem :
    (now : ℕ) (jobs : List Job) (rows : List Row) {j : Joined}
    → next_row now jobs rows ≡ some j
    → Memᴰ j.row rows × (is_due now jobs j.row ≡ true)
unfolding next_row join_job
next_row-mem now jobs rows {j} e =
    let (row, joined, first) =
      >>=-eq-some (head? (order_by earlier (select (is_due now jobs) rows))) _ e in
    let (job, made, found) = >>=-eq-some (fetch_one (has_prompt row.prompt_id) jobs) _ joined in
    let same : row ≡ j.row = ap (λ joined. joined.row) (some-injective _ _ made) in
    subst (λ r. Memᴰ r rows × (is_due now jobs r ≡ true)) same
      (first-mem earlier (is_due now jobs) rows first)

raises-tables :
    (now : ℕ) (out : Outside) (t : Tables) (row : Option Joined)
    → (check_row now out t row).0 ≡ none
    → (j : Joined) × (row ≡ some j) × (check_row now out t row ≡ (none, t))
unfolding check_row
raises-tables now out t none e = absurd (none-ne-some false (sym e))
raises-tables now out t (some j) e = elim (Option-cases (check now out j t)) [
  | inl fails ↦ (j, refl, ap (finish_check t) fails)
  | inr (checked, made) ↦ absurd (none-ne-some true (sym e ∙ ap (λ c. (finish_check t c).0) made))
]

-- The rows of other recoveries.
abbrev pub others : Joined → List Row → List Row
others j = select (λ row. not (str_eq row.id j.row.id))

select-update :
    (p q : Row → Bool) (f : Row → Row) (rows : List Row)
    → ((row : Row) → q row ≡ true → p row ≡ false)
    → ((row : Row) → q row ≡ true → p (f row) ≡ false)
    → select p (update q f rows) ≡ select p rows
unfolding select update
select-update p q f [] before after = refl
select-update p q f (row ∷ rows) before after =
    ground (arith, before row, after row, select-update p q f rows before after)

-- A check of a row leaves the other ones.
check_row-others :
    (now : ℕ) (out : Outside) (t : Tables) (j : Joined)
    → others j (check_row now out t (some j)).1.0 ≡ others j t.0
unfolding check_row check
check_row-others now out t j = elim (Option-cases (check now out j t)) [
  | inl fails ↦ ap (λ c. others j (finish_check t c).1.0) fails
  | inr (checked, made) ↦
      let v = verdict_of j.row (attempt now out j) in
      let (after, done, published) =
        >>=-eq-some (publish_unless_ignored now out.jobs_at_publish j v t.1) _ made in
      ap (λ c. others j (finish_check t c).1.0) made
      ∙ ap (λ (u : Tables). others j u.0) (sym (some-injective _ _ done))
      ∙ select-update (λ row. not (str_eq row.id j.row.id)) (has_id j.row.id)
          (as_checked now v after.0) t.0 (λ row hit. ground (arith, hit))
          (λ row hit. ground (arith, hit))
]

-- A row that is pending after the first UPDATE was there before it.
pending-mem :
    (jobs : List Job) (rows : List Row) (row : Row)
    → Memᴰ row (ignore_settled jobs rows)
    → is_pending row.state ≡ true
    → Memᴰ row rows
unfolding ignore_settled
pending-mem jobs rows row m pending =
    let (old, stored, e) = mem-update (is_settled jobs) as_ignored rows m in
    elim (Bool-cases (is_settled jobs old)) [
      | inl settled ↦
          let same : row ≡ as_ignored old = e ∙ rw settled refl in
          absurd (ground (arith, ap (λ r. is_pending r.state) (sym same) ∙ pending))
      | inr kept ↦ let same : row ≡ old = e ∙ rw kept refl in rw same stored
    ]

-- A call of `_recover_one` that raises took a row, which stays as it was, and so does the history; and the
-- same call raises again, with the same tables. Whatever a later call meets, as long as the jobs are the
-- same ones, it leaves all other rows as they are: it takes this row again.
pub recover_one_raises :
    (now : ℕ) (jobs : List Job) (out : Outside) (t : Tables)
    → (recover_one now jobs out t).0 ≡ none
    → let t' = (recover_one now jobs out t).1 in
      (j : Joined) × Memᴰ j.row t.0
      × Memᴰ j.row t'.0
      × (t'.1 ≡ t.1)
      × (recover_one now jobs out t' ≡ (none, t'))
      × ((wait : ℕ) (out' : Outside)
          → others j (recover_one (now + wait) jobs out' t').1.0 ≡ others j t'.0)
unfolding recover_one
recover_one_raises now jobs out t e =
    let rows = ignore_settled jobs t.0 in
    let (j, taken, same) = raises-tables now out (rows, t.1) (next_row now jobs rows) e in
    let (m, due) = next_row-mem now jobs rows taken in
    let idle = ignore_settled_again jobs t.0 in
    let again : recover_one now jobs out (rows, t.1) ≡ (none, (rows, t.1)) =
      ap (λ rs. check_row now out (rs, t.1) (next_row now jobs rs)) idle ∙ same in
    let after : (recover_one now jobs out t).1 ≡ (rows, t.1) = ap (λ r. r.1) same in
    rw after (
      j,
      pending-mem jobs t.0 j.row m (ground (arith, due)),
      m,
      refl,
      again,
      λ wait out'.
          ap
            (λ rs.
              others j (check_row (now + wait) out' (rs, t.1) (next_row (now + wait) jobs rs)).1.0)
            idle
          ∙ ap (λ found. others j (check_row (now + wait) out' (rows, t.1) found).1.0)
              (next_row_later now (now + wait) jobs rows (omega arith) taken)
          ∙ check_row-others (now + wait) out' (rows, t.1) j,
    )
