-- ===== src/Recovery/Tidy.antt =====
-- What holds of the table scheduler_api_recovery whatever is observed and checked.
use mathlib.Core.Option.{some-injective}
use comfy_ui_account_manager.Base.{
  ℕ, ◌≤◌, String, Bool, true, false, ◌&&◌, List, [], ◌∷◌, ◌++◌, Option, none, some, ◌≡◌, refl, sym,
  ap, ◌∙◌, subst, inl, inr, arith, Memᴰ, Bool-cases, Option-cases, ◌⊎◌, if◌then◌else◌, if_ind,
  is_some, str_eq, str_eq_iff,
}
use comfy_ui_account_manager.Base.Options.{>>=-eq-some}
use comfy_ui_account_manager.Base.Table.{count, update, fetch_one, one_if}
use comfy_ui_account_manager.Base.Table.Laws.{count-update, fetch_one-none, count-snoc}
use comfy_ui_account_manager.Base.Table.Members.{mem-update, mem-snoc}
use comfy_ui_account_manager.History.Store as History
use comfy_ui_account_manager.Json.{Json}
use comfy_ui_account_manager.Recovery.Checks.{Joined, Outside, attempt, verdict_of}
use comfy_ui_account_manager.Recovery.Cycle.{
  is_settled, as_ignored, ignore_settled, next_row, publish_unless_ignored, as_checked, Tables,
  check, finish_check, check_row, recover_one,
}
use comfy_ui_account_manager.Recovery.Ending.{published_state}
use comfy_ui_account_manager.Recovery.Rows.{
  is_pending, Row, has_id, Library, Observed, new_row, insert_row, keep, read_body, is_success_code,
  observe,
}
use comfy_ui_account_manager.Recovery.Submissions.{
  Submission, Answer, submission, found, raised, nothing, found-injective,
}
use comfy_ui_account_manager.Recovery.Verdicts.{verdict-failures}
use comfy_ui_account_manager.Scheduler.Rows.{Job}
use comfy_ui_account_manager.Scheduler.Store.{runs_prompt}

-- A row has credentials only while it is pending, and then failed at most 19 times in a row.
abbrev pub IsTidy : Row → Type 0
IsTidy row =
    (is_pending row.state ≡ false → row.credentials ≡ none)
    × (is_pending row.state ≡ true → row.failures ≤ 19)

-- Every row is tidy, and no two have the same id.
pub record AreTidy (rows : List Row) : Type 0 where
  pub tidy : (row : Row) → Memᴰ row rows → IsTidy row
  pub unique : (id : String) → count (has_id id) rows ≤ 1

check_row-cases :
    (now : ℕ) (out : Outside) (t : Tables) (row : Option Joined)
    → ((check_row now out t row).1 ≡ t)
      ⊎ ((j : Joined) × (check now out j t ≡ some (check_row now out t row).1))
unfolding check_row
check_row-cases now out t none = inl refl
check_row-cases now out t (some j) = elim (Option-cases (check now out j t)) [
  | inl raises ↦ inl (ap (λ c. (finish_check t c).1) raises)
  | inr (checked, e) ↦ inr (j, e ∙ ap some (sym (ap (λ c. (finish_check t c).1) e)))
]

-- The two ways in which `recover_one` ends: with the settled rows ignored and nothing else done, or with
-- a check that returned.
pub recover_one-cases :
    (now : ℕ) (jobs : List Job) (out : Outside) (t : Tables)
    → ((recover_one now jobs out t).1 ≡ (ignore_settled jobs t.0, t.1))
      ⊎ ((j : Joined) × (check now out j (ignore_settled jobs t.0, t.1)
            ≡ some (recover_one now jobs out t).1))
unfolding recover_one
recover_one-cases now jobs out t =
    check_row-cases now out (ignore_settled jobs t.0, t.1)
      (next_row now jobs (ignore_settled jobs t.0))

update-AreTidy :
    (p : Row → Bool) (f : Row → Row) (rows : List Row)
    → AreTidy rows
    → ((row : Row) → IsTidy row → p row ≡ true → IsTidy (f row))
    → ((row : Row) → (f row).id ≡ row.id)
    → AreTidy (update p f rows)
update-AreTidy p f rows a keeps same = record {
  tidy = λ row m.
      let (old, stored, e) = mem-update p f rows m in
      subst IsTidy (sym e) (changed old (a.tidy old stored));
  unique = λ id.
      subst (λ n. n ≤ 1)
        (sym (count-update (has_id id) p f rows (λ x _. ap (λ i. str_eq i id) (same x))))
        (a.unique id);
}
  where
    changed : (old : Row) → IsTidy old → IsTidy (if p old then f old else old)
    changed old t = elim (Bool-cases (p old)) [
      | inl hit ↦ rw hit (keeps old t hit)
      | inr miss ↦ rw miss t
    ]

ignore_settled-AreTidy :
    (jobs : List Job) (rows : List Row) → AreTidy rows → AreTidy (ignore_settled jobs rows)
unfolding ignore_settled
ignore_settled-AreTidy jobs rows a =
    update-AreTidy (is_settled jobs) as_ignored rows a
      (λ row t hit. (λ p. refl, λ p. ground (arith, p))) (λ row. refl)

check-AreTidy :
    (now : ℕ) (out : Outside) (j : Joined) (t : Tables) {t' : Tables}
    → AreTidy t.0
    → check now out j t ≡ some t'
    → AreTidy t'.0
unfolding check
check-AreTidy now out j t a e =
    let v = verdict_of j.row (attempt now out j) in
    let (after, done, published) =
      >>=-eq-some (publish_unless_ignored now out.jobs_at_publish j v t.1) _ e in
    subst (λ tables. AreTidy tables.0) (some-injective _ _ done)
      (update-AreTidy (has_id j.row.id) (as_checked now v after.0) t.0 a
        (λ row tidy hit. (
          λ p. ap (λ b. if b then row.credentials else none) p,
          λ p.
              verdict-failures now out j
                (published_state now out.jobs_at_publish j v t.1 published p),
        ))
        (λ row. refl))

snoc-AreTidy :
    (row : Row) (rows : List Row)
    → IsTidy row
    → AreTidy rows
    → fetch_one (has_id row.id) rows ≡ none
    → AreTidy (rows ++ row ∷ [])
snoc-AreTidy row rows new a fresh = record {
  tidy =
      λ r m. elim (mem-snoc rows m) [ inl old ↦ a.tidy r old | inr e ↦ subst IsTidy (sym e) new ];
  unique = λ id. elim (Bool-cases (has_id id row)) [
    | inl hit ↦
        let absent =
          subst (λ i. count (has_id i) rows ≡ 0) ((str_eq_iff row.id id).0 hit)
            (fetch_one-none (has_id row.id) rows fresh) in
        omega (arith, count-snoc (has_id id) rows row, absent, ap one_if hit)
    | inr miss ↦ omega (arith, count-snoc (has_id id) rows row, a.unique id, ap one_if miss)
  ];
}

&&-false : (b : Bool) → (b && false) ≡ false
&&-false b = ground arith

insert_row-AreTidy :
    (jobs : List Job) (row : Row) (rows : List Row)
    → IsTidy row
    → AreTidy rows
    → AreTidy (insert_row jobs row rows)
unfolding insert_row
insert_row-AreTidy jobs row rows new a = elim (Option-cases (fetch_one (has_id row.id) rows)) [
  | inr (old, e) ↦ rw (e, &&-false (is_some (fetch_one (runs_prompt row.prompt_id) jobs))) a
  | inl e ↦ rw e (
      if_ind AreTidy (is_some (fetch_one (runs_prompt row.prompt_id) jobs) && true)
        (λ _. snoc-AreTidy row rows new a e) (λ _. a))
]

keep-AreTidy :
    (lib : Library) (now : ℕ) (jobs : List Job) (o : Observed) (rows : List Row)
    (s : Answer Submission) {rows' : List Row}
    → AreTidy rows
    → keep lib now jobs o rows s ≡ found rows'
    → AreTidy rows'
keep-AreTidy lib now jobs o rows raised a e = absurd (ground (arith, e))
keep-AreTidy lib now jobs o rows nothing a e = subst AreTidy (found-injective e) a
keep-AreTidy lib now jobs o rows (found s) a e = subst AreTidy (found-injective e) (
    if_ind AreTidy (lib.is_bearer o.authorization)
      (λ _.
        insert_row-AreTidy jobs (new_row lib now o s) rows
          ((λ p. ground (arith, p)), (λ p. omega arith)) a)
      (λ _. a))

read_body-AreTidy :
    (lib : Library) (now : ℕ) (jobs : List Job) (o : Observed) (rows : List Row)
    (body : Option Json) {rows' : List Row}
    → AreTidy rows
    → read_body lib now jobs o rows body ≡ found rows'
    → AreTidy rows'
unfolding read_body
read_body-AreTidy lib now jobs o rows none a e = subst AreTidy (found-injective e) a
read_body-AreTidy lib now jobs o rows (some body) a e =
    keep-AreTidy lib now jobs o rows (submission lib.texts o.url body) a e

observe-AreTidy :
    (lib : Library) (now : ℕ) (jobs : List Job) (o : Observed) (rows : List Row) {rows' : List Row}
    → AreTidy rows
    → observe lib now jobs o rows ≡ found rows'
    → AreTidy rows'
unfolding observe
observe-AreTidy lib now jobs o rows a e =
    elim (Bool-cases (str_eq (lib.upper o.method) "POST" && is_success_code o.status_code)) [
      | inl post ↦ read_body-AreTidy lib now jobs o rows o.content a (rw post at e)
      | inr other ↦ subst AreTidy (found-injective (rw other at e)) a
    ]

-- The tables after one call: of `observe`, if it returns, or of `_recover_one`, at any time and whatever
-- the job table and the outside are.
pub data Step : Tables → Tables → Type 0 where
  observed :
      (lib : Library) (now : ℕ) (jobs : List Job) (o : Observed) (t : Tables) (rows : List Row)
      → observe lib now jobs o t.0 ≡ found rows
      → Step t (rows, t.1)
  recovered_one :
      (now : ℕ) (jobs : List Job) (out : Outside) (t : Tables)
      → Step t (recover_one now jobs out t).1
  history_changed : (t : Tables) (history : List History.Row) → Step t (t.0, history)

pub data Reach (t : Tables) : Tables → Type 0 where
  here : Reach t t
  next : (u v : Tables) → Reach t u → Step u v → Reach t v

Step-AreTidy : (t u : Tables) → Step t u → AreTidy t.0 → AreTidy u.0
Step-AreTidy t u (observed lib now jobs o _ rows e) a = observe-AreTidy lib now jobs o t.0 a e
Step-AreTidy t u (recovered_one now jobs out _) a = elim (recover_one-cases now jobs out t) [
  | inl idle ↦ subst (λ tables. AreTidy tables.0) (sym idle) (ignore_settled-AreTidy jobs t.0 a)
  | inr (j, e) ↦
      check-AreTidy now out j (ignore_settled jobs t.0, t.1) (ignore_settled-AreTidy jobs t.0 a) e
]
Step-AreTidy t u (history_changed _ history) a = a

-- Whatever is observed and checked, from a tidy table on: ids are unique, a row has credentials only
-- while it is pending, and a pending row failed at most 19 times in a row.
pub Reach-AreTidy : (t u : Tables) → Reach t u → AreTidy t.0 → AreTidy u.0
Reach-AreTidy t u here a = a
Reach-AreTidy t u (next mid _ before step) a =
    Step-AreTidy mid u step (Reach-AreTidy t mid before a)
