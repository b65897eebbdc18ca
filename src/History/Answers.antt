-- ===== src/History/Answers.antt =====
-- What a query for one prompt answers after any calls, by the abstract history.
use comfy_ui_account_manager.Base.{
  ℕ, ◌≤◌, String, List, [], ◌∷◌, none, some, ◌≡◌, refl, sym, ap, ◌∙◌, ◌⊎◌, inl, inr, arith,
  str_eq_iff, Bool-cases, Option-cases,
}
use comfy_ui_account_manager.Base.Int.{ℤ}
use comfy_ui_account_manager.Base.Table.{count, select}
use comfy_ui_account_manager.Base.Table.Latest.{select_of_absent}
use comfy_ui_account_manager.Json.{Json, obj}
use comfy_ui_account_manager.History.Store.{Row, is_prompt, collect_item, collect, query}
use comfy_ui_account_manager.History.Saving.{IsUnique, by_prompt, page-by_prompt, collect-one}
use comfy_ui_account_manager.History.Contents.{content}
use comfy_ui_account_manager.History.Replay.{Call, run, replay, saves, answer}
use comfy_ui_account_manager.History.Refinement.{Refines, run-Refines}
use comfy_ui_account_manager.History.Exact.{empty-Matches, run-Matches}

collect_row :
    (prompt_id owner_id : String) (item : Json)
    → collect [] (record { prompt_id = prompt_id; owner_id = owner_id; item = item } ∷ [])
      ≡ answer prompt_id (some (owner_id, item))
unfolding collect collect_item
collect_row prompt_id owner_id (obj item) = collect-one prompt_id owner_id item
collect_row prompt_id owner_id other = refl

collect-select :
    (prompt_id : String) (rows : List Row)
    → count (is_prompt prompt_id) rows ≤ 1
    → collect [] (select (is_prompt prompt_id) rows) ≡ answer prompt_id (content prompt_id rows)
unfolding select content count collect
collect-select prompt_id [] one = refl
collect-select prompt_id (row ∷ rows) one = elim (Bool-cases (is_prompt prompt_id row)) [
  | inl hit ↦
      let alone = select_of_absent (is_prompt prompt_id) rows (omega (arith, rw hit at one)) in
      let named = (str_eq_iff row.prompt_id prompt_id).0 hit in
      rw hit (
        ap (λ rest. collect [] (row ∷ rest)) alone
        ∙ collect_row row.prompt_id row.owner_id row.item
        ∙ ap (λ id. answer id (some (row.owner_id, row.item))) named)
  | inr miss ↦ rw miss (collect-select prompt_id rows (omega (arith, rw miss at one)))
]

pub query-answer :
    (prompt_id : String) (rows : List Row)
    → IsUnique rows
    → query (by_prompt prompt_id) rows ≡ answer prompt_id (content prompt_id rows)
unfolding query
query-answer prompt_id rows unique =
    ap (collect []) (page-by_prompt prompt_id rows)
    ∙ collect-select prompt_id rows (unique prompt_id)

empty-Refines : Refines [] (λ id. none)
unfolding count content
empty-Refines = record { unique = λ id. omega arith; sound = λ id v h. h }

-- After any calls of save, delete, delete_owner and clear that return, one after the other on an empty
-- table, a query for a prompt answers with nothing, or with what the abstract history has for the
-- prompt: the item of its last save, with that save's owner, if no later call deleted it.
query-run :
    (number : ℤ → String) (max_items : ℕ) (calls : List Call) (prompt_id : String) {rows : List Row}
    → run number max_items calls [] ≡ some rows
    → (query (by_prompt prompt_id) rows ≡ some [])
      ⊎ (query (by_prompt prompt_id) rows
          ≡ answer prompt_id (replay number calls (λ id. none) prompt_id))
query-run number max_items calls prompt_id {rows = rows} e =
    let reached = run-Refines number max_items calls [] (λ id. none) empty-Refines e in
    let answered = query-answer prompt_id rows reached.unique in
    elim (Option-cases (content prompt_id rows)) [
      | inl absent ↦ inl (answered ∙ ap (answer prompt_id) absent)
      | inr (v, present) ↦
          inr (answered ∙ ap (answer prompt_id) (present ∙ sym (reached.sound prompt_id v present)))
    ]

-- If at most `max_items` of these calls are saves, the query answers with exactly what the abstract
-- history has.
pub query-run_exact :
    (number : ℤ → String) (max_items : ℕ) (calls : List Call) (prompt_id : String) {rows : List Row}
    → run number max_items calls [] ≡ some rows
    → saves calls ≤ max_items
    → query (by_prompt prompt_id) rows
      ≡ answer prompt_id (replay number calls (λ id. none) prompt_id)
query-run_exact number max_items calls prompt_id {rows = rows} e few =
    let reached = run-Refines number max_items calls [] (λ id. none) empty-Refines e in
    query-answer prompt_id rows reached.unique
    ∙ ap (answer prompt_id)
        (run-Matches number max_items calls [] (λ id. none) (empty-Matches _ _ few) e prompt_id)
