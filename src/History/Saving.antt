-- ===== src/History/Saving.antt =====
-- A saved item can be queried: `save` followed by `query`.
use mathlib.Core.Option.{some-injective}
use comfy_ui_account_manager.Base.{
  ℕ, ◌-◌, ◌≤◌, String, List, [], ◌∷◌, Option, none, some, ◌≡◌, refl, sym, ap, ◌∙◌, inl, inr, arith,
  str_eq_iff, str_eq_refl, length, map, Option-cases, Bool-cases,
}
use comfy_ui_account_manager.Base.Dict.{Dict, insert}
use comfy_ui_account_manager.Base.Int.{ℤ, negsuc}
use comfy_ui_account_manager.Base.Options.{◌>>=◌, >>=-eq-some}
use comfy_ui_account_manager.Base.Table.{count, select, fetch_one, upsert}
use comfy_ui_account_manager.Base.Table.Laws.{fetch_one-mem, fetch_one-none, count-pos_of_mem}
use comfy_ui_account_manager.Base.Table.Latest.{
  length-upsert-of_present, upsert_of_absent, length-append-one, select-drop_snoc,
  select-upsert_one,
}
use comfy_ui_account_manager.Json.{text, obj, Members}
use comfy_ui_account_manager.Json.Writing.{put}
use comfy_ui_account_manager.History.Items.{repair_recovery_fields}
use comfy_ui_account_manager.History.Store.{
  Row, is_prompt, owner_of, retain, store_row, save, collect_item, collect, Query, page, query,
  with_column,
}

-- Prompt ids are UNIQUE.
abbrev pub IsUnique : List Row → Type 0
IsUnique rows = (prompt_id : String) → count (is_prompt prompt_id) rows ≤ 1

-- query(prompt_id=...), as the program calls it for one job
abbrev pub by_prompt : String → Query
by_prompt prompt_id = record {
  max_items = none;
  offset = negsuc 0;
  owner_id = none;
  prompt_id = some prompt_id;
  column = λ item. item;
}

-- After `store_row` and `retain` the written row is the only one of its prompt.
select-store_row :
    (max_items : ℕ) (new : Row) (rows : List Row)
    → count (is_prompt new.prompt_id) rows ≤ 1
    → 1 ≤ max_items
    → length rows ≤ max_items
    → select (is_prompt new.prompt_id) (retain max_items (store_row new rows)) ≡ new ∷ []
unfolding retain store_row
select-store_row max_items new rows one positive small =
    let p = is_prompt new.prompt_id in
    let f = λ (row : Row). record row { owner_id = new.owner_id; item = new.item } in
    elim (Option-cases (fetch_one p rows)) [
      | inl e ↦
          let absent = fetch_one-none p rows e in
          rw (upsert_of_absent p f new rows absent) (
            select-drop_snoc p _ rows new absent (str_eq_refl new.prompt_id)
              (omega (arith, positive, small, length-append-one rows new)))
      | inr (row, e) ↦
          let (stored, named) = fetch_one-mem p rows e in
          let same : f row ≡ new =
            ap (λ id. record new { prompt_id = id })
              ((str_eq_iff row.prompt_id new.prompt_id).0 named) in
          let kept : length (upsert p f new rows) - max_items ≡ 0 = omega (
            arith,
            small,
            length-upsert-of_present p f new rows (count-pos_of_mem p rows stored named),
          ) in
          rw kept (select-upsert_one p f new rows e one named ∙ ap (λ r. r ∷ []) same)
    ]

-- An item as `load` and `query` show it, alone in its dict.
abbrev pub shown : String → String → Members → Option (Dict Members)
shown prompt_id owner_id item = repair_recovery_fields item >>= λ repaired.
    some ((prompt_id, put repaired "user_id" (text owner_id)) ∷ [])

pub collect-one :
    (prompt_id owner_id : String) (item : Members)
    → collect [] (record { prompt_id = prompt_id; owner_id = owner_id; item = obj item } ∷ [])
      ≡ shown prompt_id owner_id item
unfolding collect collect_item insert
collect-one prompt_id owner_id item = elim (Option-cases (repair_recovery_fields item)) [
  | inl e ↦ rw e refl
  | inr (repaired, e) ↦ rw e refl
]

-- A query that only asks for a prompt selects its rows.
pub page-by_prompt :
    (prompt_id : String) (rows : List Row)
    → map (with_column (by_prompt prompt_id).column) (page (by_prompt prompt_id) rows)
      ≡ select (is_prompt prompt_id) rows
unfolding page select
page-by_prompt prompt_id [] = refl
page-by_prompt prompt_id (row ∷ rows) = elim (Bool-cases (is_prompt prompt_id row)) [
  | inl hit ↦ rw hit (ap (λ rest. row ∷ rest) (page-by_prompt prompt_id rows))
  | inr miss ↦ rw miss (page-by_prompt prompt_id rows)
]

-- On a table with unique prompt ids and at most `max_items` rows, where `max_items` is not 0: if `save`
-- returns, then the query for the prompt answers with that prompt alone, and with the saved item, after
-- the repair of recovery fields and with the owner that the row got as its user id.
pub save_then_query :
    (number : ℤ → String) (prompt_id : String) (item : Members) (max_items : ℕ) (rows : List Row)
    {rows' : List Row}
    → IsUnique rows
    → 1 ≤ max_items
    → length rows ≤ max_items
    → save number prompt_id item max_items rows ≡ some rows'
    → (owner_id : String) × (owner_of number item ≡ some owner_id)
      × (query (by_prompt prompt_id) rows' ≡ shown prompt_id owner_id item)
unfolding save query
save_then_query number prompt_id item max_items rows unique positive small e =
    let (owner_id, done, owned) = >>=-eq-some (owner_of number item) _ e in
    let new : Row = record { prompt_id = prompt_id; owner_id = owner_id; item = obj item } in
    let same : retain max_items (store_row new rows) ≡ _ = some-injective _ _ done in
    (
      owner_id,
      owned,
      ap (collect []) (
            page-by_prompt prompt_id _
            ∙ ap (select (is_prompt prompt_id)) (sym same)
            ∙ select-store_row max_items new rows (unique prompt_id) positive small)
          ∙ collect-one prompt_id owner_id item,
    )
