-- ===== src/History/Contents.antt =====
-- What each statement of the class HistoryStore does to the owner and the item that the table has for a
-- prompt.
use comfy_ui_account_manager.Base.{
  ℕ, zero, suc, ◌+◌, ◌≤◌, String, Bool, List, [], ◌∷◌, Option, none, some, ◌≡◌, refl, ap, ◌∙◌, inl,
  inr, arith, str_eq, str_eq_iff, length, drop, Bool-cases, if◌then◌else◌, ltb,
}
use comfy_ui_account_manager.Base.Table.{count, select, delete, upsert}
use comfy_ui_account_manager.Base.Table.Latest.{count-drop-le, count-select-le}
use comfy_ui_account_manager.Json.{Json}
use comfy_ui_account_manager.History.Saving.{IsUnique}
use comfy_ui_account_manager.History.Store.{
  Row, is_prompt, is_owner, store_row, delete_prompt, delete_owner,
}

abbrev pub Content : Type 0
Content = Option (String × Json)

-- SELECT owner_id, data ... WHERE prompt_id = ?
unfoldable pub content : String → List Row → Content
content prompt_id [] = none
content prompt_id (row ∷ rows) =
    let later = content prompt_id rows in
    if is_prompt prompt_id row then some (row.owner_id, row.item) else later

-- The same after the rows of an owner are gone.
abbrev pub without_owner : String → Content → Content
without_owner owner_id none = none
without_owner owner_id (some (owner, item)) =
    if str_eq owner owner_id then none else some (owner, item)

content_of_absent :
    (prompt_id : String) (rows : List Row)
    → count (is_prompt prompt_id) rows ≡ 0
    → content prompt_id rows ≡ none
unfolding content count
content_of_absent prompt_id [] h = refl
content_of_absent prompt_id (row ∷ rows) h = ground (arith, h, content_of_absent prompt_id rows)

pub content-store_row :
    (new : Row) (rows : List Row) (prompt_id : String)
    → content prompt_id (store_row new rows) ≡ (
        if str_eq new.prompt_id prompt_id
        then some (new.owner_id, new.item)
        else content prompt_id rows)
unfolding content store_row upsert
content-store_row new [] prompt_id = refl
content-store_row new (row ∷ rows) prompt_id = ground (
  arith,
  content-store_row new rows prompt_id,
  str_eq_iff row.prompt_id new.prompt_id,
  str_eq_iff row.prompt_id prompt_id,
  str_eq_iff new.prompt_id prompt_id,
)

pub content-delete_prompt :
    (gone : String) (rows : List Row) (prompt_id : String)
    → content prompt_id (delete_prompt gone rows)
      ≡ (if str_eq gone prompt_id then none else content prompt_id rows)
unfolding content delete_prompt delete select
content-delete_prompt gone [] prompt_id = ground arith
content-delete_prompt gone (row ∷ rows) prompt_id = ground (
  arith,
  content-delete_prompt gone rows prompt_id,
  str_eq_iff row.prompt_id gone,
  str_eq_iff row.prompt_id prompt_id,
  str_eq_iff gone prompt_id,
)

pub content-delete_owner :
    (gone : String) (rows : List Row) (prompt_id : String)
    → count (is_prompt prompt_id) rows ≤ 1
    → content prompt_id (delete_owner gone rows) ≡ without_owner gone (content prompt_id rows)
unfolding content delete_owner delete select count
content-delete_owner gone [] prompt_id one = refl
content-delete_owner gone (row ∷ rows) prompt_id one =
    let ih = content-delete_owner gone rows prompt_id in
    elim (Bool-cases (is_prompt prompt_id row)) [
      | inl hit ↦
          let absent = content_of_absent prompt_id rows (omega (arith, rw hit at one)) in
          let left = ih (omega (arith, rw hit at one)) in
          elim (Bool-cases (is_owner gone row)) [
            | inl t ↦ rw (hit, t) (left ∙ ap (without_owner gone) absent)
            | inr f ↦ rw (hit, f, hit) refl
          ]
      | inr miss ↦
          let left = ih (omega (arith, rw miss at one)) in
          elim (Bool-cases (is_owner gone row)) [
            | inl t ↦ rw (miss, t) left
            | inr f ↦ rw (miss, f, miss) left
          ]
    ]

pub content-drop :
    (k : ℕ) (rows : List Row) (prompt_id : String) {v : String × Json}
    → count (is_prompt prompt_id) rows ≤ 1
    → content prompt_id (drop k rows) ≡ some v
    → content prompt_id rows ≡ some v
unfolding content count
content-drop zero rows prompt_id one e = e
content-drop (suc k) [] prompt_id one e = e
content-drop (suc k) (row ∷ rows) prompt_id one e = elim (Bool-cases (is_prompt prompt_id row)) [
  | inl hit ↦
      let absent = content_of_absent prompt_id rows (omega (arith, rw hit at one)) in
      ground (arith, absent, content-drop k rows prompt_id (omega (arith, rw hit at one)) e)
  | inr miss ↦ rw miss (content-drop k rows prompt_id (omega (arith, rw miss at one)) e)
]

count-store_row :
    (new : Row) (rows : List Row) (prompt_id : String)
    → count (is_prompt prompt_id) (store_row new rows) ≡ (
        if str_eq new.prompt_id prompt_id
        then (if ltb 0 (count (is_prompt prompt_id) rows)
            then count (is_prompt prompt_id) rows
            else 1)
        else count (is_prompt prompt_id) rows)
unfolding count store_row upsert
count-store_row new [] prompt_id = ground arith
count-store_row new (row ∷ rows) prompt_id = ground (
  arith,
  count-store_row new rows prompt_id,
  str_eq_iff row.prompt_id new.prompt_id,
  str_eq_iff row.prompt_id prompt_id,
  str_eq_iff new.prompt_id prompt_id,
)

pub store_row-IsUnique :
    (new : Row) (rows : List Row) → IsUnique rows → IsUnique (store_row new rows)
store_row-IsUnique new rows unique prompt_id =
    ground (arith, count-store_row new rows prompt_id, unique prompt_id)

pub drop-IsUnique : (k : ℕ) (rows : List Row) → IsUnique rows → IsUnique (drop k rows)
drop-IsUnique k rows unique prompt_id =
    omega (arith, count-drop-le (is_prompt prompt_id) k rows, unique prompt_id)

pub select-IsUnique : (q : Row → Bool) (rows : List Row) → IsUnique rows → IsUnique (select q rows)
select-IsUnique q rows unique prompt_id =
    omega (arith, count-select-le (is_prompt prompt_id) q rows, unique prompt_id)

pub length-store_row : (new : Row) (rows : List Row) → length (store_row new rows) ≤ length rows + 1
unfolding store_row upsert
length-store_row new [] = omega arith
length-store_row new (row ∷ rows) = ground (arith, length-store_row new rows)

pub length-select : (q : Row → Bool) (rows : List Row) → length (select q rows) ≤ length rows
unfolding select
length-select q [] = omega arith
length-select q (row ∷ rows) = ground (arith, length-select q rows)
