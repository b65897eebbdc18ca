-- ===== src/History/Protected.antt =====
-- What `merge_api_recovery` protects, and what it adds.
use mathlib.Core.Option.{some-injective, none-ne-some}
use comfy_ui_account_manager.Base.{
  ℕ, String, Bool, true, false, List, [], ◌∷◌, none, some, ◌≡◌, refl, sym, ap, ◌∙◌, ◌⊎◌, inl, inr,
  arith, str_eq, str_eq_iff, str_eq_refl, Bool-cases, Option-cases, if◌then◌else◌,
}
use comfy_ui_account_manager.Base.Options.{◌>>=◌}
use comfy_ui_account_manager.Base.Table.{fetch_one, upsert}
use comfy_ui_account_manager.Json.{Json, null, bool, num, text, arr, obj, Members}
use comfy_ui_account_manager.Json.Writing.{as_dict}
use comfy_ui_account_manager.History.Store.{Row, is_prompt}
use comfy_ui_account_manager.History.Contents.{Content, content}
use comfy_ui_account_manager.History.Merging.{IsRecorded, written, merge_api_recovery-IsMerged}
use comfy_ui_account_manager.History.Recovering.{
  Recovery, is_mismatch, item_of, is_success, store_item, merge_api_recovery,
}

content-fetch_one :
    (prompt_id : String) (rows : List Row)
    → content prompt_id rows
      ≡ (fetch_one (is_prompt prompt_id) rows >>= λ row. some (row.owner_id, row.item))
unfolding content fetch_one
content-fetch_one prompt_id [] = refl
content-fetch_one prompt_id (row ∷ rows) = elim (Bool-cases (is_prompt prompt_id row)) [
  | inl hit ↦ rw hit refl
  | inr miss ↦ rw miss (content-fetch_one prompt_id rows)
]

-- The owner that a prompt has, or gets.
abbrev owner_or : String → Content → String
owner_or owner_id none = owner_id
owner_or owner_id (some (owner, item)) = owner

content-store_item :
    (new : Row) (rows : List Row) (prompt_id : String)
    → content prompt_id (store_item new rows) ≡ (
        if str_eq new.prompt_id prompt_id
        then some (owner_or new.owner_id (content prompt_id rows), new.item)
        else content prompt_id rows)
unfolding content store_item upsert
content-store_item new [] prompt_id = refl
content-store_item new (row ∷ rows) prompt_id = ground (
  arith,
  content-store_item new rows prompt_id,
  str_eq_iff row.prompt_id new.prompt_id,
  str_eq_iff row.prompt_id prompt_id,
  str_eq_iff new.prompt_id prompt_id,
)

owner_of_mismatch :
    (task : Recovery) (row : Row)
    → is_mismatch task (some row) ≡ false
    → row.owner_id ≡ task.owner_id
owner_of_mismatch task row own = (str_eq_iff row.owner_id task.owner_id).0 (ground (arith, own))

dict_of : (item : Json) {ms : Members} → as_dict item ≡ some ms → item ≡ obj ms
dict_of (obj ms) e = ap obj (some-injective _ _ e)
dict_of null e = absurd (none-ne-some _ e)
dict_of (bool b) e = absurd (none-ne-some _ e)
dict_of (num n) e = absurd (none-ne-some _ e)
dict_of (text t) e = absurd (none-ne-some _ e)
dict_of (arr xs) e = absurd (none-ne-some _ e)

-- The row may get a recovered result: it is of the task's prompt and owner, and did not succeed.
pub record IsOpen (task : Recovery) (prompt_id owner_id : String) (item : Json) : Type 0 where
  pub prompted : prompt_id ≡ task.prompt_id
  pub owned : owner_id ≡ task.owner_id
  pub members : Members
  pub dict : item ≡ obj members
  pub unfinished : is_success members ≡ some false

module _ (now : ℕ) (task : Recovery) (state message : String) (videos : List Json) where
  opened :
      (rows : List Row) (owner_id : String) (item : Json) {ms : Members}
      → content task.prompt_id rows ≡ some (owner_id, item)
      → item_of task now (fetch_one (is_prompt task.prompt_id) rows) ≡ some ms
      → is_mismatch task (fetch_one (is_prompt task.prompt_id) rows) ≡ false
      → (owner_id ≡ task.owner_id) × (item ≡ obj ms)
  opened rows owner_id item present read own =
      let found = sym (content-fetch_one task.prompt_id rows) ∙ present in
      elim (Option-cases (fetch_one (is_prompt task.prompt_id) rows)) [
        | inl absent ↦ absurd (none-ne-some _ (rw absent at found))
        | inr (row, stored) ↦
            let same : (row.owner_id, row.item) ≡ (owner_id, item) =
              some-injective _ _ (rw stored at found) in
            (
              ap (λ v. v.0) (sym same) ∙ owner_of_mismatch task row (rw stored at own),
              ap (λ v. v.1) (sym same) ∙ dict_of row.item (rw stored at read),
            )
      ]

  -- A call of `merge_api_recovery` that returns keeps every prompt that the history has, with its owner,
  -- and changes an item only if it is a dict of the task's own prompt and owner and its status is not
  -- "success".
  pub merge_protects :
      (rows : List Row) (prompt_id owner_id : String) (item : Json) {answered : Bool × List Row}
      → merge_api_recovery now task state message videos rows ≡ some answered
      → content prompt_id rows ≡ some (owner_id, item)
      → (item' : Json) × (content prompt_id answered.1 ≡ some (owner_id, item'))
        × ((item' ≡ item) ⊎ IsOpen task prompt_id owner_id item)
  merge_protects rows prompt_id owner_id item e present =
      let m = merge_api_recovery-IsMerged now task state message videos rows e in
      elim m.ends [
        | inl same ↦ (item, ap (λ r. content prompt_id r.1) same ∙ present, inl refl)
        | inr (merged, success, _, same) ↦
            let after =
              ap (λ r. content prompt_id r.1) same
              ∙ content-store_item (written task merged) rows prompt_id in
            elim (Bool-cases (str_eq task.prompt_id prompt_id)) [
              | inr other ↦ (item, rw other at after ∙ present, inl refl)
              | inl hit ↦
                  let named = (str_eq_iff task.prompt_id prompt_id).0 hit in
                  let (owned, dict) =
                    opened rows owner_id item (ap (λ id. content id rows) named ∙ present) m.read
                      m.own in
                  (
                    obj merged,
                    rw (hit, present) at after,
                    inr (record {
                      prompted = sym named;
                      owned = owned;
                      members = m.item;
                      dict = dict;
                      unfinished = success;
                    }),
                  )
            ]
      ]

  kept_owner :
      (rows : List Row) {ms : Members}
      → item_of task now (fetch_one (is_prompt task.prompt_id) rows) ≡ some ms
      → is_mismatch task (fetch_one (is_prompt task.prompt_id) rows) ≡ false
      → owner_or task.owner_id (content task.prompt_id rows) ≡ task.owner_id
  kept_owner rows read own = elim (Option-cases (content task.prompt_id rows)) [
    | inl absent ↦ ap (owner_or task.owner_id) absent
    | inr (v, present) ↦
        ap (owner_or task.owner_id) present ∙ (opened rows v.0 v.1 present read own).0
  ]

  -- If it answers True, the history has an item for the task's prompt and owner, and that item has an
  -- entry under "api_recovery" and the task's id with the task, the state and the message.
  pub merge_records :
      (rows : List Row) {rows' : List Row}
      → merge_api_recovery now task state message videos rows ≡ some (true, rows')
      → (merged : Members) × (content task.prompt_id rows' ≡ some (task.owner_id, obj merged))
        × IsRecorded task state message merged
  merge_records rows e =
      let m = merge_api_recovery-IsMerged now task state message videos rows e in
      elim m.ends [
        | inl same ↦ absurd (ground (arith, ap (λ r. r.0) same))
        | inr (merged, success, recorded, same) ↦
            let after = content-store_item (written task merged) rows task.prompt_id in
            let mine =
              ap
                (λ b.
                  if b
                  then some (owner_or task.owner_id (content task.prompt_id rows), obj merged)
                  else content task.prompt_id rows)
                (str_eq_refl task.prompt_id)
              ∙ ap (λ owner. some (owner, obj merged)) (kept_owner rows m.read m.own) in
            (merged, ap (λ r. content task.prompt_id r.1) same ∙ after ∙ mine, recorded)
      ]
