-- ===== src/History/Refinement.antt =====
-- The table against the abstract history of History/Replay.
use mathlib.Core.Option.{some-injective, none-ne-some}
use comfy_ui_account_manager.Base.{
  ℕ, String, List, [], ◌∷◌, some, ◌≡◌, sym, ap, ◌∙◌, subst, inl, inr, arith, str_eq, Bool-cases,
  Option-cases,
}
use comfy_ui_account_manager.Base.Int.{ℤ}
use comfy_ui_account_manager.Base.Options.{>>=-eq-some}
use comfy_ui_account_manager.Base.Table.{count, delete}
use comfy_ui_account_manager.Json.{Json, obj, Members}
use comfy_ui_account_manager.History.Contents.{
  content, without_owner, content-store_row, content-delete_prompt, content-delete_owner,
  content-drop, store_row-IsUnique, drop-IsUnique, select-IsUnique,
}
use comfy_ui_account_manager.History.Saving.{IsUnique}
use comfy_ui_account_manager.History.Store.{
  Row, owner_of, retain, store_row, save, delete_prompt, delete_owner, clear,
}
use comfy_ui_account_manager.History.Replay.{
  Call, saving, deleting, deleting_owner, clearing, Spec, call, run, saved_content, replay_call,
  replay,
}

-- The table shows nothing that the abstract history does not have.
pub record Refines (rows : List Row) (spec : Spec) : Type 0 where
  pub unique : IsUnique rows
  pub sound :
      (prompt_id : String) (v : String × Json)
      → content prompt_id rows ≡ some v
      → spec prompt_id ≡ some v

module _ (number : ℤ → String) where
  saved-Refines :
      (max_items : ℕ) (prompt_id : String) (item : Members) (rows : List Row) (spec : Spec)
      {next : List Row}
      → Refines rows spec
      → save number prompt_id item max_items rows ≡ some next
      → Refines next (replay_call number (saving prompt_id item) spec)
  unfolding save retain replay_call saved_content
  saved-Refines max_items prompt_id item rows spec r e =
      let (owner_id, done, owned) = >>=-eq-some (owner_of number item) _ e in
      let new : Row = record { prompt_id = prompt_id; owner_id = owner_id; item = obj item } in
      let written = store_row-IsUnique new rows r.unique in
      subst (λ rs. Refines rs (replay_call number (saving prompt_id item) spec))
        (some-injective _ _ done)
        (record {
          unique = drop-IsUnique _ _ written;
          sound = λ id v h.
              let h' =
                sym (content-store_row new rows id)
                ∙ content-drop _ (store_row new rows) id (written id) h in
              elim (Bool-cases (str_eq prompt_id id)) [
                | inl hit ↦ rw (hit, owned) (rw hit at h')
                | inr miss ↦ rw miss (r.sound id v (rw miss at h'))
              ];
        })

  call-Refines :
      (max_items : ℕ) (c : Call) (rows : List Row) (spec : Spec) {next : List Row}
      → Refines rows spec
      → call number max_items c rows ≡ some next
      → Refines next (replay_call number c spec)
  unfolding call replay_call delete_prompt delete_owner delete clear count content
  call-Refines max_items (saving prompt_id item) rows spec r e =
      saved-Refines max_items prompt_id item rows spec r e
  call-Refines max_items (deleting gone) rows spec r e =
      subst (λ rs. Refines rs (replay_call number (deleting gone) spec)) (some-injective _ _ e)
        (record {
          unique = select-IsUnique _ rows r.unique;
          sound = λ id v h.
              let h' = sym (content-delete_prompt gone rows id) ∙ h in
              elim (Bool-cases (str_eq gone id)) [
                | inl hit ↦ rw hit (rw hit at h')
                | inr miss ↦ rw miss (r.sound id v (rw miss at h'))
              ];
        })
  call-Refines max_items (deleting_owner gone) rows spec r e =
      subst (λ rs. Refines rs (replay_call number (deleting_owner gone) spec))
        (some-injective _ _ e)
        (record {
          unique = select-IsUnique _ rows r.unique;
          sound = λ id v h.
              let h' = sym (content-delete_owner gone rows id (r.unique id)) ∙ h in
              elim (Option-cases (content id rows)) [
                | inl absent ↦ absurd (none-ne-some v (rw absent at h'))
                | inr (w, present) ↦
                    ap (without_owner gone) (r.sound id w present) ∙ (rw present at h')
              ];
        })
  call-Refines max_items clearing rows spec r e =
      subst (λ rs. Refines rs (replay_call number clearing spec)) (some-injective _ _ e)
        (record { unique = λ id. omega arith; sound = λ id v h. absurd (none-ne-some v h) })

  -- Whatever calls return one after the other on an empty table: an owner and an item that the table has
  -- for a prompt are those of the abstract history.
  pub run-Refines :
      (max_items : ℕ) (calls : List Call) (rows : List Row) (spec : Spec) {final : List Row}
      → Refines rows spec
      → run number max_items calls rows ≡ some final
      → Refines final (replay number calls spec)
  unfolding run replay
  run-Refines max_items [] rows spec r e = subst (λ rs. Refines rs spec) (some-injective _ _ e) r
  run-Refines max_items (c ∷ calls) rows spec r e =
      let (next, rest, one) = >>=-eq-some (call number max_items c rows) _ e in
      run-Refines max_items calls next (replay_call number c spec)
        (call-Refines max_items c rows spec r one) rest
