-- ===== src/History/Merging.antt =====
-- What `merge_api_recovery` does to the history.
use mathlib.Core.Option.{some-injective, none-ne-some}
use Prim.Native.String.{◌++◌ as concat}
use comfy_ui_account_manager.Base.{
  ℕ, String, Bool, true, false, List, some, ◌≡◌, refl, sym, ap, ◌∙◌, ◌⊎◌, inl, inr, Bool-cases,
}
use comfy_ui_account_manager.Base.Options.{>>=-eq-some}
use comfy_ui_account_manager.Base.Table.{fetch_one}
use comfy_ui_account_manager.Json.{Json, text, obj, Members, get}
use comfy_ui_account_manager.Json.Writing.{put_under, put_under-get, put_under-keeps}
use comfy_ui_account_manager.History.Repairing.{repair-keeps}
use comfy_ui_account_manager.History.Store.{Row, is_prompt}
use comfy_ui_account_manager.History.Recovering.{
  Recovery, is_mismatch, item_of, is_success, recovery_entry, recovered_output, with_recovery,
  store_item, merge_into, merge_api_recovery,
}

-- An item has an entry for the task under "api_recovery", which names the task, its provider and node, and
-- says the state and the message.
pub record IsRecorded (task : Recovery) (state message : String) (item : Members) : Type 0 where
  pub entries : Members
  pub recovered : get item "api_recovery" ≡ some (obj entries)
  pub entry : Members
  pub recorded : get entries task.id ≡ some (obj entry)
  pub of_provider : get entry "provider" ≡ some (text task.provider)
  pub of_task_id : get entry "task_id" ≡ some (text task.task_id)
  pub of_node_id : get entry "node_id" ≡ some (text task.node_id)
  pub of_state : get entry "state" ≡ some (text state)
  pub of_message : get entry "message" ≡ some (text message)

abbrev pub written : Recovery → Members → Row
written task merged = record {
  prompt_id = task.prompt_id;
  owner_id = task.owner_id;
  item = obj merged;
}

module _ (now : ℕ) (task : Recovery) (state message : String) (videos : List Json) where
  with_recovery-IsRecorded :
      (item : Members) {merged : Members}
      → with_recovery task state message videos item ≡ some merged
      → IsRecorded task state message merged
  unfolding with_recovery get
  with_recovery-IsRecorded item e =
      let (noted, rest, one) =
        >>=-eq-some
          (put_under item "api_recovery" task.id (obj (recovery_entry task state message))) _ e in
      let (complete, done, two) =
        >>=-eq-some
          (put_under noted "outputs" (concat "api_recovery_" task.id)
            (obj (recovered_output message videos)))
          _ rest in
      let (inner, outer_entry, entry) = put_under-get item "api_recovery" task.id _ one in
      record {
        entries = inner;
        recovered =
            repair-keeps "api_recovery" refl refl complete done
            ∙ put_under-keeps noted "outputs" _ "api_recovery" _ two refl
            ∙ outer_entry;
        entry = recovery_entry task state message;
        recorded = entry;
        of_provider = refl;
        of_task_id = refl;
        of_node_id = refl;
        of_state = refl;
        of_message = refl;
      }

  -- The two ways to return.
  pub record IsMerged (rows : List Row) (answered : Bool × List Row) : Type 0 where
    pub item : Members
    pub read : item_of task now (fetch_one (is_prompt task.prompt_id) rows) ≡ some item
    pub own : is_mismatch task (fetch_one (is_prompt task.prompt_id) rows) ≡ false
    pub ends :
        (answered ≡ (false, rows))
        ⊎ ((merged : Members) × (is_success item ≡ some false)
            × IsRecorded task state message merged
            × (answered ≡ (true, store_item (written task merged) rows)))

  pub merge_api_recovery-IsMerged :
      (rows : List Row) {answered : Bool × List Row}
      → merge_api_recovery now task state message videos rows ≡ some answered
      → IsMerged rows answered
  unfolding merge_api_recovery merge_into
  merge_api_recovery-IsMerged rows e =
      let existing = fetch_one (is_prompt task.prompt_id) rows in
      elim (Bool-cases (is_mismatch task existing)) [
        | inl foreign ↦ absurd (none-ne-some _ (rw foreign at e))
        | inr own ↦
            let (item, rest, read) = >>=-eq-some (item_of task now existing) _ (rw own at e) in
            let (done, last, success) = >>=-eq-some (is_success item) _ rest in
            record {
              item = item;
              read = read;
              own = own;
              ends = elim (Bool-cases done) [
                | inl yes_done ↦ inl (sym (some-injective _ _ (rw yes_done at last)))
                | inr not_done ↦
                    let (merged, stored, made) =
                      >>=-eq-some (with_recovery task state message videos item) _
                        (rw not_done at last) in
                    inr (
                      merged,
                      success ∙ ap some not_done,
                      with_recovery-IsRecorded item made,
                      sym (some-injective _ _ stored),
                    )
              ];
            }
      ]
