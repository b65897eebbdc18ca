-- ===== src/History/Replay.antt =====
-- The abstract view of the history: a prompt has the owner and the item of the last `save`, unless it was
-- deleted since. History/Refinement compares the table with it.
use comfy_ui_account_manager.Base.{
  ℕ, suc, String, List, [], ◌∷◌, Option, none, some, str_eq, if◌then◌else◌,
}
use comfy_ui_account_manager.Base.Dict.{Dict}
use comfy_ui_account_manager.Base.Int.{ℤ}
use comfy_ui_account_manager.Base.Options.{◌>>=◌}
use comfy_ui_account_manager.Json.{obj, Members}
use comfy_ui_account_manager.History.Contents.{Content, without_owner}
use comfy_ui_account_manager.History.Saving.{shown}
use comfy_ui_account_manager.History.Store.{Row, owner_of, save, delete_prompt, delete_owner, clear}

-- A call of one of the methods that write.
pub data Call : Type 0 where
  saving : String → Members → Call
  deleting : String → Call
  deleting_owner : String → Call
  clearing : Call

-- The abstract history.
abbrev pub Spec : Type 0
Spec = String → Content

-- How many calls save.
abbrev pub saves : List Call → ℕ
saves [] = 0
saves (saving prompt_id item ∷ calls) = suc (saves calls)
saves (c ∷ calls) = saves calls

module _ (number : ℤ → String) where
  -- The rows after a call of the store, with the bound that its saves are given.
  unfoldable pub call : ℕ → Call → List Row → Option (List Row)
  unfolding save delete_prompt delete_owner clear
  call max_items (saving prompt_id item) rows = save number prompt_id item max_items rows
  call max_items (deleting prompt_id) rows = some (delete_prompt prompt_id rows)
  call max_items (deleting_owner owner_id) rows = some (delete_owner owner_id rows)
  call max_items clearing rows = some (clear rows)

  -- The calls in order; `none` if one raises.
  unfoldable pub run : ℕ → List Call → List Row → Option (List Row)
  unfolding call
  run max_items [] rows = some rows
  run max_items (c ∷ calls) rows = call max_items c rows >>= λ next. run max_items calls next

  -- The item as saved, with its owner.
  unfoldable pub saved_content : Members → Content
  unfolding owner_of
  saved_content item = owner_of number item >>= λ owner_id. some (owner_id, obj item)

  unfoldable pub replay_call : Call → Spec → Spec
  unfolding saved_content
  replay_call (saving saved item) spec prompt_id =
      if str_eq saved prompt_id then saved_content item else spec prompt_id
  replay_call (deleting gone) spec prompt_id =
      if str_eq gone prompt_id then none else spec prompt_id
  replay_call (deleting_owner gone) spec prompt_id = without_owner gone (spec prompt_id)
  replay_call clearing spec prompt_id = none

  unfoldable pub replay : List Call → Spec → Spec
  unfolding replay_call
  replay [] spec = spec
  replay (c ∷ calls) spec = replay calls (replay_call c spec)

-- The answer of a query for one prompt, where the history has the content for it.
abbrev pub answer : String → Content → Option (Dict Members)
answer prompt_id none = some []
answer prompt_id (some (owner_id, obj item)) = shown prompt_id owner_id item
answer prompt_id (some (owner_id, other)) = some []
