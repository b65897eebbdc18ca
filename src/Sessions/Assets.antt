-- ===== src/Sessions/Assets.antt =====
-- The search of `delegated` of utils/agent_task_routes.py for an output file among the results of an agent
-- task's children. `none` is an exception: a value that should be a dict and is none.
use comfy_ui_account_manager.Base.{
  String, Bool, false, ◌&&◌, ◌||◌, List, [], ◌∷◌, Option, none, some, str_eq,
}
use comfy_ui_account_manager.Base.Dict.{Dict}
use comfy_ui_account_manager.Base.Int.{negsuc}
use comfy_ui_account_manager.Base.Options.{◌>>=◌}
use comfy_ui_account_manager.History.Store.{Row, Query, query}
use comfy_ui_account_manager.Json.{Json, arr, obj, Elements, nil, cons, Members, end, member, get}
use comfy_ui_account_manager.Json.Writing.{as_dict, is_text}

-- What the request asks /view for.
pub record Wanted : Type 0 where
  pub filename : String
  pub subfolder : String
  pub kind : String

-- item.get(k, default) == wanted
unfoldable pub field_is : Members → String → String → String → Bool
unfolding get
field_is ms k default wanted = elim (get ms k) [
  | none ↦ str_eq default wanted
  | some v ↦ is_text v wanted
]

-- isinstance(item, dict) and all(...)
unfoldable pub is_wanted : Wanted → Json → Bool
unfolding field_is
is_wanted w (obj item) =
    field_is item "filename" "" w.filename
    && (field_is item "subfolder" "" w.subfolder && field_is item "type" "output" w.kind)
is_wanted w other = false

unfoldable pub any_wanted : Wanted → Elements → Bool
unfolding is_wanted
any_wanted w nil = false
any_wanted w (cons item items) = is_wanted w item || any_wanted w items

unfoldable pub in_value : Wanted → Json → Bool
unfolding any_wanted
in_value w (arr items) = any_wanted w items
in_value w other = false

-- for value in output.values()
unfoldable pub in_output : Wanted → Members → Bool
unfolding in_value
in_output w end = false
in_output w (member k value values) = in_value w value || in_output w values

-- for output in outputs.values()
unfoldable pub in_outputs : Wanted → Members → Option Bool
unfolding in_output
in_outputs w end = some false
in_outputs w (member k output outputs) = do
  ms ← as_dict output
  rest ← in_outputs w outputs
  some (in_output w ms || rest)

-- entry.get('outputs', {})
unfoldable pub outputs_of : Members → Option Members
unfolding get
outputs_of entry = elim (get entry "outputs") [ none ↦ some end | some v ↦ as_dict v ]

-- for entry in entries.values()
unfoldable pub in_entries : Wanted → Dict Members → Option Bool
unfolding outputs_of in_outputs
in_entries w [] = some false
in_entries w (entry ∷ entries) = do
  outputs ← outputs_of entry.1
  here ← in_outputs w outputs
  rest ← in_entries w entries
  some (here || rest)

-- self.history.query(owner_id=..., prompt_id=...)
abbrev pub child_query : String → String → Query
child_query owner prompt_id = record {
  max_items = none;
  offset = negsuc 0;
  owner_id = some owner;
  prompt_id = some prompt_id;
  column = λ item. item;
}

-- `allowed`, after the loop over the children.
unfoldable pub may_view : Wanted → String → List String → List Row → Option Bool
unfolding query in_entries
may_view w owner [] history = some false
may_view w owner (prompt_id ∷ prompts) history = do
  entries ← query (child_query owner prompt_id) history
  here ← in_entries w entries
  rest ← may_view w owner prompts history
  some (here || rest)
