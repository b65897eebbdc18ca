-- ===== src/History/Items.antt =====
-- `_repair_recovery_fields` of utils/history_store.py. It changes an item in place; here it answers with
-- the new item, and with `none` where it raises. The messages of an item are a list of pairs, as the
-- program writes them: anything else counts as raising, where Python also unpacks some texts and dicts.
use comfy_ui_account_manager.Base.{Bool, false, Option, none, some, if◌then◌else◌}
use comfy_ui_account_manager.Base.Options.{◌>>=◌}
use comfy_ui_account_manager.Json.{Json, arr, obj, Elements, nil, cons, Members, end, get, truthy}
use comfy_ui_account_manager.Json.Writing.{
  put, set_default, as_dict, at, put_at, is_text, get_value, dict_or_empty,
}

-- item["prompt"][3], with the list that holds it
unfoldable pub extra_of : Members → Option (Elements × Members)
unfolding get
extra_of item = elim (get item "prompt") [
  | some (arr prompt) ↦ at prompt 3 >>= as_dict >>= λ extra. some (prompt, extra)
  | some other ↦ none
  | none ↦ none
]

-- The body of the test on an "execution_start" with a timestamp.
unfoldable pub fill_create_time : Json → Members → Option Members
unfolding extra_of
fill_create_time timestamp item = do
  (prompt, extra) ← extra_of item
  some (elim (get_value extra "create_time") [
    | some time ↦ item
    | none ↦ put item "prompt" (arr (put_at prompt 3 (obj (put extra "create_time" timestamp))))
  ])

-- The three writes to the data of an "execution_error".
unfoldable pub fill_error : Members → Members
fill_error info =
    set_default (set_default (set_default info "traceback" (arr nil)) "current_inputs" (obj end))
      "current_outputs" (arr nil)

-- data.get("node_type") == "APIRecovery"
unfoldable pub is_recovery : Members → Bool
unfolding get
is_recovery info = elim (get info "node_type") [
  | none ↦ false
  | some kind ↦ is_text kind "APIRecovery"
]

-- The two tests of the loop on one message: the item and the data after them.
unfoldable pub repair_message : Json → Json → Members → Option (Members × Json)
unfolding fill_create_time fill_error is_recovery
repair_message event info item =
    if is_text event "execution_start"
    then (do
      ms ← as_dict info
      elim (get_value ms "timestamp") [
        | none ↦ some (item, info)
        | some timestamp ↦ fill_create_time timestamp item >>= λ filled. some (filled, info)
      ])
    else if is_text event "execution_error"
    then (do ms ← as_dict info; some (item, if is_recovery ms then obj (fill_error ms) else info))
    else some (item, info)

-- The loop.
unfoldable pub repair_messages : Elements → Members → Option (Members × Elements)
unfolding repair_message
repair_messages nil item = some (item, nil)
repair_messages (cons (arr (cons event (cons info nil))) messages) item = do
  (changed, info') ← repair_message event info item
  (repaired, rest) ← repair_messages messages changed
  some (repaired, cons (arr (cons event (cons info' nil))) rest)
repair_messages (cons other messages) item = none

-- item.get("api_recovery") as a condition
abbrev pub is_recovered : Option Json → Bool
is_recovered none = false
is_recovered (some v) = truthy v

-- The loop over (item.get("status") or {}).get("messages", []), which changes the messages in place.
unfoldable pub with_messages : Members → Members → Option Json → Option Members
unfolding repair_messages
with_messages item status none = some item
with_messages item status (some (arr messages)) = do
  (repaired, messages') ← repair_messages messages item
  some (put repaired "status" (obj (put status "messages" (arr messages'))))
with_messages item status (some other) = none

unfoldable pub repair_recovery_fields : Members → Option Members
unfolding get with_messages
repair_recovery_fields item =
    if is_recovered (get item "api_recovery")
    then (do
      status ← dict_or_empty item "status"
      with_messages item status (get status "messages"))
    else some item
