-- ===== src/Scheduler/Settings.antt =====
-- `__init__`, `classify_item`, `_encode_item` and `_decode_item` of utils/scheduler_store.py. A
-- queue item is the list of the fields of its tuple.
use comfy_ui_account_manager.Base.{
  ℕ, String, Bool, false, not, ◌||◌, List, [], ◌∷◌, some, max, map, str_eq, ltb, ◌==◌,
  if◌then◌else◌, length, take, get_elem?,
}
use comfy_ui_account_manager.Base.Dict.{Dict}
use comfy_ui_account_manager.Base.Table.{select}
use comfy_ui_account_manager.Json.{Json, obj, Members, end, member, Python, text_field}
use comfy_ui_account_manager.Scheduler.Rows.{Settings, Result, ok, err, value_error}

-- The settings that `__init__` derives from its arguments.
unfoldable pub make_settings : ℕ → ℕ → Dict ℕ → List String → Settings
unfolding select
make_settings per_user admin limits gpu_types = record {
  max_concurrent_jobs_per_user = max 1 per_user;
  admin_concurrency_limit = max 0 admin;
  resource_concurrency_limits = map (λ (entry : String × ℕ). (entry.0, max 1 entry.1)) limits;
  gpu_node_types = select (λ node_type. not (str_eq node_type "")) gpu_types;
}

-- k in names
unfoldable pub contains : List String → String → Bool
contains [] k = false
contains (j ∷ js) k = str_eq j k || contains js k

-- isinstance(node, dict) and str(node.get("class_type") or "") in self.gpu_node_types
unfoldable pub is_gpu_node : Python → List String → Json → Bool
unfolding contains text_field
is_gpu_node py gpu_types (obj node) = contains gpu_types (text_field py node "class_type")
is_gpu_node py gpu_types _ = false

-- The loop over `prompt.values()`.
unfoldable pub any_gpu_node : Python → List String → Members → Bool
unfolding is_gpu_node
any_gpu_node py gpu_types end = false
any_gpu_node py gpu_types (member k node rest) =
    is_gpu_node py gpu_types node || any_gpu_node py gpu_types rest

-- item[2] if len(item) > 2 and isinstance(item[2], dict) else {}
unfoldable pub prompt_of : List Json → Members
prompt_of item = elim (get_elem? item 2) [ some (obj prompt) ↦ prompt | _ ↦ end ]

unfoldable pub classify_item : Python → Settings → List Json → String
unfolding prompt_of any_gpu_node
classify_item py settings item = elim settings.gpu_node_types [
  | [] ↦ "default"
  | name ∷ names ↦ if any_gpu_node py (name ∷ names) (prompt_of item) then "gpu" else "api"
]

-- The payload of a job: the first six fields.
unfoldable pub encode_item : List Json → Result (List Json)
encode_item item = if ltb (length item) 6 then err value_error else ok (take 6 item)

unfoldable pub decode_item : List Json → Result (List Json)
decode_item payload = if length payload == 6 then ok payload else err value_error
