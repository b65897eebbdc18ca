-- ===== src/Control/Past.antt =====
-- The methods of the class AccessControl of utils/access_control.py on the history.
use comfy_ui_account_manager.Base.{
  ℕ, ◌+◌, ◌-◌, String, Bool, false, not, List, [], ◌∷◌, Option, none, some, str_eq, max,
  if◌then◌else◌, length, take, drop, is_some,
}
use comfy_ui_account_manager.Base.Dict.{Dict, lookup, erase}
use comfy_ui_account_manager.Base.Int.{ℤ, pos, negsuc}
use comfy_ui_account_manager.Base.Options.{◌>>=◌}
use comfy_ui_account_manager.Base.Table.{select}
use comfy_ui_account_manager.Control.{
  Site, Control, get_current_user_id, is_admin_user, can_access_owner, json_user,
}
use comfy_ui_account_manager.History.Store.{Row, Query, query, delete_prompt, delete_owner, clear}
use comfy_ui_account_manager.Json.{Json, null, text, Members, get}

-- v.get("user_id") == current_user_id
unfoldable pub is_own : Option String → Members → Bool
unfolding get
is_own user item = elim (get item "user_id") [
  | none ↦ not (is_some user)
  | some null ↦ not (is_some user)
  | some (text owner) ↦ elim user [ none ↦ false | some id ↦ str_eq owner id ]
  | some other ↦ false
]

unfoldable pub visible_history : Site → Control → Dict Members
unfolding get_current_user_id is_admin_user select is_own
visible_history site c =
    let user = get_current_user_id c in
    if is_admin_user site user c then c.history else select (λ entry. is_own user entry.1) c.history

-- None if self.is_admin_user(current_user_id) else current_user_id
unfoldable pub owner_filter : Site → Control → Option String
unfolding get_current_user_id is_admin_user
owner_filter site c =
    let user = get_current_user_id c in if is_admin_user site user c then none else user

-- The arguments of `user_queue_get_history` but `map_function`, which is applied to what it answers with.
pub record Page : Type 0 where
  pub prompt_id : Option String
  pub max_items : Option ℤ
  pub offset : ℤ

abbrev pub query_of : Page → Option String → Query
query_of p owner = record {
  max_items = p.max_items;
  offset = p.offset;
  owner_id = owner;
  prompt_id = p.prompt_id;
  column = λ item. item;
}

-- The index of the first item. A negative one is as good as 0.
abbrev first_index : Page → ℕ → ℕ
first_index p total = elim p.offset [
  | pos n ↦ n
  | negsuc n ↦ elim p.max_items [
    | none ↦ 0
    | some (pos m) ↦ total - m
    | some (negsuc m) ↦ total + m + 1
  ]
]

-- The loop stops after an item was added and `max_items` are there: one item at least.
abbrev up_to : Option ℤ → Dict Members → Dict Members
up_to none items = items
up_to (some (pos m)) items = take (max 1 m) items
up_to (some (negsuc m)) items = take 1 items

unfoldable pub local_history : Site → Page → Control → Dict Members
unfolding visible_history lookup
local_history site p c =
    let visible = visible_history site c in
    elim p.prompt_id [
      | none ↦ up_to p.max_items (drop (first_index p (length visible)) visible)
      | some prompt_id ↦ elim (lookup prompt_id visible) [
        | none ↦ []
        | some item ↦ (prompt_id, item) ∷ []
      ]
    ]

-- Whether the history store answers: `if self.scheduler and self.__history_store`.
abbrev pub shared_history : Control → Option (List Row)
shared_history c = if is_some c.scheduler then c.history_store else none

unfoldable pub user_queue_get_history : Site → Page → Control → Option (Dict Members)
unfolding query owner_filter local_history
user_queue_get_history site p c = elim (shared_history c) [
  | some rows ↦ query (query_of p (owner_filter site c)) rows
  | none ↦ some (local_history site p c)
]

-- `for_jobs` is the column that `query` selects for the jobs.
unfoldable pub user_job_history : Site → (Json → Json) → Control → Option (Dict Members)
unfolding query owner_filter user_queue_get_history
user_job_history site for_jobs c =
    let everything : Page = record { prompt_id = none; max_items = none; offset = negsuc 0 } in
    elim (shared_history c) [
      | some rows ↦
          query (record (query_of everything (owner_filter site c)) { column = for_jobs }) rows
      | none ↦ user_queue_get_history site everything c
    ]

-- `_delete_persisted_history`, with what it does to the rows
abbrev with_rows : (List Row → List Row) → Control → Control
with_rows f c = record c {
  history_store = elim c.history_store [ none ↦ none | some rows ↦ some (f rows) ];
}

-- clear=True for an administrator, else owner_id=..., which None leaves alone
unfoldable pub wipe_persisted : Site → Control → Control
unfolding get_current_user_id is_admin_user clear delete_owner
wipe_persisted site c =
    let user = get_current_user_id c in
    if is_admin_user site user c
    then with_rows clear c
    else elim user [ none ↦ c | some id ↦ with_rows (delete_owner id) c ]

unfoldable pub user_queue_wipe_history : Site → Control → Control
unfolding wipe_persisted get_current_user_id is_admin_user select is_own
user_queue_wipe_history site c =
    let wiped = wipe_persisted site c in
    let user = get_current_user_id c in
    if is_some c.scheduler then wiped else record wiped {
      history =
          if is_admin_user site user c
          then []
          else select (λ entry. not (is_own user entry.1)) c.history;
    }

-- history_item.get("user_id")
abbrev owner_of : Members → Option String
unfolding get
owner_of item = json_user (get item "user_id")

-- if history_item and ...
abbrev is_removable : Site → Control → Option Members → Bool
unfolding get can_access_owner
is_removable site c none = false
is_removable site c (some Members.end) = false
is_removable site c (some item) = can_access_owner site (owner_of item) none c

-- The control after the call; `none` where the query raises.
unfoldable pub user_queue_delete_history_item : Site → String → Control → Option Control
unfolding query owner_filter delete_prompt lookup get can_access_owner erase
user_queue_delete_history_item site id c = elim (shared_history c) [
  | some rows ↦
      query
        (query_of (record { prompt_id = some id; max_items = none; offset = negsuc 0 })
          (owner_filter site c))
        rows
      >>= λ visible.
          some (if is_some (lookup id visible) then with_rows (delete_prompt id) c else c)
  | none ↦ some (
      if is_removable site c (lookup id c.history)
      then with_rows (delete_prompt id) (record c { history = erase id c.history })
      else c)
]
