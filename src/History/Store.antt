-- ===== src/History/Store.antt =====
-- The methods of the class HistoryStore of utils/history_store.py but `merge_api_recovery`. The table
-- is the list of its rows in the order of `sequence`, which AUTOINCREMENT gives out in the order of
-- insertion and which no statement changes. The column `data` holds the value that its text encodes.
use comfy_ui_account_manager.Base.{
  ℕ, ◌+◌, ◌-◌, String, Bool, true, ◌&&◌, List, [], ◌∷◌, Option, none, some, str_eq, length, take,
  drop, ◌==◌, if◌then◌else◌, map,
}
use comfy_ui_account_manager.Base.Dict.{Dict, insert}
use comfy_ui_account_manager.Base.Int.{ℤ, pos, negsuc}
use comfy_ui_account_manager.Base.Options.{◌>>=◌}
use comfy_ui_account_manager.Base.Table.{select, delete, upsert}
use comfy_ui_account_manager.Json.{Json, num, bool, text, obj, Members, get, truthy}
use comfy_ui_account_manager.Json.Writing.{put}
use comfy_ui_account_manager.History.Items.{repair_recovery_fields}

-- A row of the table.
pub record Row : Type 0 where
  pub prompt_id : String
  pub owner_id : String
  pub item : Json

-- WHERE prompt_id = ?
abbrev pub is_prompt : String → Row → Bool
is_prompt prompt_id row = str_eq row.prompt_id prompt_id

-- WHERE owner_id = ?
abbrev pub is_owner : String → Row → Bool
is_owner owner_id row = str_eq row.owner_id owner_id

-- The text that a TEXT column keeps of a bound value (SQLite writes a number as `number` says);
-- `none` for a value that cannot be bound.
abbrev column_text : (ℤ → String) → Json → Option String
column_text number (text t) = some t
column_text number (num n) = some (number n)
column_text number (bool b) = some (number (pos 1))
column_text number other = none

-- item.get("user_id") or ""
unfoldable pub owner_of : (ℤ → String) → Members → Option String
unfolding get truthy
owner_of number item = elim (get item "user_id") [
  | none ↦ some ""
  | some v ↦ if truthy v then column_text number v else some ""
]

-- DELETE of the rows past the first `max_items` by descending sequence: the last ones stay.
unfoldable pub retain : ℕ → List Row → List Row
retain max_items rows = drop (length rows - max_items) rows

-- INSERT ... ON CONFLICT(prompt_id) DO UPDATE SET owner_id, data
unfoldable pub store_row : Row → List Row → List Row
unfolding upsert
store_row new =
    upsert (is_prompt new.prompt_id)
      (λ row. record row { owner_id = new.owner_id; item = new.item }) new

-- The rows after `save`; `none` where it raises.
unfoldable pub save : (ℤ → String) → String → Members → ℕ → List Row → Option (List Row)
unfolding owner_of retain store_row
save number prompt_id item max_items rows = do
  owner_id ← owner_of number item
  some (
      retain max_items
        (store_row (record { prompt_id = prompt_id; owner_id = owner_id; item = obj item }) rows))

unfoldable pub delete_prompt : String → List Row → List Row
unfolding delete
delete_prompt prompt_id = delete (is_prompt prompt_id)

unfoldable pub delete_owner : String → List Row → List Row
unfolding delete
delete_owner owner_id = delete (is_owner owner_id)

unfoldable pub clear : List Row → List Row
clear rows = []

-- The body of the loops of `load` and `query`.
unfoldable pub collect_item : Dict Members → Row → Json → Option (Dict Members)
unfolding insert put repair_recovery_fields
collect_item result row (obj item) = do
  repaired ← repair_recovery_fields item
  some (insert row.prompt_id (put repaired "user_id" (text row.owner_id)) result)
collect_item result row other = some result

-- The loops of `load` and `query` on the fetched rows, from a dict on.
unfoldable pub collect : Dict Members → List Row → Option (Dict Members)
unfolding collect_item
collect result [] = some result
collect result (row ∷ rows) = do more ← collect_item result row row.item; collect more rows

-- ORDER BY sequence DESC LIMIT ?, reversed
unfoldable pub load : ℕ → List Row → Option (Dict Members)
unfolding collect
load max_items rows = collect [] (drop (length rows - max_items) rows)

-- The arguments of `query`. `for_jobs` chooses the column: the item, or what a fixed JSON expression
-- of SQL makes of it.
pub record Query : Type 0 where
  pub max_items : Option ℤ
  pub offset : ℤ
  pub owner_id : Option String
  pub prompt_id : Option String
  pub column : Json → Json

-- One of the conditions, if it is asked for.
abbrev pub accepts : Option String → String → Bool
accepts none value = true
accepts (some wanted) value = str_eq value wanted

abbrev pub is_wanted : Query → Row → Bool
is_wanted q row = accepts q.owner_id row.owner_id && accepts q.prompt_id row.prompt_id

-- max(0, total - int(max_items or total))
abbrev pub last_page : Option ℤ → ℕ → ℕ
last_page none total = 0
last_page (some (pos n)) total = if n == 0 then 0 else total - n
last_page (some (negsuc n)) total = total + n + 1

-- normalized_offset
abbrev pub start_of : Query → ℕ → ℕ
start_of q total = elim q.offset [ pos n ↦ n | negsuc n ↦ last_page q.max_items total ]

-- LIMIT, where a negative number is no limit
abbrev pub limited : Option ℤ → List Row → List Row
limited (some (pos n)) rows = take n rows
limited _ rows = rows

-- The fetched rows.
unfoldable pub page : Query → List Row → List Row
unfolding select
page q rows =
    let found = select (is_wanted q) rows in
    limited q.max_items (drop (start_of q (length found)) found)

abbrev pub with_column : (Json → Json) → Row → Row
with_column column row = record row { item = column row.item }

unfoldable pub query : Query → List Row → Option (Dict Members)
unfolding page collect
query q rows = collect [] (map (with_column q.column) (page q rows))
