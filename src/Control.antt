-- ===== src/Control.antt =====
-- The class AccessControl of utils/access_control.py: the current user, the items of the server's own
-- queue with their owners, and what a user sees and removes of the queue and the history. With a scheduler
-- these methods work on the modules Scheduler and History.
pub mod Queue
pub mod Past
pub mod Views
pub mod Putting
pub mod Getting
pub mod Taking
mod Tests
use comfy_ui_account_manager.Base.{
  ℕ, String, Bool, true, false, not, ◌&&◌, List, [], ◌∷◌, ◌++◌, Option, none, some, str_eq, leb,
  if◌then◌else◌, get_elem?, length, take,
}
use comfy_ui_account_manager.Base.Dict.{Dict}
use comfy_ui_account_manager.History.Store as History
use comfy_ui_account_manager.Json.{Json, null, text, Members, end, Python, get, truthy}
use comfy_ui_account_manager.Scheduler.Rows as Scheduler
use comfy_ui_account_manager.Users as Users
use comfy_ui_account_manager.Users.{get_user}

-- What the methods call outside: the users' library, Python's conversions, heapq.heappush and
-- heapq.heapify and heapq.heappop; and the settings of the scheduler and the port of the instance.
pub record Site : Type 0 where
  pub lib : Users.Library
  pub py : Python
  pub push : List Json → List (List Json) → List (List Json)
  pub heapify : List (List Json) → List (List Json)
  pub pop : List Json → List (List Json) → List Json × List (List Json)
  pub settings : Scheduler.Settings
  pub instance_port : ℕ

-- The object, with what it reaches: the users, the scheduler and the history store where there are any,
-- and of the server's queue the items, the running items and the history.
pub record Control : Type 0 where
  pub context_user : Option String
  pub fallback_user : Option String
  pub users : Users.UsersDb
  pub scheduler : Option Scheduler.Db
  pub history_store : Option (List History.Row)
  pub queue : List (List Json)
  pub currently_running : List (ℕ × List Json)
  pub task_counter : ℕ
  pub history : Dict Members

unfoldable pub set_current_user_id : Option String → Bool → Control → Control
set_current_user_id user set_fallback c = record c {
  context_user = user;
  fallback_user = if set_fallback then user else c.fallback_user;
}

-- if user: ..., with None for a user that is empty
abbrev pub filled : Option String → Bool
filled none = false
filled (some user) = not (str_eq user "")

-- a or b
abbrev pub or_user : Option String → Option String → Option String
or_user user other = if filled user then user else other

unfoldable pub get_current_user_id : Control → Option String
get_current_user_id c = or_user c.context_user c.fallback_user

-- user.get("admin"), of what `get_user` answers with
unfoldable pub admin_field : Option (Option (String × Members)) → Bool
unfolding get
admin_field none = false
admin_field (some none) = false
admin_field (some (some (id, user))) = elim (get user "admin") [ none ↦ false | some v ↦ truthy v ]

-- The lookup reads the users' file again where it changed; only its answer is used.
unfoldable pub is_admin_user : Site → Option String → Control → Bool
unfolding get_user admin_field
is_admin_user site none c = false
is_admin_user site (some user) c =
    if str_eq user "" then false else admin_field (get_user site.lib "" user c.users).0

-- owner_id and owner_id == current_user_id
abbrev pub same_owner : Option String → Option String → Bool
same_owner (some owner) (some user) = not (str_eq owner "") && str_eq owner user
same_owner _ _ = false

unfoldable pub can_access_owner : Site → Option String → Option String → Control → Bool
unfolding get_current_user_id is_admin_user
can_access_owner site owner user c =
    let current = or_user user (get_current_user_id c) in
    if is_admin_user site current c then true else same_owner owner current

-- The user's id as the last field of an item, and back; an item without one has None.
abbrev pub user_json : Option String → Json
user_json none = null
user_json (some user) = text user

abbrev pub json_user : Option Json → Option String
json_user (some (text user)) = some user
json_user _ = none

unfoldable pub wrap_queue_item : List Json → Control → List Json
unfolding get_current_user_id
wrap_queue_item item c =
    if leb 7 (length item) then item else item ++ user_json (get_current_user_id c) ∷ []

unfoldable pub unwrap_queue_item : List Json → List Json
unwrap_queue_item item = if leb 7 (length item) then take 6 item else item

unfoldable pub queue_item_user_id : List Json → Option String
queue_item_user_id item = if leb 7 (length item) then json_user (get_elem? item 6) else none

-- The loop of `_visible_queue_items`.
unfoldable pub visible_to : Site → Option String → Control → List (List Json) → List (List Json)
unfolding can_access_owner unwrap_queue_item queue_item_user_id
visible_to site user c [] = []
visible_to site user c (item ∷ items) =
    let rest = visible_to site user c items in
    if can_access_owner site (queue_item_user_id item) user c
    then unwrap_queue_item item ∷ rest
    else rest

unfoldable pub visible_queue_items : Site → Control → List (List Json) → List (List Json)
unfolding get_current_user_id visible_to
visible_queue_items site c items = visible_to site (get_current_user_id c) c items
