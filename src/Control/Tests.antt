-- ===== src/Control/Tests.antt =====
-- The theorems on utils/access_control.py at one run: two users, one of them an administrator, and a
-- history with an item of each.
use comfy_ui_account_manager.Base.{
  String, true, false, List, [], ◌∷◌, Option, none, some, ◌≡◌, refl, str_eq, Memᴰ, arith, take,
  or_else,
}
use comfy_ui_account_manager.Base.Dict.{Dict, lookup}
use comfy_ui_account_manager.Base.Int.{pos, negsuc}
use comfy_ui_account_manager.Json.{
  Json, num, arr, nil, to_float, to_str, bool, text, obj, Members, end, member, get,
}
use comfy_ui_account_manager.Base.Table.{select, fetch_one, order_by, count}
use comfy_ui_account_manager.History.Contents.{content}
use comfy_ui_account_manager.History.Saving.{IsUnique, shown}
use comfy_ui_account_manager.History.Store.{Row}
use comfy_ui_account_manager.Scheduler.Rows.{Job, Db, Result, ok, err, empty_db}
use comfy_ui_account_manager.Scheduler.Settings.{make_settings, encode_item, decode_item}
use comfy_ui_account_manager.Scheduler.Changes.{here, next, enqueues}
use comfy_ui_account_manager.Scheduler.Choice.{IsFirst}
use comfy_ui_account_manager.Scheduler.Store.{or_default}
use comfy_ui_account_manager.Scheduler.Submit.{enqueue}
use comfy_ui_account_manager.Scheduler.WellFormed.{IsWellFormed, Reach-IsWellFormed}
use comfy_ui_account_manager.Users.{stored}
use comfy_ui_account_manager.Control.{Site, Control, get_current_user_id, is_admin_user}
use comfy_ui_account_manager.Control.Past.{Page, user_queue_get_history}
use comfy_ui_account_manager.Control.Queue.{submission_of, user_queue_put}
use comfy_ui_account_manager.Control.Getting.{Host, user_queue_get}
use comfy_ui_account_manager.Control.Taking.{user_queue_get-IsFirst}
use comfy_ui_account_manager.Control.Putting.{Shown, user_queue_put_then_get}
use comfy_ui_account_manager.Control.Views.{
  HasOwner, page_of, user_queue_get_history_owned, user_queue_get_history_unguarded,
}

abbrev site : Site
site = record {
  lib = record {
    file_hash = λ file. "digest";
    hash_password = λ password. password;
    check_password = λ password hashed. str_eq password hashed;
  };
  py = record { repr = λ v. "value"; parse_float = λ t. none };
  push = λ item items. item ∷ items;
  heapify = λ items. items;
  pop = λ item items. (item, items);
  settings = make_settings 1 0 [] [];
  instance_port = 8188;
}

abbrev owned_by : String → Members
owned_by user = member "status" (obj end) (member "user_id" (text user) end)

abbrev rows : List Row
rows =
    record { prompt_id = "p1"; owner_id = "ann"; item = obj (owned_by "ann") }
    ∷ record { prompt_id = "p2"; owner_id = "root"; item = obj (owned_by "root") }
    ∷ []

abbrev control_of : Option String → Control
control_of user = record {
  context_user = user;
  fallback_user = none;
  users = record {
    file = stored (
        ("ann", member "username" (text "ann") end)
        ∷ ("root", member "username" (text "root") (member "admin" (bool true) end))
        ∷ []);
    users = [];
    database_hash = none;
    admin_user = none;
  };
  scheduler = some empty_db;
  history_store = some rows;
  queue = [];
  currently_running = [];
  task_counter = 0;
  history = [];
}

abbrev first_page : Page
first_page = record { prompt_id = none; max_items = some (pos 10); offset = negsuc 0 }

abbrev of_ann : Dict Members
of_ann = ("p1", owned_by "ann") ∷ []

ann-shown : user_queue_get_history site first_page (control_of (some "ann")) ≡ some of_ann
unfolding user_queue_get_history
ann-shown = refl

ann-current : get_current_user_id (control_of (some "ann")) ≡ some "ann"
unfolding get_current_user_id
ann-current = refl

abbrev nobody : Control
nobody = record (control_of none) {
  history_store = some (take 1 rows);
  history = ("p0", owned_by "ann") ∷ [];
}

nobody-current : get_current_user_id nobody ≡ none
unfolding get_current_user_id
nobody-current = refl

ann_is_plain : is_admin_user site (some "ann") (control_of (some "ann")) ≡ false
unfolding is_admin_user
ann_is_plain = refl

ann-found : lookup "p1" of_ann ≡ some (owned_by "ann")
unfolding lookup
ann-found = refl

user_queue_get_history_owned_example : get (owned_by "ann") "user_id" ≡ some (text "ann")
user_queue_get_history_owned_example =
    user_queue_get_history_owned site first_page (control_of (some "ann")) "p1" (owned_by "ann")
      ann-current ann_is_plain refl ann-shown ann-found

row-IsUnique : IsUnique (take 1 rows)
unfolding count
row-IsUnique prompt_id = ground arith

ann-stored : content "p1" (take 1 rows) ≡ some ("ann", obj (owned_by "ann"))
unfolding content
ann-stored = refl

nobody-owned : (entry : String × Members) → Memᴰ entry nobody.history → HasOwner entry.1
unfolding get
nobody-owned entry (Memᴰ.head e) = ("ann", rw e refl)
nobody-owned entry (Memᴰ.tail m) = elim m [ ]

user_queue_get_history_unguarded_example :
    (user_queue_get_history site (page_of "p1") nobody ≡ shown "p1" "ann" (owned_by "ann"))
    × (user_queue_get_history site (page_of "p1") (record nobody { scheduler = none }) ≡ some [])
user_queue_get_history_unguarded_example =
    user_queue_get_history_unguarded site nobody "p1" "ann" (owned_by "ann") nobody-current refl
      row-IsUnique ann-stored nobody-owned

abbrev item : List Json
item = num (pos 0) ∷ text "p3" ∷ obj end ∷ obj end ∷ arr nil ∷ obj end ∷ []

abbrev control_or : Control → Result Control → Control
control_or c (ok after) = after
control_or c (err e) = c

abbrev after_put : Control
after_put = control_or (control_of none) (user_queue_put site 100 item (control_of (some "ann")))

item-put : user_queue_put site 100 item (control_of (some "ann")) ≡ ok after_put
unfolding user_queue_put to_float encode_item fetch_one
item-put = refl

user_queue_put_then_get_example : Shown site item after_put
user_queue_put_then_get_example =
    user_queue_put_then_get site 100 item (control_of (some "ann")) refl
      (Reach-IsWellFormed {py = site.py} {settings = site.settings} here) item-put

abbrev host : Host
host = record {
  disk = record { abspath = λ path. path; bytes = λ path. none };
  now = 200;
  pid = 7;
  worker_resource_class = "default";
  log_file = "";
}

abbrev scheduled : Db
scheduled = or_else after_put.scheduler empty_db

scheduled-IsWellFormed : IsWellFormed scheduled.jobs
unfolding enqueue to_float encode_item fetch_one submission_of user_queue_put
scheduled-IsWellFormed =
    Reach-IsWellFormed {py = site.py} {settings = site.settings}
      (next here (enqueues 100 (submission_of site item (control_of (some "ann"))) refl))

scheduled-kept : after_put.scheduler ≡ some scheduled
unfolding user_queue_put to_float encode_item fetch_one
scheduled-kept = refl

item-taken : (user_queue_get site host after_put []).0 ≡ ok (some (item, 0))
unfolding user_queue_get user_queue_put to_float encode_item fetch_one order_by select make_settings
    count to_str decode_item
item-taken = refl

user_queue_get-IsFirst_example :
    (row : Job) × IsFirst (or_default host.worker_resource_class) scheduled.jobs row
    × (item ≡ row.payload)
    × (get_current_user_id (user_queue_get site host after_put []).1 ≡ some row.owner_id)
user_queue_get-IsFirst_example =
    user_queue_get-IsFirst site host after_put [] scheduled-kept scheduled-IsWellFormed item-taken
