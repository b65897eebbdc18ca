-- ===== src/Users.antt =====
-- The class UsersDB of utils/users_db.py: the object's copy of the users, and the file that it reads and
-- writes. The methods run under the file's lock, one at a time.
pub mod Accounts
mod Tests
use comfy_ui_account_manager.Base.{
  String, Bool, true, false, not, ◌||◌, List, [], ◌∷◌, ◌++◌, Option, none, some, str_eq,
  if◌then◌else◌,
}
use comfy_ui_account_manager.Base.Dict.{Dict, lookup, insert}
use comfy_ui_account_manager.Base.Options.{◌>>=◌}
use comfy_ui_account_manager.Json.{Json, bool, text, Members, end, member, get, truthy}
use comfy_ui_account_manager.Json.Writing.{is_text}

-- The file: absent, no JSON, or a dict of users.
pub data File : Type 0 where
  absent : File
  broken : File
  stored : Dict Members → File

-- The SHA-256 of a file (the empty text where it is absent), and the functions of bcrypt.
pub record Library : Type 0 where
  pub file_hash : File → String
  pub hash_password : String → String
  pub check_password : String → String → Bool

-- The object, with the file. `admin_user` is what the last call of `get_admin_user` left.
pub record UsersDb : Type 0 where
  pub file : File
  pub users : Dict Members
  pub database_hash : Option String
  pub admin_user : Option (String × Members)

-- self._database_hash == current_hash
abbrev pub is_current : Option String → String → Bool
is_current none hash = false
is_current (some old) hash = str_eq old hash

abbrev read_file : Library → File → UsersDb → UsersDb
read_file lib absent db = db
read_file lib broken db = record db { users = [] }
read_file lib (stored users) db = record db {
  users = users;
  database_hash = some (lib.file_hash db.file);
}

unfoldable pub load_users : Library → UsersDb → UsersDb
load_users lib db =
    if is_current db.database_hash (lib.file_hash db.file) then db else read_file lib db.file db

-- `_save_users_unlocked`
unfoldable pub save_users : Library → Dict Members → UsersDb → UsersDb
save_users lib users db = record db {
  file = stored users;
  users = users;
  database_hash = some (lib.file_hash (stored users));
}

-- user.get("username") == username
unfoldable pub is_named : String → Members → Bool
unfolding get
is_named username user = elim (get user "username") [ none ↦ false | some v ↦ is_text v username ]

unfoldable pub any_named : String → Dict Members → Bool
unfolding is_named
any_named username [] = false
any_named username (entry ∷ users) = is_named username entry.1 || any_named username users

abbrev pub new_user : Library → String → String → Bool → Members
new_user lib username password admin = member "username" (text username) (
    member "password" (text (lib.hash_password password))
      (if admin then member "admin" (bool true) end else end))

-- What `add_user` reads.
abbrev pub users_of : File → Dict Members
users_of absent = []
users_of broken = []
users_of (stored users) = users

-- The object after the call; `none` where it raises ValueError.
unfoldable pub add_user : Library → String → String → String → Bool → UsersDb → Option UsersDb
unfolding any_named save_users insert
add_user lib id username password admin db =
    if any_named username (users_of db.file)
    then none
    else some
        (save_users lib (insert id (new_user lib username password admin) (users_of db.file)) db)

-- The body of the loop of `get_user`, with the answer of the later rounds; `none` is the KeyError of a
-- user without a name.
abbrev pub check_name :
    String
    → String × Members
    → Option (Option (String × Members))
    → Option Json
    → Option (Option (String × Members))
check_name username entry later none = none
check_name username entry later (some v) = if is_text v username then some (some entry) else later

-- The loop of `get_user`.
unfoldable pub find_named : String → Dict Members → Option (Option (String × Members))
unfolding get
find_named username [] = some none
find_named username (entry ∷ users) =
    check_name username entry (find_named username users) (get entry.1 "username")

-- if user: return user_id, user
abbrev non_empty : String → Option Members → Option (String × Members)
non_empty user_id none = none
non_empty user_id (some end) = none
non_empty user_id (some user) = some (user_id, user)

-- The pair, where it is not (None, {}), and the object.
unfoldable pub get_user :
    Library → String → String → UsersDb → Option (Option (String × Members)) × UsersDb
unfolding load_users lookup find_named
get_user lib username user_id db =
    let loaded = load_users lib db in
    if str_eq user_id ""
    then (find_named username loaded.users, loaded)
    else (some (non_empty user_id (lookup user_id loaded.users)), loaded)

-- bcrypt.checkpw(...); `if not user_id` also stands for the empty id.
unfoldable pub check_found : Library → String → Option (String × Members) → Option Bool
unfolding get
check_found lib password none = some false
check_found lib password (some (user_id, user)) =
    if str_eq user_id "" then some false else (elim (get user "password") [
      | some (text hashed) ↦ some (lib.check_password password hashed)
      | some other ↦ none
      | none ↦ none
    ])

unfoldable pub check_username_password : Library → String → String → UsersDb → Option Bool × UsersDb
unfolding get_user check_found
check_username_password lib username password db =
    let answer = get_user lib username "" db in (answer.0 >>= check_found lib password, answer.1)

-- The last user with a true "admin", or the one before the loop.
unfoldable pub last_admin : Option (String × Members) → Dict Members → Option (String × Members)
unfolding get
last_admin found [] = found
last_admin found (entry ∷ users) =
    last_admin
      (elim (get entry.1 "admin") [
        | none ↦ found
        | some v ↦ if truthy v then some entry else found
      ])
      users

unfoldable pub get_admin_user : Library → UsersDb → Option (String × Members) × UsersDb
unfolding load_users last_admin
get_admin_user lib db =
    let loaded = load_users lib db in
    let admin = last_admin loaded.admin_user loaded.users in
    (admin, record loaded { admin_user = admin })
