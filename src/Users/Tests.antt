-- ===== src/Users/Tests.antt =====
-- The theorems on utils/users_db.py at one run: a second user is added to a file with one.
use comfy_ui_account_manager.Base.{
  String, Bool, true, false, [], ◌∷◌, none, some, ◌≡◌, refl, str_eq, or_else, is_some,
}
use comfy_ui_account_manager.Json.{text, Members, end, member, get}
use comfy_ui_account_manager.Users.{stored, Library, UsersDb, add_user, check_username_password}
use comfy_ui_account_manager.Users.Accounts.{add_user_accepted}

abbrev library : Library
library = record {
  file_hash = λ file. "digest";
  hash_password = λ password. password;
  check_password = λ password hashed. str_eq password hashed;
}

abbrev alice : Members
alice = member "username" (text "alice") (member "password" (text "a") end)

abbrev with_alice : UsersDb
with_alice = record {
  file = stored (("u1", alice) ∷ []);
  users = [];
  database_hash = none;
  admin_user = none;
}

abbrev with_both : UsersDb
with_both = or_else (add_user library "u2" "bob" "b" false with_alice) with_alice

bob-added : add_user library "u2" "bob" "b" false with_alice ≡ some with_both
unfolding add_user
bob-added = refl

named : is_some (get alice "username") ≡ true
unfolding get
named = refl

add_user_accepted_example :
    ((check_username_password library "bob" "b" with_both).0 ≡ some true)
    × ((id password : String) (admin : Bool)
        → add_user library id "bob" password admin with_both ≡ none)
add_user_accepted_example =
    add_user_accepted library "u2" "bob" "b" false with_alice refl (named, tt) refl bob-added
