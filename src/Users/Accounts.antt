-- ===== src/Users/Accounts.antt =====
-- A user that was added can log in, and user names stay unique.
use mathlib.Core.Option.{some-injective, none-ne-some}
use comfy_ui_account_manager.Base.{
  ◌+◌, ◌≤◌, String, Bool, true, false, ◌||◌, [], ◌∷◌, none, some, ◌≡◌, refl, ap, ◌∙◌, subst, inl,
  inr, arith, str_eq, str_eq_iff, str_eq_refl, Bool-cases, Option-cases, if◌then◌else◌, is_some,
  All,
}
use comfy_ui_account_manager.Base.Dict.{Dict, insert}
use comfy_ui_account_manager.Base.Table.{count, one_if}
use comfy_ui_account_manager.Json.{Members, get}
use comfy_ui_account_manager.Json.Writing.{is_text}
use comfy_ui_account_manager.Users.{
  stored, Library, UsersDb, load_users, save_users, is_named, any_named, new_user, users_of,
  add_user, check_name, find_named, get_user, check_found, check_username_password,
}

-- Every user has a name, so that `get_user` does not raise.
abbrev pub AreNamed : Dict Members → Type 0
AreNamed users = All (λ entry. is_some (get entry.1 "username") ≡ true) users

abbrev has_name : String → String × Members → Bool
has_name username entry = is_named username entry.1

-- At most one user has a name.
abbrev AreDistinct : Dict Members → Type 0
AreDistinct users = (username : String) → count (has_name username) users ≤ 1

new_user-named :
    (lib : Library) (username password other : String) (admin : Bool)
    → is_named other (new_user lib username password admin) ≡ str_eq username other
unfolding is_named get
new_user-named lib username password other admin = refl

or-eq-false : (a b : Bool) → (a || b) ≡ false → (a ≡ false) × (b ≡ false)
or-eq-false a b h = ground (arith, h)

find-insert :
    (lib : Library) (id username password : String) (admin : Bool) (users : Dict Members)
    → AreNamed users
    → any_named username users ≡ false
    → find_named username (insert id (new_user lib username password admin) users)
      ≡ some (some (id, new_user lib username password admin))
unfolding find_named insert any_named is_named
find-insert lib id username password admin [] named free = rw (str_eq_refl username) refl
find-insert lib id username password admin (entry ∷ users) named free =
    let new = new_user lib username password admin in
    elim (Bool-cases (str_eq entry.0 id)) [
      | inl hit ↦ rw (hit, str_eq_refl username) refl
      | inr miss ↦ elim (Option-cases (get entry.1 "username")) [
        | inl nameless ↦ absurd (ground (arith, rw nameless at named.0))
        | inr (v, e) ↦
            let other = or-eq-false (is_named username entry.1) (any_named username users) free in
            let differs : is_text v username ≡ false = rw (e, is_named) at other.0 in
            let later : find_named username (entry ∷ insert id new users) ≡ some (some (id, new)) =
              ap (check_name username entry (find_named username (insert id new users))) e
              ∙ ap (λ t. if t then some (some entry) else find_named username (insert id new users))
                  differs
              ∙ find-insert lib id username password admin users named.1 other.1 in
            rw miss later
      ]
    ]

any-insert :
    (lib : Library) (id username password : String) (admin : Bool) (users : Dict Members)
    → any_named username (insert id (new_user lib username password admin) users) ≡ true
unfolding insert any_named is_named
any-insert lib id username password admin [] = ground (arith, str_eq_refl username)
any-insert lib id username password admin (entry ∷ users) = elim (Bool-cases (str_eq entry.0 id)) [
  | inl hit ↦ rw (hit, str_eq_refl username) refl
  | inr miss ↦
      rw (miss, any-insert lib id username password admin users)
        (or_true (is_named username entry.1))
]
  where
    or_true : (b : Bool) → (b || true) ≡ true
    or_true b = ground arith

count-insert-le :
    (q : String × Members → Bool) (id : String) (user : Members) (users : Dict Members)
    → count q (insert id user users) ≤ count q users + one_if (q (id, user))
unfolding count insert
count-insert-le q id user [] = ground arith
count-insert-le q id user (entry ∷ users) = ground (arith, count-insert-le q id user users)

count_of_free :
    (username : String) (users : Dict Members)
    → any_named username users ≡ false
    → count (has_name username) users ≡ 0
unfolding count any_named
count_of_free username [] free = refl
count_of_free username (entry ∷ users) free =
    let (here, later) = or-eq-false (is_named username entry.1) (any_named username users) free in
    omega (arith, ap one_if here, count_of_free username users later)

-- What a call that returned has checked and saved.
added :
    (lib : Library) (id username password : String) (admin : Bool) (db : UsersDb) {db' : UsersDb}
    → add_user lib id username password admin db ≡ some db'
    → (any_named username (users_of db.file) ≡ false)
      × (save_users lib (insert id (new_user lib username password admin) (users_of db.file)) db
          ≡ db')
unfolding add_user
added lib id username password admin db e =
    elim (Bool-cases (any_named username (users_of db.file))) [
      | inl taken ↦ absurd (none-ne-some _ (rw taken at e))
      | inr free ↦ (free, some-injective _ _ (rw free at e))
    ]

-- `add_user` keeps user names unique.
add_user-AreDistinct :
    (lib : Library) (id username password : String) (admin : Bool) (db : UsersDb) {db' : UsersDb}
    → AreDistinct (users_of db.file)
    → add_user lib id username password admin db ≡ some db'
    → AreDistinct (users_of db'.file)
unfolding save_users
add_user-AreDistinct lib id username password admin db distinct e =
    let (free, saved) = added lib id username password admin db e in
    let new = new_user lib username password admin in
    subst (λ d. AreDistinct (users_of d.file)) saved
      (λ other.
        let grown = count-insert-le (has_name other) id new (users_of db.file) in
        let name = ap one_if (new_user-named lib username password other admin) in
        elim (Bool-cases (str_eq username other)) [
          | inr differs ↦ omega (arith, grown, name, ap one_if differs, distinct other)
          | inl same ↦
              let none_yet =
                subst (λ n. count (has_name n) (users_of db.file) ≡ 0)
                  ((str_eq_iff username other).0 same)
                  (count_of_free username (users_of db.file) free) in
              omega (arith, grown, name, ap one_if same, none_yet)
        ])

-- Where bcrypt accepts a password for its own hash, every stored user has a name, and the id is not
-- empty: after an `add_user` that returns, the user's name and password are accepted, and the name
-- cannot be added again, for no id and no password.
pub add_user_accepted :
    (lib : Library) (id username password : String) (admin : Bool) (db : UsersDb) {db' : UsersDb}
    → lib.check_password password (lib.hash_password password) ≡ true
    → AreNamed (users_of db.file)
    → str_eq id "" ≡ false
    → add_user lib id username password admin db ≡ some db'
    → ((check_username_password lib username password db').0 ≡ some true)
      × ((other_id other_password : String) (other_admin : Bool)
          → add_user lib other_id username other_password other_admin db' ≡ none)
unfolding check_username_password get_user load_users check_found save_users add_user
add_user_accepted lib id username password admin db accepts named filled e =
    let (free, saved) = added lib id username password admin db e in
    let users = insert id (new_user lib username password admin) (users_of db.file) in
    subst
      (λ d.
        ((check_username_password lib username password d).0 ≡ some true)
        × ((other_id other_password : String) (other_admin : Bool)
            → add_user lib other_id username other_password other_admin d ≡ none))
      saved
      (
        rw
            (
              str_eq_refl (lib.file_hash (stored users)),
              find-insert lib id username password admin (users_of db.file) named free,
              filled,
            )
            (ap some accepts),
        λ other_id other_password other_admin.
            rw (any-insert lib id username password admin (users_of db.file)) refl,
      )
