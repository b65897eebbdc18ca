-- ===== src/Json.antt =====
-- The values of Python's `json` module, with the operations that the program applies to them.
-- A text column that holds JSON is kept as the value that it encodes. Numbers are integers.
pub mod Writing
use comfy_ui_account_manager.Base.{
  String, Bool, true, false, not, Option, none, some, str_eq, ◌==◌, if◌then◌else◌,
}
use comfy_ui_account_manager.Base.Int.{ℤ, pos, negsuc}

mutual
  pub data Json : Type 0 where
    null : Json
    bool : Bool → Json
    num : ℤ → Json
    text : String → Json
    arr : Elements → Json
    obj : Members → Json

  pub data Elements : Type 0 where
    nil : Elements
    cons : Json → Elements → Elements

  pub data Members : Type 0 where
    end : Members
    member : String → Json → Members → Members

-- d.get(k)
unfoldable pub get : Members → String → Option Json
get end k = none
get (member j v ms) k = let rest = get ms k in if str_eq j k then some v else rest

-- What `or` and `if` test.
unfoldable pub truthy : Json → Bool
truthy null = false
truthy (bool b) = b
truthy (num (pos n)) = not (n == 0)
truthy (num (negsuc n)) = true
truthy (text s) = not (str_eq s "")
truthy (arr nil) = false
truthy (arr (cons x xs)) = true
truthy (obj end) = false
truthy (obj (member k v ms)) = true

-- What Python's own conversions answer where a program gives them a value of another type:
-- `str(v)` of a value that is no text, and `float(s)` of a text (`none` where it raises).
pub record Python : Type 0 where
  pub repr : Json → String
  pub parse_float : String → Option ℤ

-- str(v)
unfoldable pub to_str : Python → Json → String
to_str py (text s) = s
to_str py v = py.repr v

-- str(d.get(k) or "")
unfoldable pub text_field : Python → Members → String → String
unfolding get truthy to_str
text_field py ms k = elim (get ms k) [ none ↦ "" | some v ↦ if truthy v then to_str py v else "" ]

-- float(v)
unfoldable pub to_float : Python → Json → Option ℤ
to_float py null = none
to_float py (bool true) = some (pos 1)
to_float py (bool false) = some (pos 0)
to_float py (num n) = some n
to_float py (text s) = py.parse_float s
to_float py (arr xs) = none
to_float py (obj ms) = none
