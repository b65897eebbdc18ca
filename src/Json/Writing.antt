-- ===== src/Json/Writing.antt =====
-- Python's writes to a decoded JSON value, and the reads that raise: a value is never changed in place
-- here, so a write answers with the new value.
use mathlib.Core.Option.{some-injective}
use comfy_ui_account_manager.Base.{
  ℕ, zero, suc, String, Bool, false, List, [], ◌∷◌, Option, none, some, ◌≡◌, refl, str_eq,
  str_eq_iff, str_eq_refl, sym, ap, ◌∙◌, if◌then◌else◌, arith,
}
use comfy_ui_account_manager.Base.Options.{◌>>=◌, >>=-eq-some}
use comfy_ui_account_manager.Json.{
  Json, null, text, obj, Elements, nil, cons, Members, end, member, get, truthy,
}

-- d[k] = v
unfoldable pub put : Members → String → Json → Members
put end k v = member k v end
put (member j w ms) k v =
    let rest = put ms k v in if str_eq j k then member k v ms else member j w rest

-- d.setdefault(k, v), for its effect
unfoldable pub set_default : Members → String → Json → Members
unfolding get put
set_default ms k v = elim (get ms k) [ none ↦ put ms k v | some w ↦ ms ]

-- d.setdefault(k, {}), where it is a dict
abbrev pub inner_of : Option Json → Option Members
inner_of none = some end
inner_of (some (obj inner)) = some inner
inner_of (some other) = none

-- d.setdefault(k, {})[j] = v; `none` where the value of `k` is no dict
unfoldable pub put_under : Members → String → String → Json → Option Members
unfolding get put
put_under ms k j v = inner_of (get ms k) >>= λ inner. some (put ms k (obj (put inner j v)))

-- isinstance(v, dict)
abbrev pub as_dict : Json → Option Members
as_dict (obj ms) = some ms
as_dict other = none

-- v[i]
abbrev pub at : Elements → ℕ → Option Json
at nil i = none
at (cons x xs) zero = some x
at (cons x xs) (suc i) = at xs i

-- v[i] = x, where v[i] is known to exist
abbrev pub put_at : Elements → ℕ → Json → Elements
put_at nil i x = nil
put_at (cons y xs) zero x = cons x xs
put_at (cons y xs) (suc i) x = cons y (put_at xs i x)

-- [x, y, ...]
abbrev pub elements : List Json → Elements
elements [] = nil
elements (x ∷ xs) = cons x (elements xs)

-- v == "..."
abbrev pub is_text : Json → String → Bool
is_text (text t) k = str_eq t k
is_text other k = false

-- d.get(k), where a missing key and null are both None
abbrev not_none : Option Json → Option Json
not_none none = none
not_none (some null) = none
not_none (some v) = some v

unfoldable pub get_value : Members → String → Option Json
unfolding get
get_value ms k = not_none (get ms k)

-- d.get(k) or {}; `none` where it is truthy and no dict
unfoldable pub dict_or_empty : Members → String → Option Members
unfolding get truthy
dict_or_empty ms k = elim (get ms k) [
  | none ↦ some end
  | some v ↦ if truthy v then as_dict v else some end
]

pub get-put :
    (ms : Members) (k j : String) (v : Json)
    → get (put ms k v) j ≡ (if str_eq k j then some v else get ms j)
unfolding get put
get-put end k j v = refl
get-put (member i w ms) k j v =
    ground (arith, get-put ms k j v, str_eq_iff i k, str_eq_iff i j, str_eq_iff k j)

pub get-put_same : (ms : Members) (k : String) (v : Json) → get (put ms k v) k ≡ some v
get-put_same ms k v = get-put ms k k v ∙ ap (λ b. if b then some v else get ms k) (str_eq_refl k)

pub get-put_other :
    (ms : Members) (k j : String) (v : Json) → str_eq k j ≡ false → get (put ms k v) j ≡ get ms j
get-put_other ms k j v differs = get-put ms k j v ∙ ap (λ b. if b then some v else get ms j) differs

pub put_under-get :
    (ms : Members) (k j : String) (v : Json) {next : Members}
    → put_under ms k j v ≡ some next
    → (inner : Members) × (get next k ≡ some (obj inner)) × (get inner j ≡ some v)
unfolding put_under
put_under-get ms k j v e =
    let (inner, done, _) = >>=-eq-some (inner_of (get ms k)) _ e in
    (
      put inner j v,
      ap (λ m. get m k) (sym (some-injective _ _ done)) ∙ get-put_same ms k _,
      get-put_same inner j v,
    )

pub put_under-keeps :
    (ms : Members) (k j key : String) (v : Json) {next : Members}
    → put_under ms k j v ≡ some next
    → str_eq k key ≡ false
    → get next key ≡ get ms key
unfolding put_under
put_under-keeps ms k j key v e differs =
    let (inner, done, _) = >>=-eq-some (inner_of (get ms k)) _ e in
    ap (λ m. get m key) (sym (some-injective _ _ done)) ∙ get-put_other ms k key _ differs
