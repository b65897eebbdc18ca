-- ===== src/History/Views.antt =====
-- What `query` shows of the table: rows of the asked owner and prompt only, and who owns them.
use mathlib.Core.Option.{some-injective}
use comfy_ui_account_manager.Base.{
  ℕ, zero, suc, String, true, List, [], ◌∷◌, Option, none, some, ◌≡◌, refl, sym, ap, ◌∙◌, subst,
  inl, inr, arith, Memᴰ, map, str_eq, str_eq_iff, Bool-cases, &&-eq-true, take,
}
use comfy_ui_account_manager.Base.Dict.{Dict, lookup, insert, lookup-insert}
use comfy_ui_account_manager.Base.Int.{ℤ, pos, negsuc}
use comfy_ui_account_manager.Base.Options.{>>=-eq-some}
use comfy_ui_account_manager.Base.Table.Latest.{mem-drop}
use comfy_ui_account_manager.Base.Table.Members.{mem-select}
use comfy_ui_account_manager.Json.{Json, text, obj, Members, get}
use comfy_ui_account_manager.Json.Writing.{put, get-put}
use comfy_ui_account_manager.History.Items.{repair_recovery_fields}
use comfy_ui_account_manager.History.Store.{
  Row, collect_item, collect, Query, accepts, is_wanted, limited, page, with_column, query,
}

-- The item says an owner that, with the prompt, has the property.
abbrev IsShown : (String → String → Type 0) → String → Members → Type 0
IsShown P prompt_id item =
    (owner_id : String) × P prompt_id owner_id × (get item "user_id" ≡ some (text owner_id))

abbrev Shows : (String → String → Type 0) → Dict Members → Type 0
Shows P result =
    (prompt_id : String) (item : Members)
    → lookup prompt_id result ≡ some item
    → IsShown P prompt_id item

module _ (P : String → String → Type 0) where
  insert-Shows :
      (result : Dict Members) (row : Row) (repaired : Members)
      → P row.prompt_id row.owner_id
      → Shows P result
      → Shows P (insert row.prompt_id (put repaired "user_id" (text row.owner_id)) result)
  insert-Shows result row repaired holds before prompt_id item e =
      let written = put repaired "user_id" (text row.owner_id) in
      let found = sym (lookup-insert result written row.prompt_id prompt_id) ∙ e in
      elim (Bool-cases (str_eq row.prompt_id prompt_id)) [
        | inl hit ↦
            let same : written ≡ item = some-injective _ _ (rw hit at found) in
            (
              row.owner_id,
              subst (λ id. P id row.owner_id) ((str_eq_iff row.prompt_id prompt_id).0 hit) holds,
              ap (λ ms. get ms "user_id") (sym same)
                  ∙ get-put repaired "user_id" "user_id" (text row.owner_id),
            )
        | inr miss ↦ before prompt_id item (rw miss at found)
      ]

  collect_item-Shows :
      (result : Dict Members) (row : Row) (stored : Json) {more : Dict Members}
      → P row.prompt_id row.owner_id
      → Shows P result
      → collect_item result row stored ≡ some more
      → Shows P more
  unfolding collect_item
  collect_item-Shows result row (obj item) holds before e =
      let (repaired, done, _) = >>=-eq-some (repair_recovery_fields item) _ e in
      subst (Shows P) (some-injective _ _ done) (insert-Shows result row repaired holds before)
  collect_item-Shows result row other holds before e = subst (Shows P) (some-injective _ _ e) before

  pub collect-Shows :
      (result : Dict Members) (fetched : List Row) {more : Dict Members}
      → ((row : Row) → Memᴰ row fetched → P row.prompt_id row.owner_id)
      → Shows P result
      → collect result fetched ≡ some more
      → Shows P more
  unfolding collect
  collect-Shows result [] all before e = subst (Shows P) (some-injective _ _ e) before
  collect-Shows result (row ∷ fetched) all before e =
      let (next, rest, one) = >>=-eq-some (collect_item result row row.item) _ e in
      collect-Shows next fetched (λ r m. all r (Memᴰ.tail m))
        (collect_item-Shows result row row.item (all row (Memᴰ.head refl)) before one) rest

mem-take : {a : Row} (n : ℕ) (rows : List Row) → Memᴰ a (take n rows) → Memᴰ a rows
mem-take zero rows m = elim m [ ]
mem-take (suc n) [] m = elim m [ ]
mem-take (suc n) (row ∷ rows) (Memᴰ.head e) = Memᴰ.head e
mem-take (suc n) (row ∷ rows) (Memᴰ.tail m) = Memᴰ.tail (mem-take n rows m)

mem-limited : {a : Row} (n : Option ℤ) (rows : List Row) → Memᴰ a (limited n rows) → Memᴰ a rows
mem-limited none rows m = m
mem-limited (some (pos n)) rows m = mem-take n rows m
mem-limited (some (negsuc n)) rows m = m

mem-map :
    {b : Row} (f : Row → Row) (rows : List Row)
    → Memᴰ b (map f rows)
    → (a : Row) × Memᴰ a rows × (b ≡ f a)
mem-map f [] m = elim m [ ]
mem-map f (row ∷ rows) (Memᴰ.head e) = (row, Memᴰ.head refl, e)
mem-map f (row ∷ rows) (Memᴰ.tail m) =
    let (a, found, e) = mem-map f rows m in (a, Memᴰ.tail found, e)

-- A row of the table has the prompt and the owner, and the query asked for them.
pub record IsFound (q : Query) (rows : List Row) (prompt_id owner_id : String) : Type 0 where
  pub row : Row
  pub stored : Memᴰ row rows
  pub prompted : row.prompt_id ≡ prompt_id
  pub owned : row.owner_id ≡ owner_id
  pub of_prompt : accepts q.prompt_id prompt_id ≡ true
  pub of_owner : accepts q.owner_id owner_id ≡ true

fetched-IsFound :
    (q : Query) (rows : List Row) (shown : Row)
    → Memᴰ shown (map (with_column q.column) (page q rows))
    → IsFound q rows shown.prompt_id shown.owner_id
unfolding page
fetched-IsFound q rows shown m =
    let (row, fetched, e) = mem-map (with_column q.column) (page q rows) m in
    let (stored, wanted) =
      mem-select (is_wanted q) rows (mem-drop _ _ (mem-limited q.max_items _ fetched)) in
    let (owner, prompt) = &&-eq-true _ _ wanted in
    let prompted : row.prompt_id ≡ shown.prompt_id = ap (λ r. r.prompt_id) (sym e) in
    let owned : row.owner_id ≡ shown.owner_id = ap (λ r. r.owner_id) (sym e) in
    record {
      row = row;
      stored = stored;
      prompted = prompted;
      owned = owned;
      of_prompt = ap (accepts q.prompt_id) (sym prompted) ∙ prompt;
      of_owner = ap (accepts q.owner_id) (sym owned) ∙ owner;
    }

-- Every entry that `query` answers with, whatever is asked, is of a prompt and an owner of one stored
-- row, which meet the conditions of the query, and its user id is that owner.
pub query-IsFound :
    (q : Query) (rows : List Row) {result : Dict Members} (prompt_id : String) (item : Members)
    → query q rows ≡ some result
    → lookup prompt_id result ≡ some item
    → (owner_id : String) × IsFound q rows prompt_id owner_id
      × (get item "user_id" ≡ some (text owner_id))
unfolding query lookup
query-IsFound q rows prompt_id item e found =
    collect-Shows (IsFound q rows) [] _ (fetched-IsFound q rows)
      (λ id ms absent. ground (arith, absent)) e prompt_id item found
