-- ===== src/History/Exact.antt =====
-- The table has the abstract history whole, as long as its bound is not reached.
use mathlib.Core.Option.{some-injective}
use comfy_ui_account_manager.Base.{
  ℕ, suc, ◌+◌, ◌-◌, ◌≤◌, String, not, List, [], ◌∷◌, none, some, ◌≡◌, refl, sym, ap, ◌∙◌, subst,
  arith, str_eq, length, drop, if◌then◌else◌,
}
use comfy_ui_account_manager.Base.Int.{ℤ}
use comfy_ui_account_manager.Base.Options.{◌>>=◌, >>=-eq-some}
use comfy_ui_account_manager.Base.Table.{count, delete}
use comfy_ui_account_manager.Json.{obj, Members}
use comfy_ui_account_manager.History.Contents.{
  content, without_owner, content-store_row, content-delete_prompt, content-delete_owner,
  store_row-IsUnique, select-IsUnique, length-store_row, length-select,
}
use comfy_ui_account_manager.History.Saving.{IsUnique}
use comfy_ui_account_manager.History.Store.{
  Row, is_prompt, is_owner, owner_of, retain, store_row, save, delete_prompt, delete_owner, clear,
}
use comfy_ui_account_manager.History.Replay.{
  Call, saving, deleting, deleting_owner, clearing, Spec, call, run, saved_content, replay_call,
  replay, saves,
}

saves-cons : (c : Call) (calls : List Call) → saves (c ∷ calls) ≡ saves (c ∷ []) + saves calls
saves-cons (saving prompt_id item) calls = omega arith
saves-cons (deleting prompt_id) calls = omega arith
saves-cons (deleting_owner owner_id) calls = omega arith
saves-cons clearing calls = omega arith

-- The table shows the abstract history whole, and has room for `free` saves more.
pub record Matches (max_items free : ℕ) (rows : List Row) (spec : Spec) : Type 0 where
  unique : IsUnique rows
  room : length rows + free ≤ max_items
  exact : (prompt_id : String) → content prompt_id rows ≡ spec prompt_id

pub empty-Matches : (max_items free : ℕ) → free ≤ max_items → Matches max_items free [] (λ id. none)
unfolding count content
empty-Matches max_items free h = record {
  unique = λ id. omega arith;
  room = omega (arith, h);
  exact = λ id. refl;
}

module _ (number : ℤ → String) where
  saved-Matches :
      (max_items free : ℕ) (prompt_id : String) (item : Members) (rows : List Row) (spec : Spec)
      {next : List Row}
      → Matches max_items (suc free) rows spec
      → save number prompt_id item max_items rows ≡ some next
      → Matches max_items free next (replay_call number (saving prompt_id item) spec)
  unfolding save retain replay_call saved_content
  saved-Matches max_items free prompt_id item rows spec m e =
      let (owner_id, done, owned) = >>=-eq-some (owner_of number item) _ e in
      let new : Row = record { prompt_id = prompt_id; owner_id = owner_id; item = obj item } in
      let fits : length (store_row new rows) - max_items ≡ 0 =
        omega (arith, m.room, length-store_row new rows) in
      let whole : retain max_items (store_row new rows) ≡ store_row new rows =
        ap (λ k. drop k (store_row new rows)) fits in
      subst (λ rs. Matches max_items free rs (replay_call number (saving prompt_id item) spec))
        (sym whole ∙ some-injective _ _ done)
        (record {
          unique = store_row-IsUnique new rows m.unique;
          room = omega (arith, m.room, length-store_row new rows);
          exact = λ id.
              content-store_row new rows id
              ∙ ap (λ c. if str_eq prompt_id id then c else content id rows)
                  (sym (ap (λ o. o >>= λ owner. some (owner, obj item)) owned))
              ∙ ap (λ c. if str_eq prompt_id id then saved_content number item else c) (m.exact id);
        })

  call-Matches :
      (max_items free : ℕ) (c : Call) (rows : List Row) (spec : Spec) {next : List Row}
      → Matches max_items (saves (c ∷ []) + free) rows spec
      → call number max_items c rows ≡ some next
      → Matches max_items free next (replay_call number c spec)
  unfolding call replay_call delete_prompt delete_owner delete clear count content
  call-Matches max_items free (saving prompt_id item) rows spec m e =
      saved-Matches max_items free prompt_id item rows spec
        (record { unique = m.unique; room = omega (arith, m.room); exact = m.exact }) e
  call-Matches max_items free (deleting gone) rows spec m e =
      subst (λ rs. Matches max_items free rs (replay_call number (deleting gone) spec))
        (some-injective _ _ e)
        (record {
          unique = select-IsUnique _ rows m.unique;
          room = omega (arith, m.room, length-select (λ row. not (is_prompt gone row)) rows);
          exact = λ id.
              content-delete_prompt gone rows id
              ∙ ap (λ c. if str_eq gone id then none else c) (m.exact id);
        })
  call-Matches max_items free (deleting_owner gone) rows spec m e =
      subst (λ rs. Matches max_items free rs (replay_call number (deleting_owner gone) spec))
        (some-injective _ _ e)
        (record {
          unique = select-IsUnique _ rows m.unique;
          room = omega (arith, m.room, length-select (λ row. not (is_owner gone row)) rows);
          exact = λ id.
              content-delete_owner gone rows id (m.unique id)
              ∙ ap (without_owner gone) (m.exact id);
        })
  call-Matches max_items free clearing rows spec m e =
      subst (λ rs. Matches max_items free rs (replay_call number clearing spec))
        (some-injective _ _ e)
        (record { unique = λ id. omega arith; room = omega (arith, m.room); exact = λ id. refl })

  pub run-Matches :
      (max_items : ℕ) (calls : List Call) (rows : List Row) (spec : Spec) {final : List Row}
      → Matches max_items (saves calls) rows spec
      → run number max_items calls rows ≡ some final
      → (prompt_id : String) → content prompt_id final ≡ replay number calls spec prompt_id
  unfolding run replay
  run-Matches max_items [] rows spec m e id =
      ap (content id) (sym (some-injective _ _ e)) ∙ m.exact id
  run-Matches max_items (c ∷ calls) rows spec m e id =
      let (next, rest, one) = >>=-eq-some (call number max_items c rows) _ e in
      run-Matches max_items calls next (replay_call number c spec)
        (call-Matches max_items (saves calls) c rows spec
          (record {
            unique = m.unique;
            room = omega (arith, m.room, saves-cons c calls);
            exact = m.exact;
          })
          one)
        rest id
