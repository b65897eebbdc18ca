-- ===== src/Sessions/Outputs.antt =====
-- What it means that the search of `delegated` has found an output file.
use mathlib.Core.Option.{some-injective, none-ne-some}
use comfy_ui_account_manager.Base.{
  String, true, List, [], ◌∷◌, none, some, ◌≡◌, refl, ap, ◌∙◌, subst, arith, ◌⊎◌, inl, inr,
  str_eq_iff, Bool-cases, Option-cases, &&-eq-true, Memᴰ,
}
use comfy_ui_account_manager.Base.Dict.{Dict}
use comfy_ui_account_manager.Base.Int.{negsuc}
use comfy_ui_account_manager.Base.Options.{>>=-eq-some}
use comfy_ui_account_manager.History.Store.{Row, query}
use comfy_ui_account_manager.Json.{
  Json, text, arr, obj, Elements, nil, cons, Members, end, member, get,
}
use comfy_ui_account_manager.Json.Writing.{as_dict, is_text}
use comfy_ui_account_manager.Sessions.Assets.{
  Wanted, field_is, is_wanted, any_wanted, in_value, in_output, in_outputs, outputs_of, in_entries,
  child_query, may_view,
}

-- The dict has the key with the value.
pub data HasMember (key : String) (value : Json) : Members → Type 0 where
  here : {rest : Members} → HasMember key value (member key value rest)
  there :
      {k : String} {v : Json} {rest : Members}
      → HasMember key value rest
      → HasMember key value (member k v rest)

-- The list has the element.
pub data HasElement (value : Json) : Elements → Type 0 where
  first : {rest : Elements} → HasElement value (cons value rest)
  later : {v : Json} {rest : Elements} → HasElement value rest → HasElement value (cons v rest)

-- The dict has the text under the key, or has not the key, and the text is the default.
abbrev pub Says : Members → String → String → String → Type 0
Says ms key default value =
    (get ms key ≡ some (text value)) ⊎ ((get ms key ≡ none) × (default ≡ value))

-- Among the outputs of a history item is the file that is asked for.
pub record HasFile (w : Wanted) (entry : Members) : Type 0 where
  pub outputs : Members
  pub put_out : get entry "outputs" ≡ some (obj outputs)
  pub node : String
  pub output : Members
  pub of_node : HasMember node (obj output) outputs
  pub kind : String
  pub items : Elements
  pub of_kind : HasMember kind (arr items) output
  pub file : Members
  pub listed : HasElement (obj file) items
  pub filename : Says file "filename" "" w.filename
  pub subfolder : Says file "subfolder" "" w.subfolder
  pub type : Says file "type" "output" w.kind

text_of : (v : Json) (t : String) → is_text v t ≡ true → v ≡ text t
text_of (text u) t e = ap text ((str_eq_iff u t).0 e)
text_of v t e = absurd (ground (arith, e))

dict_of : (v : Json) {ms : Members} → as_dict v ≡ some ms → v ≡ obj ms
dict_of (obj ms) e = ap obj (some-injective _ _ e)
dict_of v e = absurd (none-ne-some _ e)

field_is-Says :
    (ms : Members) (key default value : String)
    → field_is ms key default value ≡ true
    → Says ms key default value
unfolding field_is
field_is-Says ms key default value e = elim (Option-cases (get ms key)) [
  | inl absent ↦ inr (absent, (str_eq_iff default value).0 (rw (absent, field_is) at e))
  | inr (v, found) ↦ inl (found ∙ ap some (text_of v value (rw (found, field_is) at e)))
]

-- A file in a list.
abbrev IsFile : Wanted → Members → Type 0
IsFile w file =
    Says file "filename" "" w.filename
    × Says file "subfolder" "" w.subfolder
    × Says file "type" "output" w.kind

is_wanted-IsFile :
    (w : Wanted) (v : Json)
    → is_wanted w v ≡ true
    → (file : Members) × (v ≡ obj file) × IsFile w file
unfolding is_wanted
is_wanted-IsFile w (obj file) e =
    let (named, more) = &&-eq-true (field_is file "filename" "" w.filename) _ e in
    let (within, kind) = &&-eq-true (field_is file "subfolder" "" w.subfolder) _ more in
    (
      file,
      refl,
      (
        field_is-Says file "filename" "" w.filename named,
        field_is-Says file "subfolder" "" w.subfolder within,
        field_is-Says file "type" "output" w.kind kind,
      ),
    )
is_wanted-IsFile w v e = absurd (ground (arith, e))

any_wanted-IsFile :
    (w : Wanted) (items : Elements)
    → any_wanted w items ≡ true
    → (file : Members) × HasElement (obj file) items × IsFile w file
unfolding any_wanted
any_wanted-IsFile w nil e = absurd (ground (arith, e))
any_wanted-IsFile w (cons item items) e = elim (Bool-cases (is_wanted w item)) [
  | inl hit ↦
      let (file, same, says) = is_wanted-IsFile w item hit in
      (file, subst (λ v. HasElement v (cons item items)) same first, says)
  | inr miss ↦
      let (file, m, says) = any_wanted-IsFile w items (rw miss at e) in (file, later m, says)
]

in_value-items :
    (w : Wanted) (v : Json)
    → in_value w v ≡ true
    → (items : Elements) × (v ≡ arr items) × (any_wanted w items ≡ true)
unfolding in_value
in_value-items w (arr items) e = (items, refl, e)
in_value-items w v e = absurd (ground (arith, e))

in_output-items :
    (w : Wanted) (output : Members)
    → in_output w output ≡ true
    → (kind : String) × (items : Elements) × HasMember kind (arr items) output
      × (any_wanted w items ≡ true)
unfolding in_output
in_output-items w end e = absurd (ground (arith, e))
in_output-items w (member k v values) e = elim (Bool-cases (in_value w v)) [
  | inl hit ↦
      let (items, same, some_file) = in_value-items w v hit in
      (k, items, subst (λ x. HasMember k x (member k v values)) same here, some_file)
  | inr miss ↦
      let (kind, items, m, some_file) = in_output-items w values (rw miss at e) in
      (kind, items, there m, some_file)
]

in_outputs-output :
    (w : Wanted) (outputs : Members)
    → in_outputs w outputs ≡ some true
    → (node : String) × (output : Members) × HasMember node (obj output) outputs
      × (in_output w output ≡ true)
unfolding in_outputs
in_outputs-output w end e = absurd (ground (arith, some-injective _ _ e))
in_outputs-output w (member k v outputs) e =
    let (ms, e1, dict) = >>=-eq-some (as_dict v) _ e in
    let (rest, e2, more) = >>=-eq-some (in_outputs w outputs) _ e1 in
    elim (Bool-cases (in_output w ms)) [
      | inl hit ↦
          (k, ms, subst (λ x. HasMember k x (member k v outputs)) (dict_of v dict) here, hit)
      | inr miss ↦
          let all : rest ≡ true = some-injective _ _ (rw miss at e2) in
          let (node, output, m, found) = in_outputs-output w outputs (more ∙ ap some all) in
          (node, output, there m, found)
    ]

outputs_of-get :
    (entry : Members) {outputs : Members} (w : Wanted)
    → outputs_of entry ≡ some outputs
    → in_outputs w outputs ≡ some true
    → get entry "outputs" ≡ some (obj outputs)
unfolding outputs_of in_outputs
outputs_of-get entry w e found = elim (Option-cases (get entry "outputs")) [
  | inl absent ↦
      let none_there = some-injective _ _ (rw (absent, outputs_of) at e) in
      absurd (ground (arith, some-injective _ _ (ap (in_outputs w) none_there ∙ found)))
  | inr (v, there_is) ↦ there_is ∙ ap some (dict_of v (rw (there_is, outputs_of) at e))
]

entry-HasFile :
    (w : Wanted) (entry : Members) {outputs : Members}
    → outputs_of entry ≡ some outputs
    → in_outputs w outputs ≡ some true
    → HasFile w entry
entry-HasFile w entry {outputs} e found =
    let (node, output, of_node, in_it) = in_outputs-output w outputs found in
    let (kind, items, of_kind, some_file) = in_output-items w output in_it in
    let (file, listed, (filename, subfolder, type)) = any_wanted-IsFile w items some_file in
    record {
      outputs = outputs;
      put_out = outputs_of-get entry w e found;
      node = node;
      output = output;
      of_node = of_node;
      kind = kind;
      items = items;
      of_kind = of_kind;
      file = file;
      listed = listed;
      filename = filename;
      subfolder = subfolder;
      type = type;
    }

in_entries-HasFile :
    (w : Wanted) (entries : Dict Members)
    → in_entries w entries ≡ some true
    → (entry : String × Members) × Memᴰ entry entries × HasFile w entry.1
unfolding in_entries
in_entries-HasFile w [] e = absurd (ground (arith, some-injective _ _ e))
in_entries-HasFile w (entry ∷ entries) e =
    let (outputs, e1, read) = >>=-eq-some (outputs_of entry.1) _ e in
    let (is_here, e2, searched) = >>=-eq-some (in_outputs w outputs) _ e1 in
    let (rest, e3, more) = >>=-eq-some (in_entries w entries) _ e2 in
    elim (Bool-cases is_here) [
      | inl hit ↦ (entry, Memᴰ.head refl, entry-HasFile w entry.1 read (searched ∙ ap some hit))
      | inr miss ↦
          let all : rest ≡ true = some-injective _ _ (rw miss at e3) in
          let (found, m, file) = in_entries-HasFile w entries (more ∙ ap some all) in
          (found, Memᴰ.tail m, file)
    ]

-- The history has an item with the file, for the owner and the prompt.
pub record IsViewable (w : Wanted) (owner prompt_id : String) (history : List Row) : Type 0 where
  pub entries : Dict Members
  pub queried :
      query
        (record {
          max_items = none;
          offset = negsuc 0;
          owner_id = some owner;
          prompt_id = some prompt_id;
          column = λ item. item;
        })
        history
      ≡ some entries
  pub entry : String × Members
  pub shown : Memᴰ entry entries
  pub file : HasFile w entry.1

pub may_view-IsViewable :
    (w : Wanted) (owner : String) (prompts : List String) (history : List Row)
    → may_view w owner prompts history ≡ some true
    → (prompt_id : String) × Memᴰ prompt_id prompts × IsViewable w owner prompt_id history
unfolding may_view
may_view-IsViewable w owner [] history e = absurd (ground (arith, some-injective _ _ e))
may_view-IsViewable w owner (prompt_id ∷ prompts) history e =
    let (entries, e1, queried) = >>=-eq-some (query (child_query owner prompt_id) history) _ e in
    let (is_here, e2, searched) = >>=-eq-some (in_entries w entries) _ e1 in
    let (rest, e3, more) = >>=-eq-some (may_view w owner prompts history) _ e2 in
    elim (Bool-cases is_here) [
      | inl hit ↦
          let (entry, m, file) = in_entries-HasFile w entries (searched ∙ ap some hit) in
          (
            prompt_id,
            Memᴰ.head refl,
            record { entries = entries; queried = queried; entry = entry; shown = m; file = file },
          )
      | inr miss ↦
          let all : rest ≡ true = some-injective _ _ (rw miss at e3) in
          let (found, m, viewable) =
            may_view-IsViewable w owner prompts history (more ∙ ap some all) in
          (found, Memᴰ.tail m, viewable)
    ]
