-- ===== src/History/Repairing.antt =====
-- What `_repair_recovery_fields` leaves of an item as it was.
use mathlib.Core.Option.{some-injective, none-ne-some}
use comfy_ui_account_manager.Base.{
  String, false, Option, none, some, ◌≡◌, sym, ap, ◌∙◌, inl, inr, str_eq, Bool-cases, Option-cases,
}
use comfy_ui_account_manager.Base.Options.{>>=-eq-some}
use comfy_ui_account_manager.Json.{Json, arr, Elements, nil, cons, Members, get}
use comfy_ui_account_manager.Json.Writing.{
  as_dict, get-put_other, get_value, dict_or_empty, is_text,
}
use comfy_ui_account_manager.History.Items.{
  extra_of, fill_create_time, repair_message, repair_messages, repair_recovery_fields, is_recovered,
  with_messages,
}

module _ (key : String) (p : str_eq "prompt" key ≡ false) (s : str_eq "status" key ≡ false) where
  fill_create_time-keeps :
      (timestamp : Json) (item : Members) {next : Members}
      → fill_create_time timestamp item ≡ some next
      → get next key ≡ get item key
  unfolding fill_create_time
  fill_create_time-keeps timestamp item e =
      let (place, done, _) = >>=-eq-some (extra_of item) _ e in
      elim (Option-cases (get_value place.1 "create_time")) [
        | inl absent ↦
            ap (λ ms. get ms key) (sym (some-injective _ _ (rw absent at done)))
            ∙ get-put_other item "prompt" key _ p
        | inr (time, present) ↦
            ap (λ ms. get ms key) (sym (some-injective _ _ (rw present at done)))
      ]

  repair_message-keeps :
      (event info : Json) (item : Members) {next : Members} {info' : Json}
      → repair_message event info item ≡ some (next, info')
      → get next key ≡ get item key
  unfolding repair_message
  repair_message-keeps event info item e = elim (Bool-cases (is_text event "execution_start")) [
    | inl started ↦
        let (ms, done, _) = >>=-eq-some (as_dict info) _ (rw started at e) in
        elim (Option-cases (get_value ms "timestamp")) [
          | inl absent ↦ ap (λ r. get r.0 key) (sym (some-injective _ _ (rw absent at done)))
          | inr (timestamp, present) ↦
              let (filled, same, made) =
                >>=-eq-some (fill_create_time timestamp item) _ (rw present at done) in
              ap (λ r. get r.0 key) (sym (some-injective _ _ same))
              ∙ fill_create_time-keeps timestamp item made
        ]
    | inr not_started ↦ elim (Bool-cases (is_text event "execution_error")) [
      | inl failed ↦
          let (ms, done, _) = >>=-eq-some (as_dict info) _ (rw (not_started, failed) at e) in
          ap (λ r. get r.0 key) (sym (some-injective _ _ done))
      | inr other ↦ ap (λ r. get r.0 key) (sym (some-injective _ _ (rw (not_started, other) at e)))
    ]
  ]

  repair_messages-keeps :
      (messages : Elements) (item : Members) {next : Members} {messages' : Elements}
      → repair_messages messages item ≡ some (next, messages')
      → get next key ≡ get item key
  unfolding repair_messages
  repair_messages-keeps nil item e = ap (λ r. get r.0 key) (sym (some-injective _ _ e))
  repair_messages-keeps (cons (arr (cons event (cons info nil))) messages) item e =
      let (changed, rest, one) = >>=-eq-some (repair_message event info item) _ e in
      let (repaired, done, more) = >>=-eq-some (repair_messages messages changed.0) _ rest in
      ap (λ r. get r.0 key) (sym (some-injective _ _ done))
      ∙ repair_messages-keeps messages changed.0 more
      ∙ repair_message-keeps event info item one
  repair_messages-keeps (cons other messages) item e = absurd (none-ne-some _ e)

  repaired_status :
      (item status : Members) (messages : Option Json) {next : Members}
      → with_messages item status messages ≡ some next
      → get next key ≡ get item key
  unfolding with_messages
  repaired_status item status none e = ap (λ ms. get ms key) (sym (some-injective _ _ e))
  repaired_status item status (some (arr messages)) e =
      let (repaired, done, made) = >>=-eq-some (repair_messages messages item) _ e in
      ap (λ ms. get ms key) (sym (some-injective _ _ done))
      ∙ get-put_other repaired.0 "status" key _ s
      ∙ repair_messages-keeps messages item made
  repaired_status item status (some other) e = absurd (none-ne-some _ e)

  -- The repair changes "prompt" and "status" only.
  pub repair-keeps :
      (item : Members) {next : Members}
      → repair_recovery_fields item ≡ some next
      → get next key ≡ get item key
  unfolding repair_recovery_fields
  repair-keeps item e = elim (Bool-cases (is_recovered (get item "api_recovery"))) [
    | inl yes_recovered ↦
        let (status, done, _) =
          >>=-eq-some (dict_or_empty item "status") _ (rw yes_recovered at e) in
        repaired_status item status (get status "messages") done
    | inr none_recovered ↦ ap (λ ms. get ms key) (sym (some-injective _ _ (rw none_recovered at e)))
  ]
