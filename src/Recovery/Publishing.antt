-- ===== src/Recovery/Publishing.antt =====
-- `_recover_one` and the history: what a check may change of it.
use mathlib.Core.Option.{some-injective}
use comfy_ui_account_manager.Base.{
  ℕ, String, Bool, true, false, List, some, ◌≡◌, refl, sym, ap, ◌∙◌, subst, inl, inr, Bool-cases,
  ◌⊎◌,
}
use comfy_ui_account_manager.Base.Options.{>>=-eq-some}
use comfy_ui_account_manager.History.Contents.{content}
use comfy_ui_account_manager.History.Protected.{merge_protects}
use comfy_ui_account_manager.History.Recovering.{is_success}
use comfy_ui_account_manager.History.Store as History
use comfy_ui_account_manager.Json.{Json, obj, Members}
use comfy_ui_account_manager.Recovery.Checks.{
  is_lost, Joined, Outside, Verdict, attempt, verdict_of,
}
use comfy_ui_account_manager.Recovery.Cycle.{
  ignore_settled, is_ignored, publish, publish_unless_ignored, task_of, Tables, check, recover_one,
}
use comfy_ui_account_manager.Recovery.Rows.{State, ignored, state_text}
use comfy_ui_account_manager.Recovery.Tidy.{recover_one-cases}
use comfy_ui_account_manager.Scheduler.Rows.{Job}

-- The job of the prompt was lost when the check published, and its item is a dict that did not succeed.
pub record IsRecoverable (jobs : List Job) (prompt_id : String) (item : Json) : Type 0 where
  pub lost : is_lost prompt_id jobs ≡ true
  pub members : Members
  pub dict : item ≡ obj members
  pub unfinished : is_success members ≡ some false

-- The history still has the prompt for the owner, with the same item or a recoverable one changed.
abbrev pub Protects : List Job → String → String → Json → List History.Row → Type 0
Protects jobs prompt_id owner_id item history =
    (item' : Json) × (content prompt_id history ≡ some (owner_id, item'))
    × ((item' ≡ item) ⊎ IsRecoverable jobs prompt_id item)

module _ (now : ℕ) (jobs : List Job) (j : Joined) (v : Verdict) (history : List History.Row)
    (prompt_id owner_id : String) (item : Json)
    (present : content prompt_id history ≡ some (owner_id, item)) where
  publish-Protects :
      {after : Bool × List History.Row}
      → publish now jobs j v history ≡ some after
      → Protects jobs prompt_id owner_id item after.1
  unfolding publish
  publish-Protects e = elim (Bool-cases (is_lost j.row.prompt_id jobs)) [
    | inr stays ↦
        let same : (false, history) ≡ _ = some-injective _ _ (rw stays at e) in
        (item, ap (λ a. content prompt_id a.1) (sym same) ∙ present, inl refl)
    | inl lost ↦
        let (item', found, how) =
          merge_protects now (task_of j) (state_text v.state) v.message v.references history
            prompt_id owner_id item (rw lost at e) present in
        (
          item',
          found,
          elim how [
            | inl same ↦ inl same
            | inr may ↦ inr (record {
              lost = ap (λ id. is_lost id jobs) may.prompted ∙ lost;
              members = may.members;
              dict = may.dict;
              unfinished = may.unfinished;
            })
          ],
        )
  ]

  publish_unless_ignored-Protects :
      {after : State × List History.Row}
      → publish_unless_ignored now jobs j v history ≡ some after
      → Protects jobs prompt_id owner_id item after.1
  unfolding publish_unless_ignored
  publish_unless_ignored-Protects e = elim (Bool-cases (is_ignored v.state)) [
    | inl given_up ↦
        let same : (ignored, history) ≡ _ = some-injective _ _ (rw given_up at e) in
        (item, ap (λ a. content prompt_id a.1) (sym same) ∙ present, inl refl)
    | inr kept ↦
        let (published, done, made) = >>=-eq-some (publish now jobs j v history) _ (rw kept at e) in
        subst (λ a. Protects jobs prompt_id owner_id item a.1) (some-injective _ _ done)
          (publish-Protects made)
  ]

-- Whatever a call of `_recover_one` meets, the history keeps every prompt with its owner, and an item is
-- changed only if it is a dict whose status is not "success" and its job was lost when the call published.
pub recover_one-Protects :
    (now : ℕ) (jobs : List Job) (out : Outside) (t : Tables) (prompt_id owner_id : String)
    (item : Json)
    → content prompt_id t.1 ≡ some (owner_id, item)
    → Protects out.jobs_at_publish prompt_id owner_id item (recover_one now jobs out t).1.1
unfolding check
recover_one-Protects now jobs out t prompt_id owner_id item present =
    elim (recover_one-cases now jobs out t) [
      | inl idle ↦ (item, ap (λ u. content prompt_id u.1) idle ∙ present, inl refl)
      | inr (j, e) ↦ checked j e
    ]
  where
    checked :
        (j : Joined)
        → check now out j (ignore_settled jobs t.0, t.1) ≡ some (recover_one now jobs out t).1
        → Protects out.jobs_at_publish prompt_id owner_id item (recover_one now jobs out t).1.1
    checked j e =
        let v = verdict_of j.row (attempt now out j) in
        let (after, done, published) =
          >>=-eq-some (publish_unless_ignored now out.jobs_at_publish j v t.1) _ e in
        subst (λ u. Protects out.jobs_at_publish prompt_id owner_id item u.1)
          (some-injective _ _ done)
          (publish_unless_ignored-Protects now out.jobs_at_publish j v t.1 prompt_id owner_id item
            present published)
