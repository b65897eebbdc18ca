-- ===== src/Sessions/Gate.antt =====
-- The tests that a request passes which `delegated` lets through.
use package.text.Mathlib.Text.{starts_with}
use comfy_ui_account_manager.AgentTasks.Rows as Agent
use comfy_ui_account_manager.Base.{
  ℕ, String, Bool, true, false, ◌&&◌, ◌||◌, List, Option, none, some, ◌≡◌, ◌⊎◌, refl, sym, ap, ◌∙◌,
  inl, inr, arith, str_eq, str_eq_iff, Bool-cases, &&-eq-true,
}
use comfy_ui_account_manager.History.Store as History
use comfy_ui_account_manager.Recovery.Providers.{is_any_of}
use comfy_ui_account_manager.Scheduler.Rows as Scheduler
use comfy_ui_account_manager.Sessions.{
  Answer, ok, http, raised, ◌>>=◌, require, or_raise, Request, is_get, is_post_to,
}
use comfy_ui_account_manager.Sessions.Allowed.{>>=-eq-ok, require-eq-ok, ok-injective}
use comfy_ui_account_manager.Sessions.Assets.{Wanted, may_view}
use comfy_ui_account_manager.Sessions.Children.{IsOwned, current_task-IsOwned}
use comfy_ui_account_manager.Sessions.Delegated.{
  Library, Claims, current_task, child_prompts, Decision, forward, admit_other, admit_task, admit,
}

-- The tests of the five kinds of requests.
abbrev pub is_kind : Request → Bool
is_kind r =
    is_get r && starts_with r.path "/history/"
    || (is_get r && str_eq r.path "/view"
        || (is_get r && str_eq r.path "/object_info"
            || (is_post_to "/upload/image" r || is_post_to "/prompt" r)))

-- The tests that a request passes.
pub record IsChecked (lib : Library) (now : ℕ) (r : Request) (wanted : Wanted) (claims : Claims)
    (history : List History.Row) (db : Agent.Db) : Type 0 where
  pub task : Agent.Task
  pub owned : IsOwned now claims db task
  pub kind : is_kind r ≡ true
  pub of_child :
      (is_get r && starts_with r.path "/history/" ≡ false)
      ⊎ (is_any_of (lib.last_segment r.path) (child_prompts task.id db) ≡ true)
  pub viewed :
      (is_get r && str_eq r.path "/view" ≡ false)
      ⊎ (may_view wanted task.owner (child_prompts task.id db) history ≡ some true)

and_false : (b : Bool) → (b && false) ≡ false
and_false b = ground arith

read_some : (o : Option Bool) {b : Bool} → or_raise o ≡ ok b → o ≡ some b
read_some none e = absurd (ground (arith, e))
read_some (some b) e = ap some (ok-injective e)

module _ (lib : Library) (now : ℕ) (new_id : String) (r : Request) (wanted : Wanted)
    (scheduler : Scheduler.Db) (history : List History.Row) (db : Agent.Db) where
  admitted_task :
      (found : Answer Agent.Task) {d : Decision}
      → (admit_task lib now new_id r wanted scheduler history db found).0 ≡ ok d
      → (task : Agent.Task) × (found ≡ ok task)
  unfolding admit_task
  admitted_task (http code) e = absurd (ground (arith, e))
  admitted_task raised e = absurd (ground (arith, e))
  admitted_task (ok task) e = (task, refl)

  -- A branch that needs no child has answered.
  other-answer :
      (task : Agent.Task) (answer : Answer Decision) {d : Decision}
      → admit_other lib r wanted task history db ≡ some answer
      → (admit_task lib now new_id r wanted scheduler history db (ok task)).0 ≡ ok d
      → answer ≡ ok d
  unfolding admit_task
  other-answer task answer other e = rw (other, admit_task) at e

  history-of_child :
      (task : Agent.Task) {d : Decision}
      → (admit_task lib now new_id r wanted scheduler history db (ok task)).0 ≡ ok d
      → is_get r && starts_with r.path "/history/" ≡ true
      → is_any_of (lib.last_segment r.path) (child_prompts task.id db) ≡ true
  unfolding admit_other
  history-of_child task e path =
      let child = is_any_of (lib.last_segment r.path) (child_prompts task.id db) in
      let other : admit_other lib r wanted task history db
          ≡ some (require child 403 >>= λ _. ok forward) =
        rw path refl in
      let (_, _, required) = >>=-eq-ok (require child 403) _ (other-answer task _ other e) in
      require-eq-ok child 403 required

  asset-viewed :
      (task : Agent.Task) {d : Decision}
      → (admit_task lib now new_id r wanted scheduler history db (ok task)).0 ≡ ok d
      → is_get r && str_eq r.path "/view" ≡ true
      → may_view wanted task.owner (child_prompts task.id db) history ≡ some true
  unfolding admit_other
  asset-viewed task e view =
      let at_view = (str_eq_iff r.path "/view").0 (&&-eq-true (is_get r) _ view).1 in
      let elsewhere : is_get r && starts_with r.path "/history/" ≡ false =
        ap (λ p. is_get r && starts_with p "/history/") at_view ∙ and_false (is_get r) in
      let allowed = may_view wanted task.owner (child_prompts task.id db) history in
      let other : admit_other lib r wanted task history db
          ≡ some (or_raise allowed >>= λ b. require b 403 >>= λ _. ok forward) =
        rw (elsewhere, view) refl in
      let (found, rest, read) = >>=-eq-ok (or_raise allowed) _ (other-answer task _ other e) in
      let (_, _, required) = >>=-eq-ok (require found 403) _ rest in
      read_some allowed read ∙ ap some (require-eq-ok found 403 required)

  -- A request of none of the five kinds is refused.
  known-kind :
      (task : Agent.Task) {d : Decision}
      → (admit_task lib now new_id r wanted scheduler history db (ok task)).0 ≡ ok d
      → is_kind r ≡ true
  unfolding admit_other
  known-kind task e = elim (Bool-cases (is_kind r)) [
    | inl known ↦ known
    | inr unknown ↦
        let refused : admit_other lib r wanted task history db ≡ some (http 403) =
          ground (arith, unknown) in
        absurd (ground (arith, other-answer task _ refused e))
  ]

-- A request that `admit` lets through has passed its tests.
pub admit-IsChecked :
    (lib : Library) (now : ℕ) (new_id : String) (r : Request) (wanted : Wanted) (claims : Claims)
    (scheduler : Scheduler.Db) (history : List History.Row) (db : Agent.Db) {d : Decision}
    → (admit lib now new_id r wanted claims scheduler history db).0 ≡ ok d
    → IsChecked lib now r wanted claims history db
unfolding admit
admit-IsChecked lib now new_id r wanted claims scheduler history db e =
    let (task, found) =
      admitted_task lib now new_id r wanted scheduler history db (current_task now claims db) e in
    let e' =
      ap (λ f. (admit_task lib now new_id r wanted scheduler history db f).0) (sym found) ∙ e in
    record {
      task = task;
      owned = current_task-IsOwned now claims db found;
      kind = known-kind lib now new_id r wanted scheduler history db task e';
      of_child = elim (Bool-cases (is_get r && starts_with r.path "/history/")) [
        | inl path ↦
            inr (history-of_child lib now new_id r wanted scheduler history db task e' path)
        | inr other ↦ inl other
      ];
      viewed = elim (Bool-cases (is_get r && str_eq r.path "/view")) [
        | inl view ↦ inr (asset-viewed lib now new_id r wanted scheduler history db task e' view)
        | inr other ↦ inl other
      ];
    }
