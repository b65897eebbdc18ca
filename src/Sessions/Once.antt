-- ===== src/Sessions/Once.antt =====
-- A workflow is submitted at most once for a key of an agent task, whatever `delegated` is asked and the
-- store does in between.
use package.text.Mathlib.Text.{starts_with}
use mathlib.Core.Option.{some-injective, none-ne-some}
use comfy_ui_account_manager.AgentTasks.Children.{reserve_child}
use comfy_ui_account_manager.AgentTasks.Rows as Agent
use comfy_ui_account_manager.Base.{
  ℕ, ◌≤◌, String, Bool, true, false, ◌&&◌, ◌||◌, List, Option, none, some, ◌≡◌, refl, sym, subst,
  inl, inr, arith, str_eq, Bool-cases, Option-cases,
}
use comfy_ui_account_manager.Base.Table.{count}
use comfy_ui_account_manager.History.Store as History
use comfy_ui_account_manager.Json.{Members}
use comfy_ui_account_manager.Scheduler.Rows as Scheduler
use comfy_ui_account_manager.Sessions.{
  Answer, ok, http, raised, ◌>>=◌, require, or_raise, Request, is_get, is_post_to,
}
use comfy_ui_account_manager.Sessions.Assets.{Wanted, may_view}
use comfy_ui_account_manager.Sessions.Children.{
  HasChild, reserve_child-HasChild, reserve_child-keeps, not_fresh,
}
use comfy_ui_account_manager.Sessions.Delegated.{
  Library, child_prompts, Decision, forward, submit, repeated, decide, reserve, read_workflow,
  admit_prompt, admit_other, admit_task,
}

-- The answers but `submit`.
abbrev pub is_submit : Answer Decision → Bool
is_submit (ok (submit prompt_id)) = true
is_submit other = false

require_forward-not_submit :
    (b : Bool) (code : ℕ) → is_submit (require b code >>= λ _. ok forward) ≡ false
require_forward-not_submit true code = refl
require_forward-not_submit false code = refl

view-not_submit :
    (allowed : Option Bool) (code : ℕ)
    → is_submit (or_raise allowed >>= λ b. require b code >>= λ _. ok forward) ≡ false
view-not_submit none code = refl
view-not_submit (some b) code = require_forward-not_submit b code

repeated-not_submit :
    (child : Agent.Child) (scheduler : Scheduler.Db) → is_submit (repeated child scheduler) ≡ false
unfolding repeated
repeated-not_submit child scheduler = ground arith

admit_other-not_submit :
    (lib : Library) (r : Request) (wanted : Wanted) (task : Agent.Task) (history : List History.Row)
    (db : Agent.Db) {answer : Answer Decision}
    → admit_other lib r wanted task history db ≡ some answer
    → is_submit answer ≡ false
unfolding admit_other
admit_other-not_submit lib r wanted task history db e =
    let same =
      λ (a : Answer Decision) (b : Answer Decision) (eq : some a ≡ some b)
          (n : is_submit a ≡ false).
        subst (λ x. is_submit x ≡ false) (some-injective a b eq) n in
    elim (Bool-cases (is_get r && starts_with r.path "/history/")) [
      | inl a ↦ same _ _ (rw a at e) (require_forward-not_submit _ 403)
      | inr a' ↦ elim (Bool-cases (is_get r && str_eq r.path "/view")) [
        | inl b ↦
            same _ _ (rw (a', b) at e)
              (view-not_submit (may_view wanted task.owner (child_prompts task.id db) history) 403)
        | inr b' ↦
            elim (Bool-cases
              (is_get r && str_eq r.path "/object_info" || is_post_to "/upload/image" r)) [
                | inl c ↦ same _ _ (rw (a', b', c) at e) refl
                | inr c' ↦ elim (Bool-cases (is_post_to "/prompt" r)) [
                  | inl d ↦ absurd (none-ne-some _ (rw (a', b', c', d) at e))
                  | inr d' ↦ same _ _ (rw (a', b', c', d') at e) refl
                ]
              ]
      ]
    ]

decided_fresh :
    (reserved : Agent.Result (Agent.Child × Bool)) (scheduler : Scheduler.Db)
    → is_submit (decide reserved scheduler) ≡ true
    → (child : Agent.Child) × (reserved ≡ Agent.ok (child, true))
decided_fresh (Agent.err error) scheduler e = absurd (ground (arith, e))
decided_fresh (Agent.ok (child, true)) scheduler e = (child, refl)
decided_fresh (Agent.ok (child, false)) scheduler e =
    absurd (ground (arith, e, repeated-not_submit child scheduler))

module _ (lib : Library) (now : ℕ) (new_id : String) (scheduler : Scheduler.Db)
    (db : Agent.Db) where
  reserve-HasChild :
      (task_id key : String) (workflow : Members)
      → is_submit (reserve lib now new_id task_id key workflow scheduler db).0 ≡ true
      → HasChild task_id key (reserve lib now new_id task_id key workflow scheduler db).1
  unfolding reserve
  reserve-HasChild task_id key workflow e =
      let (child, made) =
        decided_fresh (reserve_child now new_id task_id key (lib.fingerprint workflow) db).0
          scheduler e in
      reserve_child-HasChild now new_id task_id key (lib.fingerprint workflow) db made

  reserve-once :
      (task_id key : String) (workflow : Members)
      → HasChild task_id key db
      → is_submit (reserve lib now new_id task_id key workflow scheduler db).0 ≡ false
  unfolding reserve
  reserve-once task_id key workflow has =
      elim (Bool-cases (is_submit (reserve lib now new_id task_id key workflow scheduler db).0)) [
        | inr never ↦ never
        | inl e ↦
            let (child, made) =
              decided_fresh (reserve_child now new_id task_id key (lib.fingerprint workflow) db).0
                scheduler e in
            absurd (not_fresh now new_id task_id key (lib.fingerprint workflow) db has made)
      ]

  admit_prompt-keeps :
      (task_id : String) (read : Answer (String × Members)) (q : Agent.Child → Bool)
      → count q db.children
        ≤ count q (admit_prompt lib now new_id task_id scheduler db read).1.children
  unfolding admit_prompt reserve
  admit_prompt-keeps task_id (http code) q = omega arith
  admit_prompt-keeps task_id raised q = omega arith
  admit_prompt-keeps task_id (ok (key, workflow)) q =
      reserve_child-keeps now new_id task_id key (lib.fingerprint workflow) db q

  module _ (r : Request) (wanted : Wanted) (history : List History.Row) where
    pub admit_task-keeps :
        (found : Answer Agent.Task) (q : Agent.Child → Bool)
        → count q db.children
          ≤ count q (admit_task lib now new_id r wanted scheduler history db found).1.children
    unfolding admit_task
    admit_task-keeps (http code) q = omega arith
    admit_task-keeps raised q = omega arith
    admit_task-keeps (ok task) q = elim (Option-cases (admit_other lib r wanted task history db)) [
      | inl submits ↦ rw (submits, admit_task) (admit_prompt-keeps task.id (read_workflow lib r) q)
      | inr (answer, other) ↦ rw (other, admit_task) (omega arith)
    ]

    admit_prompt-HasChild :
        (task_id : String) (read : Answer (String × Members))
        → is_submit (admit_prompt lib now new_id task_id scheduler db read).0 ≡ true
        → (kw : String × Members) × (read ≡ ok kw)
          × HasChild task_id kw.0 (admit_prompt lib now new_id task_id scheduler db read).1
    unfolding admit_prompt
    admit_prompt-HasChild task_id (http code) e = absurd (ground (arith, e))
    admit_prompt-HasChild task_id raised e = absurd (ground (arith, e))
    admit_prompt-HasChild task_id (ok (key, workflow)) e =
        ((key, workflow), refl, reserve-HasChild task_id key workflow e)

    -- A request that submits has left a child with its key.
    pub admit_task-HasChild :
        (found : Answer Agent.Task)
        → is_submit (admit_task lib now new_id r wanted scheduler history db found).0 ≡ true
        → (task : Agent.Task) × (kw : String × Members) × (found ≡ ok task)
          × (read_workflow lib r ≡ ok kw)
          × HasChild task.id kw.0 (admit_task lib now new_id r wanted scheduler history db found).1
    unfolding admit_task
    admit_task-HasChild (http code) e = absurd (ground (arith, e))
    admit_task-HasChild raised e = absurd (ground (arith, e))
    admit_task-HasChild (ok task) e =
        elim (Option-cases (admit_other lib r wanted task history db)) [
          | inl submits ↦
              let (kw, read, has) =
                admit_prompt-HasChild task.id (read_workflow lib r)
                  (rw (submits, admit_task) at e) in
              (task, kw, refl, read, rw (submits, admit_task) has)
          | inr (answer, other) ↦ absurd (
              ground (
                arith,
                rw (other, admit_task) at e,
                admit_other-not_submit lib r wanted task history db other,
              ))
        ]

    pub admit_task-once :
        (found : Answer Agent.Task) (task_id : String) (kw : String × Members)
        → ((task : Agent.Task) → found ≡ ok task → task.id ≡ task_id)
        → read_workflow lib r ≡ ok kw
        → HasChild task_id kw.0 db
        → is_submit (admit_task lib now new_id r wanted scheduler history db found).0 ≡ false
    unfolding admit_task admit_prompt
    admit_task-once (http code) task_id kw same read has = refl
    admit_task-once raised task_id kw same read has = refl
    admit_task-once (ok task) task_id kw same read has =
        elim (Option-cases (admit_other lib r wanted task history db)) [
          | inl submits ↦
              rw (submits, read, admit_task)
                (reserve-once task.id kw.0 kw.1
                  (subst (λ id. HasChild id kw.0 db) (sym (same task refl)) has))
          | inr (answer, other) ↦
              rw (other, admit_task) (admit_other-not_submit lib r wanted task history db other)
        ]
