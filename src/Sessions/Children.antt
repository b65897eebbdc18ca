-- ===== src/Sessions/Children.antt =====
-- The task of a request to `delegated`, and the children that it reserves.
use comfy_ui_account_manager.AgentTasks.Children.{
  is_request, new_child, insert_child, reserve_child,
}
use comfy_ui_account_manager.AgentTasks.Idempotence.{reserve-found}
use comfy_ui_account_manager.AgentTasks.Rows as Agent
use comfy_ui_account_manager.AgentTasks.Tasks as Tasks
use comfy_ui_account_manager.Base.{
  ℕ, ◌≤◌, String, Bool, true, Option, none, some, ◌≡◌, sym, ap, ◌∙◌, inl, inr, arith, Bool-cases,
}
use comfy_ui_account_manager.Base.Table.{count}
use comfy_ui_account_manager.Base.Table.Laws.{
  count-snoc, count-pos_of_mem, fetch_one-none, fetch_one-mem,
}
use comfy_ui_account_manager.Sessions.{ok}
use comfy_ui_account_manager.Sessions.Allowed.{ok-injective}
use comfy_ui_account_manager.Sessions.Delegated.{Claims, check_task, is_current, current_task}

-- The task of the claims exists, has the claimed owner and lease, and runs or delivers.
pub record IsOwned (now : ℕ) (claims : Claims) (db : Agent.Db) (task : Agent.Task) : Type 0 where
  pub found : Tasks.get claims.am_agent db ≡ some task
  pub current : is_current now claims task ≡ true

check_task-IsOwned :
    (now : ℕ) (claims : Claims) (o : Option Agent.Task) {task : Agent.Task}
    → check_task now claims o ≡ ok task
    → (o ≡ some task) × (is_current now claims task ≡ true)
check_task-IsOwned now claims none e = absurd (ground (arith, e))
check_task-IsOwned now claims (some t) e = elim (Bool-cases (is_current now claims t)) [
  | inl current ↦
      let same = ok-injective (rw current at e) in
      (ap some same, ap (is_current now claims) (sym same) ∙ current)
  | inr not_current ↦ absurd (ground (arith, rw not_current at e))
]

pub current_task-IsOwned :
    (now : ℕ) (claims : Claims) (db : Agent.Db) {task : Agent.Task}
    → current_task now claims db ≡ ok task
    → IsOwned now claims db task
unfolding current_task
current_task-IsOwned now claims db e =
    let (found, current) = check_task-IsOwned now claims (Tasks.get claims.am_agent db) e in
    record { found = found; current = current }

-- A key of the task has a child.
abbrev pub HasChild : String → String → Agent.Db → Type 0
HasChild task_id key db = 1 ≤ count (is_request task_id key) db.children

module _ (now : ℕ) (prompt_id task_id key fingerprint : String) (db : Agent.Db) where
  pub reserve_child-HasChild :
      {child : Agent.Child} {fresh : Bool}
      → (reserve_child now prompt_id task_id key fingerprint db).0 ≡ Agent.ok (child, fresh)
      → HasChild task_id key (reserve_child now prompt_id task_id key fingerprint db).1
  reserve_child-HasChild {child} {fresh} e =
      let found = (reserve-found now prompt_id task_id key fingerprint db child fresh e).0 in
      let (stored, named) = fetch_one-mem (is_request task_id key) _ found in
      count-pos_of_mem (is_request task_id key) _ stored named

  pub reserve_child-keeps :
      (q : Agent.Child → Bool)
      → count q db.children
        ≤ count q (reserve_child now prompt_id task_id key fingerprint db).1.children
  unfolding reserve_child insert_child
  reserve_child-keeps q =
      ground (arith, count-snoc q db.children (new_child task_id key fingerprint prompt_id))

  pub not_fresh :
      {child : Agent.Child}
      → HasChild task_id key db
      → ¬ ((reserve_child now prompt_id task_id key fingerprint db).0 ≡ Agent.ok (child, true))
  unfolding reserve_child
  not_fresh has e = ground (arith, e, has, fetch_one-none (is_request task_id key) db.children)
