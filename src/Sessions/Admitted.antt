-- ===== src/Sessions/Admitted.antt =====
-- What a request that `delegated` lets through has shown, in terms of the tables and of the request.
use package.text.Mathlib.Text.{starts_with}
use comfy_ui_account_manager.AgentTasks.Children.{children}
use comfy_ui_account_manager.AgentTasks.Rows as Agent
use comfy_ui_account_manager.AgentTasks.Tasks as Tasks
use comfy_ui_account_manager.AgentTasks.Tasks.{has_id}
use comfy_ui_account_manager.Base.{
  ℕ, ◌≤◌, String, true, false, not, ◌&&◌, ◌||◌, List, [], ◌∷◌, Option, none, some, ◌≡◌, ◌⊎◌, refl,
  sym, ap, inl, inr, arith, str_eq, str_eq_iff, Bool-cases, &&-eq-true, ltb, map, Memᴰ,
}
use comfy_ui_account_manager.Base.Table.Laws.{fetch_one-mem}
use comfy_ui_account_manager.Base.Table.Members.{mem-select}
use comfy_ui_account_manager.History.Store as History
use comfy_ui_account_manager.Recovery.Providers.{is_any_of}
use comfy_ui_account_manager.Scheduler.Rows as Scheduler
use comfy_ui_account_manager.Sessions.{ok, Request}
use comfy_ui_account_manager.Sessions.Assets.{Wanted}
use comfy_ui_account_manager.Sessions.Children.{IsOwned}
use comfy_ui_account_manager.Sessions.Delegated.{
  Library, Claims, same_lease, Decision, child_prompts, admit,
}
use comfy_ui_account_manager.Sessions.Gate.{admit-IsChecked}
use comfy_ui_account_manager.Sessions.Outputs.{IsViewable, may_view-IsViewable}

-- The claims are those of a stored task, by its owner and its lease, which has not run out, and the task
-- runs or delivers.
pub record IsCurrent (now : ℕ) (claims : Claims) (task : Agent.Task) (db : Agent.Db) : Type 0 where
  pub stored : Memᴰ task db.tasks
  pub named : task.id ≡ claims.am_agent
  pub owned : task.owner ≡ claims.id
  pub leased : task.lease ≡ claims.am_lease
  pub unexpired : now ≤ task.lease_until
  pub active : (task.state ≡ Agent.running) ⊎ (task.state ≡ Agent.delivering)

-- The task has a stored child with the prompt.
abbrev pub HasPrompt : Agent.Task → String → Agent.Db → Type 0
HasPrompt task prompt_id db =
    (child : Agent.Child) × Memᴰ child db.children
    × (child.task_id ≡ task.id)
    × (child.prompt_id ≡ prompt_id)

-- The endpoints of an agent task.
abbrev pub IsTaskEndpoint : Request → Type 0
IsTaskEndpoint r =
    ((r.method ≡ "GET")
      × ((r.path ≡ "/object_info")
          ⊎ ((r.path ≡ "/view") ⊎ (starts_with r.path "/history/" ≡ true))))
    ⊎ ((r.method ≡ "POST") × ((r.path ≡ "/upload/image") ⊎ (r.path ≡ "/prompt")))

-- A history that the request reads is that of a child, and a file that it views is among the outputs of
-- a child in the history of the task's owner.
pub record IsAdmitted (lib : Library) (now : ℕ) (r : Request) (wanted : Wanted) (claims : Claims)
    (history : List History.Row) (db : Agent.Db) : Type 0 where
  pub task : Agent.Task
  pub current : IsCurrent now claims task db
  pub endpoint : IsTaskEndpoint r
  pub of_child :
      (str_eq r.method "GET" && starts_with r.path "/history/" ≡ false)
      ⊎ HasPrompt task (lib.last_segment r.path) db
  pub viewed :
      (str_eq r.method "GET" && str_eq r.path "/view" ≡ false)
      ⊎ ((prompt_id : String) × HasPrompt task prompt_id db
          × IsViewable wanted task.owner prompt_id history)

lease_of : (a b : Option String) → same_lease a b ≡ true → a ≡ b
lease_of none none e = refl
lease_of (some a) (some b) e = ap some ((str_eq_iff a b).0 e)
lease_of none (some b) e = absurd (ground (arith, e))
lease_of (some a) none e = absurd (ground (arith, e))

active_state :
    (s : Agent.State)
    → Agent.is_running s || Agent.is_delivering s ≡ true
    → (s ≡ Agent.running) ⊎ (s ≡ Agent.delivering)
active_state Agent.running e = inl refl
active_state Agent.delivering e = inr refl
active_state s e = absurd (ground (arith, e))

IsOwned-IsCurrent :
    (now : ℕ) (claims : Claims) (db : Agent.Db) (task : Agent.Task)
    → IsOwned now claims db task
    → IsCurrent now claims task db
unfolding Tasks.get
IsOwned-IsCurrent now claims db task o =
    let (stored, named) = fetch_one-mem (has_id claims.am_agent) db.tasks o.found in
    let (owned, rest) = &&-eq-true (str_eq task.owner claims.id) _ o.current in
    let (leased, rest') = &&-eq-true (same_lease task.lease claims.am_lease) _ rest in
    let (unexpired, active) =
      &&-eq-true (not (ltb task.lease_until now))
        (Agent.is_running task.state || Agent.is_delivering task.state) rest' in
    record {
      stored = stored;
      named = (str_eq_iff task.id claims.am_agent).0 named;
      owned = (str_eq_iff task.owner claims.id).0 owned;
      leased = lease_of task.lease claims.am_lease leased;
      unexpired = ground (arith, unexpired);
      active = active_state task.state active;
    }

any_of-mem : (t : String) (names : List String) → is_any_of t names ≡ true → Memᴰ t names
any_of-mem t [] e = absurd (ground (arith, e))
any_of-mem t (name ∷ names) e = elim (Bool-cases (str_eq t name)) [
  | inl hit ↦ Memᴰ.head ((str_eq_iff t name).0 hit)
  | inr miss ↦ Memᴰ.tail (any_of-mem t names (rw miss at e))
]

mem-prompts :
    {prompt_id : String} (found : List Agent.Child)
    → Memᴰ prompt_id (map (λ c. c.prompt_id) found)
    → (child : Agent.Child) × Memᴰ child found × (prompt_id ≡ child.prompt_id)
mem-prompts [] m = elim m [ ]
mem-prompts (child ∷ found) (Memᴰ.head e) = (child, Memᴰ.head refl, e)
mem-prompts (child ∷ found) (Memᴰ.tail m) =
    let (other, at, e) = mem-prompts found m in (other, Memᴰ.tail at, e)

child_prompts-HasPrompt :
    (task : Agent.Task) (db : Agent.Db) (prompt_id : String)
    → Memᴰ prompt_id (child_prompts task.id db)
    → HasPrompt task prompt_id db
unfolding child_prompts children
child_prompts-HasPrompt task db prompt_id m =
    let (child, found, e) = mem-prompts (children task.id db) m in
    let (stored, of_task) = mem-select (λ c. str_eq c.task_id task.id) db.children found in
    (child, stored, (str_eq_iff child.task_id task.id).0 of_task, sym e)

-- A request that `admit` lets through is by the owner and under the unexpired lease of a stored agent task
-- that runs or delivers, and to an endpoint of an agent task; if it reads a history, that is of a stored child of the task; and if it views a
-- file, that is among the outputs of a child of the task in its owner's history.
pub admit-IsAdmitted :
    (lib : Library) (now : ℕ) (new_id : String) (r : Request) (wanted : Wanted) (claims : Claims)
    (scheduler : Scheduler.Db) (history : List History.Row) (db : Agent.Db) {d : Decision}
    → (admit lib now new_id r wanted claims scheduler history db).0 ≡ ok d
    → IsAdmitted lib now r wanted claims history db
admit-IsAdmitted lib now new_id r wanted claims scheduler history db e =
    let c = admit-IsChecked lib now new_id r wanted claims scheduler history db e in
    record {
      task = c.task;
      current = IsOwned-IsCurrent now claims db c.task c.owned;
      endpoint = ground (
        arith,
        c.kind,
        str_eq_iff r.method "GET",
        str_eq_iff r.method "POST",
        str_eq_iff r.path "/object_info",
        str_eq_iff r.path "/view",
        str_eq_iff r.path "/upload/image",
        str_eq_iff r.path "/prompt",
      );
      of_child = elim c.of_child [
        | inl other ↦ inl other
        | inr named ↦
            inr (child_prompts-HasPrompt c.task db _ (any_of-mem (lib.last_segment r.path) _ named))
      ];
      viewed = elim c.viewed [
        | inl other ↦ inl other
        | inr allowed ↦
            let (prompt_id, m, viewable) =
              may_view-IsViewable wanted c.task.owner _ history allowed in
            inr (prompt_id, child_prompts-HasPrompt c.task db prompt_id m, viewable)
      ];
    }
