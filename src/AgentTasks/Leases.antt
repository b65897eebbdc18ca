-- ===== src/AgentTasks/Leases.antt =====
-- The leases of agent tasks: a task has one exactly while it is active, and the numbers of leases
-- stay within the settings.
use comfy_ui_account_manager.Base.{
  ℕ, ◌≤◌, ◌<◌, String, Bool, true, false, List, [], ◌∷◌, ◌++◌, none, some, ◌≡◌, ◌⊎◌, inl, inr, refl,
  sym, ap, ◌∙◌, arith, str_eq, str_eq_refl, str_eq_iff, ltb, leb, if_ind, is_some, Memᴰ, ltb→lt,
  Bool-cases, &&-eq-true, subst,
}
use comfy_ui_account_manager.Base.Table.{count, update as update_rows, fetch_one}
use comfy_ui_account_manager.Base.Table.Laws.{
  count-update-le_mem, mem_unique, count-update, count-snoc, count-update_one, count-pos_of_mem,
  fetch_one-none, fetch_one-mem,
}
use comfy_ui_account_manager.Base.Table.Members.{mem-update, mem-snoc}
use comfy_ui_account_manager.Base.Table.Order.{first-mem}
use comfy_ui_account_manager.Json.{Json}
use comfy_ui_account_manager.AgentTasks.Rows.{Task, Settings, is_active, is_queued}
use comfy_ui_account_manager.AgentTasks.Tasks

-- The invariant of the task table.
pub record IsLeasedRight (settings : Settings) (tasks : List Task) : Type 0 where
  pub unique : (id : String) → count (Tasks.has_id id) tasks ≤ 1
  pub active : (task : Task) → Memᴰ task tasks → is_some task.lease ≡ is_active task.state
  pub total : count Tasks.is_leased tasks ≤ settings.concurrency
  pub each : (owner : String) → count (Tasks.is_leased_of owner) tasks ≤ settings.per_user

held-leased :
    (now : ℕ) (task_id lease : String) (row : Task)
    → Tasks.holds_lease now task_id lease row ≡ true
    → is_some row.lease ≡ true
held-leased now task_id lease row held = ground arith

report-active :
    (now : ℕ) (lease : String) (r : Tasks.Report) (row t : Task)
    → is_active row.state ≡ true
    → Tasks.is_allowed r.state ≡ true
    → let after = Tasks.as_reported now lease (Tasks.target_of row.state r.state) r t in
      is_some after.lease ≡ is_active after.state
report-active now lease r row t active allowed = ground arith

next_task-may_start :
    (settings : Settings) (tasks : List Task) (row : Task)
    → Tasks.next_task settings tasks ≡ some row
    → Memᴰ row tasks
      × ((is_queued row.state ≡ true)
          × (count (Tasks.is_leased_of row.owner) tasks < settings.per_user))
unfolding Tasks.next_task Tasks.may_start
next_task-may_start settings tasks row e =
    let (stored, start) =
      first-mem (λ a b. ltb a.created b.created) (Tasks.may_start settings tasks) tasks e in
    (stored, ((&&-eq-true _ _ start).0, ltb→lt _ _ (&&-eq-true _ _ start).1))

added_unique :
    (tasks : List Task) (task : Task) (id : String)
    → fetch_one (Tasks.has_id task.id) tasks ≡ none
    → count (Tasks.has_id id) tasks ≤ 1
    → count (Tasks.has_id id) (tasks ++ task ∷ []) ≤ 1
added_unique tasks task id fresh one = elim (Bool-cases (str_eq task.id id)) [
  | inl t ↦
      let absent : count (Tasks.has_id id) tasks ≡ 0 =
        subst (λ i. count (Tasks.has_id i) tasks ≡ 0) ((str_eq_iff task.id id).0 t)
          (fetch_one-none (Tasks.has_id task.id) tasks fresh) in
      ground (arith, count-snoc (Tasks.has_id id) tasks task, absent)
  | inr n ↦ ground (arith, count-snoc (Tasks.has_id id) tasks task)
]

module _ {settings : Settings} {tasks : List Task} (w : IsLeasedRight settings tasks) where
  -- An update that leaves the ids and the owners, keeps lease and state in step, and gives no lease
  -- to a task that has none.
  update-IsLeasedRight :
      (p : Task → Bool) (f : Task → Task)
      → ((t : Task) → (f t).id ≡ t.id)
      → ((t : Task) → (f t).owner ≡ t.owner)
      → ((t : Task) → Memᴰ t tasks → p t ≡ true → is_some (f t).lease ≡ is_active (f t).state)
      → ((t : Task)
          → Memᴰ t tasks
          → p t ≡ true
          → is_some (f t).lease ≡ true
          → is_some t.lease ≡ true)
      → IsLeasedRight settings (update_rows p f tasks)
  update-IsLeasedRight p f same_id same_owner step old_lease = record {
    unique = λ id.
        rw (count-update (Tasks.has_id id) p f tasks (λ t h. ap (λ i. str_eq i id) (same_id t)))
          (w.unique id);
    active = λ t m.
        let (t', m', e) = mem-update p f tasks m in
        rw e (
          if_ind (λ (x : Task). is_some x.lease ≡ is_active x.state) (p t') (λ h. step t' m' h)
            (λ h. w.active t' m'));
    total = omega (arith, count-update-le_mem Tasks.is_leased p f tasks old_lease, w.total);
    each = λ owner. omega (
      arith,
      count-update-le_mem (Tasks.is_leased_of owner) p f tasks
          (λ t m h k. ground (arith, same_owner t, old_lease t m h)),
      w.each owner,
    );
  }

  pub expire-IsLeasedRight :
      (now : ℕ)
      → IsLeasedRight settings
          (update_rows (Tasks.is_expired now) (Tasks.as_expired now Tasks.expired_message) tasks)
  expire-IsLeasedRight now =
      update-IsLeasedRight (Tasks.is_expired now) (Tasks.as_expired now Tasks.expired_message)
        (λ t. refl) (λ t. refl) (λ t m h. ground arith) (λ t m h k. ground arith)

  pub cancel-IsLeasedRight :
      (now : ℕ) (task_id owner : String)
      → IsLeasedRight settings
          (update_rows (Tasks.may_cancel task_id owner) (Tasks.as_cancelled now) tasks)
  cancel-IsLeasedRight now task_id owner =
      update-IsLeasedRight (Tasks.may_cancel task_id owner) (Tasks.as_cancelled now) (λ t. refl)
        (λ t. refl) (λ t m h. ground (arith, w.active t m)) (λ t m h k. k)

  pub recover-IsLeasedRight :
      (now : ℕ) (task_id : String) (flag : Bool)
      → IsLeasedRight settings
          (update_rows (Tasks.has_id task_id) (Tasks.as_recovered now flag) tasks)
  recover-IsLeasedRight now task_id flag =
      update-IsLeasedRight (Tasks.has_id task_id) (Tasks.as_recovered now flag) (λ t. refl)
        (λ t. refl) (λ t m h. refl) (λ t m h k. ground arith)

  -- The row that `update` finds, and the one that it writes, are the same.
  pub report-IsLeasedRight :
      (now : ℕ) (task_id lease : String) (r : Tasks.Report) (row : Task)
      → fetch_one (Tasks.holds_lease now task_id lease) tasks ≡ some row
      → Tasks.is_allowed r.state ≡ true
      → IsLeasedRight settings (
          update_rows
            (Tasks.has_id task_id)
            (Tasks.as_reported now lease (Tasks.target_of row.state r.state) r)
            tasks)
  report-IsLeasedRight now task_id lease r row found allowed =
      let (stored, held) = fetch_one-mem (Tasks.holds_lease now task_id lease) tasks found in
      let is_row : (t : Task) → Memᴰ t tasks → Tasks.has_id task_id t ≡ true → row ≡ t = λ t m h.
        mem_unique (Tasks.has_id task_id) tasks (w.unique task_id) stored (&&-eq-true _ _ held).0 m
          h in
      let leased : is_some row.lease ≡ true = held-leased now task_id lease row held in
      let active : is_active row.state ≡ true = sym (w.active row stored) ∙ leased in
      update-IsLeasedRight (Tasks.has_id task_id)
        (Tasks.as_reported now lease (Tasks.target_of row.state r.state) r) (λ t. refl) (λ t. refl)
        (λ t m h. report-active now lease r row t active allowed)
        (λ t m h k. subst (λ (x : Task). is_some x.lease ≡ true) (is_row t m h) leased)

  pub start-IsLeasedRight :
      (now : ℕ) (lease : String) (row : Task)
      → leb settings.concurrency (count Tasks.is_leased tasks) ≡ false
      → Tasks.next_task settings tasks ≡ some row
      → IsLeasedRight settings
          (update_rows (Tasks.has_id row.id) (Tasks.as_claimed now lease row.checkpoint) tasks)
  start-IsLeasedRight now lease row room e =
      let (stored, start) = next_task-may_start settings tasks row e in
      let itself : Tasks.has_id row.id row ≡ true = str_eq_refl row.id in
      let one : count (Tasks.has_id row.id) tasks ≡ 1 =
        omega
          (arith, w.unique row.id, count-pos_of_mem (Tasks.has_id row.id) tasks stored itself) in
      let f = Tasks.as_claimed now lease row.checkpoint in
      record {
        unique = λ id.
            rw (count-update (Tasks.has_id id) (Tasks.has_id row.id) f tasks (λ t h. refl))
              (w.unique id);
        active = λ t m.
            let (t', m', made) = mem-update (Tasks.has_id row.id) f tasks m in
            rw made (
              if_ind (λ (x : Task). is_some x.lease ≡ is_active x.state) (Tasks.has_id row.id t')
                (λ h. ground arith) (λ h. w.active t' m'));
        total = ground (
          arith,
          room,
          count-update_one Tasks.is_leased (Tasks.has_id row.id) f tasks stored itself one,
        );
        each = λ owner. ground (
          arith,
          count-update_one (Tasks.is_leased_of owner) (Tasks.has_id row.id) f tasks stored itself
              one,
          w.each owner,
          owner_room owner (start.1),
        );
      }
    where
      owner_room :
          (owner : String)
          → count (Tasks.is_leased_of row.owner) tasks < settings.per_user
          → (str_eq row.owner owner ≡ false)
            ⊎ (count (Tasks.is_leased_of owner) tasks < settings.per_user)
      owner_room owner h = elim (Bool-cases (str_eq row.owner owner)) [
        | inl t ↦ inr (
            subst (λ o. count (Tasks.is_leased_of o) tasks < settings.per_user)
              ((str_eq_iff row.owner owner).0 t) h)
        | inr f ↦ inl f
      ]

  pub new-IsLeasedRight :
      (now : ℕ) (id owner key : String) (job : Json)
      → fetch_one (Tasks.has_id id) tasks ≡ none
      → IsLeasedRight settings (tasks ++ Tasks.new_task now id owner key job ∷ [])
  new-IsLeasedRight now id owner key job fresh = record {
    unique = λ other.
        added_unique tasks (Tasks.new_task now id owner key job) other fresh (w.unique other);
    active = λ t m. elim (mem-snoc tasks m) [ inl old ↦ w.active t old | inr e ↦ rw e refl ];
    total =
        ground
          (arith, w.total, count-snoc Tasks.is_leased tasks (Tasks.new_task now id owner key job));
    each = λ o. ground (
      arith,
      w.each o,
      count-snoc (Tasks.is_leased_of o) tasks (Tasks.new_task now id owner key job),
    );
  }
