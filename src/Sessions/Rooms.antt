-- ===== src/Sessions/Rooms.antt =====
-- What a prompt has shown that `authorize` lets a task session submit, in terms of the tables.
use mathlib.Core.Option.{some-injective, none-ne-some}
use comfy_ui_account_manager.Base.{
  ℕ, ◌+◌, ◌*◌, ◌≤◌, ◌<◌, String, Bool, true, false, not, ◌&&◌, ◌||◌, List, [], ◌∷◌, Option, none,
  some, ◌≡◌, refl, sym, ap, ◌∙◌, arith, ◌⊎◌, inl, inr, str_eq, str_eq_iff, ◌==◌, leb, Bool-cases,
  Option-cases, &&-eq-true, Memᴰ, map, length, or_else, if◌then◌else◌,
}
use comfy_ui_account_manager.Base.Dict.{lookup}
use comfy_ui_account_manager.Base.Int.{pos}
use comfy_ui_account_manager.Base.Table.{count, select, order_by, fetch_one}
use comfy_ui_account_manager.Base.Table.Laws.{fetch_one-none}
use comfy_ui_account_manager.Base.Table.Members.{mem-select, mem-order_by}
use comfy_ui_account_manager.Base.Table.Sorted.{count-order_by, count-select, count_ext}
use comfy_ui_account_manager.Json.{Json, num, text, obj, Members, end, get, truthy}
use comfy_ui_account_manager.Scheduler.Queries.{
  by_port, serves, running_jobs, worker_ports, idle_worker_ports, is_free, is_idle,
}
use comfy_ui_account_manager.Scheduler.Rows.{
  Job, Worker, Settings, Status, running, is_running, second,
}
use comfy_ui_account_manager.Scheduler.Rows as Scheduler
use comfy_ui_account_manager.Scheduler.Settings.{classify_item}
use comfy_ui_account_manager.Scheduler.Store.{is_stale}
use comfy_ui_account_manager.Sessions.{
  Request, Server, prompt_of, resource_of, limit_of, active_jobs, is_full, other_ports, is_empty,
}
use comfy_ui_account_manager.Sessions.Allowed.{HasRoom}

unfoldable pub is_admin : Members → Bool
unfolding get truthy
is_admin user = elim (get user "admin") [ none ↦ false | some v ↦ truthy v ]

-- The limit of running jobs of a resource class for an account.
pub data IsLimit (server : Server) (settings : Settings) (owner resource : String)
    : ℕ → Type 0 where
  of_admin :
      is_admin (server.user owner) ≡ true
      → IsLimit server settings owner resource settings.admin_concurrency_limit
  of_class :
      {limit : ℕ}
      → is_admin (server.user owner) ≡ false
      → lookup resource settings.resource_concurrency_limits ≡ some limit
      → IsLimit server settings owner resource limit
  of_user :
      is_admin (server.user owner) ≡ false
      → lookup resource settings.resource_concurrency_limits ≡ none
      → IsLimit server settings owner resource settings.max_concurrent_jobs_per_user

-- The worker was heard of in the last 60 seconds.
abbrev pub is_fresh : ℕ → Worker → Bool
is_fresh now worker = leb now (worker.last_heartbeat + 60 * second)

-- Another worker than the server's own one runs no job, and serves the resource class.
pub record IsIdle (now : ℕ) (server : Server) (resource : String) (db : Scheduler.Db) : Type 0 where
  pub worker : Worker
  pub registered : Memᴰ worker db.workers
  pub other : worker.port == server.port ≡ false
  pub fresh : is_fresh now worker ≡ true
  pub free :
      (worker.active_prompt_id ≡ none)
      ⊎ ((prompt_id : String) × (worker.active_prompt_id ≡ some prompt_id)
          × (count (λ job. str_eq job.prompt_id prompt_id && is_running job.status) db.jobs ≡ 0))
  pub class :
      (worker.resource_class ≡ "default")
      ⊎ ((resource ≡ "default") ⊎ (worker.resource_class ≡ resource))

-- There are two workers, the account runs fewer jobs of the prompt's resource class than its limit, where
-- it has one, and another worker is idle for it.
pub record MaySubmit (now : ℕ) (server : Server) (r : Request) (owner : String)
    (settings : Settings) (db : Scheduler.Db) : Type 0 where
  pub two : 2 ≤ count (is_fresh now) db.workers
  pub payload : Members
  pub body : r.payload ≡ some (obj payload)
  pub resource : String
  pub class :
      resource
      ≡ classify_item server.py settings
          (num (pos 0) ∷ text "" ∷ or_else (get payload "prompt") (obj end) ∷ [])
  pub limit : ℕ
  pub of_account : IsLimit server settings owner resource limit
  pub room :
      (limit ≡ 0)
      ⊎ (count
            (λ job.
              is_running job.status
              && (str_eq job.owner_id owner && str_eq job.resource_class resource))
            db.jobs
          < limit)
  pub idle : IsIdle now server resource db

limit_of-if :
    (server : Server) (settings : Settings) (owner resource : String)
    → limit_of server settings owner resource ≡ (
        if is_admin (server.user owner)
        then settings.admin_concurrency_limit
        else or_else
            (lookup resource settings.resource_concurrency_limits)
            settings.max_concurrent_jobs_per_user)
unfolding limit_of is_admin
limit_of-if server settings owner resource = refl

limit_of-IsLimit :
    (server : Server) (settings : Settings) (owner resource : String)
    → IsLimit server settings owner resource (limit_of server settings owner resource)
limit_of-IsLimit server settings owner resource =
    rw (limit_of-if server settings owner resource)
      (elim (Bool-cases (is_admin (server.user owner))) [
        | inl admin ↦ rw admin (of_admin admin)
        | inr plain ↦ elim (Option-cases (lookup resource settings.resource_concurrency_limits)) [
          | inl absent ↦ rw (plain, absent) (of_user plain absent)
          | inr (limit, found) ↦ rw (plain, found) (of_class plain found)
        ]
      ])

active_jobs-count :
    (db : Scheduler.Db) (owner resource : String)
    → active_jobs db owner resource
      ≡ count
          (λ job.
            is_running job.status
            && (str_eq job.owner_id owner && str_eq job.resource_class resource))
          db.jobs
unfolding active_jobs running_jobs
active_jobs-count db owner resource =
    count-select (λ job. str_eq job.resource_class resource)
      (λ job. is_running job.status && (false || str_eq job.owner_id owner)) db.jobs
    ∙ count_ext _ _ db.jobs (λ job. ground arith)

length-count : (ports : List Worker) → length (map (λ w. w.port) ports) ≡ count (λ w. true) ports
unfolding count
length-count [] = refl
length-count (w ∷ ports) = ground (arith, length-count ports)

worker_ports-count :
    (now : ℕ) (db : Scheduler.Db)
    → length (worker_ports now 60 db) ≡ count (is_fresh now) db.workers
unfolding worker_ports
worker_ports-count now db =
    length-count (order_by by_port (select (λ w. not (is_stale now 60 w)) db.workers))
    ∙ count-order_by by_port (λ w. true) (select (λ w. not (is_stale now 60 w)) db.workers)
    ∙ count-select (λ w. true) (λ w. not (is_stale now 60 w)) db.workers
    ∙ count_ext _ _ db.workers (λ w. ground arith)

mem-port :
    {port : ℕ} (workers : List Worker)
    → Memᴰ port (map (λ w. w.port) workers)
    → (w : Worker) × Memᴰ w workers × (port ≡ w.port)
mem-port [] m = elim m [ ]
mem-port (w ∷ workers) (Memᴰ.head e) = (w, Memᴰ.head refl, e)
mem-port (w ∷ workers) (Memᴰ.tail m) =
    let (found, at, e) = mem-port workers m in (found, Memᴰ.tail at, e)

some_port : (ports : List ℕ) → is_empty ports ≡ false → (port : ℕ) × Memᴰ port ports
some_port [] e = absurd (ground (arith, e))
some_port (port ∷ ports) e = (port, Memᴰ.head refl)

-- What `is_idle` says of a worker.
is_free-cases :
    (jobs : List Job) (w : Worker)
    → is_free jobs w ≡ true
    → (w.active_prompt_id ≡ none)
      ⊎ ((prompt_id : String) × (w.active_prompt_id ≡ some prompt_id)
          × (count (λ job. str_eq job.prompt_id prompt_id && is_running job.status) jobs ≡ 0))
unfolding is_free
is_free-cases jobs w e = elim (Option-cases w.active_prompt_id) [
  | inl idle ↦ inl idle
  | inr (prompt_id, active) ↦
      let p = λ (job : Job). str_eq job.prompt_id prompt_id && is_running job.status in
      elim (Option-cases (fetch_one p jobs)) [
        | inl absent ↦ inr (prompt_id, active, fetch_one-none p jobs absent)
        | inr (job, found) ↦ absurd (ground (arith, rw (active, is_free, found) at e))
      ]
]

idle_worker_ports-IsIdle :
    (now : ℕ) (server : Server) (resource : String) (db : Scheduler.Db)
    → is_empty (other_ports server.port (idle_worker_ports now resource 60 db)) ≡ false
    → IsIdle now server resource db
unfolding idle_worker_ports is_idle other_ports
idle_worker_ports-IsIdle now server resource db e =
    let idle = is_idle now 60 resource db.jobs in
    let (port, found) = some_port _ e in
    let (m, other) =
      mem-select (λ p. not (p == server.port)) (idle_worker_ports now resource 60 db) found in
    let (w, sorted, same) = mem-port (order_by by_port (select idle db.workers)) m in
    let (stored, fits) =
      mem-select idle db.workers (mem-order_by by_port (select idle db.workers) sorted) in
    let (fresh, more) =
      &&-eq-true (not (is_stale now 60 w)) (is_free db.jobs w && serves resource w) fits in
    let (free, class) = &&-eq-true (is_free db.jobs w) (serves resource w) more in
    record {
      worker = w;
      registered = stored;
      other = ap (λ p. p == server.port) (sym same) ∙ ground (arith, other);
      fresh = ground (arith, fresh);
      free = is_free-cases db.jobs w free;
      class = ground (
        arith,
        class,
        str_eq_iff w.resource_class "default",
        str_eq_iff resource "default",
        str_eq_iff w.resource_class resource,
      );
    }

prompt_of-read :
    (r : Request) {prompt : Json}
    → prompt_of r ≡ some prompt
    → (payload : Members) × (r.payload ≡ some (obj payload))
      × (prompt ≡ or_else (get payload "prompt") (obj end))
unfolding prompt_of
prompt_of-read r e = body r.payload refl e
  where
    body :
        (o : Option Json) {prompt : Json}
        → r.payload ≡ o
        → (elim o [ some (obj ms) ↦ some (or_else (get ms "prompt") (obj end)) | _ ↦ none ])
          ≡ some prompt
        → (payload : Members) × (r.payload ≡ some (obj payload))
          × (prompt ≡ or_else (get payload "prompt") (obj end))
    body (some (obj ms)) at found = (ms, at, sym (some-injective _ _ found))
    body o at found = absurd (none-ne-some _ found)

pub HasRoom-MaySubmit :
    (now : ℕ) (server : Server) (r : Request) (owner : String) (settings : Settings)
    (db : Scheduler.Db)
    → HasRoom now server r owner settings db
    → MaySubmit now server r owner settings db
unfolding resource_of
HasRoom-MaySubmit now server r owner settings db h =
    let (payload, body, prompt) = prompt_of-read r h.read in
    let resource = resource_of server settings h.prompt in
    record {
      two = omega (arith, h.workers, worker_ports-count now db);
      payload = payload;
      body = body;
      resource = resource;
      class = ap (λ p. classify_item server.py settings (num (pos 0) ∷ text "" ∷ p ∷ [])) prompt;
      limit = limit_of server settings owner resource;
      of_account = limit_of-IsLimit server settings owner resource;
      room = room_of (limit_of server settings owner resource) _ (
          ap (λ n. is_full (limit_of server settings owner resource) n)
            (sym (active_jobs-count db owner resource))
          ∙ h.room);
      idle = idle_worker_ports-IsIdle now server resource db h.idle;
    }
  where
    room_of : (limit active : ℕ) → is_full limit active ≡ false → (limit ≡ 0) ⊎ (active < limit)
    room_of limit active e = ground (arith, e)
