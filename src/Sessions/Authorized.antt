-- ===== src/Sessions/Authorized.antt =====
-- What a request that `authorize` lets through has shown, in terms of the tables and of the request.
use package.text.Mathlib.Text.{starts_with}
use mathlib.Core.Option.{some-injective, none-ne-some}
use comfy_ui_account_manager.Base.{
  ℕ, String, true, false, ◌&&◌, List, [], ◌∷◌, Option, none, some, ◌≡◌, refl, ap, arith, ◌⊎◌, inl,
  inr, str_eq, str_eq_iff, leb, Bool-cases, Option-cases, &&-eq-true, Memᴰ, length, get_elem?,
}
use comfy_ui_account_manager.Base.Table.Laws.{fetch_one-mem}
use comfy_ui_account_manager.Json.{Json, text}
use comfy_ui_account_manager.Json.Writing.{is_text}
use comfy_ui_account_manager.Scheduler.Queries.{get_job}
use comfy_ui_account_manager.Scheduler.Rows.{
  Job, Worker, Settings, Status, running, is_running, second,
}
use comfy_ui_account_manager.Scheduler.Rows as Scheduler
use comfy_ui_account_manager.Scheduler.Store.{has_prompt}
use comfy_ui_account_manager.Sessions.{
  ok, Request, Claims, Server, current_owner, local_owner, owner_of_running, is_allowed, authorize,
  second_is,
}
use comfy_ui_account_manager.Sessions.Rooms.{MaySubmit, HasRoom-MaySubmit}
use comfy_ui_account_manager.Sessions.Allowed.{authorize-HasPassed}

-- The claimed prompt runs for the account: in the scheduler's table, or else in the server's own queue.
pub data RunsFor (server : Server) (prompt_id owner : String) : Type 0 where
  scheduled :
      (settings : Settings) (db : Scheduler.Db) (job : Job)
      → server.scheduler ≡ some (settings, db)
      → Memᴰ job db.jobs
      → job.prompt_id ≡ prompt_id
      → is_running job.status ≡ true
      → job.owner_id ≡ owner
      → RunsFor server prompt_id owner
  local :
      (item : List Json)
      → server.scheduler ≡ none
      → Memᴰ item server.currently_running
      → get_elem? item 1 ≡ some (text prompt_id)
      → get_elem? item 6 ≡ some (text owner)
      → RunsFor server prompt_id owner

-- The endpoints of a task session.
abbrev pub IsEndpoint : Request → Type 0
IsEndpoint r =
    ((r.method ≡ "GET")
      × ((r.path ≡ "/object_info")
          ⊎ ((r.path ≡ "/view") ⊎ ((r.path ≡ "/queue") ⊎ (starts_with r.path "/history/" ≡ true)))))
    ⊎ ((r.method ≡ "POST") × ((r.path ≡ "/upload/image") ⊎ (r.path ≡ "/prompt")))

pub record IsAuthorized (now : ℕ) (server : Server) (r : Request) (claims : Claims) : Type 0 where
  pub parent : RunsFor server claims.am_task claims.id
  pub endpoint : IsEndpoint r
  pub submits :
      ((str_eq r.method "POST" ≡ false) ⊎ (str_eq r.path "/prompt" ≡ false))
      ⊎ ((settings : Settings) × (db : Scheduler.Db) × (server.scheduler ≡ some (settings, db))
          × MaySubmit now server r claims.id settings db)

text_of : (v : Json) (t : String) → is_text v t ≡ true → v ≡ text t
text_of (text u) t e = ap text ((str_eq_iff u t).0 e)
text_of v t e = absurd (ground (arith, e))

text_at :
    (o : Option Json) {t : String}
    → (elim o [ some (text u) ↦ some u | _ ↦ none ]) ≡ some t
    → o ≡ some (text t)
text_at (some (text u)) e = ap (λ v. some (text v)) (some-injective _ _ e)
text_at o e = absurd (none-ne-some _ e)

named_at :
    (o : Option Json) (t : String)
    → (elim o [ none ↦ false | some v ↦ is_text v t ]) ≡ true
    → o ≡ some (text t)
named_at none t e = absurd (ground (arith, e))
named_at (some v) t e = ap some (text_of v t e)

-- The owner that is found is that of an item of the prompt.
local_owner-mem :
    (prompt_id : String) (items : List (List Json)) {owner : String}
    → local_owner prompt_id items ≡ some owner
    → (item : List Json) × Memᴰ item items
      × (get_elem? item 1 ≡ some (text prompt_id))
      × (get_elem? item 6 ≡ some (text owner))
unfolding local_owner
local_owner-mem prompt_id [] e = absurd (none-ne-some _ e)
local_owner-mem prompt_id (item ∷ items) e =
    elim (Bool-cases (leb 7 (length item) && second_is prompt_id item)) [
      | inl hit ↦ (
        item,
        Memᴰ.head refl,
        named_at (get_elem? item 1) prompt_id (&&-eq-true _ _ hit).1,
        text_at (get_elem? item 6) (rw hit at e),
      )
      | inr miss ↦
          let (found, m, named, owned) = local_owner-mem prompt_id items (rw miss at e) in
          (found, Memᴰ.tail m, named, owned)
    ]

running_owner :
    (found : Option Job) {owner : String}
    → owner_of_running found ≡ some owner
    → (job : Job) × (found ≡ some job) × (is_running job.status ≡ true) × (job.owner_id ≡ owner)
running_owner none e = absurd (none-ne-some _ e)
running_owner (some job) e = elim (Bool-cases (is_running job.status)) [
  | inl runs ↦ (job, refl, runs, some-injective _ _ (rw runs at e))
  | inr ended ↦ absurd (none-ne-some _ (rw ended at e))
]

current_owner-RunsFor :
    (server : Server) (prompt_id owner : String)
    → current_owner server prompt_id ≡ some owner
    → RunsFor server prompt_id owner
unfolding current_owner get_job
current_owner-RunsFor server prompt_id owner e = elim (Option-cases server.scheduler) [
  | inl alone ↦
      let (item, m, named, owned) =
        local_owner-mem prompt_id server.currently_running (rw (alone, current_owner) at e) in
      local item alone m named owned
  | inr ((settings, db), there) ↦
      let (job, found, runs, owned) =
        running_owner (get_job prompt_id db) (rw (there, current_owner) at e) in
      let (m, named) = fetch_one-mem (has_prompt prompt_id) db.jobs found in
      scheduled settings db job there m ((str_eq_iff job.prompt_id prompt_id).0 named) runs owned
]

is_allowed-IsEndpoint : (r : Request) → is_allowed r ≡ true → IsEndpoint r
is_allowed-IsEndpoint r e = ground (
  arith,
  e,
  str_eq_iff r.method "GET",
  str_eq_iff r.method "POST",
  str_eq_iff r.path "/object_info",
  str_eq_iff r.path "/view",
  str_eq_iff r.path "/queue",
  str_eq_iff r.path "/upload/image",
  str_eq_iff r.path "/prompt",
)

-- A request that `authorize` lets through is by the account for which the claimed prompt runs, and to an
-- endpoint of a task session; and if it submits a prompt, there are two workers, the account runs fewer
-- jobs of the prompt's resource class than its limit, and another worker is idle for it.
pub authorize-IsAuthorized :
    (now : ℕ) (server : Server) (r : Request) (claims : Claims) {u : Unit}
    → authorize now server r claims ≡ ok u
    → IsAuthorized now server r claims
authorize-IsAuthorized now server r claims e =
    let passed = authorize-HasPassed now server r claims e in
    record {
      parent = current_owner-RunsFor server claims.am_task claims.id passed.claimed;
      endpoint = is_allowed-IsEndpoint r passed.endpoint;
      submits = elim passed.submits [
        | inl other ↦ inl (ground (arith, other))
        | inr (settings, db, there, room) ↦
            inr (settings, db, there, HasRoom-MaySubmit now server r claims.id settings db room)
      ];
    }
