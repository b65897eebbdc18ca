-- ===== src/Sessions/Allowed.antt =====
-- The tests that a request passes which `authorize` lets through.
use comfy_ui_account_manager.Base.{
  ℕ, ◌≤◌, String, Bool, true, false, not, Option, none, some, ◌≡◌, refl, ap, inl, inr, arith,
  str_eq_iff, length, leb, ◌⊎◌,
}
use comfy_ui_account_manager.Json.{Json}
use comfy_ui_account_manager.Scheduler.Queries.{worker_ports, idle_worker_ports}
use comfy_ui_account_manager.Scheduler.Rows.{Job, Settings, is_running}
use comfy_ui_account_manager.Scheduler.Rows as Scheduler
use comfy_ui_account_manager.Sessions.{
  Answer, ok, http, raised, ◌>>=◌, require, or_raise, Request, Claims, Server, current_owner,
  is_claimed, is_allowed, is_post_to, prompt_of, resource_of, limit_of, active_jobs, is_full,
  other_ports, is_empty, authorize_prompt, authorize_post, authorize,
}

pub >>=-eq-ok :
    {A B : Type 0} {b : B} (x : Answer A) (next : A → Answer B)
    → (x >>= next) ≡ ok b
    → (a : A) × (next a ≡ ok b) × (x ≡ ok a)
>>=-eq-ok (ok a) next e = (a, e, refl)
>>=-eq-ok (http code) next e = absurd (ground (arith, e))
>>=-eq-ok raised next e = absurd (ground (arith, e))

pub ok-injective : {A : Type 0} {a b : A} → ok a ≡ ok b → a ≡ b
ok-injective e = cc

pub require-eq-ok : (b : Bool) (code : ℕ) {u : Unit} → require b code ≡ ok u → b ≡ true
require-eq-ok true code e = refl
require-eq-ok false code e = absurd (ground (arith, e))

-- The tests that a child prompt passes.
pub record HasRoom (now : ℕ) (server : Server) (r : Request) (owner : String) (settings : Settings)
    (db : Scheduler.Db) : Type 0 where
  pub workers : 2 ≤ length (worker_ports now 60 db)
  pub prompt : Json
  pub read : prompt_of r ≡ some prompt
  pub room :
      is_full
        (limit_of server settings owner (resource_of server settings prompt))
        (active_jobs db owner (resource_of server settings prompt))
      ≡ false
  pub idle :
      is_empty
        (other_ports server.port (idle_worker_ports now (resource_of server settings prompt) 60 db))
      ≡ false

-- The tests that a request passes.
pub record HasPassed (now : ℕ) (server : Server) (r : Request) (claims : Claims) : Type 0 where
  pub claimed : current_owner server claims.am_task ≡ some claims.id
  pub endpoint : is_allowed r ≡ true
  pub submits :
      (is_post_to "/prompt" r ≡ false)
      ⊎ ((settings : Settings) × (db : Scheduler.Db) × (server.scheduler ≡ some (settings, db))
          × HasRoom now server r claims.id settings db)

claimed_owner :
    (owner : Option String) (claims : Claims)
    → is_claimed owner claims ≡ true
    → owner ≡ some claims.id
claimed_owner none claims e = absurd (ground (arith, e))
claimed_owner (some owner) claims e = ap some ((str_eq_iff owner claims.id).0 (ground (arith, e)))

prompt-HasRoom :
    (now : ℕ) (server : Server) (r : Request) (owner : String) (settings : Settings)
    (db : Scheduler.Db) {u : Unit}
    → authorize_prompt now server r owner (settings, db) ≡ ok u
    → HasRoom now server r owner settings db
unfolding authorize_prompt
prompt-HasRoom now server r owner settings db e =
    let (_, e1, workers) = >>=-eq-ok (require (leb 2 (length (worker_ports now 60 db))) 409) _ e in
    let (prompt, e2, read) = >>=-eq-ok (or_raise (prompt_of r)) _ e1 in
    let resource = resource_of server settings prompt in
    let (_, e3, room) =
      >>=-eq-ok
        (require
          (not (is_full (limit_of server settings owner resource) (active_jobs db owner resource)))
          409)
        _ e2 in
    record {
      workers = ground (arith, require-eq-ok _ 409 workers);
      prompt = prompt;
      read = read_some (prompt_of r) read;
      room = ground (arith, require-eq-ok _ 409 room);
      idle = ground (arith, require-eq-ok _ 409 e3);
    }
  where
    read_some : (o : Option Json) {p : Json} → or_raise o ≡ ok p → o ≡ some p
    read_some none f = absurd (ground (arith, f))
    read_some (some q) f = ground (arith, f)

post-submits :
    (now : ℕ) (server : Server) (r : Request) (claims : Claims) (post : Bool)
    (scheduler : Option (Settings × Scheduler.Db)) {u : Unit}
    → authorize_post now server r claims post scheduler ≡ ok u
    → (post ≡ false)
      ⊎ ((settings : Settings) × (db : Scheduler.Db) × (scheduler ≡ some (settings, db))
          × HasRoom now server r claims.id settings db)
unfolding authorize_post
post-submits now server r claims false scheduler e = inl refl
post-submits now server r claims true none e = absurd (ground (arith, e))
post-submits now server r claims true (some (settings, db)) e =
    inr (settings, db, refl, prompt-HasRoom now server r claims.id settings db e)

-- A request that `authorize` lets through has passed its tests.
pub authorize-HasPassed :
    (now : ℕ) (server : Server) (r : Request) (claims : Claims) {u : Unit}
    → authorize now server r claims ≡ ok u
    → HasPassed now server r claims
unfolding authorize
authorize-HasPassed now server r claims e =
    let (_, e1, claimed) =
      >>=-eq-ok (require (is_claimed (current_owner server claims.am_task) claims) 401) _ e in
    let (_, e2, endpoint) = >>=-eq-ok (require (is_allowed r) 403) _ e1 in
    record {
      claimed = claimed_owner _ claims (require-eq-ok _ 401 claimed);
      endpoint = require-eq-ok _ 403 endpoint;
      submits = post-submits now server r claims (is_post_to "/prompt" r) server.scheduler e2;
    }
