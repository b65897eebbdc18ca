-- ===== src/Control/Taking.antt =====
-- Which job `user_queue_get` takes from the scheduler, and for whom it then works.
use comfy_ui_account_manager.Base.{
  ℕ, String, true, List, [], ◌∷◌, ◌++◌, Option, none, some, ◌≡◌, refl, sym, ap, ◌∙◌, arith, inl,
  inr, length, Bool-cases, Option-cases, str_eq,
}
use comfy_ui_account_manager.Json.{Json, text}
use comfy_ui_account_manager.Scheduler.Rows.{Job, Db, Result, ok, err}
use comfy_ui_account_manager.Scheduler.Logs.{Position, Cache, log_position}
use comfy_ui_account_manager.Scheduler.Store.{Store, or_default}
use comfy_ui_account_manager.Scheduler.Claim.{next_job, is_busy, claim_at, claim}
use comfy_ui_account_manager.Scheduler.Choice.{IsFirst, next_job-IsFirst, claim_at-IsFirst}
use comfy_ui_account_manager.Scheduler.WellFormed.{IsWellFormed}
use comfy_ui_account_manager.Control.{
  Site, Control, get_current_user_id, queue_item_user_id, unwrap_queue_item, set_current_user_id,
}
use comfy_ui_account_manager.Control.Getting.{Host, take_item, take_claimed, user_queue_get}

-- An answer of `claim` with an item is that of starting the first eligible job.
claim_at-some :
    (position : Position) (now port pid : ℕ) (resource_class : String) (db : Db)
    {wrapped : List Json}
    → IsWellFormed db.jobs
    → (claim_at position now port pid resource_class db).0 ≡ ok (some wrapped)
    → (row : Job) × IsFirst resource_class db.jobs row
      × (wrapped ≡ row.payload ++ text row.owner_id ∷ [])
unfolding claim_at
claim_at-some position now port pid resource_class db w e = elim (Bool-cases (is_busy db port)) [
  | inl busy ↦ absurd (ground (arith, e, busy))
  | inr free ↦ elim (Option-cases (next_job resource_class db.jobs)) [
    | inl absent ↦ absurd (ground (arith, e, free, absent))
    | inr (found, next) ↦
        let f = next_job-IsFirst resource_class db.jobs next in
        let (row, first, started) =
          claim_at-IsFirst position now port pid resource_class db found w free f.stored
            f.eligible in
        let same = ap (λ done. done.0) (sym started) ∙ e in (row, first, ground (arith, same))
  ]
]

queue_item_user_id_wrapped :
    (payload : List Json) (owner : String)
    → length payload ≡ 6
    → queue_item_user_id (payload ++ text owner ∷ []) ≡ some owner
unfolding queue_item_user_id
queue_item_user_id_wrapped (a ∷ b ∷ c ∷ d ∷ e ∷ f ∷ []) owner h = refl
queue_item_user_id_wrapped payload owner h = absurd (omega arith)

unwrap_queue_item_wrapped :
    (payload : List Json) (owner : String)
    → length payload ≡ 6
    → unwrap_queue_item (payload ++ text owner ∷ []) ≡ payload
unfolding unwrap_queue_item
unwrap_queue_item_wrapped (a ∷ b ∷ c ∷ d ∷ e ∷ f ∷ []) owner h = refl
unwrap_queue_item_wrapped payload owner h = absurd (omega arith)

-- With the fallback set too, the current user is the one that was set, also an empty one.
get_current_user_id-set_current_user_id :
    (user : String) (c : Control)
    → get_current_user_id (set_current_user_id (some user) true c) ≡ some user
unfolding get_current_user_id set_current_user_id
get_current_user_id-set_current_user_id user c = elim (Bool-cases (str_eq user "")) [
  | inl e ↦ rw e
  | inr e ↦ rw e
]

-- The item of an answer comes from one that was claimed, whose user is then the current one.
take_claimed-some :
    (claimed : Result (Option (List Json))) (c : Control) (cache : Cache) {item : List Json}
    {id : ℕ}
    → (take_claimed claimed c cache).0 ≡ ok (some (item, id))
    → (wrapped : List Json) × (claimed ≡ ok (some wrapped))
      × (item ≡ unwrap_queue_item wrapped)
      × (get_current_user_id (take_claimed claimed c cache).1
          ≡ get_current_user_id (set_current_user_id (queue_item_user_id wrapped) true c))
unfolding take_item get_current_user_id
take_claimed-some (err raised) c cache e = absurd (ground (arith, e))
take_claimed-some (ok none) c cache e = absurd (ground (arith, e))
take_claimed-some (ok (some wrapped)) c cache e = (wrapped, refl, ground (arith, e), refl)

-- What `claim` is called with where there is a scheduler.
abbrev claim_here : Site → Host → Cache → Db → Result (Option (List Json)) × Store
unfolding claim
claim_here site host cache db =
    claim host.disk host.now site.instance_port host.pid host.worker_resource_class host.log_file
      (record { db = db; line_cache = cache })

claim_here-some :
    (site : Site) (host : Host) (cache : Cache) (db : Db) {wrapped : List Json}
    → IsWellFormed db.jobs
    → (claim_here site host cache db).0 ≡ ok (some wrapped)
    → (row : Job) × IsFirst (or_default host.worker_resource_class) db.jobs row
      × (wrapped ≡ row.payload ++ text row.owner_id ∷ [])
unfolding claim
claim_here-some site host cache db w e =
    claim_at-some (log_position host.disk cache host.log_file).0 host.now site.instance_port
      host.pid (or_default host.worker_resource_class) db w e

scheduled_get :
    (site : Site) (host : Host) (c : Control) (cache : Cache) {db : Db}
    → c.scheduler ≡ some db
    → let claimed = claim_here site host cache db in
      user_queue_get site host c cache
      ≡ take_claimed claimed.0 (record c { scheduler = some claimed.1.db }) claimed.1.line_cache
unfolding user_queue_get
scheduled_get site host c cache scheduled = rw (scheduled, user_queue_get)

-- Where there is a scheduler with a well-formed table: an item that user_queue_get answers with is that
-- of an eligible job which precedes every eligible job in the order of priority and sequence, and the
-- current user is from then on the owner of this job.
pub user_queue_get-IsFirst :
    (site : Site) (host : Host) (c : Control) (cache : Cache) {db : Db} {item : List Json} {id : ℕ}
    → c.scheduler ≡ some db
    → IsWellFormed db.jobs
    → (user_queue_get site host c cache).0 ≡ ok (some (item, id))
    → (row : Job) × IsFirst (or_default host.worker_resource_class) db.jobs row
      × (item ≡ row.payload)
      × (get_current_user_id (user_queue_get site host c cache).1 ≡ some row.owner_id)
user_queue_get-IsFirst site host c cache {db} scheduled w e =
    let called = scheduled_get site host c cache scheduled in
    let claimed = claim_here site host cache db in
    let (wrapped, answered, unwrapped, current) =
      take_claimed-some claimed.0 (record c { scheduler = some claimed.1.db }) claimed.1.line_cache
        (ap (λ taken. taken.0) (sym called) ∙ e) in
    let (row, first, shape) = claim_here-some site host cache db w answered in
    let six = w.decodes row first.stored in
    (
      row,
      first,
      unwrapped
          ∙ ap unwrap_queue_item shape
          ∙ unwrap_queue_item_wrapped row.payload row.owner_id six,
      ap (λ taken. get_current_user_id taken.1) called
          ∙ current
          ∙ ap
              (λ user.
                get_current_user_id
                  (set_current_user_id user true (record c { scheduler = some claimed.1.db })))
              (ap queue_item_user_id shape
                ∙ queue_item_user_id_wrapped row.payload row.owner_id six)
          ∙ get_current_user_id-set_current_user_id row.owner_id
              (record c { scheduler = some claimed.1.db }),
    )
