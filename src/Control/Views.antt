-- ===== src/Control/Views.antt =====
-- What `user_queue_get_history` shows where the scheduler and the history store are there.
use comfy_ui_account_manager.Base.{
  String, Bool, refl, Memᴰ, [], ◌∷◌, true, false, List, none, some, ◌≡◌, sym, ap, ◌∙◌, str_eq,
  str_eq_iff,
}
use comfy_ui_account_manager.Base.Dict.{Dict, lookup}
use comfy_ui_account_manager.Base.Table.{select}
use comfy_ui_account_manager.Json.{text, obj, Members, get}
use comfy_ui_account_manager.History.Store.{Row, query}
use comfy_ui_account_manager.Base.Int.{negsuc}
use comfy_ui_account_manager.History.Answers.{query-answer}
use comfy_ui_account_manager.History.Contents.{content}
use comfy_ui_account_manager.History.Replay.{answer}
use comfy_ui_account_manager.History.Saving.{IsUnique, shown}
use comfy_ui_account_manager.History.Views.{query-IsFound}
use comfy_ui_account_manager.Control.{Site, Control, get_current_user_id, is_admin_user}
use comfy_ui_account_manager.Control.Past.{
  is_own, visible_history, Page, local_history, owner_filter, query_of, shared_history,
  user_queue_get_history,
}

own_filter :
    (site : Site) (c : Control) {user : String}
    → get_current_user_id c ≡ some user
    → is_admin_user site (some user) c ≡ false
    → owner_filter site c ≡ some user
unfolding owner_filter
own_filter site c {user} current plain = rw (current, plain)

shared_query :
    (site : Site) (p : Page) (c : Control) {rows : List Row}
    → shared_history c ≡ some rows
    → user_queue_get_history site p c ≡ query (query_of p (owner_filter site c)) rows
unfolding user_queue_get_history
shared_query site p c shared = rw (shared, user_queue_get_history)

absent_filter :
    (site : Site) (c : Control) → get_current_user_id c ≡ none → owner_filter site c ≡ none
unfolding owner_filter is_admin_user
absent_filter site c absent = rw absent

-- Where the history store answers, every entry that a current user who is no administrator gets has
-- this user's id, whatever page is asked.
pub user_queue_get_history_owned :
    (site : Site) (p : Page) (c : Control) {user : String} {rows : List Row} {shown : Dict Members}
    (prompt_id : String) (item : Members)
    → get_current_user_id c ≡ some user
    → is_admin_user site (some user) c ≡ false
    → shared_history c ≡ some rows
    → user_queue_get_history site p c ≡ some shown
    → lookup prompt_id shown ≡ some item
    → get item "user_id" ≡ some (text user)
user_queue_get_history_owned site p c {user} prompt_id item current plain shared answered found =
    let (owner_id, is_found, written) =
      query-IsFound (query_of p (owner_filter site c)) _ prompt_id item
        (sym (shared_query site p c shared) ∙ answered) found in
    let own : str_eq owner_id user ≡ true =
      rw (own_filter site c current plain) at is_found.of_owner in
    written ∙ ap (λ id. some (text id)) ((str_eq_iff owner_id user).0 own)

-- The item has an owner.
abbrev pub HasOwner : Members → Type 0
HasOwner item = (user : String) × (get item "user_id" ≡ some (text user))

select_none :
    (p : String × Members → Bool) (entries : Dict Members)
    → ((entry : String × Members) → Memᴰ entry entries → p entry ≡ false)
    → select p entries ≡ []
unfolding select
select_none p [] h = refl
select_none p (entry ∷ entries) h =
    rw (h entry (Memᴰ.head refl)) (select_none p entries (λ other m. h other (Memᴰ.tail m)))

-- The loop over the server's own history leaves the items without an owner.
visible_history-none :
    (site : Site) (c : Control)
    → get_current_user_id c ≡ none
    → ((entry : String × Members) → Memᴰ entry c.history → HasOwner entry.1)
    → visible_history site c ≡ []
unfolding visible_history is_admin_user is_own
visible_history-none site c absent owned =
    rw (absent, visible_history)
      (select_none (λ entry. is_own none entry.1) c.history
        (λ entry m. let (user, e) = owned entry m in rw (e, is_own) refl))

-- user_queue_get_history(prompt_id=...)
abbrev pub page_of : String → Page
page_of prompt_id = record { prompt_id = some prompt_id; max_items = none; offset = negsuc 0 }

local_none :
    (site : Site) (prompt_id : String) (c : Control)
    → c.scheduler ≡ none
    → visible_history site c ≡ []
    → user_queue_get_history site (page_of prompt_id) c ≡ some []
unfolding user_queue_get_history local_history lookup
local_none site prompt_id c alone empty =
    rw (alone, user_queue_get_history, empty, local_history) refl

-- There is no current user, and every item of the server's own history has an owner. Where the history
-- store answers, with unique prompt ids, the item of any prompt is shown, whoever its owner is; without
-- the scheduler, the server's own history shows none.
pub user_queue_get_history_unguarded :
    (site : Site) (nobody : Control) (prompt_id owner_id : String) (item : Members)
    {rows : List Row}
    → get_current_user_id nobody ≡ none
    → shared_history nobody ≡ some rows
    → IsUnique rows
    → content prompt_id rows ≡ some (owner_id, obj item)
    → ((entry : String × Members) → Memᴰ entry nobody.history → HasOwner entry.1)
    → (user_queue_get_history site (page_of prompt_id) nobody ≡ shown prompt_id owner_id item)
      × (user_queue_get_history site (page_of prompt_id) (record nobody { scheduler = none })
          ≡ some [])
unfolding get_current_user_id
user_queue_get_history_unguarded site nobody prompt_id owner_id item {rows = rows} absent shared
      unique present owned =
    (
      shared_query site (page_of prompt_id) nobody shared
          ∙ ap (λ owner. query (query_of (page_of prompt_id) owner) rows)
              (absent_filter site nobody absent)
          ∙ query-answer prompt_id rows unique
          ∙ ap (answer prompt_id) present,
      local_none site prompt_id (record nobody { scheduler = none }) refl
          (visible_history-none site (record nobody { scheduler = none }) absent owned),
    )
