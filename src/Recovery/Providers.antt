-- ===== src/Recovery/Providers.antt =====
-- `result` of utils/recovery_providers.py: what a provider's answer to a query says. `none` is a
-- ValueError, or the AttributeError of a value that is no dict.
use package.text.Mathlib.Text.{starts_with}
use comfy_ui_account_manager.Base.{
  String, Bool, true, false, not, ◌||◌, List, [], ◌∷◌, Option, none, some, str_eq, ◌==◌,
  if◌then◌else◌, or_else,
}
use comfy_ui_account_manager.Base.Int.{pos}
use comfy_ui_account_manager.Base.Options.{◌>>=◌}
use comfy_ui_account_manager.Json.{
  Json, null, bool, num, text, arr, obj, Elements, nil, cons, Members, end, Python, get, truthy,
  to_str,
}
use comfy_ui_account_manager.Json.Writing.{as_dict, dict_or_empty}

pub data Outcome : Type 0 where
  task_succeeded task_failed task_pending : Outcome

-- d.get(k), with None as null
unfoldable pub value : Members → String → Json
unfolding get
value ms k = or_else (get ms k) null

-- a or b
infixr 30 ◌or_json◌
abbrev pub ◌or_json◌ : Json → Json → Json
a or_json b = if truthy a then a else b

-- code in (None, 0, "0")
abbrev pub is_zero_code : Json → Bool
is_zero_code null = true
is_zero_code (bool b) = not b
is_zero_code (num (pos n)) = n == 0
is_zero_code (text t) = str_eq t "0"
is_zero_code other = false

-- body.get("error") or body.get("code") not in (None, 0, "0")
unfoldable pub is_rejected : Members → Bool
unfolding value
is_rejected body = truthy (value body "error") || not (is_zero_code (value body "code"))

-- [item.get("url") for item in items]
unfoldable pub urls_of : Elements → Option (List Json)
unfolding value
urls_of nil = some []
urls_of (cons item items) = do ms ← as_dict item; urls ← urls_of items; some (value ms "url" ∷ urls)

-- What a `for` loop that calls `.get` on each item goes over: a list, or something empty.
abbrev items_of : Option Json → Option Elements
items_of none = some nil
items_of (some (arr items)) = some items
items_of (some (obj end)) = some nil
items_of (some (text t)) = if str_eq t "" then some nil else none
items_of (some other) = none

-- The branches for the providers: the status and the addresses.
unfoldable pub ark : Members → Option (Json × List Json)
unfolding value
ark body = do
  content ← dict_or_empty body "content"
  some (value body "status", value content "video_url" ∷ [])

unfoldable pub wan : Members → Option (Json × List Json)
unfolding value
wan body = do
  envelope ← as_dict (value body "data" or_json obj body)
  output ← as_dict (value envelope "output" or_json obj envelope)
  some (
    value envelope "task_status"
        or_json value envelope "status"
        or_json value output "task_status"
        or_json value output "status",
    (value output "video_url" or_json value output "url") ∷ [],
  )

unfoldable pub kling : Members → Option (Json × List Json)
unfolding value get urls_of
kling body = do
  info ← dict_or_empty body "data"
  task_result ← dict_or_empty info "task_result"
  items ← items_of (get task_result "videos")
  urls ← urls_of items
  some (value info "task_status", urls)

-- The status and the address in the dict of a "vapeur_kling" answer.
unfoldable pub vapeur_fields : Members → Option (Json × List Json)
unfolding value
vapeur_fields info =
    if truthy (value info "Error")
    then none
    else some (
      (if truthy (value info "ErrorCode")
          then text "failed"
          else value info "Status" or_json value info "TaskStatus"),
      value info "ResultVideoUrl" ∷ [],
    )

unfoldable pub vapeur_kling : Members → Option (Json × List Json)
unfolding value vapeur_fields
vapeur_kling body = as_dict (value body "Response" or_json obj body) >>= vapeur_fields

unfoldable pub status_and_urls : String → Members → Option (Json × List Json)
unfolding ark wan kling vapeur_kling
status_and_urls provider body =
    if str_eq provider "ark"
    then ark body
    else if str_eq provider "wan"
    then wan body
    else if str_eq provider "kling"
    then kling body
    else if str_eq provider "vapeur_kling"
    then vapeur_kling body
    else none

-- t in {...}
abbrev pub is_any_of : String → List String → Bool
is_any_of t [] = false
is_any_of t (name ∷ names) = str_eq t name || is_any_of t names

abbrev failed_names : List String
failed_names = "fail" ∷ "failed" ∷ "error" ∷ "aborted" ∷ "cancelled" ∷ "canceled" ∷ "expired" ∷ []

abbrev succeeded_names : List String
succeeded_names = "succeeded" ∷ "succeed" ∷ "success" ∷ "completed" ∷ "done" ∷ "finish" ∷ []

abbrev pending_names : List String
pending_names =
    "submitted" ∷ "queued" ∷ "pending" ∷ "running" ∷ "processing" ∷ "in_progress" ∷ "created"
    ∷ "waiting" ∷ []

-- The texts of a list that begin with https://
unfoldable pub https_urls : List Json → List String
https_urls [] = []
https_urls (text t ∷ urls) =
    let rest = https_urls urls in if starts_with t "https://" then t ∷ rest else rest
https_urls (other ∷ urls) = https_urls urls

-- list(dict.fromkeys(urls)), of the addresses that were not met before
unfoldable pub distinct : List String → List String → List String
distinct seen [] = []
distinct seen (url ∷ urls) =
    let rest = distinct (url ∷ seen) urls in if is_any_of url seen then rest else url ∷ rest

unfoldable pub outcome_of : String → List Json → Option (Outcome × List String)
unfolding https_urls distinct
outcome_of status urls =
    if is_any_of status failed_names
    then some (task_failed, [])
    else if is_any_of status succeeded_names
    then (elim (distinct [] (https_urls urls)) [
      | [] ↦ none
      | url ∷ rest ↦ some (task_succeeded, url ∷ rest)
    ])
    else if is_any_of status pending_names
    then some (task_pending, [])
    else none

-- `lower` is str.lower.
unfoldable pub result : Python → (String → String) → String → Json → Option (Outcome × List String)
unfolding is_rejected status_and_urls to_str outcome_of
result py lower provider body = do
  ms ← as_dict body
  found ← (if is_rejected ms then none else status_and_urls provider ms)
  outcome_of (lower (if truthy found.0 then to_str py found.0 else "")) found.1
