-- ===== src/Recovery/Submissions.antt =====
-- `submission` of utils/recovery_providers.py: the query that belongs to a provider's answer to a
-- request. `none` is the answer None; an exception, which `observe` does not catch, is `raised`.
use comfy_ui_account_manager.Base.{
  String, Bool, true, false, ◌&&◌, List, [], ◌∷◌, Option, none, some, ◌≡◌, str_eq, if◌then◌else◌,
}
use comfy_ui_account_manager.Json.{Json, null, text, obj, Members, end, member, truthy}
use comfy_ui_account_manager.Json.Writing.{as_dict, dict_or_empty}
use comfy_ui_account_manager.Recovery.Providers.{value, ◌or_json◌, is_rejected, is_any_of}

-- The parts of an address, as urllib.parse.urlsplit gives them; `plain` says that it has no user name, no
-- password, no query and no fragment.
pub record Url : Type 0 where
  pub scheme : String
  pub netloc : String
  pub path : String
  pub plain : Bool

-- The methods of str and the functions of urllib.parse and re that `submission` calls.
pub record Texts : Type 0 where
  pub urlsplit : String → Url
  pub ends_with : String → String → Bool
  pub starts_with : String → String → Bool
  pub remove_suffix : String → String → String
  pub remove_prefix : String → String → String
  pub append : String → String → String
  -- path.rstrip("/")
  pub strip_slashes : String → String
  -- query_path.format(task_id), which may raise
  pub format : String → String → Option String
  -- path.split("/")[-2]
  pub second_last : String → String
  -- re.fullmatch(r"[A-Za-z0-9_-]{1,256}", task_id)
  pub is_task_id : String → Bool
  -- urlunsplit((scheme, netloc, path, "", ""))
  pub urlunsplit : String → String → String → String

pub record Submission : Type 0 where
  pub provider : String
  pub task_id : String
  pub query_method : String
  pub query_url : String
  pub query_body : Json

-- What a branch sets: the provider, the task's id, and the path of the query.
pub record Adapter : Type 0 where
  pub provider : String
  pub task_id : Json
  pub query_method : String
  pub query_path : String
  pub has_body : Bool

abbrev kling_video_kinds : List String
kling_video_kinds =
    "text2video" ∷ "image2video" ∷ "multi-image2video" ∷ "omni-video" ∷ "video-extend"
    ∷ "motion-control" ∷ "multi-elements" ∷ "lip-sync" ∷ []

abbrev vapeur_video_kinds : List String
vapeur_video_kinds =
    "text-to-video" ∷ "image-to-video" ∷ "multi-image-to-video" ∷ "video-motion-control"
    ∷ "video-extend" ∷ "video-edit" ∷ []

-- What a call comes to.
pub data Answer {ℓ} (A : Type ℓ) : Type ℓ where
  raised : Answer A
  nothing : Answer A
  found : A → Answer A

pub found-injective {ℓ} : {A : Type ℓ} {a b : A} → found a ≡ found b → a ≡ b
found-injective e = cc

abbrev or_raise {ℓ} : {A : Type ℓ} → Option A → Answer A
or_raise none = raised
or_raise (some a) = found a

infixl 5 ◌>>=◌
abbrev ◌>>=◌ {ℓ κ} : {A : Type ℓ} {B : Type κ} → Answer A → (A → Answer B) → Answer B
raised >>= next = raised
nothing >>= next = nothing
found a >>= next = next a

abbrev query : String → Json → String → Answer Adapter
query provider task_id query_path = found (record {
  provider = provider;
  task_id = task_id;
  query_method = "GET";
  query_path = query_path;
  has_body = false;
})

-- The branch of an address that ends in /v1/videos/generations.
unfoldable pub wan_adapter : Texts → String → Members → Answer Adapter
unfolding value
wan_adapter t path body = do
  envelope ← or_raise (as_dict (value body "data" or_json obj body))
  let inner = value envelope "output" or_json obj envelope
  let outer = value envelope "task_id" or_json value envelope "id"
  let query_path = t.append (t.remove_suffix path "/videos/generations") "/tasks/{}"
  (if truthy outer
      then query "wan" outer query_path
      else or_raise (as_dict inner) >>= λ output.
          query "wan" (value output "task_id" or_json value output "id") query_path)

unfoldable pub vapeur_adapter : Texts → String → Members → Answer Adapter
unfolding value
vapeur_adapter t path body = or_raise (as_dict (value body "Response" or_json obj body)) >>= λ info.
    if truthy (value info "Error")
    then nothing
    else found (record {
      provider = "vapeur_kling";
      task_id = value info "JobId";
      query_method = "POST";
      query_path = t.append (t.remove_suffix path "/submit") "/describe";
      has_body = true;
    })

-- (body.get(key) or {}).get("task_id")
abbrev task_id_in : Members → String → Answer Json
task_id_in body key = or_raise (dict_or_empty body key) >>= λ inner. found (value inner "task_id")

-- The chain of elif on the path.
unfoldable pub adapter_of : Texts → String → Members → Answer Adapter
unfolding value wan_adapter vapeur_adapter
adapter_of t path body =
    if t.ends_with path "/contents/generations/tasks"
    then query "ark" (value body "id") (t.append path "/{}")
    else if t.ends_with path "/v1/videos/generations"
    then wan_adapter t path body
    else if t.ends_with path "/qwen/api/v1/services/aigc/video-generation/generation"
    then (task_id_in body "output" >>= λ task_id. query "wan" task_id (
        t.append (t.remove_suffix path "/services/aigc/video-generation/generation")
          "/tasks/video/{}"))
    else if t.starts_with path "/v1/videos/"
        && is_any_of (t.remove_prefix path "/v1/videos/") kling_video_kinds
    then (task_id_in body "data" >>= λ task_id. query "kling" task_id (t.append path "/{}"))
    else if t.starts_with path "/v1/kling/"
        && t.ends_with path "/submit"
        && is_any_of (t.second_last path) vapeur_video_kinds
    then vapeur_adapter t path body
    else nothing

-- not isinstance(task_id, str) or not re.fullmatch(...)
abbrev valid_id : Texts → Json → Answer String
valid_id t (text task_id) = if t.is_task_id task_id then found task_id else nothing
valid_id t other = nothing

unfoldable pub finish : Texts → Url → Adapter → Answer Submission
finish t parts a = do
  task_id ← valid_id t a.task_id
  path ← or_raise (t.format a.query_path task_id)
  found (record {
    provider = a.provider;
    task_id = task_id;
    query_method = a.query_method;
    query_url = t.urlunsplit parts.scheme parts.netloc path;
    query_body = if a.has_body then obj (member "JobId" (text task_id) end) else null;
  })

unfoldable pub submit : Texts → Url → Members → Answer Submission
unfolding is_rejected adapter_of finish
submit t parts body =
    if is_rejected body
    then nothing
    else adapter_of t (t.strip_slashes parts.path) body >>= finish t parts

unfoldable pub submission : Texts → String → Json → Answer Submission
unfolding submit
submission t url (obj body) =
    let parts = t.urlsplit url in
    if str_eq parts.scheme "https" && parts.plain then submit t parts body else nothing
submission t url other = nothing
