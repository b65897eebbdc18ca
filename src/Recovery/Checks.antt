-- ===== src/Recovery/Checks.antt =====
-- One check of a recovery: `_query`, `_download`, `_require_lost`, `_publish` and `_recover_one` of
-- utils/api_recovery.py. The scheduler works on while a check runs, so the job table is an argument at
-- each of the places that read it.
use Prim.Native.String.{◌++◌ as concat}
use package.text.Mathlib.Text.{starts_with}
use comfy_ui_account_manager.Base.{
  ℕ, ◌+◌, ◌*◌, ◌-◌, String, Bool, false, not, ◌&&◌, ◌||◌, List, [], ◌∷◌, Option, none, some, str_eq,
  ltb, leb, ◌==◌, if◌then◌else◌,
}
use comfy_ui_account_manager.Base.Table.{fetch_one}
use comfy_ui_account_manager.Json.{Json, text, obj, end, member, Python}
use comfy_ui_account_manager.Recovery.Providers.{
  Outcome, task_succeeded, task_failed, task_pending, is_any_of, result,
}
use comfy_ui_account_manager.Recovery.Rows.{
  State, pending, recovered, failed, ignored, Row, second, is_success_code,
}
use comfy_ui_account_manager.Scheduler.Rows.{Job, is_worker_lost}
use comfy_ui_account_manager.Scheduler.Store.{has_prompt}

-- How a statement of the `try` block ends.
pub data Attempt (A : Type 0) : Type 0 where
  done : A → Attempt A
  query_error : String → Attempt A
  superseded : Attempt A
  exception : Attempt A

infixl 5 ◌>>=◌
abbrev pub ◌>>=◌ : {A : Type 0} {B : Type 0} → Attempt A → (A → Attempt B) → Attempt B
done a >>= next = next a
query_error message >>= next = query_error message
superseded >>= next = superseded
exception >>= next = exception

abbrev pub or_exception : {A : Type 0} → Option A → Attempt A
or_exception none = exception
or_exception (some a) = done a

-- What the provider answers to the query, or that the decryption or the request raises.
pub data Reply : Type 0 where
  no_reply : Reply
  reply : ℕ → Option Json → Reply

unfoldable pub query : Reply → Attempt Json
query no_reply = exception
query (reply code body) =
    if code == 401 || code == 403
    then query_error "恢复查询凭证已失效或无权限，请人工查询原任务 ID。"
    else if code == 404 || code == 410
    then query_error "第三方任务不存在或已过期，请检查原任务 ID。"
    else if is_success_code code
    then or_exception body
    else exception

-- if not job or job["status"] != "worker_lost"
unfoldable pub is_lost : String → List Job → Bool
unfolding fetch_one
is_lost prompt_id jobs = elim (fetch_one (has_prompt prompt_id) jobs) [
  | none ↦ false
  | some job ↦ is_worker_lost job.status
]

unfoldable pub require_lost : String → List Job → Attempt Unit
unfolding is_lost
require_lost prompt_id jobs = if is_lost prompt_id jobs then done tt else superseded

-- The row that `_recover_one` fetches: a recovery joined with its job.
pub record Joined : Type 0 where
  pub row : Row
  pub job : Job

-- What the outside does during a check: the answer to the query; whether the owner's name may be a
-- directory; of a download, the lower-case suffix of an address's path, the padded number of a file,
-- whether a file is there, and what `download_remote` answers with (the content type, empty for none, and
-- the size; none where it raises); whether the assets can be registered; and the job table at the three
-- times at which it is read again.
pub record Outside : Type 0 where
  pub py : Python
  pub lower : String → String
  pub is_path_name : String → Bool
  pub answer : Reply
  pub suffix_of : String → String
  pub padded : ℕ → String
  pub is_file : String → Bool
  pub download_remote : String → Option (String × ℕ)
  pub registers : Bool
  pub jobs_after_query : List Job
  pub jobs_after_download : List Job
  pub jobs_at_publish : List Job

unfoldable pub suffix_for : Outside → String → String
suffix_for out url =
    let suffix = out.suffix_of url in
    if is_any_of suffix (".mp4" ∷ ".webm" ∷ ".mov" ∷ []) then suffix else ".mp4"

-- not (not size or (content_type and ...))
abbrev is_video : String × ℕ → Bool
is_video (content_type, size) =
    not (size == 0)
    && (str_eq content_type ""
        || starts_with content_type "video/"
        || str_eq content_type "application/octet-stream")

-- if not destination.is_file(): ...
unfoldable pub fetch : Outside → String → String → Attempt Unit
fetch out name url =
    if out.is_file name
    then done tt
    else or_exception (out.download_remote url) >>= λ answered.
        if is_video answered then done tt else exception

-- Path(owner) / "recovered" / row["id"]
unfoldable pub folder_of : Joined → String
folder_of j = concat j.job.owner_id (concat "/recovered/" j.row.id)

abbrev reference_of : String → String → String → Json
reference_of name folder suffix = obj (
    member "filename" (text name) (
      member "subfolder" (text folder) (
        member "type" (text "output") (
          member "format" (text (if str_eq suffix ".webm" then "video/webm" else "video/mp4"))
            end))))

-- The loop of `_download`, from an index on.
unfoldable pub references_of : Outside → String → ℕ → List String → Attempt (List Json)
unfolding suffix_for fetch
references_of out folder index [] = done []
references_of out folder index (url ∷ urls) = do
  let suffix = suffix_for out url
  let name = concat (out.padded index) suffix
  fetched ← fetch out (concat folder (concat "/" name)) url
  rest ← references_of out folder (index + 1) urls
  done (reference_of name folder suffix ∷ rest)

unfoldable pub download : Outside → Joined → List String → Attempt (List Json)
unfolding folder_of references_of require_lost
download out j urls =
    if out.is_path_name j.job.owner_id
    then (do
      references ← references_of out (folder_of j) 0 urls
      lost ← require_lost j.row.prompt_id out.jobs_after_download
      (if out.registers then done references else exception))
    else exception

-- What the `try` statement sets.
pub record Verdict : Type 0 where
  pub state : State
  pub message : String
  pub references : List Json
  pub failures : ℕ

-- The branches on the outcome.
unfoldable pub decide : Outside → Joined → Outcome × List String → Attempt Verdict
unfolding download
decide out j (task_succeeded, urls) = download out j urls >>= λ references. done (record {
  state = recovered;
  message = "API 生成结果已恢复；原工作流已中断，后续节点未执行。";
  references = references;
  failures = j.row.failures;
})
decide out j (task_failed, urls) = done (record {
  state = failed;
  message = "第三方任务失败、取消或过期；未重新提交生成请求。";
  references = [];
  failures = j.row.failures;
})
decide out j (task_pending, urls) =
    done (record { state = pending; message = "第三方仍在生成，正在等待原任务完成。"; references = []; failures = 0 })

-- The body of `try`.
unfoldable pub attempt : ℕ → Outside → Joined → Attempt Verdict
unfolding query require_lost decide result
attempt now out j =
    if ltb (7 * 86400 * second) (now - j.row.created_at)
    then query_error "自动恢复已超过 7 天，请人工查询原任务 ID。"
    else (do
      body ← query out.answer
      outcome ← or_exception (result out.py out.lower j.row.provider body)
      lost ← require_lost j.row.prompt_id out.jobs_after_query
      decide out j outcome)

abbrev ended : State → String → Row → Verdict
ended state message row = record {
  state = state;
  message = message;
  references = [];
  failures = row.failures;
}

-- The `except` clauses.
unfoldable pub verdict_of : Row → Attempt Verdict → Verdict
verdict_of row (done verdict) = verdict
verdict_of row superseded = ended ignored "原任务状态已更新，停止恢复。" row
verdict_of row (query_error message) = ended failed message row
verdict_of row exception =
    if leb 20 (row.failures + 1)
    then (record {
      state = failed;
      message = "连续 20 次恢复失败，请人工查询原任务 ID；未重新提交生成请求。";
      references = [];
      failures = row.failures + 1;
    })
    else record {
      state = pending;
      message = "查询或下载暂时失败，将自动重试；未重新提交生成请求。";
      references = [];
      failures = row.failures + 1;
    }
