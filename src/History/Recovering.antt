-- ===== src/History/Recovering.antt =====
-- `merge_api_recovery` of utils/history_store.py.
use Prim.Native.Nat.{◌/◌}
use Prim.Native.String.{◌++◌ as concat}
use comfy_ui_account_manager.Base.{
  ℕ, String, Bool, true, false, not, List, [], Option, none, some, str_eq, if◌then◌else◌, take,
}
use comfy_ui_account_manager.Base.Int.{pos}
use comfy_ui_account_manager.Base.Options.{◌>>=◌}
use comfy_ui_account_manager.Base.Table.{fetch_one, upsert}
use comfy_ui_account_manager.Json.{
  Json, bool, num, text, arr, obj, nil, cons, Members, end, member, get,
}
use comfy_ui_account_manager.Json.Writing.{put_under, as_dict, is_text, elements, dict_or_empty}
use comfy_ui_account_manager.History.Items.{repair_recovery_fields}
use comfy_ui_account_manager.History.Store.{Row, is_prompt}

-- What the method reads of a row of scheduler_api_recovery joined with its job. Times are microseconds.
pub record Recovery : Type 0 where
  pub id : String
  pub prompt_id : String
  pub owner_id : String
  pub node_id : String
  pub provider : String
  pub task_id : String
  pub payload : List Json
  pub submitted_at : ℕ

-- int(seconds * 1000)
abbrev milliseconds : ℕ → Json
milliseconds time = num (pos (time / 1000))

-- The data of the "execution_error" of an item that did not exist.
abbrev pub interruption : Recovery → ℕ → Members
interruption task now = member "node_id" (text task.node_id) (
    member "node_type" (text "APIRecovery") (
      member "exception_type" (text "WorkerInterrupted") (
        member "exception_message" (text "服务器中断，工作流未完整执行。") (
          member "traceback" (arr nil) (
            member "current_inputs" (obj end)
              (member "current_outputs" (arr nil) (member "timestamp" (milliseconds now) end)))))))

-- The item of a prompt that has no history row.
abbrev pub interrupted_item : Recovery → ℕ → Members
interrupted_item task now = member "prompt" (arr (elements (take 5 task.payload))) (
    member "outputs" (obj end) (
      member "user_id" (text task.owner_id) (
        member "status"
          (obj (
            member "status_str" (text "error") (
              member "completed" (bool false) (
                member "messages"
                  (arr (
                    cons
                      (arr (
                        cons (text "execution_start") (
                          cons (obj (member "timestamp" (milliseconds task.submitted_at) end))
                            nil)))
                      (cons
                        (arr
                          (cons (text "execution_error") (cons (obj (interruption task now)) nil)))
                        nil)))
                  end))))
          end)))

-- existing and existing[0] != task["owner_id"]
abbrev pub is_mismatch : Recovery → Option Row → Bool
is_mismatch task none = false
is_mismatch task (some row) = not (str_eq row.owner_id task.owner_id)

abbrev pub item_of : Recovery → ℕ → Option Row → Option Members
item_of task now none = some (interrupted_item task now)
item_of task now (some row) = as_dict row.item

-- (item.get("status") or {}).get("status_str") == "success"
unfoldable pub is_success : Members → Option Bool
unfolding get
is_success item = do
  status ← dict_or_empty item "status"
  some (elim (get status "status_str") [ none ↦ false | some v ↦ is_text v "success" ])

-- The entry under "api_recovery".
abbrev pub recovery_entry : Recovery → String → String → Members
recovery_entry task state message = member "provider" (text task.provider) (
    member "task_id" (text task.task_id) (
      member "node_id" (text task.node_id)
        (member "state" (text state) (member "message" (text message) end))))

-- if videos: output["video"] = videos
abbrev videos_of : List Json → Members
videos_of [] = end
videos_of videos = member "video" (arr (elements videos)) end

abbrev pub recovered_output : String → List Json → Members
recovered_output message videos = member "text" (arr (cons (text message) nil)) (videos_of videos)

-- The two writes to the item, and the repair.
unfoldable pub with_recovery : Recovery → String → String → List Json → Members → Option Members
unfolding put_under repair_recovery_fields
with_recovery task state message videos item = do
  noted ← put_under item "api_recovery" task.id (obj (recovery_entry task state message))
  complete ←
      put_under noted "outputs" (concat "api_recovery_" task.id)
        (obj (recovered_output message videos))
  repair_recovery_fields complete

-- INSERT ... ON CONFLICT(prompt_id) DO UPDATE SET data
unfoldable pub store_item : Row → List Row → List Row
unfolding upsert
store_item new = upsert (is_prompt new.prompt_id) (λ row. record row { item = new.item }) new

-- The part of the call after the test of the owner.
unfoldable pub merge_into :
    Recovery → String → String → List Json → Members → List Row → Option (Bool × List Row)
unfolding is_success with_recovery store_item
merge_into task state message videos item rows = is_success item >>= λ done.
    if done
    then some (false, rows)
    else with_recovery task state message videos item >>= λ merged. some (
      true,
      store_item
          (record { prompt_id = task.prompt_id; owner_id = task.owner_id; item = obj merged }) rows,
    )

-- The answer and the rows after the call; `none` where it raises, which leaves the rows as they were.
unfoldable pub merge_api_recovery :
    ℕ → Recovery → String → String → List Json → List Row → Option (Bool × List Row)
unfolding fetch_one merge_into
merge_api_recovery now task state message videos rows =
    let existing = fetch_one (is_prompt task.prompt_id) rows in
    if is_mismatch task existing
    then none
    else item_of task now existing >>= λ item. merge_into task state message videos item rows
