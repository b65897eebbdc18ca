-- ===== src/Recovery/Cycle.antt =====
-- `_recover_one` of utils/api_recovery.py around its `try` statement: the rows that it gives up, the row
-- that it takes, `_publish`, and the last UPDATE.
use Prim.Native.Nat.{min, ◌^◌, compare, Ordering}
use comfy_ui_account_manager.Base.{
  ℕ, ◌+◌, ◌*◌, Bool, true, false, ◌&&◌, List, Option, none, some, leb, ltb, if◌then◌else◌, is_some,
  head?,
}
use comfy_ui_account_manager.Base.Options.{◌>>=◌}
use comfy_ui_account_manager.Base.Table.{select, update, fetch_one, order_by}
use comfy_ui_account_manager.History.Recovering.{Recovery, merge_api_recovery}
use comfy_ui_account_manager.History.Store as History
use comfy_ui_account_manager.Recovery.Checks.{
  is_lost, Joined, Outside, Verdict, attempt, verdict_of,
}
use comfy_ui_account_manager.Recovery.Rows.{
  State, ignored, is_pending, state_text, Row, has_id, second,
}
use comfy_ui_account_manager.Scheduler.Rows.{Job, Status, completed, cancelled, failed}
use comfy_ui_account_manager.Scheduler.Store.{has_prompt}

-- status IN ('completed', 'cancelled', 'failed')
abbrev pub is_final : Status → Bool
is_final completed = true
is_final cancelled = true
is_final failed = true
is_final _ = false

-- state = 'pending' AND prompt_id IN (SELECT ...)
abbrev pub is_settled : List Job → Row → Bool
is_settled jobs row =
    is_pending row.state
    && is_some (fetch_one (λ job. has_prompt row.prompt_id job && is_final job.status) jobs)

abbrev pub as_ignored : Row → Row
as_ignored row = record row { state = ignored; credentials = none }

-- The first UPDATE.
unfoldable pub ignore_settled : List Job → List Row → List Row
unfolding update
ignore_settled jobs = update (is_settled jobs) as_ignored

-- WHERE state='pending' AND next_check<=? AND job.status='worker_lost'
abbrev pub is_due : ℕ → List Job → Row → Bool
is_due now jobs row = is_pending row.state && leb row.next_check now && is_lost row.prompt_id jobs

-- ORDER BY next_check, created_at
abbrev pub earlier : Row → Row → Bool
earlier a b = elim (compare a.next_check b.next_check) [
  | Ordering.lt ↦ true
  | Ordering.eq ↦ ltb a.created_at b.created_at
  | Ordering.gt ↦ false
]

unfoldable pub join_job : List Job → Row → Option Joined
unfolding fetch_one
join_job jobs row =
    fetch_one (has_prompt row.prompt_id) jobs >>= λ job. some (record { row = row; job = job })

unfoldable pub next_row : ℕ → List Job → List Row → Option Joined
unfolding select order_by join_job
next_row now jobs rows = head? (order_by earlier (select (is_due now jobs) rows)) >>= join_job jobs

abbrev pub task_of : Joined → Recovery
task_of j = record {
  id = j.row.id;
  prompt_id = j.row.prompt_id;
  owner_id = j.job.owner_id;
  node_id = j.row.node_id;
  provider = j.row.provider;
  task_id = j.row.task_id;
  payload = j.job.payload;
  submitted_at = j.job.submitted_at;
}

-- Whether it published, and the history; `none` where it raises. The notification is not modelled.
unfoldable pub publish :
    ℕ → List Job → Joined → Verdict → List History.Row → Option (Bool × List History.Row)
unfolding is_lost merge_api_recovery
publish now jobs j v history =
    if is_lost j.row.prompt_id jobs
    then merge_api_recovery now (task_of j) (state_text v.state) v.message v.references history
    else some (false, history)

abbrev pub is_ignored : State → Bool
is_ignored ignored = true
is_ignored _ = false

-- if state != "ignored" and not self._publish(...): state = "ignored"
unfoldable pub publish_unless_ignored :
    ℕ → List Job → Joined → Verdict → List History.Row → Option (State × List History.Row)
unfolding publish
publish_unless_ignored now jobs j v history =
    if is_ignored v.state
    then some (ignored, history)
    else publish now jobs j v history >>= λ (published, merged).
        some (if published then v.state else ignored, merged)

-- min(1800, 30 * 2 ** min(failures, 6)), in microseconds
unfoldable pub delay : ℕ → ℕ
delay failures = min 1800 (30 * 2 ^ min failures 6) * second

-- The last UPDATE.
abbrev pub as_checked : ℕ → Verdict → State → Row → Row
as_checked now v state row = record row {
  state = state;
  message = some v.message;
  next_check = now + delay v.failures;
  failures = v.failures;
  credentials = if is_pending state then row.credentials else none;
}

-- The rows of the table and the history.
abbrev pub Tables : Type 0
Tables = List Row × List History.Row

-- What follows the fetch of a row; `none` where it raises.
unfoldable pub check : ℕ → Outside → Joined → Tables → Option Tables
unfolding attempt verdict_of publish_unless_ignored update delay
check now out j tables =
    let v = verdict_of j.row (attempt now out j) in
    publish_unless_ignored now out.jobs_at_publish j v tables.1 >>= λ (state, merged).
    some (update (has_id j.row.id) (as_checked now v state) tables.0, merged)

-- A check that raises changes nothing; the answer is then `none`.
abbrev pub finish_check : Tables → Option Tables → Option Bool × Tables
finish_check tables none = (none, tables)
finish_check tables (some checked) = (some true, checked)

-- if row is None: return False
unfoldable pub check_row : ℕ → Outside → Tables → Option Joined → Option Bool × Tables
unfolding check
check_row now out tables none = (some false, tables)
check_row now out tables (some j) = finish_check tables (check now out j tables)

-- The answer, and the tables.
unfoldable pub recover_one : ℕ → List Job → Outside → Tables → Option Bool × Tables
unfolding ignore_settled next_row check_row
recover_one now jobs out tables =
    let rows = ignore_settled jobs tables.0 in
    check_row now out (rows, tables.1) (next_row now jobs rows)
