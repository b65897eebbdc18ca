-- ===== src/Recovery/Tests.antt =====
-- The theorems on utils/api_recovery.py at one run: a recovery whose job was lost and whose provider
-- does not answer.
use comfy_ui_account_manager.Base.{
  ℕ, ◌+◌, ◌≤◌, String, true, false, List, [], ◌∷◌, none, some, ◌≡◌, refl, arith, Memᴰ, or_else,
  subst, sym,
}
use comfy_ui_account_manager.Base.Int.{pos}
use comfy_ui_account_manager.Base.Table.{count}
use comfy_ui_account_manager.History.Contents.{content}
use comfy_ui_account_manager.History.Store as History
use comfy_ui_account_manager.Json.{Json, null, text, obj, end, member}
use comfy_ui_account_manager.Json.Writing.{dict_or_empty}
use comfy_ui_account_manager.Recovery.Checks.{no_reply, Joined, Outside, attempt, verdict_of}
use comfy_ui_account_manager.Recovery.Cycle.{
  Tables, publish_unless_ignored, as_checked, recover_one,
}
use comfy_ui_account_manager.Recovery.Ending.{start, again, Checks-le}
use comfy_ui_account_manager.Recovery.Publishing.{Protects, recover_one-Protects}
use comfy_ui_account_manager.Recovery.Raising.{others, recover_one_raises}
use comfy_ui_account_manager.Recovery.Rows.{State, pending, is_pending, Row}
use comfy_ui_account_manager.Recovery.Tidy.{
  IsTidy, AreTidy, recovered_one, here, next, Reach-AreTidy,
}
use comfy_ui_account_manager.Scheduler.Rows.{Job, worker_lost}

abbrev row : Row
row = record {
  id = "r1";
  prompt_id = "p1";
  node_id = "7";
  provider = "wan";
  task_id = "t1";
  query_method = "GET";
  query_url = "https://example.org/t1";
  query_body = null;
  credentials = some "cipher";
  state = pending;
  created_at = 0;
  next_check = 0;
  failures = 3;
  message = none;
}

abbrev job : Job
job = record {
  sequence = 1;
  prompt_id = "p1";
  owner_id = "alice";
  client_id = none;
  ingress_port = none;
  worker_port = none;
  priority = pos 0;
  payload = [];
  status = worker_lost;
  concurrency_limit = 1;
  submitted_at = 0;
  started_at = none;
  finished_at = none;
  heartbeat_at = none;
  error = none;
  resource_class = "default";
  log_file = none;
  log_start_offset = none;
  log_end_offset = none;
  log_start_line = none;
  log_end_line = none;
}

abbrev silent : Outside
silent = record {
  py = record { repr = λ v. ""; parse_float = λ t. none };
  lower = λ t. t;
  is_path_name = λ t. true;
  answer = no_reply;
  suffix_of = λ url. ".mp4";
  padded = λ index. "000";
  is_file = λ name. false;
  download_remote = λ url. none;
  registers = true;
  jobs_after_query = job ∷ [];
  jobs_after_download = job ∷ [];
  jobs_at_publish = job ∷ [];
}

abbrev joined : Joined
joined = record { row = row; job = job }

abbrev history_of : String → List History.Row
history_of owner_id =
    record {
      prompt_id = "p1";
      owner_id = owner_id;
      item = obj (member "user_id" (text owner_id) end);
    }
    ∷ []

abbrev item : Json
item = obj (member "user_id" (text "alice") end)

abbrev after : State × List History.Row
after =
    or_else
      (publish_unless_ignored 100 (job ∷ []) joined (verdict_of row (attempt 100 silent joined))
        (history_of "alice"))
      (pending, [])

published :
    publish_unless_ignored 100
      (job ∷ [])
      joined
      (verdict_of row (attempt 100 silent joined))
      (history_of "alice")
    ≡ some after
unfolding publish_unless_ignored attempt verdict_of dict_or_empty
published = refl

still_pending : is_pending after.0 ≡ true
unfolding publish_unless_ignored attempt verdict_of dict_or_empty
still_pending = refl

Checks-le_example : 1 ≤ 20161
Checks-le_example =
    Checks-le row 1 (as_checked 100 (verdict_of row (attempt 100 silent joined)) after.0 row)
      (again 0 100 silent joined (history_of "alice") after start refl (omega arith) (omega arith)
        published)
      still_pending

abbrev tables : Tables
tables = (row ∷ [], history_of "alice")

tables-AreTidy : AreTidy (row ∷ [])
unfolding count
tables-AreTidy = record {
  tidy = λ r m. elim m [
    | Memᴰ.head e ↦ subst IsTidy (sym e) ((λ p. ground (arith, p)), (λ p. omega arith))
    | Memᴰ.tail rest ↦ elim rest [ ]
  ];
  unique = λ id. ground arith;
}

Reach-AreTidy_example : AreTidy (recover_one 100 (job ∷ []) silent tables).1.0
Reach-AreTidy_example =
    Reach-AreTidy tables (recover_one 100 (job ∷ []) silent tables).1
      (next tables (recover_one 100 (job ∷ []) silent tables).1 here
        (recovered_one 100 (job ∷ []) silent tables))
      tables-AreTidy

was_there : content "p1" (history_of "alice") ≡ some ("alice", item)
unfolding content
was_there = refl

recover_one-Protects_example :
    Protects (job ∷ []) "p1" "alice" item (recover_one 100 (job ∷ []) silent tables).1.1
recover_one-Protects_example =
    recover_one-Protects 100 (job ∷ []) silent tables "p1" "alice" item was_there

-- The history has the prompt for another owner.
abbrev mismatched : Tables
mismatched = (row ∷ [], history_of "bob")

raised_before : (recover_one 100 (job ∷ []) silent mismatched).0 ≡ none
unfolding recover_one
raised_before = refl

abbrev after_raising : Tables
after_raising = (recover_one 100 (job ∷ []) silent mismatched).1

recover_one_raises_example :
    (j : Joined) × Memᴰ j.row mismatched.0
    × Memᴰ j.row after_raising.0
    × (after_raising.1 ≡ mismatched.1)
    × (recover_one 100 (job ∷ []) silent after_raising ≡ (none, after_raising))
    × ((wait : ℕ) (out : Outside)
        → others j (recover_one (100 + wait) (job ∷ []) out after_raising).1.0
          ≡ others j after_raising.0)
recover_one_raises_example = recover_one_raises 100 (job ∷ []) silent mismatched raised_before
