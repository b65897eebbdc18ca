-- ===== src/History/Tests.antt =====
-- The theorems on utils/history_store.py at one run: a history with one item of an owner, one that is
-- saved after it, and a recovery for the first.
use comfy_ui_account_manager.Base.{
  String, Bool, true, false, List, [], ◌∷◌, none, some, ◌≡◌, refl, ◌⊎◌, arith, or_else,
}
use comfy_ui_account_manager.Base.Dict.{lookup}
use comfy_ui_account_manager.Base.Int.{ℤ, pos, negsuc}
use comfy_ui_account_manager.Base.Table.{count}
use comfy_ui_account_manager.Json.{Json, text, obj, Members, end, member, get}
use comfy_ui_account_manager.Json.Writing.{dict_or_empty}
use comfy_ui_account_manager.History.Recovering.{Recovery, merge_api_recovery}
use comfy_ui_account_manager.History.Store.{Row, owner_of, save, Query, query}
use comfy_ui_account_manager.History.Saving.{IsUnique, by_prompt, shown, save_then_query}
use comfy_ui_account_manager.History.Views.{IsFound, query-IsFound}
use comfy_ui_account_manager.History.Contents.{content}
use comfy_ui_account_manager.History.Replay.{Call, saving, deleting, run, replay, answer}
use comfy_ui_account_manager.History.Answers.{query-run_exact}
use comfy_ui_account_manager.History.Merging.{IsRecorded}
use comfy_ui_account_manager.History.Protected.{IsOpen, merge_protects, merge_records}

abbrev number : ℤ → String
number n = "0"

abbrev item_of_owner : String → Members
item_of_owner owner_id =
    member "user_id" (text owner_id)
      (member "status" (obj (member "status_str" (text "error") end)) end)

abbrev first_rows : List Row
first_rows =
    record { prompt_id = "p1"; owner_id = "alice"; item = obj (item_of_owner "alice") } ∷ []

first_rows-IsUnique : IsUnique first_rows
unfolding count
first_rows-IsUnique prompt_id = ground arith

abbrev after_save : List Row
after_save =
    record { prompt_id = "p1"; owner_id = "alice"; item = obj (item_of_owner "alice") }
    ∷ record { prompt_id = "p2"; owner_id = "bob"; item = obj (item_of_owner "bob") }
    ∷ []

saved : save number "p2" (item_of_owner "bob") 2 first_rows ≡ some after_save
unfolding save
saved = refl

save_then_query_example :
    (owner_id : String) × (owner_of number (item_of_owner "bob") ≡ some owner_id)
    × (query (by_prompt "p2") after_save ≡ shown "p2" owner_id (item_of_owner "bob"))
save_then_query_example =
    save_then_query number "p2" (item_of_owner "bob") 2 first_rows first_rows-IsUnique (omega arith)
      (omega arith) saved

abbrev of_bob : Query
of_bob = record {
  max_items = some (pos 5);
  offset = negsuc 0;
  owner_id = some "bob";
  prompt_id = none;
  column = λ item. item;
}

bob_queried : query of_bob after_save ≡ some (("p2", item_of_owner "bob") ∷ [])
unfolding query
bob_queried = refl

bob_found : lookup "p2" (("p2", item_of_owner "bob") ∷ []) ≡ some (item_of_owner "bob")
unfolding lookup
bob_found = refl

query-IsFound_example :
    (owner_id : String) × IsFound of_bob after_save "p2" owner_id
    × (get (item_of_owner "bob") "user_id" ≡ some (text owner_id))
query-IsFound_example =
    query-IsFound of_bob after_save "p2" (item_of_owner "bob") bob_queried bob_found

abbrev calls : List Call
calls = saving "p1" (item_of_owner "alice") ∷ saving "p2" (item_of_owner "bob") ∷ deleting "p1" ∷ []

abbrev left : List Row
left = record { prompt_id = "p2"; owner_id = "bob"; item = obj (item_of_owner "bob") } ∷ []

run-calls : run number 2 calls [] ≡ some left
unfolding run
run-calls = refl

query-run_exact_example :
    query (by_prompt "p2") left ≡ answer "p2" (replay number calls (λ id. none) "p2")
query-run_exact_example = query-run_exact number 2 calls "p2" run-calls (omega arith)

abbrev recovery : Recovery
recovery = record {
  id = "r1";
  prompt_id = "p1";
  owner_id = "alice";
  node_id = "7";
  provider = "wan";
  task_id = "t1";
  payload = [];
  submitted_at = 0;
}

abbrev answered : Bool × List Row
answered = or_else (merge_api_recovery 5 recovery "recovered" "done" [] after_save) (false, [])

merged : merge_api_recovery 5 recovery "recovered" "done" [] after_save ≡ some (true, answered.1)
unfolding merge_api_recovery dict_or_empty
merged = refl

was_there : content "p1" after_save ≡ some ("alice", obj (item_of_owner "alice"))
unfolding content
was_there = refl

merge_protects_example :
    (item : Json) × (content "p1" answered.1 ≡ some ("alice", item))
    × ((item ≡ obj (item_of_owner "alice"))
        ⊎ IsOpen recovery "p1" "alice" (obj (item_of_owner "alice")))
merge_protects_example =
    merge_protects 5 recovery "recovered" "done" [] after_save "p1" "alice"
      (obj (item_of_owner "alice")) merged was_there

merge_records_example :
    (item : Members) × (content "p1" answered.1 ≡ some ("alice", obj item))
    × IsRecorded recovery "recovered" "done" item
merge_records_example = merge_records 5 recovery "recovered" "done" [] after_save merged
