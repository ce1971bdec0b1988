-- ===== src/Workflow/Tests.antt =====
-- The event store and its projection, run on the events of a small mission.
use sdlc_harness.Prelude.{String, ◌≡◌, ◌⊎◌, refl, true, none, some, List, [], ◌∷◌, ◌++◌, ok}
use sdlc_harness.Workflow.{
  mission_started, task_issued, Payload, EventBody, WorkflowEvent, Draft, append, verify_chain,
  sealed, draft_body, chain_valid, append_found, find_command, latest, insert, events, by_sequence,
  insert_row,
}
use sdlc_harness.Workflow.Appends.{next_event, append_all, append_all-verify_chain, append_idem}
use sdlc_harness.Workflow.Fresh.{append_fresh}
use sdlc_harness.Workflow.Tamper.{Collision, tamper_evident}

abbrev pub digest : EventBody → String
digest b = b.event_id

abbrev canonical_json : Payload → String
canonical_json [] = "{}"
canonical_json (_ ∷ _) = "{...}"

abbrev pub start : Draft
start = record {
  command_id = "c-1";
  mission_id = "m-1";
  revision = 1;
  event_type = mission_started;
  payload = ("stage", some "SCOPE_RISK") ∷ [];
}

abbrev pub issue : Draft
issue = record {
  command_id = "c-2";
  mission_id = "m-1";
  revision = 1;
  event_type = task_issued;
  payload =
      ("task_id", some "t-1") ∷ ("role", some "risk-analyst") ∷ ("attempt_id", some "a-1") ∷ [];
}

abbrev calls : List (Draft × String × String)
calls = (start, "e-1", "10:00") ∷ (issue, "e-2", "10:01") ∷ (start, "e-3", "10:02") ∷ []

append_all-verify_chain_example :
    verify_chain digest "m-1" (append_all digest canonical_json calls []) ≡ true
append_all-verify_chain_example = append_all-verify_chain digest canonical_json calls "m-1"

abbrev pub first : WorkflowEvent
first = sealed digest (draft_body start "e-1" "10:00" none)

abbrev pub second : WorkflowEvent
second = sealed digest (draft_body issue "e-2" "10:01" (some first))

two_rows : (append_all digest canonical_json calls [] ≡ first ∷ second ∷ [])
unfolding append_all append append_found find_command latest insert
two_rows = refl

append_idem_example :
    append digest canonical_json start "e-9" "11:00" (first ∷ []) ≡ (ok first, first ∷ [])
unfolding append append_found find_command latest insert
append_idem_example =
    append_idem digest canonical_json start "e-1" "10:00" "e-9" "11:00" [] {e = first}
      {rows' = first ∷ []} refl

append_fresh_example : append digest canonical_json start "e-1" "10:00" [] ≡ (
  ok (next_event digest start "e-1" "10:00" []),
  [] ++ next_event digest start "e-1" "10:00" [] ∷ [],
)
unfolding find_command
append_fresh_example =
    append_fresh digest canonical_json start "e-1" "10:00" [] (λ m. tt) refl refl refl

tamper_evident_example :
    (events "m-1" (first ∷ second ∷ []) ≡ events "m-1" (second ∷ first ∷ [])) ⊎ Collision digest
unfolding verify_chain chain_valid events by_sequence insert_row latest
tamper_evident_example =
    tamper_evident digest "m-1" (first ∷ second ∷ []) (second ∷ first ∷ []) {e = second}
      {f = second} refl refl refl refl refl
