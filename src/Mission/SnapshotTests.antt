-- ===== src/Mission/SnapshotTests.antt =====
-- A mission with one accepted result, saved and restored.
use sdlc_harness.Prelude.{String, ◌≡◌, refl, none, [], ◌∷◌, ok, All}
use sdlc_harness.Dict.{get}
use sdlc_harness.Sets.{sorted_set, sort_items}
use sdlc_harness.Handoff.{
  FilePath, validate_and_verify, verify_links, verify_artifact, verify_artifacts, no_symlink,
  no_symlink_until, is_below, lower,
}
use sdlc_harness.Handoff.Tests.{disk, any_schema}
use sdlc_harness.Methodology.{scope_risk, stage_artifacts}
use sdlc_harness.Methodology.Planner.{
  plan, stages_of, build_stage, reasons_of, critical_fields, design_roles, validation_roles,
}
use sdlc_harness.Mission.{Mission}
use sdlc_harness.Mission.Results.{has_valid_hash, has_valid_handoff, handoff_document}
use sdlc_harness.Mission.Bindings.{initial_output_bindings}
use sdlc_harness.Mission.Manager.{create_mission, issue_task, receive_result, receive_for}
use sdlc_harness.Mission.Steps.{Reached, created}
use sdlc_harness.Mission.Runs.{perform, perform_all, perform_all-Reached}
use sdlc_harness.Mission.Snapshot.{snapshot}
use sdlc_harness.Mission.Restore.{restore}
use sdlc_harness.Mission.Storable.{IsStorable}
use sdlc_harness.Mission.RoundTrip.{Verifies}
use sdlc_harness.Mission.Restored.{restore-Reached, restore-IsStorable, IsVerified}
use sdlc_harness.Mission.Tests.{hashes, begun, work, ended}

abbrev path_text : FilePath → String
path_text p = "artifacts"

abbrev path_of : String → FilePath
path_of text = text ∷ []

abbrev answered : Mission
answered = ended (
    perform_all hashes any_schema disk
      (work scope_risk "risk-analyst" none "1" "scope-risk-assessment") begun)

answered-Reached : Reached hashes any_schema answered
unfolding perform_all perform issue_task receive_result receive_for has_valid_hash has_valid_handoff
    handoff_document create_mission initial_output_bindings plan stages_of build_stage reasons_of
    critical_fields design_roles validation_roles stage_artifacts sorted_set validate_and_verify
    verify_links verify_artifacts verify_artifact no_symlink no_symlink_until is_below lower
answered-Reached =
    perform_all-Reached hashes any_schema disk
      (work scope_risk "risk-analyst" none "1" "scope-risk-assessment") begun (created "m-1" _) refl

All-Verifies : All (Verifies hashes any_schema disk path_text path_of) answered.accepted_results
unfolding perform_all perform issue_task receive_result receive_for has_valid_hash has_valid_handoff
    handoff_document create_mission initial_output_bindings plan stages_of build_stage reasons_of
    critical_fields design_roles validation_roles stage_artifacts sorted_set validate_and_verify
    verify_links verify_artifacts verify_artifact no_symlink no_symlink_until is_below lower
All-Verifies = (record { hash = refl; handoff = refl; root = refl }, tt)

restore-Reached_example :
    (restore hashes any_schema disk path_of (snapshot path_text answered)
      ≡ ok (record answered { output_bindings = sort_items answered.output_bindings }))
    × ((k : String) → get k (sort_items answered.output_bindings) ≡ get k answered.output_bindings)
restore-Reached_example =
    restore-Reached hashes any_schema disk path_of path_text answered answered-Reached All-Verifies

restore-IsStorable_example :
    IsStorable (record answered { output_bindings = sort_items answered.output_bindings })
    × All (IsVerified hashes any_schema disk path_of) answered.accepted_results
restore-IsStorable_example =
    restore-IsStorable hashes any_schema disk path_of (snapshot path_text answered)
      (restore-Reached hashes any_schema disk path_of path_text answered answered-Reached
        All-Verifies).0
