-- ===== src/Mission/Tests.antt =====
-- A whole mission of a clear goal, from its first task to its release.
use Prim.Native.String.{◌++◌ as append_text}
use sdlc_harness.Prelude.{
  String, ◌≡◌, refl, true, Option, none, some, List, [], ◌∷◌, ◌++◌, Result, ok, err, is_some,
  contains, arith,
}
use sdlc_harness.Sets.{sorted_set}
use sdlc_harness.Handoff.{
  validate_and_verify, verify_links, verify_artifact, verify_artifacts, no_symlink,
  no_symlink_until, is_below, lower,
}
use sdlc_harness.Handoff.Tests.{disk, any_schema}
use sdlc_harness.Methodology.{
  GoalDefinition, StageKind, StagePlan, scope_risk, requirements, oracle, design, implementation,
  integration_verification, validation, release, roles, stage_artifacts,
}
use sdlc_harness.Methodology.Planner.{
  plan, stages_of, build_stage, reasons_of, critical_fields, design_roles, validation_roles,
}
use sdlc_harness.Methodology.Tests.{clear}
use sdlc_harness.Mission.{
  Hashes, Mission, MissionError, WorkTask, AgentResult, stage_here, available_outputs,
  quarantined_stale_revision,
}
use sdlc_harness.Mission.Results.{has_valid_hash, has_valid_handoff, handoff_document}
use sdlc_harness.Mission.Bindings.{initial_output_bindings}
use sdlc_harness.Mission.Manager.{
  create_mission, issue_task, add_task, receive_result, receive_for, apply_user_steering, is_blank,
  steered, bind_candidate, mark_candidate_approved, bind_release,
}
use sdlc_harness.Mission.Stages.{
  advance_if_ready, passing_result, passing_results, bind_entries, bind_results, gate_open,
  take_outputs,
}
use sdlc_harness.Mission.Inputs.{Fed, plan-Fed}
use sdlc_harness.Mission.Steps.{Reached, created}
use sdlc_harness.Mission.Runs.{
  Command, issue, receive, freeze, approve, pack, advance, perform, perform_all,
  perform_all-Reached,
}
use sdlc_harness.Mission.Issue.{issue-Reached}
use sdlc_harness.Mission.Completion.{completed-Reached}
use sdlc_harness.Mission.Quarantine.{AreGenuine, Reached-AreGenuine, steering-quarantines}

abbrev pub hashes : Hashes
hashes = record {
  goal = λ g. "goal";
  method = λ t rs. "method";
  payload = λ p. "payload";
  decision = λ c r. "decision";
}

abbrev pub goal : GoalDefinition
goal = record clear { risk_level = 1 }

abbrev pub begun : Mission
begun = create_mission hashes "m-1" goal

abbrev pub result : StageKind → String → Option String → String → String → AgentResult
result stage role candidate task output = record {
  mission_id = "m-1";
  revision = 1;
  task_id = task;
  stage = stage;
  sender_role = role;
  candidate_id = candidate;
  payload = record {
    gate = some "pass";
    body = some (record {
      claims = [];
      expected_results = [];
      decision_rules = [];
      observations = [];
      decision_outcome = "pass";
      applied_rule_ids = [];
      unresolved = [];
      artifacts = record { artifact_type = output; path = "out"; sha256 = "aa" } ∷ [];
    });
  };
  payload_sha256 = "payload";
  artifact_root = "artifacts" ∷ [];
}

abbrev pub work : StageKind → String → Option String → String → String → List Command
work stage role candidate id output =
    issue stage role id id
    ∷ receive (result stage role candidate (append_text "task-" id) output)
    ∷ []

abbrev whole_run : List Command
whole_run =
    work scope_risk "risk-analyst" none "1" "scope-risk-assessment"
    ++ advance ∷ work requirements "requirements-specialist" none "2" "requirements-baseline"
    ++ advance ∷ work oracle "oracle-specialist" none "3" "acceptance-oracle"
    ++ advance ∷ work design "architecture-specialist" none "4" "design-baseline"
    ++ advance ∷ work implementation "implementation-specialist" none "5" "implementation-artifacts"
    ++ freeze "c-1" "cc"
      ∷ advance
      ∷ work integration_verification "verification-specialist" (some "c-1") "6"
          "verification-evidence"
    ++ advance ∷ work validation "validation-specialist" (some "c-1") "7" "review-findings"
    ++ approve "c-1" "decision-1"
      ∷ advance
      ∷ work release "release-specialist" (some "c-1") "8" "release-decision"
    ++ pack "c-1" "dd" "release-1" ∷ advance ∷ []

abbrev pub ended : Result MissionError Mission → Mission
ended (ok m) = m
ended (err _) = begun

abbrev finished : Mission
finished = ended (perform_all hashes any_schema disk whole_run begun)

is_completed : finished.completed ≡ true
unfolding perform_all perform issue_task receive_result receive_for has_valid_hash has_valid_handoff
    handoff_document advance_if_ready bind_candidate mark_candidate_approved bind_release
    create_mission initial_output_bindings plan stages_of build_stage reasons_of critical_fields
    design_roles validation_roles stage_artifacts sorted_set passing_results passing_result
    bind_results bind_entries gate_open take_outputs validate_and_verify verify_links
    verify_artifacts verify_artifact no_symlink no_symlink_until is_below lower
is_completed = refl

finished-Reached : Reached hashes any_schema finished
unfolding perform_all perform issue_task receive_result receive_for has_valid_hash has_valid_handoff
    handoff_document advance_if_ready bind_candidate mark_candidate_approved bind_release
    create_mission initial_output_bindings plan stages_of build_stage reasons_of critical_fields
    design_roles validation_roles stage_artifacts sorted_set passing_results passing_result
    bind_results bind_entries gate_open take_outputs validate_and_verify verify_links
    verify_artifacts verify_artifact no_symlink no_symlink_until is_below lower
finished-Reached =
    perform_all-Reached hashes any_schema disk whole_run begun (created "m-1" goal) refl

completed-Reached_example :
    (is_some finished.active_candidate_id ≡ true)
    × (finished.candidate_approved ≡ true)
    × (is_some finished.release_artifact_sha256 ≡ true)
    × (contains "approved-candidate" (available_outputs finished) ≡ true)
    × (contains "gate-decision" (available_outputs finished) ≡ true)
completed-Reached_example =
    completed-Reached hashes any_schema finished finished-Reached is_completed

Reached-AreGenuine_example : AreGenuine hashes finished
Reached-AreGenuine_example = Reached-AreGenuine hashes any_schema finished finished-Reached

issue-Reached_example :
    (here : StagePlan) × (stage_here begun ≡ some here)
    × ((role : String) (c : Option String) (task attempt : String)
        → contains role (roles here) ≡ true
        → (t : WorkTask) × (issue_task begun here.kind role c task attempt
            ≡ ok (t, add_task begun t)))
unfolding create_mission
issue-Reached_example = issue-Reached hashes any_schema begun (created "m-1" goal) refl

plan-Fed_example : Fed (available_outputs begun) (plan goal).stages
unfolding create_mission
plan-Fed_example = plan-Fed hashes goal

abbrev late : AgentResult
late = result scope_risk "risk-analyst" none "task-1" "scope-risk-assessment"

steering-quarantines_example :
    receive_result hashes any_schema disk (steered hashes begun clear "also by region") [] late
    ≡ (quarantined_stale_revision, steered hashes begun clear "also by region", [] ++ late ∷ [])
unfolding apply_user_steering is_blank create_mission
steering-quarantines_example =
    steering-quarantines hashes any_schema disk begun (steered hashes begun clear "also by region")
      clear "also by region" [] late refl refl (omega arith)
