-- ===== src/Plugin/Tests.antt =====
-- The beginning of an interruption of the first task, and the response after it was retried.
use sdlc_harness.Prelude.{String, ◌≡◌, ◌≢◌, refl, some, List, [], ◌∷◌, ok, inr}
use sdlc_harness.Sets.{sorted_set}
use sdlc_harness.Handoff.Tests.{any_schema}
use sdlc_harness.Authority.{
  Grant, VerifiedAuthority, find_token, consume, consume_found, use_grant, mark_consumed,
  check_grant, check_binding, check_tool, new_grant, aware, verified,
}
use sdlc_harness.Authority.SingleUse.{afterwards}
use sdlc_harness.Methodology.{stage_artifacts}
use sdlc_harness.Methodology.Planner.{
  plan, stages_of, build_stage, reasons_of, critical_fields, design_roles, validation_roles,
}
use sdlc_harness.Mission.Bindings.{initial_output_bindings}
use sdlc_harness.Mission.Manager.{create_mission}
use sdlc_harness.Workflow.Projection.{WorkflowProjection}
use sdlc_harness.Policy.Agrees.{Agrees}
use sdlc_harness.Policy.Tests.{
  digest, canonical_json, hashes, path_text, with_task, task_1, resumed, retried, played,
}
use sdlc_harness.Plugin.{
  Params, operations_for_task, authority_request, authorize, begin_operation, admitted,
  require_revision, reject_role_claims, operation_task, check_response,
}
use sdlc_harness.Plugin.Granted.{IsGranted}
use sdlc_harness.Plugin.Begin.{
  IsAdmitted, begin_operation-IsAdmitted, begin_operation_once, check_response_ok,
}

abbrev sha256 : String → String
sha256 token = token

abbrev params : Params
params = record {
  keys = "mission_id" ∷ "revision" ∷ "task_id" ∷ [];
  revision = some 1;
  task_id = "task-1";
  authority_token = "token";
}

abbrev row : Grant
row =
    new_grant sha256
      (record {
        binding = (authority_request task_1 "interrupt-attempt").binding;
        allowed_operations = "interrupt-attempt" ∷ [];
        allowed_tools = [];
        expires_at = aware 100;
      })
      "token" "g-1" 100

abbrev authority : VerifiedAuthority
authority = verified sha256 (authority_request task_1 "interrupt-attempt") row

abbrev grants : List Grant
grants = (mark_consumed "g-1" 1 (row ∷ [])).1

begins :
    begin_operation sha256 50 with_task params "interrupt-attempt" (row ∷ [])
    ≡ (ok (task_1, authority), grants)
unfolding begin_operation admitted authorize require_revision reject_role_claims operation_task
    operations_for_task consume consume_found find_token use_grant mark_consumed check_grant
    check_binding check_tool create_mission initial_output_bindings plan stages_of build_stage
    reasons_of critical_fields design_roles validation_roles stage_artifacts sorted_set
begins = refl

begin_operation-IsAdmitted_example :
    IsAdmitted with_task params "interrupt-attempt" task_1
    × ((g : Grant) × (find_token (sha256 "token") (row ∷ []) ≡ some g)
        × IsGranted 50 task_1 "interrupt-attempt" g)
begin_operation-IsAdmitted_example =
    begin_operation-IsAdmitted sha256 50 with_task params "interrupt-attempt" (row ∷ []) begins

begin_operation_once_example :
    (begin_operation sha256 60 with_task params "record-checkpoint" (afterwards sha256 [] grants)).0
    ≢ ok (task_1, authority)
begin_operation_once_example =
    begin_operation_once sha256 50 with_task params "interrupt-attempt" (row ∷ []) (refl, tt) begins
      [] 60 with_task params "record-checkpoint" task_1 authority refl

check_response_ok_example :
    (p : WorkflowProjection) × (check_response digest resumed retried.1 ≡ ok p) × Agrees resumed p
unfolding create_mission plan stages_of build_stage reasons_of critical_fields design_roles
    validation_roles
check_response_ok_example =
    check_response_ok digest canonical_json hashes any_schema path_text played (inr (_, refl))
