-- ===== src/Policy/Tests.antt =====
-- A mission that is begun, whose first task is issued, interrupted, retried and answered.
use sdlc_harness.Prelude.{String, ◌≡◌, refl, true, none, List, [], ◌∷◌, Result, ok}
use sdlc_harness.Handoff.{FilePath}
use sdlc_harness.Handoff.Tests.{any_schema}
use sdlc_harness.Methodology.{scope_risk, GoalDefinition, stage_artifacts}
use sdlc_harness.Sets.{sorted_set}
use sdlc_harness.Methodology.Profiles.{expert_profile}
use sdlc_harness.Methodology.{stage_value}
use sdlc_harness.Methodology.Tests.{clear}
use sdlc_harness.Methodology.Planner.{
  plan, stages_of, build_stage, reasons_of, critical_fields, design_roles, validation_roles,
}
use sdlc_harness.Mission.{Hashes, Mission, WorkTask}
use sdlc_harness.Mission.Bindings.{initial_output_bindings}
use sdlc_harness.Mission.Manager as Manager
use sdlc_harness.Mission.Manager.{create_mission}
use sdlc_harness.Workflow.{
  Payload, EventBody, WorkflowEvent, verify_chain, append, append_found, find_command, latest,
  insert,
}
use sdlc_harness.Workflow.Projection.{WorkflowProjection}
use sdlc_harness.Policy.{PolicyError, Stamp, emit}
use sdlc_harness.Policy.Engine as Engine
use sdlc_harness.Policy.Engine.{projection}
use sdlc_harness.Policy.Agrees.{Agrees}
use sdlc_harness.Policy.History.{
  History, begins, continues, issues, interrupts, retries, projection-Agrees,
}

abbrev pub digest : EventBody → String
digest b = b.event_id

abbrev pub canonical_json : Payload → String
canonical_json [] = "{}"
canonical_json (_ ∷ _) = "{...}"

abbrev pub hashes : Hashes
hashes = record {
  goal = λ g. "goal";
  method = λ t rs. "method";
  payload = λ p. "payload";
  decision = λ c r. "decision";
}

abbrev pub path_text : FilePath → String
path_text p = "out"

abbrev pub goal : GoalDefinition
goal = record clear { risk_level = 1 }

abbrev pub begun : Mission
begun = create_mission hashes "m-1" goal

abbrev pub at : String → Stamp
at id = record { event_id = id; created_at = "10:00" }

abbrev pub rows_1 : List WorkflowEvent
rows_1 = (Engine.attach_created digest canonical_json begun "start" (at "e-1") []).1

begins_ok :
    Engine.attach_created digest canonical_json begun "start" (at "e-1") [] ≡ (ok begun, rows_1)
unfolding Engine.attach_created emit append append_found find_command latest insert create_mission
    initial_output_bindings plan stages_of build_stage reasons_of critical_fields design_roles
    validation_roles stage_artifacts sorted_set
begins_ok = refl

abbrev pub issued : Result PolicyError (WorkTask × Mission) × List WorkflowEvent
issued =
    Engine.issue_task digest canonical_json begun scope_risk "risk-analyst" none "1" "1" "task"
      (at "e-2") (at "e-3") rows_1

abbrev pub task_1 : WorkTask
task_1 =
    Manager.new_task begun scope_risk "risk-analyst" none "1" "1" "expert:scope-risk:risk-analyst"

issues_ok : issued ≡ (ok (task_1, Manager.add_task begun task_1), issued.1)
unfolding Engine.issue_task Manager.issue_task Engine.attach_created emit append append_found
    find_command latest insert create_mission initial_output_bindings plan stages_of build_stage
    reasons_of critical_fields design_roles validation_roles stage_artifacts sorted_set
    expert_profile stage_value
issues_ok = refl

abbrev pub with_task : Mission
with_task = Manager.add_task begun task_1

abbrev pub interrupted : Result PolicyError Mission × List WorkflowEvent
interrupted =
    Engine.interrupt_attempt digest canonical_json with_task "task-1" "out of time" "stop"
      (at "e-4") issued.1

abbrev pub paused : Mission
paused = Engine.set_task "task-1" (record task_1 { status = "interrupted" }) with_task

interrupts_ok : interrupted ≡ (ok paused, interrupted.1)
unfolding Engine.issue_task Engine.interrupt_attempt Manager.issue_task Engine.attach_created emit
    append append_found find_command latest insert create_mission initial_output_bindings plan
    stages_of build_stage reasons_of critical_fields design_roles validation_roles stage_artifacts
    sorted_set expert_profile stage_value Manager.is_blank
interrupts_ok = refl

abbrev pub retried : Result PolicyError (WorkTask × Mission) × List WorkflowEvent
retried =
    Engine.retry_attempt digest canonical_json paused "task-1" "infrastructure" "2" "again"
      (at "e-5") (at "e-6") interrupted.1

abbrev pub task_2 : WorkTask
task_2 = Engine.with_attempt "attempt-2" task_1

abbrev pub resumed : Mission
resumed = Engine.set_task "task-1" task_2 paused

retries_ok : retried ≡ (ok (task_2, resumed), retried.1)
unfolding Engine.issue_task Engine.interrupt_attempt Engine.retry_attempt Manager.issue_task
    Engine.attach_created emit append append_found find_command latest insert create_mission
    initial_output_bindings plan stages_of build_stage reasons_of critical_fields design_roles
    validation_roles stage_artifacts sorted_set expert_profile stage_value Manager.is_blank
retries_ok = refl

pub played : History digest canonical_json hashes any_schema path_text resumed retried.1
unfolding Engine.issue_task Engine.interrupt_attempt Engine.retry_attempt Manager.issue_task
    Engine.attach_created emit append append_found find_command latest insert create_mission
    initial_output_bindings plan stages_of build_stage reasons_of critical_fields design_roles
    validation_roles stage_artifacts sorted_set expert_profile stage_value Manager.is_blank
played =
    continues paused resumed interrupted.1 retried.1
      (continues with_task paused issued.1 interrupted.1
        (continues begun with_task rows_1 issued.1
          (begins "m-1" goal "start" (at "e-1") [] begun rows_1 begins_ok (λ m. tt) refl refl)
          (issues scope_risk "risk-analyst" none "1" "1" "task" (at "e-2") (at "e-3") task_1
            with_task issued.1 issues_ok (λ _. refl)))
        (interrupts "task-1" "out of time" "stop" (at "e-4") paused interrupted.1 interrupts_ok
          refl))
      (retries "task-1" "infrastructure" "2" "again" (at "e-5") (at "e-6") task_2 resumed retried.1
        retries_ok refl)

projection-Agrees_example :
    (verify_chain digest "m-1" retried.1 ≡ true)
    × ((p : WorkflowProjection) × (projection digest resumed retried.1 ≡ ok p) × Agrees resumed p)
unfolding create_mission
projection-Agrees_example =
    projection-Agrees digest canonical_json hashes any_schema path_text played
