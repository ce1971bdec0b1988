-- ===== src/Methodology/Tests.antt =====
-- The plans of two small goals.
use sdlc_harness.Prelude.{◌≡◌, ◌↔◌, refl, false, none, some, [], ◌∷◌, All, contains}
use sdlc_harness.Sets.{sorted_set}
use sdlc_harness.Methodology.{
  GoalDefinition, implementation, validation, production, exploration, plan_stage, find_stage,
}
use sdlc_harness.Methodology.Planner.{plan, stages_of, build_stage, reasons_of, critical_fields}
use sdlc_harness.Methodology.Order.{
  production_iff, IsClear, ReturnsBack, plan-ReturnsBack, plan_stage-plan,
}
use sdlc_harness.Methodology.Duties.{roles_of, reviewers_apart}

abbrev pub clear : GoalDefinition
clear = record {
  statement = "build the report";
  decision_action = some "ship";
  outcome = some "report";
  population = some "customers";
  analysis_unit = some "customer";
  time_horizon = some "2024";
  constraints = "offline" ∷ [];
  question_type = some "description";
  data_description = some "sales";
  decision_threshold = some "0.9";
  field_status = [];
  risk_level = 2;
  research_artifact = false;
}

abbrev vague : GoalDefinition
vague = record clear { outcome = none }

clear_plan : (plan clear).track ≡ production
unfolding plan reasons_of critical_fields
clear_plan = refl

vague_plan : (plan vague).track ≡ exploration
unfolding plan reasons_of critical_fields
vague_plan = refl

production_iff_example : ((plan clear).track ≡ production) ↔ IsClear clear
production_iff_example = production_iff clear

plan-ReturnsBack_example : ReturnsBack [] (plan vague).stages
plan-ReturnsBack_example = plan-ReturnsBack vague

plan_stage-plan_example : All (λ s. plan_stage (plan vague) s.kind ≡ some s) (plan vague).stages
plan_stage-plan_example = plan_stage-plan vague

reviewers_apart_example :
    contains "implementation-specialist" (roles_of (plan clear) validation) ≡ false
unfolding plan stages_of build_stage plan_stage find_stage sorted_set reasons_of critical_fields
reviewers_apart_example = reviewers_apart clear "implementation-specialist" implementation refl refl
