-- ===== src/Methodology/Duties.antt =====
-- Separation of duties in a plan: the roles that validate have no other part.
use sdlc_harness.Prelude.{String, ◌≡◌, Bool, true, false, none, some, List, [], arith, contains}
use sdlc_harness.Sets.{sorted_set, disjoint, disjoint_sound}
use sdlc_harness.Methodology.{
  StageKind, GoalDefinition, WorkflowPlan, roles, plan_stage, find_stage, same_stage, scope_risk,
  validation,
}
use sdlc_harness.Methodology.Planner.{
  build_stage, stages_of, plan, is_exploring, reasons_for, design_roles, validation_roles,
}

-- the roles of the stage of a kind; none where the plan has no such stage
abbrev pub roles_of : WorkflowPlan → StageKind → List String
roles_of p kind = elim (plan_stage p kind) [ none ↦ [] | some s ↦ roles s ]

apart :
    (goal : GoalDefinition) (b : Bool) (kind : StageKind)
    → same_stage kind validation ≡ false
    → disjoint
        (elim (find_stage kind (stages_of goal b)) [ none ↦ [] | some s ↦ roles s ])
        (elim (find_stage validation (stages_of goal b)) [ none ↦ [] | some s ↦ roles s ])
      ≡ true
unfolding find_stage stages_of build_stage design_roles validation_roles sorted_set
apart goal true scope_risk h = ground arith
apart goal _ _ h = ground arith

-- No role of the validation stage has a part in another stage of the plan.
pub reviewers_apart :
    (goal : GoalDefinition) (role : String) (kind : StageKind)
    → same_stage kind validation ≡ false
    → contains role (roles_of (plan goal) kind) ≡ true
    → contains role (roles_of (plan goal) validation) ≡ false
unfolding plan plan_stage
reviewers_apart goal role kind other h =
    disjoint_sound role (roles_of (plan goal) kind) (roles_of (plan goal) validation)
      (apart goal (is_exploring (reasons_for goal)) kind other) h
