-- ===== src/Methodology/Planner.antt =====
-- src/agent_harness/methodology.py: `_stage`, `_with_experts` and `plan`.
use Prim.Native.String.{◌++◌ as append_text}
use sdlc_harness.Prelude.{
  String, Bool, true, false, Option, none, some, List, [], ◌∷◌, ◌++◌, map, leb, if◌then◌else◌,
}
use sdlc_harness.Dict.{Dict, get}
use sdlc_harness.Sets.{sorted_set}
use sdlc_harness.Methodology.{
  KnowledgeStatus, StageKind, AssuranceClaim, GoalDefinition, StagePlan, WorkflowPlan, unverified,
  conflict, exploration, production, scope_risk, goal_discovery, method_discovery, requirements,
  oracle, design, implementation, integration_verification, validation, release, method_validity,
  algorithm_fidelity, metric_validity, experiment_integrity, reproducibility_lineage, scope_purity,
  requirements_outcomes, engineering_delivery, verification_qa, stage_artifacts, permission,
}
use sdlc_harness.Methodology.Profiles.{knowledge_base, expert_profile}
use sdlc_harness.Methodology.Perspectives.{perspectives}

abbrev pub is_none : Option String → Bool
is_none none = true
is_none (some _) = false

abbrev pub is_empty : List String → Bool
is_empty [] = true
is_empty (_ ∷ _) = false

-- `_critical_fields`, each with `value is None or value == ()`
unfoldable pub critical_fields : GoalDefinition → List (String × Bool)
critical_fields goal =
    ("decision_action", is_none goal.decision_action)
    ∷ ("outcome", is_none goal.outcome)
    ∷ ("population", is_none goal.population)
    ∷ ("analysis_unit", is_none goal.analysis_unit)
    ∷ ("time_horizon", is_none goal.time_horizon)
    ∷ ("constraints", is_empty goal.constraints)
    ∷ ("question_type", is_none goal.question_type)
    ∷ ("data_description", is_none goal.data_description)
    ∷ ("decision_threshold", is_none goal.decision_threshold)
    ∷ []

-- the reasons that one field adds
abbrev pub field_reasons : String → Option KnowledgeStatus → Bool → List String
field_reasons name (some conflict) unset = append_text "conflicting " name ∷ []
field_reasons name (some unverified) unset = append_text "unresolved " name ∷ []
field_reasons name _ unset = if unset then append_text "unresolved " name ∷ [] else []

-- the first loop of `plan`
unfoldable pub reasons_of : Dict KnowledgeStatus → List (String × Bool) → List String
reasons_of status [] = []
reasons_of status ((name, unset) ∷ fields) =
    field_reasons name (get name status) unset ++ reasons_of status fields

abbrev extra_criteria : StageKind → List String
extra_criteria implementation = "frozen-candidate-bound" ∷ []
extra_criteria validation = "candidate-approved-with-fresh-evidence" ∷ []
extra_criteria release = "release-decision-and-package-bound" ∷ []
extra_criteria _ = []

-- `_stage`, and `_with_experts` of its result
unfoldable pub build_stage : GoalDefinition → StageKind → List String → Option StageKind → StagePlan
build_stage goal kind role_set failure_return = record {
  kind = kind;
  role_permissions = map (λ role. (role, permission kind)) (sorted_set role_set);
  required_inputs = (stage_artifacts kind).0;
  required_outputs = (stage_artifacts kind).1;
  gate_criteria = "all-required-roles-pass" ∷ extra_criteria kind;
  failure_return = failure_return;
  expert_profiles = map (λ role. (role, expert_profile role kind goal)) (sorted_set role_set);
}

unfoldable pub design_roles : GoalDefinition → List String
design_roles goal =
    "architecture-specialist"
    ∷ ((if leb 2 goal.risk_level then "security-architect" ∷ "domain-specialist" ∷ [] else [])
        ++ (if leb 3 goal.risk_level then "formal-methods-specialist" ∷ [] else []))

unfoldable pub validation_roles : GoalDefinition → List String
validation_roles goal =
    "validation-specialist"
    ∷ ((if leb 2 goal.risk_level
          then "independent-spec-reviewer" ∷ "independent-code-reviewer" ∷ []
          else [])
        ++ (if goal.research_artifact then "research-reproducibility-reviewer" ∷ [] else []))

-- the stages of an exploration only
abbrev discovery_stages : GoalDefinition → List StagePlan
discovery_stages goal =
    build_stage goal goal_discovery ("goal-analyst" ∷ "domain-researcher" ∷ "data-analyst" ∷ [])
      (some scope_risk)
    ∷ build_stage goal method_discovery
        ("domain-researcher" ∷ "methodologist" ∷ "metric-specialist" ∷ "bias-reviewer" ∷ [])
        (some goal_discovery)
    ∷ []

abbrev production_stages : GoalDefinition → Bool → List StagePlan
production_stages goal exploring =
    build_stage goal requirements ("requirements-specialist" ∷ [])
      (some (if exploring then method_discovery else scope_risk))
    ∷ build_stage goal oracle ("oracle-specialist" ∷ []) (some requirements)
    ∷ build_stage goal design (design_roles goal) (some requirements)
    ∷ build_stage goal implementation ("implementation-specialist" ∷ []) (some design)
    ∷ build_stage goal integration_verification ("verification-specialist" ∷ [])
        (some implementation)
    ∷ build_stage goal validation (validation_roles goal) (some integration_verification)
    ∷ build_stage goal release ("release-specialist" ∷ []) (some validation)
    ∷ []

unfoldable pub stages_of : GoalDefinition → Bool → List StagePlan
stages_of goal exploring =
    build_stage goal scope_risk ("mission-manager" ∷ "risk-analyst" ∷ []) none
    ∷ ((if exploring then discovery_stages goal else []) ++ production_stages goal exploring)

abbrev pub reasons_for : GoalDefinition → List String
reasons_for goal = reasons_of goal.field_status (critical_fields goal)

-- `bool(reasons)`
abbrev pub is_exploring : List String → Bool
is_exploring [] = false
is_exploring (_ ∷ _) = true

abbrev all_claims : List AssuranceClaim
all_claims =
    method_validity ∷ algorithm_fidelity ∷ metric_validity ∷ experiment_integrity
    ∷ reproducibility_lineage ∷ scope_purity ∷ []

unfoldable pub plan : GoalDefinition → WorkflowPlan
unfolding reasons_of critical_fields stages_of
plan goal =
    let exploring = is_exploring (reasons_for goal) in
    record {
      track = if exploring then exploration else production;
      stages = stages_of goal exploring;
      reasons = reasons_for goal;
      required_assurance_claims = if goal.research_artifact then all_claims else [];
      noncompensating_assurance = goal.research_artifact;
      responsibility_areas = requirements_outcomes ∷ engineering_delivery ∷ verification_qa ∷ [];
      perspectives = perspectives goal;
      knowledge_base = knowledge_base;
    }
