-- ===== src/Methodology.antt =====
-- src/agent_harness/methodology.py: the types of a plan and the tables that `MethodologyPlanner`
-- reads. The planner, the profiles and the proofs are in the modules below.
pub mod Profiles
pub mod Perspectives
pub mod Planner
pub mod Order
pub mod Duties
pub mod Tests
use sdlc_harness.Prelude.{
  ℕ, String, Bool, true, false, Option, none, some, List, [], ◌∷◌, ◌==◌, if◌then◌else◌,
}
use sdlc_harness.Dict.{Dict, keys}

pub data KnowledgeStatus : Type 0 where
  confirmed inferred unverified conflict : KnowledgeStatus

pub data Track : Type 0 where
  exploration production : Track

pub data StageKind : Type 0 where
  scope_risk goal_discovery method_discovery requirements oracle : StageKind
  design implementation integration_verification validation release : StageKind

-- `a is b`
abbrev pub same_stage : StageKind → StageKind → Bool
same_stage scope_risk scope_risk = true
same_stage goal_discovery goal_discovery = true
same_stage method_discovery method_discovery = true
same_stage requirements requirements = true
same_stage oracle oracle = true
same_stage design design = true
same_stage implementation implementation = true
same_stage integration_verification integration_verification = true
same_stage validation validation = true
same_stage release release = true
same_stage _ _ = false

-- `.value`
unfoldable pub stage_value : StageKind → String
stage_value scope_risk = "scope-risk"
stage_value goal_discovery = "goal-discovery"
stage_value method_discovery = "method-discovery"
stage_value requirements = "requirements"
stage_value oracle = "oracle"
stage_value design = "design"
stage_value implementation = "implementation"
stage_value integration_verification = "integration-verification"
stage_value validation = "validation"
stage_value release = "release"

pub data AssuranceClaim : Type 0 where
  method_validity algorithm_fidelity metric_validity : AssuranceClaim
  experiment_integrity reproducibility_lineage scope_purity : AssuranceClaim

pub data ResponsibilityArea : Type 0 where
  requirements_outcomes engineering_delivery verification_qa : ResponsibilityArea

pub data DeliveryDepth : Type 0 where
  p0 p1 p2 p3 : DeliveryDepth

pub record GoalDefinition : Type 0 where
  pub statement : String
  pub decision_action : Option String
  pub outcome : Option String
  pub population : Option String
  pub analysis_unit : Option String
  pub time_horizon : Option String
  pub constraints : List String
  pub question_type : Option String
  pub data_description : Option String
  pub decision_threshold : Option String
  pub field_status : Dict KnowledgeStatus
  pub risk_level : ℕ
  pub research_artifact : Bool

pub record StagePermissionProfile : Type 0 where
  pub tools : List String
  pub writable_areas : List String
  pub network_allowed : Bool
  pub can_execute_commands : Bool
  pub can_approve : Bool

pub record KnowledgeConcept : Type 0 where
  pub concept_id : String
  pub name : String
  pub version : String
  pub source : String
  pub scope : String

pub record PerspectiveProfile : Type 0 where
  pub perspective_id : String
  pub responsibility_area : ResponsibilityArea
  pub delivery_depth : DeliveryDepth
  pub independent_assessment_required : Bool
  pub bounded_investigation_required : Bool
  pub rationale : String
  pub required_outputs : List String
  pub verification_methods : List String

pub record ExpertProfile : Type 0 where
  pub expert_id : String
  pub role : String
  pub stage : StageKind
  pub general_practice : List String
  pub domain_depth : List String
  pub role_judgment : List String
  pub shared_foundation : List String
  pub responsibility_area : Option ResponsibilityArea

pub record StagePlan : Type 0 where
  pub kind : StageKind
  pub role_permissions : Dict StagePermissionProfile
  pub required_inputs : List String
  pub required_outputs : List String
  pub gate_criteria : List String
  pub failure_return : Option StageKind
  pub expert_profiles : Dict ExpertProfile

-- the property `roles`
abbrev pub roles : StagePlan → List String
roles s = keys s.role_permissions

pub record WorkflowPlan : Type 0 where
  pub track : Track
  pub stages : List StagePlan
  pub reasons : List String
  pub required_assurance_claims : List AssuranceClaim
  pub noncompensating_assurance : Bool
  pub responsibility_areas : List ResponsibilityArea
  pub perspectives : Dict PerspectiveProfile
  pub knowledge_base : Dict KnowledgeConcept

-- the loop of `stage`; `none` is the KeyError
unfoldable pub find_stage : StageKind → List StagePlan → Option StagePlan
find_stage kind [] = none
find_stage kind (s ∷ stages) = if same_stage s.kind kind then some s else find_stage kind stages

unfoldable pub plan_stage : WorkflowPlan → StageKind → Option StagePlan
unfolding find_stage
plan_stage plan kind = find_stage kind plan.stages

-- `_stage_artifacts`: the inputs and the outputs of each stage
unfoldable pub stage_artifacts : StageKind → List String × List String
stage_artifacts scope_risk = ("goal-draft" ∷ [], "scope-risk-assessment" ∷ [])
stage_artifacts goal_discovery =
    ("goal-draft" ∷ "scope-risk-assessment" ∷ [], "goal-definition" ∷ [])
stage_artifacts method_discovery =
    ("goal-definition" ∷ "scope-risk-assessment" ∷ [], "method-decision" ∷ [])
stage_artifacts requirements =
    ("goal-definition" ∷ "method-decision" ∷ [], "requirements-baseline" ∷ [])
stage_artifacts oracle = ("requirements-baseline" ∷ [], "acceptance-oracle" ∷ [])
stage_artifacts design =
    ("requirements-baseline" ∷ "acceptance-oracle" ∷ [], "design-baseline" ∷ [])
stage_artifacts implementation = (
  "requirements-baseline" ∷ "acceptance-oracle" ∷ "design-baseline" ∷ [],
  "implementation-artifacts" ∷ [],
)
stage_artifacts integration_verification =
    ("frozen-candidate" ∷ "acceptance-oracle" ∷ [], "verification-evidence" ∷ [])
stage_artifacts validation =
    ("frozen-candidate" ∷ "verification-evidence" ∷ [], "review-findings" ∷ [])
stage_artifacts release = ("approved-candidate" ∷ "gate-decision" ∷ [], "release-decision" ∷ [])

-- `_permission`: the base tools and areas with those that the stage adds, and its two flags
unfoldable pub permission : StageKind → StagePermissionProfile
permission kind = record {
  tools = "read-input" ∷ "write-result" ∷ extra_tools kind;
  writable_areas = "work" ∷ "tmp" ∷ extra_areas kind;
  network_allowed = false;
  can_execute_commands = command_stage kind;
  can_approve = same_stage kind validation;
}
  where
    extra_tools : StageKind → List String
    extra_tools implementation = "write-file" ∷ "run-tests" ∷ []
    extra_tools integration_verification = "read-candidate" ∷ "run-tests" ∷ "write-evidence" ∷ []
    extra_tools validation = "read-candidate" ∷ "read-evidence" ∷ "write-finding" ∷ "approve" ∷ []
    extra_tools release = "read-approved-candidate" ∷ "package" ∷ []
    extra_tools _ = []

    extra_areas : StageKind → List String
    extra_areas implementation = "build" ∷ []
    extra_areas integration_verification = "build" ∷ []
    extra_areas release = "build" ∷ []
    extra_areas _ = []

    command_stage : StageKind → Bool
    command_stage oracle = true
    command_stage implementation = true
    command_stage integration_verification = true
    command_stage release = true
    command_stage _ = false
