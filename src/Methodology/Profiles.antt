-- ===== src/Methodology/Profiles.antt =====
-- src/agent_harness/methodology.py: the expert profile of a role at a stage.
use Prim.Native.String.{◌++◌ as append_text}
use text.Mathlib.Text.{find?}
use sdlc_harness.Prelude.{
  String, Bool, true, false, Option, none, some, List, [], ◌∷◌, ◌++◌, ◌==◌, leb, is_some, contains,
  if◌then◌else◌,
}
use sdlc_harness.Dict.{Dict}
use sdlc_harness.Methodology.{
  StageKind, ResponsibilityArea, GoalDefinition, ExpertProfile, KnowledgeConcept, stage_value,
  scope_risk, goal_discovery, method_discovery, requirements, oracle, design, implementation,
  integration_verification, validation, release, requirements_outcomes, engineering_delivery,
  verification_qa,
}

abbrev pub general_practice : List String
general_practice =
    "structured technical writing" ∷ "evidence-based research and source evaluation"
    ∷ "critical reasoning and uncertainty reporting" ∷ "clear inter-specialist handoff" ∷ []

abbrev concept : String → String → String → String → String × KnowledgeConcept
concept concept_id name source scope = (
  concept_id,
  record { concept_id = concept_id; name = name; version = "1"; source = source; scope = scope },
)

-- `_knowledge_base`
unfoldable pub knowledge_base : Dict KnowledgeConcept
knowledge_base =
    concept "concept:structured-writing" "Structured technical writing"
      "expert-organization-design.md#general-method-knowledge" "all workflow phases"
    ∷ concept "concept:evidence-reasoning" "Evidence reasoning and uncertainty"
        "expert-organization-design.md#general-method-knowledge" "all workflow phases"
    ∷ concept "concept:software-engineering" "Computer science and software engineering foundations"
        "expert-organization-design.md#domain-knowledge" "software development work"
    ∷ concept "concept:structured-handoff" "Structured handoff and receiver acceptance"
        "expert-organization-design.md#shared-knowledge-communication" "inter-specialist handoff"
    ∷ concept "concept:secure-engineering" "Secure software engineering"
        "expert-organization-design.md#domain-knowledge" "risk level two and above"
    ∷ concept "concept:research-reproducibility" "Research methodology and reproducibility"
        "expert-organization-design.md#domain-knowledge" "research artifacts"
    ∷ []

-- `_stage_domain_depth`
pub stage_domain_depth : StageKind → List String
stage_domain_depth scope_risk = "systems thinking and risk analysis" ∷ []
stage_domain_depth goal_discovery = "goal discovery and decision analysis" ∷ []
stage_domain_depth method_discovery = "scientific method and comparative methodology" ∷ []
stage_domain_depth requirements = "requirements engineering and acceptance criteria" ∷ []
stage_domain_depth oracle = "implementation-independent oracle and test design" ∷ []
stage_domain_depth design = "computer science and software architecture" ∷ []
stage_domain_depth implementation = "computer science and software construction" ∷ []
stage_domain_depth integration_verification = "software testing and execution analysis" ∷ []
stage_domain_depth validation = "software validation and assurance review" ∷ []
stage_domain_depth release = "release engineering and operational risk" ∷ []

pub role_judgment : String → StageKind → List String
role_judgment role stage =
    if role == "validation-specialist"
    then "independent evidence judgment" ∷ "reject unsupported completion claims"
      ∷ "weigh residual risk without changing the reviewed candidate" ∷ []
    else if is_some (find? role "reviewer")
    then "independent critical review" ∷ "separate findings from remediation"
      ∷ "reject unsupported completion claims" ∷ []
    else if role == "verification-specialist"
    then "execute reproducible checks on a frozen candidate"
      ∷ "distinguish observed results from unverified claims" ∷ []
    else if role == "implementation-specialist"
    then "implement only approved requirements and design"
      ∷ "report limitations and failed checks without self-approval" ∷ []
    else if role == "mission-manager"
    then "preserve current user intent and route results"
      ∷ "coordinate specialists without self-approval" ∷ []
    else append_text "apply " (
        append_text role
          (append_text " judgment at the " (append_text (stage_value stage) " stage")))
      ∷ "state assumptions, evidence, and unresolved questions"
      ∷ []

abbrev area_of_stage : StageKind → ResponsibilityArea
area_of_stage scope_risk = requirements_outcomes
area_of_stage goal_discovery = requirements_outcomes
area_of_stage requirements = requirements_outcomes
area_of_stage design = engineering_delivery
area_of_stage implementation = engineering_delivery
area_of_stage release = engineering_delivery
area_of_stage _ = verification_qa

unfoldable pub responsibility_area : String → StageKind → Option ResponsibilityArea
responsibility_area role stage =
    if role == "mission-manager" then none else some (area_of_stage stage)

abbrev when : Bool → List String → List String
when true xs = xs
when false xs = []

-- `dict.fromkeys`: the first of equal texts stays
pub distinct_from : List String → List String → List String
distinct_from seen [] = []
distinct_from seen (x ∷ xs) = elim (contains x seen) [
  | true ↦ distinct_from seen xs
  | false ↦ x ∷ distinct_from (x ∷ seen) xs
]

-- `if goal.question_type`: neither `None` nor empty
abbrev framing : Option String → List String
framing none = []
framing (some q) = if q == "" then [] else append_text q " problem framing" ∷ []

unfoldable pub shared_foundation : GoalDefinition → List String
shared_foundation goal =
    ("concept:structured-writing" ∷ "concept:evidence-reasoning" ∷ "concept:software-engineering"
      ∷ "concept:structured-handoff" ∷ [])
    ++ (when (leb 2 goal.risk_level) ("concept:secure-engineering" ∷ [])
        ++ when goal.research_artifact ("concept:research-reproducibility" ∷ []))

pub domain_depth : StageKind → GoalDefinition → List String
unfolding stage_domain_depth distinct_from
domain_depth stage goal = distinct_from [] (
    "computer science and software engineering foundations"
    ∷ (stage_domain_depth stage
        ++ (when (leb 2 goal.risk_level) ("secure software engineering" ∷ [])
            ++ (when goal.research_artifact ("research methodology and reproducibility" ∷ [])
                ++ framing goal.question_type))))

unfoldable pub expert_id : String → StageKind → String
expert_id role stage =
    append_text "expert:" (append_text (stage_value stage) (append_text ":" role))

unfoldable pub expert_profile : String → StageKind → GoalDefinition → ExpertProfile
unfolding role_judgment domain_depth responsibility_area shared_foundation expert_id
expert_profile role stage goal = record {
  expert_id = expert_id role stage;
  role = role;
  stage = stage;
  general_practice = general_practice;
  domain_depth = domain_depth stage goal;
  role_judgment = role_judgment role stage;
  shared_foundation = shared_foundation goal;
  responsibility_area = responsibility_area role stage;
}
