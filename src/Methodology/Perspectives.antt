-- ===== src/Methodology/Perspectives.antt =====
-- src/agent_harness/methodology.py: `_perspectives`, the viewpoints that every plan carries.
use sdlc_harness.Prelude.{String, Bool, true, false, List, [], ◌∷◌, leb, if◌then◌else◌}
use sdlc_harness.Dict.{Dict}
use sdlc_harness.Methodology.{
  GoalDefinition, ResponsibilityArea, DeliveryDepth, PerspectiveProfile, requirements_outcomes,
  engineering_delivery, verification_qa, p0, p1, p2, p3,
}

-- One entry of `definitions`, with the two flags that the loop computes for it.
abbrev perspective :
    String
    → ResponsibilityArea
    → DeliveryDepth
    → String
    → List String
    → List String
    → Bool
    → Bool
    → String × PerspectiveProfile
perspective id area depth rationale outputs methods independent bounded = (
  id,
  record {
    perspective_id = id;
    responsibility_area = area;
    delivery_depth = depth;
    independent_assessment_required = independent;
    bounded_investigation_required = bounded;
    rationale = rationale;
    required_outputs = outputs;
    verification_methods = methods;
  },
)

unfoldable pub perspectives : GoalDefinition → Dict PerspectiveProfile
perspectives goal =
    perspective "user-purpose" requirements_outcomes p3
      "preserve the user's intended outcome and scope" ("goal-definition" ∷ [])
      ("goal completeness review" ∷ []) false false
    ∷ perspective "computer-science" engineering_delivery p3
        "apply general computer science and software engineering"
        ("design-baseline" ∷ "frozen-candidate" ∷ []) ("design and implementation review" ∷ [])
        false false
    ∷ perspective "functional-correctness" verification_qa p3
        "establish required behavior independently of implementation claims"
        ("acceptance-oracle" ∷ "verification-evidence" ∷ [])
        ("independent acceptance execution" ∷ []) true false
    ∷ perspective "quality-assurance" verification_qa p3
        "judge noncompensating quality floors and remaining uncertainty" ("gate-decision" ∷ [])
        ("quality profile review" ∷ []) true false
    ∷ perspective "baseline-security" verification_qa (if leb 3 goal.risk_level then p3 else p1)
        "cover permissions, secrets, hostile inputs, and bypasses" ("security-assessment" ∷ [])
        ("threat and misuse review" ∷ []) (leb 2 goal.risk_level) (leb 3 goal.risk_level)
    ∷ perspective "data-integrity" verification_qa p1
        "preserve data meaning, provenance, and privacy obligations"
        ("data-integrity-assessment" ∷ []) ("lineage and data-boundary review" ∷ []) false false
    ∷ perspective "usability-accessibility" requirements_outcomes p1
        "represent user interaction and accessibility needs" ("usability-criteria" ∷ [])
        ("scenario review" ∷ []) false false
    ∷ perspective "performance-resources" engineering_delivery p1
        "bound performance and resource use" ("resource-assessment" ∷ [])
        ("resource measurement" ∷ []) false false
    ∷ perspective "operations-recovery" engineering_delivery p1
        "define monitoring, interruption, retry, and recovery behavior" ("recovery-plan" ∷ [])
        ("fault injection" ∷ []) false false
    ∷ perspective "maintainability-supply-chain" engineering_delivery p1
        "control maintenance cost, dependencies, and supply-chain identity"
        ("dependency-record" ∷ []) ("dependency and maintainability review" ∷ []) false false
    ∷ perspective "documentation" requirements_outcomes p1
        "provide user, technical, and operating documentation" ("documentation-set" ∷ [])
        ("reader task review" ∷ []) false false
    ∷ perspective "domain-knowledge" requirements_outcomes
        (if leb 2 goal.risk_level then p2 else p1) "apply task-specific domain obligations"
        ("domain-assessment" ∷ []) ("domain review" ∷ []) false false
    ∷ perspective "research-methods-metrics" verification_qa
        (if goal.research_artifact then p3 else p0)
        "preserve method, metric, experiment, and reproducibility validity"
        ("research-assurance" ∷ []) ("method and metric review" ∷ []) goal.research_artifact
        goal.research_artifact
    ∷ perspective "external-effects" engineering_delivery p1
        "enumerate, observe, reconcile, and compensate external effects"
        ("external-effect-plan" ∷ []) ("effect-boundary fault injection" ∷ []) false false
    ∷ []
