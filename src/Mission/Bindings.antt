-- ===== src/Mission/Bindings.antt =====
-- src/agent_harness/mission.py: `_initial_output_bindings`.
use sdlc_harness.Prelude.{String, Bool, [], ◌∷◌, ◌++◌, any, if◌then◌else◌}
use sdlc_harness.Dict.{Dict}
use sdlc_harness.Methodology.{
  GoalDefinition, WorkflowPlan, StageKind, same_stage, goal_discovery, method_discovery,
}
use sdlc_harness.Mission.{OutputBinding, Hashes, structured}

-- `kind in plan.stage_kinds`
abbrev has_stage : StageKind → WorkflowPlan → Bool
has_stage kind plan = any (λ s. same_stage s.kind kind) plan.stages

abbrev pub binding : String → String → String → String × OutputBinding
binding id reference digest =
    (id, record { output_id = id; kind = structured; reference = reference; sha256 = digest })

unfoldable pub initial_output_bindings : Hashes → GoalDefinition → WorkflowPlan → Dict OutputBinding
initial_output_bindings hashes goal plan =
    binding "goal-draft" "mission-goal" (hashes.goal goal)
    ∷ ((if has_stage goal_discovery plan
          then []
          else binding "goal-definition" "mission-goal" (hashes.goal goal) ∷ [])
        ++ (if has_stage method_discovery plan
            then []
            else binding "method-decision" "workflow-plan" (hashes.method plan.track plan.reasons)
              ∷ []))
