-- ===== src/Mission/Inputs.antt =====
-- Every plan supplies each of its stages: what a stage needs is there when it is reached.
use sdlc_harness.Prelude.{
  String, ◌≡◌, refl, Bool, true, false, List, [], ◌∷◌, ◌++◌, arith, subset, Within, subset_mono,
  contains-append, Bool-cases, inl, inr,
}
use sdlc_harness.Dict.{keys}
use sdlc_harness.Methodology.{
  StageKind, StagePlan, GoalDefinition, implementation, validation, stage_artifacts,
}
use sdlc_harness.Methodology.Planner.{plan, stages_of, build_stage, is_exploring, reasons_for}
use sdlc_harness.Mission.{Hashes}
use sdlc_harness.Mission.Bindings.{initial_output_bindings}

-- what a decision of the manager binds while a stage is the current one
abbrev pub gate_outputs : StageKind → List String
gate_outputs implementation = "frozen-candidate" ∷ []
gate_outputs validation = "approved-candidate" ∷ "gate-decision" ∷ []
gate_outputs _ = []

abbrev pub after_stage : StagePlan → List String → List String
after_stage s available = s.required_outputs ++ (gate_outputs s.kind ++ available)

-- each stage finds its inputs among the outputs before it
abbrev pub Fed : List String → List StagePlan → Type 0
Fed available [] = Unit
Fed available (s ∷ stages) =
    (subset s.required_inputs available ≡ true) × Fed (after_stage s available) stages

Within-append : (xs a b : List String) → Within a b → Within (xs ++ a) (xs ++ b)
Within-append xs a b w x h = ground (arith, contains-append x xs a, contains-append x xs b, w x)

pub Within-after_stage :
    (s : StagePlan) (a b : List String) → Within a b → Within (after_stage s a) (after_stage s b)
Within-after_stage s a b w =
    Within-append s.required_outputs (gate_outputs s.kind ++ a) (gate_outputs s.kind ++ b)
      (Within-append (gate_outputs s.kind) a b w)

-- More outputs feed the same stages.
pub Fed-mono :
    (stages : List StagePlan) (a b : List String) → Within a b → Fed a stages → Fed b stages
Fed-mono [] a b w f = tt
Fed-mono (s ∷ stages) a b w f = (
  subset_mono s.required_inputs a b w f.0,
  Fed-mono stages (after_stage s a) (after_stage s b) (Within-after_stage s a b w) f.1,
)

module _ (hashes : Hashes) (goal : GoalDefinition) where
  -- the outputs that are there at the start
  abbrev starting : Bool → List String
  starting true = "goal-draft" ∷ []
  starting false = "goal-draft" ∷ "goal-definition" ∷ "method-decision" ∷ []

  start_ids :
      keys (initial_output_bindings hashes goal (plan goal))
      ≡ starting (is_exploring (reasons_for goal))
  unfolding initial_output_bindings plan build_stage
  start_ids = elim (Bool-cases (is_exploring (reasons_for goal))) [ inl e ↦ rw e | inr e ↦ rw e ]

  Fed-stages : (b : Bool) → Fed (starting b) (stages_of goal b)
  unfolding stages_of build_stage stage_artifacts
  Fed-stages true =
      (refl, (refl, (refl, (refl, (refl, (refl, (refl, (refl, (refl, (refl, tt))))))))))
  Fed-stages false = (refl, (refl, (refl, (refl, (refl, (refl, (refl, (refl, tt))))))))

  -- In every plan, with the bindings that a mission starts from, each stage has its required
  -- inputs once the stages before it have delivered their outputs and decisions.
  pub plan-Fed : Fed (keys (initial_output_bindings hashes goal (plan goal))) (plan goal).stages
  unfolding plan
  plan-Fed = rw start_ids (Fed-stages (is_exploring (reasons_for goal)))
