-- ===== src/Plugin/Open.antt =====
-- src/agent_harness/plugin_service.py: `_operations_for_task` as a relation of a task and an
-- operation.
use sdlc_harness.Prelude.{
  String, ◌≡◌, ◌≢◌, ◌⊎◌, refl, sym, true, List, [], ◌∷◌, ◌++◌, ◌==◌, eq_iff, contains, arith,
  Bool-cases, inl, inr,
}
use sdlc_harness.Methodology.{
  StageKind, same_stage, scope_risk, goal_discovery, method_discovery, requirements, oracle, design,
  implementation, integration_verification, validation, release,
}
use sdlc_harness.Mission.{WorkTask}
use sdlc_harness.Plugin.{operations_for_task, stage_operations}

-- what a task of a stage is open to while it is not interrupted
pub data IsWork (kind : StageKind) (operation : String) : Type 0 where
  submits : operation ≡ "submit-result" → IsWork kind operation
  checkpoints : operation ≡ "record-checkpoint" → IsWork kind operation
  interrupts : operation ≡ "interrupt-attempt" → IsWork kind operation
  freezes : kind ≡ implementation → operation ≡ "freeze-candidate" → IsWork kind operation
  records_integration :
      kind ≡ integration_verification → operation ≡ "record-evidence" → IsWork kind operation
  records_validation : kind ≡ validation → operation ≡ "record-evidence" → IsWork kind operation
  approves : kind ≡ validation → operation ≡ "approve-candidate" → IsWork kind operation
  packages : kind ≡ release → operation ≡ "package-release" → IsWork kind operation

-- An interrupted task is open to a retry only, and a task that is not to the work of its stage.
pub data IsOpen (t : WorkTask) (operation : String) : Type 0 where
  retries : t.status ≡ "interrupted" → operation ≡ "retry-attempt" → IsOpen t operation
  works : t.status ≢ "interrupted" → IsWork t.stage operation → IsOpen t operation

first_or_rest :
    (x y : String) (ys : List String)
    → contains x (y ∷ ys) ≡ true
    → (x ≡ y) ⊎ (contains x ys ≡ true)
first_or_rest x y ys h = elim (Bool-cases (y == x)) [
  | inl same ↦ inl (sym ((eq_iff y x).0 same))
  | inr other ↦ inr (rw other at h)
]

only : (x y : String) → contains x (y ∷ []) ≡ true → x ≡ y
only x y h = elim (first_or_rest x y [] h) [ inl e ↦ e | inr none_left ↦ cc ]

stage_operations-IsWork :
    (kind : StageKind) (operation : String)
    → contains operation (stage_operations kind) ≡ true
    → IsWork kind operation
stage_operations-IsWork implementation o h = freezes refl (only o _ h)
stage_operations-IsWork integration_verification o h = records_integration refl (only o _ h)
stage_operations-IsWork release o h = packages refl (only o _ h)
stage_operations-IsWork validation o h =
    elim (first_or_rest o "record-evidence" ("approve-candidate" ∷ []) h) [
      | inl e ↦ records_validation refl e
      | inr rest ↦ approves refl (only o _ rest)
    ]
stage_operations-IsWork _ o h = cc

IsWork-of_task :
    (kind : StageKind) (o : String)
    → contains o (
        ("submit-result" ∷ "record-checkpoint" ∷ "interrupt-attempt" ∷ []) ++ stage_operations kind)
      ≡ true
    → IsWork kind o
IsWork-of_task kind o h =
    let steps = stage_operations kind in
    let after_checkpoint = "interrupt-attempt" ∷ steps in
    let after_submit = "record-checkpoint" ∷ after_checkpoint in
    elim (first_or_rest o "submit-result" after_submit h) [
      | inl e ↦ submits e
      | inr a ↦ elim (first_or_rest o "record-checkpoint" after_checkpoint a) [
        | inl e ↦ checkpoints e
        | inr b ↦ elim (first_or_rest o "interrupt-attempt" steps b) [
          | inl e ↦ interrupts e
          | inr c ↦ stage_operations-IsWork kind o c
        ]
      ]
    ]

pub operations_for_task-IsOpen :
    (t : WorkTask) (operation : String)
    → contains operation (operations_for_task t) ≡ true
    → IsOpen t operation
unfolding operations_for_task
operations_for_task-IsOpen t operation h = elim (Bool-cases (t.status == "interrupted")) [
  | inl stopped ↦
      retries ((eq_iff t.status "interrupted").0 stopped) (only operation _ (rw stopped at h))
  | inr active ↦
      works (λ e. absurd (ground (arith, (eq_iff t.status "interrupted").1 e)))
        (IsWork-of_task t.stage operation (rw active at h))
]

pub same_stage_sound : (a b : StageKind) → same_stage a b ≡ true → a ≡ b
same_stage_sound scope_risk scope_risk h = refl
same_stage_sound goal_discovery goal_discovery h = refl
same_stage_sound method_discovery method_discovery h = refl
same_stage_sound requirements requirements h = refl
same_stage_sound oracle oracle h = refl
same_stage_sound design design h = refl
same_stage_sound implementation implementation h = refl
same_stage_sound integration_verification integration_verification h = refl
same_stage_sound validation validation h = refl
same_stage_sound release release h = refl
same_stage_sound _ _ h = cc
