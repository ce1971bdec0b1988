-- ===== src/Methodology/Order.antt =====
-- When a plan is of the production track, and where a failed stage returns to.
use sdlc_harness.Prelude.{
  String, ◌≡◌, ◌≢◌, refl, Bool, true, false, Option, none, some, List, [], ◌∷◌, ◌++◌, All, ◌↔◌, any,
  if◌then◌else◌,
}
use sdlc_harness.Dict.{Dict, get}
use sdlc_harness.Methodology.{
  KnowledgeStatus, StageKind, StagePlan, GoalDefinition, unverified, conflict, confirmed, inferred,
  exploration, production, same_stage, plan_stage, find_stage,
}
use sdlc_harness.Methodology.Planner.{
  critical_fields, is_none, is_empty, field_reasons, reasons_of, reasons_for, is_exploring,
  build_stage, stages_of, plan,
}

-- a critical field that the planner takes as settled
abbrev IsSettled : Dict KnowledgeStatus → String × Bool → Type 0
IsSettled status (name, unset) =
    (unset ≡ false) × (get name status ≢ some conflict) × (get name status ≢ some unverified)

settled_field :
    (name : String) (o : Option KnowledgeStatus) (unset : Bool)
    → (field_reasons name o unset ≡ [])
      ↔ ((unset ≡ false) × (o ≢ some conflict) × (o ≢ some unverified))
settled_field name none true = (λ h. cc, λ h. cc (h.0))
settled_field name none false = (λ _. (refl, (λ e. cc), (λ e. cc)), λ _. refl)
settled_field name (some conflict) unset = (λ h. cc, λ h. absurd (h.1 refl))
settled_field name (some unverified) unset = (λ h. cc, λ h. absurd (h.2 refl))
settled_field name (some confirmed) true = (λ h. cc, λ h. cc (h.0))
settled_field name (some confirmed) false = (λ _. (refl, (λ e. cc), (λ e. cc)), λ _. refl)
settled_field name (some inferred) true = (λ h. cc, λ h. cc (h.0))
settled_field name (some inferred) false = (λ _. (refl, (λ e. cc), (λ e. cc)), λ _. refl)

append_nil_iff : (xs ys : List String) → (xs ++ ys ≡ []) ↔ ((xs ≡ []) × (ys ≡ []))
append_nil_iff [] ys = (λ h. (refl, h), λ h. h.1)
append_nil_iff (x ∷ xs) ys = (λ h. cc, λ h. cc (h.0))

reasons_of-nil :
    (status : Dict KnowledgeStatus) (fields : List (String × Bool))
    → (reasons_of status fields ≡ []) ↔ All (IsSettled status) fields
unfolding reasons_of
reasons_of-nil status [] = (λ _. tt, λ _. refl)
reasons_of-nil status ((name, unset) ∷ fields) =
    let field = settled_field name (get name status) unset in
    let rest = reasons_of-nil status fields in
    let both =
      append_nil_iff (field_reasons name (get name status) unset) (reasons_of status fields) in
    ((λ h. (field.0 (both.0 h).0, rest.0 (both.0 h).1)), (λ h. both.1 (field.1 h.0, rest.1 h.1)))

no_reasons :
    (rs : List String)
    → (if is_exploring rs then exploration else production) ≡ production
    → rs ≡ []
no_reasons [] h = refl
no_reasons (r ∷ rs) h = cc

-- no status that the planner takes as open
abbrev pub IsUsable : GoalDefinition → String → Type 0
IsUsable goal name =
    (get name goal.field_status ≢ some conflict) × (get name goal.field_status ≢ some unverified)

-- a goal that has everything that a production plan needs
pub record IsClear (goal : GoalDefinition) : Type 0 where
  pub decision_action : (goal.decision_action ≢ none) × IsUsable goal "decision_action"
  pub outcome : (goal.outcome ≢ none) × IsUsable goal "outcome"
  pub population : (goal.population ≢ none) × IsUsable goal "population"
  pub analysis_unit : (goal.analysis_unit ≢ none) × IsUsable goal "analysis_unit"
  pub time_horizon : (goal.time_horizon ≢ none) × IsUsable goal "time_horizon"
  pub constraints : (goal.constraints ≢ []) × IsUsable goal "constraints"
  pub question_type : (goal.question_type ≢ none) × IsUsable goal "question_type"
  pub data_description : (goal.data_description ≢ none) × IsUsable goal "data_description"
  pub decision_threshold : (goal.decision_threshold ≢ none) × IsUsable goal "decision_threshold"

given : (o : Option String) → (is_none o ≡ false) ↔ (o ≢ none)
given none = (λ h. cc, λ h. absurd (h refl))
given (some x) = (λ _ e. cc, λ _. refl)

filled : (xs : List String) → (is_empty xs ≡ false) ↔ (xs ≢ [])
filled [] = (λ h. cc, λ h. absurd (h refl))
filled (x ∷ xs) = (λ _ e. cc, λ _. refl)

IsSettled-IsClear :
    (goal : GoalDefinition)
    → All (IsSettled goal.field_status) (critical_fields goal) ↔ IsClear goal
unfolding critical_fields
IsSettled-IsClear goal = (
  (λ (a, (b, (c, (d, (e, (f, (g, (h, (i, _))))))))). record {
    decision_action = ((given goal.decision_action).0 a.0, (a.1, a.2));
    outcome = ((given goal.outcome).0 b.0, (b.1, b.2));
    population = ((given goal.population).0 c.0, (c.1, c.2));
    analysis_unit = ((given goal.analysis_unit).0 d.0, (d.1, d.2));
    time_horizon = ((given goal.time_horizon).0 e.0, (e.1, e.2));
    constraints = ((filled goal.constraints).0 f.0, (f.1, f.2));
    question_type = ((given goal.question_type).0 g.0, (g.1, g.2));
    data_description = ((given goal.data_description).0 h.0, (h.1, h.2));
    decision_threshold = ((given goal.decision_threshold).0 i.0, (i.1, i.2));
  }),
  (λ k. (
    (
      (given goal.decision_action).1 k.decision_action.0,
      k.decision_action.1.0,
      k.decision_action.1.1,
    ),
    (
      ((given goal.outcome).1 k.outcome.0, k.outcome.1.0, k.outcome.1.1),
      (
        ((given goal.population).1 k.population.0, k.population.1.0, k.population.1.1),
        (
          (
            (given goal.analysis_unit).1 k.analysis_unit.0,
            k.analysis_unit.1.0,
            k.analysis_unit.1.1,
          ),
          (
            ((given goal.time_horizon).1 k.time_horizon.0, k.time_horizon.1.0, k.time_horizon.1.1),
            (
              ((filled goal.constraints).1 k.constraints.0, k.constraints.1.0, k.constraints.1.1),
              (
                (
                  (given goal.question_type).1 k.question_type.0,
                  k.question_type.1.0,
                  k.question_type.1.1,
                ),
                (
                  (
                    (given goal.data_description).1 k.data_description.0,
                    k.data_description.1.0,
                    k.data_description.1.1,
                  ),
                  (
                    (
                      (given goal.decision_threshold).1 k.decision_threshold.0,
                      k.decision_threshold.1.0,
                      k.decision_threshold.1.1,
                    ),
                    tt,
                  ),
                ),
              ),
            ),
          ),
        ),
      ),
    ),
  )),
)

-- A plan is of the production track exactly when the goal names its decision or action, outcome,
-- population, unit of analysis, time horizon, constraints, question type, data and decision
-- threshold, and the status of none of these nine fields is conflict or unverified.
pub production_iff : (goal : GoalDefinition) → ((plan goal).track ≡ production) ↔ IsClear goal
unfolding plan
production_iff goal =
    let nil = reasons_of-nil goal.field_status (critical_fields goal) in
    let clear = IsSettled-IsClear goal in
    ((λ h. clear.0 (nil.0 (no_reasons (reasons_for goal) h))), (λ c. rw (nil.1 (clear.1 c))))

abbrev pub returns_to : List StageKind → Option StageKind → Bool
returns_to [] none = true
returns_to (_ ∷ _) none = false
returns_to before (some k) = any (same_stage k) before

-- the first stage may have no failure return; that of each other stage names a stage before it
abbrev pub ReturnsBack : List StageKind → List StagePlan → Type 0
ReturnsBack before [] = Unit
ReturnsBack before (s ∷ stages) =
    (returns_to before s.failure_return ≡ true) × ReturnsBack (s.kind ∷ before) stages

returns_back : (goal : GoalDefinition) (b : Bool) → ReturnsBack [] (stages_of goal b)
unfolding stages_of build_stage
returns_back goal true =
    (refl, (refl, (refl, (refl, (refl, (refl, (refl, (refl, (refl, (refl, tt))))))))))
returns_back goal false = (refl, (refl, (refl, (refl, (refl, (refl, (refl, (refl, tt))))))))

-- In every plan each stage but the first has a failure return, and it names a stage that comes
-- before it in the plan.
pub plan-ReturnsBack : (goal : GoalDefinition) → ReturnsBack [] (plan goal).stages
unfolding plan
plan-ReturnsBack goal = returns_back goal (is_exploring (reasons_for goal))

found_stages :
    (goal : GoalDefinition) (b : Bool)
    → All (λ s. find_stage s.kind (stages_of goal b) ≡ some s) (stages_of goal b)
unfolding find_stage stages_of build_stage
found_stages goal true =
    (refl, (refl, (refl, (refl, (refl, (refl, (refl, (refl, (refl, (refl, tt))))))))))
found_stages goal false = (refl, (refl, (refl, (refl, (refl, (refl, (refl, (refl, tt))))))))

-- Every stage of a plan is the one that `stage` finds by its kind.
pub plan_stage-plan :
    (goal : GoalDefinition) → All (λ s. plan_stage (plan goal) s.kind ≡ some s) (plan goal).stages
unfolding plan plan_stage
plan_stage-plan goal = found_stages goal (is_exploring (reasons_for goal))
