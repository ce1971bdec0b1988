-- ===== src/Mission/Issue.antt =====
-- src/agent_harness/mission.py: `issue_task` of a mission that its own calls have led to.
use sdlc_harness.Prelude.{
  ℕ, zero, suc, ◌<◌, String, ◌≡◌, refl, sym, subst, ap, ◌∙◌, Bool, true, false, Option, none, some,
  List, [], ◌∷◌, ok, inl, inr, arith, opt_eq, is_some, contains, map, All, All-get_elem?, length,
  get_elem?, Option-cases,
}
use sdlc_harness.Dict.{get, keys, contains-keys}
use sdlc_harness.Sets.{sorted_set}
use sdlc_harness.Handoff.{Handoff}
use sdlc_harness.Methodology.{
  GoalDefinition, StageKind, StagePlan, same_stage, scope_risk, ExpertProfile, roles,
}
use sdlc_harness.Methodology.Planner.{plan, stages_of, build_stage, is_exploring, reasons_for}
use sdlc_harness.Mission.{Hashes, Mission, WorkTask, stage_here, available_outputs}
use sdlc_harness.Mission.Manager.{issue_task, add_task, accept, new_task}
use sdlc_harness.Mission.Supply.{
  Supplied, create-Supplied, steered-Supplied, frozen-Supplied, approved-Supplied,
  released-Supplied, drop_here,
}
use sdlc_harness.Mission.Inputs.{Fed}
use sdlc_harness.Mission.Advance.{advance-Supplied}
use sdlc_harness.Mission.Steps.{
  Step, Reached, issued, received, steers, freezes, approves, releases, advances, created, and_then,
  issue_ok, receive_ok, steer_ok, freeze_ok, approve_ok, release_ok,
}

add_task-Supplied : (m : Mission) (t : WorkTask) → Supplied m → Supplied (add_task m t)
add_task-Supplied m t s = record {
  planned = s.planned;
  in_range = s.in_range;
  fed = s.fed;
  frozen = s.frozen;
  approved = s.approved;
}

accept-Supplied : (m : Mission) (t : WorkTask) (r : _) → Supplied m → Supplied (accept m t r)
accept-Supplied m t r s = record {
  planned = s.planned;
  in_range = s.in_range;
  fed = s.fed;
  frozen = s.frozen;
  approved = s.approved;
}

active_of : (o : Option String) (c : String) → opt_eq o (some c) ≡ true → is_some o ≡ true
active_of none c h = cc
active_of (some a) c h = refl

module _ (hashes : Hashes) (schema_valid : Handoff → Bool) where
  Step-Supplied : {m m' : Mission} → Step hashes schema_valid m m' → Supplied m → Supplied m'
  Step-Supplied {m} (issued stage role c task attempt t m' h) s =
      subst Supplied (sym (issue_ok m stage role c task attempt h)) (add_task-Supplied m t s)
  Step-Supplied {m} (received disk inbox inbox' r d m' h) s =
      elim (receive_ok hashes schema_valid disk m inbox r h) [
        | inl same ↦ subst Supplied (sym same) s
        | inr (t, _, e) ↦ subst Supplied (sym e) (accept-Supplied m t r s)
      ]
  Step-Supplied {m} (steers goal instruction m' h) s =
      subst Supplied (sym (steer_ok hashes m goal instruction h))
        (steered-Supplied hashes m goal instruction)
  Step-Supplied {m} (freezes c digest m' h) s =
      let (_, _, _, e) = freeze_ok m c digest h in
      subst Supplied (sym e) (frozen-Supplied m c digest s)
  Step-Supplied {m} (approves c reference m' h) s =
      let (a, e) = approve_ok hashes m c reference h in
      subst Supplied (sym e)
        (approved-Supplied hashes m c reference (active_of m.active_candidate_id c a) s)
  Step-Supplied {m} (releases c digest reference m' h) s =
      let (_, _, e) = release_ok m c digest reference h in
      subst Supplied (sym e) (released-Supplied m digest reference s)
  Step-Supplied {m} (advances m' h) s = advance-Supplied m s h

  pub Reached-Supplied : (m : Mission) → Reached hashes schema_valid m → Supplied m
  Reached-Supplied _ (created id goal) = create-Supplied hashes id goal
  Reached-Supplied _ (and_then m m' r step) = Step-Supplied step (Reached-Supplied m r)

-- every role of a stage has its expert
abbrev HasExperts : StagePlan → Type 0
HasExperts s =
    (role : String) → contains role (roles s) ≡ true → is_some (get role s.expert_profiles) ≡ true

keys_pairs : {A : Type 0} (f : String → A) (xs : List String) → keys (map (λ x. (x, f x)) xs) ≡ xs
keys_pairs f [] = refl
keys_pairs f (x ∷ xs) = ap (x ∷◌) (keys_pairs f xs)

build_stage-HasExperts :
    (goal : GoalDefinition) (k : StageKind) (rs : List String) (back : Option StageKind)
    → HasExperts (build_stage goal k rs back)
unfolding build_stage
build_stage-HasExperts goal k rs back role h =
    sym (contains-keys role _)
    ∙ (ap (contains role) (keys_pairs _ (sorted_set rs))
        ∙ (sym (ap (contains role) (keys_pairs _ (sorted_set rs))) ∙ h))

stages-HasExperts : (goal : GoalDefinition) (b : Bool) → All HasExperts (stages_of goal b)
unfolding stages_of
stages-HasExperts goal true =
    let s = build_stage-HasExperts goal in
    (
      s _ _ _,
      (
        s _ _ _,
        (s _ _ _, (s _ _ _, (s _ _ _, (s _ _ _, (s _ _ _, (s _ _ _, (s _ _ _, (s _ _ _, tt)))))))),
      ),
    )
stages-HasExperts goal false =
    let s = build_stage-HasExperts goal in
    (s _ _ _, (s _ _ _, (s _ _ _, (s _ _ _, (s _ _ _, (s _ _ _, (s _ _ _, (s _ _ _, tt))))))))

plan-HasExperts : (goal : GoalDefinition) → All HasExperts (plan goal).stages
unfolding plan
plan-HasExperts goal = stages-HasExperts goal (is_exploring (reasons_for goal))

expert_here :
    (m : Mission) (here : StagePlan) (role : String)
    → Supplied m
    → stage_here m ≡ some here
    → contains role (roles here) ≡ true
    → (x : ExpertProfile) × (get role here.expert_profiles ≡ some x)
expert_here m here role s at h =
    let all = subst (λ p. All HasExperts p.stages) (sym s.planned) (plan-HasExperts m.goal) in
    let has = All-get_elem? HasExperts m.plan.stages m.current_stage_index all at role h in
    elim (Option-cases (get role here.expert_profiles)) [
      | inl e ↦ absurd (ground arith)
      | inr x ↦ x
    ]

in_reach : {A : Type 0} (xs : List A) (i : ℕ) → i < length xs → (x : A) × (get_elem? xs i ≡ some x)
in_reach [] i h = absurd (omega arith)
in_reach (x ∷ xs) zero h = (x, refl)
in_reach (x ∷ xs) (suc i) h = in_reach xs i (omega arith)

same_stage_refl : (k : StageKind) → same_stage k k ≡ true
same_stage_refl scope_risk = refl
same_stage_refl _ = refl

-- A mission that its calls have led to and that is not completed stands at a stage, and
-- `issue_task` gives every role of that stage its task, whatever candidate and ids are passed: no
-- mission waits for an input that no earlier stage delivers.
pub issue-Reached :
    (hashes : Hashes) (schema_valid : Handoff → Bool) (m : Mission)
    → Reached hashes schema_valid m
    → m.completed ≡ false
    → (here : StagePlan) × (stage_here m ≡ some here)
      × ((role : String) (c : Option String) (task attempt : String)
          → contains role (roles here) ≡ true
          → (t : WorkTask) × (issue_task m here.kind role c task attempt ≡ ok (t, add_task m t)))
unfolding issue_task
issue-Reached hashes schema_valid m reached going =
    let s = Reached-Supplied hashes schema_valid m reached in
    let (here, at) = in_reach m.plan.stages m.current_stage_index s.in_range in
    let fed =
      subst (Fed (available_outputs m)) (drop_here m.current_stage_index m.plan.stages at) s.fed in
    (
      here,
      at,
      λ role c task attempt member.
          let (x, known) = expert_here m here role s at member in
          (
            new_task m here.kind role c task attempt x.expert_id,
            rw (going, at, same_stage_refl here.kind, member, fed.0, known) refl,
          ),
    )
