-- ===== src/Mission/Supply.antt =====
-- The invariant of a mission, whatever its manager does: the stages that are left are supplied,
-- and a decision that a flag records has its output.
use sdlc_harness.Prelude.{
  ℕ, zero, suc, ◌+◌, ◌<◌, String, ◌≡◌, refl, ◌∙◌, true, some, List, [], ◌∷◌, arith, contains,
  Within, length, get_elem?, is_some, eq_iff,
}
use sdlc_harness.Dict.{Dict, put, keys, keys-put}
use sdlc_harness.Methodology.{StagePlan, GoalDefinition}
use sdlc_harness.Methodology.Planner.{plan, stages_of}
use sdlc_harness.Mission.{Hashes, Mission, OutputBinding, available_outputs}
use sdlc_harness.Mission.Manager.{
  create_mission, steered, frozen_mission, approved_mission, released_mission, decided,
}
use sdlc_harness.Mission.Inputs.{Fed, Fed-mono, plan-Fed}

abbrev pub drop : ℕ → List StagePlan → List StagePlan
drop zero xs = xs
drop (suc n) [] = []
drop (suc n) (x ∷ xs) = drop n xs

pub drop_here :
    (n : ℕ) (xs : List StagePlan) {x : StagePlan}
    → get_elem? xs n ≡ some x
    → drop n xs ≡ x ∷ drop (n + 1) xs
drop_here zero [] e = cc
drop_here zero (y ∷ xs) e = ground arith
drop_here (suc n) [] e = cc
drop_here (suc n) (y ∷ xs) e = drop_here n xs e ∙ ground arith

pub record Supplied (m : Mission) : Type 0 where
  pub planned : m.plan ≡ plan m.goal
  pub in_range : m.current_stage_index < length m.plan.stages
  pub fed : Fed (available_outputs m) (drop m.current_stage_index m.plan.stages)
  pub frozen :
      is_some m.active_candidate_id ≡ true
      → contains "frozen-candidate" (available_outputs m) ≡ true
  pub approved :
      m.candidate_approved ≡ true
      → (is_some m.active_candidate_id ≡ true)
        × (contains "approved-candidate" (available_outputs m) ≡ true)
        × (contains "gate-decision" (available_outputs m) ≡ true)

pub has_stages : (goal : GoalDefinition) → 0 < length (plan goal).stages
unfolding plan stages_of
has_stages goal = omega arith

pub create-Supplied :
    (hashes : Hashes) (id : String) (goal : GoalDefinition)
    → Supplied (create_mission hashes id goal)
unfolding create_mission
create-Supplied hashes id goal = record {
  planned = refl;
  in_range = has_stages goal;
  fed = plan-Fed hashes goal;
  frozen = λ h. cc;
  approved = λ h. cc;
}

pub steered-Supplied :
    (hashes : Hashes) (m : Mission) (goal : GoalDefinition) (instruction : String)
    → Supplied (steered hashes m goal instruction)
steered-Supplied hashes m goal instruction = record {
  planned = refl;
  in_range = has_stages goal;
  fed = plan-Fed hashes goal;
  frozen = λ h. cc;
  approved = λ h. cc;
}

pub Within-put :
    (k : String) (b : OutputBinding) (d : Dict OutputBinding) → Within (keys d) (keys (put k b d))
Within-put k b d x h = rw keys-put (ground arith)

pub contains-put :
    (k : String) (b : OutputBinding) (d : Dict OutputBinding) → contains k (keys (put k b d)) ≡ true
contains-put k b d = rw keys-put (ground (arith, eq_iff k k))

pub frozen-Supplied :
    (m : Mission) (c digest : String) → Supplied m → Supplied (frozen_mission m c digest)
frozen-Supplied m c digest s = record {
  planned = s.planned;
  in_range = s.in_range;
  fed = Fed-mono _ _ _ (Within-put "frozen-candidate" _ m.output_bindings) s.fed;
  frozen = λ _. contains-put "frozen-candidate" _ m.output_bindings;
  approved = λ h. cc;
}

pub approved-Supplied :
    (hashes : Hashes) (m : Mission) (c reference : String)
    → is_some m.active_candidate_id ≡ true
    → Supplied m
    → Supplied (approved_mission hashes m c reference)
approved-Supplied hashes m c reference active s = record {
  planned = s.planned;
  in_range = s.in_range;
  fed = Fed-mono _ _ _ grows s.fed;
  frozen = λ h. grows "frozen-candidate" (s.frozen h);
  approved = λ _. (
    active,
    Within-put "gate-decision" gate d "approved-candidate"
        (contains-put "approved-candidate" candidate m.output_bindings),
    contains-put "gate-decision" gate d,
  );
}
  where
    candidate : OutputBinding
    candidate = decided hashes "approved-candidate" c reference

    gate : OutputBinding
    gate = decided hashes "gate-decision" c reference

    d : Dict OutputBinding
    d = put "approved-candidate" candidate m.output_bindings

    grows : Within (available_outputs m) (available_outputs (approved_mission hashes m c reference))
    grows x h =
        Within-put "gate-decision" gate d x
          (Within-put "approved-candidate" candidate m.output_bindings x h)

pub released-Supplied :
    (m : Mission) (digest reference : String)
    → Supplied m
    → Supplied (released_mission m digest reference)
released-Supplied m digest reference s =
    let grows = Within-put "release-package" _ m.output_bindings in
    record {
      planned = s.planned;
      in_range = s.in_range;
      fed = Fed-mono _ _ _ grows s.fed;
      frozen = λ h. grows "frozen-candidate" (s.frozen h);
      approved = λ h.
          let (a, b, c) = s.approved h in
          (a, grows "approved-candidate" b, grows "gate-decision" c);
    }
