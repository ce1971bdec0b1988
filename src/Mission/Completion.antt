-- ===== src/Mission/Completion.antt =====
-- src/agent_harness/mission.py: what has happened to a mission that is completed.
use sdlc_harness.Prelude.{
  ℕ, zero, suc, ◌+◌, String, ◌≡◌, refl, sym, subst, Bool, true, false, some, List, [], ◌∷◌,
  Bool-cases, inl, inr, arith, is_some, eqb, length, get_elem?, contains,
}
use sdlc_harness.Handoff.{Handoff}
use sdlc_harness.Methodology.{GoalDefinition, StagePlan, same_stage, implementation, release}
use sdlc_harness.Methodology.Planner.{plan, stages_of, build_stage, is_exploring, reasons_for}
use sdlc_harness.Mission.{Hashes, Mission, stage_here, available_outputs}
use sdlc_harness.Mission.Manager.{create_mission, frozen_mission}
use sdlc_harness.Mission.Stages.{gate_open, last}
use sdlc_harness.Mission.Supply.{Supplied}
use sdlc_harness.Mission.Advance.{Advanced, advance-Advanced}
use sdlc_harness.Mission.Steps.{
  Step, Reached, issued, received, steers, freezes, approves, releases, advances, created, and_then,
  issue_ok, receive_ok, steer_ok, freeze_ok, approve_ok, release_ok,
}
use sdlc_harness.Mission.Issue.{Reached-Supplied}

last_elem :
    {A : Type 0} (xs : List A) (i : ℕ) {x : A}
    → get_elem? xs i ≡ some x
    → (i + 1) ≡ length xs
    → last xs ≡ some x
last_elem [] i h e = cc
last_elem (y ∷ []) zero h e = ground arith
last_elem (y ∷ []) (suc i) h e = cc
last_elem (y ∷ z ∷ xs) zero h e = absurd (omega arith)
last_elem (y ∷ z ∷ xs) (suc i) h e = rw (last_elem (z ∷ xs) i h (omega arith)) refl

ends_in_release :
    (goal : GoalDefinition) (b : Bool) {x : StagePlan}
    → last (stages_of goal b) ≡ some x
    → x.kind ≡ release
unfolding stages_of build_stage
ends_in_release goal true h = cc
ends_in_release goal false h = cc

at_end :
    (m : Mission) {here : StagePlan}
    → m.plan ≡ plan m.goal
    → stage_here m ≡ some here
    → (m.current_stage_index + 1) ≡ length m.plan.stages
    → here.kind ≡ release
unfolding plan
at_end m {here} planned at e = ends_in_release m.goal (is_exploring (reasons_for m.goal)) (
    subst (λ p. last p.stages ≡ some here) planned
      (last_elem m.plan.stages m.current_stage_index at e))

-- the flags of a mission, in the order in which they are set
record Finishes (m : Mission) : Type 0 where
  released : is_some m.release_artifact_sha256 ≡ true → m.candidate_approved ≡ true
  at_last : m.completed ≡ true → (m.current_stage_index + 1) ≡ length m.plan.stages
  done : m.completed ≡ true → is_some m.release_artifact_sha256 ≡ true

create-Finishes :
    (hashes : Hashes) (id : String) (goal : GoalDefinition)
    → Finishes (create_mission hashes id goal)
unfolding create_mission
create-Finishes hashes id goal = record { released = λ h. cc; at_last = λ h. cc; done = λ h. cc }

frozen-Finishes :
    (m : Mission) (c digest : String) {here : StagePlan}
    → Supplied m
    → Finishes m
    → stage_here m ≡ some here
    → same_stage here.kind implementation ≡ true
    → Finishes (frozen_mission m c digest)
frozen-Finishes m c digest {here} s f at k = record {
  released = λ h. cc;
  at_last = f.at_last;
  done = λ h.
      let e = at_end m s.planned at (f.at_last h) in
      let n = subst (λ k. same_stage k implementation ≡ true) e k in absurd (ground (arith, n));
}

advance-Finishes :
    (m : Mission) {m' : Mission} → Supplied m → Finishes m → Advanced m m' → Finishes m'
unfolding gate_open
advance-Finishes m s f a =
    subst Finishes (sym a.next)
      (elim (Bool-cases (eqb (m.current_stage_index + 1) (length m.plan.stages))) [
        | inl at_last ↦
            let k = at_end m s.planned a.at_stage (ground arith) in
            rw at_last (record {
              released = f.released;
              at_last = λ _. ground arith;
              done = λ _. subst (λ k. gate_open m k ≡ true) k a.opened;
            })
        | inr more ↦ rw more (record {
          released = f.released;
          at_last = λ h. absurd (ground (arith, h, a.going));
          done = λ h. absurd (ground (arith, h, a.going));
        })
      ])

module _ (hashes : Hashes) (schema_valid : Handoff → Bool) where
  Step-Finishes :
      {m m' : Mission} → Step hashes schema_valid m m' → Supplied m → Finishes m → Finishes m'
  Step-Finishes {m} (issued stage role c task attempt t m' h) s f =
      subst Finishes (sym (issue_ok m stage role c task attempt h))
        (record { released = f.released; at_last = f.at_last; done = f.done })
  Step-Finishes {m} (received disk inbox inbox' r d m' h) s f =
      elim (receive_ok hashes schema_valid disk m inbox r h) [
        | inl same ↦ subst Finishes (sym same) f
        | inr (t, _, e) ↦
            subst Finishes (sym e)
              (record { released = f.released; at_last = f.at_last; done = f.done })
      ]
  Step-Finishes {m} (steers goal instruction m' h) s f =
      subst Finishes (sym (steer_ok hashes m goal instruction h))
        (record { released = λ h. cc; at_last = λ h. cc; done = λ h. cc })
  Step-Finishes {m} (freezes c digest m' h) s f =
      let (_, at, k, e) = freeze_ok m c digest h in
      subst Finishes (sym e) (frozen-Finishes m c digest s f at k)
  Step-Finishes {m} (approves c reference m' h) s f =
      let (a, e) = approve_ok hashes m c reference h in
      subst Finishes (sym e) (record { released = λ _. refl; at_last = f.at_last; done = f.done })
  Step-Finishes {m} (releases c digest reference m' h) s f =
      let (_, approved, e) = release_ok m c digest reference h in
      subst Finishes (sym e)
        (record { released = λ _. approved; at_last = f.at_last; done = λ _. refl })
  Step-Finishes {m} (advances m' h) s f = advance-Finishes m s f (advance-Advanced m h)

  Reached-Finishes : (m : Mission) → Reached hashes schema_valid m → Finishes m
  Reached-Finishes _ (created id goal) = create-Finishes hashes id goal
  Reached-Finishes _ (and_then m m' r step) =
      Step-Finishes step (Reached-Supplied hashes schema_valid m r) (Reached-Finishes m r)

  -- A mission that its calls have led to and that is completed has a candidate that is frozen and
  -- approved, with both decisions among its outputs, and a release package.
  pub completed-Reached :
      (m : Mission)
      → Reached hashes schema_valid m
      → m.completed ≡ true
      → (is_some m.active_candidate_id ≡ true)
        × (m.candidate_approved ≡ true)
        × (is_some m.release_artifact_sha256 ≡ true)
        × (contains "approved-candidate" (available_outputs m) ≡ true)
        × (contains "gate-decision" (available_outputs m) ≡ true)
  completed-Reached m reached h =
      let s = Reached-Supplied hashes schema_valid m reached in
      let f = Reached-Finishes m reached in
      let approved = f.released (f.done h) in
      let (active, a, g) = s.approved approved in (active, approved, f.done h, a, g)
