-- ===== src/Mission/Steps.antt =====
-- What a mission goes through: the calls of `MissionManager` that change it, in any order.
use sdlc_harness.Prelude.{
  String, ◌⊎◌, eq_iff, ◌≡◌, refl, Bool, true, not, Option, none, some, List, ok, require_ok,
  Bool-cases, inl, inr, arith, opt_eq, eqb, ◌&&◌, ◌==◌, contains, subset,
}
use sdlc_harness.Dict.{get}
use sdlc_harness.Handoff.{Disk, Handoff}
use sdlc_harness.Methodology.{
  GoalDefinition, StageKind, StagePlan, same_stage, implementation, validation, release, roles,
}
use sdlc_harness.Mission.{
  Hashes, Mission, WorkTask, AgentResult, ResultDisposition, accepted_as_input,
  rejected_unexpected_task, rejected_invalid_payload, value_error, gate_denied, stage_here,
  available_outputs,
}
use sdlc_harness.Mission.Results.{has_valid_hash, has_valid_handoff}
use sdlc_harness.Mission.Manager.{
  create_mission, issue_task, receive_result, receive_for, apply_user_steering, bind_candidate,
  mark_candidate_approved, bind_release, found_ok, add_task, accept, expects, steered,
  frozen_mission, approved_mission, released_mission, is_other,
}
use sdlc_harness.Mission.Stages.{advance_if_ready}

module _ (hashes : Hashes) (schema_valid : Handoff → Bool) where
  -- one call that returns, on the disk of its time
  pub data Step (m : Mission) : Mission → Type 0 where
    issued :
        (stage : StageKind) (role : String) (c : Option String) (task attempt : String)
        (t : WorkTask) (m' : Mission)
        → issue_task m stage role c task attempt ≡ ok (t, m')
        → Step m m'
    received :
        (disk : Disk) (inbox inbox' : List AgentResult) (r : AgentResult) (d : ResultDisposition)
        (m' : Mission)
        → receive_result hashes schema_valid disk m inbox r ≡ (d, m', inbox')
        → Step m m'
    steers :
        (goal : GoalDefinition) (instruction : String) (m' : Mission)
        → apply_user_steering hashes m goal instruction ≡ ok m'
        → Step m m'
    freezes : (c digest : String) (m' : Mission) → bind_candidate m c digest ≡ ok m' → Step m m'
    approves :
        (c reference : String) (m' : Mission)
        → mark_candidate_approved hashes m c reference ≡ ok m'
        → Step m m'
    releases :
        (c digest reference : String) (m' : Mission)
        → bind_release m c digest reference ≡ ok m'
        → Step m m'
    advances : (m' : Mission) → advance_if_ready m ≡ ok m' → Step m m'

  -- the missions that the calls lead to
  pub data Reached : Mission → Type 0 where
    created : (id : String) (goal : GoalDefinition) → Reached (create_mission hashes id goal)
    and_then : (m m' : Mission) → Reached m → Step m m' → Reached m'

-- What each call that returns has checked, and what it made of the mission.
pub issue_ok :
    (m : Mission) (stage : StageKind) (role : String) (c : Option String) (task attempt : String)
    {t : WorkTask} {m' : Mission}
    → issue_task m stage role c task attempt ≡ ok (t, m')
    → m' ≡ add_task m t
unfolding issue_task
issue_ok m stage role c task attempt h =
    let (_, a) = require_ok (not m.completed) value_error _ h in
    let (here, _, b) = found_ok (stage_here m) _ a in
    let (_, d) = require_ok (same_stage stage here.kind) value_error _ b in
    let (_, e) = require_ok (contains role (roles here)) value_error _ d in
    let (_, f) = require_ok (subset here.required_inputs (available_outputs m)) gate_denied _ e in
    let (expert, _, g) = found_ok (get role here.expert_profiles) _ f in ground arith

pub steer_ok :
    (hashes : Hashes) (m : Mission) (goal : GoalDefinition) (instruction : String) {m' : Mission}
    → apply_user_steering hashes m goal instruction ≡ ok m'
    → m' ≡ steered hashes m goal instruction
unfolding apply_user_steering
steer_ok hashes m goal instruction h = ground arith

pub freeze_ok :
    (m : Mission) (c digest : String) {m' : Mission}
    → bind_candidate m c digest ≡ ok m'
    → (here : StagePlan) × (stage_here m ≡ some here)
      × (same_stage here.kind implementation ≡ true)
      × (m' ≡ frozen_mission m c digest)
unfolding bind_candidate
freeze_ok m c digest h =
    let (here, at, a) = found_ok (stage_here m) _ h in
    let (k, b) = require_ok (same_stage here.kind implementation) gate_denied _ a in
    let (_, d) = require_ok (not (is_other m.active_candidate_id c)) gate_denied _ b in
    (here, at, k, ground arith)

pub approve_ok :
    (hashes : Hashes) (m : Mission) (c reference : String) {m' : Mission}
    → mark_candidate_approved hashes m c reference ≡ ok m'
    → (opt_eq m.active_candidate_id (some c) ≡ true) × (m' ≡ approved_mission hashes m c reference)
unfolding mark_candidate_approved
approve_ok hashes m c reference h =
    let (here, at, a) = found_ok (stage_here m) _ h in
    let (_, b) = require_ok (same_stage here.kind validation) gate_denied _ a in
    let (active, d) = require_ok (opt_eq m.active_candidate_id (some c)) gate_denied _ b in
    (active, ground arith)

pub release_ok :
    (m : Mission) (c digest reference : String) {m' : Mission}
    → bind_release m c digest reference ≡ ok m'
    → (opt_eq m.active_candidate_id (some c) ≡ true)
      × (m.candidate_approved ≡ true)
      × (m' ≡ released_mission m digest reference)
unfolding bind_release
release_ok m c digest reference h =
    let (here, at, a) = found_ok (stage_here m) _ h in
    let (_, b) = require_ok (same_stage here.kind release) gate_denied _ a in
    let (active, d) = require_ok (opt_eq m.active_candidate_id (some c)) gate_denied _ b in
    let (approved, e) = require_ok m.candidate_approved gate_denied _ d in
    (active, approved, ground arith)

-- A result that is taken: the task it answers, and what it has been checked for.
pub record Taken (hashes : Hashes) (schema_valid : Handoff → Bool) (disk : Disk) (m : Mission)
    (r : AgentResult) (t : WorkTask) : Type 0 where
  pub known : get r.task_id m.tasks ≡ some t
  pub own : r.mission_id ≡ m.mission_id
  pub recent : r.revision ≡ m.revision
  pub expected : expects t r ≡ true
  pub hash : has_valid_hash hashes r ≡ true
  pub handoff : has_valid_handoff schema_valid disk r ≡ true

module _ (hashes : Hashes) (schema_valid : Handoff → Bool) (disk : Disk) where
  receive_for_ok :
      (m : Mission) (inbox : List AgentResult) (r : AgentResult) (o : Option WorkTask)
      → (receive_for hashes schema_valid disk m inbox r o ≡ (rejected_unexpected_task, m, inbox))
        ⊎ ((receive_for hashes schema_valid disk m inbox r o ≡ (rejected_invalid_payload, m, inbox))
            ⊎ ((t : WorkTask) × (o ≡ some t)
                × (expects t r ≡ true)
                × (has_valid_hash hashes r ≡ true)
                × (has_valid_handoff schema_valid disk r ≡ true)
                × (receive_for hashes schema_valid disk m inbox r o
                    ≡ (accepted_as_input, accept m t r, inbox))))
  unfolding receive_for
  receive_for_ok m inbox r none = inl refl
  receive_for_ok m inbox r (some t) = elim (Bool-cases (expects t r)) [
    | inr n ↦ inl (rw n refl)
    | inl e ↦ elim (Bool-cases (has_valid_hash hashes r && has_valid_handoff schema_valid disk r)) [
      | inr n ↦ inr (inl (rw (e, n) refl))
      | inl v ↦ inr (inr (t, refl, e, ground arith, ground arith, rw (e, v) refl))
    ]
  ]

  -- A result is refused, kept aside, or taken by the task that it answers.
  pub receive_ok :
      (m : Mission) (inbox : List AgentResult) (r : AgentResult) {d : ResultDisposition}
      {m' : Mission} {inbox' : List AgentResult}
      → receive_result hashes schema_valid disk m inbox r ≡ (d, m', inbox')
      → (m' ≡ m) ⊎ ((t : WorkTask) × Taken hashes schema_valid disk m r t × (m' ≡ accept m t r))
  unfolding receive_result
  receive_ok m inbox r h = elim (Bool-cases (r.mission_id == m.mission_id)) [
    | inr foreign ↦ inl (ground arith)
    | inl own ↦ elim (Bool-cases (eqb r.revision m.revision)) [
      | inr stale ↦ inl (ground arith)
      | inl recent ↦ elim (receive_for_ok m inbox r (get r.task_id m.tasks)) [
        | inl unexpected ↦ inl (ground arith)
        | inr (inl invalid) ↦ inl (ground arith)
        | inr (inr (t, known, e, hv, v, q)) ↦ inr (
          t,
          record {
            known = known;
            own = (eq_iff r.mission_id m.mission_id).0 own;
            recent = ground arith;
            expected = e;
            hash = hv;
            handoff = v;
          },
          ground arith,
        )
      ]
    ]
  ]
