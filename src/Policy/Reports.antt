-- ===== src/Policy/Reports.antt =====
-- The operations that the manager performs and the engine reports: steering, decisions, results.
use sdlc_harness.Prelude.{
  String, ◌≡◌, refl, sym, subst, ap, ◌∙◌, Bool, none, some, List, [], ◌∷◌, ok, Option-cases, inl,
  inr, arith,
}
use sdlc_harness.Dict.{get}
use sdlc_harness.Methodology.{StagePlan, GoalDefinition, stage_value}
use sdlc_harness.Handoff.{Disk, Handoff}
use sdlc_harness.Mission.{
  Hashes, Mission, WorkTask, AgentResult, ResultDisposition, accepted_as_input,
  quarantined_foreign_mission, stage_here,
}
use sdlc_harness.Mission.Manager.{
  on_tasks, accept, set_status, steered, go_stale, frozen_mission, freeze_task, approved_mission,
  released_mission,
}
use sdlc_harness.Mission.Manager as Manager
use sdlc_harness.Mission.Steps.{steer_ok, freeze_ok, approve_ok, release_ok, receive_ok}
use sdlc_harness.Workflow.{
  EventBody, WorkflowEvent, Payload, EventType, find_command, revision_started, candidate_frozen,
  quality_decided, package_created, result_received,
}
use sdlc_harness.Workflow.Projection.{
  WorkflowProjection, AttemptProjection, apply_type, put_attempt,
}
use sdlc_harness.Policy.{go_on, key_error, Stamp, emit, give}
use sdlc_harness.Policy.Engine as Engine
use sdlc_harness.Policy.Engine.{event, report_result}
use sdlc_harness.Policy.Follows.{emit-Follows, give_ok, found_ok, managed_ok}
use sdlc_harness.Policy.Agrees.{Agrees, on_tasks-SameTasks, put-SameTasks}
use sdlc_harness.Policy.Refines.{Tracks, moved, quiet, attempt_tracked}
use sdlc_harness.Policy.Stages.{go_stale-shown, freeze_task-shown}

-- A change of the manager that the projection does not show.
frozen-Agrees :
    (m : Mission) (c d : String) (p : WorkflowProjection)
    → Agrees m p
    → Agrees (frozen_mission m c d) p
frozen-Agrees m c d p a = record {
  revision = a.revision;
  stage = a.stage;
  completed = a.completed;
  tasks = on_tasks-SameTasks (freeze_task m c) m.tasks p (freeze_task-shown m c) a.tasks;
}

approved-Agrees :
    (hashes : Hashes) (m : Mission) (c r : String) (p : WorkflowProjection)
    → Agrees m p
    → Agrees (approved_mission hashes m c r) p
approved-Agrees hashes m c r p a = record {
  revision = a.revision;
  stage = a.stage;
  completed = a.completed;
  tasks = a.tasks;
}

released-Agrees :
    (m : Mission) (d r : String) (p : WorkflowProjection)
    → Agrees m p
    → Agrees (released_mission m d r) p
released-Agrees m d r p a = record {
  revision = a.revision;
  stage = a.stage;
  completed = a.completed;
  tasks = a.tasks;
}

accept-Agrees :
    (m : Mission) (t : WorkTask) (r : AgentResult) (p : WorkflowProjection)
    → get r.task_id m.tasks ≡ some t
    → Agrees m p
    → Agrees (accept m t r) p
accept-Agrees m t r p known a = record {
  revision = a.revision;
  stage = a.stage;
  completed = a.completed;
  tasks =
      put-SameTasks r.task_id t (set_status "result-received" t) m.tasks p known refl refl refl
        a.tasks;
}

module _ (digest : EventBody → String) (canonical_json : Payload → String) where
  steered_tracked :
      (hashes : Hashes) (m : Mission) (goal : GoalDefinition) (instruction : String)
      (here : StagePlan) (command_id : String) (s : Stamp) (rows : List WorkflowEvent)
      {e : WorkflowEvent} {rows' : List WorkflowEvent}
      → stage_here (steered hashes m goal instruction) ≡ some here
      → emit digest canonical_json
          (event
            (steered hashes m goal instruction)
            revision_started
            (("stage", some (stage_value here.kind)) ∷ ("reason", some instruction) ∷ [])
            command_id)
          s
          rows
        ≡ (ok e, rows')
      → find_command command_id rows ≡ none
      → Tracks digest canonical_json m rows
      → Tracks digest canonical_json (steered hashes m goal instruction) rows'
  unfolding apply_type
  steered_tracked hashes m goal instruction here command_id s rows at h new before =
      emit-Follows digest canonical_json (Agrees m) (Agrees (steered hashes m goal instruction)) _ s
        rows h new
        (λ p a. (
          _,
          refl,
          refl,
          record {
            revision = refl;
            stage = rw at refl;
            completed = refl;
            tasks =
                let k = on_tasks-SameTasks go_stale m.tasks p go_stale-shown a.tasks in
                record { same = k.same; attempts = k.attempts; own = k.own };
          },
        ))
        before

  pub steer_tracked :
      (hashes : Hashes) (m : Mission) (goal : GoalDefinition) (instruction command_id : String)
      (s : Stamp) (rows : List WorkflowEvent) {m' : Mission} {rows' : List WorkflowEvent}
      → Engine.apply_user_steering digest canonical_json hashes m goal instruction command_id s rows
        ≡ (ok m', rows')
      → find_command command_id rows ≡ none
      → Tracks digest canonical_json m rows
      → Tracks digest canonical_json m' rows'
  unfolding Engine.apply_user_steering
  steer_tracked hashes m goal instruction command_id s rows {m'} {rows'} h new before =
      let (after, moves, a) =
        managed_ok (Manager.apply_user_steering hashes m goal instruction) _ rows h in
      let made = steer_ok hashes m goal instruction moves in
      elim (Option-cases (stage_here after)) [
        | inl nowhere ↦ absurd (ground (arith, rw nowhere at a))
        | inr (here, at) ↦
            let (e, done, same) =
              give_ok
                (emit digest canonical_json
                  (event after revision_started
                    (("stage", some (stage_value here.kind)) ∷ ("reason", some instruction) ∷ [])
                    command_id)
                  s rows)
                after (rw at at a) in
            subst (λ x. Tracks digest canonical_json x rows') (sym made ∙ same)
              (steered_tracked hashes m goal instruction here command_id s rows
                (subst (λ x. stage_here x ≡ some here) made at)
                (subst
                  (λ x.
                    emit digest canonical_json
                      (event x revision_started
                        (("stage", some (stage_value here.kind))
                          ∷ ("reason", some instruction)
                          ∷ [])
                        command_id)
                      s rows
                    ≡ (ok e, rows'))
                  made done)
                new before)
      ]

  -- A decision of the manager that is reported by an event without effect.
  reported :
      (m after : Mission) (event_type : EventType) (payload : Payload) (command_id : String)
      (s : Stamp) (rows : List WorkflowEvent) {m' : Mission} {rows' : List WorkflowEvent}
      → ((e : WorkflowEvent) (p : WorkflowProjection) → apply_type event_type e p ≡ ok p)
      → after.mission_id ≡ m.mission_id
      → ((p : WorkflowProjection) → Agrees m p → Agrees after p)
      → go_on
          (emit digest canonical_json (event after event_type payload command_id) s rows)
          (λ _. give after)
        ≡ (ok m', rows')
      → find_command command_id rows ≡ none
      → Tracks digest canonical_json m rows
      → Tracks digest canonical_json m' rows'
  reported m after event_type payload command_id s rows {m'} {rows'} nothing same_id keeps h new
        before =
      let (e, done, same) =
        give_ok (emit digest canonical_json (event after event_type payload command_id) s rows)
          after h in
      subst (λ x. Tracks digest canonical_json x rows') same
        (quiet digest canonical_json after event_type payload command_id s rows nothing done new
          (moved digest canonical_json rows same_id keeps before))

  pub freeze_tracked :
      (m : Mission) (c d command_id : String) (s : Stamp) (rows : List WorkflowEvent) {m' : Mission}
      {rows' : List WorkflowEvent}
      → Engine.bind_candidate digest canonical_json m c d command_id s rows ≡ (ok m', rows')
      → find_command command_id rows ≡ none
      → Tracks digest canonical_json m rows
      → Tracks digest canonical_json m' rows'
  unfolding Engine.bind_candidate apply_type
  freeze_tracked m c d command_id s rows h new before =
      let (after, moves, a) = managed_ok (Manager.bind_candidate m c d) _ rows h in
      let (_, _, _, made) = freeze_ok m c d moves in
      reported m after candidate_frozen _ command_id s rows (λ e p. refl)
        (ap (λ (x : Mission). x.mission_id) made)
        (λ p g. subst (λ x. Agrees x p) (sym made) (frozen-Agrees m c d p g)) a new before

  pub approve_tracked :
      (hashes : Hashes) (m : Mission) (c command_id : String) (s : Stamp)
      (rows : List WorkflowEvent) {m' : Mission} {rows' : List WorkflowEvent}
      → Engine.mark_candidate_approved digest canonical_json hashes m c command_id s rows
        ≡ (ok m', rows')
      → find_command command_id rows ≡ none
      → Tracks digest canonical_json m rows
      → Tracks digest canonical_json m' rows'
  unfolding Engine.mark_candidate_approved apply_type
  approve_tracked hashes m c command_id s rows h new before =
      let (after, moves, a) =
        managed_ok (Manager.mark_candidate_approved hashes m c command_id) _ rows h in
      let (_, made) = approve_ok hashes m c command_id moves in
      reported m after quality_decided _ command_id s rows (λ e p. refl)
        (ap (λ (x : Mission). x.mission_id) made)
        (λ p g. subst (λ x. Agrees x p) (sym made) (approved-Agrees hashes m c command_id p g)) a
        new before

  pub release_tracked :
      (m : Mission) (c d command_id : String) (s : Stamp) (rows : List WorkflowEvent) {m' : Mission}
      {rows' : List WorkflowEvent}
      → Engine.bind_release digest canonical_json m c d command_id s rows ≡ (ok m', rows')
      → find_command command_id rows ≡ none
      → Tracks digest canonical_json m rows
      → Tracks digest canonical_json m' rows'
  unfolding Engine.bind_release apply_type
  release_tracked m c d command_id s rows h new before =
      let (after, moves, a) = managed_ok (Manager.bind_release m c d command_id) _ rows h in
      let (_, _, made) = release_ok m c d command_id moves in
      reported m after package_created _ command_id s rows (λ e p. refl)
        (ap (λ (x : Mission). x.mission_id) made)
        (λ p g. subst (λ x. Agrees x p) (sym made) (released-Agrees m d command_id p g)) a new
        before

  result_event :
      (t : WorkTask) (hash : String) (e : WorkflowEvent) (p : WorkflowProjection)
      (x : AttemptProjection)
      → e.payload
        ≡ ("task_id", some t.task_id)
          ∷ ("attempt_id", some t.attempt_id)
          ∷ ("payload_sha256", some hash)
          ∷ []
      → get t.attempt_id p.attempts ≡ some x
      → (y : AttemptProjection) × (apply_type result_received e p
          ≡ ok (put_attempt p t.attempt_id y))
  unfolding apply_type
  result_event t hash e p x same known = (record x { status = "completed" }, rw (same, known) refl)

  report_tracked :
      (d : ResultDisposition) (m : Mission) (inbox : List AgentResult) (r : AgentResult)
      (command_id : String) (s : Stamp) (rows : List WorkflowEvent) {d' : ResultDisposition}
      {m' : Mission} {inbox' : List AgentResult} {rows' : List WorkflowEvent}
      → report_result digest canonical_json d m inbox r command_id s rows
        ≡ (ok (d', m', inbox'), rows')
      → find_command command_id rows ≡ none
      → Tracks digest canonical_json m rows
      → Tracks digest canonical_json m' rows'
  report_tracked accepted_as_input m inbox r command_id s rows {d'} {m'} {inbox'} {rows'} h new
        before =
      let (t, known, a) = found_ok key_error (get r.task_id m.tasks) _ rows h in
      let (e, done, same) =
        give_ok
          (emit digest canonical_json
            (event m result_received
              (("task_id", some t.task_id)
                ∷ ("attempt_id", some t.attempt_id)
                ∷ ("payload_sha256", some r.payload_sha256)
                ∷ [])
              command_id)
            s rows)
          (accepted_as_input, m, inbox) a in
      subst (λ x. Tracks digest canonical_json x rows')
        (ap (λ (x : ResultDisposition × Mission × List AgentResult). x.1) same)
        (attempt_tracked digest canonical_json m r.task_id t result_received _ command_id s rows
          (result_event t r.payload_sha256) known done new before)
  report_tracked quarantined_foreign_mission m inbox r command_id s rows {d'} {m'} {inbox'} {rows'}
        h new before =
      let same : m ≡ m' = ground arith in
      let here : rows ≡ rows' = ground arith in
      subst (λ x. Tracks digest canonical_json x rows') same
        (subst (Tracks digest canonical_json m) here before)
  report_tracked _ m inbox r command_id s rows {d'} {m'} {inbox'} {rows'} h new before =
      let same : m ≡ m' = ground arith in
      let here : rows ≡ rows' = ground arith in
      subst (λ x. Tracks digest canonical_json x rows') same
        (subst (Tracks digest canonical_json m) here before)

  pub receive_tracked :
      (hashes : Hashes) (schema_valid : Handoff → Bool) (disk : Disk) (m : Mission)
      (inbox : List AgentResult) (r : AgentResult) (command_id : String) (s : Stamp)
      (rows : List WorkflowEvent) {d : ResultDisposition} {m' : Mission} {inbox' : List AgentResult}
      {rows' : List WorkflowEvent}
      → Engine.receive_result digest canonical_json hashes schema_valid disk m inbox r command_id s
          rows
        ≡ (ok (d, m', inbox'), rows')
      → find_command command_id rows ≡ none
      → Tracks digest canonical_json m rows
      → Tracks digest canonical_json m' rows'
  unfolding Engine.receive_result
  receive_tracked hashes schema_valid disk m inbox r command_id s rows h new before =
      let out = Manager.receive_result hashes schema_valid disk m inbox r in
      report_tracked out.0 out.1 out.2 r command_id s rows h new
        (elim (receive_ok hashes schema_valid disk m inbox r {d = out.0} {m' = out.1}
          {inbox' = out.2} refl) [
            | inl same ↦ subst (λ x. Tracks digest canonical_json x rows) (sym same) before
            | inr (t, taken, made) ↦
                moved digest canonical_json rows (ap (λ (x : Mission). x.mission_id) made)
                  (λ p g. subst (λ x. Agrees x p) (sym made) (accept-Agrees m t r p taken.known g))
                  before
          ])
