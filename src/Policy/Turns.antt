-- ===== src/Policy/Turns.antt =====
-- The operations on tasks and their attempts, and the creation of a mission.
use sdlc_harness.Prelude.{
  String, ◌≡◌, refl, sym, subst, ap, ◌∙◌, not, Option, none, some, List, [], ◌∷◌, ◌++◌, ok,
  Option-cases, inl, inr, arith,
}
use Prim.Native.String.{◌++◌ as append_text}
use sdlc_harness.Dict.{get}
use sdlc_harness.Methodology.{StageKind, StagePlan, GoalDefinition, stage_value}
use sdlc_harness.Handoff.{Disk, FilePath}
use sdlc_harness.Mission.{Hashes, Mission, WorkTask, stage_here}
use sdlc_harness.Mission.Manager as Manager
use sdlc_harness.Mission.Manager.{create_mission, add_task}
use sdlc_harness.Mission.Steps.{issue_ok}
use sdlc_harness.Workflow.{
  EventBody, WorkflowEvent, Payload, find_command, of_mission, mission_started, task_issued,
  attempt_started, checkpoint_recorded, attempt_interrupted,
}
use sdlc_harness.Workflow.Appends.{IsSound, appended, Outcome-IsSound}
use sdlc_harness.Workflow.Projection.{
  WorkflowProjection, AttemptProjection, apply_type, put_attempt, text,
}
use sdlc_harness.Workflow.Projection.Extend.{rebuild-first_event}
use sdlc_harness.Policy.{Stamp, emit, policy_error, key_error, os_error}
use sdlc_harness.Policy.Engine as Engine
use sdlc_harness.Policy.Engine.{
  event, start_command, issued_payload, started_payload, set_task, with_attempt, issue_new,
  issued_before, retry_new, retry_again, start_attempt, is_active,
}
use sdlc_harness.Policy.Follows.{go_on_ok, give_ok, found_ok, managed_ok, check_ok, emit_new}
use sdlc_harness.Policy.Agrees.{Agrees, put-SameTasks}
use sdlc_harness.Policy.Refines.{Tracks, moved, attempt_tracked}
use sdlc_harness.Policy.Attempts.{issue_tracked}

module _ (digest : EventBody → String) (canonical_json : Payload → String) where
  -- The first event of a mission in a sound store.
  first_tracked :
      (hashes : Hashes) (id : String) (goal : GoalDefinition) (here : StagePlan)
      (command_id : String) (s : Stamp) (rows : List WorkflowEvent) {e : WorkflowEvent}
      {rows' : List WorkflowEvent}
      → IsSound digest rows
      → of_mission id rows ≡ []
      → stage_here (create_mission hashes id goal) ≡ some here
      → emit digest canonical_json
          (event
            (create_mission hashes id goal)
            mission_started
            (("stage", some (stage_value here.kind)) ∷ [])
            command_id)
          s
          rows
        ≡ (ok e, rows')
      → find_command command_id rows ≡ none
      → Tracks digest canonical_json (create_mission hashes id goal) rows'
  unfolding apply_type create_mission
  first_tracked hashes id goal here command_id s rows sound first at h new =
      let d =
        event (create_mission hashes id goal) mission_started
          (("stage", some (stage_value here.kind)) ∷ []) command_id in
      let (_, grown) = emit_new digest canonical_json d s rows h new in
      subst (Tracks digest canonical_json (create_mission hashes id goal)) (sym grown) (record {
        sound = Outcome-IsSound digest canonical_json (appended new) sound;
        projected = _;
        rebuilt = rebuild-first_event digest d s.event_id s.created_at rows sound first refl;
        same_id = refl;
        holds = record {
          revision = refl;
          stage = rw at refl;
          completed = refl;
          tasks = record {
            same = λ k. refl;
            attempts = λ k t n. absurd (ground arith);
            own = λ k t n. absurd (ground arith);
          };
        };
      })

  pub created_tracked :
      (hashes : Hashes) (id : String) (goal : GoalDefinition) (command_id : String) (s : Stamp)
      (rows : List WorkflowEvent) {m' : Mission} {rows' : List WorkflowEvent}
      → Engine.attach_created digest canonical_json
          (create_mission hashes id goal)
          command_id
          s
          rows
        ≡ (ok m', rows')
      → IsSound digest rows
      → of_mission id rows ≡ []
      → find_command command_id rows ≡ none
      → Tracks digest canonical_json m' rows'
  unfolding Engine.attach_created
  created_tracked hashes id goal command_id s rows {m'} {rows'} h sound first new =
      let m = create_mission hashes id goal in
      elim (Option-cases (stage_here m)) [
        | inl nowhere ↦ absurd (ground (arith, rw nowhere at h))
        | inr (here, at) ↦
            let (e, done, same) =
              give_ok
                (emit digest canonical_json
                  (event m mission_started (("stage", some (stage_value here.kind)) ∷ [])
                    command_id)
                  s rows)
                m (rw at at h) in
            subst (λ x. Tracks digest canonical_json x rows') same
              (first_tracked hashes id goal here command_id s rows sound first at done new)
      ]

  issue_new_tracked :
      (m : Mission) (stage : StageKind) (role : String) (c : Option String)
      (task_hex attempt_hex command_id : String) (s s' : Stamp) (rows : List WorkflowEvent)
      {t : WorkTask} {m' : Mission} {rows' : List WorkflowEvent}
      → issue_new digest canonical_json m stage role c task_hex attempt_hex command_id s s' rows
        ≡ (ok (t, m'), rows')
      → find_command command_id rows ≡ none
      → find_command (start_command command_id) rows ≡ none
      → Tracks digest canonical_json m rows
      → Tracks digest canonical_json m' rows'
  issue_new_tracked m stage role c task_hex attempt_hex command_id s s' rows {t} {m'} {rows'} h new
        start before =
      let (made, issued, a) =
        managed_ok (Manager.issue_task m stage role c task_hex attempt_hex) _ rows h in
      let (e, mid, done, b) =
        go_on_ok
          (emit digest canonical_json (event made.1 task_issued (issued_payload made.0) command_id)
            s rows)
          _ a in
      let (f, started, same) =
        give_ok
          (emit digest canonical_json
            (event made.1 attempt_started (started_payload made.0) (start_command command_id)) s'
            mid)
          made b in
      let added : made.1 ≡ add_task m made.0 =
        issue_ok m stage role c task_hex attempt_hex {t = made.0} {m' = made.1} issued in
      subst (λ x. Tracks digest canonical_json x rows')
        (sym added ∙ ap (λ (x : WorkTask × Mission). x.1) same)
        (issue_tracked digest canonical_json m made.0 command_id s s' rows mid
          (subst
            (λ x.
              emit digest canonical_json (event x task_issued (issued_payload made.0) command_id) s
                rows
              ≡ (ok e, mid))
            added done)
          (subst
            (λ x.
              emit digest canonical_json
                (event x attempt_started (started_payload made.0) (start_command command_id)) s' mid
              ≡ (ok f, rows'))
            added started)
          new start before)

  -- A command that was stored before gives its task again: no event, and the same mission.
  issued_before_tracked :
      (m : Mission) (existing : WorkflowEvent) (rows : List WorkflowEvent) {t : WorkTask}
      {m' : Mission} {rows' : List WorkflowEvent}
      → issued_before digest canonical_json m existing rows ≡ (ok (t, m'), rows')
      → Tracks digest canonical_json m rows
      → Tracks digest canonical_json m' rows'
  issued_before_tracked m existing rows {t} {m'} {rows'} h before =
      let (value, _, a) = found_ok key_error (get "task_id" existing.payload) _ rows h in
      let (u, _, b) = found_ok policy_error (get (text value) m.tasks) _ rows a in
      let same : m ≡ m' = ground arith in
      let here : rows ≡ rows' = ground arith in
      subst (λ x. Tracks digest canonical_json x rows') same
        (subst (Tracks digest canonical_json m) here before)

  pub issue_task_tracked :
      (m : Mission) (stage : StageKind) (role : String) (c : Option String)
      (task_hex attempt_hex command_id : String) (s s' : Stamp) (rows : List WorkflowEvent)
      {t : WorkTask} {m' : Mission} {rows' : List WorkflowEvent}
      → Engine.issue_task digest canonical_json m stage role c task_hex attempt_hex command_id s s'
          rows
        ≡ (ok (t, m'), rows')
      → (find_command command_id rows ≡ none → find_command (start_command command_id) rows ≡ none)
      → Tracks digest canonical_json m rows
      → Tracks digest canonical_json m' rows'
  unfolding Engine.issue_task
  issue_task_tracked m stage role c task_hex attempt_hex command_id s s' rows h start before =
      elim (Option-cases (find_command command_id rows)) [
        | inl new ↦
            issue_new_tracked m stage role c task_hex attempt_hex command_id s s' rows
              (rw (new, Engine.issue_task) at h) new (start new) before
        | inr (existing, stored) ↦
            issued_before_tracked m existing rows (rw (stored, Engine.issue_task) at h) before
      ]

  checkpoint_event :
      (t : WorkTask) (checkpoint path hash : String) (e : WorkflowEvent) (p : WorkflowProjection)
      (x : AttemptProjection)
      → e.payload
        ≡ ("task_id", some t.task_id)
          ∷ ("attempt_id", some t.attempt_id)
          ∷ ("checkpoint_id", some checkpoint)
          ∷ ("artifact_path", some path)
          ∷ ("artifact_sha256", some hash)
          ∷ []
      → get t.attempt_id p.attempts ≡ some x
      → (y : AttemptProjection) × (apply_type checkpoint_recorded e p
          ≡ ok (put_attempt p t.attempt_id y))
  unfolding apply_type
  checkpoint_event t checkpoint path hash e p x same known =
      (record x { checkpoint_ids = x.checkpoint_ids ++ checkpoint ∷ [] }, rw (same, known) refl)

  pub checkpoint_tracked :
      (disk : Disk) (path_text : FilePath → String) (m : Mission) (task_id : String)
      (path : FilePath) (checkpoint_hex command_id : String) (s : Stamp) (rows : List WorkflowEvent)
      {m' : Mission} {rows' : List WorkflowEvent}
      → Engine.record_checkpoint digest canonical_json disk path_text m task_id path checkpoint_hex
          command_id s rows
        ≡ (ok m', rows')
      → find_command command_id rows ≡ none
      → Tracks digest canonical_json m rows
      → Tracks digest canonical_json m' rows'
  unfolding Engine.record_checkpoint
  checkpoint_tracked disk path_text m task_id path checkpoint_hex command_id s rows {m'} {rows'} h
        new before =
      let (t, known, a) = found_ok key_error (get task_id m.tasks) _ rows h in
      let (_, b) = check_ok (is_active t) policy_error _ rows a in
      let (_, c) = check_ok (not (disk.is_symlink path)) policy_error _ rows b in
      let (artifact, _, d) = found_ok os_error (disk.resolve path) _ rows c in
      let (_, f) = check_ok (disk.is_file artifact) policy_error _ rows d in
      let checkpoint = append_text "checkpoint-" checkpoint_hex in
      let (e, done, same) =
        give_ok
          (emit digest canonical_json
            (event m checkpoint_recorded
              (("task_id", some t.task_id)
                ∷ ("attempt_id", some t.attempt_id)
                ∷ ("checkpoint_id", some checkpoint)
                ∷ ("artifact_path", some (path_text artifact))
                ∷ ("artifact_sha256", some (disk.sha256 artifact))
                ∷ [])
              command_id)
            s rows)
          m f in
      subst (λ x. Tracks digest canonical_json x rows') same
        (attempt_tracked digest canonical_json m task_id t checkpoint_recorded _ command_id s rows
          (checkpoint_event t checkpoint (path_text artifact) (disk.sha256 artifact)) known done new
          before)

  interrupt_event :
      (t : WorkTask) (reason : String) (e : WorkflowEvent) (p : WorkflowProjection)
      (x : AttemptProjection)
      → e.payload
        ≡ ("task_id", some t.task_id)
          ∷ ("attempt_id", some t.attempt_id)
          ∷ ("reason", some reason)
          ∷ []
      → get t.attempt_id p.attempts ≡ some x
      → (y : AttemptProjection) × (apply_type attempt_interrupted e p
          ≡ ok (put_attempt p t.attempt_id y))
  unfolding apply_type
  interrupt_event t reason e p x same known =
      (record x { status = "interrupted" }, rw (same, known) refl)

  interrupted-Agrees :
      (m : Mission) (k status : String) (t : WorkTask) (p : WorkflowProjection)
      → get k m.tasks ≡ some t
      → Agrees m p
      → Agrees (set_task k (record t { status = status }) m) p
  interrupted-Agrees m k status t p known a = record {
    revision = a.revision;
    stage = a.stage;
    completed = a.completed;
    tasks = put-SameTasks k t (record t { status = status }) m.tasks p known refl refl refl a.tasks;
  }

  pub interrupt_tracked :
      (m : Mission) (task_id reason command_id : String) (s : Stamp) (rows : List WorkflowEvent)
      {m' : Mission} {rows' : List WorkflowEvent}
      → Engine.interrupt_attempt digest canonical_json m task_id reason command_id s rows
        ≡ (ok m', rows')
      → find_command command_id rows ≡ none
      → Tracks digest canonical_json m rows
      → Tracks digest canonical_json m' rows'
  unfolding Engine.interrupt_attempt
  interrupt_tracked m task_id reason command_id s rows {m'} {rows'} h new before =
      let (_, a) = check_ok (not (Manager.is_blank reason)) policy_error _ rows h in
      let (t, known, b) = found_ok key_error (get task_id m.tasks) _ rows a in
      let after = set_task task_id (record t { status = "interrupted" }) m in
      let (e, done, same) =
        give_ok
          (emit digest canonical_json
            (event m attempt_interrupted
              (("task_id", some t.task_id)
                ∷ ("attempt_id", some t.attempt_id)
                ∷ ("reason", some reason)
                ∷ [])
              command_id)
            s rows)
          after b in
      subst (λ x. Tracks digest canonical_json x rows') same
        (moved digest canonical_json rows' refl
          (λ p g. interrupted-Agrees m task_id "interrupted" t p known g)
          (attempt_tracked digest canonical_json m task_id t attempt_interrupted _ command_id s rows
            (interrupt_event t reason) known done new before))
