-- ===== src/Policy/Engine.antt =====
-- src/agent_harness/workflow_policy.py: the operations of the engine.
use Prim.Native.String.{◌++◌ as append_text}
use sdlc_harness.Prelude.{
  String, Bool, not, ◌||◌, ◌==◌, Option, none, some, List, [], ◌∷◌, Result, err, if◌then◌else◌,
}
use sdlc_harness.Dict.{get, put}
use sdlc_harness.Handoff.{Disk, FilePath, Handoff}
use sdlc_harness.Methodology.{GoalDefinition, StageKind, stage_value}
use sdlc_harness.Mission.{
  Hashes, Mission, WorkTask, AgentResult, ResultDisposition, accepted_as_input, stage_here,
}
use sdlc_harness.Mission.Manager as Manager
use sdlc_harness.Mission.Manager.{steered, is_blank}
use sdlc_harness.Mission.Stages as Stages
use sdlc_harness.Workflow.{
  EventType, Payload, EventBody, WorkflowEvent, Draft, find_command, events, mission_started,
  revision_started, task_issued, attempt_started, checkpoint_recorded, attempt_interrupted,
  retry_scheduled, result_received, stage_advanced, candidate_frozen, quality_decided,
  package_created, mission_completed,
}
use sdlc_harness.Workflow.Projection.{WorkflowProjection, ProjectionError, rebuild, text}
use sdlc_harness.Policy.{
  policy_error, key_error, os_error, Act, ◌>>=◌, ◌>>◌, give, managed, found, check, Stamp, emit,
}

-- the keyword arguments of `append` for the current mission
abbrev pub event : Mission → EventType → Payload → String → Draft
event m event_type payload command_id = record {
  command_id = command_id;
  mission_id = m.mission_id;
  revision = m.revision;
  event_type = event_type;
  payload = payload;
}

-- f"{command_id}:attempt-started"
abbrev pub start_command : String → String
start_command command_id = append_text command_id ":attempt-started"

abbrev pub started_payload : WorkTask → Payload
started_payload t = ("task_id", some t.task_id) ∷ ("attempt_id", some t.attempt_id) ∷ []

abbrev pub issued_payload : WorkTask → Payload
issued_payload t =
    ("task_id", some t.task_id)
    ∷ ("role", some t.assignee_role)
    ∷ ("candidate_id", t.candidate_id)
    ∷ ("worker_id", some t.worker_id)
    ∷ ("workspace_id", some t.workspace_id)
    ∷ []

-- `mission.current_stage.value`
abbrev pub current_stage : Mission → Act String
current_stage m = do here ← found key_error (stage_here m); give (stage_value here.kind)

-- the task with another attempt id and the status `issued`
abbrev pub with_attempt : String → WorkTask → WorkTask
with_attempt attempt t = record t { attempt_id = attempt; status = "issued" }

abbrev pub set_task : String → WorkTask → Mission → Mission
set_task k t m = record m { tasks = put k t m.tasks }

abbrev pub is_active : WorkTask → Bool
is_active t = (t.status == "issued") || (t.status == "running")

-- what `advance_if_ready` reports: the next stage, or `none` for a completed mission
abbrev pub advance_event : Mission → Act (EventType × Payload)
advance_event m =
    if m.completed
    then give (mission_completed, [])
    else (current_stage m >>= λ stage. give (stage_advanced, ("stage", some stage) ∷ []))

module _ (digest : EventBody → String) (canonical_json : Payload → String) where
  abbrev pub store : Mission → EventType → Payload → String → Stamp → Act WorkflowEvent
  store m event_type payload command_id s =
      emit digest canonical_json (event m event_type payload command_id) s

  unfoldable pub attach_created : Mission → String → Stamp → Act Mission
  attach_created m command_id s = do
    stage ← current_stage m
    e ← store m mission_started (("stage", some stage) ∷ []) command_id s
    give m

  -- the branch for a command that was stored before
  abbrev pub issued_before : Mission → WorkflowEvent → Act (WorkTask × Mission)
  issued_before m existing = do
    value ← found key_error (get "task_id" existing.payload)
    t ← found policy_error (get (text value) m.tasks)
    give (t, m)

  abbrev pub issue_new :
      Mission
      → StageKind
      → String
      → Option String
      → String
      → String
      → String
      → Stamp
      → Stamp
      → Act (WorkTask × Mission)
  issue_new m stage role candidate_id task_hex attempt_hex command_id s s' = do
    made ← managed (Manager.issue_task m stage role candidate_id task_hex attempt_hex)
    e ← store made.1 task_issued (issued_payload made.0) command_id s
    f ← store made.1 attempt_started (started_payload made.0) (start_command command_id) s'
    give made

  unfoldable pub issue_task :
      Mission
      → StageKind
      → String
      → Option String
      → String
      → String
      → String
      → Stamp
      → Stamp
      → Act (WorkTask × Mission)
  issue_task m stage role candidate_id task_hex attempt_hex command_id s s' rows =
      elim (find_command command_id rows) [
        | some existing ↦ issued_before m existing rows
        | none ↦ issue_new m stage role candidate_id task_hex attempt_hex command_id s s' rows
      ]

  -- `str(artifact)` is the parameter `path_text`
  unfoldable pub record_checkpoint :
      Disk
      → (FilePath → String)
      → Mission
      → String
      → FilePath
      → String
      → String
      → Stamp
      → Act Mission
  record_checkpoint disk path_text m task_id artifact_path checkpoint_hex command_id s = do
    t ← found key_error (get task_id m.tasks)
    check (is_active t) policy_error
    check (not (disk.is_symlink artifact_path)) policy_error
    artifact ← found os_error (disk.resolve artifact_path)
    check (disk.is_file artifact) policy_error
    e ←
        store m checkpoint_recorded
          (("task_id", some t.task_id)
            ∷ ("attempt_id", some t.attempt_id)
            ∷ ("checkpoint_id", some (append_text "checkpoint-" checkpoint_hex))
            ∷ ("artifact_path", some (path_text artifact))
            ∷ ("artifact_sha256", some (disk.sha256 artifact))
            ∷ [])
          command_id s
    give m

  unfoldable pub interrupt_attempt : Mission → String → String → String → Stamp → Act Mission
  unfolding is_blank
  interrupt_attempt m task_id reason command_id s = do
    check (not (is_blank reason)) policy_error
    t ← found key_error (get task_id m.tasks)
    e ←
        store m attempt_interrupted
          (("task_id", some t.task_id)
            ∷ ("attempt_id", some t.attempt_id)
            ∷ ("reason", some reason)
            ∷ [])
          command_id s
    give (set_task task_id (record t { status = "interrupted" }) m)

  -- the new attempt of a retry starts
  abbrev pub start_attempt : Mission → String → WorkTask → String → Stamp → Act (WorkTask × Mission)
  start_attempt m task_id t command_id s = do
    e ← store m attempt_started (started_payload t) (start_command command_id) s
    give (t, set_task task_id t m)

  abbrev pub retry_again :
      Mission → String → WorkTask → WorkflowEvent → String → Stamp → Act (WorkTask × Mission)
  retry_again m task_id t existing command_id s = do
    value ← found key_error (get "attempt_id" existing.payload)
    start_attempt m task_id (with_attempt (text value) t) command_id s

  abbrev pub retry_new :
      Mission
      → String
      → WorkTask
      → String
      → String
      → String
      → Stamp
      → Stamp
      → Act (WorkTask × Mission)
  retry_new m task_id t retry_class attempt_hex command_id s s' = do
    check (t.status == "interrupted") policy_error
    let attempt = append_text "attempt-" attempt_hex
    e ←
        store m retry_scheduled
          (("task_id", some t.task_id)
            ∷ ("prior_attempt_id", some t.attempt_id)
            ∷ ("attempt_id", some attempt)
            ∷ ("retry_class", some retry_class)
            ∷ [])
          command_id s
    start_attempt m task_id (with_attempt attempt t) command_id s'

  unfoldable pub retry_attempt :
      Mission → String → String → String → String → Stamp → Stamp → Act (WorkTask × Mission)
  retry_attempt m task_id retry_class attempt_hex command_id s s' rows =
      elim (get task_id m.tasks) [
        | none ↦ (err key_error, rows)
        | some t ↦ elim (find_command command_id rows) [
          | some existing ↦ retry_again m task_id t existing command_id s' rows
          | none ↦ retry_new m task_id t retry_class attempt_hex command_id s s' rows
        ]
      ]

  -- the event of a result that was accepted
  abbrev pub report_result :
      ResultDisposition
      → Mission
      → List AgentResult
      → AgentResult
      → String
      → Stamp
      → Act (ResultDisposition × Mission × List AgentResult)
  report_result accepted_as_input m inbox r command_id s = do
    t ← found key_error (get r.task_id m.tasks)
    e ←
        store m result_received
          (("task_id", some t.task_id)
            ∷ ("attempt_id", some t.attempt_id)
            ∷ ("payload_sha256", some r.payload_sha256)
            ∷ [])
          command_id s
    give (accepted_as_input, m, inbox)
  report_result d m inbox r command_id s = give (d, m, inbox)

  unfoldable pub receive_result :
      Hashes
      → (Handoff → Bool)
      → Disk
      → Mission
      → List AgentResult
      → AgentResult
      → String
      → Stamp
      → Act (ResultDisposition × Mission × List AgentResult)
  receive_result hashes schema_valid disk m inbox r command_id s =
      let out = Manager.receive_result hashes schema_valid disk m inbox r in
      report_result out.0 out.1 out.2 r command_id s

  unfoldable pub advance_if_ready : Mission → String → Stamp → Act Mission
  advance_if_ready m command_id s = do
    after ← managed (Stages.advance_if_ready m)
    reported ← advance_event after
    e ← store after reported.0 reported.1 command_id s
    give after

  unfoldable pub apply_user_steering :
      Hashes → Mission → GoalDefinition → String → String → Stamp → Act Mission
  apply_user_steering hashes m goal instruction command_id s = do
    after ← managed (Manager.apply_user_steering hashes m goal instruction)
    stage ← current_stage after
    e ←
        store after revision_started (("stage", some stage) ∷ ("reason", some instruction) ∷ [])
          command_id s
    give after

  unfoldable pub bind_candidate : Mission → String → String → String → Stamp → Act Mission
  bind_candidate m candidate_id manifest_sha256 command_id s = do
    after ← managed (Manager.bind_candidate m candidate_id manifest_sha256)
    e ←
        store after candidate_frozen
          (("candidate_id", some candidate_id)
            ∷ ("candidate_manifest_sha256", some manifest_sha256)
            ∷ [])
          command_id s
    give after

  unfoldable pub mark_candidate_approved : Hashes → Mission → String → String → Stamp → Act Mission
  mark_candidate_approved hashes m candidate_id command_id s = do
    after ← managed (Manager.mark_candidate_approved hashes m candidate_id command_id)
    e ←
        store after quality_decided
          (("candidate_id", some candidate_id) ∷ ("state", some "QUALITY_DECIDED") ∷ []) command_id
          s
    give after

  unfoldable pub bind_release : Mission → String → String → String → Stamp → Act Mission
  bind_release m candidate_id artifact_sha256 command_id s = do
    after ← managed (Manager.bind_release m candidate_id artifact_sha256 command_id)
    e ←
        store after package_created
          (("candidate_id", some candidate_id)
            ∷ ("artifact_sha256", some artifact_sha256)
            ∷ ("state", some "PACKAGE_ELIGIBLE")
            ∷ [])
          command_id s
    give after

  unfoldable pub record_event : Mission → EventType → Payload → String → Stamp → Act Mission
  record_event m event_type payload command_id s = do
    e ← store m event_type payload command_id s
    give m

module _ (digest : EventBody → String) where
  unfoldable pub projection :
      Mission → List WorkflowEvent → Result ProjectionError WorkflowProjection
  projection m rows = rebuild digest (events m.mission_id rows)
