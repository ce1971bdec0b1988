-- ===== src/Policy/History.antt =====
-- The history of a mission: its creation and the operations on it, each with a command of its own.
use sdlc_harness.Prelude.{String, ◌≡◌, Bool, true, Option, none, List, [], ok}
use sdlc_harness.Methodology.{StageKind, GoalDefinition}
use sdlc_harness.Handoff.{Disk, FilePath, Handoff}
use sdlc_harness.Mission.{Hashes, Mission, WorkTask, AgentResult, ResultDisposition}
use sdlc_harness.Mission.Manager.{create_mission}
use sdlc_harness.Workflow.{
  EventBody, WorkflowEvent, Payload, find_command, of_mission, verify_chain, evidence_recorded,
}
use sdlc_harness.Workflow.Appends.{IsSound, IsSound-verify_chain}
use sdlc_harness.Workflow.Projection.{WorkflowProjection}
use sdlc_harness.Policy.{Stamp}
use sdlc_harness.Policy.Engine as Engine
use sdlc_harness.Policy.Engine.{start_command, projection}
use sdlc_harness.Policy.Agrees.{Agrees}
use sdlc_harness.Policy.Refines.{Tracks}
use sdlc_harness.Policy.Turns.{
  created_tracked, issue_task_tracked, checkpoint_tracked, interrupt_tracked,
}
use sdlc_harness.Policy.Retries.{retry_attempt_tracked, evidence_tracked}
use sdlc_harness.Policy.Stages.{advance_tracked}
use sdlc_harness.Policy.Reports.{
  steer_tracked, freeze_tracked, approve_tracked, release_tracked, receive_tracked,
}

module _ (digest : EventBody → String) (canonical_json : Payload → String) (hashes : Hashes)
    (schema_valid : Handoff → Bool) (path_text : FilePath → String) where
  -- one operation of the engine that returns, from a mission and rows to those after it; an event
  -- that `record_event` stores as it is given is one of recorded evidence, as in its only call
  pub data Turn (m : Mission) (rows : List WorkflowEvent)
      : Mission → List WorkflowEvent → Type 0 where
    issues :
        (stage : StageKind) (role : String) (c : Option String)
        (task_hex attempt_hex command_id : String) (s s' : Stamp) (t : WorkTask) (m' : Mission)
        (rows' : List WorkflowEvent)
        → Engine.issue_task digest canonical_json m stage role c task_hex attempt_hex command_id s
            s' rows
          ≡ (ok (t, m'), rows')
        → (find_command command_id rows ≡ none
            → find_command (start_command command_id) rows ≡ none)
        → Turn m rows m' rows'
    checkpoints :
        (disk : Disk) (task_id : String) (path : FilePath) (checkpoint_hex command_id : String)
        (s : Stamp) (m' : Mission) (rows' : List WorkflowEvent)
        → Engine.record_checkpoint digest canonical_json disk path_text m task_id path
            checkpoint_hex command_id s rows
          ≡ (ok m', rows')
        → find_command command_id rows ≡ none
        → Turn m rows m' rows'
    interrupts :
        (task_id reason command_id : String) (s : Stamp) (m' : Mission) (rows' : List WorkflowEvent)
        → Engine.interrupt_attempt digest canonical_json m task_id reason command_id s rows
          ≡ (ok m', rows')
        → find_command command_id rows ≡ none
        → Turn m rows m' rows'
    retries :
        (task_id retry_class attempt_hex command_id : String) (s s' : Stamp) (t : WorkTask)
        (m' : Mission) (rows' : List WorkflowEvent)
        → Engine.retry_attempt digest canonical_json m task_id retry_class attempt_hex command_id s
            s' rows
          ≡ (ok (t, m'), rows')
        → find_command (start_command command_id) rows ≡ none
        → Turn m rows m' rows'
    receives :
        (disk : Disk) (inbox inbox' : List AgentResult) (r : AgentResult) (command_id : String)
        (s : Stamp) (d : ResultDisposition) (m' : Mission) (rows' : List WorkflowEvent)
        → Engine.receive_result digest canonical_json hashes schema_valid disk m inbox r command_id
            s rows
          ≡ (ok (d, m', inbox'), rows')
        → find_command command_id rows ≡ none
        → Turn m rows m' rows'
    advances :
        (command_id : String) (s : Stamp) (m' : Mission) (rows' : List WorkflowEvent)
        → Engine.advance_if_ready digest canonical_json m command_id s rows ≡ (ok m', rows')
        → find_command command_id rows ≡ none
        → Turn m rows m' rows'
    steers :
        (goal : GoalDefinition) (instruction command_id : String) (s : Stamp) (m' : Mission)
        (rows' : List WorkflowEvent)
        → Engine.apply_user_steering digest canonical_json hashes m goal instruction command_id s
            rows
          ≡ (ok m', rows')
        → find_command command_id rows ≡ none
        → Turn m rows m' rows'
    freezes :
        (c manifest_sha256 command_id : String) (s : Stamp) (m' : Mission)
        (rows' : List WorkflowEvent)
        → Engine.bind_candidate digest canonical_json m c manifest_sha256 command_id s rows
          ≡ (ok m', rows')
        → find_command command_id rows ≡ none
        → Turn m rows m' rows'
    approves :
        (c command_id : String) (s : Stamp) (m' : Mission) (rows' : List WorkflowEvent)
        → Engine.mark_candidate_approved digest canonical_json hashes m c command_id s rows
          ≡ (ok m', rows')
        → find_command command_id rows ≡ none
        → Turn m rows m' rows'
    releases :
        (c artifact_sha256 command_id : String) (s : Stamp) (m' : Mission)
        (rows' : List WorkflowEvent)
        → Engine.bind_release digest canonical_json m c artifact_sha256 command_id s rows
          ≡ (ok m', rows')
        → find_command command_id rows ≡ none
        → Turn m rows m' rows'
    records :
        (payload : Payload) (command_id : String) (s : Stamp) (m' : Mission)
        (rows' : List WorkflowEvent)
        → Engine.record_event digest canonical_json m evidence_recorded payload command_id s rows
          ≡ (ok m', rows')
        → find_command command_id rows ≡ none
        → Turn m rows m' rows'

  pub data History : Mission → List WorkflowEvent → Type 0 where
    begins :
        (id : String) (goal : GoalDefinition) (command_id : String) (s : Stamp)
        (rows : List WorkflowEvent) (m : Mission) (rows' : List WorkflowEvent)
        → Engine.attach_created digest canonical_json
            (create_mission hashes id goal)
            command_id
            s
            rows
          ≡ (ok m, rows')
        → IsSound digest rows
        → of_mission id rows ≡ []
        → find_command command_id rows ≡ none
        → History m rows'
    continues :
        (m m' : Mission) (rows rows' : List WorkflowEvent)
        → History m rows
        → Turn m rows m' rows'
        → History m' rows'

  Turn-Tracks :
      {m m' : Mission} {rows rows' : List WorkflowEvent}
      → Turn m rows m' rows'
      → Tracks digest canonical_json m rows
      → Tracks digest canonical_json m' rows'
  Turn-Tracks {m} {rows = rows}
        (issues stage role c task_hex attempt_hex command_id s s' t m' rows' h start) before =
      issue_task_tracked digest canonical_json m stage role c task_hex attempt_hex command_id s s'
        rows h start before
  Turn-Tracks {m} {rows = rows}
        (checkpoints disk task_id path checkpoint_hex command_id s m' rows' h new) before =
      checkpoint_tracked digest canonical_json disk path_text m task_id path checkpoint_hex
        command_id s rows h new before
  Turn-Tracks {m} {rows = rows} (interrupts task_id reason command_id s m' rows' h new) before =
      interrupt_tracked digest canonical_json m task_id reason command_id s rows h new before
  Turn-Tracks {m} {rows = rows}
        (retries task_id retry_class attempt_hex command_id s s' t m' rows' h start) before =
      retry_attempt_tracked digest canonical_json m task_id retry_class attempt_hex command_id s s'
        rows h start before
  Turn-Tracks {m} {rows = rows} (receives disk inbox inbox' r command_id s d m' rows' h new)
        before =
      receive_tracked digest canonical_json hashes schema_valid disk m inbox r command_id s rows h
        new before
  Turn-Tracks {m} {rows = rows} (advances command_id s m' rows' h new) before =
      advance_tracked digest canonical_json m command_id s rows h new before
  Turn-Tracks {m} {rows = rows} (steers goal instruction command_id s m' rows' h new) before =
      steer_tracked digest canonical_json hashes m goal instruction command_id s rows h new before
  Turn-Tracks {m} {rows = rows} (freezes c manifest_sha256 command_id s m' rows' h new) before =
      freeze_tracked digest canonical_json m c manifest_sha256 command_id s rows h new before
  Turn-Tracks {m} {rows = rows} (approves c command_id s m' rows' h new) before =
      approve_tracked digest canonical_json hashes m c command_id s rows h new before
  Turn-Tracks {m} {rows = rows} (releases c artifact_sha256 command_id s m' rows' h new) before =
      release_tracked digest canonical_json m c artifact_sha256 command_id s rows h new before
  Turn-Tracks {m} {rows = rows} (records payload command_id s m' rows' h new) before =
      evidence_tracked digest canonical_json m payload command_id s rows h new before

  pub History-Tracks :
      {m : Mission} {rows : List WorkflowEvent}
      → History m rows
      → Tracks digest canonical_json m rows
  History-Tracks (begins id goal command_id s rows m rows' h sound first new) =
      created_tracked digest canonical_json hashes id goal command_id s rows h sound first new
  History-Tracks (continues m m' rows rows' before turn) = Turn-Tracks turn (History-Tracks before)

  -- After any history of a mission, begun in a sound store that has no event of it, in which
  -- each operation returns, its command is new (a repeated one is allowed to issue a task or to
  -- retry an attempt) and so is the start command of an attempt that it starts, the chain of the
  -- mission verifies, and its projection is rebuilt without an error and agrees with the mission:
  -- the same revision, stage and completion, and the same tasks, each with its role and with its
  -- current attempt as the active one. Of the events that `record_event` can store as they are given,
  -- a history has those of recorded evidence only, which is how the program calls it.
  pub projection-Agrees :
      {m : Mission} {rows : List WorkflowEvent}
      → History m rows
      → (verify_chain digest m.mission_id rows ≡ true)
        × ((p : WorkflowProjection) × (projection digest m rows ≡ ok p) × Agrees m p)
  unfolding projection
  projection-Agrees {m} {rows} h =
      let t = History-Tracks h in
      (IsSound-verify_chain digest rows m.mission_id t.sound, (t.projected, t.rebuilt, t.holds))
