-- ===== src/Mission/Restore.antt =====
-- src/agent_harness/mission.py: `restore`.
use Prim.Native.String.{◌++◌ as append_text}
use sdlc_harness.Prelude.{
  ℕ, String, Bool, false, ◌&&◌, Option, none, some, List, [], ◌∷◌, eqb, Result, ok, ◌>>=◌, ◌>>◌,
  require,
}
use sdlc_harness.Dict.{Dict, put}
use sdlc_harness.Handoff.{Disk, Handoff, FilePath}
use sdlc_harness.Methodology.{GoalDefinition, KnowledgeStatus}
use sdlc_harness.Methodology.Planner.{plan}
use sdlc_harness.Mission.{
  OutputBinding, Hashes, WorkTask, AgentResult, Mission, MissionError, value_error,
}
use sdlc_harness.Mission.Results.{has_valid_hash, has_valid_handoff}
use sdlc_harness.Mission.Bindings.{initial_output_bindings}
use sdlc_harness.Mission.Manager.{or_key_error}
use sdlc_harness.Mission.Snapshot.{
  RawGoal, RawBinding, RawTask, RawResult, MissionSnapshot, or_else, or_value_error, read_status,
  read_kind, read_stage,
}

-- a loop that builds one value from each
abbrev pub each :
    {A B : Type 0} → (A → Result MissionError B) → List A → Result MissionError (List B)
each f [] = ok []
each f (x ∷ xs) = f x >>= λ y. each f xs >>= λ ys. ok (y ∷ ys)

abbrev pub restore_status : String × String → Result MissionError (String × KnowledgeStatus)
restore_status entry = or_value_error (read_status entry.1) >>= λ s. ok (entry.0, s)

unfoldable pub restore_goal : RawGoal → Result MissionError GoalDefinition
restore_goal g = do
  status ← each restore_status (or_else g.field_status [])
  ok (record {
    statement = or_else g.statement "";
    decision_action = g.decision_action;
    outcome = g.outcome;
    population = g.population;
    analysis_unit = g.analysis_unit;
    time_horizon = g.time_horizon;
    constraints = or_else g.constraints [];
    question_type = g.question_type;
    data_description = g.data_description;
    decision_threshold = g.decision_threshold;
    field_status = status;
    risk_level = or_else g.risk_level 1;
    research_artifact = or_else g.research_artifact false;
  })

abbrev pub restore_binding : String × RawBinding → Result MissionError (String × OutputBinding)
restore_binding entry = do
  kind_text ← or_key_error entry.1.kind
  kind ← or_value_error (read_kind kind_text)
  reference ← or_key_error entry.1.reference
  sha256 ← or_key_error entry.1.sha256
  ok (entry.0, record { output_id = entry.0; kind = kind; reference = reference; sha256 = sha256 })

unfoldable pub restore_bindings :
    Hashes → GoalDefinition → Option (Dict RawBinding) → Result MissionError (Dict OutputBinding)
restore_bindings hashes goal none = ok (initial_output_bindings hashes goal (plan goal))
restore_bindings hashes goal (some raw) = each restore_binding raw

unfoldable pub restore_task : RawTask → Result MissionError WorkTask
restore_task raw = do
  task_id ← or_key_error raw.task_id
  mission_id ← or_key_error raw.mission_id
  revision ← or_key_error raw.revision
  stage_text ← or_key_error raw.stage
  stage ← or_value_error (read_stage stage_text)
  role ← or_key_error raw.assignee_role
  ok (record {
    task_id = task_id;
    mission_id = mission_id;
    revision = revision;
    stage = stage;
    assignee_role = role;
    candidate_id = raw.candidate_id;
    attempt_id = or_else raw.attempt_id (append_text "attempt-" task_id);
    worker_id =
        or_else raw.worker_id
          (append_text "expert:" (append_text stage_text (append_text ":" role)));
    workspace_id = or_else raw.workspace_id (append_text "workspace-" task_id);
    status = or_else raw.status "issued";
  })

-- the loop over the tasks: `mission.tasks[task.task_id] = task`
unfoldable pub restore_tasks : List RawTask → Dict WorkTask → Result MissionError (Dict WorkTask)
restore_tasks [] tasks = ok tasks
restore_tasks (raw ∷ rest) tasks = do
  t ← restore_task raw
  restore_tasks rest (put t.task_id t tasks)

-- the result as it was written
unfoldable pub read_result : (String → FilePath) → RawResult → Result MissionError AgentResult
read_result path_of raw = do
  mission_id ← or_key_error raw.mission_id
  revision ← or_key_error raw.revision
  task_id ← or_key_error raw.task_id
  stage_text ← or_key_error raw.stage
  stage ← or_value_error (read_stage stage_text)
  role ← or_key_error raw.sender_role
  hash ← or_key_error raw.payload_sha256
  root ← or_key_error raw.artifact_root
  ok (record {
    mission_id = mission_id;
    revision = revision;
    task_id = task_id;
    stage = stage;
    sender_role = role;
    candidate_id = raw.candidate_id;
    payload = or_else raw.payload (record { gate = none; body = none });
    payload_sha256 = hash;
    artifact_root = path_of root;
  })

abbrev pub is_format_1 : Option ℕ → Bool
is_format_1 none = false
is_format_1 (some n) = eqb n 1

module _ (hashes : Hashes) (schema_valid : Handoff → Bool) (disk : Disk)
    (path_of : String → FilePath) where
  unfoldable pub restore_result : RawResult → Result MissionError AgentResult
  restore_result raw = do
    result ← read_result path_of raw
    require (has_valid_hash hashes result && has_valid_handoff schema_valid disk result) value_error
    ok result

  unfoldable pub restore : MissionSnapshot → Result MissionError Mission
  unfolding restore_goal restore_bindings restore_tasks restore_result read_result
  restore s = do
    require (is_format_1 s.format_version) value_error
    raw_goal ← or_value_error s.goal
    goal ← restore_goal raw_goal
    bindings ← restore_bindings hashes goal s.output_bindings
    mission_id ← or_key_error s.mission_id
    revision ← or_key_error s.revision
    tasks ← restore_tasks (or_else s.tasks []) []
    results ← each restore_result (or_else s.accepted_results [])
    ok (record {
      mission_id = mission_id;
      revision = revision;
      goal = goal;
      plan = plan goal;
      current_stage_index = or_else s.current_stage_index 0;
      tasks = tasks;
      accepted_results = results;
      output_bindings = bindings;
      steering_log = or_else s.steering_log [];
      active_candidate_id = s.active_candidate_id;
      candidate_approved = or_else s.candidate_approved false;
      release_artifact_sha256 = s.release_artifact_sha256;
      completed = or_else s.completed false;
    })
