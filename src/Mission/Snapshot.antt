-- ===== src/Mission/Snapshot.antt =====
-- src/agent_harness/mission.py: `snapshot` and `restore`.
-- A snapshot is a record of the keys of the dict; a key that may be missing has the value `none`.
-- The types of the JSON values are those that `snapshot` writes. `str` of a path and `Path` of a
-- text are the parameters `path_text` and `path_of`.
use sdlc_harness.Prelude.{
  ℕ, String, Bool, Option, none, some, List, [], ◌∷◌, ◌==◌, map, if◌then◌else◌, Result, ok, err,
}
use sdlc_harness.Dict.{Dict}
use sdlc_harness.Sets.{sort_items}
use sdlc_harness.Handoff.{FilePath}
use sdlc_harness.Methodology.{
  GoalDefinition, KnowledgeStatus, confirmed, inferred, unverified, conflict, StageKind,
  stage_value, scope_risk, goal_discovery, method_discovery, requirements, oracle, design,
  implementation, integration_verification, validation, release,
}
use sdlc_harness.Mission.{
  OutputKind, OutputBinding, ResultPayload, WorkTask, AgentResult, Mission, MissionError,
  structured, artifact, candidate, policy_decision, release_artifact, value_error,
}

-- `KnowledgeStatus.value`, and `KnowledgeStatus(text)`
abbrev pub status_value : KnowledgeStatus → String
status_value confirmed = "confirmed"
status_value inferred = "inferred"
status_value unverified = "unverified"
status_value conflict = "conflict"

-- the member of an enumeration with this value
abbrev pub member {ℓ} : {A : Type ℓ} → (A → String) → List A → String → Option A
member value [] text = none
member value (a ∷ rest) text = if value a == text then some a else member value rest text

abbrev pub read_status : String → Option KnowledgeStatus
read_status = member status_value (confirmed ∷ inferred ∷ unverified ∷ conflict ∷ [])

abbrev pub kind_value : OutputKind → String
kind_value structured = "structured"
kind_value artifact = "artifact"
kind_value candidate = "candidate"
kind_value policy_decision = "policy-decision"
kind_value release_artifact = "release-artifact"

abbrev pub read_kind : String → Option OutputKind
read_kind =
    member kind_value (structured ∷ artifact ∷ candidate ∷ policy_decision ∷ release_artifact ∷ [])

unfoldable pub read_stage : String → Option StageKind
read_stage = member stage_value (
    scope_risk ∷ goal_discovery ∷ method_discovery ∷ requirements ∷ oracle ∷ design ∷ implementation
    ∷ integration_verification ∷ validation ∷ release ∷ [])

abbrev pub or_value_error {ℓ} : {A : Type ℓ} → Option A → Result MissionError A
or_value_error none = err value_error
or_value_error (some a) = ok a

-- `.get(key, default)`
abbrev pub or_else {ℓ} : {A : Type ℓ} → Option A → A → A
or_else none a = a
or_else (some b) a = b

pub record RawGoal : Type 0 where
  pub statement : Option String
  pub decision_action : Option String
  pub outcome : Option String
  pub population : Option String
  pub analysis_unit : Option String
  pub time_horizon : Option String
  pub constraints : Option (List String)
  pub question_type : Option String
  pub data_description : Option String
  pub decision_threshold : Option String
  pub field_status : Option (Dict String)
  pub risk_level : Option ℕ
  pub research_artifact : Option Bool

pub record RawBinding : Type 0 where
  pub kind : Option String
  pub reference : Option String
  pub sha256 : Option String

pub record RawTask : Type 0 where
  pub task_id : Option String
  pub mission_id : Option String
  pub revision : Option ℕ
  pub stage : Option String
  pub assignee_role : Option String
  pub candidate_id : Option String
  pub attempt_id : Option String
  pub worker_id : Option String
  pub workspace_id : Option String
  pub status : Option String

pub record RawResult : Type 0 where
  pub mission_id : Option String
  pub revision : Option ℕ
  pub task_id : Option String
  pub stage : Option String
  pub sender_role : Option String
  pub candidate_id : Option String
  pub payload : Option ResultPayload
  pub payload_sha256 : Option String
  pub artifact_root : Option String

pub record MissionSnapshot : Type 0 where
  pub format_version : Option ℕ
  pub mission_id : Option String
  pub revision : Option ℕ
  pub goal : Option RawGoal
  pub current_stage_index : Option ℕ
  pub tasks : Option (List RawTask)
  pub accepted_results : Option (List RawResult)
  pub output_bindings : Option (Dict RawBinding)
  pub steering_log : Option (List String)
  pub active_candidate_id : Option String
  pub candidate_approved : Option Bool
  pub release_artifact_sha256 : Option String
  pub completed : Option Bool

abbrev pub save_goal : GoalDefinition → RawGoal
save_goal g = record {
  statement = some g.statement;
  decision_action = g.decision_action;
  outcome = g.outcome;
  population = g.population;
  analysis_unit = g.analysis_unit;
  time_horizon = g.time_horizon;
  constraints = some g.constraints;
  question_type = g.question_type;
  data_description = g.data_description;
  decision_threshold = g.decision_threshold;
  field_status = some (map (λ e. (e.0, status_value e.1)) g.field_status);
  risk_level = some g.risk_level;
  research_artifact = some g.research_artifact;
}

abbrev pub save_task : WorkTask → RawTask
save_task t = record {
  task_id = some t.task_id;
  mission_id = some t.mission_id;
  revision = some t.revision;
  stage = some (stage_value t.stage);
  assignee_role = some t.assignee_role;
  candidate_id = t.candidate_id;
  attempt_id = some t.attempt_id;
  worker_id = some t.worker_id;
  workspace_id = some t.workspace_id;
  status = some t.status;
}

abbrev pub save_binding : OutputBinding → RawBinding
save_binding b = record {
  kind = some (kind_value b.kind);
  reference = some b.reference;
  sha256 = some b.sha256;
}

module _ (path_text : FilePath → String) where
  abbrev pub save_result : AgentResult → RawResult
  save_result r = record {
    mission_id = some r.mission_id;
    revision = some r.revision;
    task_id = some r.task_id;
    stage = some (stage_value r.stage);
    sender_role = some r.sender_role;
    candidate_id = r.candidate_id;
    payload = some r.payload;
    payload_sha256 = some r.payload_sha256;
    artifact_root = some (path_text r.artifact_root);
  }

  unfoldable pub snapshot : Mission → MissionSnapshot
  snapshot m = record {
    format_version = some 1;
    mission_id = some m.mission_id;
    revision = some m.revision;
    goal = some (save_goal m.goal);
    current_stage_index = some m.current_stage_index;
    tasks = some (map (λ e. save_task e.1) m.tasks);
    accepted_results = some (map save_result m.accepted_results);
    output_bindings = some (map (λ e. (e.0, save_binding e.1)) (sort_items m.output_bindings));
    steering_log = some m.steering_log;
    active_candidate_id = m.active_candidate_id;
    candidate_approved = some m.candidate_approved;
    release_artifact_sha256 = m.release_artifact_sha256;
    completed = some m.completed;
  }
