-- ===== src/Mission.antt =====
-- src/agent_harness/mission.py: the types of a mission, its tasks and its results.
-- SHA-256 over canonical JSON is a field of `Hashes` for each thing that is hashed. A payload is
-- its `gate` and its handoff fields; one whose handoff fields do not have the shape of the schema
-- has no body.
pub mod Results
pub mod Bindings
pub mod Manager
pub mod Stages
pub mod Inputs
pub mod Supply
pub mod Advance
pub mod Steps
pub mod Runs
pub mod Issue
pub mod Completion
pub mod Quarantine
pub mod Snapshot
pub mod Restore
pub mod Storable
pub mod RoundTrip
pub mod Restored
pub mod SnapshotTests
pub mod Tests
use sdlc_harness.Prelude.{
  ℕ, String, Bool, true, false, Option, none, some, List, [], ◌∷◌, get_elem?,
}
use sdlc_harness.Dict.{Dict, keys}
use sdlc_harness.Handoff.{HandoffBody, ArtifactEntry, FilePath}
use sdlc_harness.Methodology.{GoalDefinition, StageKind, Track, StagePlan, WorkflowPlan}

pub data OutputKind : Type 0 where
  structured artifact candidate policy_decision release_artifact : OutputKind

pub record OutputBinding : Type 0 where
  pub output_id : String
  pub kind : OutputKind
  pub reference : String
  pub sha256 : String

pub record ResultPayload : Type 0 where
  pub gate : Option String
  pub body : Option HandoffBody

pub record Hashes : Type 0 where
  pub goal : GoalDefinition → String
  pub method : Track → List String → String
  pub payload : ResultPayload → String
  pub decision : String → String → String

pub data ResultDisposition : Type 0 where
  accepted_as_input quarantined_foreign_mission quarantined_stale_revision : ResultDisposition
  rejected_unexpected_task rejected_invalid_payload : ResultDisposition

pub record WorkTask : Type 0 where
  pub task_id : String
  pub mission_id : String
  pub revision : ℕ
  pub stage : StageKind
  pub assignee_role : String
  pub candidate_id : Option String
  pub attempt_id : String
  pub worker_id : String
  pub workspace_id : String
  pub status : String

pub record AgentResult : Type 0 where
  pub mission_id : String
  pub revision : ℕ
  pub task_id : String
  pub stage : StageKind
  pub sender_role : String
  pub candidate_id : Option String
  pub payload : ResultPayload
  pub payload_sha256 : String
  pub artifact_root : FilePath

pub record Mission : Type 0 where
  pub mission_id : String
  pub revision : ℕ
  pub goal : GoalDefinition
  pub plan : WorkflowPlan
  pub current_stage_index : ℕ
  pub tasks : Dict WorkTask
  pub accepted_results : List AgentResult
  pub output_bindings : Dict OutputBinding
  pub steering_log : List String
  pub active_candidate_id : Option String
  pub candidate_approved : Bool
  pub release_artifact_sha256 : Option String
  pub completed : Bool

pub data MissionError : Type 0 where
  -- ValueError, StageGateDenied, and a KeyError or IndexError
  value_error gate_denied key_error : MissionError

abbrev pub stage_here : Mission → Option StagePlan
stage_here m = get_elem? m.plan.stages m.current_stage_index

-- the property `available_outputs`
abbrev pub available_outputs : Mission → List String
available_outputs m = keys m.output_bindings

-- `payload.get("artifacts", [])`
abbrev pub artifacts_of : AgentResult → List ArtifactEntry
artifacts_of r = elim r.payload.body [ none ↦ [] | some b ↦ b.artifacts ]
