-- ===== src/Mission/Stages.antt =====
-- src/agent_harness/mission.py: `advance_if_ready`, the step from one stage to the next.
use Prim.Native.String.{◌++◌ as append_text}
use sdlc_harness.Prelude.{
  ◌+◌, String, Bool, true, false, not, ◌&&◌, Option, none, some, List, [], ◌∷◌, ◌==◌, eqb, opt_eq,
  select, subset, length, is_some, if◌then◌else◌, Result, ok, err, ◌>>=◌, ◌>>◌, require,
}
use sdlc_harness.Dict.{Dict, get, put, keys}
use sdlc_harness.Handoff.{ArtifactEntry, lower}
use sdlc_harness.Methodology.{
  StageKind, StagePlan, same_stage, roles, implementation, validation, release,
}
use sdlc_harness.Mission.{
  OutputBinding, WorkTask, AgentResult, Mission, MissionError, artifact, gate_denied, stage_here,
  artifacts_of,
}
use sdlc_harness.Mission.Manager.{or_key_error, set_status, on_tasks}

-- `results[-1]`, and `none` for an empty list
abbrev pub last {ℓ} : {A : Type ℓ} → List A → Option A
last [] = none
last (x ∷ xs) = elim (last xs) [ none ↦ some x | some y ↦ some y ]

abbrev pub is_for : Mission → StageKind → String → AgentResult → Bool
is_for m stage role r =
    eqb r.revision m.revision && (same_stage r.stage stage && (r.sender_role == role))

-- the newest result of a role, which must pass
unfoldable pub passing_result : Mission → StageKind → String → Result MissionError AgentResult
passing_result m stage role = elim (last (select (is_for m stage role) m.accepted_results)) [
  | none ↦ err gate_denied
  | some r ↦ if opt_eq r.payload.gate (some "pass") then ok r else err gate_denied
]

-- the loop over the roles
unfoldable pub passing_results :
    Mission → StageKind → List String → Result MissionError (List (String × AgentResult))
passing_results m stage [] = ok []
passing_results m stage (role ∷ rest) = do
  r ← passing_result m stage role
  others ← passing_results m stage rest
  ok ((role, r) ∷ others)

-- `stage.roles - {"mission-manager"}`
abbrev pub required_roles : StagePlan → List String
required_roles s = select (λ role. not (role == "mission-manager")) (roles s)

abbrev produced : AgentResult → ArtifactEntry → OutputBinding
produced r e = record {
  output_id = e.artifact_type;
  kind = artifact;
  reference = append_text r.task_id (append_text ":" e.path);
  sha256 = lower e.sha256;
}

abbrev pub conflicts : Option OutputBinding → String → Bool
conflicts none digest = false
conflicts (some b) digest = not (b.sha256 == digest)

-- the entries of one result
unfoldable pub bind_entries :
    AgentResult → List ArtifactEntry → Dict OutputBinding → Result MissionError (Dict OutputBinding)
bind_entries r [] bound = ok bound
bind_entries r (e ∷ entries) bound = do
  require (not (conflicts (get e.artifact_type bound) (lower e.sha256))) gate_denied
  bind_entries r entries (put e.artifact_type (produced r e) bound)

unfoldable pub bind_results :
    List (String × AgentResult) → Dict OutputBinding → Result MissionError (Dict OutputBinding)
unfolding bind_entries
bind_results [] bound = ok bound
bind_results ((role, r) ∷ rest) bound = do
  bound' ← bind_entries r (artifacts_of r) bound
  bind_results rest bound'

-- what a stage needs beside its results
unfoldable pub gate_open : Mission → StageKind → Bool
gate_open m implementation = is_some m.active_candidate_id
gate_open m validation = m.candidate_approved
gate_open m release = is_some m.release_artifact_sha256
gate_open m _ = true

abbrev is_superseded : Mission → StageKind → String → WorkTask → Bool
is_superseded m stage role t =
    eqb t.revision m.revision
    && (same_stage t.stage stage && ((t.assignee_role == role) && (t.status == "result-received")))

abbrev pub settle_task : Mission → StageKind → String → AgentResult → WorkTask → WorkTask
settle_task m stage role r t =
    if t.task_id == r.task_id
    then set_status "completed" t
    else if is_superseded m stage role t
    then set_status "superseded" t
    else t

abbrev pub settle_all :
    Mission → StageKind → List (String × AgentResult) → Dict WorkTask → Dict WorkTask
settle_all m stage [] tasks = tasks
settle_all m stage ((role, r) ∷ rest) tasks =
    settle_all m stage rest (on_tasks (settle_task m stage role r) tasks)

-- `output_bindings.update(...)` for the required outputs
unfoldable pub take_outputs :
    List String → Dict OutputBinding → Dict OutputBinding → Dict OutputBinding
take_outputs [] bound outputs = outputs
take_outputs (id ∷ ids) bound outputs =
    take_outputs ids bound (elim (get id bound) [ none ↦ outputs | some b ↦ put id b outputs ])

abbrev pub settled :
    Mission → StagePlan → List (String × AgentResult) → Dict OutputBinding → Mission
settled m here passing bound = record m {
  tasks = settle_all m here.kind passing m.tasks;
  output_bindings = take_outputs here.required_outputs bound m.output_bindings;
}

-- the last stage completes the mission, any other goes on to the next
abbrev pub next_stage : Mission → Mission
next_stage m =
    if eqb (m.current_stage_index + 1) (length m.plan.stages)
    then record m { completed = true }
    else record m { current_stage_index = m.current_stage_index + 1 }

unfoldable pub advance_if_ready : Mission → Result MissionError Mission
unfolding passing_results passing_result bind_results gate_open take_outputs
advance_if_ready m = do
  require (not m.completed) gate_denied
  here ← or_key_error (stage_here m)
  passing ← passing_results m here.kind (required_roles here)
  bound ← bind_results passing []
  require (subset here.required_outputs (keys bound)) gate_denied
  require (gate_open m here.kind) gate_denied
  ok (next_stage (settled m here passing bound))
