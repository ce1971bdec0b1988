-- ===== src/Mission/Manager.antt =====
-- src/agent_harness/mission.py: the operations of `MissionManager` on its current mission.
-- A task is mutated through the mission that holds it; ids that `uuid4` draws are arguments.
use Prim.Native.Char.{code}
use Prim.Native.String.{◌++◌ as append_text}
use sdlc_harness.Prelude.{
  ℕ, ◌+◌, String, Bool, true, false, not, ◌&&◌, ◌||◌, Option, none, some, List, [], ◌∷◌, ◌++◌, ◌≡◌,
  refl, ◌==◌, eqb, leb, opt_eq, map, contains, subset, if◌then◌else◌, Result, ok, err, ◌>>=◌, ◌>>◌,
  require,
}
use sdlc_harness.Dict.{Dict, get, put}
use sdlc_harness.Handoff.{Disk, Handoff}
use sdlc_harness.Methodology.{
  GoalDefinition, StageKind, same_stage, roles, implementation, integration_verification,
  validation, release,
}
use sdlc_harness.Methodology.Planner.{plan}
use sdlc_harness.Mission.{
  OutputBinding, Hashes, ResultDisposition, WorkTask, AgentResult, Mission, MissionError, candidate,
  policy_decision, release_artifact, accepted_as_input, quarantined_foreign_mission,
  quarantined_stale_revision, rejected_unexpected_task, rejected_invalid_payload, value_error,
  gate_denied, key_error, stage_here, available_outputs,
}
use sdlc_harness.Mission.Results.{has_valid_hash, has_valid_handoff}
use sdlc_harness.Mission.Bindings.{initial_output_bindings}

abbrev pub or_key_error {ℓ} : {A : Type ℓ} → Option A → Result MissionError A
or_key_error none = err key_error
or_key_error (some a) = ok a

pub found_ok :
    {A B : Type 0} {b : B} (o : Option A) (k : A → Result MissionError B)
    → (or_key_error o >>= k) ≡ ok b
    → (a : A) × (o ≡ some a) × (k a ≡ ok b)
found_ok none k h = cc
found_ok (some a) k h = (a, refl, h)

unfoldable pub create_mission : Hashes → String → GoalDefinition → Mission
create_mission hashes id goal = record {
  mission_id = id;
  revision = 1;
  goal = goal;
  plan = plan goal;
  current_stage_index = 0;
  tasks = [];
  accepted_results = [];
  output_bindings = initial_output_bindings hashes goal (plan goal);
  steering_log = [];
  active_candidate_id = none;
  candidate_approved = false;
  release_artifact_sha256 = none;
  completed = false;
}

-- the stages whose tasks are bound to the active candidate by default
abbrev pub binds_candidate : StageKind → Bool
binds_candidate integration_verification = true
binds_candidate validation = true
binds_candidate release = true
binds_candidate _ = false

abbrev pub bound_candidate : StageKind → Option String → Option String → Option String
bound_candidate stage (some c) active = some c
bound_candidate stage none active = if binds_candidate stage then active else none

abbrev pub new_task :
    Mission → StageKind → String → Option String → String → String → String → WorkTask
new_task m stage role candidate_id task_hex attempt_hex expert = record {
  task_id = append_text "task-" task_hex;
  mission_id = m.mission_id;
  revision = m.revision;
  stage = stage;
  assignee_role = role;
  candidate_id = bound_candidate stage candidate_id m.active_candidate_id;
  attempt_id = append_text "attempt-" attempt_hex;
  worker_id = expert;
  workspace_id = append_text "workspace-" (append_text "task-" task_hex);
  status = "issued";
}

abbrev pub add_task : Mission → WorkTask → Mission
add_task m t = record m { tasks = put t.task_id t m.tasks }

unfoldable pub issue_task :
    Mission
    → StageKind
    → String
    → Option String
    → String
    → String
    → Result MissionError (WorkTask × Mission)
issue_task m stage role candidate_id task_hex attempt_hex = do
  require (not m.completed) value_error
  here ← or_key_error (stage_here m)
  require (same_stage stage here.kind) value_error
  require (contains role (roles here)) value_error
  require (subset here.required_inputs (available_outputs m)) gate_denied
  expert ← or_key_error (get role here.expert_profiles)
  let t = new_task m stage role candidate_id task_hex attempt_hex expert.expert_id
  ok (t, add_task m t)

-- the conditions under which a task expects a result
abbrev pub expects : WorkTask → AgentResult → Bool
expects t r =
    same_stage t.stage r.stage
    && ((t.assignee_role == r.sender_role) && opt_eq t.candidate_id r.candidate_id)

abbrev pub set_status : String → WorkTask → WorkTask
set_status s t = record t { status = s }

abbrev pub accept : Mission → WorkTask → AgentResult → Mission
accept m t r = record m {
  tasks = put r.task_id (set_status "result-received" t) m.tasks;
  accepted_results = m.accepted_results ++ r ∷ [];
}

module _ (hashes : Hashes) (schema_valid : Handoff → Bool) (disk : Disk) where
  unfoldable pub receive_for :
      Mission
      → List AgentResult
      → AgentResult
      → Option WorkTask
      → ResultDisposition × Mission × List AgentResult
  receive_for m inbox r none = (rejected_unexpected_task, m, inbox)
  receive_for m inbox r (some t) =
      if expects t r
      then (if has_valid_hash hashes r && has_valid_handoff schema_valid disk r
          then (accepted_as_input, accept m t r, inbox)
          else (rejected_invalid_payload, m, inbox))
      else (rejected_unexpected_task, m, inbox)

  -- the mission and the inbox after a result has come in
  unfoldable pub receive_result :
      Mission → List AgentResult → AgentResult → ResultDisposition × Mission × List AgentResult
  unfolding receive_for
  receive_result m inbox r =
      if not (r.mission_id == m.mission_id)
      then (quarantined_foreign_mission, m, inbox ++ r ∷ [])
      else if not (eqb r.revision m.revision)
      then (quarantined_stale_revision, m, inbox ++ r ∷ [])
      else receive_for m inbox r (get r.task_id m.tasks)

-- the characters that `str.strip` removes
abbrev is_space : ℕ → Bool
is_space c =
    (leb 9 c && leb c 13)
    || ((leb 28 c && leb c 32)
        || (eqb c 133
            || (eqb c 160
                || (eqb c 5760
                    || ((leb 8192 c && leb c 8202)
                        || (eqb c 8232
                            || (eqb c 8233 || (eqb c 8239 || (eqb c 8287 || eqb c 12288)))))))))

-- `not text.strip()`
unfoldable pub is_blank : String → Bool
is_blank String.[] = true
is_blank (String.◌∷◌ c s) = is_space (code c) && is_blank s

abbrev pub on_tasks : (WorkTask → WorkTask) → Dict WorkTask → Dict WorkTask
on_tasks f tasks = map (λ e. (e.0, f e.1)) tasks

abbrev pub go_stale : WorkTask → WorkTask
go_stale t = if t.status == "completed" then t else set_status "stale" t

abbrev pub steered : Hashes → Mission → GoalDefinition → String → Mission
steered hashes m goal instruction = record m {
  tasks = on_tasks go_stale m.tasks;
  revision = m.revision + 1;
  goal = goal;
  plan = plan goal;
  current_stage_index = 0;
  active_candidate_id = none;
  candidate_approved = false;
  release_artifact_sha256 = none;
  completed = false;
  output_bindings = initial_output_bindings hashes goal (plan goal);
  steering_log = m.steering_log ++ instruction ∷ [];
}

unfoldable pub apply_user_steering :
    Hashes → Mission → GoalDefinition → String → Result MissionError Mission
unfolding is_blank
apply_user_steering hashes m goal instruction =
    if is_blank instruction then err value_error else ok (steered hashes m goal instruction)

abbrev pub freeze_task : Mission → String → WorkTask → WorkTask
freeze_task m candidate_id t =
    if eqb t.revision m.revision && same_stage t.stage implementation
    then record t { candidate_id = some candidate_id }
    else t

-- `mission.active_candidate_id not in {None, candidate_id}`
abbrev pub is_other : Option String → String → Bool
is_other none c = false
is_other (some a) c = not (a == c)

abbrev pub frozen_mission : Mission → String → String → Mission
frozen_mission m candidate_id digest = record m {
  active_candidate_id = some candidate_id;
  candidate_approved = false;
  release_artifact_sha256 = none;
  output_bindings =
      put "frozen-candidate"
        (record {
          output_id = "frozen-candidate";
          kind = candidate;
          reference = candidate_id;
          sha256 = digest;
        })
        m.output_bindings;
  tasks = on_tasks (freeze_task m candidate_id) m.tasks;
}

unfoldable pub bind_candidate : Mission → String → String → Result MissionError Mission
bind_candidate m candidate_id digest = do
  here ← or_key_error (stage_here m)
  require (same_stage here.kind implementation) gate_denied
  require (not (is_other m.active_candidate_id candidate_id)) gate_denied
  ok (frozen_mission m candidate_id digest)

abbrev pub decided : Hashes → String → String → String → OutputBinding
decided hashes output_id candidate_id reference = record {
  output_id = output_id;
  kind = policy_decision;
  reference = reference;
  sha256 = hashes.decision candidate_id reference;
}

abbrev pub approved_mission : Hashes → Mission → String → String → Mission
approved_mission hashes m candidate_id reference = record m {
  candidate_approved = true;
  output_bindings = put "gate-decision" (decided hashes "gate-decision" candidate_id reference) (
      put "approved-candidate" (decided hashes "approved-candidate" candidate_id reference)
        m.output_bindings);
}

unfoldable pub mark_candidate_approved :
    Hashes → Mission → String → String → Result MissionError Mission
mark_candidate_approved hashes m candidate_id reference = do
  here ← or_key_error (stage_here m)
  require (same_stage here.kind validation) gate_denied
  require (opt_eq m.active_candidate_id (some candidate_id)) gate_denied
  ok (approved_mission hashes m candidate_id reference)

abbrev pub released_mission : Mission → String → String → Mission
released_mission m digest reference = record m {
  release_artifact_sha256 = some digest;
  output_bindings =
      put "release-package"
        (record {
          output_id = "release-package";
          kind = release_artifact;
          reference = reference;
          sha256 = digest;
        })
        m.output_bindings;
}

unfoldable pub bind_release : Mission → String → String → String → Result MissionError Mission
bind_release m candidate_id digest reference = do
  here ← or_key_error (stage_here m)
  require (same_stage here.kind release) gate_denied
  require (opt_eq m.active_candidate_id (some candidate_id)) gate_denied
  require m.candidate_approved gate_denied
  ok (released_mission m digest reference)
