-- ===== src/Plugin.antt =====
-- src/agent_harness/plugin_service.py: which operations a task is open to, and the steps that each
-- operation of `WorkflowPluginService` on a task begins with and ends with.
-- A call's parameters are a record of the keys that these steps read. Time is an argument, and so
-- is the table of grants of the mission's own authority store.
pub mod Open
pub mod Granted
pub mod Begin
pub mod Tests
use sdlc_harness.Prelude.{
  ℕ, String, Bool, true, false, not, ◌&&◌, ◌||◌, Option, none, some, List, [], ◌∷◌, ◌++◌, ◌==◌, eqb,
  opt_eq, any, contains, if◌then◌else◌, Result, ok, err, ◌>>=◌, ◌>>◌, require,
}
use sdlc_harness.Dict.{Dict, get}
use sdlc_harness.Authority.{AuthorityRequest, AuthorityError, VerifiedAuthority, Grant, consume}
use sdlc_harness.Methodology.{
  StageKind, StagePlan, same_stage, stage_value, implementation, integration_verification,
  validation, release,
}
use sdlc_harness.Mission.{Mission, WorkTask, stage_here}
use sdlc_harness.Workflow.{EventBody, WorkflowEvent, verify_chain}
use sdlc_harness.Workflow.Projection.{WorkflowProjection, ProjectionError}
use sdlc_harness.Policy.Engine.{projection}

pub data PluginError : Type 0 where
  -- WorkflowPluginError, an IndexError, and what `WorkflowProjection.rebuild` raises
  plugin_error index_error : PluginError
  projection_error : ProjectionError → PluginError

abbrev pub or_error {ℓ} : {A : Type ℓ} → PluginError → Option A → Result PluginError A
or_error e none = err e
or_error e (some a) = ok a

-- the keys of `params` that the steps read
pub record Params : Type 0 where
  pub keys : List String
  pub revision : Option ℕ
  pub task_id : String
  pub authority_token : String

abbrev pub stage_operations : StageKind → List String
stage_operations implementation = "freeze-candidate" ∷ []
stage_operations integration_verification = "record-evidence" ∷ []
stage_operations validation = "record-evidence" ∷ "approve-candidate" ∷ []
stage_operations release = "package-release" ∷ []
stage_operations _ = []

unfoldable pub operations_for_task : WorkTask → List String
operations_for_task t =
    if t.status == "interrupted"
    then "retry-attempt" ∷ []
    else ("submit-result" ∷ "record-checkpoint" ∷ "interrupt-attempt" ∷ [])
      ++ stage_operations t.stage

abbrev pub is_open : StagePlan → String → WorkTask → Bool
is_open here operation t =
    same_stage t.stage here.kind && contains operation (operations_for_task t)

unfoldable pub operation_task : Mission → Params → String → Result PluginError WorkTask
operation_task m params operation = do
  t ← or_error plugin_error (get params.task_id m.tasks)
  require (eqb t.revision m.revision) plugin_error
  here ← or_error index_error (stage_here m)
  require (is_open here operation t) plugin_error
  ok t

abbrev pub authority_request : WorkTask → String → AuthorityRequest
authority_request t operation = record {
  binding = record {
    mission_id = t.mission_id;
    revision = t.revision;
    task_id = t.task_id;
    attempt_id = t.attempt_id;
    worker_id = t.worker_id;
    workspace_id = t.workspace_id;
    candidate_id = t.candidate_id;
    role = t.assignee_role;
  };
  operation = operation;
  tool = none;
}

-- `int(supplied or 0) != current`
abbrev pub supplied_revision : Option ℕ → ℕ
supplied_revision none = 0
supplied_revision (some n) = n

unfoldable pub require_revision : ℕ → Option ℕ → Result PluginError (Unit {0})
require_revision current supplied = require (eqb (supplied_revision supplied) current) plugin_error

abbrev pub role_claims : List String
role_claims = "role" ∷ "producer_role" ∷ "reviewer_role" ∷ "created_by_role" ∷ []

unfoldable pub reject_role_claims : Params → Result PluginError (Unit {0})
reject_role_claims params =
    require (not (any (λ claim. contains claim params.keys) role_claims)) plugin_error

-- a refusal of the store is raised again as a WorkflowPluginError
abbrev pub reported : Result AuthorityError VerifiedAuthority → Result PluginError VerifiedAuthority
reported (ok a) = ok a
reported (err _) = err plugin_error

module _ (sha256 : String → String) where
  unfoldable pub authorize :
      ℕ
      → WorkTask
      → Params
      → String
      → List Grant
      → Result PluginError VerifiedAuthority × List Grant
  authorize now t params operation rows =
      let out = consume sha256 now params.authority_token (authority_request t operation) rows in
      (reported out.0, out.1)

  -- the tests before the authority is used
  unfoldable pub admitted : Mission → Params → String → Result PluginError WorkTask
  unfolding require_revision reject_role_claims operation_task
  admitted m params operation = do
    require_revision m.revision params.revision
    reject_role_claims params
    operation_task m params operation

  abbrev pub authorized :
      ℕ
      → Params
      → String
      → List Grant
      → Result PluginError WorkTask
      → Result PluginError (WorkTask × VerifiedAuthority) × List Grant
  authorized now params operation rows (err e) = (err e, rows)
  authorized now params operation rows (ok t) =
      let out = authorize now t params operation rows in (out.0 >>= λ a. ok (t, a), out.1)

  -- the beginning of `record_checkpoint`, `interrupt_attempt` and `retry_attempt`, after the chain of
  -- the mission was found valid where the call opens its event store (`_policy`)
  unfoldable pub begin_operation :
      ℕ
      → Mission
      → Params
      → String
      → List Grant
      → Result PluginError (WorkTask × VerifiedAuthority) × List Grant
  unfolding authorize admitted
  begin_operation now m params operation rows =
      authorized now params operation rows (admitted m params operation)

abbrev pub rebuilt :
    Result ProjectionError WorkflowProjection → Result PluginError WorkflowProjection
rebuilt (ok p) = ok p
rebuilt (err e) = err (projection_error e)

-- the stage that the projection must show
unfoldable pub stage_shown : Mission → Result PluginError (Option String)
stage_shown m =
    if m.completed
    then ok none
    else or_error index_error (stage_here m) >>= λ here. ok (some (stage_value here.kind))

abbrev pub same_flag : Bool → Bool → Bool
same_flag true b = b
same_flag false b = not b

abbrev pub matches : Mission → Option String → WorkflowProjection → Bool
matches m expected p =
    eqb p.revision m.revision
    && (opt_eq p.current_stage expected && same_flag p.completed m.completed)

module _ (digest : EventBody → String) where
  -- the checks of `_response`
  unfoldable pub check_response :
      Mission → List WorkflowEvent → Result PluginError WorkflowProjection
  unfolding stage_shown
  check_response m rows = do
    require (verify_chain digest m.mission_id rows) plugin_error
    p ← rebuilt (projection digest m rows)
    expected ← stage_shown m
    require (matches m expected p) plugin_error
    ok p
