-- ===== src/Workflow/Projection.antt =====
-- src/agent_harness/workflow_state.py: `WorkflowProjection`, rebuilt from the events of a mission.
pub mod Replay
pub mod Extend
pub mod Shape
pub mod Retry
pub mod Tests
use sdlc_harness.Prelude.{
  ℕ, suc, ◌+◌, String, Bool, true, false, Option, none, some, List, [], ◌∷◌, ◌++◌, ◌==◌, eqb, not,
  ◌&&◌, Result, ok, err, ◌>>=◌, ◌>>◌, require, if◌then◌else◌,
}
use sdlc_harness.Dict.{Dict, get, put}
use sdlc_harness.Workflow.{
  EventType, Payload, EventBody, WorkflowEvent, genesis, mission_started, revision_started,
  task_issued, attempt_started, checkpoint_recorded, attempt_interrupted, retry_scheduled,
  result_received, stage_advanced, mission_completed,
}

pub record AttemptProjection : Type 0 where
  pub attempt_id : String
  pub task_id : String
  pub status : String
  pub checkpoint_ids : List String
  pub retry_of : Option String

pub record TaskProjection : Type 0 where
  pub task_id : String
  pub role : String
  pub active_attempt_id : Option String

pub record WorkflowProjection : Type 0 where
  pub mission_id : String
  pub revision : ℕ
  pub current_stage : Option String
  pub completed : Bool
  pub tasks : Dict TaskProjection
  pub attempts : Dict AttemptProjection
  pub last_sequence : ℕ

pub data ProjectionError : Type 0 where
  -- the four messages of ProjectionError, and a KeyError
  no_events mission_changed bad_link bad_hash key_error : ProjectionError

-- `str(value)`
abbrev pub text : Option String → String
text none = "None"
text (some s) = s

abbrev pub or_key_error {ℓ} : {A : Type ℓ} → Option A → Result ProjectionError A
or_key_error none = err key_error
or_key_error (some a) = ok a

-- `str(payload[key])`
abbrev pub field : String → Payload → Result ProjectionError String
field key payload = do value ← or_key_error (get key payload); ok (text value)

abbrev pub kept_checkpoints : Option AttemptProjection → List String
kept_checkpoints none = []
kept_checkpoints (some a) = a.checkpoint_ids

abbrev pub kept_retry : Option AttemptProjection → Option String
kept_retry none = none
kept_retry (some a) = a.retry_of

module _ (p : WorkflowProjection) where
  abbrev pub put_attempt : String → AttemptProjection → WorkflowProjection
  put_attempt k a = record p { attempts = put k a p.attempts }

  -- the running attempt that ATTEMPT_STARTED writes
  abbrev pub started : String → String → AttemptProjection
  started task attempt = record {
    attempt_id = attempt;
    task_id = task;
    status = "running";
    checkpoint_ids = kept_checkpoints (get attempt p.attempts);
    retry_of = kept_retry (get attempt p.attempts);
  }

  abbrev pub start_attempt : String → String → TaskProjection → WorkflowProjection
  start_attempt task attempt t = record p {
    attempts = put attempt (started task attempt) p.attempts;
    tasks =
        put task (record { task_id = t.task_id; role = t.role; active_attempt_id = some attempt })
          p.tasks;
  }

-- The branches of `_apply`, by the type of the event.
unfoldable pub apply_type :
    EventType → WorkflowEvent → WorkflowProjection → Result ProjectionError WorkflowProjection
apply_type mission_started e p = do
  stage ← field "stage" e.payload
  ok (record p { revision = e.revision; current_stage = some stage; completed = false })
apply_type revision_started e p = do
  stage ← field "stage" e.payload
  ok (record p { revision = e.revision; current_stage = some stage; completed = false })
apply_type task_issued e p = do
  task ← field "task_id" e.payload
  role ← field "role" e.payload
  ok (record p {
    tasks = put task (record { task_id = task; role = role; active_attempt_id = none }) p.tasks;
  })
apply_type attempt_started e p = do
  task ← field "task_id" e.payload
  attempt ← field "attempt_id" e.payload
  t ← or_key_error (get task p.tasks)
  ok (start_attempt p task attempt t)
apply_type checkpoint_recorded e p = do
  attempt ← field "attempt_id" e.payload
  a ← or_key_error (get attempt p.attempts)
  checkpoint ← field "checkpoint_id" e.payload
  ok (put_attempt p attempt (record a { checkpoint_ids = a.checkpoint_ids ++ checkpoint ∷ [] }))
apply_type attempt_interrupted e p = do
  attempt ← field "attempt_id" e.payload
  a ← or_key_error (get attempt p.attempts)
  ok (put_attempt p attempt (record a { status = "interrupted" }))
apply_type retry_scheduled e p = do
  attempt ← field "attempt_id" e.payload
  task ← field "task_id" e.payload
  prior ← field "prior_attempt_id" e.payload
  ok (
      put_attempt p attempt (record {
        attempt_id = attempt;
        task_id = task;
        status = "scheduled";
        checkpoint_ids = [];
        retry_of = some prior;
      }))
apply_type result_received e p = do
  attempt ← field "attempt_id" e.payload
  a ← or_key_error (get attempt p.attempts)
  ok (put_attempt p attempt (record a { status = "completed" }))
apply_type stage_advanced e p = do
  stage ← field "stage" e.payload
  ok (record p { current_stage = some stage })
apply_type mission_completed e p = ok (record p { completed = true; current_stage = none })
apply_type _ e p = ok p

abbrev pub apply : WorkflowEvent → WorkflowProjection → Result ProjectionError WorkflowProjection
apply e p = apply_type e.event_type e p

abbrev pub started_from : WorkflowEvent → WorkflowProjection
started_from e = record {
  mission_id = e.mission_id;
  revision = e.revision;
  current_stage = none;
  completed = false;
  tasks = [];
  attempts = [];
  last_sequence = 0;
}

module _ (digest : EventBody → String) where
  -- the tests of one round of the loop in `rebuild`
  pub check_link :
      ℕ → String → WorkflowEvent → WorkflowProjection → Result ProjectionError (Unit {0})
  check_link n previous e p = do
    require (e.mission_id == p.mission_id) mission_changed
    require (eqb e.sequence n && (e.previous_hash == previous)) bad_link
    require (digest e.body == e.event_hash) bad_hash

  pub rebuild_from :
      ℕ
      → String
      → List WorkflowEvent
      → WorkflowProjection
      → Result ProjectionError WorkflowProjection
  rebuild_from n previous [] p = ok p
  rebuild_from n previous (e ∷ rest) p = do
    check_link n previous e p
    q ← apply e p
    rebuild_from (suc n) e.event_hash rest (record q { last_sequence = e.sequence })

  unfoldable pub rebuild : List WorkflowEvent → Result ProjectionError WorkflowProjection
  unfolding rebuild_from check_link apply_type
  rebuild [] = err no_events
  rebuild (e ∷ rest) = rebuild_from 1 genesis (e ∷ rest) (started_from e)
