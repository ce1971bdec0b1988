-- ===== src/Policy.antt =====
-- src/agent_harness/workflow_policy.py: `WorkflowPolicyEngine`.
-- An operation takes the mission, which the manager mutates, and the rows of the event store. It
-- returns the mission after it or raises; the rows that it has stored before it raises stay. The
-- mission of a call that raises is dropped, as the plugin service does, which saves at the end.
pub mod Engine
pub mod Follows
pub mod Agrees
pub mod Refines
pub mod Attempts
pub mod Stages
pub mod Reports
pub mod Turns
pub mod Retries
pub mod History
pub mod Tests
use sdlc_harness.Prelude.{
  String, Option, none, some, List, Result, ok, err, Bool, true, false, ◌≡◌, refl,
}
use sdlc_harness.Mission.{MissionError}
use sdlc_harness.Workflow.{EventType, Payload, EventBody, WorkflowEvent, StoreError, Draft, append}

pub data PolicyError : Type 0 where
  -- an exception of the manager, of the store, WorkflowPolicyError, KeyError and OSError
  manager_error : MissionError → PolicyError
  store_error : StoreError → PolicyError
  policy_error key_error os_error : PolicyError

-- a call that may store events and may raise
abbrev pub Act : Type 0 → Type 0
Act A = List WorkflowEvent → Result PolicyError A × List WorkflowEvent

abbrev pub go_on :
    {A B : Type 0}
    → Result PolicyError A × List WorkflowEvent
    → (A → Act B)
    → Result PolicyError B × List WorkflowEvent
go_on (ok a, after) k = k a after
go_on (err e, after) k = (err e, after)

infixl 5 ◌>>=◌ ◌>>◌
abbrev pub ◌>>=◌ : {A B : Type 0} → Act A → (A → Act B) → Act B
(f >>= k) rows = go_on (f rows) k

abbrev pub ◌>>◌ : {B : Type 0} → Act (Unit {0}) → Act B → Act B
f >> k = f >>= λ _. k

abbrev pub give : {A : Type 0} → A → Act A
give a rows = (ok a, rows)

abbrev pub raise : {A : Type 0} → PolicyError → Act A
raise e rows = (err e, rows)

-- a call of the manager
abbrev pub managed : {A : Type 0} → Result MissionError A → Act A
managed (ok a) rows = (ok a, rows)
managed (err e) rows = (err (manager_error e), rows)

abbrev pub found : {A : Type 0} → PolicyError → Option A → Act A
found e none rows = (err e, rows)
found e (some a) rows = (ok a, rows)

abbrev pub check : Bool → PolicyError → Act (Unit {0})
check true e rows = (ok tt, rows)
check false e rows = (err e, rows)

-- the id and the time that the store draws for an event
pub record Stamp : Type 0 where
  pub event_id : String
  pub created_at : String

abbrev pub stored :
    Result StoreError WorkflowEvent × List WorkflowEvent
    → Result PolicyError WorkflowEvent × List WorkflowEvent
stored (ok e, rows) = (ok e, rows)
stored (err x, rows) = (err (store_error x), rows)

module _ (digest : EventBody → String) (canonical_json : Payload → String) where
  -- `event_store.append`
  unfoldable pub emit : Draft → Stamp → Act WorkflowEvent
  emit d s rows = stored (append digest canonical_json d s.event_id s.created_at rows)
