-- ===== src/Workflow.antt =====
-- src/agent_harness/workflow_state.py: the event types, the rows of the table
-- `workflow_events`, and the operations of `WorkflowEventStore`.
-- The table is the list of its rows in the order of insertion. `hashlib.sha256` over
-- `json.dumps` is the parameter `digest` (of the dict that `calculated_hash` builds), and the
-- text of a payload is the parameter `canonical_json`; `uuid4` and the clock enter as arguments.
-- A payload maps names to a text or to null: the program writes no other values.
pub mod Chain
pub mod Appends
pub mod Fresh
pub mod Tamper
pub mod Projection
pub mod Tests
use sdlc_harness.Prelude.{
  ℕ, suc, ◌+◌, String, Bool, true, false, ◌&&◌, ◌||◌, Option, none, some, List, [], ◌∷◌, ◌++◌, ◌==◌,
  eqb, ltb, if◌then◌else◌, Result, ok, err, select, any,
}
use sdlc_harness.Dict.{Dict}

pub data EventType : Type 0 where
  mission_started revision_started task_issued attempt_started checkpoint_recorded : EventType
  attempt_interrupted retry_scheduled result_received stage_advanced candidate_frozen : EventType
  evidence_recorded quality_decided package_created mission_completed stale : EventType

-- `a is b`
abbrev pub same_type : EventType → EventType → Bool
same_type mission_started mission_started = true
same_type revision_started revision_started = true
same_type task_issued task_issued = true
same_type attempt_started attempt_started = true
same_type checkpoint_recorded checkpoint_recorded = true
same_type attempt_interrupted attempt_interrupted = true
same_type retry_scheduled retry_scheduled = true
same_type result_received result_received = true
same_type stage_advanced stage_advanced = true
same_type candidate_frozen candidate_frozen = true
same_type evidence_recorded evidence_recorded = true
same_type quality_decided quality_decided = true
same_type package_created package_created = true
same_type mission_completed mission_completed = true
same_type stale stale = true
same_type _ _ = false

abbrev pub Payload : Type 0
Payload = Dict (Option String)

-- the dict that `calculated_hash` hashes
pub record EventBody : Type 0 where
  pub event_id : String
  pub command_id : String
  pub mission_id : String
  pub revision : ℕ
  pub sequence : ℕ
  pub event_type : EventType
  pub payload : Payload
  pub created_at : String
  pub previous_hash : String

pub record WorkflowEvent : Type 0 where
  pub body : EventBody
  pub open body use *
  pub event_hash : String

pub data StoreError : Type 0 where
  -- ValueError, EventConflict, and the IntegrityError of a broken UNIQUE constraint
  missing_field conflict integrity : StoreError

-- `"0" * 64`
abbrev pub genesis : String
genesis = "0000000000000000000000000000000000000000000000000000000000000000"

-- SELECT * ... WHERE mission_id = ?
abbrev pub of_mission : String → List WorkflowEvent → List WorkflowEvent
of_mission m rows = select (λ e. e.mission_id == m) rows

-- SELECT * ... WHERE command_id = ?
unfoldable pub find_command : String → List WorkflowEvent → Option WorkflowEvent
find_command c [] = none
find_command c (e ∷ rows) = if e.command_id == c then some e else find_command c rows

abbrev pub newer : WorkflowEvent → Option WorkflowEvent → Option WorkflowEvent
newer e none = some e
newer e (some f) = if ltb f.sequence e.sequence then some e else some f

-- ... ORDER BY sequence DESC LIMIT 1
unfoldable pub latest : List WorkflowEvent → Option WorkflowEvent
latest [] = none
latest (e ∷ rows) = newer e (latest rows)

pub insert_row : WorkflowEvent → List WorkflowEvent → List WorkflowEvent
insert_row e [] = e ∷ []
insert_row e (f ∷ rows) = if ltb f.sequence e.sequence then f ∷ insert_row e rows else e ∷ f ∷ rows

-- ... ORDER BY sequence
pub by_sequence : List WorkflowEvent → List WorkflowEvent
unfolding insert_row
by_sequence [] = []
by_sequence (e ∷ rows) = insert_row e (by_sequence rows)

abbrev pub clashes : WorkflowEvent → WorkflowEvent → Bool
clashes e f =
    (f.event_id == e.event_id)
    || ((f.command_id == e.command_id)
        || ((f.mission_id == e.mission_id) && eqb f.sequence e.sequence))

-- INSERT, with the PRIMARY KEY and the UNIQUE constraints of the table
unfoldable pub insert :
    WorkflowEvent → List WorkflowEvent → Result StoreError WorkflowEvent × List WorkflowEvent
insert e rows = if any (clashes e) rows then (err integrity, rows) else (ok e, rows ++ e ∷ [])

pub events : String → List WorkflowEvent → List WorkflowEvent
unfolding by_sequence
events m rows = by_sequence (of_mission m rows)

-- the keyword arguments of `append`
pub record Draft : Type 0 where
  pub command_id : String
  pub mission_id : String
  pub revision : ℕ
  pub event_type : EventType
  pub payload : Payload

abbrev pub is_missing : Draft → Bool
is_missing d = (d.command_id == "") || ((d.mission_id == "") || ltb d.revision 1)

abbrev pub next_sequence : Option WorkflowEvent → ℕ
next_sequence none = 1
next_sequence (some e) = e.sequence + 1

abbrev pub next_previous_hash : Option WorkflowEvent → String
next_previous_hash none = genesis
next_previous_hash (some e) = e.event_hash

abbrev pub draft_body : Draft → String → String → Option WorkflowEvent → EventBody
draft_body d event_id created_at previous = record {
  event_id = event_id;
  command_id = d.command_id;
  mission_id = d.mission_id;
  revision = d.revision;
  sequence = next_sequence previous;
  event_type = d.event_type;
  payload = d.payload;
  created_at = created_at;
  previous_hash = next_previous_hash previous;
}

module _ (digest : EventBody → String) where
  abbrev pub sealed : EventBody → WorkflowEvent
  sealed b = record { body = b; event_hash = digest b }

  -- the loop of `verify_chain`, with the expected sequence and the previous hash
  pub chain_valid : ℕ → String → List WorkflowEvent → Bool
  chain_valid n previous [] = true
  chain_valid n previous (e ∷ rest) =
      eqb e.sequence n
      && ((e.previous_hash == previous)
          && ((e.event_hash == digest e.body) && chain_valid (suc n) e.event_hash rest))

  unfoldable pub verify_chain : String → List WorkflowEvent → Bool
  unfolding chain_valid events
  verify_chain m rows = chain_valid 1 genesis (events m rows)

module _ (canonical_json : Payload → String) where
  -- the stored event is the one that the command asks for
  abbrev pub matches_draft : Draft → WorkflowEvent → Bool
  matches_draft d e =
      (e.mission_id == d.mission_id)
      && (eqb e.revision d.revision
          && (same_type e.event_type d.event_type
              && (canonical_json e.payload == canonical_json d.payload)))

module _ (digest : EventBody → String) (canonical_json : Payload → String) where
  -- the branch that the row found by its command id selects
  unfoldable pub append_found :
      Draft
      → String
      → String
      → List WorkflowEvent
      → Option WorkflowEvent
      → Result StoreError WorkflowEvent × List WorkflowEvent
  unfolding insert
  append_found d event_id created_at rows (some existing) =
      if matches_draft canonical_json d existing then (ok existing, rows) else (err conflict, rows)
  append_found d event_id created_at rows none =
      insert
        (sealed digest (draft_body d event_id created_at (latest (of_mission d.mission_id rows))))
        rows

  -- the transaction: an error rolls back
  unfoldable pub append :
      Draft
      → String
      → String
      → List WorkflowEvent
      → Result StoreError WorkflowEvent × List WorkflowEvent
  unfolding append_found find_command latest
  append d event_id created_at rows =
      if is_missing d
      then (err missing_field, rows)
      else append_found d event_id created_at rows (find_command d.command_id rows)
