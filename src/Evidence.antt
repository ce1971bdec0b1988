-- ===== src/Evidence.antt =====
-- src/agent_harness/evidence.py: `EvidenceLedger`.
-- The two tables are the events in the order of their sequence numbers and the bindings by artifact
-- digest; triggers forbid to change or delete a row. The hash of a payload after a previous hash is
-- the parameter `digest`. A detail is what `append` or `invalidate` writes, without the keys of the
-- caller that no operation reads; an artifact path is absolute.
pub mod Chain
pub mod Calls
pub mod Tests
use Prim.Native.Char.{Char, code}
use Prim.Native.String.{◌++◌ as append_text}
use sdlc_harness.Prelude.{
  ℕ, zero, suc, String, Bool, true, false, not, ◌&&◌, ◌||◌, Option, none, some, List, [], ◌∷◌, ◌++◌,
  ◌==◌, eqb, leb, opt_eq, any, all, map, select, contains, subset, if◌then◌else◌, Result, ok, err,
  ◌>>=◌, ◌>>◌, require,
}
use sdlc_harness.Dict.{Dict, get, put}
use sdlc_harness.Handoff.{
  Disk, FilePath, ExpectedResult, DecisionRule, Observation, lower, distinct,
}

pub data EvidenceStatus : Type 0 where
  valid stale rejected : EvidenceStatus

pub data EventKind : Type 0 where
  evidence invalidation : EventKind

pub record Evaluation : Type 0 where
  pub expected_results : List ExpectedResult
  pub decision_rules : List DecisionRule
  pub observations : List Observation

pub data Details : Type 0 where
  evaluated : FilePath → Evaluation → Details
  reason : String → Details

-- mission, revision and candidate
pub record Target : Type 0 where
  pub mission_id : String
  pub revision : ℕ
  pub candidate_id : String

abbrev pub same_target : Target → Target → Bool
same_target a b =
    (a.mission_id == b.mission_id)
    && (eqb a.revision b.revision && (a.candidate_id == b.candidate_id))

-- the dict that is hashed
pub record EvidencePayload : Type 0 where
  pub event_id : String
  pub event_type : EventKind
  pub subject_id : Option String
  pub target : Target
  pub open target use *
  pub evidence_type : String
  pub producer_role : String
  pub outcome : String
  pub artifact_sha256 : String
  pub details : Details

pub record EvidenceRecord : Type 0 where
  pub payload : EvidencePayload
  pub open payload use *
  pub previous_hash : String
  pub record_hash : String

pub record Ledger : Type 0 where
  pub events : List EvidenceRecord
  pub bindings : Dict Target

pub data EvidenceError : Type 0 where
  -- ValueError, KeyError, OSError, and the IntegrityError of a UNIQUE constraint
  value_error key_error os_error integrity : EvidenceError

abbrev pub genesis : String
genesis = "0000000000000000000000000000000000000000000000000000000000000000"

abbrev is_empty {ℓ} : {A : Type ℓ} → List A → Bool
is_empty [] = true
is_empty (_ ∷ _) = false

-- `has_bound_evaluation`
abbrev pub has_bound_evaluation : EvidenceRecord → Bool
has_bound_evaluation r = elim r.details [
  | reason _ ↦ false
  | evaluated _ e ↦
      not (is_empty e.expected_results)
      && (not (is_empty e.decision_rules) && not (is_empty e.observations))
]

abbrev is_hex : Char → Bool
is_hex c = (leb 48 (code c) && leb (code c) 57) || (leb 97 (code c) && leb (code c) 102)

-- `[0-9a-f]{n}`
unfoldable pub is_hex_text : ℕ → String → Bool
is_hex_text zero String.[] = true
is_hex_text (suc n) (String.◌∷◌ c s) = is_hex c && is_hex_text n s
is_hex_text _ _ = false

abbrev pub last_hash : String → List EvidenceRecord → String
last_hash previous [] = previous
last_hash previous (e ∷ rest) = last_hash e.record_hash rest

abbrev pub is_evidence : EventKind → Bool
is_evidence evidence = true
is_evidence invalidation = false

-- the bindings after the lookup, or the refusal
unfoldable pub bind_artifact : EvidencePayload → Dict Target → Result EvidenceError (Dict Target)
bind_artifact p bindings =
    if is_evidence p.event_type
    then elim (get p.artifact_sha256 bindings) [
      | none ↦ ok (put p.artifact_sha256 p.target bindings)
      | some target ↦ if same_target target p.target then ok bindings else err value_error
    ]
    else ok bindings

abbrev pub clashes : EvidenceRecord → EvidenceRecord → Bool
clashes e f = (f.event_id == e.event_id) || (f.record_hash == e.record_hash)

module _ (digest : EvidencePayload → String → String) where
  abbrev pub sealed : EvidencePayload → String → EvidenceRecord
  sealed p previous = record {
    payload = p;
    previous_hash = previous;
    record_hash = digest p previous;
  }

  -- `_append_event`, in one transaction
  unfoldable pub append_event :
      EvidencePayload → Ledger → Result EvidenceError (EvidenceRecord × Ledger)
  unfolding is_hex_text bind_artifact
  append_event p ledger = do
    require (is_hex_text 64 (lower p.artifact_sha256)) value_error
    bindings ← bind_artifact p ledger.bindings
    let e = sealed p (last_hash genesis ledger.events)
    require (not (any (clashes e) ledger.events)) integrity
    ok (e, record { events = ledger.events ++ e ∷ []; bindings = bindings })

  -- the loop of `verify_chain`
  unfoldable pub chain_valid : String → List EvidenceRecord → Bool
  chain_valid previous [] = true
  chain_valid previous (e ∷ rest) =
      (e.previous_hash == previous)
      && ((e.record_hash == digest e.payload previous) && chain_valid e.record_hash rest)

  abbrev pub verify_chain : Ledger → Bool
  verify_chain ledger = chain_valid genesis ledger.events

-- `_validate_evaluation`
unfoldable pub validate_evaluation :
    String → String → String → Evaluation → Result EvidenceError (Unit {0})
validate_evaluation producer_role outcome artifact_sha256 e = do
  require
      (not (is_empty e.expected_results || (is_empty e.decision_rules || is_empty e.observations)))
      value_error
  let rules = map (λ (r : DecisionRule). r.decision_rule_id) e.decision_rules
  let expected = map (λ (x : ExpectedResult). x.expected_result_id) e.expected_results
  require (not (contains "" rules) && distinct rules) value_error
  require (not (contains "" expected) && distinct expected) value_error
  require
      (all (λ (x : ExpectedResult). not ((x.owner_role == "") || (x.owner_role == producer_role)))
          e.expected_results
        && all (λ (r : DecisionRule). not ((r.owner_role == "") || (r.owner_role == producer_role)))
            e.decision_rules)
      value_error
  require
      (all
        (λ (x : ExpectedResult).
          not (is_empty x.decision_rule_ids) && subset x.decision_rule_ids rules)
        e.expected_results)
      value_error
  require
      (all
        (λ (o : Observation).
          contains o.expected_result_id expected && (lower o.artifact_sha256 == artifact_sha256))
        e.observations)
      value_error
  require (subset expected (map (λ (o : Observation). o.expected_result_id) e.observations))
      value_error
  require
      (if outcome == "pass"
        then all (λ (o : Observation). o.outcome == "pass") e.observations
        else true)
      value_error

-- the keyword arguments of `append`
pub record Submission : Type 0 where
  pub target : Target
  pub evidence_type : String
  pub producer_role : String
  pub outcome : String
  pub artifact_path : FilePath
  pub evaluation : Evaluation

-- the `while` loop, which does not test the root
unfoldable pub free_of_links : Disk → FilePath → Bool
free_of_links disk [] = true
free_of_links disk (x ∷ path) = not (disk.is_symlink (x ∷ path)) && free_of_links disk path

abbrev pub or_error {ℓ} : {A : Type ℓ} → EvidenceError → Option A → Result EvidenceError A
or_error e none = err e
or_error e (some a) = ok a

-- SELECT * ... WHERE event_id = ?
unfoldable pub find_event : String → List EvidenceRecord → Option EvidenceRecord
find_event id [] = none
find_event id (e ∷ rest) = if e.event_id == id then some e else find_event id rest

abbrev pub invalidates : String → EvidenceRecord → Bool
invalidates id e = not (is_evidence e.event_type) && opt_eq e.subject_id (some id)

abbrev pub status_of : EvidenceRecord → List EvidenceRecord → Result EvidenceError EvidenceStatus
status_of e events =
    if is_evidence e.event_type
    then ok (
        if any (invalidates e.event_id) events
        then stale
        else if e.outcome == "pass"
        then valid
        else rejected)
    else err value_error

unfoldable pub status : String → Ledger → Result EvidenceError EvidenceStatus
unfolding find_event
status id ledger = do
  original ← or_error key_error (find_event id ledger.events)
  status_of original ledger.events

unfoldable pub records_for : Target → Ledger → List EvidenceRecord
records_for t ledger =
    select (λ e. is_evidence e.event_type && same_target e.target t) ledger.events

-- the event of a submission, and the one of an invalidation
abbrev pub submitted : String → Submission → FilePath → String → EvidencePayload
submitted hex s resolved artifact_sha256 = record {
  event_id = append_text "ev-" hex;
  event_type = evidence;
  subject_id = none;
  target = s.target;
  evidence_type = s.evidence_type;
  producer_role = s.producer_role;
  outcome = s.outcome;
  artifact_sha256 = artifact_sha256;
  details = evaluated resolved s.evaluation;
}

abbrev pub retraction : String → String → String → String → EvidenceRecord → EvidencePayload
retraction hex event_id producer_role why original = record {
  event_id = append_text "ev-" hex;
  event_type = invalidation;
  subject_id = some event_id;
  target = original.target;
  evidence_type = original.evidence_type;
  producer_role = producer_role;
  outcome = "stale";
  artifact_sha256 = original.artifact_sha256;
  details = reason why;
}

module _ (digest : EvidencePayload → String → String) where
  unfoldable pub append :
      Disk → String → Submission → Ledger → Result EvidenceError (EvidenceRecord × Ledger)
  unfolding free_of_links validate_evaluation append_event
  append disk hex s ledger = do
    require (free_of_links disk s.artifact_path) value_error
    resolved ← or_error os_error (disk.resolve s.artifact_path)
    require (disk.is_file resolved) value_error
    validate_evaluation s.producer_role s.outcome (disk.sha256 resolved) s.evaluation
    append_event digest (submitted hex s resolved (disk.sha256 resolved)) ledger

  unfoldable pub invalidate :
      String → String → String → String → Ledger → Result EvidenceError (EvidenceRecord × Ledger)
  unfolding append_event find_event
  invalidate hex event_id producer_role why ledger = do
    original ← or_error key_error (find_event event_id ledger.events)
    append_event digest (retraction hex event_id producer_role why original) ledger
