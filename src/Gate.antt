-- ===== src/Gate.antt =====
-- src/agent_harness/policy.py: `GatePolicy.approve`, with the role catalog of
-- src/agent_harness/workspace.py. A failed call of `approve` has consumed the token all the same,
-- so the table of grants is returned beside the result.
pub mod Newest
pub mod Approval
pub mod Once
pub mod Tests
use sdlc_harness.Prelude.{
  ℕ, String, Bool, true, false, not, ◌&&◌, Option, none, some, List, [], ◌∷◌, ◌==◌, eqb, opt_eq,
  all, map, select, contains, subset, is_some, if◌then◌else◌, Result, ok, err, ◌>>=◌, ◌>>◌, require,
}
use sdlc_harness.Dict.{Dict, get, put}
use sdlc_harness.Authority.{AuthorityRequest, VerifiedAuthority, AuthorityError, Grant, consume}
use sdlc_harness.Candidate.{
  Candidate, CandidateState, corrupt, reviewing, approved, same_state, transition,
  InvalidTransition,
}
use sdlc_harness.Evidence.{
  EvidencePayload, EvidenceRecord, Ledger, EvidenceStatus, valid, EvidenceError, Target,
  verify_chain, records_for, status, has_bound_evaluation,
}

-- a role of the catalog
pub record RoleProfile : Type 0 where
  pub name : String
  pub tools : List String
  pub writable_areas : List String
  pub network_allowed : Bool
  pub can_execute_commands : Bool
  pub can_approve : Bool

abbrev role : String → List String → List String → Bool → Bool → String × RoleProfile
role name tools areas commands approves = (
  name,
  record {
    name = name;
    tools = tools;
    writable_areas = areas;
    network_allowed = false;
    can_execute_commands = commands;
    can_approve = approves;
  },
)

-- `RoleCatalog.default`
abbrev pub default_catalog : Dict RoleProfile
default_catalog =
    role "independent-code-reviewer" ("read-file" ∷ "search" ∷ "write-finding" ∷ []) ("work" ∷ [])
      false true
    ∷ role "implementation-specialist" ("read-file" ∷ "write-file" ∷ "run-tests" ∷ [])
        ("work" ∷ "build" ∷ "tmp" ∷ []) true false
    ∷ role "oracle-specialist" ("read-spec" ∷ "write-oracle" ∷ []) ("work" ∷ []) true false
    ∷ role "verification-specialist" ("read-candidate" ∷ "run-tests" ∷ "write-evidence" ∷ [])
        ("work" ∷ "build" ∷ "tmp" ∷ []) true false
    ∷ role "mission-manager" ("dispatch" ∷ "read-evidence" ∷ "transition" ∷ []) ("work" ∷ []) false
        false
    ∷ role "release-specialist" ("read-approved-candidate" ∷ "package" ∷ "write-manifest" ∷ [])
        ("work" ∷ "build" ∷ []) true false
    ∷ role "security-reviewer" ("read-candidate" ∷ "write-finding" ∷ []) ("work" ∷ []) false false
    ∷ []

-- `_default_evidence_roles`
abbrev pub default_evidence_roles : Dict (List String)
default_evidence_roles =
    ("acceptance-test", "verification-specialist" ∷ "oracle-specialist" ∷ [])
    ∷ (
      "security-review",
      "independent-code-reviewer" ∷ "independent-spec-reviewer" ∷ "security-reviewer" ∷ [],
    )
    ∷ []

pub record GatePolicy : Type 0 where
  pub role_catalog : Dict RoleProfile
  pub evidence_roles : Dict (List String)

pub record GateDecision : Type 0 where
  pub candidate_id : String
  pub reviewer_role : String
  pub evidence_types : List String
  pub authority_grant_id : String

pub data GateError : Type 0 where
  -- GateDenied, by its message, and InvalidTransition
  wrong_operation wrong_candidate wrong_mission wrong_revision : GateError
  denied : AuthorityError → GateError
  candidate_mission candidate_revision corrupt_candidate not_reviewing : GateError
  unknown_reviewer self_approval not_approver no_requirements broken_ledger : GateError
  incomplete_evidence missing_evidence invalid_transition : GateError

-- the tests before the token is used
unfoldable pub check_request :
    Candidate → AuthorityRequest → String → ℕ → Result GateError (Unit {0})
check_request c request mission revision = do
  require (request.operation == "approve-candidate") wrong_operation
  require (opt_eq request.candidate_id (some c.candidate_id)) wrong_candidate
  require (request.mission_id == mission) wrong_mission
  require (eqb request.revision revision) wrong_revision

abbrev pub or_gate {ℓ} : {A : Type ℓ} → GateError → Option A → Result GateError A
or_gate e none = err e
or_gate e (some a) = ok a

-- `latest_by_type`, from the records in order
unfoldable pub latest_by_type : List EvidenceRecord → Dict EvidenceRecord → Dict EvidenceRecord
latest_by_type [] latest = latest
latest_by_type (r ∷ rest) latest = latest_by_type rest (put r.evidence_type r latest)

abbrev pub is_valid : Result EvidenceError EvidenceStatus → Bool
is_valid (ok valid) = true
is_valid _ = false

abbrev allows : Option (List String) → String → Bool
allows none producer = false
allows (some producers) producer = contains producer producers

-- the condition of `fresh_passes` on the newest record of a type
abbrev pub is_fresh_pass : GatePolicy → Ledger → Candidate → String → EvidenceRecord → Bool
is_fresh_pass policy ledger c evidence_type r =
    (r.outcome == "pass")
    && (is_valid (status r.event_id ledger)
        && (is_some (get r.producer_role policy.role_catalog)
            && (not (r.producer_role == c.created_by_role)
                && allows (get evidence_type policy.evidence_roles) r.producer_role)))

-- a required type that is there must have a bound evaluation
abbrev pub is_complete : Dict EvidenceRecord → String → Bool
is_complete latest evidence_type = elim (get evidence_type latest) [
  | none ↦ true
  | some r ↦ has_bound_evaluation r
]

abbrev pub is_met : GatePolicy → Ledger → Candidate → Dict EvidenceRecord → String → Bool
is_met policy ledger c latest evidence_type = elim (get evidence_type latest) [
  | none ↦ false
  | some r ↦ is_fresh_pass policy ledger c evidence_type r
]

abbrev target_of : Candidate → Target
target_of c = record {
  mission_id = c.mission_id;
  revision = c.revision;
  candidate_id = c.candidate_id;
}

abbrev pub latest_of : Ledger → Candidate → Dict EvidenceRecord
latest_of ledger c = latest_by_type (records_for (target_of c) ledger) []

abbrev pub is_nonempty : List String → Bool
is_nonempty [] = false
is_nonempty (_ ∷ _) = true

abbrev pub or_invalid : Result InvalidTransition Candidate → Result GateError Candidate
or_invalid (ok c) = ok c
or_invalid (err _) = err invalid_transition

module _ (digest : EvidencePayload → String → String) (policy : GatePolicy) where
  -- the tests after it, with the role that the token stands for
  unfoldable pub check_candidate :
      Candidate → Ledger → String → String → ℕ → Result GateError (Unit {0})
  unfolding latest_by_type
  check_candidate c ledger reviewer mission revision = do
    require (c.mission_id == mission) candidate_mission
    require (eqb c.revision revision) candidate_revision
    require (not (same_state c.state corrupt)) corrupt_candidate
    require (same_state c.state reviewing) not_reviewing
    profile ← or_gate unknown_reviewer (get reviewer policy.role_catalog)
    require (not (reviewer == c.created_by_role)) self_approval
    require profile.can_approve not_approver
    require (is_nonempty c.manifest.required_evidence) no_requirements
    require (verify_chain digest ledger) broken_ledger
    require (all (is_complete (latest_of ledger c)) c.manifest.required_evidence)
        incomplete_evidence
    require (all (is_met policy ledger c (latest_of ledger c)) c.manifest.required_evidence)
        missing_evidence

  unfoldable pub approve_with :
      Candidate
      → Ledger
      → String
      → ℕ
      → Result AuthorityError VerifiedAuthority
      → Result GateError (GateDecision × Candidate)
  unfolding check_candidate
  approve_with c ledger mission revision (err e) = err (denied e)
  approve_with c ledger mission revision (ok authority) = do
    check_candidate c ledger authority.role mission revision
    after ← or_invalid (transition c approved)
    ok (
      record {
        candidate_id = c.candidate_id;
        reviewer_role = authority.role;
        evidence_types = c.manifest.required_evidence;
        authority_grant_id = authority.grant_id;
      },
      after,
    )

  unfoldable pub approve :
      (String → String)
      → Candidate
      → Ledger
      → ℕ
      → String
      → AuthorityRequest
      → String
      → ℕ
      → List Grant
      → Result GateError (GateDecision × Candidate) × List Grant
  unfolding check_request approve_with
  approve sha256 c ledger now token request mission revision rows =
      elim (check_request c request mission revision) [
        | err e ↦ (err e, rows)
        | ok _ ↦
            let (authority, rows') = consume sha256 now token request rows in
            (approve_with c ledger mission revision authority, rows')
      ]
