-- ===== src/Gate/Approval.antt =====
-- What an approval of the quality gate guarantees.
use sdlc_harness.Prelude.{
  ℕ, String, ◌≡◌, ◌≢◌, refl, subst, ap, Bool, true, false, not, Option, none, some, List, [], ◌∷◌,
  ◌==◌, eqb, all, contains, is_some, Result, ok, err, ◌>>=◌, require, require_ok, ok-bind, eq_iff,
  Bool-cases, Option-cases, Result-cases, inl, inr, arith,
}
use sdlc_harness.Dict.{Dict, get}
use sdlc_harness.Authority.{AuthorityRequest, VerifiedAuthority, AuthorityError, Grant, consume}
use sdlc_harness.Candidate.{
  Candidate, CandidateState, corrupt, reviewing, approved, same_state, set_state, transition,
}
use sdlc_harness.Evidence.{
  EvidencePayload, EvidenceRecord, Ledger, EvidenceStatus, valid, EvidenceError, verify_chain,
  status, records_for,
}
use sdlc_harness.Gate.Newest.{IsNewest, latest_by_type-IsNewest}
use sdlc_harness.Gate.{
  target_of, GatePolicy, GateDecision, GateError, RoleProfile, check_request, or_gate, or_invalid,
  is_valid, is_fresh_pass, is_complete, is_met, is_nonempty, latest_of, check_candidate,
  approve_with, approve, candidate_mission, candidate_revision, corrupt_candidate, not_reviewing,
  unknown_reviewer, self_approval, not_approver, no_requirements, broken_ledger,
  incomplete_evidence, missing_evidence,
}

all-contains :
    (p : String → Bool) (x : String) (xs : List String)
    → all p xs ≡ true
    → contains x xs ≡ true
    → p x ≡ true
all-contains p x [] a c = cc
all-contains p x (y ∷ ys) a c = elim (Bool-cases (y == x)) [
  | inl same ↦ subst (λ z. p z ≡ true) ((eq_iff y x).0 same) (ground arith)
  | inr other ↦ all-contains p x ys (ground arith) (ground arith)
]

or_gate_ok :
    {A B : Type 0} (x : GateError) (o : Option A) (k : A → Result GateError B) {b : B}
    → (or_gate x o >>= k) ≡ ok b
    → (a : A) × (o ≡ some a) × (k a ≡ ok b)
or_gate_ok x none k h = cc
or_gate_ok x (some a) k h = (a, refl, h)

-- the last requirement of a chain
last_ok : (b : Bool) (e : GateError) → require b e ≡ ok tt → b ≡ true
last_ok true e h = refl
last_ok false e h = cc

-- fresh evidence that passes, of a producer who did not create the candidate
pub record IsFresh (policy : GatePolicy) (ledger : Ledger) (c : Candidate) (r : EvidenceRecord)
    : Type 0 where
  pub passing : r.outcome ≡ "pass"
  pub live : status r.event_id ledger ≡ ok valid
  pub registered : is_some (get r.producer_role policy.role_catalog) ≡ true
  pub independent : r.producer_role ≢ c.created_by_role

is_valid_ok : (s : Result EvidenceError EvidenceStatus) → is_valid s ≡ true → s ≡ ok valid
is_valid_ok (ok valid) h = refl
is_valid_ok (ok _) h = cc
is_valid_ok (err _) h = cc

is_fresh_pass-IsFresh :
    (policy : GatePolicy) (ledger : Ledger) (c : Candidate) (t : String) (r : EvidenceRecord)
    → is_fresh_pass policy ledger c t r ≡ true
    → IsFresh policy ledger c r
is_fresh_pass-IsFresh policy ledger c t r h = record {
  passing = (eq_iff r.outcome "pass").0 (ground arith);
  live = is_valid_ok (status r.event_id ledger) (ground arith);
  registered = ground arith;
  independent =
      λ e. let same = (eq_iff r.producer_role c.created_by_role).1 e in absurd (ground arith);
}

met_record :
    (policy : GatePolicy) (ledger : Ledger) (c : Candidate) (latest : Dict EvidenceRecord)
    (t : String)
    → is_met policy ledger c latest t ≡ true
    → (r : EvidenceRecord) × (get t latest ≡ some r) × IsFresh policy ledger c r
met_record policy ledger c latest t h = elim (Option-cases (get t latest)) [
  | inl missing ↦ absurd (ground arith)
  | inr (r, found) ↦ (r, found, is_fresh_pass-IsFresh policy ledger c t r (ground arith))
]

-- what has been checked when a reviewer approves a candidate
pub record MayApprove (digest : EvidencePayload → String → String) (policy : GatePolicy)
    (c : Candidate) (ledger : Ledger) (reviewer : String) : Type 0 where
  pub in_review : c.state ≡ reviewing
  pub profile :
      (p : RoleProfile) × (get reviewer policy.role_catalog ≡ some p) × (p.can_approve ≡ true)
  pub not_own : reviewer ≢ c.created_by_role
  pub requires : c.manifest.required_evidence ≢ []
  pub chain : verify_chain digest ledger ≡ true
  pub evidence :
      (t : String)
      → contains t c.manifest.required_evidence ≡ true
      → (r : EvidenceRecord) × (get t (latest_of ledger c) ≡ some r)
        × IsNewest t r (records_for (target_of c) ledger)
        × IsFresh policy ledger c r

reviewing_of : (s : CandidateState) → same_state s reviewing ≡ true → s ≡ reviewing
reviewing_of reviewing h = refl
reviewing_of _ h = cc

module _ (digest : EvidencePayload → String → String) (policy : GatePolicy) where
  check_candidate-MayApprove :
      (c : Candidate) (ledger : Ledger) (reviewer mission : String) (revision : ℕ)
      → check_candidate digest policy c ledger reviewer mission revision ≡ ok tt
      → MayApprove digest policy c ledger reviewer
  unfolding check_candidate
  check_candidate-MayApprove c ledger reviewer mission revision h =
      let required = c.manifest.required_evidence in
      let (_, a₁) = require_ok (c.mission_id == mission) candidate_mission _ h in
      let (_, a₂) = require_ok (eqb c.revision revision) candidate_revision _ a₁ in
      let (_, a₃) = require_ok (not (same_state c.state corrupt)) corrupt_candidate _ a₂ in
      let (state, a₄) = require_ok (same_state c.state reviewing) not_reviewing _ a₃ in
      let (p, known, a₅) = or_gate_ok unknown_reviewer (get reviewer policy.role_catalog) _ a₄ in
      let (own, a₆) = require_ok (not (reviewer == c.created_by_role)) self_approval _ a₅ in
      let (can, a₇) = require_ok p.can_approve not_approver _ a₆ in
      let (some_required, a₈) = require_ok (is_nonempty required) no_requirements _ a₇ in
      let (verified, a₉) = require_ok (verify_chain digest ledger) broken_ledger _ a₈ in
      let (_, b) =
        require_ok (all (is_complete (latest_of ledger c)) required) incomplete_evidence _ a₉ in
      let met =
        last_ok (all (is_met policy ledger c (latest_of ledger c)) required) missing_evidence b in
      record {
        in_review = reviewing_of c.state state;
        profile = (p, known, can);
        not_own = λ e. let same = (eq_iff reviewer c.created_by_role).1 e in absurd (ground arith);
        requires = λ e. absurd (ground (arith, ap is_nonempty e));
        chain = verified;
        evidence = λ t member.
            let (r, found, fresh) =
              met_record policy ledger c (latest_of ledger c) t
                (all-contains _ t required met member) in
            (r, found, latest_by_type-IsNewest t (records_for (target_of c) ledger) found, fresh);
      }

  -- the candidate that an approval returns
  approve_with_ok :
      (c : Candidate) (ledger : Ledger) (mission : String) (revision : ℕ)
      (a : Result AuthorityError VerifiedAuthority) {d : GateDecision} {c' : Candidate}
      → approve_with digest policy c ledger mission revision a ≡ ok (d, c')
      → (v : VerifiedAuthority) × (a ≡ ok v)
        × (d.reviewer_role ≡ v.role)
        × MayApprove digest policy c ledger v.role
        × (c' ≡ set_state approved c)
  unfolding approve_with transition
  approve_with_ok c ledger mission revision (err e) h = cc
  approve_with_ok c ledger mission revision (ok v) h =
      let (u, checked, a) =
        ok-bind (check_candidate digest policy c ledger v.role mission revision) _ h in
      let (after, moved, b) = ok-bind (or_invalid (transition c approved)) _ a in
      let may = check_candidate-MayApprove c ledger v.role mission revision checked in
      (v, refl, ground arith, may, ground arith)

  -- When the gate approves a candidate, the token was accepted for the request. The reviewer whose
  -- role it is may approve and did not create the candidate, which was in review. The ledger's
  -- chain verifies, evidence is required, and the newest evidence of each required type, after which
  -- the ledger has none of that type for the candidate, passes, is valid, and is of a registered
  -- producer other than the creator. The candidate's state is then APPROVED and nothing else of it
  -- is changed.
  pub approve_sound :
      (sha256 : String → String) (c : Candidate) (ledger : Ledger) (now : ℕ) (token : String)
      (request : AuthorityRequest) (mission : String) (revision : ℕ) (rows : List Grant)
      {d : GateDecision} {c' : Candidate} {rows' : List Grant}
      → approve digest policy sha256 c ledger now token request mission revision rows
        ≡ (ok (d, c'), rows')
      → (v : VerifiedAuthority) × (consume sha256 now token request rows ≡ (ok v, rows'))
        × (d.reviewer_role ≡ v.role)
        × MayApprove digest policy c ledger v.role
        × (c' ≡ set_state approved c)
  unfolding approve
  approve_sound sha256 c ledger now token request mission revision rows {d} {c'} h =
      elim (Result-cases (check_request c request mission revision)) [
        | inr (e, refused) ↦ absurd (ground arith)
        | inl (u, passed) ↦
            let used = consume sha256 now token request rows in
            let (v, a, r, may, moved) =
              approve_with_ok c ledger mission revision used.0 {d = d} {c' = c'} (ground arith) in
            (v, ground arith, r, may, moved)
      ]
