-- ===== src/Gate/Once.antt =====
-- A token approves once.
use sdlc_harness.Prelude.{ℕ, String, ◌≡◌, ◌≢◌, subst, ap, List, Result, ok}
use sdlc_harness.Authority.{AuthorityRequest, VerifiedAuthority, AuthorityError, Grant}
use sdlc_harness.Authority.SingleUse.{
  Call, afterwards, afterwards-IsSpent, IsSpent, IsOneUse, consume-IsSpent, not_used_again,
}
use sdlc_harness.Candidate.{Candidate}
use sdlc_harness.Evidence.{EvidencePayload, Ledger}
use sdlc_harness.Gate.{GatePolicy, GateDecision, approve}
use sdlc_harness.Gate.Approval.{approve_sound}

module _ (digest : EvidencePayload → String → String) (policy : GatePolicy)
    (sha256 : String → String) where
  -- In a table of grants for one use, a token that was used for an approval never approves again:
  -- not for any candidate, ledger or request, and not after any further calls of the store.
  pub approve_once :
      (c : Candidate) (ledger : Ledger) (now : ℕ) (token : String) (request : AuthorityRequest)
      (mission : String) (revision : ℕ) (rows : List Grant) {d : GateDecision} {c' : Candidate}
      {rows' : List Grant}
      → IsOneUse rows
      → approve digest policy sha256 c ledger now token request mission revision rows
        ≡ (ok (d, c'), rows')
      → (calls : List Call) (other : Candidate) (other_ledger : Ledger) (later : ℕ)
        (other_request : AuthorityRequest) (mission₂ : String) (revision₂ : ℕ)
        {x : GateDecision × Candidate}
      → (approve digest policy sha256 other other_ledger later token other_request mission₂
          revision₂
          (afterwards sha256 calls rows')).0
        ≢ ok x
  approve_once c ledger now token request mission revision rows {d} {c'} {rows'} one h calls other
        other_ledger later other_request mission₂ revision₂ {x} again =
      let (v, used, _, _, _) =
        approve_sound digest policy sha256 c ledger now token request mission revision rows h in
      let spent =
        subst (IsSpent (sha256 token))
          (ap (λ (r : Result AuthorityError VerifiedAuthority × List Grant). r.1) used)
          (consume-IsSpent sha256 now token request rows one
            (ap (λ (r : Result AuthorityError VerifiedAuthority × List Grant). r.0) used)) in
      let gone = afterwards-IsSpent sha256 (sha256 token) calls rows' spent in
      let (w, taken, _, _, _) =
        approve_sound digest policy sha256 other other_ledger later token other_request mission₂
          revision₂ (afterwards sha256 calls rows') {d = x.0} {c' = x.1}
          (ap
            (λ r. (
              r,
              (approve digest policy sha256 other other_ledger later token other_request mission₂
                  revision₂ (afterwards sha256 calls rows')).1,
            ))
            again) in
      not_used_again sha256 later token other_request (afterwards sha256 calls rows') gone
        (ap (λ (r : Result AuthorityError VerifiedAuthority × List Grant). r.0) taken)
