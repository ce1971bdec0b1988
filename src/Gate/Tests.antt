-- ===== src/Gate/Tests.antt =====
-- The gate, on a candidate with the evidence that it requires.
use sdlc_harness.Prelude.{String, ◌≡◌, ◌≢◌, refl, none, some, [], ◌∷◌, ok}
use sdlc_harness.Sets.{sorted_set}
use sdlc_harness.Authority.{
  Binding, AuthorityRequest, VerifiedAuthority, Grant, issued, consumed, consume, consume_found,
  use_grant, find_token, mark_consumed, check_grant, check_binding, check_tool,
}
use sdlc_harness.Candidate.{Candidate, reviewing, approved, set_state, transition}
use sdlc_harness.Candidate.Tests.{snapshot}
use sdlc_harness.Evidence.{chain_valid, status, find_event, records_for}
use sdlc_harness.Evidence.Tests.{digest, one_record}
use sdlc_harness.Gate.{
  GatePolicy, GateDecision, default_catalog, default_evidence_roles, check_request, check_candidate,
  latest_by_type, approve_with, approve,
}
use sdlc_harness.Gate.Approval.{MayApprove, approve_sound}
use sdlc_harness.Authority.SingleUse.{afterwards}
use sdlc_harness.Gate.Once.{approve_once}
use sdlc_harness.Authority.SingleUse.{revoke_call}

abbrev policy : GatePolicy
policy = record { role_catalog = default_catalog; evidence_roles = default_evidence_roles }

abbrev under_review : Candidate
under_review = record snapshot {
  state = reviewing;
  manifest = record snapshot.manifest { required_evidence = "acceptance-test" ∷ [] };
}

abbrev reviewer : Binding
reviewer = record {
  mission_id = "m-1";
  revision = 1;
  task_id = "t-7";
  attempt_id = "a-7";
  worker_id = "w-7";
  workspace_id = "ws-7";
  candidate_id = some "c-1";
  role = "independent-code-reviewer";
}

abbrev request : AuthorityRequest
request = record { binding = reviewer; operation = "approve-candidate"; tool = none }

abbrev sha256 : String → String
sha256 token = token

abbrev row : Grant
row = record {
  grant_id = "g-7";
  token_sha256 = "token";
  binding = reviewer;
  allowed_operations = "approve-candidate" ∷ [];
  allowed_tools = [];
  expires_at = 100;
  max_uses = 1;
  use_count = 0;
  status = issued;
}

abbrev decision : GateDecision
decision = record {
  candidate_id = "c-1";
  reviewer_role = "independent-code-reviewer";
  evidence_types = "acceptance-test" ∷ [];
  authority_grant_id = "g-7";
}

abbrev used_row : Grant
used_row = record row { use_count = 1; status = consumed }

approve_sound_example :
    (v : VerifiedAuthority) × (consume sha256 50 "token" request (row ∷ []) ≡ (ok v, used_row ∷ []))
    × (decision.reviewer_role ≡ v.role)
    × MayApprove digest policy under_review one_record v.role
    × (set_state approved under_review ≡ set_state approved under_review)
unfolding approve approve_with check_request check_candidate latest_by_type transition chain_valid
    status find_event records_for consume consume_found use_grant find_token mark_consumed
    check_grant check_binding check_tool sorted_set
approve_sound_example =
    approve_sound digest policy sha256 under_review one_record 50 "token" request "m-1" 1 (row ∷ [])
      {d = decision} {c' = set_state approved under_review} {rows' = used_row ∷ []} refl

approve_once_example :
    (approve digest policy sha256 under_review one_record 60 "token" request "m-1" 1
      (afterwards sha256 (revoke_call "t-7" "approve-candidate" ∷ []) (used_row ∷ []))).0
    ≢ ok (decision, set_state approved under_review)
unfolding approve approve_with check_request check_candidate latest_by_type transition chain_valid
    status find_event records_for consume consume_found use_grant find_token mark_consumed
    check_grant check_binding check_tool sorted_set
approve_once_example =
    approve_once digest policy sha256 under_review one_record 50 "token" request "m-1" 1 (row ∷ [])
      {d = decision} {c' = set_state approved under_review} {rows' = used_row ∷ []} (refl, tt) refl
      (revoke_call "t-7" "approve-candidate" ∷ []) under_review one_record 60 request "m-1" 1
      {x = (decision, set_state approved under_review)}
