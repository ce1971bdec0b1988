-- ===== src/Authority/Tests.antt =====
-- A grant of a small task, issued and used.
use sdlc_harness.Prelude.{String, ◌≡◌, ◌≢◌, ◌≤◌, refl, none, some, List, [], ◌∷◌, ok, arith, ◌+◌}
use sdlc_harness.Sets.{sorted_set}
use sdlc_harness.Authority.{
  Binding, AuthorityRequest, Grant, IssueArgs, aware, operation_denied, issue, consume, consumed,
  consume_found, use_grant, find_token, mark_consumed, check_grant, check_binding, check_tool,
  insert_grant, new_grant, issued_grant, verified,
}
use sdlc_harness.Authority.Update.{IsWritten}
use sdlc_harness.Authority.Consume.{Permits, consume_sound, consume_err}
use sdlc_harness.Authority.SingleUse.{Call, issue_call, consume_call, revoke_call, uses, single_use}
use sdlc_harness.Authority.Issue.{issue-consume}

abbrev sha256 : String → String
sha256 token = token

abbrev worker : Binding
worker = record {
  mission_id = "m-1";
  revision = 1;
  task_id = "t-1";
  attempt_id = "a-1";
  worker_id = "w-1";
  workspace_id = "ws-1";
  candidate_id = none;
  role = "implementation-specialist";
}

abbrev args : IssueArgs
args = record {
  binding = worker;
  allowed_operations = "candidate.freeze" ∷ [];
  allowed_tools = [];
  expires_at = aware 100;
}

abbrev request : AuthorityRequest
request = record { binding = worker; operation = "candidate.freeze"; tool = none }

abbrev other_request : AuthorityRequest
other_request = record { binding = worker; operation = "release.package"; tool = none }

abbrev row : Grant
row = new_grant sha256 args "token" "g-1" 100

abbrev calls : List Call
calls =
    issue_call args "token" "g-1"
    ∷ consume_call 50 "token" request
    ∷ consume_call 51 "token" request
    ∷ revoke_call "t-1" "candidate.freeze"
    ∷ []

single_use_example : uses sha256 (sha256 "token") calls [] ≤ 1
single_use_example = single_use sha256 "token" calls

consume_sound_example :
    (g : Grant) × (find_token (sha256 "token") (row ∷ []) ≡ some g)
    × Permits 50 request g
    × (verified sha256 request row ≡ verified sha256 request g)
    × IsWritten g
        (g.use_count + 1)
        (row ∷ [])
        (record row { use_count = 1; status = consumed } ∷ [])
unfolding consume consume_found use_grant find_token mark_consumed check_grant check_binding
    check_tool sorted_set
consume_sound_example =
    consume_sound sha256 50 "token" request (row ∷ []) {v = verified sha256 request row}
      {rows' = record row { use_count = 1; status = consumed } ∷ []} refl

consume_err_example : (consume sha256 50 "token" other_request (row ∷ [])).1 ≡ row ∷ []
unfolding consume consume_found use_grant find_token mark_consumed check_grant check_binding
    check_tool sorted_set
consume_err_example =
    consume_err sha256 50 "token" other_request (row ∷ []) {e = operation_denied} refl

given : ◌≢◌ {A = String} "token" ""
given e = cc

issue-consume_example :
    (consume sha256 50 "token" request (row ∷ [])).0
    ≡ ok (record {
      grant_id = "g-1";
      binding = record worker { role = "implementation-specialist" };
      operation = "candidate.freeze";
      tool = none;
      use_count = 1;
    })
unfolding issue insert_grant
issue-consume_example =
    issue-consume sha256 args "token" "g-1" 50 request []
      {v = issued_grant sha256 args "token" "g-1" 100} {rows' = row ∷ []} refl given (omega arith)
      refl refl refl
