-- ===== src/Authority.antt =====
-- src/agent_harness/authority.py: `AuthorityStore`, the rows of the table `authority_grants` and
-- its operations. The table is the list of its rows. `hashlib.sha256` of a token is the parameter
-- `sha256`; the token, the id and the time that a call draws are arguments; an instant is a number
-- of ticks.
pub mod SingleUse
pub mod Consume
pub mod Update
pub mod Issue
pub mod Tests
use sdlc_harness.Prelude.{
  ℕ, ◌+◌, String, Bool, true, false, not, ◌&&◌, ◌||◌, Option, none, some, List, [], ◌∷◌, ◌++◌, ◌==◌,
  eqb, ltb, leb, opt_eq, is_some, if◌then◌else◌, Result, ok, err, ◌>>=◌, ◌>>◌, require, any,
  contains, map, length,
}
use sdlc_harness.Sets.{sorted_set}

pub data GrantStatus : Type 0 where
  issued consumed revoked : GrantStatus

abbrev pub is_issued : GrantStatus → Bool
is_issued issued = true
is_issued _ = false

-- the bindings that a request, a grant and a verified authority share
pub record Binding : Type 0 where
  pub mission_id : String
  pub revision : ℕ
  pub task_id : String
  pub attempt_id : String
  pub worker_id : String
  pub workspace_id : String
  pub candidate_id : Option String
  pub role : String

pub record AuthorityRequest : Type 0 where
  pub binding : Binding
  pub open binding use *
  pub operation : String
  pub tool : Option String

-- a row of the table
pub record Grant : Type 0 where
  pub grant_id : String
  pub token_sha256 : String
  pub binding : Binding
  pub open binding use *
  pub allowed_operations : List String
  pub allowed_tools : List String
  pub expires_at : ℕ
  pub max_uses : ℕ
  pub use_count : ℕ
  pub status : GrantStatus

pub record IssuedAuthorityGrant : Type 0 where
  pub grant_id : String
  pub token : String
  pub binding : Binding
  pub open binding use *
  pub allowed_operations : List String
  pub allowed_tools : List String
  pub expires_at : ℕ
  pub max_uses : ℕ

pub record VerifiedAuthority : Type 0 where
  pub grant_id : String
  pub binding : Binding
  pub open binding use *
  pub operation : String
  pub tool : Option String
  pub use_count : ℕ

pub data AuthorityError : Type 0 where
  -- the two ValueErrors of `issue`, and the IntegrityError of a UNIQUE constraint
  naive_expiry missing_binding missing_scope integrity : AuthorityError
  -- AuthorityDenied, by its message
  token_required token_unknown already_consumed expired : AuthorityError
  mission_binding revision_binding task_binding attempt_binding worker_binding : AuthorityError
  workspace_binding candidate_binding role_binding : AuthorityError
  operation_denied tool_denied tool_mismatch : AuthorityError

abbrev pub same_list : List String → List String → Bool
same_list [] [] = true
same_list (x ∷ xs) (y ∷ ys) = (x == y) && same_list xs ys
same_list _ _ = false

-- UPDATE ... SET status = 'REVOKED' WHERE ..., and the number of rows that it changed
abbrev pub is_revocable : String → String → Grant → Bool
is_revocable task operation g =
    (g.task_id == task) && (is_issued g.status && same_list g.allowed_operations (operation ∷ []))

pub revoke_issued : String → String → List Grant → ℕ × List Grant
revoke_issued task operation [] = (0, [])
revoke_issued task operation (g ∷ rows) =
    let (n, rest) = revoke_issued task operation rows in
    if is_revocable task operation g
    then (n + 1, record g { status = revoked } ∷ rest)
    else (n, g ∷ rest)

-- A `datetime`, with or without a time zone.
pub data Moment : Type 0 where
  naive aware : ℕ → Moment

-- WHERE token_sha256 = ?
unfoldable pub find_token : String → List Grant → Option Grant
find_token h [] = none
find_token h (g ∷ rows) = if g.token_sha256 == h then some g else find_token h rows

-- UPDATE ... WHERE grant_id = ? AND status = 'ISSUED' AND use_count = 0
abbrev pub is_consumable : String → Grant → Bool
is_consumable id g = (g.grant_id == id) && (is_issued g.status && eqb g.use_count 0)

unfoldable pub mark_consumed : String → ℕ → List Grant → ℕ × List Grant
mark_consumed id use_count [] = (0, [])
mark_consumed id use_count (g ∷ rows) =
    let (n, rest) = mark_consumed id use_count rows in
    if is_consumable id g
    then (n + 1, record g { use_count = use_count; status = consumed } ∷ rest)
    else (n, g ∷ rest)

abbrev pub is_unused : Grant → Bool
is_unused g = is_issued g.status && not (leb g.max_uses g.use_count)

-- `_require_equal` for the eight names, in order
unfoldable pub check_binding : Binding → Binding → Result AuthorityError (Unit {0})
check_binding r g = do
  require (r.mission_id == g.mission_id) mission_binding
  require (eqb r.revision g.revision) revision_binding
  require (r.task_id == g.task_id) task_binding
  require (r.attempt_id == g.attempt_id) attempt_binding
  require (r.worker_id == g.worker_id) worker_binding
  require (r.workspace_id == g.workspace_id) workspace_binding
  require (opt_eq r.candidate_id g.candidate_id) candidate_binding
  require (r.role == g.role) role_binding

-- the two tests of the tool
unfoldable pub check_tool : Option String → List String → Result AuthorityError (Unit {0})
check_tool (some tool) tools = require (contains tool tools) tool_denied
check_tool none [] = ok tt
check_tool none (_ ∷ _) = err tool_mismatch

-- the tests of `consume` on the row that was found
unfoldable pub check_grant : ℕ → AuthorityRequest → Grant → Result AuthorityError (Unit {0})
check_grant now request g = do
  require (is_unused g) already_consumed
  require (ltb now g.expires_at) expired
  check_binding request.binding g.binding
  require (contains request.operation g.allowed_operations) operation_denied
  check_tool request.tool g.allowed_tools

-- the arguments of `issue`
pub record IssueArgs : Type 0 where
  pub binding : Binding
  pub open binding use *
  pub allowed_operations : List String
  pub allowed_tools : List String
  pub expires_at : Moment

abbrev pub check_issue : IssueArgs → Result AuthorityError ℕ
check_issue a = elim a.expires_at [
  | naive _ ↦ err naive_expiry
  | aware t ↦
      if (a.mission_id == "") || (ltb a.revision 1 || ((a.task_id == "") || (a.attempt_id == "")))
      then err missing_binding
      else if (a.worker_id == "") || ((a.workspace_id == "") || (a.role == ""))
      then err missing_scope
      else elim a.allowed_operations [ [] ↦ err missing_scope | _ ∷ _ ↦ ok t ]
]

abbrev pub taken : Grant → Grant → Bool
taken g h = (h.grant_id == g.grant_id) || (h.token_sha256 == g.token_sha256)

-- INSERT, with the PRIMARY KEY and the UNIQUE token hash
pub insert_grant :
    Grant
    → IssuedAuthorityGrant
    → List Grant
    → Result AuthorityError IssuedAuthorityGrant × List Grant
insert_grant g v rows = if any (taken g) rows then (err integrity, rows) else (ok v, rows ++ g ∷ [])

module _ (sha256 : String → String) where
  abbrev pub new_grant : IssueArgs → String → String → ℕ → Grant
  new_grant a token grant_id t = record {
    grant_id = grant_id;
    token_sha256 = sha256 token;
    binding = a.binding;
    allowed_operations = sorted_set a.allowed_operations;
    allowed_tools = sorted_set a.allowed_tools;
    expires_at = t;
    max_uses = 1;
    use_count = 0;
    status = issued;
  }

  abbrev pub issued_grant : IssueArgs → String → String → ℕ → IssuedAuthorityGrant
  issued_grant a token grant_id t = record {
    grant_id = grant_id;
    token = token;
    binding = a.binding;
    allowed_operations = sorted_set a.allowed_operations;
    allowed_tools = sorted_set a.allowed_tools;
    expires_at = t;
    max_uses = 1;
  }

  unfoldable pub issue :
      IssueArgs
      → String
      → String
      → List Grant
      → Result AuthorityError IssuedAuthorityGrant × List Grant
  unfolding insert_grant
  issue a token grant_id rows = elim (check_issue a) [
    | err e ↦ (err e, rows)
    | ok t ↦ insert_grant (new_grant a token grant_id t) (issued_grant a token grant_id t) rows
  ]

  abbrev pub verified : AuthorityRequest → Grant → VerifiedAuthority
  verified request g = record {
    grant_id = g.grant_id;
    binding = record request.binding { role = g.role };
    operation = request.operation;
    tool = request.tool;
    use_count = g.use_count + 1;
  }

  -- the update and COMMIT, or ROLLBACK
  unfoldable pub use_grant :
      AuthorityRequest → Grant → List Grant → Result AuthorityError VerifiedAuthority × List Grant
  use_grant request g rows =
      let (n, rows') = mark_consumed g.grant_id (g.use_count + 1) rows in
      if eqb n 1 then (ok (verified request g), rows') else (err already_consumed, rows)

  unfoldable pub consume_found :
      ℕ
      → AuthorityRequest
      → Option Grant
      → List Grant
      → Result AuthorityError VerifiedAuthority × List Grant
  consume_found now request none rows = (err token_unknown, rows)
  consume_found now request (some g) rows = elim (check_grant now request g) [
    | err e ↦ (err e, rows)
    | ok _ ↦ use_grant request g rows
  ]

  unfoldable pub consume :
      ℕ
      → String
      → AuthorityRequest
      → List Grant
      → Result AuthorityError VerifiedAuthority × List Grant
  unfolding consume_found find_token use_grant mark_consumed check_grant check_binding check_tool
  consume now token request rows =
      if token == ""
      then (err token_required, rows)
      else consume_found now request (find_token (sha256 token) rows) rows
