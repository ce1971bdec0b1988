-- ===== src/Authority/Consume.antt =====
-- One call of `consume`: what a success means, and when it succeeds.
use sdlc_harness.Prelude.{
  ℕ, ◌+◌, ◌<◌, String, ◌≡◌, refl, true, Option, none, some, List, ◌==◌, eq_iff, eq_refl, opt_eq_iff,
  arith, Bool-cases, inl, inr, ok, err, contains, Result-cases,
}
use sdlc_harness.Authority.Update.{IsWritten, mark_consumed-IsWritten}
use sdlc_harness.Authority.{
  Grant, Binding, AuthorityRequest, VerifiedAuthority, AuthorityError, is_unused, check_binding,
  check_tool, check_grant, find_token, mark_consumed, use_grant, consume_found, consume, verified,
}

pub check_binding_sound : (r g : Binding) → check_binding r g ≡ ok tt → r ≡ g
unfolding check_binding
check_binding_sound r g h = ground (
  arith,
  eq_iff r.mission_id g.mission_id,
  eq_iff r.task_id g.task_id,
  eq_iff r.attempt_id g.attempt_id,
  eq_iff r.worker_id g.worker_id,
  eq_iff r.workspace_id g.workspace_id,
  opt_eq_iff r.candidate_id g.candidate_id,
  eq_iff r.role g.role,
)

check_binding_refl : (b : Binding) → check_binding b b ≡ ok tt
unfolding check_binding
check_binding_refl b = ground (
  arith,
  eq_refl b.mission_id,
  eq_refl b.task_id,
  eq_refl b.attempt_id,
  eq_refl b.worker_id,
  eq_refl b.workspace_id,
  (opt_eq_iff b.candidate_id b.candidate_id).1 refl,
  eq_refl b.role,
)

-- what a request needs of the grant that it uses
pub record Permits (now : ℕ) (request : AuthorityRequest) (g : Grant) : Type 0 where
  pub unused : is_unused g ≡ true
  pub in_time : now < g.expires_at
  pub bound : request.binding ≡ g.binding
  pub operation : contains request.operation g.allowed_operations ≡ true
  pub tool : check_tool request.tool g.allowed_tools ≡ ok tt

check_grant_sound :
    (now : ℕ) (request : AuthorityRequest) (g : Grant)
    → check_grant now request g ≡ ok tt
    → Permits now request g
unfolding check_grant
check_grant_sound now request g h = elim (Bool-cases (is_unused g)) [
  | inl unused ↦ record {
    unused = unused;
    in_time = ground arith;
    bound = check_binding_sound request.binding g.binding (ground arith);
    operation = ground arith;
    tool = ground arith;
  }
  | inr used ↦ ground arith
]

pub check_grant_complete :
    (now : ℕ) (request : AuthorityRequest) (g : Grant)
    → Permits now request g
    → check_grant now request g ≡ ok tt
unfolding check_grant
check_grant_complete now request g p =
    let same : check_binding request.binding g.binding ≡ ok tt =
      rw (p.bound) (check_binding_refl g.binding) in
    ground arith

module _ (sha256 : String → String) where
  use_grant_sound :
      (request : AuthorityRequest) (g : Grant) (rows : List Grant) {v : VerifiedAuthority}
      {rows' : List Grant}
      → use_grant sha256 request g rows ≡ (ok v, rows')
      → (v ≡ verified sha256 request g)
        × (mark_consumed g.grant_id (g.use_count + 1) rows ≡ (1, rows'))
  unfolding use_grant
  use_grant_sound request g rows h = ground arith

  consume_found_sound :
      (now : ℕ) (request : AuthorityRequest) (o : Option Grant) (rows : List Grant)
      {v : VerifiedAuthority} {rows' : List Grant}
      → consume_found sha256 now request o rows ≡ (ok v, rows')
      → (g : Grant) × (o ≡ some g)
        × Permits now request g
        × (v ≡ verified sha256 request g)
        × (mark_consumed g.grant_id (g.use_count + 1) rows ≡ (1, rows'))
  unfolding consume_found
  consume_found_sound now request none rows h = ground arith
  consume_found_sound now request (some g) rows h =
      elim (Result-cases (check_grant now request g)) [
        | inr (e, refused) ↦ ground arith
        | inl (u, passed) ↦
            let (v, m) = use_grant_sound request g rows (rw (passed, consume_found) at h) in
            (g, refl, check_grant_sound now request g passed, v, m)
      ]

  -- The grant that a successful use names, and the UPDATE that it makes.
  pub consume_used :
      (now : ℕ) (token : String) (request : AuthorityRequest) (rows : List Grant)
      {v : VerifiedAuthority} {rows' : List Grant}
      → consume sha256 now token request rows ≡ (ok v, rows')
      → (g : Grant) × (find_token (sha256 token) rows ≡ some g)
        × Permits now request g
        × (v ≡ verified sha256 request g)
        × (mark_consumed g.grant_id (g.use_count + 1) rows ≡ (1, rows'))
  unfolding consume
  consume_used now token request rows h = elim (Bool-cases (token == "")) [
    | inl empty ↦ ground arith
    | inr given ↦
        consume_found_sound now request (find_token (sha256 token) rows) rows (rw given at h)
  ]

  -- A successful use of a token names the grant that its hash stands for, which was issued and not
  -- used up, not expired, bound to exactly the request, and open to its operation and tool. The
  -- table afterwards is the table before but for one row, of the id of that grant: it was issued
  -- with no use, and is consumed, with one use more than the grant had; it is the row of the grant
  -- itself unless that had uses already.
  pub consume_sound :
      (now : ℕ) (token : String) (request : AuthorityRequest) (rows : List Grant)
      {v : VerifiedAuthority} {rows' : List Grant}
      → consume sha256 now token request rows ≡ (ok v, rows')
      → (g : Grant) × (find_token (sha256 token) rows ≡ some g)
        × Permits now request g
        × (v ≡ verified sha256 request g)
        × IsWritten g (g.use_count + 1) rows rows'
  consume_sound now token request rows h =
      let (g, found, permits, v, m) = consume_used now token request rows h in
      (
        g,
        found,
        permits,
        v,
        mark_consumed-IsWritten (sha256 token) (g.use_count + 1) rows g found
            (ground (arith, permits.unused)) m,
      )

  consume_found_err :
      (now : ℕ) (request : AuthorityRequest) (o : Option Grant) (rows : List Grant)
      {e : AuthorityError}
      → (consume_found sha256 now request o rows).0 ≡ err e
      → (consume_found sha256 now request o rows).1 ≡ rows
  unfolding consume_found use_grant
  consume_found_err now request none rows h = refl
  consume_found_err now request (some g) rows h = ground arith

  -- A refused use leaves the table as it was.
  pub consume_err :
      (now : ℕ) (token : String) (request : AuthorityRequest) (rows : List Grant)
      {e : AuthorityError}
      → (consume sha256 now token request rows).0 ≡ err e
      → (consume sha256 now token request rows).1 ≡ rows
  unfolding consume
  consume_err now token request rows h = elim (Bool-cases (token == "")) [
    | inl empty ↦ rw empty
    | inr given ↦
        rw given
          (consume_found_err now request (find_token (sha256 token) rows) rows (rw given at h))
  ]
