-- ===== src/Authority/Issue.antt =====
-- A grant that was issued can be used, once, by the request that it was issued for.
use sdlc_harness.Prelude.{
  ℕ, ◌<◌, String, ◌≡◌, ◌≢◌, refl, ap, Bool, true, false, ◌||◌, Option, none, some, List, [], ◌∷◌,
  ◌++◌, ◌==◌, eq_iff, eq_refl, arith, Bool-cases, inl, inr, ok, any, contains, ◌∙◌, Result-cases,
  subst,
}
use sdlc_harness.Sets.{sorted_set, contains-sorted_set}
use sdlc_harness.Authority.{
  Grant, AuthorityRequest, IssuedAuthorityGrant, IssueArgs, issue, check_issue, new_grant, taken,
  find_token, mark_consumed, is_consumable, check_grant, check_tool, consume, consume_found,
  use_grant, issued_grant, insert_grant,
}
use sdlc_harness.Authority.Consume.{check_grant_complete}

-- the tool that a request names, or the absence of one, fits the tools of a grant
abbrev pub FitsTool : Option String → List String → Type 0
FitsTool (some tool) tools = contains tool tools ≡ true
FitsTool none tools = tools ≡ []

check_tool-sorted_set :
    (tool : Option String) (tools : List String)
    → FitsTool tool tools
    → check_tool tool (sorted_set tools) ≡ ok tt
unfolding check_tool
check_tool-sorted_set (some t) tools f = rw (contains-sorted_set t tools ∙ f)
check_tool-sorted_set none tools f = rw f (unfold sorted_set in refl)

module _ (g : Grant) where
  find_new :
      (rows : List Grant)
      → any (λ f. f.token_sha256 == g.token_sha256) rows ≡ false
      → find_token g.token_sha256 (rows ++ g ∷ []) ≡ some g
  unfolding find_token
  find_new [] h = ground (arith, eq_refl g.token_sha256)
  find_new (f ∷ rows) h = ground (arith, find_new rows)

  mark_new :
      (n : ℕ) (rows : List Grant)
      → any (λ f. f.grant_id == g.grant_id) rows ≡ false
      → is_consumable g.grant_id g ≡ true
      → (mark_consumed g.grant_id n (rows ++ g ∷ [])).0 ≡ 1
  unfolding mark_consumed
  mark_new n [] h c = ground arith
  mark_new n (f ∷ rows) h c = ground (arith, mark_new n rows)

any_or :
    (p q : Grant → Bool) (rows : List Grant)
    → any (λ f. p f || q f) rows ≡ false
    → (any p rows ≡ false) × (any q rows ≡ false)
any_or p q [] h = (refl, refl)
any_or p q (f ∷ rows) h = ground (arith, any_or p q rows)

insert_grant_ok :
    (g : Grant) (w : IssuedAuthorityGrant) (rows : List Grant) {v : IssuedAuthorityGrant}
    {rows' : List Grant}
    → insert_grant g w rows ≡ (ok v, rows')
    → (v ≡ w)
      × (rows' ≡ rows ++ g ∷ [])
      × (any (λ f. f.grant_id == g.grant_id) rows ≡ false)
      × (any (λ f. f.token_sha256 == g.token_sha256) rows ≡ false)
unfolding insert_grant
insert_grant_ok g w rows h = elim (Bool-cases (any (taken g) rows)) [
  | inl clash ↦ ground arith
  | inr free ↦
      let (ids, tokens) =
        any_or (λ f. f.grant_id == g.grant_id) (λ f. f.token_sha256 == g.token_sha256) rows free in
      (ground arith, ground arith, ids, tokens)
]

module _ (sha256 : String → String) where
  issue_ok :
      (a : IssueArgs) (token id : String) (rows : List Grant) {v : IssuedAuthorityGrant}
      {rows' : List Grant}
      → issue sha256 a token id rows ≡ (ok v, rows')
      → (t : ℕ) × (v ≡ issued_grant sha256 a token id t)
        × (rows' ≡ rows ++ new_grant sha256 a token id t ∷ [])
        × (any (λ f. f.grant_id == id) rows ≡ false)
        × (any (λ f. f.token_sha256 == sha256 token) rows ≡ false)
  issue_ok a token id rows {v} {rows'} h = elim (Result-cases (check_issue a)) [
    | inr (e, bad) ↦ absurd (unfold issue in ground arith)
    | inl (t, fine) ↦
        let q : insert_grant (new_grant sha256 a token id t) (issued_grant sha256 a token id t) rows
            ≡ (ok v, rows') =
          unfold issue in (rw (fine, issue) at h) in
        let (same, more, ids, tokens) =
          insert_grant_ok (new_grant sha256 a token id t) (issued_grant sha256 a token id t) rows
            q in
        (t, same, more, ids, tokens)
  ]

  -- A grant that `issue` returned is accepted by the next `consume` of its token before it
  -- expires, for the bindings that it was issued for and an operation and a tool among those that
  -- it was issued with.
  pub issue-consume :
      (a : IssueArgs) (token id : String) (now : ℕ) (request : AuthorityRequest) (rows : List Grant)
      {v : IssuedAuthorityGrant} {rows' : List Grant}
      → issue sha256 a token id rows ≡ (ok v, rows')
      → token ≢ ""
      → now < v.expires_at
      → request.binding ≡ a.binding
      → contains request.operation a.allowed_operations ≡ true
      → FitsTool request.tool a.allowed_tools
      → (consume sha256 now token request rows').0
        ≡ ok (record {
          grant_id = id;
          binding = record request.binding { role = a.role };
          operation = request.operation;
          tool = request.tool;
          use_count = 1;
        })
  unfolding consume consume_found use_grant
  issue-consume a token id now request rows {v} {rows'} h given early bound operation tool =
      let (t, same, added, ids, tokens) = issue_ok a token id rows h in
      let g = new_grant sha256 a token id t in
      let found = find_new g rows tokens in
      let marked = mark_new g 1 rows ids (ground (arith, eq_refl id)) in
      let passed : check_grant now request g ≡ ok tt = check_grant_complete now request g (record {
        unused = refl;
        in_time =
            subst (λ (x : ℕ). now < x) (ap (λ (x : IssuedAuthorityGrant). x.expires_at) same) early;
        bound = bound;
        operation = contains-sorted_set request.operation a.allowed_operations ∙ operation;
        tool = check_tool-sorted_set request.tool a.allowed_tools tool;
      }) in
      ground (arith, eq_iff token "")
