-- ===== src/Authority/SingleUse.antt =====
-- A token authorises one operation at most, whatever is issued, revoked or tried in between.
use sdlc_harness.Prelude.{
  ℕ, ◌+◌, ◌≤◌, String, ◌≡◌, ◌≢◌, refl, sym, ap, Bool, true, false, ◌&&◌, some, List, [], ◌∷◌, ◌++◌,
  ◌==◌, eq_iff, eq_refl, arith, Bool-cases, inl, inr, Result, ok, err, any, All, if◌then◌else◌, ◌⊎◌,
  subst, Result-cases, All-append,
}
use sdlc_harness.Authority.{
  Grant, AuthorityRequest, VerifiedAuthority, AuthorityError, consumed, revoked, is_unused,
  find_token, mark_consumed, is_consumable, consume, IssueArgs, issue, revoke_issued, is_revocable,
  new_grant, check_issue, taken, insert_grant,
}
use sdlc_harness.Authority.Consume.{consume_used, consume_err}

-- the row that a use writes
abbrev used : String → ℕ → Grant → Grant
used id n g = if is_consumable id g then record g { use_count = n; status = consumed } else g

abbrev withdrawn : String → String → Grant → Grant
withdrawn task operation g =
    if is_revocable task operation g then record g { status = revoked } else g

find_token-mark_consumed :
    (h id : String) (n : ℕ) (rows : List Grant) {g : Grant}
    → find_token h rows ≡ some g
    → find_token h (mark_consumed id n rows).1 ≡ some (used id n g)
unfolding find_token mark_consumed
find_token-mark_consumed h id n [] e = cc
find_token-mark_consumed h id n (f ∷ rows) {g} e = elim (Bool-cases (f.token_sha256 == h)) [
  | inl here ↦ let same : f ≡ g = ground arith in ground (arith, ap (λ x. used id n x) same)
  | inr later ↦ ground (arith, find_token-mark_consumed h id n rows {g = g})
]

find_token-revoke_issued :
    (h task operation : String) (rows : List Grant) {g : Grant}
    → find_token h rows ≡ some g
    → find_token h (revoke_issued task operation rows).1 ≡ some (withdrawn task operation g)
unfolding find_token revoke_issued
find_token-revoke_issued h task operation [] e = cc
find_token-revoke_issued h task operation (f ∷ rows) {g} e =
    elim (Bool-cases (f.token_sha256 == h)) [
      | inl here ↦
          let same : f ≡ g = ground arith in
          ground (arith, ap (λ x. withdrawn task operation x) same)
      | inr later ↦ ground (arith, find_token-revoke_issued h task operation rows {g = g})
    ]

find_token-append :
    (h : String) (rows new : List Grant) {g : Grant}
    → find_token h rows ≡ some g
    → find_token h (rows ++ new) ≡ some g
unfolding find_token
find_token-append h [] new e = cc
find_token-append h (f ∷ rows) new {g} e = ground (arith, find_token-append h rows new {g = g})

pub data Call : Type 0 where
  issue_call : IssueArgs → String → String → Call
  consume_call : ℕ → String → AuthorityRequest → Call
  revoke_call : String → String → Call

-- the grant of the token hash `h` is used up
abbrev pub IsSpent : String → List Grant → Type 0
IsSpent h rows = (g : Grant) × (find_token h rows ≡ some g) × (g.status ≡ consumed)

-- `issue` writes 1 into the column, and nothing else writes it
abbrev pub IsOneUse : List Grant → Type 0
IsOneUse rows = All (λ g. g.max_uses ≡ 1) rows

abbrev is_ok {ℓ κ} : {E : Type ℓ} {A : Type κ} → Result E A → Bool
is_ok (ok _) = true
is_ok (err _) = false

mark_consumed-IsOneUse :
    (id : String) (n : ℕ) (rows : List Grant) → IsOneUse rows → IsOneUse (mark_consumed id n rows).1
unfolding mark_consumed
mark_consumed-IsOneUse id n [] h = tt
mark_consumed-IsOneUse id n (g ∷ rows) h = ground (arith, mark_consumed-IsOneUse id n rows h.1)

revoke_issued-IsOneUse :
    (task operation : String) (rows : List Grant)
    → IsOneUse rows
    → IsOneUse (revoke_issued task operation rows).1
unfolding revoke_issued
revoke_issued-IsOneUse task operation [] h = tt
revoke_issued-IsOneUse task operation (g ∷ rows) h =
    ground (arith, revoke_issued-IsOneUse task operation rows h.1)

max_uses_found :
    (h : String) (rows : List Grant) {g : Grant}
    → IsOneUse rows
    → find_token h rows ≡ some g
    → g.max_uses ≡ 1
unfolding find_token
max_uses_found h [] one e = cc
max_uses_found h (f ∷ rows) {g} one e = ground (arith, max_uses_found h rows {g = g} one.1)

used_up :
    (g : Grant)
    → is_unused g ≡ true
    → g.max_uses ≡ 1
    → (used g.grant_id (g.use_count + 1) g).status ≡ consumed
used_up g unused once = ground (arith, eq_refl g.grant_id)

spent_used : (g : Grant) → g.status ≡ consumed → is_unused g ≡ false
spent_used g s = ground arith

module _ (sha256 : String → String) where
  unfoldable pub after : Call → List Grant → List Grant
  after (issue_call a token id) rows = (issue sha256 a token id rows).1
  after (consume_call now token request) rows = (consume sha256 now token request rows).1
  after (revoke_call task operation) rows = (revoke_issued task operation rows).1

  -- 1 if the call is a successful use of a token with the hash `h`
  pub used_now : String → Call → List Grant → ℕ
  used_now h (consume_call now token request) rows =
      if (sha256 token == h) && is_ok (consume sha256 now token request rows).0 then 1 else 0
  used_now h _ rows = 0

  pub uses : String → List Call → List Grant → ℕ
  unfolding after used_now
  uses h [] rows = 0
  uses h (c ∷ calls) rows = used_now h c rows + uses h calls (after c rows)

  issue-cases :
      (a : IssueArgs) (token id : String) (rows : List Grant)
      → ((issue sha256 a token id rows).1 ≡ rows)
        ⊎ ((t : ℕ) × ((issue sha256 a token id rows).1
              ≡ rows ++ new_grant sha256 a token id t ∷ []))
  unfolding issue
  issue-cases a token id rows = elim (Result-cases (check_issue a)) [
    | inl (t, fine) ↦
        rw (fine, issue, insert_grant)
          (elim (Bool-cases (any (taken (new_grant sha256 a token id t)) rows)) [
            | inl clash ↦ rw clash (inl refl)
            | inr free ↦ rw free (inr (t, refl))
          ])
    | inr (e, bad) ↦ rw (bad, issue) (inl refl)
  ]

  used-IsSpent :
      (h id : String) (n : ℕ) (rows : List Grant)
      → IsSpent h rows
      → IsSpent h (mark_consumed id n rows).1
  used-IsSpent h id n rows (g, e, s) =
      (used id n g, find_token-mark_consumed h id n rows e, ground arith)

  withdrawn-IsSpent :
      (h task operation : String) (rows : List Grant)
      → IsSpent h rows
      → IsSpent h (revoke_issued task operation rows).1
  withdrawn-IsSpent h task operation rows (g, e, s) =
      (withdrawn task operation g, find_token-revoke_issued h task operation rows e, ground arith)

  consume-cases :
      (now : ℕ) (token : String) (request : AuthorityRequest) (rows : List Grant)
      → ((e : AuthorityError) × ((consume sha256 now token request rows).0 ≡ err e))
        ⊎ ((v : VerifiedAuthority) × (consume sha256 now token request rows
              ≡ (ok v, (consume sha256 now token request rows).1)))
  consume-cases now token request rows =
      elim (Result-cases (consume sha256 now token request rows).0) [
        | inl (v, p) ↦ inr (v, ap (λ r. (r, (consume sha256 now token request rows).1)) p)
        | inr refused ↦ inl refused
      ]

  pub after-IsSpent :
      (h : String) (c : Call) (rows : List Grant) → IsSpent h rows → IsSpent h (after c rows)
  unfolding after
  after-IsSpent h (issue_call a token id) rows (g, e, s) = elim (issue-cases a token id rows) [
    | inl same ↦ (g, rw same e, s)
    | inr (t, more) ↦ (g, rw more (find_token-append h rows _ e), s)
  ]
  after-IsSpent h (consume_call now token request) rows s =
      elim (consume-cases now token request rows) [
        | inl (e, refused) ↦ rw (consume_err sha256 now token request rows refused) s
        | inr (v, done) ↦
            let (g, _, _, _, m) = consume_used sha256 now token request rows done in
            subst (IsSpent h) (ap (λ (x : ℕ × List Grant). x.1) m)
              (used-IsSpent h g.grant_id (g.use_count + 1) rows s)
      ]
  after-IsSpent h (revoke_call task operation) rows s = withdrawn-IsSpent h task operation rows s

  after-IsOneUse : (c : Call) (rows : List Grant) → IsOneUse rows → IsOneUse (after c rows)
  unfolding after
  after-IsOneUse (issue_call a token id) rows h = elim (issue-cases a token id rows) [
    | inl same ↦ rw same h
    | inr (t, more) ↦
        rw more
          (All-append (λ g. g.max_uses ≡ 1) rows (new_grant sha256 a token id t ∷ []) h (refl, tt))
  ]
  after-IsOneUse (consume_call now token request) rows h =
      elim (consume-cases now token request rows) [
        | inl (e, refused) ↦ rw (consume_err sha256 now token request rows refused) h
        | inr (v, done) ↦
            let (g, _, _, _, m) = consume_used sha256 now token request rows done in
            subst IsOneUse (ap (λ (x : ℕ × List Grant). x.1) m)
              (mark_consumed-IsOneUse g.grant_id (g.use_count + 1) rows h)
      ]
  after-IsOneUse (revoke_call task operation) rows h = revoke_issued-IsOneUse task operation rows h

  -- A successful use leaves the grant of its token used up.
  pub consume-IsSpent :
      (now : ℕ) (token : String) (request : AuthorityRequest) (rows : List Grant)
      {v : VerifiedAuthority}
      → IsOneUse rows
      → (consume sha256 now token request rows).0 ≡ ok v
      → IsSpent (sha256 token) (consume sha256 now token request rows).1
  consume-IsSpent now token request rows one h = elim (consume-cases now token request rows) [
    | inl (e, refused) ↦ absurd (cc)
    | inr (w, done) ↦
        let (g, found, permits, _, m) = consume_used sha256 now token request rows done in
        let once = max_uses_found (sha256 token) rows one found in
        let marked =
          find_token-mark_consumed (sha256 token) g.grant_id (g.use_count + 1) rows found in
        subst (IsSpent (sha256 token)) (ap (λ (x : ℕ × List Grant). x.1) m)
          (used g.grant_id (g.use_count + 1) g, marked, used_up g permits.unused once)
  ]

  pub not_used_again :
      (now : ℕ) (token : String) (request : AuthorityRequest) (rows : List Grant)
      {v : VerifiedAuthority}
      → IsSpent (sha256 token) rows
      → (consume sha256 now token request rows).0 ≢ ok v
  not_used_again now token request rows (g, found, spent) h =
      elim (consume-cases now token request rows) [
        | inl (e, refused) ↦ cc
        | inr (w, done) ↦
            let (f, found', permits, _, _) = consume_used sha256 now token request rows done in
            let same : f ≡ g = cc (found, found') in
            cc (permits.unused, ap is_unused same, spent_used g spent)
      ]

  used_now-cases :
      (h : String) (c : Call) (rows : List Grant)
      → IsOneUse rows
      → (used_now h c rows ≡ 0) ⊎ ((used_now h c rows ≡ 1) × IsSpent h (after c rows))
  unfolding used_now after
  used_now-cases h (issue_call a token id) rows one = inl refl
  used_now-cases h (revoke_call task operation) rows one = inl refl
  used_now-cases h (consume_call now token request) rows one =
      elim (Bool-cases (sha256 token == h)) [
        | inr other ↦ inl (rw other)
        | inl same ↦ elim (Result-cases (consume sha256 now token request rows).0) [
          | inr (e, refused) ↦ inl (rw (same, refused))
          | inl (v, done) ↦ inr (
            rw (same, done),
            subst (λ k. IsSpent k (consume sha256 now token request rows).1)
                ((eq_iff (sha256 token) h).0 same)
                (consume-IsSpent now token request rows one done),
          )
        ]
      ]

  used_now_spent :
      (h : String) (c : Call) (rows : List Grant) → IsSpent h rows → used_now h c rows ≡ 0
  unfolding used_now
  used_now_spent h (issue_call a token id) rows s = refl
  used_now_spent h (revoke_call task operation) rows s = refl
  used_now_spent h (consume_call now token request) rows s = elim (Bool-cases (sha256 token == h)) [
    | inr other ↦ rw other
    | inl same ↦ elim (Result-cases (consume sha256 now token request rows).0) [
      | inr (e, refused) ↦ rw (same, refused)
      | inl (v, done) ↦ absurd (
          not_used_again now token request rows
            (subst (λ k. IsSpent k rows) (sym ((eq_iff (sha256 token) h).0 same)) s) done)
    ]
  ]

  uses_spent :
      (h : String) (calls : List Call) (rows : List Grant) → IsSpent h rows → uses h calls rows ≡ 0
  unfolding uses
  uses_spent h [] rows s = refl
  uses_spent h (c ∷ calls) rows s = omega (
    arith,
    used_now_spent h c rows s,
    uses_spent h calls (after c rows) (after-IsSpent h c rows s),
  )

  uses_le_one :
      (h : String) (calls : List Call) (rows : List Grant) → IsOneUse rows → uses h calls rows ≤ 1
  unfolding uses
  uses_le_one h [] rows one = omega arith
  uses_le_one h (c ∷ calls) rows one = elim (used_now-cases h c rows one) [
    | inl none_now ↦ omega (arith, uses_le_one h calls (after c rows) (after-IsOneUse c rows one))
    | inr (once, s) ↦ omega (arith, uses_spent h calls (after c rows) s)
  ]

  -- the table after further calls of the authority store
  unfoldable pub afterwards : List Call → List Grant → List Grant
  afterwards [] rows = rows
  afterwards (c ∷ calls) rows = afterwards calls (after c rows)

  pub afterwards-IsSpent :
      (h : String) (calls : List Call) (rows : List Grant)
      → IsSpent h rows
      → IsSpent h (afterwards calls rows)
  unfolding afterwards
  afterwards-IsSpent h [] rows s = s
  afterwards-IsSpent h (c ∷ calls) rows s =
      afterwards-IsSpent h calls (after c rows) (after-IsSpent h c rows s)

  -- Over any calls of `issue`, `consume` and `revoke_issued`, at any times, that begin with an
  -- empty table, the uses of tokens with one hash that succeed are at most one.
  pub single_use : (token : String) (calls : List Call) → uses (sha256 token) calls [] ≤ 1
  single_use token calls = uses_le_one (sha256 token) calls [] tt
