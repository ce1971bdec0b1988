-- ===== src/Authority/Update.antt =====
-- src/agent_harness/authority.py: what the UPDATE of a use changes in the table.
use sdlc_harness.Prelude.{
  ℕ, ◌≤◌, String, ◌≡◌, ◌⊎◌, refl, sym, ap, ◌∙◌, subst, true, false, some, List, [], ◌∷◌, ◌++◌, ◌==◌,
  eq_iff, eq_refl, eqb, arith, Bool-cases, inl, inr, All,
}
use sdlc_harness.Authority.{
  Grant, GrantStatus, issued, consumed, is_issued, is_consumable, find_token, mark_consumed,
}

pub issued_status : (s : GrantStatus) → is_issued s ≡ true → s ≡ issued
issued_status issued h = refl
issued_status _ h = cc

-- one row that can be used, between rows that cannot
record OneRow (id : String) (n : ℕ) (rows rows' : List Grant) : Type 0 where
  before : List Grant
  row : Grant
  after : List Grant
  open_row : is_consumable id row ≡ true
  not_before : All (λ g. is_consumable id g ≡ false) before
  not_after : All (λ g. is_consumable id g ≡ false) after
  found : rows ≡ before ++ row ∷ after
  written : rows' ≡ before ++ record row { use_count = n; status = consumed } ∷ after

no_row :
    (id : String) (n : ℕ) (rows : List Grant)
    → (mark_consumed id n rows).0 ≡ 0
    → ((mark_consumed id n rows).1 ≡ rows) × All (λ g. is_consumable id g ≡ false) rows
unfolding mark_consumed
no_row id n [] h = (refl, tt)
no_row id n (g ∷ rows) h = elim (Bool-cases (is_consumable id g)) [
  | inl this ↦ absurd (ground (arith, rw this at h))
  | inr not_this ↦
      let (same, rest) = no_row id n rows (rw not_this at h) in
      (rw (not_this, same) refl, (not_this, rest))
]

one_row :
    (id : String) (n : ℕ) (rows : List Grant)
    → (mark_consumed id n rows).0 ≡ 1
    → OneRow id n rows (mark_consumed id n rows).1
unfolding mark_consumed
one_row id n [] h = absurd (ground arith)
one_row id n (g ∷ rows) h = elim (Bool-cases (is_consumable id g)) [
  | inl this ↦
      let (same, rest) = no_row id n rows (ground (arith, rw this at h)) in
      record {
        before = [];
        row = g;
        after = rows;
        open_row = this;
        not_before = tt;
        not_after = rest;
        found = refl;
        written = rw (this, same) refl;
      }
  | inr not_this ↦
      let o = one_row id n rows (rw not_this at h) in
      record {
        before = g ∷ o.before;
        row = o.row;
        after = o.after;
        open_row = o.open_row;
        not_before = (not_this, o.not_before);
        not_after = o.not_after;
        found = ap (λ xs. g ∷ xs) o.found;
        written = rw not_this (ap (λ xs. g ∷ xs) o.written);
      }
]

-- The rows of `rows'` are those of `rows`, in their order, but for one that was issued and not used,
-- under the id of a grant: it is consumed in `rows'` with a number of uses, and has kept the rest.
-- It is the grant itself unless that was used before.
pub record IsWritten (g : Grant) (n : ℕ) (rows rows' : List Grant) : Type 0 where
  pub before : List Grant
  pub row : Grant
  pub after : List Grant
  pub own_id : row.grant_id ≡ g.grant_id
  pub was_issued : row.status ≡ issued
  pub was_unused : row.use_count ≡ 0
  pub found : rows ≡ before ++ row ∷ after
  pub written : rows' ≡ before ++ record row { use_count = n; status = consumed } ∷ after
  pub own_row : (row ≡ g) ⊎ (1 ≤ g.use_count)

closed :
    (id h : String) (rows : List Grant) {g : Grant}
    → All (λ g. is_consumable id g ≡ false) rows
    → find_token h rows ≡ some g
    → is_consumable id g ≡ false
unfolding find_token
closed id h [] a e = cc
closed id h (f ∷ rows) {g} a e = elim (Bool-cases (f.token_sha256 == h)) [
  | inl here ↦ let same : f ≡ g = ground arith in subst (λ x. is_consumable id x ≡ false) same a.0
  | inr later ↦ closed id h rows a.1 (rw later at e)
]

lone :
    (id h : String) (before after : List Grant) (row : Grant) {g : Grant}
    → All (λ g. is_consumable id g ≡ false) before
    → All (λ g. is_consumable id g ≡ false) after
    → find_token h (before ++ row ∷ after) ≡ some g
    → is_consumable id g ≡ true
    → row ≡ g
unfolding find_token
lone id h [] after row {g} b a e open_row = elim (Bool-cases (row.token_sha256 == h)) [
  | inl here ↦ ground arith
  | inr later ↦ absurd (ground (arith, closed id h after {g = g} a (rw later at e)))
]
lone id h (f ∷ before) after row {g} b a e open_row = elim (Bool-cases (f.token_sha256 == h)) [
  | inl here ↦
      let same : f ≡ g = ground arith in
      absurd (ground (arith, subst (λ x. is_consumable id x ≡ false) same b.0))
  | inr later ↦ lone id h before after row b.1 a (rw later at e) open_row
]

-- An UPDATE for a grant that is found and issued, and that changes one row, writes that row only.
pub mark_consumed-IsWritten :
    (h : String) (n : ℕ) (rows : List Grant) (g : Grant) {rows' : List Grant}
    → find_token h rows ≡ some g
    → is_issued g.status ≡ true
    → mark_consumed g.grant_id n rows ≡ (1, rows')
    → IsWritten g n rows rows'
mark_consumed-IsWritten h n rows g {rows'} found on one =
    let o = one_row g.grant_id n rows (ap (λ (x : ℕ × List Grant). x.0) one) in
    let after : (mark_consumed g.grant_id n rows).1 ≡ rows' =
      ap (λ (x : ℕ × List Grant). x.1) one in
    record {
      before = o.before;
      row = o.row;
      after = o.after;
      own_id = (eq_iff o.row.grant_id g.grant_id).0 (ground (arith, o.open_row));
      was_issued = issued_status o.row.status (ground (arith, o.open_row));
      was_unused = ground (arith, o.open_row);
      found = o.found;
      written = sym after ∙ o.written;
      own_row = elim (Bool-cases (eqb g.use_count 0)) [
        | inl zero ↦ inl (
            lone g.grant_id h o.before o.after o.row o.not_before o.not_after
              (subst (λ xs. find_token h xs ≡ some g) o.found found) (rw (eq_refl, on, zero) refl))
        | inr more ↦ inr (ground arith)
      ];
    }
