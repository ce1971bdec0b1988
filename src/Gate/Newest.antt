-- ===== src/Gate/Newest.antt =====
-- src/agent_harness/policy.py: the evidence that `latest_by_type` keeps.
use sdlc_harness.Prelude.{
  String, ◌≡◌, ◌≢◌, ◌⊎◌, sym, ap, ◌∙◌, subst, some, List, [], ◌∷◌, ◌++◌, ◌==◌, eq_iff, arith,
  Bool-cases, inl, inr, All,
}
use sdlc_harness.Dict.{Dict, get, put, get-put}
use sdlc_harness.Evidence.{EvidenceRecord}
use sdlc_harness.Gate.{latest_by_type}

-- a record of a type that no later record has
pub record IsNewest (evidence_type : String) (r : EvidenceRecord) (records : List EvidenceRecord)
    : Type 0 where
  pub before : List EvidenceRecord
  pub after : List EvidenceRecord
  pub recorded : records ≡ before ++ r ∷ after
  pub own_type : r.evidence_type ≡ evidence_type
  pub none_later : All (λ x. x.evidence_type ≢ evidence_type) after

latest_by_type_cases :
    (t : String) (records : List EvidenceRecord) (latest : Dict EvidenceRecord) {r : EvidenceRecord}
    → get t (latest_by_type records latest) ≡ some r
    → IsNewest t r records ⊎ ((get t latest ≡ some r) × All (λ x. x.evidence_type ≢ t) records)
unfolding latest_by_type
latest_by_type_cases t [] latest h = inr (h, tt)
latest_by_type_cases t (x ∷ records) latest {r} h =
    elim (latest_by_type_cases t records (put x.evidence_type x latest) h) [
      | inl n ↦ inl (record {
        before = x ∷ n.before;
        after = n.after;
        recorded = ap (λ xs. x ∷ xs) n.recorded;
        own_type = n.own_type;
        none_later = n.none_later;
      })
      | inr (kept, none_later) ↦
          let seen = sym (get-put x.evidence_type t x latest) ∙ kept in
          elim (Bool-cases (x.evidence_type == t)) [
            | inl same ↦
                let own : x ≡ r = ground (arith, rw same at seen) in
                inl (record {
                  before = [];
                  after = records;
                  recorded = ap (λ y. y ∷ records) own;
                  own_type =
                      subst (λ y. y.evidence_type ≡ t) own ((eq_iff x.evidence_type t).0 same);
                  none_later = none_later;
                })
            | inr other ↦ inr (
              rw other at seen,
              ((λ e. absurd (ground (arith, (eq_iff x.evidence_type t).1 e))), none_later),
            )
          ]
    ]

-- The record that is kept of a type is the newest one of it.
pub latest_by_type-IsNewest :
    (t : String) (records : List EvidenceRecord) {r : EvidenceRecord}
    → get t (latest_by_type records []) ≡ some r
    → IsNewest t r records
latest_by_type-IsNewest t records {r} h = elim (latest_by_type_cases t records [] {r = r} h) [
  | inl n ↦ n
  | inr (kept, _) ↦ absurd (ground arith)
]
