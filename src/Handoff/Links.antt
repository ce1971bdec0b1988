-- ===== src/Handoff/Links.antt =====
-- What an accepted handoff guarantees.
use sdlc_harness.Prelude.{
  ℕ, zero, suc, String, ◌≡◌, ◌≢◌, refl, Bool, true, not, ◌&&◌, some, List, [], ◌∷◌, ◌++◌, ◌==◌,
  reverse, all, contains, subset, length, ok, ◌>>=◌, ok-bind, arith, eq_iff, eqb, get_elem?,
  contains_of_subset, Bool-cases, inl, inr, subst, Option-cases, Result-cases,
}
use sdlc_harness.Handoff.{
  FilePath, Disk, Handoff, ArtifactEntry, ExpectedResult, DecisionRule, Observation, Claim, lower,
  lowered, is_below, verify_artifact, verify_artifacts, verify_links, validate_and_verify, rule_ids,
  expected_ids, observation_ids_of, observed_ids,
}

-- a regular file below the root whose digest is `h`
abbrev pub Backed : Disk → FilePath → String → Type 0
Backed disk root h =
    (p : FilePath) × (is_below p root ≡ true)
    × (disk.is_file p ≡ true)
    × (lower (disk.sha256 p) ≡ h)

module _ (disk : Disk) (root : FilePath) where
  verified_artifact :
      (entry : ArtifactEntry) {h : String}
      → verify_artifact disk root entry ≡ ok h
      → Backed disk root h
  unfolding verify_artifact
  verified_artifact entry h =
      let path = reverse (disk.parse entry.path).parts ++ root in
      elim (Option-cases (disk.resolve path)) [
        | inl missing ↦ absurd (ground arith)
        | inr (p, found) ↦ (p, ground arith, ground arith, ground arith)
      ]

  verified_artifacts :
      (entries : List ArtifactEntry) {digests : List String} (h : String)
      → verify_artifacts disk root entries ≡ ok digests
      → contains h digests ≡ true
      → Backed disk root h
  unfolding verify_artifacts
  verified_artifacts [] h e c = absurd (ground arith)
  verified_artifacts (entry ∷ entries) {digests} h e c =
      let (digest, first, e₁) =
        ok-bind (verify_artifact disk root entry)
          (λ x. verify_artifacts disk root entries >>= λ xs. ok (x ∷ xs)) e in
      let (rest, others, e₂) =
        ok-bind (verify_artifacts disk root entries) (λ xs. ok (digest ∷ xs)) e₁ in
      elim (Bool-cases (digest == h)) [
        | inl same ↦
            subst (Backed disk root) ((eq_iff digest h).0 same) (verified_artifact entry first)
        | inr differs ↦ verified_artifacts entries h others (ground arith)
      ]

all_at {ℓ} :
    {A : Type ℓ} (p : A → Bool) (xs : List A) (i : ℕ) {x : A}
    → all p xs ≡ true
    → get_elem? xs i ≡ some x
    → p x ≡ true
all_at p [] i h e = cc
all_at p (y ∷ xs) zero h e = ground arith
all_at p (y ∷ xs) (suc i) h e = all_at p xs i (ground arith) e

length-zero : (xs : List String) → eqb (length xs) 0 ≡ true → xs ≡ []
length-zero [] h = refl
length-zero (x ∷ xs) h = absurd (ground arith)

-- what the tests on the links say of a document
pub record IsLinked (d : Handoff) (verified : List String) : Type 0 where
  pub claims :
      (i : ℕ) (c : Claim)
      → get_elem? d.claims i ≡ some c
      → (subset (lowered c.artifact_sha256s) verified ≡ true)
        × (subset c.observation_ids (observation_ids_of d) ≡ true)
  pub results :
      (i : ℕ) (e : ExpectedResult)
      → get_elem? d.expected_results i ≡ some e
      → (e.owner_role ≢ d.sender_role) × (subset e.decision_rule_ids (rule_ids d) ≡ true)
  pub rules :
      (i : ℕ) (r : DecisionRule)
      → get_elem? d.decision_rules i ≡ some r
      → r.owner_role ≢ d.sender_role
  pub observed : subset (expected_ids d) (observed_ids d) ≡ true
  pub passing :
      d.decision_outcome ≡ "pass"
      → (d.unresolved ≡ [])
        × ((i : ℕ) (o : Observation) → get_elem? d.observations i ≡ some o → o.outcome ≡ "pass")

verify_links-IsLinked :
    (d : Handoff) (verified : List String) → verify_links d verified ≡ ok tt → IsLinked d verified
verify_links-IsLinked d verified h = record {
  claims = λ i c e.
      let t =
        all_at
          (λ (c : Claim).
            subset (lowered c.artifact_sha256s) verified
            && subset c.observation_ids (observation_ids_of d))
          d.claims i (unfold verify_links in ground arith) e in
      (ground arith, ground arith);
  results = λ i e x.
      let t =
        all_at
          (λ (e : ExpectedResult).
            not (e.owner_role == d.sender_role) && subset e.decision_rule_ids (rule_ids d))
          d.expected_results i (unfold verify_links in ground arith) x in
      ((λ same. ground (arith, eq_iff e.owner_role d.sender_role)), ground arith);
  rules = λ i r x same.
      let t =
        all_at (λ (r : DecisionRule). not (r.owner_role == d.sender_role)) d.decision_rules i
          (unfold verify_links in ground arith) x in
      ground (arith, eq_iff r.owner_role d.sender_role);
  observed = unfold verify_links in ground arith;
  passing = λ pass.
      let t : (eqb (length d.unresolved) 0
            && all (λ (o : Observation). o.outcome == "pass") d.observations)
          ≡ true =
        unfold verify_links in ground (arith, eq_iff d.decision_outcome "pass") in
      (
        length-zero d.unresolved (ground arith),
        λ i o e.
            (eq_iff o.outcome "pass").0
              (all_at (λ (o : Observation). o.outcome == "pass") d.observations i (ground arith) e),
      );
}

module _ (schema_valid : Handoff → Bool) (disk : Disk) where
  accepted :
      (d : Handoff) (artifact_root : FilePath)
      → validate_and_verify schema_valid disk (some d) artifact_root ≡ ok tt
      → (root : FilePath) × (disk.resolve artifact_root ≡ some root)
        × (verified : List String) × (verify_artifacts disk root d.artifacts ≡ ok verified)
        × IsLinked d verified
  accepted d artifact_root h = elim (Option-cases (disk.resolve artifact_root)) [
    | inl missing ↦ absurd (unfold validate_and_verify in ground arith)
    | inr (root, resolved) ↦ elim (Result-cases (verify_artifacts disk root d.artifacts)) [
      | inr (e, bad) ↦ absurd (unfold validate_and_verify in ground arith)
      | inl (verified, good) ↦ (
        root,
        resolved,
        verified,
        good,
        verify_links-IsLinked d verified (unfold validate_and_verify in ground arith),
      )
    ]
  ]

  -- In a handoff that is accepted every digest that a claim cites is the digest of a regular file
  -- below the artifact root, every expected result and decision rule is owned by another role
  -- than the sender, and a passing decision leaves nothing unresolved and has only passing
  -- observations.
  pub validate-supported :
      (d : Handoff) (artifact_root : FilePath)
      → validate_and_verify schema_valid disk (some d) artifact_root ≡ ok tt
      → (root : FilePath) × (disk.resolve artifact_root ≡ some root)
        × ((i : ℕ) (c : Claim) (h : String)
            → get_elem? d.claims i ≡ some c
            → contains h (lowered c.artifact_sha256s) ≡ true
            → Backed disk root h)
        × ((i : ℕ) (e : ExpectedResult)
            → get_elem? d.expected_results i ≡ some e
            → e.owner_role ≢ d.sender_role)
        × ((i : ℕ) (r : DecisionRule)
            → get_elem? d.decision_rules i ≡ some r
            → r.owner_role ≢ d.sender_role)
        × (d.decision_outcome ≡ "pass"
            → (d.unresolved ≡ [])
              × ((i : ℕ) (o : Observation)
                  → get_elem? d.observations i ≡ some o
                  → o.outcome ≡ "pass"))
  validate-supported d artifact_root h =
      let (root, resolved, verified, checked, linked) = accepted d artifact_root h in
      (
        root,
        resolved,
        (λ i c x e m.
            verified_artifacts disk root d.artifacts x checked (
              contains_of_subset x (lowered c.artifact_sha256s) verified (linked.claims i c e).0
                m)),
        (λ i e x. (linked.results i e x).0),
        linked.rules,
        linked.passing,
      )
