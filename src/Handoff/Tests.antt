-- ===== src/Handoff/Tests.antt =====
-- A small handoff, accepted on a small disk.
use sdlc_harness.Prelude.{
  ℕ, String, ◌≡◌, ◌≢◌, refl, Bool, true, false, some, [], ◌∷◌, contains, get_elem?,
}
use sdlc_harness.Handoff.{
  FilePath, Disk, Handoff, ExpectedResult, DecisionRule, Observation, Claim, validate_and_verify,
  verify_links, verify_artifact, verify_artifacts, no_symlink, no_symlink_until, is_below, lower,
  lowered,
}
use sdlc_harness.Handoff.Links.{Backed, validate-supported}

-- one file for every path, under a root of one component
abbrev pub disk : Disk
disk = record {
  parse = λ s. record { is_absolute = false; parts = s ∷ [] };
  is_symlink = λ p. false;
  resolve = λ p. some p;
  is_file = λ p. true;
  sha256 = λ p. "AA";
}

abbrev pub any_schema : Handoff → Bool
any_schema d = true

abbrev report : Handoff
report = record {
  sender_role = "verification-specialist";
  body = record {
    claims =
        record { claim_id = "c-1"; artifact_sha256s = "aa" ∷ []; observation_ids = "o-1" ∷ [] }
        ∷ [];
    expected_results =
        record {
          expected_result_id = "x-1";
          owner_role = "oracle-specialist";
          decision_rule_ids = "r-1" ∷ [];
        }
        ∷ [];
    decision_rules = record { decision_rule_id = "r-1"; owner_role = "oracle-specialist" } ∷ [];
    observations =
        record {
          observation_id = "o-1";
          expected_result_id = "x-1";
          artifact_sha256 = "Aa";
          outcome = "pass";
        }
        ∷ [];
    decision_outcome = "pass";
    applied_rule_ids = "r-1" ∷ [];
    unresolved = [];
    artifacts = record { artifact_type = "evidence"; path = "log.txt"; sha256 = "aA" } ∷ [];
  };
}

validate-supported_example :
    (root : FilePath) × (disk.resolve ("artifacts" ∷ []) ≡ some root)
    × ((i : ℕ) (c : Claim) (h : String)
        → get_elem? report.claims i ≡ some c
        → contains h (lowered c.artifact_sha256s) ≡ true
        → Backed disk root h)
    × ((i : ℕ) (e : ExpectedResult)
        → get_elem? report.expected_results i ≡ some e
        → e.owner_role ≢ report.sender_role)
    × ((i : ℕ) (r : DecisionRule)
        → get_elem? report.decision_rules i ≡ some r
        → r.owner_role ≢ report.sender_role)
    × (report.decision_outcome ≡ "pass"
        → (report.unresolved ≡ [])
          × ((i : ℕ) (o : Observation)
              → get_elem? report.observations i ≡ some o
              → o.outcome ≡ "pass"))
unfolding validate_and_verify verify_links verify_artifacts verify_artifact no_symlink
    no_symlink_until is_below lower
validate-supported_example = validate-supported any_schema disk report ("artifacts" ∷ []) refl
