-- ===== src/Candidate/Tests.antt =====
-- The life of a candidate, run from a small snapshot.
use sdlc_harness.Prelude.{◌≤◌, ◌≡◌, refl, List, [], ◌∷◌, none, length, err}
use sdlc_harness.Candidate.{
  Candidate, CandidateState, frozen, verifying, reviewing, approved, packaging, release_ready,
  review_failed, invalid, set_state, transition, transition_all,
}
use sdlc_harness.Candidate.Lifecycle.{release_needs_review, transitions_bounded}

abbrev pub snapshot : Candidate
snapshot = record {
  candidate_id = "c-1";
  mission_id = "m-1";
  revision = 1;
  manifest = record {
    mission_id = "m-1";
    revision = 1;
    parent_candidate_id = none;
    created_by_role = "implementation-specialist";
    input_labels = "src" ∷ [];
    toolchain = ("python", "3.12") ∷ [];
    required_evidence = "unit-tests" ∷ [];
    files = record { input = "src"; path = "a.py"; sha256 = "aa"; size = 3 } ∷ [];
  };
  manifest_sha256 = "ff";
  parent_candidate_id = none;
  created_by_role = "implementation-specialist";
  state = frozen;
}

abbrev all_the_way : List CandidateState
all_the_way = verifying ∷ reviewing ∷ approved ∷ packaging ∷ release_ready ∷ []

no_review : transition snapshot approved ≡ err (invalid frozen approved)
unfolding transition
no_review = refl

release_needs_review_example :
    all_the_way ≡ verifying ∷ reviewing ∷ approved ∷ packaging ∷ release_ready ∷ []
unfolding transition_all transition
release_needs_review_example =
    release_needs_review snapshot all_the_way {d = set_state release_ready snapshot} refl refl refl

abbrev to_failure : List CandidateState
to_failure = verifying ∷ review_failed ∷ []

transitions_bounded_example :
    (set_state review_failed snapshot ≡ set_state review_failed snapshot) × (length to_failure ≤ 5)
unfolding transition_all transition
transitions_bounded_example =
    transitions_bounded snapshot to_failure {d = set_state review_failed snapshot} refl
