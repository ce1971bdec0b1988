-- ===== src/Candidate.antt =====
-- src/agent_harness/state_machine.py, with `CandidateState` and the state of a `Candidate` of
-- src/agent_harness/candidate.py.
-- A `Candidate` is mutated in place; here a transition returns the new value.
pub mod Lifecycle
pub mod Tree
pub mod Store
pub mod Freeze
pub mod Verified
pub mod Frozen
pub mod StoreTests
pub mod Tests
use sdlc_harness.Prelude.{
  ℕ, String, Bool, true, false, Option, List, [], ◌∷◌, ◌==◌, any, if◌then◌else◌, Result, ok, err,
  ◌>>=◌,
}

pub data CandidateState : Type 0 where
  frozen verifying reviewing approved packaging release_ready review_failed corrupt : CandidateState

-- `a is b`
abbrev pub same_state : CandidateState → CandidateState → Bool
same_state frozen frozen = true
same_state verifying verifying = true
same_state reviewing reviewing = true
same_state approved approved = true
same_state packaging packaging = true
same_state release_ready release_ready = true
same_state review_failed review_failed = true
same_state corrupt corrupt = true
same_state _ _ = false

pub record FileRecord : Type 0 where
  pub input : String
  pub path : String
  pub sha256 : String
  pub size : ℕ

pub record CandidateManifest : Type 0 where
  pub mission_id : String
  pub revision : ℕ
  pub parent_candidate_id : Option String
  pub created_by_role : String
  pub input_labels : List String
  pub toolchain : List (String × String)
  pub required_evidence : List String
  pub files : List FileRecord

pub record Candidate : Type 0 where
  pub candidate_id : String
  pub mission_id : String
  pub revision : ℕ
  pub manifest : CandidateManifest
  pub manifest_sha256 : String
  pub parent_candidate_id : Option String
  pub created_by_role : String
  pub state : CandidateState

pub data InvalidTransition : Type 0 where
  invalid : CandidateState → CandidateState → InvalidTransition

-- `CandidateStateMachine._allowed`
unfoldable pub allowed : CandidateState → List CandidateState
allowed frozen = verifying ∷ corrupt ∷ []
allowed verifying = reviewing ∷ review_failed ∷ corrupt ∷ []
allowed reviewing = approved ∷ review_failed ∷ corrupt ∷ []
allowed approved = packaging ∷ corrupt ∷ []
allowed packaging = release_ready ∷ corrupt ∷ []
allowed release_ready = []
allowed review_failed = []
allowed corrupt = []

-- `_transition_state`
abbrev pub set_state : CandidateState → Candidate → Candidate
set_state target c = record c { state = target }

unfoldable pub transition : Candidate → CandidateState → Result InvalidTransition Candidate
unfolding allowed
transition c target =
    if any (same_state target) (allowed c.state)
    then ok (set_state target c)
    else err (invalid c.state target)

-- A sequence of transitions; the first that is refused ends it.
pub transition_all : Candidate → List CandidateState → Result InvalidTransition Candidate
transition_all c [] = ok c
transition_all c (target ∷ rest) = do d ← transition c target; transition_all d rest
