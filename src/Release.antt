-- ===== src/Release.antt =====
-- src/agent_harness/release.py: `ReleaseDecision` and `ReleasePackager`.
-- The archive is the list of its entries. Its digest, the text of the release manifest and the
-- content of a path that is not a plain file of a tree (a link, or a file beside the inputs), when
-- `is_file` says that it is a file, are parameters.
pub mod Archive
pub mod Packaged
pub mod Origin
pub mod Extra
pub mod Tests
use Prim.Native.String.{◌++◌ as append_text}
use sdlc_harness.Prelude.{
  ℕ, String, Bool, true, false, not, ◌&&◌, ◌||◌, Option, none, some, List, [], ◌∷◌, ◌++◌, ◌==◌, eqb,
  if◌then◌else◌, Result, ok, err, ◌>>=◌, ◌>>◌, require,
}
use sdlc_harness.Dict.{Dict}
use sdlc_harness.Sets.{sort_items}
use sdlc_harness.Candidate.{
  Candidate, CandidateManifest, InvalidTransition, transition, same_state, approved, packaging,
  release_ready,
}
use sdlc_harness.Candidate.Tree.{
  Node, regular, folder, link, Tree, Root, missing, linked, other, directory,
}
use sdlc_harness.Candidate.Store.{Store, Stored, Identity, is_empty, verify_snapshot}
use sdlc_harness.Dict.{get}

pub data ReleaseDisposition : Type 0 where
  release limited_release hold prohibited : ReleaseDisposition

pub data ReleaseError : Type 0 where
  -- RuntimeError, ValueError and InvalidTransition
  runtime_error value_error invalid_transition : ReleaseError

pub record ReleaseDecision : Type 0 where
  pub disposition : ReleaseDisposition
  pub reasons : List String
  pub scope : Option String
  pub expires_at : Option String
  pub rollback_plan : Option String
  pub out_of_scope_controls : List String

-- `bool(value)` of a text or `None`
abbrev pub is_given : Option String → Bool
is_given none = false
is_given (some String.[]) = false
is_given (some (String.◌∷◌ _ _)) = true

-- `all(required)`
abbrev pub is_bounded : ReleaseDecision → Bool
is_bounded d =
    is_given d.scope
    && (is_given d.expires_at
        && (is_given d.rollback_plan && not (is_empty d.out_of_scope_controls)))

-- `__post_init__`
unfoldable pub make_decision : ReleaseDecision → Result ReleaseError ReleaseDecision
make_decision d = elim d.disposition [
  | limited_release ↦ require (is_bounded d) value_error >> ok d
  | _ ↦ ok d
]

abbrev pub allows_packaging : ReleaseDisposition → Bool
allows_packaging hold = false
allows_packaging prohibited = false
allows_packaging _ = true

abbrev pub Entry : Type 0
Entry = String × String

pub record ReleaseArtifact : Type 0 where
  pub path : String
  pub sha256 : String
  pub decision : ReleaseDecision
  pub archive : List Entry

-- the name of a file of the snapshot in the archive
abbrev pub entry_name : String → String → String
entry_name label path = append_text "candidate/" (append_text label (append_text "/" path))

abbrev pub entry_of : String → Option String → List Entry
entry_of name none = []
entry_of name (some content) = (name, content) ∷ []

module _ (follow : String → Option String) where
  unfoldable pub archive_tree : String → Tree → List Entry
  archive_tree label [] = []
  archive_tree label ((path, regular content) ∷ tree) =
      (entry_name label path, content) ∷ archive_tree label tree
  archive_tree label ((path, folder) ∷ tree) = archive_tree label tree
  archive_tree label ((path, link) ∷ tree) =
      entry_of (entry_name label path) (follow (append_text label (append_text "/" path)))
      ++ archive_tree label tree

  unfoldable pub archive_root : String → Root → List Entry
  unfolding archive_tree
  archive_root label (directory tree) = archive_tree label tree
  archive_root label _ = entry_of (append_text "candidate/" label) (follow label)

  unfoldable pub archive_all : Dict Root → List Entry
  unfolding archive_root
  archive_all [] = []
  archive_all ((label, root) ∷ rest) = archive_root label root ++ archive_all rest

module _ (sha256 : String → String) (size : String → ℕ) (identity_sha256 : Identity → String)
    (manifest_text : CandidateManifest → String) (read_manifest : String → Option CandidateManifest)
    (follow : String → Option String) (release_text : Candidate → ReleaseDecision → String)
    (archive_sha256 : List Entry → String) where
  unfoldable pub check_release :
      Candidate → ReleaseDecision → String → ℕ → Result ReleaseError (Unit {0})
  check_release c decision mission_id revision = do
    require (allows_packaging decision.disposition) runtime_error
    require (c.mission_id == mission_id) runtime_error
    require (eqb c.revision revision) runtime_error
    require (same_state c.state approved) runtime_error

  abbrev pub files_of : Store → Candidate → Dict Root
  files_of s c = elim (get c.candidate_id s.candidates) [ none ↦ [] | some stored ↦ stored.files ]

  abbrev pub artifact_of : Store → Candidate → ReleaseDecision → ReleaseArtifact
  artifact_of s c decision =
      let archive =
        ("release-manifest.json", release_text c decision)
        ∷ archive_all follow (sort_items (files_of s c)) in
      record {
        path = append_text c.candidate_id ".zip";
        sha256 = archive_sha256 archive;
        decision = decision;
        archive = archive;
      }

  -- the transition after the archive was written
  abbrev pub finished :
      Candidate
      → ReleaseArtifact
      → Result InvalidTransition Candidate
      → Result ReleaseError ReleaseArtifact × Candidate
  finished c a (err _) = (err invalid_transition, c)
  finished c a (ok d) = (ok a, d)

  abbrev pub packed :
      Store
      → Candidate
      → ReleaseDecision
      → Result InvalidTransition Candidate
      → Result ReleaseError ReleaseArtifact × Candidate
  packed s c decision (err _) = (err invalid_transition, c)
  packed s c decision (ok d) = finished d (artifact_of s d decision) (transition d release_ready)

  abbrev pub verified :
      Store → ReleaseDecision → Bool × Candidate → Result ReleaseError ReleaseArtifact × Candidate
  verified s decision (false, c) = (err runtime_error, c)
  verified s decision (true, c) = packed s c decision (transition c packaging)

  abbrev pub allowed_to :
      Store
      → Candidate
      → ReleaseDecision
      → Result ReleaseError (Unit {0})
      → Result ReleaseError ReleaseArtifact × Candidate
  allowed_to s c decision (err e) = (err e, c)
  allowed_to s c decision (ok _) =
      verified s decision
        (verify_snapshot sha256 size identity_sha256 manifest_text read_manifest s c none)

  -- the artifact, and the candidate after the call
  unfoldable pub package_release :
      Store
      → Candidate
      → ReleaseDecision
      → String
      → ℕ
      → Result ReleaseError ReleaseArtifact × Candidate
  package_release s c decision mission_id revision =
      allowed_to s c decision (check_release c decision mission_id revision)
