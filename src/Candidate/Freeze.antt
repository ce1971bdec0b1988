-- ===== src/Candidate/Freeze.antt =====
-- src/agent_harness/candidate.py: `freeze_candidate`.
-- A directory that is copied is the same tree at another place; an input that is scanned has no
-- symbolic link that the copy would follow.
use sdlc_harness.Prelude.{
  ℕ, String, false, not, Option, none, some, List, all, subset, is_some, Result, ok, err, ◌>>=◌,
  ◌>>◌, require,
}
use sdlc_harness.Dict.{Dict, get, put, keys}
use sdlc_harness.Sets.{sort_items, sorted_set}
use sdlc_harness.Candidate.{Candidate, CandidateManifest, FileRecord, frozen}
use sdlc_harness.Candidate.Tree.{StoreError, value_error, file_exists, Root, scan_inputs}
use sdlc_harness.Candidate.Store.{
  Store, Stored, Identity, candidate_id_of, get_candidate, is_safe_label, is_empty,
  required_input_labels, state_value, put_cached,
}

unfoldable pub check_inputs : Dict Root → Dict String → Result StoreError (Unit {0})
check_inputs inputs toolchain = do
  require (not (is_empty inputs)) value_error
  require (all is_safe_label (keys inputs)) value_error
  require (subset required_input_labels (keys inputs)) value_error
  require (not (is_empty toolchain)) value_error

abbrev pub manifest_for :
    String
    → ℕ
    → Dict Root
    → Dict String
    → List String
    → Option String
    → String
    → List FileRecord
    → CandidateManifest
manifest_for mission_id revision inputs toolchain required_evidence parent role files = record {
  mission_id = mission_id;
  revision = revision;
  parent_candidate_id = parent;
  created_by_role = role;
  input_labels = sorted_set (keys inputs);
  toolchain = sort_items toolchain;
  required_evidence = sorted_set required_evidence;
  files = files;
}

module _ (sha256 : String → String) (size : String → ℕ) (identity_sha256 : Identity → String)
    (manifest_text : CandidateManifest → String)
    (read_manifest : String → Option CandidateManifest) where
  -- the directory that is written, and the object
  abbrev pub stored_for : CandidateManifest → Dict Root → Stored
  stored_for m inputs = record {
    has_link = false;
    manifest_json = some (manifest_text m);
    manifest_sha256 = some (sha256 (manifest_text m));
    state = some (state_value frozen);
    files = sort_items inputs;
  }

  abbrev pub candidate_for : CandidateManifest → Candidate
  candidate_for m = record {
    candidate_id = candidate_id_of sha256 size identity_sha256 manifest_text read_manifest m;
    mission_id = m.mission_id;
    revision = m.revision;
    manifest = m;
    manifest_sha256 = sha256 (manifest_text m);
    parent_candidate_id = m.parent_candidate_id;
    created_by_role = m.created_by_role;
    state = frozen;
  }

  abbrev pub add_candidate : Store → CandidateManifest → Dict Root → Store
  add_candidate s m inputs =
      let c = candidate_for m in
      put_cached c (record s { candidates = put c.candidate_id (stored_for m inputs) s.candidates })

  abbrev pub frozen_in :
      Store → Dict Root → Result StoreError CandidateManifest → Result StoreError Candidate × Store
  frozen_in s inputs (ok m) = (ok (candidate_for m), add_candidate s m inputs)
  frozen_in s inputs (err e) = (err e, s)

  -- the manifest of a candidate that is new to the store
  unfoldable pub new_manifest :
      Store
      → String
      → ℕ
      → Dict Root
      → Dict String
      → List String
      → Option String
      → String
      → Result StoreError CandidateManifest
  new_manifest s mission_id revision inputs toolchain required_evidence parent role = do
    files ← scan_inputs sha256 size inputs
    let m = manifest_for mission_id revision inputs toolchain required_evidence parent role files
    require (not (is_some (get (candidate_for m).candidate_id s.candidates))) file_exists
    ok m

  -- `self.get(parent_candidate_id)`
  abbrev pub parent_found : Store → Option String → Result StoreError (Unit {0}) × Store
  parent_found s none = (ok tt, s)
  parent_found s (some parent) =
      let (r, t) = get_candidate sha256 size identity_sha256 manifest_text read_manifest s parent in
      (r >>= λ _. ok tt, t)

  abbrev pub checked :
      Store → Option String → Result StoreError (Unit {0}) → Result StoreError (Unit {0}) × Store
  checked s parent (ok _) = parent_found s parent
  checked s parent (err e) = (err e, s)

  unfoldable pub freeze_candidate :
      Store
      → String
      → ℕ
      → Dict Root
      → Dict String
      → List String
      → Option String
      → String
      → Result StoreError Candidate × Store
  freeze_candidate s mission_id revision inputs toolchain required_evidence parent role =
      let (r, t) = checked s parent (check_inputs inputs toolchain) in
      frozen_in t inputs (
        r >>= λ _.
        new_manifest t mission_id revision inputs toolchain required_evidence parent role)
