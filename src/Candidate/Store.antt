-- ===== src/Candidate/Store.antt =====
-- src/agent_harness/candidate.py: `CandidateStore`.
-- The store is the directories of its candidates and the cache of its objects. A candidate that is
-- mutated while it is in the cache is mutated there too, which `put_cached` writes out. The JSON
-- texts of manifests are written by `manifest_text` and read by `read_manifest`, which has no value
-- for a text that is not a manifest; such a text, as a missing file, gives a KeyError.
use Prim.Native.String.{◌++◌ as append_text}
use sdlc_harness.Prelude.{
  ℕ, String, Bool, true, false, not, ◌&&◌, Option, none, some, List, [], ◌∷◌, ◌==◌, eqb, opt_eq,
  map, all, length, if◌then◌else◌, Result, ok, err, ◌>>=◌, ◌>>◌, require,
}
use sdlc_harness.Dict.{Dict, get, put}
use sdlc_harness.Sets.{sorted_set}
use sdlc_harness.Text.{is_hex_text, is_safe_text, after_prefix}
use sdlc_harness.Candidate.{
  CandidateState, Candidate, CandidateManifest, FileRecord, set_state, frozen, verifying, reviewing,
  approved, packaging, release_ready, review_failed, corrupt,
}
use sdlc_harness.Candidate.Tree.{
  StoreError, value_error, os_error, key_error, Root, missing, same_files, scan_inputs,
}

-- the directory of a candidate; the digest is without its line end, the state is that of the object
pub record Stored : Type 0 where
  pub has_link : Bool
  pub manifest_json : Option String
  pub manifest_sha256 : Option String
  pub state : Option String
  pub files : Dict Root

pub record Store : Type 0 where
  pub candidates : Dict Stored
  pub cache : Dict Candidate

-- `CandidateState.value` and `CandidateState(text)`
abbrev pub state_value : CandidateState → String
state_value frozen = "frozen"
state_value verifying = "verifying"
state_value reviewing = "reviewing"
state_value approved = "approved"
state_value packaging = "packaging"
state_value release_ready = "release-ready"
state_value review_failed = "review-failed"
state_value corrupt = "corrupt"

abbrev find_state : List CandidateState → String → Option CandidateState
find_state [] text = none
find_state (s ∷ rest) text = if state_value s == text then some s else find_state rest text

unfoldable pub read_state : String → Option CandidateState
read_state = find_state (
    frozen ∷ verifying ∷ reviewing ∷ approved ∷ packaging ∷ release_ready ∷ review_failed ∷ corrupt
    ∷ [])

abbrev pub or_error {ℓ} : {A : Type ℓ} → StoreError → Option A → Result StoreError A
or_error e none = err e
or_error e (some a) = ok a

-- what the id of a candidate is computed from
pub record Identity : Type 0 where
  pub input_labels : List String
  pub toolchain : Dict String
  pub required_evidence : List String
  pub files : List FileRecord

abbrev pub identity_of : CandidateManifest → Identity
identity_of m = record {
  input_labels = m.input_labels;
  toolchain = m.toolchain;
  required_evidence = m.required_evidence;
  files = m.files;
}

abbrev pub is_digest : Option String → Bool
is_digest none = false
is_digest (some rest) = is_hex_text 64 rest

-- ^cand-[0-9a-f]{64}$
unfoldable pub is_candidate_id : String → Bool
unfolding is_hex_text
is_candidate_id text = is_digest (after_prefix "cand-" text)

abbrev pub same_texts : List String → List String → Bool
same_texts [] [] = true
same_texts (a ∷ xs) (b ∷ ys) = (a == b) && same_texts xs ys
same_texts _ _ = false

-- `==` on dicts of texts
abbrev pub same_dict : Dict String → Dict String → Bool
same_dict a b = eqb (length a) (length b) && all (λ e. opt_eq (get e.0 b) (some e.1)) a

-- `==` on manifests
unfoldable pub same_manifest : CandidateManifest → CandidateManifest → Bool
same_manifest a b =
    (a.mission_id == b.mission_id)
    && (eqb a.revision b.revision
        && (opt_eq a.parent_candidate_id b.parent_candidate_id
            && ((a.created_by_role == b.created_by_role)
                && (same_texts a.input_labels b.input_labels
                    && (same_dict a.toolchain b.toolchain
                        && (same_texts a.required_evidence b.required_evidence
                            && same_files a.files b.files))))))

-- `expected is not None and digest != expected`
abbrev pub is_other_digest : Option String → String → Bool
is_other_digest none digest = false
is_other_digest (some expected) digest = not (digest == expected)

abbrev pub root_at : String → Dict Root → Root
root_at label files = elim (get label files) [ none ↦ missing | some r ↦ r ]

abbrev pub required_input_labels : List String
required_input_labels = "source" ∷ "requirements" ∷ "design" ∷ "build-config" ∷ "dependencies" ∷ []

abbrev pub is_safe_label : String → Bool
is_safe_label label = is_safe_text label && (not (label == ".") && not (label == ".."))

abbrev pub is_empty {ℓ} : {A : Type ℓ} → List A → Bool
is_empty [] = true
is_empty (_ ∷ _) = false

-- a `Candidate` that is in the cache is the object that its holders mutate
abbrev pub put_cached : Candidate → Store → Store
put_cached c s = record s { cache = put c.candidate_id c s.cache }

module _ (sha256 : String → String) (size : String → ℕ) (identity_sha256 : Identity → String)
    (manifest_text : CandidateManifest → String)
    (read_manifest : String → Option CandidateManifest) where
  -- `_candidate_id`
  abbrev pub candidate_id_of : CandidateManifest → String
  candidate_id_of m = append_text "cand-" (identity_sha256 (identity_of m))

  -- the part of `get` that reads the directory
  unfoldable pub read_candidate : String → Stored → Result StoreError Candidate
  read_candidate id stored = do
    require (not stored.has_link) value_error
    bytes ← or_error key_error stored.manifest_json
    manifest ← or_error key_error (read_manifest bytes)
    digest ← or_error key_error stored.manifest_sha256
    state_text ← or_error key_error stored.state
    require (is_hex_text 64 digest && (sha256 bytes == digest)) value_error
    require (candidate_id_of manifest == id) value_error
    state ← or_error value_error (read_state state_text)
    ok (record {
      candidate_id = id;
      mission_id = manifest.mission_id;
      revision = manifest.revision;
      manifest = manifest;
      manifest_sha256 = digest;
      parent_candidate_id = manifest.parent_candidate_id;
      created_by_role = manifest.created_by_role;
      state = state;
    })

  abbrev pub cached : Store → Result StoreError Candidate → Result StoreError Candidate × Store
  cached s (ok c) = (ok c, put_cached c s)
  cached s (err e) = (err e, s)

  unfoldable pub get_candidate : Store → String → Result StoreError Candidate × Store
  get_candidate s id =
      if not (is_candidate_id id) then (err key_error, s) else elim (get id s.cache) [
        | some c ↦ (ok c, s)
        | none ↦ cached s (or_error key_error (get id s.candidates) >>= read_candidate id)
      ]

  -- the tests of `verify_snapshot`; each exception that it catches is an error here
  unfoldable pub check_snapshot : Store → Candidate → Option String → Result StoreError (Unit {0})
  check_snapshot s c expected = do
    stored ← or_error os_error (get c.candidate_id s.candidates)
    bytes ← or_error os_error stored.manifest_json
    manifest ← or_error value_error (read_manifest bytes)
    digest ← or_error os_error stored.manifest_sha256
    require (is_hex_text 64 digest && (sha256 bytes == digest)) value_error
    require (digest == c.manifest_sha256) value_error
    require (not (is_other_digest expected digest)) value_error
    require (same_manifest manifest c.manifest) value_error
    require (c.manifest.mission_id == c.mission_id) value_error
    require (eqb c.manifest.revision c.revision) value_error
    require (opt_eq c.manifest.parent_candidate_id c.parent_candidate_id) value_error
    require (c.manifest.created_by_role == c.created_by_role) value_error
    require (candidate_id_of c.manifest == c.candidate_id) value_error
    actual ←
        scan_inputs sha256 size
          (map (λ label. (label, root_at label stored.files)) (sorted_set c.manifest.input_labels))
    require (same_files actual c.manifest.files) value_error

  -- the answer, and the candidate, which is corrupt unless it is `True`
  abbrev pub verdict : Candidate → Result StoreError (Unit {0}) → Bool × Candidate
  verdict c (ok _) = (true, c)
  verdict c (err _) = (false, set_state corrupt c)

  unfoldable pub verify_snapshot : Store → Candidate → Option String → Bool × Candidate
  verify_snapshot s c expected = verdict c (check_snapshot s c expected)

  abbrev pub verify_found :
      Result StoreError Candidate × Store → Option String → Result StoreError Bool × Store
  verify_found (ok c, s) expected =
      let v = verify_snapshot s c expected in (ok v.0, put_cached v.1 s)
  verify_found (err e, s) expected = (err e, s)

  unfoldable pub verify : Store → String → Option String → Result StoreError Bool × Store
  unfolding get_candidate
  verify s id expected = verify_found (get_candidate s id) expected

  abbrev pub write_state : Candidate → Stored → Stored
  write_state c stored = record stored { state = some (state_value c.state) }

  abbrev pub written : Candidate → Store → Option Stored → Result StoreError (Unit {0}) × Store
  written c s none = (err os_error, put_cached c s)
  written c s (some stored) = (
    ok tt,
    record (put_cached c s) { candidates = put c.candidate_id (write_state c stored) s.candidates },
  )

  abbrev pub saved :
      Candidate → Result StoreError Candidate × Store → Result StoreError (Unit {0}) × Store
  saved c (err e, s) = (err e, s)
  saved c (ok _, s) = written c s (get c.candidate_id s.candidates)

  -- the file is replaced in the directory of the candidate; `get` raises for one that has none
  unfoldable pub save_state : Store → Candidate → Result StoreError (Unit {0}) × Store
  unfolding get_candidate
  save_state s c = saved c (get_candidate s c.candidate_id)
