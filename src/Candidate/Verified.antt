-- ===== src/Candidate/Verified.antt =====
-- src/agent_harness/candidate.py: what `verify_snapshot` makes sure of.
use sdlc_harness.Prelude.{
  ℕ, String, ◌≡◌, refl, ap, ◌∙◌, subst, Bool, true, false, not, ◌&&◌, Option, none, some, List, [],
  ◌∷◌, ◌==◌, eq_iff, eq_refl, eqb, opt_eq, opt_eq_iff, map, all, Result, ok, ◌>>=◌, require,
  require_ok, ok-bind, arith, Bool-cases, inl, inr, contains, Result-cases, All, length,
}
use sdlc_harness.Dict.{Dict, get, keys, contains-keys}
use sdlc_harness.Sets.{sorted_set}
use sdlc_harness.Sets.Order.{IsDict}
use sdlc_harness.Text.{is_hex_text}
use sdlc_harness.Candidate.{Candidate, CandidateManifest, FileRecord}
use sdlc_harness.Candidate.Tree.{
  StoreError, value_error, os_error, Root, same_file, same_files, scan_inputs,
}
use sdlc_harness.Candidate.Store.{
  Store, Stored, Identity, candidate_id_of, or_error, same_texts, same_manifest, is_other_digest,
  root_at, check_snapshot, verify_snapshot,
}

pub same_file_sound : (a b : FileRecord) → same_file a b ≡ true → a ≡ b
same_file_sound a b h =
    let p = (eq_iff a.input b.input).0 (ground arith) in
    let q = (eq_iff a.path b.path).0 (ground arith) in
    let r = (eq_iff a.sha256 b.sha256).0 (ground arith) in
    let n : a.size ≡ b.size = ground arith in
    λ i. record { input = p i; path = q i; sha256 = r i; size = n i }

pub same_files_sound : (a b : List FileRecord) → same_files a b ≡ true → a ≡ b
same_files_sound [] [] h = refl
same_files_sound [] (y ∷ ys) h = cc
same_files_sound (x ∷ xs) [] h = cc
same_files_sound (x ∷ xs) (y ∷ ys) h =
    let p = same_file_sound x y (ground arith) in
    let q = same_files_sound xs ys (ground arith) in λ i. p i ∷ q i

pub eqb_refl : (n : ℕ) → eqb n n ≡ true
eqb_refl n = ground arith

pub same_files_refl : (a : List FileRecord) → same_files a a ≡ true
same_files_refl [] = refl
same_files_refl (x ∷ xs) = simp (eq_refl, eqb_refl, same_files_refl xs)

same_texts_refl : (a : List String) → same_texts a a ≡ true
same_texts_refl [] = refl
same_texts_refl (x ∷ xs) = simp (eq_refl, same_texts_refl xs)

pub opt_eq_refl : (o : Option String) → opt_eq o o ≡ true
opt_eq_refl o = (opt_eq_iff o o).1 refl

-- a dict of texts is the same as itself when no key is twice in it
holds_all :
    (d e : Dict String)
    → ((k v : String) → get k d ≡ some v → get k e ≡ some v)
    → IsDict d
    → all (λ f. opt_eq (get f.0 e) (some f.1)) d ≡ true
holds_all [] e h i = refl
holds_all ((k, v) ∷ d) e h (new, i) =
    let here = h k v (simp eq_refl) in
    rw (here, eq_refl)
      (holds_all d e
        (λ j w found. h j w (elim (Bool-cases (k == j)) [
          | inr other ↦ rw other found
          | inl same ↦ absurd (
              ground (
                arith,
                contains-keys j d,
                subst (λ x. contains x (keys d) ≡ false) ((eq_iff k j).0 same) new,
              ))
        ]))
        i)

pub same_manifest_refl : (m : CandidateManifest) → IsDict m.toolchain → same_manifest m m ≡ true
unfolding same_manifest
same_manifest_refl m i = simp (
  eq_refl,
  eqb_refl,
  opt_eq_refl,
  same_texts_refl,
  holds_all m.toolchain m.toolchain (λ k v h. h) i,
  same_files_refl,
)

or_error_ok :
    {A B : Type 0} {b : B} (e : StoreError) (o : Option A) (k : A → Result StoreError B)
    → (or_error e o >>= k) ≡ ok b
    → (a : A) × (o ≡ some a) × (k a ≡ ok b)
or_error_ok e none k h = cc
or_error_ok e (some a) k h = (a, refl, h)

require_last : (b : Bool) (e : StoreError) → require b e ≡ ok tt → b ≡ true
require_last true e h = refl
require_last false e h = cc

pub same_texts_sound : (a b : List String) → same_texts a b ≡ true → a ≡ b
same_texts_sound [] [] h = refl
same_texts_sound [] (y ∷ ys) h = cc
same_texts_sound (x ∷ xs) [] h = cc
same_texts_sound (x ∷ xs) (y ∷ ys) h =
    let p = (eq_iff x y).0 (ground arith) in
    let q = same_texts_sound xs ys (ground arith) in λ i. p i ∷ q i

held :
    (d e : Dict String)
    → all (λ f. opt_eq (get f.0 e) (some f.1)) d ≡ true
    → All (λ f. get f.0 e ≡ some f.1) d
held [] e h = tt
held ((k, v) ∷ d) e h = ((opt_eq_iff (get k e) (some v)).0 (ground arith), held d e (ground arith))

-- Two manifests that say the same: the toolchain as a dict, all else as it is written.
pub record SaysSame (a b : CandidateManifest) : Type 0 where
  pub mission : a.mission_id ≡ b.mission_id
  pub revision : a.revision ≡ b.revision
  pub parent : a.parent_candidate_id ≡ b.parent_candidate_id
  pub role : a.created_by_role ≡ b.created_by_role
  pub labels : a.input_labels ≡ b.input_labels
  pub tools : length a.toolchain ≡ length b.toolchain
  pub same_tools : All (λ e. get e.0 b.toolchain ≡ some e.1) a.toolchain
  pub evidence : a.required_evidence ≡ b.required_evidence
  pub files : a.files ≡ b.files

same_manifest-SaysSame : (a b : CandidateManifest) → same_manifest a b ≡ true → SaysSame a b
unfolding same_manifest
same_manifest-SaysSame a b h = record {
  mission = (eq_iff a.mission_id b.mission_id).0 (ground arith);
  revision = ground arith;
  parent = (opt_eq_iff a.parent_candidate_id b.parent_candidate_id).0 (ground arith);
  role = (eq_iff a.created_by_role b.created_by_role).0 (ground arith);
  labels = same_texts_sound a.input_labels b.input_labels (ground arith);
  tools = ground arith;
  same_tools = held a.toolchain b.toolchain (ground arith);
  evidence = same_texts_sound a.required_evidence b.required_evidence (ground arith);
  files = same_files_sound a.files b.files (ground arith);
}

module _ (sha256 : String → String) (size : String → ℕ) (identity_sha256 : Identity → String)
    (manifest_text : CandidateManifest → String)
    (read_manifest : String → Option CandidateManifest) where
  abbrev pub id_of : CandidateManifest → String
  id_of = candidate_id_of sha256 size identity_sha256 manifest_text read_manifest

  -- the inputs that `verify_snapshot` scans
  abbrev pub labelled : CandidateManifest → Stored → Dict Root
  labelled m stored = map (λ label. (label, root_at label stored.files)) (sorted_set m.input_labels)

  -- what a snapshot that is verified is
  pub record IsIntact (s : Store) (c : Candidate) (expected : Option String) : Type 0 where
    pub stored : Stored
    pub bytes : String
    pub present : get c.candidate_id s.candidates ≡ some stored
    pub written : stored.manifest_json ≡ some bytes
    pub hashed : sha256 bytes ≡ c.manifest_sha256
    pub recorded : stored.manifest_sha256 ≡ some c.manifest_sha256
    pub manifest : CandidateManifest
    pub read : read_manifest bytes ≡ some manifest
    pub same : SaysSame manifest c.manifest
    pub own_id : id_of c.manifest ≡ c.candidate_id
    pub own_mission : c.manifest.mission_id ≡ c.mission_id
    pub own_revision : c.manifest.revision ≡ c.revision
    pub own_parent : c.manifest.parent_candidate_id ≡ c.parent_candidate_id
    pub own_role : c.manifest.created_by_role ≡ c.created_by_role
    pub files : scan_inputs sha256 size (labelled c.manifest stored) ≡ ok c.manifest.files

  check_snapshot-IsIntact :
      (s : Store) (c : Candidate) (expected : Option String)
      → check_snapshot sha256 size identity_sha256 manifest_text read_manifest s c expected ≡ ok tt
      → IsIntact s c expected
  unfolding check_snapshot
  check_snapshot-IsIntact s c expected h =
      let (stored, present, a) = or_error_ok os_error (get c.candidate_id s.candidates) _ h in
      let (bytes, written, b) = or_error_ok os_error stored.manifest_json _ a in
      let (manifest, read, d) = or_error_ok value_error (read_manifest bytes) _ b in
      let (digest, file, e) = or_error_ok os_error stored.manifest_sha256 _ d in
      let (hashed, f) =
        require_ok (is_hex_text 64 digest && (sha256 bytes == digest)) value_error _ e in
      let (recorded, g) = require_ok (digest == c.manifest_sha256) value_error _ f in
      let (_, i) = require_ok (not (is_other_digest expected digest)) value_error _ g in
      let (equal, j) = require_ok (same_manifest manifest c.manifest) value_error _ i in
      let (mission, k) = require_ok (c.manifest.mission_id == c.mission_id) value_error _ j in
      let (revision, l) = require_ok (eqb c.manifest.revision c.revision) value_error _ k in
      let (parent, m) =
        require_ok (opt_eq c.manifest.parent_candidate_id c.parent_candidate_id) value_error _ l in
      let (role, n) =
        require_ok (c.manifest.created_by_role == c.created_by_role) value_error _ m in
      let (own, o) = require_ok (id_of c.manifest == c.candidate_id) value_error _ n in
      let (actual, scanned, p) =
        ok-bind (scan_inputs sha256 size (labelled c.manifest stored)) _ o in
      let same : same_files actual c.manifest.files ≡ true =
        require_last (same_files actual c.manifest.files) value_error p in
      record {
        stored = stored;
        bytes = bytes;
        present = present;
        written = written;
        hashed =
            (eq_iff (sha256 bytes) digest).0 (ground arith)
            ∙ (eq_iff digest c.manifest_sha256).0 recorded;
        recorded = file ∙ ap some ((eq_iff digest c.manifest_sha256).0 recorded);
        manifest = manifest;
        read = read;
        same = same_manifest-SaysSame manifest c.manifest equal;
        own_parent = (opt_eq_iff c.manifest.parent_candidate_id c.parent_candidate_id).0 parent;
        own_role = (eq_iff c.manifest.created_by_role c.created_by_role).0 role;
        own_id = (eq_iff (id_of c.manifest) c.candidate_id).0 own;
        own_mission = (eq_iff c.manifest.mission_id c.mission_id).0 mission;
        own_revision = ground arith;
        files = scanned ∙ ap ok (same_files_sound actual c.manifest.files same);
      }

  pub verify_snapshot-IsIntact :
      (s : Store) (c : Candidate) (expected : Option String) {c' : Candidate}
      → verify_snapshot sha256 size identity_sha256 manifest_text read_manifest s c expected
        ≡ (true, c')
      → (c' ≡ c) × IsIntact s c expected
  unfolding verify_snapshot
  verify_snapshot-IsIntact s c expected h =
      elim (Result-cases
        (check_snapshot sha256 size identity_sha256 manifest_text read_manifest s c expected)) [
          | inl (u, good) ↦ (ground arith, check_snapshot-IsIntact s c expected good)
          | inr (e, bad) ↦ absurd (ground arith)
        ]
