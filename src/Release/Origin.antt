-- ===== src/Release/Origin.antt =====
-- src/agent_harness/release.py: where the entries of an archive come from.
use sdlc_harness.Prelude.{
  ℕ, String, ◌≡◌, refl, sym, ap, ◌∙◌, subst, true, false, Option, none, some, List, [], ◌∷◌, ◌++◌,
  ◌==◌, eq_iff, map, ok, ok-bind, arith, Bool-cases, inl, inr, All, All-append, contains,
}
use sdlc_harness.Dict.{Dict, get}
use sdlc_harness.Sets.{sorted_set, contains-sorted_set, sort_items, get-sort_items}
use sdlc_harness.Sets.Order.{IsDict, sort_items-IsDict}
use sdlc_harness.Candidate.{Candidate, CandidateManifest, FileRecord, set_state, packaging}
use sdlc_harness.Candidate.Tree.{
  regular, folder, link, Tree, Root, missing, linked, other, directory, file_record, scan_tree,
  scan_root, scan_all, scan_inputs,
}
use sdlc_harness.Candidate.Store.{Store, Stored, Identity, root_at}
use sdlc_harness.Candidate.Frozen.{holds_own}
use sdlc_harness.Release.{
  ReleaseDecision, ReleaseArtifact, Entry, entry_name, archive_tree, archive_root, archive_all,
  package_release,
}
use sdlc_harness.Release.Archive.{Has, Has-left, Has-right}
use sdlc_harness.Release.Packaged.{package_release_made}

All-weaken :
    {A : Type 0} {P Q : A → Type 0} → ((x : A) → P x → Q x) → (xs : List A) → All P xs → All Q xs
All-weaken f [] h = tt
All-weaken f (x ∷ xs) (p, ps) = (f x p, All-weaken f xs ps)

All-Has : {A : Type 0} (xs : List A) → All (λ x. Has x xs) xs
All-Has [] = tt
All-Has (x ∷ xs) = (inl refl, All-weaken (λ y h. inr h) xs (All-Has xs))

module _ (sha256 : String → String) (size : String → ℕ) where
  -- an entry is a file of the records, with the content that was recorded
  pub record IsFrozen (records : List FileRecord) (e : Entry) : Type 0 where
    pub file : FileRecord
    pub recorded : Has file records
    pub name : e.0 ≡ entry_name file.input file.path
    pub same_hash : sha256 e.1 ≡ file.sha256
    pub same_size : size e.1 ≡ file.size

  still-IsFrozen :
      (a b : List FileRecord)
      → ((r : FileRecord) → Has r a → Has r b)
      → (e : Entry) → IsFrozen a e
      → IsFrozen b e
  still-IsFrozen a b grow e f = record {
    file = f.file;
    recorded = grow f.file f.recorded;
    name = f.name;
    same_hash = f.same_hash;
    same_size = f.same_size;
  }

  module _ (follow : String → Option String) where
    tree-IsFrozen :
        (label : String) (tree : Tree) {rs : List FileRecord}
        → scan_tree sha256 size label tree ≡ ok rs
        → All (IsFrozen rs) (archive_tree follow label tree)
    unfolding scan_tree archive_tree
    tree-IsFrozen label [] h = tt
    tree-IsFrozen label ((path, link) ∷ tree) h = absurd (ground arith)
    tree-IsFrozen label ((path, folder) ∷ tree) h = tree-IsFrozen label tree h
    tree-IsFrozen label ((path, regular content) ∷ tree) {rs} h =
        let (records, scanned, a) = ok-bind (scan_tree sha256 size label tree) _ h in
        let made : file_record sha256 size label path content ∷ records ≡ rs = ground arith in
        subst (λ x. All (IsFrozen x) (archive_tree follow label ((path, regular content) ∷ tree)))
          made
          (
            record {
              file = file_record sha256 size label path content;
              recorded = inl refl;
              name = refl;
              same_hash = refl;
              same_size = refl;
            },
            All-weaken (still-IsFrozen records _ (λ r i. inr i)) (archive_tree follow label tree)
                (tree-IsFrozen label tree scanned),
          )

    root-IsFrozen :
        (label : String) (root : Root) {rs : List FileRecord}
        → scan_root sha256 size label root ≡ ok rs
        → All (IsFrozen rs) (archive_root follow label root)
    unfolding scan_root archive_root
    root-IsFrozen label missing h = absurd (ground arith)
    root-IsFrozen label linked h = absurd (ground arith)
    root-IsFrozen label other h = absurd (ground arith)
    root-IsFrozen label (directory tree) h = tree-IsFrozen label tree h

    -- what a label holds comes from the records of a scan that has visited it
    visited :
        (label : String) (root : Root) (d : Dict Root) {rs : List FileRecord}
        → scan_all sha256 size d ≡ ok rs
        → get label d ≡ some root
        → All (IsFrozen rs) (archive_root follow label root)
    unfolding scan_all
    visited label root [] h at = absurd (ground arith)
    visited label root ((k, r) ∷ d) {rs} h at =
        let (records, scanned, b) = ok-bind (scan_root sha256 size k r) _ h in
        let (others, rest, c) = ok-bind (scan_all sha256 size d) _ b in
        let made : records ++ others ≡ rs = ground arith in
        subst (λ x. All (IsFrozen x) (archive_root follow label root)) made
          (elim (Bool-cases (k == label)) [
            | inl here ↦
                let same : r ≡ root = ground arith in
                let name = (eq_iff k label).0 here in
                All-weaken (still-IsFrozen records _ (λ x i. Has-left x records others i)) _ (
                  subst (λ x. All (IsFrozen records) (archive_root follow label x)) same
                    (subst (λ x. All (IsFrozen records) (archive_root follow x r)) name
                      (root-IsFrozen k r scanned)))
            | inr later ↦
                All-weaken (still-IsFrozen others _ (λ x i. Has-right x records others i)) _
                  (visited label root d rest (rw later at at))
          ])

    -- An entry is a recorded file, or comes from a name of the snapshot that is not an input's.
    pub data IsAccounted (m : CandidateManifest) (files : Dict Root) (e : Entry) : Type 0 where
      frozen_file : IsFrozen m.files e → IsAccounted m files e
      beside :
          (label : String) (root : Root)
          → contains label m.input_labels ≡ false
          → get label files ≡ some root
          → Has e (archive_root follow label root)
          → IsAccounted m files e

    labelled_root :
        (label : String) (labels : List String) (files : Dict Root) {root : Root}
        → contains label labels ≡ true
        → get label files ≡ some root
        → get label (map (λ l. (l, root_at l files)) labels) ≡ some root
    labelled_root label [] files h at = cc
    labelled_root label (l ∷ labels) files {root} h at = elim (Bool-cases (l == label)) [
      | inl here ↦
          let name = (eq_iff l label).0 here in
          let found : root_at label files ≡ root =
            ap (λ o. elim o [ none ↦ missing | some r ↦ r ]) at in
          rw here (ap some (ap (λ x. root_at x files) name ∙ found))
      | inr later ↦ rw later (labelled_root label labels files (rw later at h) at)
    ]

    entries-IsAccounted :
        (m : CandidateManifest) (files d : Dict Root)
        → scan_inputs sha256 size
            (map (λ label. (label, root_at label files)) (sorted_set m.input_labels))
          ≡ ok m.files
        → All (λ e. get e.0 files ≡ some e.1) d
        → All (IsAccounted m files) (archive_all follow d)
    unfolding archive_all scan_inputs
    entries-IsAccounted m files [] s a = tt
    entries-IsAccounted m files ((k, r) ∷ d) s (here, a) =
        All-append (IsAccounted m files) (archive_root follow k r) _
          (elim (Bool-cases (contains k m.input_labels)) [
            | inl input ↦
                All-weaken (λ e f. frozen_file f) _
                  (visited k r _ s (
                    get-sort_items k _
                    ∙ labelled_root k (sorted_set m.input_labels) files
                        (contains-sorted_set k m.input_labels ∙ input) here))
            | inr extra ↦ All-weaken (λ e i. beside k r extra here i) _ (All-Has _)
          ])
          (entries-IsAccounted m files d s a)

module _ (sha256 : String → String) (size : String → ℕ) (identity_sha256 : Identity → String)
    (manifest_text : CandidateManifest → String) (read_manifest : String → Option CandidateManifest)
    (follow : String → Option String) (release_text : Candidate → ReleaseDecision → String)
    (archive_sha256 : List Entry → String) where
  -- Nothing is released under the name of an input that was not frozen: in the archive of a package
  -- of a snapshot that has each name once, an entry after the release manifest is a file that the
  -- manifest of the candidate lists, with the recorded digest and size, or it comes from a name of
  -- the snapshot that the manifest does not list as an input.
  pub package_release-IsAccounted :
      (s : Store) (c : Candidate) (decision : ReleaseDecision) (mission_id : String) (revision : ℕ)
      (stored : Stored) {a : ReleaseArtifact} {c' : Candidate}
      → get c.candidate_id s.candidates ≡ some stored
      → IsDict stored.files
      → package_release sha256 size identity_sha256 manifest_text read_manifest follow release_text
          archive_sha256 s c decision mission_id revision
        ≡ (ok a, c')
      → (rest : List Entry) × (a.archive
          ≡ ("release-manifest.json", release_text (set_state packaging c) decision) ∷ rest)
        × All (IsAccounted sha256 size follow c.manifest stored.files) rest
  package_release-IsAccounted s c decision mission_id revision stored {a} present unique h =
      let (_, i, _, made) =
        package_release_made sha256 size identity_sha256 manifest_text read_manifest follow
          release_text archive_sha256 s c decision mission_id revision h in
      let own : i.stored ≡ stored = ground (arith, i.present) in
      let files = ap (λ (x : Stored). x.files) own in
      let sorted = sort_items stored.files in
      let scanned =
        subst
          (λ f.
            scan_inputs sha256 size
              (map (λ label. (label, root_at label f)) (sorted_set c.manifest.input_labels))
            ≡ ok c.manifest.files)
          files i.files in
      (
        archive_all follow sorted,
        ap (λ (x : ReleaseArtifact). x.archive) made
            ∙ ap
                (λ o.
                  ("release-manifest.json", release_text (set_state packaging c) decision)
                  ∷ archive_all follow (sort_items (elim o [ none ↦ [] | some x ↦ x.files ])))
                present,
        entries-IsAccounted sha256 size follow c.manifest stored.files sorted scanned (
            All-weaken (λ e x. sym (get-sort_items e.0 stored.files) ∙ x) sorted
              (holds_own sorted (sort_items-IsDict stored.files unique))),
      )
