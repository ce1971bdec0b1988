-- ===== src/Release/Extra.antt =====
-- src/agent_harness/release.py and candidate.py: files of the snapshot beside the inputs.
use sdlc_harness.Prelude.{
  ℕ, String, ◌≡◌, refl, sym, ap, ◌∙◌, subst, false, Option, none, some, List, [], ◌∷◌, ◌==◌, eq_iff,
  map, ok, arith, Result-cases, inl, inr, contains, if◌then◌else◌,
}
use sdlc_harness.Dict.{Dict, get, put, get-put, get-put_self}
use sdlc_harness.Sets.{sorted_set, contains-sorted_set, sort_items, get-sort_items}
use sdlc_harness.Candidate.{
  Candidate, CandidateManifest, set_state, packaging, release_ready, transition,
}
use sdlc_harness.Candidate.Tree.{Root, missing}
use sdlc_harness.Candidate.Store.{Store, Stored, Identity, root_at, check_snapshot, verify_snapshot}
use sdlc_harness.Release.{
  ReleaseDecision, ReleaseArtifact, Entry, archive_root, archive_all, artifact_of, files_of,
  check_release, packed, package_release,
}
use sdlc_harness.Release.Archive.{Has, archived}
use sdlc_harness.Release.Packaged.{transition_made}

-- the snapshot with something more at a label
abbrev pub with_extra : String → Root → Stored → Stored
with_extra label root stored = record stored { files = put label root stored.files }

abbrev pub add_extra : Store → Candidate → Stored → String → Root → Store
add_extra s c stored label root = record s {
  candidates = put c.candidate_id (with_extra label root stored) s.candidates;
}

same_roots :
    (labels : List String) (label : String) (root : Root) (files : Dict Root)
    → contains label labels ≡ false
    → map {B = String × Root} (λ l. (l, root_at l (put label root files))) labels
      ≡ map (λ l. (l, root_at l files)) labels
same_roots [] label root files n = refl
same_roots (l ∷ labels) label root files n =
    let other : (label == l) ≡ false = ground (arith, eq_iff l label, eq_iff label l) in
    let here : root_at l (put label root files) ≡ root_at l files =
      ap (λ o. elim o [ none ↦ missing | some r ↦ r ])
        (get-put label l root files ∙ ap (λ b. if b then some root else get l files) other) in
    λ i. (l, here i) ∷ same_roots labels label root files (ground arith) i

module _ (sha256 : String → String) (size : String → ℕ) (identity_sha256 : Identity → String)
    (manifest_text : CandidateManifest → String) (read_manifest : String → Option CandidateManifest)
    (follow : String → Option String) (release_text : Candidate → ReleaseDecision → String)
    (archive_sha256 : List Entry → String) where
  -- What is not at the label of an input is not looked at.
  check_extra :
      (s : Store) (c : Candidate) (stored : Stored) (label : String) (root : Root)
      → get c.candidate_id s.candidates ≡ some stored
      → contains label c.manifest.input_labels ≡ false
      → check_snapshot sha256 size identity_sha256 manifest_text read_manifest
          (add_extra s c stored label root)
          c
          none
        ≡ check_snapshot sha256 size identity_sha256 manifest_text read_manifest s c none
  unfolding check_snapshot
  check_extra s c stored label root present n =
      rw
        (
          get-put_self,
          present,
          same_roots (sorted_set c.manifest.input_labels) label root stored.files
              (contains-sorted_set label c.manifest.input_labels ∙ n),
        )
        refl

  -- The same transitions with another store.
  packed_elsewhere :
      (s t : Store) (c : Candidate) (decision : ReleaseDecision) {a : ReleaseArtifact}
      {c' : Candidate}
      → packed sha256 size identity_sha256 manifest_text read_manifest follow release_text
          archive_sha256 s c decision
          (transition c packaging)
        ≡ (ok a, c')
      → packed sha256 size identity_sha256 manifest_text read_manifest follow release_text
          archive_sha256 t c decision
          (transition c packaging)
        ≡ (
          ok (
              artifact_of sha256 size identity_sha256 manifest_text read_manifest follow
                release_text archive_sha256 t
                (set_state packaging c)
                decision),
          c',
        )
  packed_elsewhere s t c decision {a} {c'} h = elim (Result-cases (transition c packaging)) [
    | inr (e, bad) ↦ absurd (ground (arith, rw bad at h))
    | inl (d, moved) ↦ elim (Result-cases (transition d release_ready)) [
      | inr (e, bad) ↦ absurd (ground (arith, rw (moved, bad) at h))
      | inl (f, ended) ↦
          let done = rw (moved, ended) at h in
          let last : f ≡ c' = ground arith in
          rw (moved, ended)
            (λ i. (
              ok (
                  artifact_of sha256 size identity_sha256 manifest_text read_manifest follow
                    release_text archive_sha256 t (transition_made c packaging moved i) decision),
              last i,
            ))
    ]
  ]

  extra_entries :
      (s : Store) (c : Candidate) (decision : ReleaseDecision) (stored : Stored) (label : String)
      (root : Root) (e : Entry)
      → Has e (archive_root follow label root)
      → Has e
          (artifact_of sha256 size identity_sha256 manifest_text read_manifest follow release_text
            archive_sha256
            (add_extra s c stored label root)
            (set_state packaging c)
            decision).archive
  extra_entries s c decision stored label root e h =
      let files = put label root stored.files in
      let held : files_of sha256 size identity_sha256 manifest_text read_manifest follow
            release_text archive_sha256 (add_extra s c stored label root) c
          ≡ files =
        ap (λ o. elim o [ none ↦ [] | some x ↦ x.files ])
          (get-put_self c.candidate_id (with_extra label root stored) s.candidates) in
      inr (
        subst (λ d. Has e (archive_all follow (sort_items d))) (sym held)
          (archived sha256 size follow label root (sort_items files)
            (get-sort_items label files ∙ get-put_self label root stored.files) e h))

  -- The test of a snapshot looks at the labels of the inputs alone, and the archive takes every file
  -- below the snapshot. When a package can be created, and something is then put into the snapshot at
  -- a label that is no input's, a package can be created all the same, and what was put there is in
  -- its archive.
  pub extra-IsReleased :
      (s : Store) (c : Candidate) (decision : ReleaseDecision) (mission_id : String) (revision : ℕ)
      (stored : Stored) (label : String) (root : Root) {a : ReleaseArtifact} {c' : Candidate}
      → package_release sha256 size identity_sha256 manifest_text read_manifest follow release_text
          archive_sha256 s c decision mission_id revision
        ≡ (ok a, c')
      → get c.candidate_id s.candidates ≡ some stored
      → contains label c.manifest.input_labels ≡ false
      → (b : ReleaseArtifact) × (package_release sha256 size identity_sha256 manifest_text
            read_manifest follow release_text archive_sha256
            (add_extra s c stored label root)
            c
            decision
            mission_id
            revision
          ≡ (ok b, c'))
        × ((e : Entry) → Has e (archive_root follow label root) → Has e b.archive)
  unfolding package_release verify_snapshot
  extra-IsReleased s c decision mission_id revision stored label root {a} {c'} h present n =
      elim (Result-cases (
        check_release sha256 size identity_sha256 manifest_text read_manifest follow release_text
          archive_sha256 c decision mission_id revision)) [
            | inr (e, bad) ↦ absurd (ground (arith, rw bad at h))
            | inl (u, good) ↦
                elim (Result-cases (
                  check_snapshot sha256 size identity_sha256 manifest_text read_manifest s c
                    none)) [
                      | inr (e, bad) ↦ absurd (ground (arith, rw (good, bad) at h))
                      | inl (v, intact) ↦ (
                        artifact_of sha256 size identity_sha256 manifest_text read_manifest follow
                            release_text archive_sha256 (add_extra s c stored label root)
                            (set_state packaging c) decision,
                        rw (good, check_extra s c stored label root present n, intact)
                            (packed_elsewhere s (add_extra s c stored label root) c decision
                              (rw (good, intact) at h)),
                        λ e i. extra_entries s c decision stored label root e i,
                      )
                    ]
          ]
