-- ===== src/Release/Packaged.antt =====
-- src/agent_harness/release.py: what a release package holds.
use sdlc_harness.Prelude.{
  ℕ, String, ◌≡◌, refl, sym, ap, ◌∙◌, subst, Bool, true, false, Option, none, List, ◌==◌, eq_iff,
  eqb, ok, require, require_ok, arith, Result-cases, inl, inr, All,
}
use sdlc_harness.Dict.{Dict}
use sdlc_harness.Sets.{sorted_set, sort_items, All-sort_items}
use sdlc_harness.Candidate.{
  Candidate, CandidateManifest, FileRecord, set_state, transition, same_state, approved, packaging,
  release_ready, CandidateState,
}
use sdlc_harness.Candidate.Tree.{Root, scan_inputs}
use sdlc_harness.Candidate.Store.{Store, Identity, root_at, verify_snapshot}
use sdlc_harness.Candidate.Freeze.{freeze_candidate}
use sdlc_harness.Candidate.Frozen.{freeze-Froze}
use sdlc_harness.Candidate.Verified.{IsIntact, verify_snapshot-IsIntact}
use sdlc_harness.Release.Archive.{IsPacked, still-IsPacked, scan-IsPacked, own_roots}
use sdlc_harness.Release.{
  ReleaseDecision, ReleaseArtifact, ReleaseError, runtime_error, Entry, allows_packaging,
  archive_all, check_release, artifact_of, verified, packed, package_release,
}

approved_state : (s : CandidateState) → same_state s approved ≡ true → s ≡ approved
approved_state approved h = refl
approved_state _ h = absurd (ground arith)

require_last : (b : Bool) (e : ReleaseError) → require b e ≡ ok tt → b ≡ true
require_last true e h = refl
require_last false e h = cc

pub transition_made :
    (c : Candidate) (target : CandidateState) {d : Candidate}
    → transition c target ≡ ok d
    → d ≡ set_state target c
unfolding transition
transition_made c target h = ground arith

module _ (sha256 : String → String) (size : String → ℕ) (identity_sha256 : Identity → String)
    (manifest_text : CandidateManifest → String) (read_manifest : String → Option CandidateManifest)
    (follow : String → Option String) (release_text : Candidate → ReleaseDecision → String)
    (archive_sha256 : List Entry → String) where
  -- what a package that is created says of the call
  pub record WasPackaged (s : Store) (c : Candidate) (decision : ReleaseDecision)
      (mission_id : String) (revision : ℕ) (a : ReleaseArtifact) (c' : Candidate) : Type 0 where
    pub allowed : allows_packaging decision.disposition ≡ true
    pub own_mission : c.mission_id ≡ mission_id
    pub own_revision : c.revision ≡ revision
    pub was_approved : c.state ≡ approved
    pub is_ready : c' ≡ set_state release_ready c
    pub intact : IsIntact sha256 size identity_sha256 manifest_text read_manifest s c none
    pub holds : All (IsPacked sha256 size a.archive) c.manifest.files

  intact_files :
      (s : Store) (c : Candidate) (decision : ReleaseDecision)
      → IsIntact sha256 size identity_sha256 manifest_text read_manifest s c none
      → All
          (IsPacked sha256 size
            (artifact_of sha256 size identity_sha256 manifest_text read_manifest follow release_text
              archive_sha256 s
              (set_state packaging c)
              decision).archive)
          c.manifest.files
  unfolding scan_inputs archive_all sort_items
  intact_files s c decision i =
      let files = i.stored.files in
      let inside =
        scan-IsPacked sha256 size follow (sort_items files) _
          (All-sort_items (λ (e : String × Root). root_at e.0 (sort_items files) ≡ e.1) _
            (own_roots sha256 size follow (sorted_set c.manifest.input_labels) files))
          i.files in
      still-IsPacked sha256 size (archive_all follow (sort_items files)) _
        (λ e h. inr (rw i.present h)) c.manifest.files inside

  check_release_ok :
      (c : Candidate) (decision : ReleaseDecision) (mission_id : String) (revision : ℕ)
      → check_release sha256 size identity_sha256 manifest_text read_manifest follow release_text
          archive_sha256 c decision mission_id revision
        ≡ ok tt
      → (allows_packaging decision.disposition ≡ true)
        × (c.mission_id ≡ mission_id)
        × (c.revision ≡ revision)
        × (c.state ≡ approved)
  unfolding check_release
  check_release_ok c decision mission_id revision h =
      let (allowed, a) = require_ok (allows_packaging decision.disposition) runtime_error _ h in
      let (mission, b) = require_ok (c.mission_id == mission_id) runtime_error _ a in
      let (recent, d) = require_ok (eqb c.revision revision) runtime_error _ b in
      (
        allowed,
        (eq_iff c.mission_id mission_id).0 mission,
        ground arith,
        approved_state c.state (require_last (same_state c.state approved) runtime_error d),
      )

  pub packed_ok :
      (s : Store) (c : Candidate) (decision : ReleaseDecision) {a : ReleaseArtifact}
      {c' : Candidate}
      → packed sha256 size identity_sha256 manifest_text read_manifest follow release_text
          archive_sha256 s c decision
          (transition c packaging)
        ≡ (ok a, c')
      → (c' ≡ set_state release_ready c)
        × (a
            ≡ artifact_of sha256 size identity_sha256 manifest_text read_manifest follow
                release_text archive_sha256 s
                (set_state packaging c)
                decision)
  packed_ok s c decision {a} {c'} h = elim (Result-cases (transition c packaging)) [
    | inr (e, bad) ↦ absurd (ground (arith, rw bad at h))
    | inl (d, moved) ↦
        let m = transition_made c packaging moved in
        elim (Result-cases (transition d release_ready)) [
          | inr (e, bad) ↦ absurd (ground (arith, rw (moved, bad) at h))
          | inl (f, ended) ↦
              let n = transition_made d release_ready ended in
              let done = rw (moved, ended) at h in
              let same : artifact_of sha256 size identity_sha256 manifest_text read_manifest follow
                    release_text archive_sha256 s d decision
                  ≡ a =
                ground arith in
              let last : f ≡ c' = ground arith in
              (
                sym last ∙ (n ∙ ap (set_state release_ready) m),
                sym same
                    ∙ ap
                        (λ x.
                          artifact_of sha256 size identity_sha256 manifest_text read_manifest follow
                            release_text archive_sha256 s x decision)
                        m,
              )
        ]
  ]

  pub verified_ok :
      (s : Store) (decision : ReleaseDecision) (v : Bool × Candidate) {a : ReleaseArtifact}
      {c' : Candidate}
      → verified sha256 size identity_sha256 manifest_text read_manifest follow release_text
          archive_sha256 s decision v
        ≡ (ok a, c')
      → (v.0 ≡ true)
        × (packed sha256 size identity_sha256 manifest_text read_manifest follow release_text
              archive_sha256 s v.1 decision
              (transition v.1 packaging)
            ≡ (ok a, c'))
  verified_ok s decision (false, c) h = absurd (ground arith)
  verified_ok s decision (true, c) h = (refl, h)

  -- What a call that creates a package has found, and what it gives.
  pub package_release_made :
      (s : Store) (c : Candidate) (decision : ReleaseDecision) (mission_id : String) (revision : ℕ)
      {a : ReleaseArtifact} {c' : Candidate}
      → package_release sha256 size identity_sha256 manifest_text read_manifest follow release_text
          archive_sha256 s c decision mission_id revision
        ≡ (ok a, c')
      → (check_release sha256 size identity_sha256 manifest_text read_manifest follow release_text
            archive_sha256 c decision mission_id revision
          ≡ ok tt)
        × IsIntact sha256 size identity_sha256 manifest_text read_manifest s c none
        × (c' ≡ set_state release_ready c)
        × (a
            ≡ artifact_of sha256 size identity_sha256 manifest_text read_manifest follow
                release_text archive_sha256 s
                (set_state packaging c)
                decision)
  unfolding package_release
  package_release_made s c decision mission_id revision {a} {c'} h =
      elim (Result-cases (
        check_release sha256 size identity_sha256 manifest_text read_manifest follow release_text
          archive_sha256 c decision mission_id revision)) [
            | inr (e, bad) ↦ absurd (ground (arith, rw bad at h))
            | inl (u, good) ↦
                let (checked, done) =
                  verified_ok s decision
                    (verify_snapshot sha256 size identity_sha256 manifest_text read_manifest s c
                      none)
                    (rw good at h) in
                let (same, intact) =
                  verify_snapshot-IsIntact sha256 size identity_sha256 manifest_text read_manifest s
                    c none
                    {c' = (verify_snapshot sha256 size identity_sha256 manifest_text read_manifest s
                      c none).1}
                    (λ i. (
                      checked i,
                      (verify_snapshot sha256 size identity_sha256 manifest_text read_manifest s c
                          none).1,
                    )) in
                let (ready, made) = packed_ok s c decision {a = a} {c' = c'} (
                  subst
                    (λ x.
                      packed sha256 size identity_sha256 manifest_text read_manifest follow
                        release_text archive_sha256 s x decision (transition x packaging)
                      ≡ (ok a, c'))
                    same done) in
                (good, intact, ready, made)
          ]

  -- A package is created only for a decision that allows it, of a candidate of the given mission
  -- and revision that is approved and whose snapshot is intact: the file of the stored manifest has
  -- the recorded digest and says the same as the manifest of the candidate, which has the id,
  -- mission, revision, parent and role of the candidate, and a scan of the inputs that it names
  -- gives exactly the files that it lists. The archive holds each of those files, with a content of
  -- the recorded digest and size, and the candidate is release-ready afterwards. Files of the
  -- snapshot beside the named inputs are not part of this.
  pub package_release-WasPackaged :
      (s : Store) (c : Candidate) (decision : ReleaseDecision) (mission_id : String) (revision : ℕ)
      {a : ReleaseArtifact} {c' : Candidate}
      → package_release sha256 size identity_sha256 manifest_text read_manifest follow release_text
          archive_sha256 s c decision mission_id revision
        ≡ (ok a, c')
      → WasPackaged s c decision mission_id revision a c'
  package_release-WasPackaged s c decision mission_id revision {a} {c'} h =
      let (good, intact, ready, made) = package_release_made s c decision mission_id revision h in
      let (allowed, mission, recent, state) =
        check_release_ok c decision mission_id revision good in
      record {
        allowed = allowed;
        own_mission = mission;
        own_revision = recent;
        was_approved = state;
        is_ready = ready;
        intact = intact;
        holds =
            subst (λ (x : ReleaseArtifact). All (IsPacked sha256 size x.archive) c.manifest.files)
              (sym made) (intact_files s c decision intact);
      }

  -- No frozen file is lost: when a candidate was frozen from inputs, and a candidate with its
  -- manifest is packaged, from whatever is then in the store, a scan of the inputs at the time of
  -- the freeze gave a record of each file, and the archive holds for each a content of the recorded
  -- digest and size. It may hold files besides.
  pub freeze-IsPacked :
      (before : Store) (mission : String) (n : ℕ) (inputs : Dict Root) (toolchain : Dict String)
      (required_evidence : List String) (parent : Option String) (role : String) {first : Candidate}
      {after : Store} (s : Store) (c : Candidate) (decision : ReleaseDecision) (mission_id : String)
      (revision : ℕ) {a : ReleaseArtifact} {c' : Candidate}
      → freeze_candidate sha256 size identity_sha256 manifest_text read_manifest before mission n
          inputs toolchain required_evidence parent role
        ≡ (ok first, after)
      → c.manifest ≡ first.manifest
      → package_release sha256 size identity_sha256 manifest_text read_manifest follow release_text
          archive_sha256 s c decision mission_id revision
        ≡ (ok a, c')
      → (records : List FileRecord) × (scan_inputs sha256 size inputs ≡ ok records)
        × All (IsPacked sha256 size a.archive) records
  freeze-IsPacked before mission n inputs toolchain required_evidence parent role s c decision
        mission_id revision h same g =
      let f =
        freeze-Froze sha256 size identity_sha256 manifest_text read_manifest before mission n inputs
          toolchain required_evidence parent role h in
      let p = package_release-WasPackaged s c decision mission_id revision g in
      let m : c.manifest ≡ f.manifest = same ∙ ap (λ (x : Candidate). x.manifest) f.made in
      (c.manifest.files, f.scanned ∙ ap (λ (x : CandidateManifest). ok x.files) (sym m), p.holds)
