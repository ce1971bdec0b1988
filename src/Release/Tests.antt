-- ===== src/Release/Tests.antt =====
-- The release of a candidate that was frozen and approved.
use sdlc_harness.Prelude.{String, ◌≡◌, refl, Option, none, some, List, [], ◌∷◌, ok, All}
use sdlc_harness.Sets.{sorted_set, sort_items, insert_item, insert_sorted}
use sdlc_harness.Text.{is_hex_text}
use sdlc_harness.Candidate.{
  Candidate, FileRecord, set_state, transition, approved, packaging, release_ready,
}
use sdlc_harness.Candidate.Tree.{
  Root, directory, regular, scan_all, scan_inputs, scan_root, scan_tree,
}
use sdlc_harness.Candidate.Store.{check_snapshot, verify_snapshot, same_manifest}
use sdlc_harness.Candidate.Freeze.{stored_for}
use sdlc_harness.Candidate.StoreTests.{
  sha256, size, identity_sha256, manifest_text, read_manifest, manifest, inputs, toolchain, empty,
  candidate, store, freezes,
}
use sdlc_harness.Release.{
  ReleaseDecision, ReleaseArtifact, Entry, limited_release, make_decision, artifact_of,
  check_release, package_release, archive_root,
}
use sdlc_harness.Release.Archive.{IsPacked, Has}
use sdlc_harness.Release.Packaged.{WasPackaged, package_release-WasPackaged, freeze-IsPacked}
use sdlc_harness.Release.Origin.{IsAccounted, package_release-IsAccounted}
use sdlc_harness.Release.Extra.{add_extra, extra-IsReleased}

abbrev follow : String → Option String
follow path = none

abbrev release_text : Candidate → ReleaseDecision → String
release_text c d = "{...}"

abbrev archive_sha256 : List Entry → String
archive_sha256 entries = "bb"

abbrev decision : ReleaseDecision
decision = record {
  disposition = limited_release;
  reasons = [];
  scope = some "one region";
  expires_at = some "2027-01-01";
  rollback_plan = some "the last release";
  out_of_scope_controls = "billing" ∷ [];
}

is_decided : make_decision decision ≡ ok decision
unfolding make_decision
is_decided = refl

abbrev reviewed : Candidate
reviewed = set_state approved candidate

abbrev artifact : ReleaseArtifact
artifact =
    artifact_of sha256 size identity_sha256 manifest_text read_manifest follow release_text
      archive_sha256 store (set_state packaging reviewed) decision

packages :
    package_release sha256 size identity_sha256 manifest_text read_manifest follow release_text
      archive_sha256 store reviewed decision "m-1" 1
    ≡ (ok artifact, set_state release_ready reviewed)
unfolding package_release check_release verify_snapshot check_snapshot same_manifest transition
    is_hex_text scan_inputs scan_all scan_root scan_tree sort_items insert_item sorted_set
    insert_sorted
packages = refl

package_release-WasPackaged_example :
    WasPackaged sha256 size identity_sha256 manifest_text read_manifest follow release_text
      archive_sha256 store reviewed decision "m-1" 1 artifact
      (set_state release_ready reviewed)
package_release-WasPackaged_example =
    package_release-WasPackaged sha256 size identity_sha256 manifest_text read_manifest follow
      release_text archive_sha256 store reviewed decision "m-1" 1 packages

freeze-IsPacked_example :
    (records : List FileRecord) × (scan_inputs sha256 size inputs ≡ ok records)
    × All (IsPacked sha256 size artifact.archive) records
freeze-IsPacked_example =
    freeze-IsPacked sha256 size identity_sha256 manifest_text read_manifest follow release_text
      archive_sha256 empty "m-1" 1 inputs toolchain ("acceptance-test" ∷ []) none
      "implementation-specialist" store reviewed decision "m-1" 1 freezes refl packages

package_release-IsAccounted_example :
    (rest : List Entry) × (artifact.archive
      ≡ ("release-manifest.json", release_text (set_state packaging reviewed) decision) ∷ rest)
    × All
        (IsAccounted sha256 size follow manifest
          (stored_for sha256 size identity_sha256 manifest_text read_manifest manifest
            inputs).files)
        rest
unfolding sort_items insert_item
package_release-IsAccounted_example =
    package_release-IsAccounted sha256 size identity_sha256 manifest_text read_manifest follow
      release_text archive_sha256 store reviewed decision "m-1" 1
      (stored_for sha256 size identity_sha256 manifest_text read_manifest manifest inputs) refl
      (refl, (refl, (refl, (refl, (refl, tt))))) packages

abbrev planted : Root
planted = directory (("tool.sh", regular "rm") ∷ [])

extra-IsReleased_example :
    (b : ReleaseArtifact) × (package_release sha256 size identity_sha256 manifest_text read_manifest
        follow release_text archive_sha256
        (add_extra store reviewed
          (stored_for sha256 size identity_sha256 manifest_text read_manifest manifest inputs)
          "tools"
          planted)
        reviewed
        decision
        "m-1"
        1
      ≡ (ok b, set_state release_ready reviewed))
    × ((e : Entry) → Has e (archive_root follow "tools" planted) → Has e b.archive)
unfolding sorted_set insert_sorted
extra-IsReleased_example =
    extra-IsReleased sha256 size identity_sha256 manifest_text read_manifest follow release_text
      archive_sha256 store reviewed decision "m-1" 1
      (stored_for sha256 size identity_sha256 manifest_text read_manifest manifest inputs) "tools"
      planted packages refl refl
