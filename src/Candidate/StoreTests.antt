-- ===== src/Candidate/StoreTests.antt =====
-- A candidate that is frozen from five inputs, in an empty store.
use sdlc_harness.Prelude.{ℕ, String, ◌≡◌, refl, true, Option, none, some, [], ◌∷◌, ok}
use sdlc_harness.Dict.{Dict}
use sdlc_harness.Sets.{sorted_set, sort_items, insert_item, insert_sorted}
use sdlc_harness.Text.{is_hex_text, is_safe_text}
use sdlc_harness.Candidate.{Candidate, CandidateManifest}
use sdlc_harness.Candidate.Tree.{
  Root, directory, regular, folder, scan_all, scan_inputs, scan_root, scan_tree,
}
use sdlc_harness.Candidate.Store.{Store, Identity, verify_snapshot, get_candidate}
use sdlc_harness.Candidate.Freeze.{
  check_inputs, manifest_for, candidate_for, add_candidate, new_manifest, freeze_candidate,
}
use sdlc_harness.Candidate.Frozen.{freeze-verify}

abbrev pub digits : String
digits = "aaaaaaaaaaaaaaaaaaaaaaaaaaaaaaaaaaaaaaaaaaaaaaaaaaaaaaaaaaaaaaaa"

abbrev pub sha256 : String → String
sha256 content = digits

abbrev pub size : String → ℕ
size content = 3

abbrev pub identity_sha256 : Identity → String
identity_sha256 i = digits

abbrev pub manifest_text : CandidateManifest → String
manifest_text m = "{...}"

abbrev pub inputs : Dict Root
inputs =
    ("source", directory (("lib", folder) ∷ ("lib/a.py", regular "abc") ∷ []))
    ∷ ("requirements", directory (("goal.md", regular "def") ∷ []))
    ∷ ("design", directory [])
    ∷ ("build-config", directory [])
    ∷ ("dependencies", directory [])
    ∷ []

abbrev pub toolchain : Dict String
toolchain = ("python", "3.12") ∷ []

abbrev pub manifest : CandidateManifest
manifest =
    manifest_for "m-1" 1 inputs toolchain ("acceptance-test" ∷ []) none "implementation-specialist"
      (record { input = "requirements"; path = "goal.md"; sha256 = digits; size = 3 }
        ∷ record { input = "source"; path = "lib/a.py"; sha256 = digits; size = 3 }
        ∷ [])

abbrev pub read_manifest : String → Option CandidateManifest
read_manifest text = some manifest

abbrev pub empty : Store
empty = record { candidates = []; cache = [] }

abbrev pub candidate : Candidate
candidate = candidate_for sha256 size identity_sha256 manifest_text read_manifest manifest

abbrev pub store : Store
store = add_candidate sha256 size identity_sha256 manifest_text read_manifest empty manifest inputs

pub freezes :
    freeze_candidate sha256 size identity_sha256 manifest_text read_manifest empty "m-1" 1 inputs
      toolchain
      ("acceptance-test" ∷ [])
      none
      "implementation-specialist"
    ≡ (ok candidate, store)
unfolding freeze_candidate check_inputs new_manifest scan_inputs scan_all scan_root scan_tree
    sort_items insert_item sorted_set insert_sorted is_safe_text
freezes = refl

freeze-verify_example :
    (verify_snapshot sha256 size identity_sha256 manifest_text read_manifest store candidate
        (some candidate.manifest_sha256)
      ≡ (true, candidate))
    × ((get_candidate sha256 size identity_sha256 manifest_text read_manifest
          (record store { cache = [] })
          candidate.candidate_id).0
        ≡ ok candidate)
unfolding is_hex_text
freeze-verify_example =
    freeze-verify sha256 size identity_sha256 manifest_text read_manifest empty "m-1" 1 inputs
      toolchain ("acceptance-test" ∷ []) none "implementation-specialist"
      (record { digits = λ content. refl; ids = λ i. refl; reads = refl })
      (refl, (refl, (refl, (refl, (refl, tt))))) (refl, tt) freezes
