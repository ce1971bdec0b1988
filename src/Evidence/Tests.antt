-- ===== src/Evidence/Tests.antt =====
-- The ledger, run on one piece of evidence.
use sdlc_harness.Prelude.{ℕ, String, ◌≡◌, refl, true, false, some, List, [], ◌∷◌, get_elem?, ok}
use sdlc_harness.Handoff.{Disk, lower}
use sdlc_harness.Evidence.{
  valid, stale, EvidencePayload, EvidenceRecord, Ledger, Submission, genesis, is_evidence, sealed,
  submitted, retraction, verify_chain, append, append_event, invalidate, bind_artifact, is_hex_text,
  free_of_links, validate_evaluation, find_event, status,
}
use sdlc_harness.Evidence.Calls.{
  LedgerCall, append_call, invalidate_call, empty_ledger, after_calls, ledger_one_target,
  invalidate-status,
}

abbrev pub digest : EvidencePayload → String → String
digest p previous = p.event_id

abbrev file_hash : String
file_hash = "00112233445566778899aabbccddeeff00112233445566778899aabbccddeeff"

abbrev disk : Disk
disk = record {
  parse = λ s. record { is_absolute = false; parts = s ∷ [] };
  is_symlink = λ p. false;
  resolve = λ p. some p;
  is_file = λ p. true;
  sha256 = λ p. file_hash;
}

abbrev submission : Submission
submission = record {
  target = record { mission_id = "m-1"; revision = 1; candidate_id = "c-1" };
  evidence_type = "acceptance-test";
  producer_role = "verification-specialist";
  outcome = "pass";
  artifact_path = "log.txt" ∷ [];
  evaluation = record {
    expected_results =
        record {
          expected_result_id = "x-1";
          owner_role = "oracle-specialist";
          decision_rule_ids = "r-1" ∷ [];
        }
        ∷ [];
    decision_rules = record { decision_rule_id = "r-1"; owner_role = "oracle-specialist" } ∷ [];
    observations =
        record {
          observation_id = "o-1";
          expected_result_id = "x-1";
          artifact_sha256 = file_hash;
          outcome = "pass";
        }
        ∷ [];
  };
}

abbrev first : EvidenceRecord
first = sealed digest (submitted "1" submission ("log.txt" ∷ []) file_hash) genesis

abbrev pub one_record : Ledger
one_record = record { events = first ∷ []; bindings = (file_hash, submission.target) ∷ [] }

appended : append digest disk "1" submission empty_ledger ≡ ok (first, one_record)
unfolding append append_event bind_artifact is_hex_text free_of_links validate_evaluation lower
appended = refl

is_fresh : status "ev-1" one_record ≡ ok valid
unfolding status find_event
is_fresh = refl

abbrev calls : List LedgerCall
calls =
    append_call disk "1" submission
    ∷ invalidate_call "2" "ev-1" "mission-manager" "superseded"
    ∷ append_call disk "3" submission
    ∷ []

ledger_one_target_example :
    (verify_chain digest (after_calls digest calls empty_ledger) ≡ true)
    × ((i j : ℕ) (e f : EvidenceRecord)
        → get_elem? (after_calls digest calls empty_ledger).events i ≡ some e
        → get_elem? (after_calls digest calls empty_ledger).events j ≡ some f
        → is_evidence e.event_type ≡ true
        → is_evidence f.event_type ≡ true
        → e.artifact_sha256 ≡ f.artifact_sha256
        → e.target ≡ f.target)
ledger_one_target_example = ledger_one_target digest calls

abbrev second : EvidenceRecord
second = sealed digest (retraction "2" "ev-1" "mission-manager" "superseded" first) "ev-1"

abbrev retracted : Ledger
retracted = record { events = first ∷ second ∷ []; bindings = one_record.bindings }

invalidate-status_example :
    status "ev-1" (after_calls digest (append_call disk "3" submission ∷ []) retracted) ≡ ok stale
unfolding invalidate append_event bind_artifact is_hex_text find_event lower
invalidate-status_example =
    invalidate-status digest "2" "ev-1" "mission-manager" "superseded" one_record first {e = second}
      {ledger' = retracted} (append_call disk "3" submission ∷ []) refl refl refl
