-- ===== src/Mission/Results.antt =====
-- src/agent_harness/mission.py: the tests of `AgentResult`.
use sdlc_harness.Prelude.{
  String, Bool, true, false, ◌&&◌, Option, none, some, ◌==◌, opt_eq, Result, ok, err,
}
use sdlc_harness.Handoff.{Disk, Handoff, HandoffBody, validate_and_verify}
use sdlc_harness.Mission.{AgentResult, Hashes}

unfoldable pub has_valid_hash : Hashes → AgentResult → Bool
has_valid_hash hashes r = r.payload_sha256 == hashes.payload r.payload

-- `handoff_document`: the fields of the payload with the sender of the result
unfoldable pub handoff_document : AgentResult → Option Handoff
handoff_document r = elim r.payload.body [
  | none ↦ none
  | some body ↦ some (record { sender_role = r.sender_role; body = body })
]

abbrev is_ok {ℓ κ} : {E : Type ℓ} {A : Type κ} → Result E A → Bool
is_ok (ok _) = true
is_ok (err _) = false

abbrev outcome_of : Option HandoffBody → Option String
outcome_of none = none
outcome_of (some body) = some body.decision_outcome

-- every exception of the validator is caught
unfoldable pub has_valid_handoff : (Handoff → Bool) → Disk → AgentResult → Bool
unfolding handoff_document
has_valid_handoff schema_valid disk r =
    is_ok (validate_and_verify schema_valid disk (handoff_document r) r.artifact_root)
    && opt_eq r.payload.gate (outcome_of r.payload.body)
