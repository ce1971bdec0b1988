-- ===== src/Evidence/Chain.antt =====
-- The ledger over any calls of `append` and `invalidate`.
use sdlc_harness.Prelude.{
  String, ◌≡◌, refl, sym, subst, ap, ◌∙◌, true, false, not, some, List, [], ◌∷◌, ◌++◌, any, All,
  All-append, ok, require_ok, ok-bind, eq_iff, eq_refl, Bool-cases, Option-cases, inl, inr, arith,
}
use sdlc_harness.Dict.{Dict, get, put, get-put}
use sdlc_harness.Handoff.{lower}
use sdlc_harness.Evidence.{
  Target, same_target, EvidencePayload, EvidenceRecord, Ledger, value_error, integrity, genesis,
  is_hex_text, last_hash, is_evidence, bind_artifact, clashes, sealed, append_event, chain_valid,
  verify_chain,
}

same_target_eq : (a b : Target) → same_target a b ≡ true → a ≡ b
same_target_eq a b h =
    let m = (eq_iff a.mission_id b.mission_id).0 (ground arith) in
    let c = (eq_iff a.candidate_id b.candidate_id).0 (ground arith) in
    let r : a.revision ≡ b.revision = ground arith in cc (m, c, r)

-- every evidence event is bound to its target by its artifact's digest
abbrev IsBoundTo : Dict Target → EvidenceRecord → Type 0
IsBoundTo bindings e =
    is_evidence e.event_type ≡ true → get e.artifact_sha256 bindings ≡ some e.target

-- the bindings that an event leads to hold its own and all the earlier ones
bind_artifact_ok :
    (p : EvidencePayload) (bindings : Dict Target) {after : Dict Target}
    → bind_artifact p bindings ≡ ok after
    → (is_evidence p.event_type ≡ true → get p.artifact_sha256 after ≡ some p.target)
      × ((k : String) (t : Target) → get k bindings ≡ some t → get k after ≡ some t)
unfolding bind_artifact
bind_artifact_ok p bindings {after} h = elim (Bool-cases (is_evidence p.event_type)) [
  | inr other ↦
      let same : bindings ≡ after = ground arith in
      (λ e. absurd (ground arith), λ k t e. subst (λ b. get k b ≡ some t) same e)
  | inl kind ↦ elim (Option-cases (get p.artifact_sha256 bindings)) [
    | inl new ↦
        let same : put p.artifact_sha256 p.target bindings ≡ after = ground arith in
        (
          (λ _.
              subst (λ b. get p.artifact_sha256 b ≡ some p.target) same
                (get-put p.artifact_sha256 p.artifact_sha256 p.target bindings
                  ∙ rw (eq_refl p.artifact_sha256) refl)),
          (λ k t e.
              subst (λ b. get k b ≡ some t) same
                (get-put p.artifact_sha256 k p.target bindings
                  ∙ ground (arith, eq_iff p.artifact_sha256 k))),
        )
    | inr (t, found) ↦ elim (Bool-cases (same_target t p.target)) [
      | inr differs ↦ absurd (ground arith)
      | inl agrees ↦
          let same : bindings ≡ after = ground arith in
          (
            (λ _.
                subst (λ b. get p.artifact_sha256 b ≡ some p.target) same
                  (found ∙ ap some (same_target_eq t p.target agrees))),
            (λ k t e. subst (λ b. get k b ≡ some t) same e),
          )
    ]
  ]
]

module _ (digest : EvidencePayload → String → String) where
  -- the ledger's invariant: a chain that verifies, and bindings that cover its events
  pub record IsSound (ledger : Ledger) : Type 0 where
    pub chained : verify_chain digest ledger ≡ true
    pub bound : All (IsBoundTo ledger.bindings) ledger.events

  chain_valid-append :
      (previous : String) (es : List EvidenceRecord) (p : EvidencePayload)
      → chain_valid digest previous es ≡ true
      → chain_valid digest previous (es ++ sealed digest p (last_hash previous es) ∷ []) ≡ true
  unfolding chain_valid
  chain_valid-append previous [] p h = ground (arith, eq_refl previous, eq_refl (digest p previous))
  chain_valid-append previous (e ∷ es) p h = ground (arith, chain_valid-append e.record_hash es p)

  bound_after :
      (b after : Dict Target) (es : List EvidenceRecord)
      → ((k : String) (t : Target) → get k b ≡ some t → get k after ≡ some t)
      → All (IsBoundTo b) es
      → All (IsBoundTo after) es
  bound_after b after [] keeps a = tt
  bound_after b after (e ∷ es) keeps a =
      ((λ k. keeps _ _ (a.0 k)), bound_after b after es keeps a.1)

  -- an event that is appended, and the ledger after it
  pub append_event_ok :
      (p : EvidencePayload) (ledger : Ledger) {e : EvidenceRecord} {ledger' : Ledger}
      → append_event digest p ledger ≡ ok (e, ledger')
      → (bindings : Dict Target) × (bind_artifact p ledger.bindings ≡ ok bindings)
        × (e ≡ sealed digest p (last_hash genesis ledger.events))
        × (any (clashes e) ledger.events ≡ false)
        × (ledger' ≡ record { events = ledger.events ++ e ∷ []; bindings = bindings })
  unfolding append_event
  append_event_ok p ledger h =
      let (_, a) = require_ok (is_hex_text 64 (lower p.artifact_sha256)) value_error _ h in
      let (bindings, b, c) = ok-bind (bind_artifact p ledger.bindings) _ a in
      let new = sealed digest p (last_hash genesis ledger.events) in
      let (fresh, d) = require_ok (not (any (clashes new) ledger.events)) integrity _ c in
      (bindings, b, ground arith, ground arith, ground arith)

  pub append_event-IsSound :
      (p : EvidencePayload) (ledger : Ledger) {e : EvidenceRecord} {ledger' : Ledger}
      → append_event digest p ledger ≡ ok (e, ledger')
      → IsSound ledger
      → IsSound ledger'
  append_event-IsSound p ledger {e} h s =
      let (bindings, b, new, _, after) = append_event_ok p ledger h in
      let (own, keeps) = bind_artifact_ok p ledger.bindings b in
      subst IsSound (sym after) (record {
        chained =
            subst (λ x. chain_valid digest genesis (ledger.events ++ x ∷ []) ≡ true) (sym new)
              (chain_valid-append genesis ledger.events p s.chained);
        bound =
            All-append (IsBoundTo bindings) ledger.events (e ∷ [])
              (bound_after ledger.bindings bindings ledger.events keeps s.bound)
              (subst (IsBoundTo bindings) (sym new) own, tt);
      })
