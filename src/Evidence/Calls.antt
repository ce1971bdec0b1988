-- ===== src/Evidence/Calls.antt =====
-- Sequences of calls of the ledger.
use sdlc_harness.Prelude.{
  ℕ, String, ◌≡◌, refl, sym, subst, ◌∙◌, Bool, true, ◌||◌, Option, none, some, List, [], ◌∷◌, ◌++◌,
  any, All-get_elem?, get_elem?, Result, ok, err, ◌>>=◌, require_ok, ok-bind, eq_iff, eq_refl,
  Result-cases, inl, inr, arith,
}
use sdlc_harness.Handoff.{Disk}
use sdlc_harness.Evidence.{
  stale, invalidation, EvidencePayload, EvidenceRecord, Ledger, EvidenceError, value_error,
  key_error, os_error, is_evidence, append_event, chain_valid, verify_chain, Submission,
  free_of_links, validate_evaluation, append, invalidate, find_event, invalidates, status, or_error,
  submitted, retraction,
}
use sdlc_harness.Evidence.Chain.{IsSound, append_event_ok, append_event-IsSound}

pub data LedgerCall : Type 0 where
  append_call : Disk → String → Submission → LedgerCall
  invalidate_call : String → String → String → String → LedgerCall

abbrev pub empty_ledger : Ledger
empty_ledger = record { events = []; bindings = [] }

abbrev kept : Ledger → Result EvidenceError (EvidenceRecord × Ledger) → Ledger
kept ledger (ok (_, after)) = after
kept ledger (err _) = ledger

or_error_ok :
    {A B : Type 0} (x : EvidenceError) (o : Option A) (k : A → Result EvidenceError B) {b : B}
    → (or_error x o >>= k) ≡ ok b
    → (a : A) × (o ≡ some a) × (k a ≡ ok b)
or_error_ok x none k h = cc
or_error_ok x (some a) k h = (a, refl, h)

find_event-append :
    (id : String) (es fs : List EvidenceRecord) {o : EvidenceRecord}
    → find_event id es ≡ some o
    → find_event id (es ++ fs) ≡ some o
unfolding find_event
find_event-append id [] fs h = cc
find_event-append id (e ∷ es) fs {o} h = ground (arith, find_event-append id es fs {o = o})

any-append :
    (p : EvidenceRecord → Bool) (es fs : List EvidenceRecord)
    → any p (es ++ fs) ≡ (any p es || any p fs)
any-append p [] fs = refl
any-append p (e ∷ es) fs = ground (arith, any-append p es fs)

module _ (digest : EvidencePayload → String → String) where
  abbrev pub after_call : LedgerCall → Ledger → Ledger
  after_call (append_call disk hex s) ledger = kept ledger (append digest disk hex s ledger)
  after_call (invalidate_call hex id role why) ledger =
      kept ledger (invalidate digest hex id role why ledger)

  unfoldable pub after_calls : List LedgerCall → Ledger → Ledger
  after_calls [] ledger = ledger
  after_calls (c ∷ calls) ledger = after_calls calls (after_call c ledger)

  -- a call that returns appends one event
  append_appends :
      (disk : Disk) (hex : String) (s : Submission) (ledger : Ledger) {e : EvidenceRecord}
      {ledger' : Ledger}
      → append digest disk hex s ledger ≡ ok (e, ledger')
      → (p : EvidencePayload) × (append_event digest p ledger ≡ ok (e, ledger'))
  unfolding append
  append_appends disk hex s ledger h =
      let (_, a) = require_ok (free_of_links disk s.artifact_path) value_error _ h in
      let (resolved, _, b) = or_error_ok os_error (disk.resolve s.artifact_path) _ a in
      let (_, c) = require_ok (disk.is_file resolved) value_error _ b in
      let (_, _, d) =
        ok-bind (validate_evaluation s.producer_role s.outcome (disk.sha256 resolved) s.evaluation)
          _ c in
      (submitted hex s resolved (disk.sha256 resolved), d)

  invalidate_appends :
      (hex id role why : String) (ledger : Ledger) {e : EvidenceRecord} {ledger' : Ledger}
      → invalidate digest hex id role why ledger ≡ ok (e, ledger')
      → (p : EvidencePayload) × (append_event digest p ledger ≡ ok (e, ledger'))
        × (p.event_type ≡ invalidation)
        × (p.subject_id ≡ some id)
  unfolding invalidate
  invalidate_appends hex id role why ledger h =
      let (original, _, a) = or_error_ok key_error (find_event id ledger.events) _ h in
      (retraction hex id role why original, a, refl, refl)

  -- what a ledger keeps over a call, when it keeps it over an event that is appended
  call_keeps :
      (P : Ledger → Type 0)
      → ((p : EvidencePayload) (l l' : Ledger) (e : EvidenceRecord)
          → append_event digest p l ≡ ok (e, l')
          → P l
          → P l')
      → (c : LedgerCall) (ledger : Ledger) → P ledger
      → P (after_call c ledger)
  call_keeps P step (append_call disk hex s) ledger h =
      elim (Result-cases (append digest disk hex s ledger)) [
        | inr (x, refused) ↦ rw refused h
        | inl ((e, after), done) ↦
            let (p, appended) = append_appends disk hex s ledger done in
            rw done (step p ledger after e appended h)
      ]
  call_keeps P step (invalidate_call hex id role why) ledger h =
      elim (Result-cases (invalidate digest hex id role why ledger)) [
        | inr (x, refused) ↦ rw refused h
        | inl ((e, after), done) ↦
            let (p, appended, _, _) = invalidate_appends hex id role why ledger done in
            rw done (step p ledger after e appended h)
      ]

  calls_keep :
      (P : Ledger → Type 0)
      → ((p : EvidencePayload) (l l' : Ledger) (e : EvidenceRecord)
          → append_event digest p l ≡ ok (e, l')
          → P l
          → P l')
      → (calls : List LedgerCall) (ledger : Ledger) → P ledger
      → P (after_calls calls ledger)
  unfolding after_calls
  calls_keep P step [] ledger h = h
  calls_keep P step (c ∷ calls) ledger h =
      calls_keep P step calls (after_call c ledger) (call_keeps P step c ledger h)

  -- After any calls on an empty ledger its chain verifies, and two evidence events for one artifact
  -- digest are for the same mission, revision and candidate.
  pub ledger_one_target :
      (calls : List LedgerCall)
      → (verify_chain digest (after_calls calls empty_ledger) ≡ true)
        × ((i j : ℕ) (e f : EvidenceRecord)
            → get_elem? (after_calls calls empty_ledger).events i ≡ some e
            → get_elem? (after_calls calls empty_ledger).events j ≡ some f
            → is_evidence e.event_type ≡ true
            → is_evidence f.event_type ≡ true
            → e.artifact_sha256 ≡ f.artifact_sha256
            → e.target ≡ f.target)
  unfolding chain_valid
  ledger_one_target calls =
      let sound =
        calls_keep (IsSound digest) (λ p l l' e h s. append_event-IsSound digest p l h s) calls
          empty_ledger (record { chained = refl; bound = tt }) in
      (
        sound.chained,
        (λ i j e f he hf ke kf same.
            let a = All-get_elem? _ (after_calls calls empty_ledger).events i sound.bound he ke in
            let b = All-get_elem? _ (after_calls calls empty_ledger).events j sound.bound hf kf in
            cc),
      )

  abbrev IsStale : String → Ledger → Type 0
  IsStale id ledger =
      (o : EvidenceRecord) × (find_event id ledger.events ≡ some o)
      × (is_evidence o.event_type ≡ true)
      × (any (invalidates id) ledger.events ≡ true)

  IsStale-kept :
      (id : String) (p : EvidencePayload) (l l' : Ledger) (e : EvidenceRecord)
      → append_event digest p l ≡ ok (e, l')
      → IsStale id l
      → IsStale id l'
  IsStale-kept id p l l' e h (o, found, kind, gone) =
      let (bindings, _, _, _, after) = append_event_ok digest p l h in
      subst (IsStale id) (sym after) (
        o,
        find_event-append id l.events (e ∷ []) found,
        kind,
        any-append (invalidates id) l.events (e ∷ []) ∙ ground arith,
      )

  found_id :
      (id : String) (es : List EvidenceRecord) {o : EvidenceRecord}
      → find_event id es ≡ some o
      → o.event_id ≡ id
  unfolding find_event
  found_id id [] h = cc
  found_id id (e ∷ es) {o} h = ground (arith, eq_iff e.event_id id, found_id id es {o = o})

  IsStale-status : (id : String) (l : Ledger) → IsStale id l → status id l ≡ ok stale
  unfolding status
  IsStale-status id l (o, found, kind, gone) =
      let same = found_id id l.events found in rw (found, kind, same, gone) refl

  -- Evidence that was invalidated is stale from then on, whatever is appended or invalidated later.
  pub invalidate-status :
      (hex id role why : String) (ledger : Ledger) (o : EvidenceRecord) {e : EvidenceRecord}
      {ledger' : Ledger} (calls : List LedgerCall)
      → find_event id ledger.events ≡ some o
      → is_evidence o.event_type ≡ true
      → invalidate digest hex id role why ledger ≡ ok (e, ledger')
      → status id (after_calls calls ledger') ≡ ok stale
  invalidate-status hex id role why ledger o {e} {ledger'} calls found kind h =
      let (p, appended, k, subject) = invalidate_appends hex id role why ledger h in
      let (bindings, _, new, _, after) = append_event_ok digest p ledger appended in
      let marks : invalidates id e ≡ true = rw (new, k, subject, eq_refl id) refl in
      IsStale-status id _ (
        calls_keep (IsStale id) (IsStale-kept id) calls ledger' (
          subst (IsStale id) (sym after) (
            o,
            find_event-append id ledger.events (e ∷ []) found,
            kind,
            any-append (invalidates id) ledger.events (e ∷ []) ∙ ground arith,
          )))
