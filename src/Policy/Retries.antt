-- ===== src/Policy/Retries.antt =====
-- Retrying an attempt that was interrupted, and events that are recorded as they are.
use sdlc_harness.Prelude.{
  String, ◌≡◌, refl, subst, ap, none, some, List, [], ◌∷◌, ◌==◌, ok, Option-cases, inl, inr, arith,
}
use Prim.Native.String.{◌++◌ as append_text}
use sdlc_harness.Dict.{get}
use sdlc_harness.Mission.{Mission, WorkTask}
use sdlc_harness.Workflow.{
  EventBody, WorkflowEvent, Payload, find_command, attempt_started, retry_scheduled,
  evidence_recorded,
}
use sdlc_harness.Workflow.Projection.{apply_type, text}
use sdlc_harness.Policy.{Stamp, emit, policy_error, key_error}
use sdlc_harness.Policy.Engine as Engine
use sdlc_harness.Policy.Engine.{
  event, start_command, started_payload, set_task, with_attempt, retry_new, retry_again,
}
use sdlc_harness.Policy.Follows.{go_on_ok, give_ok, found_ok, check_ok}
use sdlc_harness.Policy.Refines.{Tracks, quiet}
use sdlc_harness.Policy.Attempts.{retry_tracked, retry_again_tracked}

module _ (digest : EventBody → String) (canonical_json : Payload → String) where
  again_tracked :
      (m : Mission) (k : String) (t : WorkTask) (existing : WorkflowEvent) (command_id : String)
      (s : Stamp) (rows : List WorkflowEvent) {u : WorkTask} {m' : Mission}
      {rows' : List WorkflowEvent}
      → retry_again digest canonical_json m k t existing command_id s rows ≡ (ok (u, m'), rows')
      → get k m.tasks ≡ some t
      → find_command (start_command command_id) rows ≡ none
      → Tracks digest canonical_json m rows
      → Tracks digest canonical_json m' rows'
  again_tracked m k t existing command_id s rows {u} {m'} {rows'} h known start before =
      let (value, _, a) = found_ok key_error (get "attempt_id" existing.payload) _ rows h in
      let next = with_attempt (text value) t in
      let (f, done, same) =
        give_ok
          (emit digest canonical_json
            (event m attempt_started (started_payload next) (start_command command_id)) s rows)
          (next, set_task k next m) a in
      subst (λ x. Tracks digest canonical_json x rows') (ap (λ (x : WorkTask × Mission). x.1) same)
        (retry_again_tracked digest canonical_json m k t (text value) command_id s rows known done
          start before)

  new_tracked :
      (m : Mission) (k : String) (t : WorkTask) (retry_class attempt_hex command_id : String)
      (s s' : Stamp) (rows : List WorkflowEvent) {u : WorkTask} {m' : Mission}
      {rows' : List WorkflowEvent}
      → retry_new digest canonical_json m k t retry_class attempt_hex command_id s s' rows
        ≡ (ok (u, m'), rows')
      → get k m.tasks ≡ some t
      → find_command command_id rows ≡ none
      → find_command (start_command command_id) rows ≡ none
      → Tracks digest canonical_json m rows
      → Tracks digest canonical_json m' rows'
  new_tracked m k t retry_class attempt_hex command_id s s' rows {u} {m'} {rows'} h known new start
        before =
      let (_, a) = check_ok (t.status == "interrupted") policy_error _ rows h in
      let attempt = append_text "attempt-" attempt_hex in
      let next = with_attempt attempt t in
      let (e, mid, done, b) =
        go_on_ok
          (emit digest canonical_json
            (event m retry_scheduled
              (("task_id", some t.task_id)
                ∷ ("prior_attempt_id", some t.attempt_id)
                ∷ ("attempt_id", some attempt)
                ∷ ("retry_class", some retry_class)
                ∷ [])
              command_id)
            s rows)
          _ a in
      let (f, started, same) =
        give_ok
          (emit digest canonical_json
            (event m attempt_started (started_payload next) (start_command command_id)) s' mid)
          (next, set_task k next m) b in
      subst (λ x. Tracks digest canonical_json x rows') (ap (λ (x : WorkTask × Mission). x.1) same)
        (retry_tracked digest canonical_json m k t attempt retry_class command_id s s' rows mid
          known done started new start before)

  pub retry_attempt_tracked :
      (m : Mission) (k retry_class attempt_hex command_id : String) (s s' : Stamp)
      (rows : List WorkflowEvent) {u : WorkTask} {m' : Mission} {rows' : List WorkflowEvent}
      → Engine.retry_attempt digest canonical_json m k retry_class attempt_hex command_id s s' rows
        ≡ (ok (u, m'), rows')
      → find_command (start_command command_id) rows ≡ none
      → Tracks digest canonical_json m rows
      → Tracks digest canonical_json m' rows'
  unfolding Engine.retry_attempt
  retry_attempt_tracked m k retry_class attempt_hex command_id s s' rows h start before =
      elim (Option-cases (get k m.tasks)) [
        | inl unknown ↦ absurd (ground (arith, rw (unknown, Engine.retry_attempt) at h))
        | inr (t, known) ↦ elim (Option-cases (find_command command_id rows)) [
          | inl new ↦
              new_tracked m k t retry_class attempt_hex command_id s s' rows
                (rw (known, new, Engine.retry_attempt) at h) known new start before
          | inr (existing, stored) ↦
              again_tracked m k t existing command_id s' rows
                (rw (known, stored, Engine.retry_attempt) at h) known start before
        ]
      ]

  -- Evidence that is recorded changes neither the mission nor the projection.
  pub evidence_tracked :
      (m : Mission) (payload : Payload) (command_id : String) (s : Stamp)
      (rows : List WorkflowEvent) {m' : Mission} {rows' : List WorkflowEvent}
      → Engine.record_event digest canonical_json m evidence_recorded payload command_id s rows
        ≡ (ok m', rows')
      → find_command command_id rows ≡ none
      → Tracks digest canonical_json m rows
      → Tracks digest canonical_json m' rows'
  unfolding Engine.record_event apply_type
  evidence_tracked m payload command_id s rows {m'} {rows'} h new before =
      let (e, done, same) =
        give_ok (emit digest canonical_json (event m evidence_recorded payload command_id) s rows) m
          h in
      subst (λ x. Tracks digest canonical_json x rows') same
        (quiet digest canonical_json m evidence_recorded payload command_id s rows (λ e p. refl)
          done new before)
