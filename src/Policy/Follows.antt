-- ===== src/Policy/Follows.antt =====
-- What a stored event does to the projection of its mission.
use text.Mathlib.TextLemmas.{append_cancel_left, append-nil}
use sdlc_harness.Prelude.{
  String, ◌≡◌, ◌≢◌, refl, sym, subst, ap, ◌∙◌, Bool, true, false, Option, none, some, List, [], ◌∷◌,
  ◌++◌, ◌==◌, eq_iff, Result, ok, err, Bool-cases, inl, inr, arith,
}
use sdlc_harness.Workflow.{
  EventBody, WorkflowEvent, Payload, StoreError, Draft, find_command, events,
}
use sdlc_harness.Mission.{MissionError}
use sdlc_harness.Workflow.Appends.{
  IsSound, next_event, Outcome, repeated, appended, refused, append-Outcome, Outcome-IsSound,
}
use sdlc_harness.Workflow.Projection.{WorkflowProjection, rebuild, apply_type}
use sdlc_harness.Workflow.Projection.Extend.{rebuild-next_event}
use sdlc_harness.Policy.{PolicyError, Act, go_on, managed, found, check, give, Stamp, stored, emit}
use sdlc_harness.Policy.Engine.{start_command}

-- A chain of calls that ends well went well at its first step.
pub go_on_ok :
    {A B : Type 0} (o : Result PolicyError A × List WorkflowEvent) (k : A → Act B) {b : B}
    {rows' : List WorkflowEvent}
    → go_on o k ≡ (ok b, rows')
    → (a : A) × (mid : List WorkflowEvent) × (o ≡ (ok a, mid)) × (k a mid ≡ (ok b, rows'))
go_on_ok (ok a, mid) k h = (a, mid, refl, h)
go_on_ok (err e, mid) k h = absurd (ground arith)

pub check_ok :
    {B : Type 0} (b : Bool) (x : PolicyError) (k : Act B) (rows : List WorkflowEvent) {y : B}
    {rows' : List WorkflowEvent}
    → go_on (check b x rows) (λ _. k) ≡ (ok y, rows')
    → (b ≡ true) × (k rows ≡ (ok y, rows'))
check_ok true x k rows h = (refl, h)
check_ok false x k rows h = absurd (ground arith)

pub found_ok :
    {A B : Type 0} (x : PolicyError) (o : Option A) (k : A → Act B) (rows : List WorkflowEvent)
    {y : B} {rows' : List WorkflowEvent}
    → go_on (found x o rows) k ≡ (ok y, rows')
    → (a : A) × (o ≡ some a) × (k a rows ≡ (ok y, rows'))
found_ok x none k rows h = absurd (ground arith)
found_ok x (some a) k rows h = (a, refl, h)

pub managed_ok :
    {A B : Type 0} (o : Result MissionError A) (k : A → Act B) (rows : List WorkflowEvent) {y : B}
    {rows' : List WorkflowEvent}
    → go_on (managed o rows) k ≡ (ok y, rows')
    → (a : A) × (o ≡ ok a) × (k a rows ≡ (ok y, rows'))
managed_ok (err x) k rows h = absurd (ground arith)
managed_ok (ok a) k rows h = (a, refl, h)

-- A chain that ends by giving a value.
pub give_ok :
    {A B : Type 0} (o : Result PolicyError A × List WorkflowEvent) (x : B) {y : B}
    {rows' : List WorkflowEvent}
    → go_on o (λ _. give x) ≡ (ok y, rows')
    → (a : A) × (o ≡ (ok a, rows')) × (x ≡ y)
give_ok (ok a, mid) x h = (a, ground arith, ground arith)
give_ok (err e, mid) x h = absurd (ground arith)

longer : (c : String) → start_command c ≢ c
longer c h =
    let none_left = append_cancel_left c ":attempt-started" "" (h ∙ sym (append-nil c)) in
    ground (arith, (eq_iff ":attempt-started" "").1 none_left)

-- The command of the second event is another than that of the first.
other_command : (c : String) → (c == start_command c) ≡ false
other_command c = elim (Bool-cases (c == start_command c)) [
  | inr other ↦ other
  | inl same ↦ absurd (longer c (sym ((eq_iff c (start_command c)).0 same)))
]

find_command-append_other :
    (c : String) (rows : List WorkflowEvent) (e : WorkflowEvent)
    → find_command c rows ≡ none
    → (e.command_id == c) ≡ false
    → find_command c (rows ++ e ∷ []) ≡ none
unfolding find_command
find_command-append_other c [] e h n = ground arith
find_command-append_other c (f ∷ rows) e h n = ground (arith, find_command-append_other c rows e)

-- A start command that was new before the first event is so after it.
pub start_command_fresh :
    (c : String) (rows : List WorkflowEvent) (e : WorkflowEvent)
    → find_command (start_command c) rows ≡ none
    → e.command_id ≡ c
    → find_command (start_command c) (rows ++ e ∷ []) ≡ none
start_command_fresh c rows e h same =
    find_command-append_other (start_command c) rows e h
      (ap (λ x. x == start_command c) same ∙ other_command c)

module _ (digest : EventBody → String) (canonical_json : Payload → String) where
  Outcome-new :
      (d : Draft) (i t : String) (rows : List WorkflowEvent)
      (o : Result StoreError WorkflowEvent × List WorkflowEvent) {e : WorkflowEvent}
      {rows' : List WorkflowEvent}
      → Outcome digest d i t rows o
      → stored o ≡ (ok e, rows')
      → find_command d.command_id rows ≡ none
      → (e ≡ next_event digest d i t rows) × (rows' ≡ rows ++ next_event digest d i t rows ∷ [])
  Outcome-new d i t rows _ (repeated f found) h new = absurd (cc (found, new))
  Outcome-new d i t rows _ (appended _) h new = (ground arith, ground arith)
  Outcome-new d i t rows _ (refused x) h new = absurd (ground arith)

  -- A new command that is stored is the next event of its mission.
  pub emit_new :
      (d : Draft) (s : Stamp) (rows : List WorkflowEvent) {e : WorkflowEvent}
      {rows' : List WorkflowEvent}
      → emit digest canonical_json d s rows ≡ (ok e, rows')
      → find_command d.command_id rows ≡ none
      → (e ≡ next_event digest d s.event_id s.created_at rows)
        × (rows' ≡ rows ++ next_event digest d s.event_id s.created_at rows ∷ [])
  unfolding emit
  emit_new d s rows h new =
      Outcome-new d s.event_id s.created_at rows _
        (append-Outcome digest canonical_json d s.event_id s.created_at rows) h new

  -- the chains of the store are sound, and the projection of the mission has the property `P`
  pub record Follows (P : WorkflowProjection → Type 0) (mission_id : String)
      (rows : List WorkflowEvent) : Type 0 where
    pub sound : IsSound digest rows
    pub projected : WorkflowProjection
    pub rebuilt : rebuild digest (events mission_id rows) ≡ ok projected
    pub same_id : projected.mission_id ≡ mission_id
    pub holds : P projected

  -- A stored event takes the projection from one property to another, if it does by itself.
  pub emit-Follows :
      (P Q : WorkflowProjection → Type 0) (d : Draft) (s : Stamp) (rows : List WorkflowEvent)
      {e : WorkflowEvent} {rows' : List WorkflowEvent}
      → emit digest canonical_json d s rows ≡ (ok e, rows')
      → find_command d.command_id rows ≡ none
      → ((p : WorkflowProjection)
          → P p
          → let new = next_event digest d s.event_id s.created_at rows in
            (q : WorkflowProjection) × (apply_type d.event_type new p ≡ ok q)
            × (q.mission_id ≡ p.mission_id)
            × Q (record q { last_sequence = new.sequence }))
      → Follows P d.mission_id rows
      → Follows Q d.mission_id rows'
  emit-Follows P Q d s rows h new step f =
      let (_, grown) = emit_new d s rows h new in
      let (q, applied, same, holds) = step f.projected f.holds in
      subst (Follows Q d.mission_id) (sym grown) (record {
        sound = Outcome-IsSound digest canonical_json (appended new) f.sound;
        projected = record q {
          last_sequence = (next_event digest d s.event_id s.created_at rows).sequence;
        };
        rebuilt =
            rebuild-next_event digest d s.event_id s.created_at rows f.sound f.rebuilt f.same_id
              applied;
        same_id = same ∙ f.same_id;
        holds = holds;
      })
