-- ===== src/Policy/Refines.antt =====
-- Each operation of the engine keeps the projection in agreement with the mission.
use sdlc_harness.Prelude.{
  ℕ, String, ◌≡◌, refl, sym, ◌∙◌, none, some, List, ◌==◌, ok, Bool-cases, Option-cases, inl, inr,
  arith,
}
use sdlc_harness.Dict.{Dict, get, get-put}
use sdlc_harness.Mission.{Mission, WorkTask}
use sdlc_harness.Workflow.{EventType, EventBody, WorkflowEvent, Payload, find_command}
use sdlc_harness.Workflow.Projection.{
  WorkflowProjection, AttemptProjection, apply_type, put_attempt,
}
use sdlc_harness.Policy.{Stamp, emit}
use sdlc_harness.Policy.Engine.{event}
use sdlc_harness.Policy.Follows.{Follows, emit-Follows}
use sdlc_harness.Policy.Agrees.{Agrees, SameTasks}

-- More attempts, and the same tasks.
pub attempts_grow :
    (tasks : Dict WorkTask) (p : WorkflowProjection) (k : String) (a : AttemptProjection) (n : ℕ)
    → SameTasks tasks p
    → SameTasks tasks (record (put_attempt p k a) { last_sequence = n })
attempts_grow tasks p k a n s = record {
  same = s.same;
  attempts = λ j t e. rw get-put (elim (Bool-cases (k == t.attempt_id)) [
    | inl here ↦ rw here refl
    | inr other ↦ rw other (s.attempts j t e)
  ]);
  own = s.own;
}

pub later :
    (m : Mission) (p : WorkflowProjection) (n : ℕ)
    → Agrees m p
    → Agrees m (record p { last_sequence = n })
later m p n a = record {
  revision = a.revision;
  stage = a.stage;
  completed = a.completed;
  tasks = record { same = a.tasks.same; attempts = a.tasks.attempts; own = a.tasks.own };
}

module _ (digest : EventBody → String) (canonical_json : Payload → String) where
  -- the store holds the history of the mission
  abbrev pub Tracks : Mission → List WorkflowEvent → Type 0
  Tracks m rows = Follows digest canonical_json (Agrees m) m.mission_id rows

  -- The mission may change where the projection does not show it.
  pub moved :
      {m m' : Mission} (rows : List WorkflowEvent)
      → m'.mission_id ≡ m.mission_id
      → ((p : WorkflowProjection) → Agrees m p → Agrees m' p)
      → Tracks m rows
      → Tracks m' rows
  moved rows same keeps t = record {
    sound = t.sound;
    projected = t.projected;
    rebuilt = rw same t.rebuilt;
    same_id = t.same_id ∙ sym same;
    holds = keeps t.projected t.holds;
  }

  -- An event that changes nothing in the projection.
  pub quiet :
      (m : Mission) (event_type : EventType) (payload : Payload) (command_id : String) (s : Stamp)
      (rows : List WorkflowEvent) {e : WorkflowEvent} {rows' : List WorkflowEvent}
      → ((e : WorkflowEvent) (p : WorkflowProjection) → apply_type event_type e p ≡ ok p)
      → emit digest canonical_json (event m event_type payload command_id) s rows ≡ (ok e, rows')
      → find_command command_id rows ≡ none
      → Tracks m rows
      → Tracks m rows'
  quiet m event_type payload command_id s rows nothing h new t =
      emit-Follows digest canonical_json (Agrees m) (Agrees m)
        (event m event_type payload command_id) s rows h new
        (λ p a. (p, nothing _ p, refl, later m p _ a)) t

  -- An event about an attempt of a task: the attempt is written, under its own id.
  attempt_known :
      (m : Mission) (p : WorkflowProjection) (k : String) (t : WorkTask)
      → Agrees m p
      → get k m.tasks ≡ some t
      → (a : AttemptProjection) × (get t.attempt_id p.attempts ≡ some a)
  attempt_known m p k t a found = elim (Option-cases (get t.attempt_id p.attempts)) [
    | inl n ↦ absurd (ground (arith, a.tasks.attempts k t found))
    | inr x ↦ x
  ]

  put_attempt_later :
      (m : Mission) (p : WorkflowProjection) (k : String) (x : AttemptProjection) (n : ℕ)
      → Agrees m p
      → Agrees m (record (put_attempt p k x) { last_sequence = n })
  put_attempt_later m p k x n a = record {
    revision = a.revision;
    stage = a.stage;
    completed = a.completed;
    tasks = attempts_grow m.tasks p k x n a.tasks;
  }

  -- An event that writes the attempt of a task of the mission.
  pub attempt_tracked :
      (m : Mission) (k : String) (t : WorkTask) (event_type : EventType) (payload : Payload)
      (command_id : String) (s : Stamp) (rows : List WorkflowEvent) {e : WorkflowEvent}
      {rows' : List WorkflowEvent}
      → ((e : WorkflowEvent) (p : WorkflowProjection) (x : AttemptProjection)
          → e.payload ≡ payload
          → get t.attempt_id p.attempts ≡ some x
          → (y : AttemptProjection) × (apply_type event_type e p
              ≡ ok (put_attempt p t.attempt_id y)))
      → get k m.tasks ≡ some t
      → emit digest canonical_json (event m event_type payload command_id) s rows ≡ (ok e, rows')
      → find_command command_id rows ≡ none
      → Tracks m rows
      → Tracks m rows'
  attempt_tracked m k t event_type payload command_id s rows writes found h new tr =
      emit-Follows digest canonical_json (Agrees m) (Agrees m)
        (event m event_type payload command_id) s rows h new
        (λ p a.
          let (x, known) = attempt_known m p k t a found in
          let (y, applied) = writes _ p x refl known in
          (_, applied, refl, put_attempt_later m p t.attempt_id y _ a))
        tr
