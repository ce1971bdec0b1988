-- ===== src/Policy/Attempts.antt =====
-- The events that start an attempt: of a task that is issued, and of a retry.
use sdlc_harness.Prelude.{
  ℕ, String, ◌≡◌, refl, sym, subst, ◌∙◌, true, false, Option, none, some, List, [], ◌∷◌, ◌==◌, ok,
  is_some,
}
use sdlc_harness.Dict.{get, get-put, get-put_self}
use sdlc_harness.Mission.{Mission, WorkTask}
use sdlc_harness.Mission.Manager.{add_task}
use sdlc_harness.Workflow.{
  EventBody, WorkflowEvent, Payload, find_command, attempt_started, task_issued, retry_scheduled,
}
use sdlc_harness.Workflow.Appends.{next_event}
use sdlc_harness.Workflow.Projection.{
  WorkflowProjection, AttemptProjection, TaskProjection, apply_type, started, start_attempt,
  put_attempt,
}
use sdlc_harness.Policy.{Stamp, emit}
use sdlc_harness.Policy.Engine.{
  event, start_command, issued_payload, started_payload, set_task, with_attempt,
}
use sdlc_harness.Policy.Follows.{Follows, emit-Follows, emit_new, start_command_fresh}
use sdlc_harness.Policy.Agrees.{Agrees, shown?, expected_stage, started-SameTasks}
use sdlc_harness.Policy.Refines.{Tracks, attempts_grow}

-- Before the attempt of the task starts: the projection knows the task, and agrees on all others.
record Opened (m : Mission) (t : WorkTask) (p : WorkflowProjection) : Type 0 where
  revision : p.revision ≡ m.revision
  stage : p.current_stage ≡ expected_stage m
  completed : p.completed ≡ m.completed
  active : Option String
  known :
      get t.task_id p.tasks
      ≡ some (record { task_id = t.task_id; role = t.assignee_role; active_attempt_id = active })
  others : (j : String) → (t.task_id == j) ≡ false → get j p.tasks ≡ shown? (get j m.tasks)
  attempts :
      (j : String) (u : WorkTask)
      → get j m.tasks ≡ some u
      → is_some (get u.attempt_id p.attempts) ≡ true
  own : (j : String) (u : WorkTask) → get j m.tasks ≡ some u → u.task_id ≡ j

module _ (digest : EventBody → String) (canonical_json : Payload → String) where
  open_tracked :
      (m : Mission) (t : WorkTask) (command_id : String) (s : Stamp) (rows : List WorkflowEvent)
      {e : WorkflowEvent} {rows' : List WorkflowEvent}
      → emit digest canonical_json
          (event (add_task m t) task_issued (issued_payload t) command_id)
          s
          rows
        ≡ (ok e, rows')
      → find_command command_id rows ≡ none
      → Tracks digest canonical_json m rows
      → Follows digest canonical_json (Opened m t) m.mission_id rows'
  unfolding apply_type
  open_tracked m t command_id s rows h new before =
      emit-Follows digest canonical_json (Agrees m) (Opened m t)
        (event (add_task m t) task_issued (issued_payload t) command_id) s rows h new
        (λ p a. (
          _,
          refl,
          refl,
          record {
            revision = a.revision;
            stage = a.stage;
            completed = a.completed;
            active = none;
            known = get-put_self t.task_id _ p.tasks;
            others = λ j other. rw (get-put, other) (a.tasks.same j);
            attempts = a.tasks.attempts;
            own = a.tasks.own;
          },
        ))
        before

  start_applies :
      (t : WorkTask) (e : WorkflowEvent) (p : WorkflowProjection) (x : TaskProjection)
      → e.payload ≡ started_payload t
      → get t.task_id p.tasks ≡ some x
      → apply_type attempt_started e p ≡ ok (start_attempt p t.task_id t.attempt_id x)
  unfolding apply_type
  start_applies t e p x same known = rw (same, known) refl

  -- The attempt starts.
  start_tracked :
      (m : Mission) (t : WorkTask) (command_id : String) (s : Stamp) (rows : List WorkflowEvent)
      {e : WorkflowEvent} {rows' : List WorkflowEvent}
      → emit digest canonical_json (event m attempt_started (started_payload t) command_id) s rows
        ≡ (ok e, rows')
      → find_command command_id rows ≡ none
      → Follows digest canonical_json (Opened m t) m.mission_id rows
      → Tracks digest canonical_json (add_task m t) rows'
  unfolding apply_type
  start_tracked m t command_id s rows h new before =
      emit-Follows digest canonical_json (Opened m t) (Agrees (add_task m t))
        (event m attempt_started (started_payload t) command_id) s rows h new
        (λ p o. (
          _,
          start_applies t
              (next_event digest (event m attempt_started (started_payload t) command_id) s.event_id
                s.created_at rows)
              p _ refl o.known,
          refl,
          record {
            revision = o.revision;
            stage = o.stage;
            completed = o.completed;
            tasks =
                started-SameTasks t.task_id t (started p t.task_id t.attempt_id) m.tasks p _ refl
                  (λ j. get-put t.task_id j _ p.tasks) (λ j. get-put t.attempt_id j _ p.attempts)
                  o.others o.attempts o.own;
          },
        ))
        before

  -- A task that is issued is in the projection with its first attempt.
  pub issue_tracked :
      (m : Mission) (t : WorkTask) (command_id : String) (s s' : Stamp)
      (rows mid : List WorkflowEvent) {e f : WorkflowEvent} {rows' : List WorkflowEvent}
      → emit digest canonical_json
          (event (add_task m t) task_issued (issued_payload t) command_id)
          s
          rows
        ≡ (ok e, mid)
      → emit digest canonical_json
          (event (add_task m t) attempt_started (started_payload t) (start_command command_id))
          s'
          mid
        ≡ (ok f, rows')
      → find_command command_id rows ≡ none
      → find_command (start_command command_id) rows ≡ none
      → Tracks digest canonical_json m rows
      → Tracks digest canonical_json (add_task m t) rows'
  issue_tracked m t command_id s s' rows mid h g new start before =
      let (_, grown) = emit_new digest canonical_json _ s rows h new in
      let start' =
        subst (λ x. find_command (start_command command_id) x ≡ none) (sym grown)
          (start_command_fresh command_id rows _ start refl) in
      start_tracked m t (start_command command_id) s' mid g start'
        (open_tracked m t command_id s rows h new before)

  still-Opened :
      (m : Mission) (k : String) (t : WorkTask) (p : WorkflowProjection) (attempt : String)
      → get k m.tasks ≡ some t
      → Agrees m p
      → Opened m (with_attempt attempt t) p
  still-Opened m k t p attempt found a =
      let here = subst (λ j. get j m.tasks ≡ some t) (sym (a.tasks.own k t found)) found in
      record {
        revision = a.revision;
        stage = a.stage;
        completed = a.completed;
        active = some t.attempt_id;
        known = a.tasks.same t.task_id ∙ rw here refl;
        others = λ j other. a.tasks.same j;
        attempts = a.tasks.attempts;
        own = a.tasks.own;
      }

  -- A task of the mission is open for another attempt.
  Opened-again :
      (m : Mission) (k : String) (t : WorkTask) (p : WorkflowProjection) (attempt : String)
      (x : AttemptProjection) (n : ℕ)
      → get k m.tasks ≡ some t
      → Agrees m p
      → Opened m (with_attempt attempt t) (record (put_attempt p attempt x) { last_sequence = n })
  Opened-again m k t p attempt x n found a = still-Opened m k t _ attempt found (record {
    revision = a.revision;
    stage = a.stage;
    completed = a.completed;
    tasks = attempts_grow m.tasks p attempt x n a.tasks;
  })

  -- The retry of a task opens its new attempt.
  retry_opens :
      (m : Mission) (k : String) (t : WorkTask) (attempt retry_class command_id : String)
      (s : Stamp) (rows : List WorkflowEvent) {e : WorkflowEvent} {rows' : List WorkflowEvent}
      → get k m.tasks ≡ some t
      → emit digest canonical_json
          (event m retry_scheduled
            (("task_id", some t.task_id)
              ∷ ("prior_attempt_id", some t.attempt_id)
              ∷ ("attempt_id", some attempt)
              ∷ ("retry_class", some retry_class)
              ∷ [])
            command_id)
          s
          rows
        ≡ (ok e, rows')
      → find_command command_id rows ≡ none
      → Tracks digest canonical_json m rows
      → Follows digest canonical_json (Opened m (with_attempt attempt t)) m.mission_id rows'
  unfolding apply_type
  retry_opens m k t attempt retry_class command_id s rows found h new before =
      emit-Follows digest canonical_json (Agrees m) (Opened m (with_attempt attempt t)) _ s rows h
        new (λ p a. (_, refl, refl, Opened-again m k t p attempt _ _ found a)) before

  -- A retried task is in the projection with its new attempt.
  pub retry_tracked :
      (m : Mission) (k : String) (t : WorkTask) (attempt retry_class command_id : String)
      (s s' : Stamp) (rows mid : List WorkflowEvent) {e f : WorkflowEvent}
      {rows' : List WorkflowEvent}
      → get k m.tasks ≡ some t
      → emit digest canonical_json
          (event m retry_scheduled
            (("task_id", some t.task_id)
              ∷ ("prior_attempt_id", some t.attempt_id)
              ∷ ("attempt_id", some attempt)
              ∷ ("retry_class", some retry_class)
              ∷ [])
            command_id)
          s
          rows
        ≡ (ok e, mid)
      → emit digest canonical_json
          (event m attempt_started
            (started_payload (with_attempt attempt t))
            (start_command command_id))
          s'
          mid
        ≡ (ok f, rows')
      → find_command command_id rows ≡ none
      → find_command (start_command command_id) rows ≡ none
      → Tracks digest canonical_json m rows
      → Tracks digest canonical_json (set_task k (with_attempt attempt t) m) rows'
  retry_tracked m k t attempt retry_class command_id s s' rows mid {e} {f} {rows'} found h g new
        start before =
      let (_, grown) = emit_new digest canonical_json _ s rows h new in
      let start' =
        subst (λ x. find_command (start_command command_id) x ≡ none) (sym grown)
          (start_command_fresh command_id rows _ start refl) in
      let own = before.holds.tasks.own k t found in
      subst (λ j. Tracks digest canonical_json (set_task j (with_attempt attempt t) m) rows') own
        (start_tracked m (with_attempt attempt t) (start_command command_id) s' mid g start'
          (retry_opens m k t attempt retry_class command_id s rows found h new before))

  -- A retry whose first event was stored before starts its attempt.
  pub retry_again_tracked :
      (m : Mission) (k : String) (t : WorkTask) (attempt command_id : String) (s : Stamp)
      (rows : List WorkflowEvent) {f : WorkflowEvent} {rows' : List WorkflowEvent}
      → get k m.tasks ≡ some t
      → emit digest canonical_json
          (event m attempt_started
            (started_payload (with_attempt attempt t))
            (start_command command_id))
          s
          rows
        ≡ (ok f, rows')
      → find_command (start_command command_id) rows ≡ none
      → Tracks digest canonical_json m rows
      → Tracks digest canonical_json (set_task k (with_attempt attempt t) m) rows'
  retry_again_tracked m k t attempt command_id s rows {f} {rows'} found g start before =
      let own = before.holds.tasks.own k t found in
      subst (λ j. Tracks digest canonical_json (set_task j (with_attempt attempt t) m) rows') own
        (start_tracked m (with_attempt attempt t) (start_command command_id) s rows g start
          (record {
            sound = before.sound;
            projected = before.projected;
            rebuilt = before.rebuilt;
            same_id = before.same_id;
            holds = still-Opened m k t before.projected attempt found before.holds;
          }))
