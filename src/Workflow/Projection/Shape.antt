-- ===== src/Workflow/Projection/Shape.antt =====
-- What holds of every rebuilt projection: entries stand under their own ids, and a task's active
-- attempt is an attempt of the projection.
use sdlc_harness.Prelude.{
  ℕ, suc, String, ◌≡◌, refl, true, Option, none, some, List, [], ◌∷◌, arith, ok, eq_iff, is_some,
  ◌∙◌, Gives, given, Gives-bind, of_Gives,
}
use sdlc_harness.Dict.{get, put, get-put}
use sdlc_harness.Workflow.{
  EventType, EventBody, WorkflowEvent, genesis, mission_started, revision_started, task_issued,
  attempt_started, checkpoint_recorded, attempt_interrupted, retry_scheduled, result_received,
  stage_advanced, mission_completed,
}
use sdlc_harness.Workflow.Projection.{
  WorkflowProjection, AttemptProjection, TaskProjection, put_attempt, start_attempt, started,
  apply_type, apply, started_from, check_link, rebuild_from, rebuild, field, or_key_error,
}

pub record IsShaped (p : WorkflowProjection) : Type 0 where
  pub attempt_keys :
      (k : String) (a : AttemptProjection) → get k p.attempts ≡ some a → a.attempt_id ≡ k
  pub task_keys : (k : String) (t : TaskProjection) → get k p.tasks ≡ some t → t.task_id ≡ k
  pub active_known :
      (k : String) (t : TaskProjection) (i : String)
      → get k p.tasks ≡ some t
      → t.active_attempt_id ≡ some i
      → is_some (get i p.attempts) ≡ true

put_attempt-IsShaped :
    (p : WorkflowProjection) (k : String) (a : AttemptProjection)
    → a.attempt_id ≡ k
    → IsShaped p
    → IsShaped (put_attempt p k a)
put_attempt-IsShaped p k a own h = record {
  attempt_keys = λ j b e. ground (arith, eq_iff k j, get-put k j a p.attempts, h.attempt_keys j b);
  task_keys = h.task_keys;
  active_known = λ j t i e f. ground (arith, get-put k i a p.attempts, h.active_known j t i e f);
}

put_task-IsShaped :
    (p : WorkflowProjection) (k : String) (t : TaskProjection)
    → t.task_id ≡ k
    → ((i : String) → t.active_attempt_id ≡ some i → is_some (get i p.attempts) ≡ true)
    → IsShaped p
    → IsShaped (record p { tasks = put k t p.tasks })
put_task-IsShaped p k t own known h = record {
  attempt_keys = h.attempt_keys;
  task_keys = λ j u e. ground (arith, eq_iff k j, get-put k j t p.tasks, h.task_keys j u);
  active_known = λ j u i e f. ground (arith, get-put k j t p.tasks, h.active_known j u i, known i);
}

-- Changing an entry that was found keeps its own id.
update_attempt-IsShaped :
    (p : WorkflowProjection) (k : String) (a b : AttemptProjection)
    → get k p.attempts ≡ some a
    → b.attempt_id ≡ a.attempt_id
    → IsShaped p
    → IsShaped (put_attempt p k b)
update_attempt-IsShaped p k a b e same h =
    put_attempt-IsShaped p k b (same ∙ h.attempt_keys k a e) h

start_attempt-IsShaped :
    (p : WorkflowProjection) (k i : String) (t : TaskProjection)
    → get k p.tasks ≡ some t
    → IsShaped p
    → IsShaped (start_attempt p k i t)
start_attempt-IsShaped p k i t e h =
    put_task-IsShaped (put_attempt p i (started p k i)) k
      (record { task_id = t.task_id; role = t.role; active_attempt_id = some i })
      (h.task_keys k t e)
      (λ j f. ground (arith, get-put i j (started p k i) p.attempts, eq_iff i j))
      (put_attempt-IsShaped p i (started p k i) refl h)

found : {A : Type 0} (o : Option A) {a : A} → or_key_error o ≡ ok a → o ≡ some a
found o h = ground arith

moved-IsShaped :
    (p q : WorkflowProjection)
    → q.tasks ≡ p.tasks
    → q.attempts ≡ p.attempts
    → IsShaped p
    → IsShaped q
moved-IsShaped p q t a h = record {
  attempt_keys = λ k b e. h.attempt_keys k b (rw (← a) e);
  task_keys = λ k u e. h.task_keys k u (rw (← t) e);
  active_known = λ k u i e f. rw a (h.active_known k u i (rw (← t) e) f);
}

-- Every event keeps the shape.
apply_type-IsShaped :
    (t : EventType) (e : WorkflowEvent) (p : WorkflowProjection)
    → IsShaped p
    → Gives IsShaped (apply_type t e p)
unfolding apply_type
apply_type-IsShaped mission_started e p h =
    Gives-bind (field "stage" e.payload) _ (λ stage _. given (moved-IsShaped p _ refl refl h))
apply_type-IsShaped revision_started e p h =
    Gives-bind (field "stage" e.payload) _ (λ stage _. given (moved-IsShaped p _ refl refl h))
apply_type-IsShaped task_issued e p h = Gives-bind (field "task_id" e.payload) _ λ task _.
    Gives-bind (field "role" e.payload) _ λ role _. given (
      put_task-IsShaped p task (record { task_id = task; role = role; active_attempt_id = none })
        refl (λ i n. cc) h)
apply_type-IsShaped attempt_started e p h = Gives-bind (field "task_id" e.payload) _ λ task _.
    Gives-bind (field "attempt_id" e.payload) _ λ attempt _.
      Gives-bind (or_key_error (get task p.tasks)) _
        λ t at. given (start_attempt-IsShaped p task attempt t (found (get task p.tasks) at) h)
apply_type-IsShaped checkpoint_recorded e p h =
    Gives-bind (field "attempt_id" e.payload) _ λ attempt _.
      Gives-bind (or_key_error (get attempt p.attempts)) _ λ a at.
        Gives-bind (field "checkpoint_id" e.payload) _ λ checkpoint _.
          given (update_attempt-IsShaped p attempt a _ (found (get attempt p.attempts) at) refl h)
apply_type-IsShaped attempt_interrupted e p h =
    Gives-bind (field "attempt_id" e.payload) _ λ attempt _.
      Gives-bind (or_key_error (get attempt p.attempts)) _ λ a at.
        given (update_attempt-IsShaped p attempt a _ (found (get attempt p.attempts) at) refl h)
apply_type-IsShaped retry_scheduled e p h = Gives-bind (field "attempt_id" e.payload) _ λ attempt _.
    Gives-bind (field "task_id" e.payload) _ λ task _.
      Gives-bind (field "prior_attempt_id" e.payload) _
        λ prior _. given (put_attempt-IsShaped p attempt _ refl h)
apply_type-IsShaped result_received e p h = Gives-bind (field "attempt_id" e.payload) _ λ attempt _.
    Gives-bind (or_key_error (get attempt p.attempts)) _ λ a at.
      given (update_attempt-IsShaped p attempt a _ (found (get attempt p.attempts) at) refl h)
apply_type-IsShaped stage_advanced e p h =
    Gives-bind (field "stage" e.payload) _ (λ stage _. given (moved-IsShaped p _ refl refl h))
apply_type-IsShaped mission_completed e p h = given (moved-IsShaped p _ refl refl h)
apply_type-IsShaped _ e p h = given h

module _ (digest : EventBody → String) where
  rebuild_from-IsShaped :
      (n : ℕ) (previous : String) (es : List WorkflowEvent) (p : WorkflowProjection)
      → IsShaped p
      → Gives IsShaped (rebuild_from digest n previous es p)
  unfolding rebuild_from
  rebuild_from-IsShaped n previous [] p h = given h
  rebuild_from-IsShaped n previous (e ∷ es) p h =
      Gives-bind (check_link digest n previous e p) _ λ _ _. Gives-bind (apply e p) _ λ q applied.
        rebuild_from-IsShaped (suc n) e.event_hash es (record q { last_sequence = e.sequence })
          (moved-IsShaped q _ refl refl (of_Gives (apply_type-IsShaped e.event_type e p h) applied))

  -- Whatever events a projection is rebuilt from, its entries stand under their own ids and the
  -- active attempt of each task is one of its attempts.
  pub rebuild-IsShaped :
      (es : List WorkflowEvent) {q : WorkflowProjection} → rebuild digest es ≡ ok q → IsShaped q
  unfolding rebuild
  rebuild-IsShaped [] h = cc
  rebuild-IsShaped (e ∷ es) h =
      of_Gives
        (rebuild_from-IsShaped 1 genesis (e ∷ es) (started_from e) (record {
          attempt_keys = λ k a x. cc;
          task_keys = λ k t x. cc;
          active_known = λ k t i x f. cc;
        }))
        h
