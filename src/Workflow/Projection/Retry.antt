-- ===== src/Workflow/Projection/Retry.antt =====
-- A retry: RETRY_SCHEDULED followed by ATTEMPT_STARTED of the new attempt.
use sdlc_harness.Prelude.{String, ◌≡◌, ◌≢◌, some, [], arith, ok, ◌>>=◌, eq_iff}
use sdlc_harness.Dict.{get, get-put, get-put_self}
use sdlc_harness.Workflow.{WorkflowEvent, attempt_started, retry_scheduled}
use sdlc_harness.Workflow.Projection.{
  WorkflowProjection, AttemptProjection, TaskProjection, apply_type, field, put_attempt,
  start_attempt, started,
}

abbrev retrying : String → String → String → AttemptProjection
retrying task attempt prior = record {
  attempt_id = attempt;
  task_id = task;
  status = "scheduled";
  checkpoint_ids = [];
  retry_of = some prior;
}

abbrev scheduled : WorkflowProjection → String → String → String → WorkflowProjection
scheduled p task attempt prior = put_attempt p attempt (retrying task attempt prior)

-- After a retry of a known task is scheduled and started, the new attempt runs with no
-- checkpoints and names the attempt that it retries, the task's active attempt is the new one,
-- and every other attempt is as it was.
pub retry_resumes :
    (e f : WorkflowEvent) (p : WorkflowProjection) (task attempt prior other : String)
    (t : TaskProjection)
    → field "task_id" e.payload ≡ ok task
    → field "attempt_id" e.payload ≡ ok attempt
    → field "prior_attempt_id" e.payload ≡ ok prior
    → field "task_id" f.payload ≡ ok task
    → field "attempt_id" f.payload ≡ ok attempt
    → get task p.tasks ≡ some t
    → other ≢ attempt
    → (q : WorkflowProjection) × ((apply_type retry_scheduled e p >>= apply_type attempt_started f)
        ≡ ok q)
      × (get attempt q.attempts
          ≡ some (record {
            attempt_id = attempt;
            task_id = task;
            status = "running";
            checkpoint_ids = [];
            retry_of = some prior;
          }))
      × (get task q.tasks
          ≡ some (record { task_id = t.task_id; role = t.role; active_attempt_id = some attempt }))
      × (get other q.attempts ≡ get other p.attempts)
unfolding apply_type
retry_resumes e f p task attempt prior other t a b c d g known ne =
    let s = scheduled p task attempt prior in
    (
      start_attempt s task attempt t,
      rw (b, a, c, d, g, known),
      rw (get-put_self attempt (started s task attempt) s.attempts)
          (rw (get-put_self attempt (retrying task attempt prior) p.attempts)),
      get-put_self task _ p.tasks,
      ground (
        arith,
        eq_iff attempt other,
        get-put attempt other (started s task attempt) s.attempts,
        get-put attempt other (retrying task attempt prior) p.attempts,
      ),
    )
