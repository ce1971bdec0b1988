-- ===== src/Workflow/Projection/Tests.antt =====
-- The projection, rebuilt from the events of a small mission.
use sdlc_harness.Prelude.{
  String, ◌≡◌, ◌≢◌, refl, true, false, none, some, [], ◌∷◌, ok, ◌>>=◌, length, eq_iff, arith,
}
use sdlc_harness.Dict.{get}
use sdlc_harness.Workflow.{
  WorkflowEvent, attempt_started, retry_scheduled, genesis, sealed, draft_body, chain_valid,
}
use sdlc_harness.Workflow.Tests.{digest, first, second}
use sdlc_harness.Workflow.Projection.{
  WorkflowProjection, key_error, rebuild, rebuild_from, apply_type, check_link,
}
use sdlc_harness.Workflow.Projection.Replay.{SameMission, rebuild-chain, rebuild-err}
use sdlc_harness.Workflow.Projection.Shape.{IsShaped, rebuild-IsShaped}
use sdlc_harness.Workflow.Projection.Retry.{retry_resumes}

abbrev issued_task : WorkflowProjection
issued_task = record {
  mission_id = "m-1";
  revision = 1;
  current_stage = some "SCOPE_RISK";
  completed = false;
  tasks = ("t-1", record { task_id = "t-1"; role = "risk-analyst"; active_attempt_id = none }) ∷ [];
  attempts = [];
  last_sequence = 2;
}

rebuild-chain_example :
    (chain_valid digest 1 genesis (first ∷ second ∷ []) ≡ true)
    × SameMission issued_task.mission_id (first ∷ second ∷ [])
    × (issued_task.last_sequence ≡ length (first ∷ second ∷ []))
unfolding rebuild rebuild_from check_link apply_type
rebuild-chain_example = rebuild-chain digest (first ∷ second ∷ []) {q = issued_task} refl

abbrev orphan : WorkflowEvent
orphan = sealed digest (
    draft_body
      (record {
        command_id = "c-1";
        mission_id = "m-1";
        revision = 1;
        event_type = attempt_started;
        payload = ("task_id", some "t-1") ∷ ("attempt_id", some "a-1") ∷ [];
      })
      "e-1" "10:00" none)

rebuild-err_example : key_error ≡ key_error
unfolding rebuild rebuild_from check_link apply_type chain_valid
rebuild-err_example = rebuild-err digest orphan [] {x = key_error} refl tt refl

rebuild-IsShaped_example : IsShaped issued_task
unfolding rebuild rebuild_from check_link apply_type
rebuild-IsShaped_example = rebuild-IsShaped digest (first ∷ second ∷ []) {q = issued_task} refl

abbrev retry : WorkflowEvent
retry = sealed digest (
    draft_body
      (record {
        command_id = "c-5";
        mission_id = "m-1";
        revision = 1;
        event_type = retry_scheduled;
        payload =
            ("task_id", some "t-1")
            ∷ ("attempt_id", some "a-2")
            ∷ ("prior_attempt_id", some "a-1")
            ∷ [];
      })
      "e-5" "10:05" none)

abbrev restart : WorkflowEvent
restart = sealed digest (
    draft_body
      (record {
        command_id = "c-6";
        mission_id = "m-1";
        revision = 1;
        event_type = attempt_started;
        payload = ("task_id", some "t-1") ∷ ("attempt_id", some "a-2") ∷ [];
      })
      "e-6" "10:06" (some retry))

abbrev first_try : WorkflowProjection
first_try = record issued_task {
  attempts =
      (
        "a-1",
        record {
          attempt_id = "a-1";
          task_id = "t-1";
          status = "interrupted";
          checkpoint_ids = "k-1" ∷ [];
          retry_of = none;
        },
      )
      ∷ [];
}

a1_a2 : ◌≢◌ {A = String} "a-1" "a-2"
a1_a2 e = ground (arith, (eq_iff "a-1" "a-2").1 e)

retry_resumes_example :
    (q : WorkflowProjection) × ((apply_type retry_scheduled retry first_try
        >>= apply_type attempt_started restart)
      ≡ ok q)
    × (get "a-2" q.attempts
        ≡ some (record {
          attempt_id = "a-2";
          task_id = "t-1";
          status = "running";
          checkpoint_ids = [];
          retry_of = some "a-1";
        }))
    × (get "t-1" q.tasks
        ≡ some (record { task_id = "t-1"; role = "risk-analyst"; active_attempt_id = some "a-2" }))
    × (get "a-1" q.attempts ≡ get "a-1" first_try.attempts)
retry_resumes_example =
    retry_resumes retry restart first_try "t-1" "a-2" "a-1" "a-1"
      (record { task_id = "t-1"; role = "risk-analyst"; active_attempt_id = none }) refl refl refl
      refl refl refl a1_a2
