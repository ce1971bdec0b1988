-- ===== src/Policy/Stages.antt =====
-- The operations that the manager performs and the engine reports: advancing, steering, results
-- and decisions.
use sdlc_harness.Prelude.{
  ◌+◌, String, ◌≡◌, refl, sym, subst, ◌∙◌, true, false, none, some, List, [], ◌∷◌, ok, Bool-cases,
  Option-cases, inl, inr, arith, eqb, length,
}
use sdlc_harness.Dict.{Dict}
use sdlc_harness.Methodology.{StageKind, StagePlan, stage_value}
use sdlc_harness.Mission.{Mission, WorkTask, AgentResult, stage_here}
use sdlc_harness.Mission.Manager.{set_status, go_stale, freeze_task}
use sdlc_harness.Mission.Stages.{settle_all, settle_task, settled, next_stage}
use sdlc_harness.Mission.Stages as Stages
use sdlc_harness.Mission.Advance.{Advanced, advance-Advanced}
use sdlc_harness.Workflow.{
  EventBody, WorkflowEvent, Payload, find_command, stage_advanced, mission_completed,
}
use sdlc_harness.Workflow.Projection.{WorkflowProjection, apply_type}
use sdlc_harness.Policy.{Stamp, emit}
use sdlc_harness.Policy.Engine.{event, advance_if_ready}
use sdlc_harness.Policy.Follows.{Follows, emit-Follows, give_ok, managed_ok}
use sdlc_harness.Policy.Agrees.{Agrees, SameTasks, shown, on_tasks-SameTasks}
use sdlc_harness.Policy.Refines.{Tracks}

set_status-shown :
    (s : String) (t : WorkTask)
    → (shown (set_status s t) ≡ shown t)
      × ((set_status s t).attempt_id ≡ t.attempt_id)
      × ((set_status s t).task_id ≡ t.task_id)
set_status-shown s t = (refl, refl, refl)

settle_task-shown :
    (m : Mission) (k : StageKind) (role : String) (r : AgentResult) (t : WorkTask)
    → (shown (settle_task m k role r t) ≡ shown t)
      × ((settle_task m k role r t).attempt_id ≡ t.attempt_id)
      × ((settle_task m k role r t).task_id ≡ t.task_id)
settle_task-shown m k role r t = (ground arith, ground arith, ground arith)

settle_all-SameTasks :
    (m : Mission) (k : StageKind) (passing : List (String × AgentResult)) (tasks : Dict WorkTask)
    (p : WorkflowProjection)
    → SameTasks tasks p
    → SameTasks (settle_all m k passing tasks) p
settle_all-SameTasks m k [] tasks p s = s
settle_all-SameTasks m k ((role, r) ∷ rest) tasks p s =
    settle_all-SameTasks m k rest _ p
      (on_tasks-SameTasks (settle_task m k role r) tasks p (settle_task-shown m k role r) s)

pub go_stale-shown :
    (t : WorkTask)
    → (shown (go_stale t) ≡ shown t)
      × ((go_stale t).attempt_id ≡ t.attempt_id)
      × ((go_stale t).task_id ≡ t.task_id)
go_stale-shown t = (ground arith, ground arith, ground arith)

pub freeze_task-shown :
    (m : Mission) (c : String) (t : WorkTask)
    → (shown (freeze_task m c t) ≡ shown t)
      × ((freeze_task m c t).attempt_id ≡ t.attempt_id)
      × ((freeze_task m c t).task_id ≡ t.task_id)
freeze_task-shown m c t = (ground arith, ground arith, ground arith)

-- what the step to the next stage leaves
record Stepped (m m' : Mission) : Type 0 where
  same_id : m'.mission_id ≡ m.mission_id
  same_revision : m'.revision ≡ m.revision
  going : m.completed ≡ false
  keeps : (p : WorkflowProjection) → SameTasks m.tasks p → SameTasks m'.tasks p

Advanced-Stepped : (m m' : Mission) → Advanced m m' → Stepped m m'
Advanced-Stepped m m' a =
    subst (Stepped m) (sym a.next)
      (elim (Bool-cases (eqb (m.current_stage_index + 1) (length m.plan.stages))) [
        | inl at_last ↦ rw at_last (record {
          same_id = refl;
          same_revision = refl;
          going = ground (arith, a.going);
          keeps = settle_all-SameTasks m a.here.kind a.passing m.tasks;
        })
        | inr more ↦ rw more (record {
          same_id = refl;
          same_revision = refl;
          going = ground (arith, a.going);
          keeps = settle_all-SameTasks m a.here.kind a.passing m.tasks;
        })
      ])

module _ (digest : EventBody → String) (canonical_json : Payload → String) where
  pub renamed :
      {P : WorkflowProjection → Type 0} {a b : String} (rows : List WorkflowEvent)
      → b ≡ a
      → Follows digest canonical_json P a rows
      → Follows digest canonical_json P b rows
  renamed {P} rows same f = subst (λ x. Follows digest canonical_json P x rows) (sym same) f

  completed_tracked :
      (m m' : Mission) (command_id : String) (s : Stamp) (rows : List WorkflowEvent)
      {e : WorkflowEvent} {rows' : List WorkflowEvent}
      → Stepped m m'
      → m'.completed ≡ true
      → emit digest canonical_json (event m' mission_completed [] command_id) s rows ≡ (ok e, rows')
      → find_command command_id rows ≡ none
      → Tracks digest canonical_json m rows
      → Tracks digest canonical_json m' rows'
  unfolding apply_type
  completed_tracked m m' command_id s rows st over h new before =
      emit-Follows digest canonical_json (Agrees m) (Agrees m')
        (event m' mission_completed [] command_id) s rows h new
        (λ p a. (
          _,
          refl,
          refl,
          record {
            revision = a.revision ∙ sym st.same_revision;
            stage = rw over refl;
            completed = sym over;
            tasks =
                let k = st.keeps p a.tasks in
                record { same = k.same; attempts = k.attempts; own = k.own };
          },
        ))
        (renamed rows st.same_id before)

  staged_tracked :
      (m m' : Mission) (here : StagePlan) (command_id : String) (s : Stamp)
      (rows : List WorkflowEvent) {e : WorkflowEvent} {rows' : List WorkflowEvent}
      → Stepped m m'
      → m'.completed ≡ false
      → stage_here m' ≡ some here
      → emit digest canonical_json
          (event m' stage_advanced (("stage", some (stage_value here.kind)) ∷ []) command_id)
          s
          rows
        ≡ (ok e, rows')
      → find_command command_id rows ≡ none
      → Tracks digest canonical_json m rows
      → Tracks digest canonical_json m' rows'
  unfolding apply_type
  staged_tracked m m' here command_id s rows st on at h new before =
      emit-Follows digest canonical_json (Agrees m) (Agrees m')
        (event m' stage_advanced (("stage", some (stage_value here.kind)) ∷ []) command_id) s rows h
        new
        (λ p a. (
          _,
          refl,
          refl,
          record {
            revision = a.revision ∙ sym st.same_revision;
            stage = rw (on, at) refl;
            completed = a.completed ∙ (st.going ∙ sym on);
            tasks =
                let k = st.keeps p a.tasks in
                record { same = k.same; attempts = k.attempts; own = k.own };
          },
        ))
        (renamed rows st.same_id before)

  pub advance_tracked :
      (m : Mission) (command_id : String) (s : Stamp) (rows : List WorkflowEvent) {m' : Mission}
      {rows' : List WorkflowEvent}
      → advance_if_ready digest canonical_json m command_id s rows ≡ (ok m', rows')
      → find_command command_id rows ≡ none
      → Tracks digest canonical_json m rows
      → Tracks digest canonical_json m' rows'
  unfolding advance_if_ready
  advance_tracked m command_id s rows {m'} {rows'} h new before =
      let (after, moves, a) = managed_ok (Stages.advance_if_ready m) _ rows h in
      let st = Advanced-Stepped m after (advance-Advanced m moves) in
      elim (Bool-cases after.completed) [
        | inl over ↦
            let (e, done, same) =
              give_ok
                (emit digest canonical_json (event after mission_completed [] command_id) s rows)
                after (rw over at a) in
            subst (λ x. Tracks digest canonical_json x rows') same
              (completed_tracked m after command_id s rows st over done new before)
        | inr on ↦ elim (Option-cases (stage_here after)) [
          | inl nowhere ↦ absurd (ground (arith, rw (on, nowhere) at a))
          | inr (here, at) ↦
              let (e, done, same) =
                give_ok
                  (emit digest canonical_json
                    (event after stage_advanced (("stage", some (stage_value here.kind)) ∷ [])
                      command_id)
                    s rows)
                  after (rw (on, at) at a) in
              subst (λ x. Tracks digest canonical_json x rows') same
                (staged_tracked m after here command_id s rows st on at done new before)
        ]
      ]
