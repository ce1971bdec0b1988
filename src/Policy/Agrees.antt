-- ===== src/Policy/Agrees.antt =====
-- When the projection agrees with the mission, and what keeps it so.
use sdlc_harness.Prelude.{
  String, ◌≡◌, refl, sym, subst, ap, ◌∙◌, true, false, Option, none, some, [], ◌∷◌, ◌==◌, eq_iff,
  Bool-cases, Option-cases, inl, inr, arith, if◌then◌else◌, is_some,
}
use sdlc_harness.Dict.{Dict, get, put, get-put}
use sdlc_harness.Methodology.{stage_value}
use sdlc_harness.Mission.{Mission, WorkTask, stage_here}
use sdlc_harness.Mission.Manager.{on_tasks}
use sdlc_harness.Workflow.Projection.{WorkflowProjection, TaskProjection, AttemptProjection}

-- a task as the projection shows it
abbrev pub shown : WorkTask → TaskProjection
shown t = record {
  task_id = t.task_id;
  role = t.assignee_role;
  active_attempt_id = some t.attempt_id;
}

abbrev pub shown? : Option WorkTask → Option TaskProjection
shown? none = none
shown? (some t) = some (shown t)

abbrev pub expected_stage : Mission → Option String
expected_stage m =
    if m.completed
    then none
    else elim (stage_here m) [ none ↦ none | some s ↦ some (stage_value s.kind) ]

-- The tasks of the projection are those of the mission, each with its role and its attempt.
pub record SameTasks (tasks : Dict WorkTask) (p : WorkflowProjection) : Type 0 where
  pub same : (k : String) → get k p.tasks ≡ shown? (get k tasks)
  pub attempts :
      (k : String) (t : WorkTask)
      → get k tasks ≡ some t
      → is_some (get t.attempt_id p.attempts) ≡ true
  pub own : (k : String) (t : WorkTask) → get k tasks ≡ some t → t.task_id ≡ k

pub record Agrees (m : Mission) (p : WorkflowProjection) : Type 0 where
  pub revision : p.revision ≡ m.revision
  pub stage : p.current_stage ≡ expected_stage m
  pub completed : p.completed ≡ m.completed
  pub tasks : SameTasks m.tasks p

-- Changes to the tasks that the projection does not show leave it in agreement.
get-on_tasks :
    (f : WorkTask → WorkTask) (k : String) (tasks : Dict WorkTask)
    → get k (on_tasks f tasks) ≡ elim (get k tasks) [ none ↦ none | some t ↦ some (f t) ]
get-on_tasks f k [] = refl
get-on_tasks f k ((j, t) ∷ tasks) = elim (Bool-cases (j == k)) [
  | inl same ↦ rw same refl
  | inr other ↦ rw other (get-on_tasks f k tasks)
]

pub on_tasks-SameTasks :
    (f : WorkTask → WorkTask) (tasks : Dict WorkTask) (p : WorkflowProjection)
    → ((t : WorkTask)
        → (shown (f t) ≡ shown t) × ((f t).attempt_id ≡ t.attempt_id) × ((f t).task_id ≡ t.task_id))
    → SameTasks tasks p
    → SameTasks (on_tasks f tasks) p
on_tasks-SameTasks f tasks p same s = record {
  same = λ k. elim (Option-cases (get k tasks)) [
    | inl e ↦ rw (get-on_tasks, e) (s.same k ∙ rw e refl)
    | inr (t, e) ↦ rw (get-on_tasks, e) (s.same k ∙ rw e (ap some (sym (same t).0)))
  ];
  attempts = λ k t e. elim (Option-cases (get k tasks)) [
    | inl n ↦ absurd (ground (arith, get-on_tasks f k tasks))
    | inr (u, found) ↦
        let made : t ≡ f u = ground (arith, get-on_tasks f k tasks) in
        let attempt : t.attempt_id ≡ u.attempt_id =
          ap (λ (x : WorkTask). x.attempt_id) made ∙ (same u).1 in
        subst (λ x. is_some (get x p.attempts) ≡ true) (sym attempt) (s.attempts k u found)
  ];
  own = λ k t e. elim (Option-cases (get k tasks)) [
    | inl n ↦ absurd (ground (arith, get-on_tasks f k tasks))
    | inr (u, found) ↦
        let made : t ≡ f u = ground (arith, get-on_tasks f k tasks) in
        ap (λ (x : WorkTask). x.task_id) made ∙ ((same u).2 ∙ s.own k u found)
  ];
}

-- A task that is written over itself, for the projection the same.
pub put-SameTasks :
    (k : String) (t t' : WorkTask) (tasks : Dict WorkTask) (p : WorkflowProjection)
    → get k tasks ≡ some t
    → shown t' ≡ shown t
    → t'.attempt_id ≡ t.attempt_id
    → t'.task_id ≡ t.task_id
    → SameTasks tasks p
    → SameTasks (put k t' tasks) p
put-SameTasks k t t' tasks p found same attempt id s = record {
  same = λ j. elim (Bool-cases (k == j)) [
    | inr other ↦ rw (get-put, other) (s.same j)
    | inl here ↦
        let e = (eq_iff k j).0 here in
        rw (get-put, here)
          (s.same j
            ∙ subst (λ x. shown? (get x tasks) ≡ some (shown t')) e (rw found (ap some (sym same))))
  ];
  attempts = λ j u e. elim (Bool-cases (k == j)) [
    | inr other ↦ s.attempts j u (ground (arith, get-put k j t' tasks))
    | inl here ↦
        let made : u ≡ t' = ground (arith, get-put k j t' tasks) in
        let same_attempt : u.attempt_id ≡ t.attempt_id =
          ap (λ (x : WorkTask). x.attempt_id) made ∙ attempt in
        subst (λ x. is_some (get x p.attempts) ≡ true) (sym same_attempt) (s.attempts k t found)
  ];
  own = λ j u e. elim (Bool-cases (k == j)) [
    | inr other ↦ s.own j u (ground (arith, get-put k j t' tasks))
    | inl here ↦
        let made : u ≡ t' = ground (arith, get-put k j t' tasks) in
        ap (λ (x : WorkTask). x.task_id) made ∙ (id ∙ (s.own k t found ∙ (eq_iff k j).0 here))
  ];
}

abbrev with_active : String → TaskProjection → TaskProjection
with_active a t = record { task_id = t.task_id; role = t.role; active_attempt_id = some a }

-- The start of a task's attempt: the mission's task and the projection's are written.
pub started-SameTasks :
    (k : String) (t : WorkTask) (a : AttemptProjection) (tasks : Dict WorkTask)
    (p q : WorkflowProjection)
    → t.task_id ≡ k
    → ((j : String) → get j q.tasks ≡ (if k == j then some (shown t) else get j p.tasks))
    → ((j : String) → get j q.attempts ≡ (if t.attempt_id == j then some a else get j p.attempts))
    → ((j : String) → (k == j) ≡ false → get j p.tasks ≡ shown? (get j tasks))
    → ((j : String) (u : WorkTask)
        → get j tasks ≡ some u
        → is_some (get u.attempt_id p.attempts) ≡ true)
    → ((j : String) (u : WorkTask) → get j tasks ≡ some u → u.task_id ≡ j)
    → SameTasks (put k t tasks) q
started-SameTasks k t a tasks p q id qt qa same attempts own = record {
  same = λ j. elim (Bool-cases (k == j)) [
    | inr other ↦ rw (get-put, other) (qt j ∙ rw other (same j other))
    | inl here ↦ rw (get-put, here) (qt j ∙ rw here refl)
  ];
  attempts = λ j u e. rw qa (elim (Bool-cases (t.attempt_id == u.attempt_id)) [
    | inl new ↦ rw new refl
    | inr old ↦ rw old (elim (Bool-cases (k == j)) [
      | inr other ↦ attempts j u (ground (arith, get-put k j t tasks))
      | inl here ↦
          let made : u ≡ t = ground (arith, get-put k j t tasks) in
          let attempt = ap (λ (x : WorkTask). x.attempt_id) made in
          absurd (ground (arith, (eq_iff t.attempt_id u.attempt_id).1 (sym attempt)))
    ])
  ]);
  own = λ j u e. elim (Bool-cases (k == j)) [
    | inr other ↦ own j u (ground (arith, get-put k j t tasks))
    | inl here ↦
        let made : u ≡ t = ground (arith, get-put k j t tasks) in
        ap (λ (x : WorkTask). x.task_id) made ∙ (id ∙ (eq_iff k j).0 here)
  ];
}
