-- ===== src/Mission/Storable.antt =====
-- src/agent_harness/mission.py: what the manager's calls keep for `snapshot` and `restore`.
use sdlc_harness.Prelude.{
  ◌+◌, String, ◌≡◌, refl, sym, subst, ap, ◌∙◌, Bool, true, false, not, some, List, [], ◌∷◌, ◌++◌,
  ◌==◌, eqb, eq_iff, if◌then◌else◌, ok, require_ok, Bool-cases, Option-cases, inl, inr, arith, All,
  length, ok-bind,
}
use sdlc_harness.Dict.{Dict, get, put, IsKeyed, put-IsKeyed, map-IsKeyed, get-IsKeyed}
use sdlc_harness.Handoff.{Handoff, ArtifactEntry, lower}
use sdlc_harness.Methodology.{GoalDefinition, StageKind, WorkflowPlan}
use sdlc_harness.Methodology.Planner.{plan}
use sdlc_harness.Mission.{
  Hashes, Mission, OutputBinding, WorkTask, AgentResult, artifacts_of, gate_denied,
}
use sdlc_harness.Mission.Bindings.{initial_output_bindings, binding}
use sdlc_harness.Mission.Manager.{
  create_mission, set_status, go_stale, steered, frozen_mission, freeze_task, approved_mission,
  released_mission,
}
use sdlc_harness.Mission.Stages.{
  bind_entries, bind_results, take_outputs, settle_task, settle_all, settled, next_stage, conflicts,
}
use sdlc_harness.Mission.Advance.{Advanced, advance-Advanced}
use sdlc_harness.Mission.Steps.{
  Step, Reached, issued, received, steers, freezes, approves, releases, advances, created, and_then,
  issue_ok, receive_ok, steer_ok, freeze_ok, approve_ok, release_ok,
}

-- each binding is under the id that it names
abbrev pub AreNamed : Dict OutputBinding → Type 0
AreNamed d = All (λ e. e.1.output_id ≡ e.0) d

-- what holds of a mission that can be saved
pub record IsStorable (m : Mission) : Type 0 where
  pub planned : m.plan ≡ plan m.goal
  pub tasks : IsKeyed (λ t. t.task_id) m.tasks
  pub bindings : AreNamed m.output_bindings

put-AreNamed :
    (k : String) (b : OutputBinding) (d : Dict OutputBinding)
    → b.output_id ≡ k
    → AreNamed d
    → AreNamed (put k b d)
put-AreNamed k b [] h a = (h, tt)
put-AreNamed k b ((j, c) ∷ d) h (here, rest) = elim (Bool-cases (j == k)) [
  | inl same ↦ rw same (h ∙ sym ((eq_iff j k).0 same), rest)
  | inr other ↦ rw other (here, put-AreNamed k b d h rest)
]

get-AreNamed :
    (k : String) (d : Dict OutputBinding) {b : OutputBinding}
    → AreNamed d
    → get k d ≡ some b
    → b.output_id ≡ k
get-AreNamed k [] a e = absurd (ground arith)
get-AreNamed k ((j, c) ∷ d) {b} (here, rest) e = elim (Bool-cases (j == k)) [
  | inl same ↦
      let made : c ≡ b = ground arith in
      ap (λ (x : OutputBinding). x.output_id) (sym made) ∙ (here ∙ (eq_iff j k).0 same)
  | inr other ↦ get-AreNamed k d {b = b} rest (ground arith)
]

initially-AreNamed :
    (b c : Bool) (h h' : String)
    → AreNamed (
        binding "goal-draft" "mission-goal" h
        ∷ ((if b then [] else binding "goal-definition" "mission-goal" h ∷ [])
            ++ (if c then [] else binding "method-decision" "workflow-plan" h' ∷ [])))
initially-AreNamed true true h h' = (refl, tt)
initially-AreNamed true false h h' = (refl, (refl, tt))
initially-AreNamed false true h h' = (refl, (refl, tt))
initially-AreNamed false false h h' = (refl, (refl, (refl, tt)))

pub initial-AreNamed :
    (hashes : Hashes) (goal : GoalDefinition) (p : WorkflowPlan)
    → AreNamed (initial_output_bindings hashes goal p)
unfolding initial_output_bindings
initial-AreNamed hashes goal p =
    initially-AreNamed _ _ (hashes.goal goal) (hashes.method p.track p.reasons)

-- The outputs of results are bound under their own ids.
bind_entries-AreNamed :
    (r : AgentResult) (entries : List ArtifactEntry) (bound : Dict OutputBinding)
    {bound' : Dict OutputBinding}
    → bind_entries r entries bound ≡ ok bound'
    → AreNamed bound
    → AreNamed bound'
unfolding bind_entries
bind_entries-AreNamed r [] bound {bound'} h a = subst AreNamed (ground arith) a
bind_entries-AreNamed r (e ∷ entries) bound h a =
    let (_, rest) =
      require_ok (not (conflicts (get e.artifact_type bound) (lower e.sha256))) gate_denied _ h in
    bind_entries-AreNamed r entries _ rest (put-AreNamed e.artifact_type _ bound refl a)

bind_results-AreNamed :
    (passing : List (String × AgentResult)) (bound : Dict OutputBinding)
    {bound' : Dict OutputBinding}
    → bind_results passing bound ≡ ok bound'
    → AreNamed bound
    → AreNamed bound'
unfolding bind_results
bind_results-AreNamed [] bound {bound'} h a = subst AreNamed (ground arith) a
bind_results-AreNamed ((role, r) ∷ rest) bound h a =
    let (mid, first, others) = ok-bind (bind_entries r (artifacts_of r) bound) _ h in
    bind_results-AreNamed rest mid others (bind_entries-AreNamed r (artifacts_of r) bound first a)

take_outputs-AreNamed :
    (ids : List String) (bound outputs : Dict OutputBinding)
    → AreNamed bound
    → AreNamed outputs
    → AreNamed (take_outputs ids bound outputs)
unfolding take_outputs
take_outputs-AreNamed [] bound outputs a b = b
take_outputs-AreNamed (id ∷ ids) bound outputs a b = elim (Option-cases (get id bound)) [
  | inl missing ↦ rw missing (take_outputs-AreNamed ids bound outputs a b)
  | inr (c, e) ↦ rw e (
      take_outputs-AreNamed ids bound (put id c outputs) a
        (put-AreNamed id c outputs (get-AreNamed id bound a e) b))
]

settle_all-IsKeyed :
    (m : Mission) (k : StageKind) (passing : List (String × AgentResult)) (tasks : Dict WorkTask)
    → IsKeyed (λ t. t.task_id) tasks
    → IsKeyed (λ t. t.task_id) (settle_all m k passing tasks)
settle_all-IsKeyed m k [] tasks h = h
settle_all-IsKeyed m k ((role, r) ∷ rest) tasks h =
    settle_all-IsKeyed m k rest _
      (map-IsKeyed (λ t. t.task_id) (settle_task m k role r) tasks (λ t. ground arith) h)

-- What each call keeps.
pub create-IsStorable :
    (hashes : Hashes) (id : String) (goal : GoalDefinition)
    → IsStorable (create_mission hashes id goal)
unfolding create_mission
create-IsStorable hashes id goal = record {
  planned = refl;
  tasks = tt;
  bindings = initial-AreNamed hashes goal (plan goal);
}

-- A task that is written under its own id.
pub put_task-IsStorable :
    (m : Mission) (k : String) (t : WorkTask) (rs : List AgentResult)
    → t.task_id ≡ k
    → IsStorable m
    → IsStorable (record m { tasks = put k t m.tasks; accepted_results = rs })
put_task-IsStorable m k t rs own s = record {
  planned = s.planned;
  tasks = put-IsKeyed (λ t. t.task_id) k t m.tasks own s.tasks;
  bindings = s.bindings;
}

pub steered-IsStorable :
    (hashes : Hashes) (m : Mission) (goal : GoalDefinition) (instruction : String)
    → IsStorable m
    → IsStorable (steered hashes m goal instruction)
steered-IsStorable hashes m goal instruction s = record {
  planned = refl;
  tasks = map-IsKeyed (λ t. t.task_id) go_stale m.tasks (λ t. ground arith) s.tasks;
  bindings = initial-AreNamed hashes goal (plan goal);
}

pub frozen-IsStorable :
    (m : Mission) (c d : String) → IsStorable m → IsStorable (frozen_mission m c d)
frozen-IsStorable m c d s = record {
  planned = s.planned;
  tasks = map-IsKeyed (λ t. t.task_id) (freeze_task m c) m.tasks (λ t. ground arith) s.tasks;
  bindings = put-AreNamed "frozen-candidate" _ m.output_bindings refl s.bindings;
}

pub approved-IsStorable :
    (hashes : Hashes) (m : Mission) (c r : String)
    → IsStorable m
    → IsStorable (approved_mission hashes m c r)
approved-IsStorable hashes m c r s = record {
  planned = s.planned;
  tasks = s.tasks;
  bindings =
      put-AreNamed "gate-decision" _ _ refl
        (put-AreNamed "approved-candidate" _ m.output_bindings refl s.bindings);
}

pub released-IsStorable :
    (m : Mission) (d r : String) → IsStorable m → IsStorable (released_mission m d r)
released-IsStorable m d r s = record {
  planned = s.planned;
  tasks = s.tasks;
  bindings = put-AreNamed "release-package" _ m.output_bindings refl s.bindings;
}

next-IsStorable : (m : Mission) → IsStorable m → IsStorable (next_stage m)
next-IsStorable m s = elim (Bool-cases (eqb (m.current_stage_index + 1) (length m.plan.stages))) [
  | inl at_last ↦
      rw at_last (record { planned = s.planned; tasks = s.tasks; bindings = s.bindings })
  | inr more ↦ rw more (record { planned = s.planned; tasks = s.tasks; bindings = s.bindings })
]

advance-IsStorable : (m : Mission) {m' : Mission} → Advanced m m' → IsStorable m → IsStorable m'
advance-IsStorable m a s = subst IsStorable (sym a.next) (
    next-IsStorable (settled m a.here a.passing a.bound) (record {
      planned = s.planned;
      tasks = settle_all-IsKeyed m a.here.kind a.passing m.tasks s.tasks;
      bindings =
          take_outputs-AreNamed a.here.required_outputs a.bound m.output_bindings
            (bind_results-AreNamed a.passing [] a.binds tt) s.bindings;
    }))

module _ (hashes : Hashes) (schema_valid : Handoff → Bool) where
  Step-IsStorable : {m m' : Mission} → Step hashes schema_valid m m' → IsStorable m → IsStorable m'
  Step-IsStorable {m} (issued stage role c task attempt t m' h) s =
      subst IsStorable (sym (issue_ok m stage role c task attempt h))
        (put_task-IsStorable m t.task_id t m.accepted_results refl s)
  Step-IsStorable {m} (received disk inbox inbox' r d m' h) s =
      elim (receive_ok hashes schema_valid disk m inbox r h) [
        | inl same ↦ subst IsStorable (sym same) s
        | inr (t, k, e) ↦ subst IsStorable (sym e) (
            put_task-IsStorable m r.task_id (set_status "result-received" t) _
              (get-IsKeyed (λ t. t.task_id) r.task_id m.tasks s.tasks k.known) s)
      ]
  Step-IsStorable {m} (steers goal instruction m' h) s =
      subst IsStorable (sym (steer_ok hashes m goal instruction h))
        (steered-IsStorable hashes m goal instruction s)
  Step-IsStorable {m} (freezes c digest m' h) s =
      let (_, _, _, e) = freeze_ok m c digest h in
      subst IsStorable (sym e) (frozen-IsStorable m c digest s)
  Step-IsStorable {m} (approves c reference m' h) s =
      let (_, e) = approve_ok hashes m c reference h in
      subst IsStorable (sym e) (approved-IsStorable hashes m c reference s)
  Step-IsStorable {m} (releases c digest reference m' h) s =
      let (_, _, e) = release_ok m c digest reference h in
      subst IsStorable (sym e) (released-IsStorable m digest reference s)
  Step-IsStorable {m} (advances m' h) s = advance-IsStorable m (advance-Advanced m h) s

  pub Reached-IsStorable : (m : Mission) → Reached hashes schema_valid m → IsStorable m
  Reached-IsStorable _ (created id goal) = create-IsStorable hashes id goal
  Reached-IsStorable _ (and_then m m' r step) = Step-IsStorable step (Reached-IsStorable m r)
