-- ===== src/Mission/RoundTrip.antt =====
-- A mission that is saved in a snapshot is restored from it.
use sdlc_harness.Prelude.{
  String, ◌≡◌, refl, sym, ap, ◌∙◌, Bool, true, false, some, List, [], ◌∷◌, ◌++◌, append-nil,
  append_assoc, ◌==◌, map, Result, ok, All, arith, contains, eq_iff,
}
use sdlc_harness.Dict.{Dict, put, keys, IsKeyed, put-new}
use sdlc_harness.Sets.{sort_items, All-sort_items}
use sdlc_harness.Handoff.{Disk, Handoff, FilePath}
use sdlc_harness.Methodology.{
  GoalDefinition, KnowledgeStatus, confirmed, inferred, unverified, conflict, StageKind,
  stage_value, scope_risk, goal_discovery, method_discovery, requirements, oracle, design,
  implementation, integration_verification, validation, release,
}
use sdlc_harness.Mission.{
  OutputKind, OutputBinding, Hashes, WorkTask, AgentResult, Mission, MissionError, structured,
  artifact, candidate, policy_decision, release_artifact,
}
use sdlc_harness.Mission.Storable.{IsStorable}
use sdlc_harness.Mission.Results.{has_valid_hash, has_valid_handoff}
use sdlc_harness.Mission.Snapshot.{
  status_value, read_status, kind_value, read_kind, read_stage, save_goal, save_task, save_binding,
  save_result, snapshot,
}
use sdlc_harness.Mission.Restore.{
  each, restore_status, restore_goal, restore_bindings, restore_task, restore_tasks, read_result,
  restore_result, restore,
}

-- The text of a member is read as the member.
read_status_value : (s : KnowledgeStatus) → read_status (status_value s) ≡ some s
read_status_value confirmed = refl
read_status_value inferred = refl
read_status_value unverified = refl
read_status_value conflict = refl

read_kind_value : (k : OutputKind) → read_kind (kind_value k) ≡ some k
read_kind_value structured = refl
read_kind_value artifact = refl
read_kind_value candidate = refl
read_kind_value policy_decision = refl
read_kind_value release_artifact = refl

read_stage_value : (k : StageKind) → read_stage (stage_value k) ≡ some k
unfolding read_stage stage_value
read_stage_value scope_risk = refl
read_stage_value goal_discovery = refl
read_stage_value method_discovery = refl
read_stage_value requirements = refl
read_stage_value oracle = refl
read_stage_value design = refl
read_stage_value implementation = refl
read_stage_value integration_verification = refl
read_stage_value validation = refl
read_stage_value release = refl

-- A loop over what was written from a list reads the list, if each element is read.
each-map :
    {A B : Type 0} (save : A → B) (load : B → Result MissionError A) (xs : List A)
    → All (λ x. load (save x) ≡ ok x) xs
    → each load (map save xs) ≡ ok xs
each-map save load [] h = refl
each-map save load (x ∷ xs) (here, rest) = rw (here, each-map save load xs rest) refl

All-of {κ} : {A : Type 0} {P : A → Type κ} (xs : List A) → ((x : A) → P x) → All P xs
All-of [] h = tt
All-of (x ∷ xs) h = (h x, All-of xs h)

restore_goal-save_goal : (g : GoalDefinition) → restore_goal (save_goal g) ≡ ok g
unfolding restore_goal
restore_goal-save_goal g =
    rw
      (each-map (λ e. (e.0, status_value e.1)) restore_status g.field_status
        (All-of g.field_status (λ e. rw read_status_value refl)))
      refl

restore_task-save_task : (t : WorkTask) → restore_task (save_task t) ≡ ok t
unfolding restore_task
restore_task-save_task t = rw read_stage_value refl

-- the bindings as the values of a list of entries
restore_bindings-save_binding :
    (hashes : Hashes) (goal : GoalDefinition) (d : Dict OutputBinding)
    → All (λ e. e.1.output_id ≡ e.0) d
    → restore_bindings hashes goal (some (map (λ e. (e.0, save_binding e.1)) d)) ≡ ok d
unfolding restore_bindings
restore_bindings-save_binding hashes goal [] h = refl
restore_bindings-save_binding hashes goal ((k, b) ∷ d) (named, rest) =
    rw (read_kind_value, restore_bindings-save_binding hashes goal d rest, ← named) refl

contains-keys_append :
    (x k : String) (t : WorkTask) (d : Dict WorkTask)
    → contains x (keys d) ≡ false
    → (k == x) ≡ false
    → contains x (keys (d ++ (k, t) ∷ [])) ≡ false
contains-keys_append x k t [] h n = ground arith
contains-keys_append x k t ((j, u) ∷ d) h n = ground (arith, contains-keys_append x k t d)

-- Keys that were new before another key was added are new after it.
still_new :
    (k : String) (t : WorkTask) (before tasks : Dict WorkTask)
    → contains k (keys tasks) ≡ false
    → All (λ e. contains e.0 (keys before) ≡ false) tasks
    → All (λ e. contains e.0 (keys (before ++ (k, t) ∷ [])) ≡ false) tasks
still_new k t before [] other h = tt
still_new k t before ((j, u) ∷ tasks) other (new, news) = (
  contains-keys_append j k t before new (ground (arith, eq_iff j k, eq_iff k j)),
  still_new k t before tasks (ground arith) news,
)

restore_tasks-save_task :
    (tasks before : Dict WorkTask)
    → IsKeyed (λ t. t.task_id) tasks
    → All (λ e. contains e.0 (keys before) ≡ false) tasks
    → restore_tasks (map (λ e. save_task e.1) tasks) before ≡ ok (before ++ tasks)
unfolding restore_tasks
restore_tasks-save_task [] before h new = ap ok (sym (append-nil before))
restore_tasks-save_task ((k, t) ∷ tasks) before (named, other, rest) (new, news) =
    let later = map (λ e. save_task e.1) tasks in
    rw restore_task-save_task (
      ap (λ j. restore_tasks later (put j t before)) named
      ∙ ap (λ d. restore_tasks later d) (put-new k t before new)
      ∙ restore_tasks-save_task tasks (before ++ (k, t) ∷ []) rest
          (still_new k t before tasks other news)
      ∙ ap ok (append_assoc before ((k, t) ∷ []) tasks))

module _ (hashes : Hashes) (schema_valid : Handoff → Bool) (disk : Disk)
    (path_text : FilePath → String) (path_of : String → FilePath) where
  -- a result that `restore` accepts: its hash and its handoff are valid, and its root is read back
  pub record Verifies (r : AgentResult) : Type 0 where
    pub hash : has_valid_hash hashes r ≡ true
    pub handoff : has_valid_handoff schema_valid disk r ≡ true
    pub root : path_of (path_text r.artifact_root) ≡ r.artifact_root

  restore_result-save_result :
      (r : AgentResult)
      → Verifies r
      → restore_result hashes schema_valid disk path_of (save_result path_text r) ≡ ok r
  unfolding restore_result read_result
  restore_result-save_result r v = rw (read_stage_value, v.root, v.hash, v.handoff) refl

  restore_results-save_result :
      (rs : List AgentResult)
      → All Verifies rs
      → each (restore_result hashes schema_valid disk path_of) (map (save_result path_text) rs)
        ≡ ok rs
  restore_results-save_result [] h = refl
  restore_results-save_result (r ∷ rs) (v, vs) =
      rw (restore_result-save_result r v, restore_results-save_result rs vs) refl

  pub restore-snapshot :
      (m : Mission)
      → IsStorable m
      → All Verifies m.accepted_results
      → restore hashes schema_valid disk path_of (snapshot path_text m)
        ≡ ok (record m { output_bindings = sort_items m.output_bindings })
  unfolding restore snapshot
  restore-snapshot m s v =
      rw
        (
          restore_goal-save_goal,
          restore_bindings-save_binding hashes m.goal (sort_items m.output_bindings)
              (All-sort_items (λ e. e.1.output_id ≡ e.0) m.output_bindings s.bindings),
          restore_tasks-save_task m.tasks [] s.tasks (All-of m.tasks (λ e. refl)),
          restore_results-save_result m.accepted_results v,
          ← s.planned,
        )
        refl
