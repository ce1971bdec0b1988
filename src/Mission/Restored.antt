-- ===== src/Mission/Restored.antt =====
-- src/agent_harness/mission.py: what `restore` makes of any snapshot, and of one of its own.
use sdlc_harness.Prelude.{
  String, ◌≡◌, refl, subst, Bool, true, false, ◌&&◌, Option, none, some, List, [], ◌∷◌, Result, ok,
  ◌>>=◌, require_ok, ok-bind, All, arith,
}
use sdlc_harness.Dict.{Dict, put, get, IsKeyed, put-IsKeyed}
use sdlc_harness.Sets.{sort_items, get-sort_items}
use sdlc_harness.Handoff.{Disk, Handoff, FilePath}
use sdlc_harness.Methodology.{GoalDefinition}
use sdlc_harness.Methodology.Planner.{plan}
use sdlc_harness.Mission.{
  Hashes, WorkTask, AgentResult, Mission, MissionError, OutputBinding, value_error,
}
use sdlc_harness.Mission.Results.{has_valid_hash, has_valid_handoff}
use sdlc_harness.Mission.Manager.{found_ok}
use sdlc_harness.Mission.Storable.{IsStorable, AreNamed, initial-AreNamed, Reached-IsStorable}
use sdlc_harness.Mission.Steps.{Reached}
use sdlc_harness.Mission.Snapshot.{
  RawBinding, RawTask, RawResult, MissionSnapshot, or_value_error, or_else, read_kind, snapshot,
}
use sdlc_harness.Mission.Restore.{
  each, restore_goal, restore_binding, restore_bindings, restore_task, restore_tasks, read_result,
  restore_result, restore, is_format_1,
}
use sdlc_harness.Mission.RoundTrip.{Verifies, restore-snapshot}

or_value_error_ok :
    {A B : Type 0} {b : B} (o : Option A) (k : A → Result MissionError B)
    → (or_value_error o >>= k) ≡ ok b
    → (a : A) × (o ≡ some a) × (k a ≡ ok b)
or_value_error_ok none k h = cc
or_value_error_ok (some a) k h = (a, refl, h)

-- What holds of each value that a loop builds.
each-All :
    {A B : Type 0} (P : B → Type 0) (f : A → Result MissionError B) (xs : List A) {ys : List B}
    → ((x : A) (y : B) → f x ≡ ok y → P y)
    → each f xs ≡ ok ys
    → All P ys
each-All P f [] {ys} p h = let made : [] ≡ ys = ground arith in subst (All P) made tt
each-All P f (x ∷ xs) {ys} p h =
    let (y, made, a) = ok-bind (f x) _ h in
    let (rest, others, b) = ok-bind (each f xs) _ a in
    let all_made : y ∷ rest ≡ ys = ground arith in
    subst (All P) all_made (p x y made, each-All P f xs p others)

binding_named :
    (e : String × RawBinding) (f : String × OutputBinding)
    → restore_binding e ≡ ok f
    → f.1.output_id ≡ f.0
binding_named e f h =
    let (kind_text, _, a) = found_ok e.1.kind _ h in
    let (kind, _, b) = or_value_error_ok (read_kind kind_text) _ a in
    let (reference, _, c) = found_ok e.1.reference _ b in
    let (sha256, _, d) = found_ok e.1.sha256 _ c in
    let made : (
      e.0,
      record { output_id = e.0; kind = kind; reference = reference; sha256 = sha256 },
    )
        ≡ f =
      ground arith in
    subst (λ (x : String × OutputBinding). x.1.output_id ≡ x.0) made refl

restored_bindings :
    (hashes : Hashes) (goal : GoalDefinition) (raw : Option (Dict RawBinding))
    {d : Dict OutputBinding}
    → restore_bindings hashes goal raw ≡ ok d
    → AreNamed d
unfolding restore_bindings
restored_bindings hashes goal none h =
    subst AreNamed (ground arith) (initial-AreNamed hashes goal (plan goal))
restored_bindings hashes goal (some raw) h =
    each-All (λ e. e.1.output_id ≡ e.0) restore_binding raw binding_named h

restored_tasks :
    (raw : List RawTask) (tasks : Dict WorkTask) {tasks' : Dict WorkTask}
    → restore_tasks raw tasks ≡ ok tasks'
    → IsKeyed (λ t. t.task_id) tasks
    → IsKeyed (λ t. t.task_id) tasks'
unfolding restore_tasks
restored_tasks [] tasks h k = subst (IsKeyed (λ t. t.task_id)) (ground arith) k
restored_tasks (r ∷ raw) tasks h k =
    let (t, _, rest) = ok-bind (restore_task r) _ h in
    restored_tasks raw (put t.task_id t tasks) rest
      (put-IsKeyed (λ t. t.task_id) t.task_id t tasks refl k)

module _ (hashes : Hashes) (schema_valid : Handoff → Bool) (disk : Disk)
    (path_of : String → FilePath) where
  -- the hash and the handoff of a result are valid, on the disk of the call
  abbrev pub IsVerified : AgentResult → Type 0
  IsVerified r = (has_valid_hash hashes r && has_valid_handoff schema_valid disk r) ≡ true

  restored_result :
      (raw : RawResult) (r : AgentResult)
      → restore_result hashes schema_valid disk path_of raw ≡ ok r
      → IsVerified r
  unfolding restore_result
  restored_result raw r h =
      let (result, _, a) = ok-bind (read_result path_of raw) _ h in
      let (valid, b) = require_ok _ value_error _ a in subst IsVerified (ground arith) valid

  -- Whatever the snapshot says, a mission that is restored from it has the plan of its goal, each
  -- task and each output under its own id and no task twice, and only results whose hash and
  -- handoff are valid on the disk at that time.
  pub restore-IsStorable :
      (s : MissionSnapshot) {m : Mission}
      → restore hashes schema_valid disk path_of s ≡ ok m
      → IsStorable m × All IsVerified m.accepted_results
  unfolding restore
  restore-IsStorable s {m} h =
      let (_, a) = require_ok (is_format_1 s.format_version) value_error _ h in
      let (raw_goal, _, b) = or_value_error_ok s.goal _ a in
      let (goal, _, c) = ok-bind (restore_goal raw_goal) _ b in
      let (bindings, named, d) = ok-bind (restore_bindings hashes goal s.output_bindings) _ c in
      let (mission_id, _, e) = found_ok s.mission_id _ d in
      let (revision, _, f) = found_ok s.revision _ e in
      let (tasks, keyed, g) = ok-bind (restore_tasks (or_else s.tasks []) []) _ f in
      let (results, valid, i) =
        ok-bind
          (each (restore_result hashes schema_valid disk path_of) (or_else s.accepted_results [])) _
          g in
      let built : Mission = record {
        mission_id = mission_id;
        revision = revision;
        goal = goal;
        plan = plan goal;
        current_stage_index = or_else s.current_stage_index 0;
        tasks = tasks;
        accepted_results = results;
        output_bindings = bindings;
        steering_log = or_else s.steering_log [];
        active_candidate_id = s.active_candidate_id;
        candidate_approved = or_else s.candidate_approved false;
        release_artifact_sha256 = s.release_artifact_sha256;
        completed = or_else s.completed false;
      } in
      let made : built ≡ m = ground arith in
      subst (λ (x : Mission). IsStorable x × All IsVerified x.accepted_results) made
        (
          record {
            planned = refl;
            tasks = restored_tasks (or_else s.tasks []) [] keyed tt;
            bindings = restored_bindings hashes goal s.output_bindings named;
          },
          each-All IsVerified (restore_result hashes schema_valid disk path_of)
              (or_else s.accepted_results []) restored_result valid,
        )

  -- A mission that its calls have led to, and whose accepted results have still a valid hash, a
  -- valid handoff on the disk and a root that `Path` reads back from its text, is restored from
  -- its own snapshot: the same mission, but for the order of its outputs, which are sorted by their
  -- ids and of which each is there as before.
  pub restore-Reached :
      (path_text : FilePath → String) (m : Mission)
      → Reached hashes schema_valid m
      → All (Verifies hashes schema_valid disk path_text path_of) m.accepted_results
      → (restore hashes schema_valid disk path_of (snapshot path_text m)
          ≡ ok (record m { output_bindings = sort_items m.output_bindings }))
        × ((k : String) → get k (sort_items m.output_bindings) ≡ get k m.output_bindings)
  restore-Reached path_text m r v = (
    restore-snapshot hashes schema_valid disk path_text path_of m
        (Reached-IsStorable hashes schema_valid m r) v,
    λ k. get-sort_items k m.output_bindings,
  )
