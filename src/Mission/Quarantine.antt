-- ===== src/Mission/Quarantine.antt =====
-- src/agent_harness/mission.py: what the results are that a mission has accepted.
use sdlc_harness.Prelude.{
  ◌+◌, ◌≤◌, String, ◌≡◌, refl, sym, subst, Bool, true, List, [], ◌∷◌, ◌++◌, ◌∙◌, eqb, length,
  Bool-cases, inl, inr, arith, All, All-append, contains, eq_refl, eq_iff, ok,
}
use sdlc_harness.Dict.{Dict, put, keys, keys-put}
use sdlc_harness.Handoff.{Disk, Handoff}
use sdlc_harness.Methodology.{GoalDefinition, StageKind}
use sdlc_harness.Mission.{Hashes, Mission, WorkTask, AgentResult, quarantined_stale_revision}
use sdlc_harness.Mission.Results.{has_valid_hash}
use sdlc_harness.Mission.Manager.{
  create_mission, apply_user_steering, receive_result, accept, on_tasks,
}
use sdlc_harness.Mission.Stages.{next_stage, settle_all}
use sdlc_harness.Mission.Advance.{Advanced, advance-Advanced}
use sdlc_harness.Mission.Steps.{
  Step, Reached, issued, received, steers, freezes, approves, releases, advances, created, and_then,
  issue_ok, receive_ok, steer_ok, freeze_ok, approve_ok, release_ok, Taken,
}

module _ (hashes : Hashes) where
  -- A result of the mission and of no later revision, that answers a task of the mission and has
  -- the hash of its payload.
  pub record IsGenuine (m : Mission) (r : AgentResult) : Type 0 where
    pub own : r.mission_id ≡ m.mission_id
    pub past : r.revision ≤ m.revision
    pub known : contains r.task_id (keys m.tasks) ≡ true
    pub hash : has_valid_hash hashes r ≡ true

  -- the later mission of a step, on which the genuine results stay so
  record Extends (m m' : Mission) : Type 0 where
    same_id : m'.mission_id ≡ m.mission_id
    later : m.revision ≤ m'.revision
    keeps : (x : String) → contains x (keys m.tasks) ≡ true → contains x (keys m'.tasks) ≡ true

  still-IsGenuine :
      {m m' : Mission} → Extends m m' → (r : AgentResult) → IsGenuine m r → IsGenuine m' r
  still-IsGenuine x r g = record {
    own = cc;
    past = omega (arith, g.past, x.later);
    known = x.keeps r.task_id g.known;
    hash = g.hash;
  }

  All-IsGenuine :
      {m m' : Mission}
      → Extends m m'
      → (rs : List AgentResult) → All (IsGenuine m) rs
      → All (IsGenuine m') rs
  All-IsGenuine x [] a = tt
  All-IsGenuine x (r ∷ rs) a = (still-IsGenuine x r a.0, All-IsGenuine x rs a.1)

keys-on_tasks :
    (f : WorkTask → WorkTask) (tasks : Dict WorkTask) → keys (on_tasks f tasks) ≡ keys tasks
keys-on_tasks f [] = refl
keys-on_tasks f (t ∷ tasks) = rw (keys-on_tasks f tasks) refl

keys-settle_all :
    (m : Mission) (k : StageKind) (passing : List (String × AgentResult)) (tasks : Dict WorkTask)
    → keys (settle_all m k passing tasks) ≡ keys tasks
keys-settle_all m k [] tasks = refl
keys-settle_all m k ((role, r) ∷ rest) tasks = keys-settle_all m k rest _ ∙ keys-on_tasks _ tasks

module _ (hashes : Hashes) where
  -- Every accepted result is genuine.
  abbrev pub AreGenuine : Mission → Type 0
  AreGenuine m = All (IsGenuine hashes m) m.accepted_results

  carried :
      {m m' : Mission}
      → Extends hashes m m'
      → m'.accepted_results ≡ m.accepted_results
      → AreGenuine m
      → AreGenuine m'
  carried {m} {m'} x same a =
      subst (All (IsGenuine hashes m')) (sym same) (All-IsGenuine hashes x m.accepted_results a)

  tasks_kept :
      {m m' : Mission}
      → m'.mission_id ≡ m.mission_id
      → m.revision ≤ m'.revision
      → keys m'.tasks ≡ keys m.tasks
      → Extends hashes m m'
  tasks_kept i l k = record { same_id = i; later = l; keeps = λ x h. rw k h }

  put-Extends :
      (m : Mission) (t : WorkTask) (k : String) (rs : List AgentResult)
      → Extends hashes m (record m { tasks = put k t m.tasks; accepted_results = rs })
  put-Extends m t k rs = record {
    same_id = refl;
    later = omega arith;
    keeps = λ x h. rw keys-put (ground arith);
  }

  accept-AreGenuine :
      {schema_valid : Handoff → Bool} {disk : Disk} (m : Mission) (r : AgentResult) (t : WorkTask)
      → Taken hashes schema_valid disk m r t
      → AreGenuine m
      → AreGenuine (accept m t r)
  accept-AreGenuine m r t k a =
      All-append (IsGenuine hashes (accept m t r)) m.accepted_results (r ∷ [])
        (All-IsGenuine hashes (put-Extends m _ r.task_id _) m.accepted_results a)
        (
          record {
            own = k.own;
            past = omega (arith, k.recent);
            known = rw keys-put (ground (arith, eq_refl r.task_id));
            hash = k.hash;
          },
          tt,
        )

  next-AreGenuine : (m : Mission) → AreGenuine m → AreGenuine (next_stage m)
  next-AreGenuine m a = elim (Bool-cases (eqb (m.current_stage_index + 1) (length m.plan.stages))) [
    | inl at_last ↦ rw at_last (carried (tasks_kept refl (omega arith) refl) refl a)
    | inr more ↦ rw more (carried (tasks_kept refl (omega arith) refl) refl a)
  ]

  advance-AreGenuine : (m : Mission) {m' : Mission} → Advanced m m' → AreGenuine m → AreGenuine m'
  advance-AreGenuine m x a = subst AreGenuine (sym x.next) (
      next-AreGenuine _ (
        carried (tasks_kept refl (omega arith) (keys-settle_all m x.here.kind x.passing m.tasks))
          refl a))

  module _ (schema_valid : Handoff → Bool) where
    Step-AreGenuine :
        {m m' : Mission} → Step hashes schema_valid m m' → AreGenuine m → AreGenuine m'
    Step-AreGenuine {m} (issued stage role c task attempt t m' h) a =
        subst AreGenuine (sym (issue_ok m stage role c task attempt h))
          (carried (put-Extends m t t.task_id m.accepted_results) refl a)
    Step-AreGenuine {m} (received disk inbox inbox' r d m' h) a =
        elim (receive_ok hashes schema_valid disk m inbox r h) [
          | inl same ↦ subst AreGenuine (sym same) a
          | inr (t, k, e) ↦ subst AreGenuine (sym e) (accept-AreGenuine m r t k a)
        ]
    Step-AreGenuine {m} (steers goal instruction m' h) a =
        subst AreGenuine (sym (steer_ok hashes m goal instruction h))
          (carried (tasks_kept refl (omega arith) (keys-on_tasks _ m.tasks)) refl a)
    Step-AreGenuine {m} (freezes c digest m' h) a =
        let (_, _, _, e) = freeze_ok m c digest h in
        subst AreGenuine (sym e)
          (carried (tasks_kept refl (omega arith) (keys-on_tasks _ m.tasks)) refl a)
    Step-AreGenuine {m} (approves c reference m' h) a =
        let (_, e) = approve_ok hashes m c reference h in
        subst AreGenuine (sym e) (carried (tasks_kept refl (omega arith) refl) refl a)
    Step-AreGenuine {m} (releases c digest reference m' h) a =
        let (_, _, e) = release_ok m c digest reference h in
        subst AreGenuine (sym e) (carried (tasks_kept refl (omega arith) refl) refl a)
    Step-AreGenuine {m} (advances m' h) a = advance-AreGenuine m (advance-Advanced m h) a

    -- In a mission that its calls have led to, every accepted result belongs to the mission, is of
    -- no later revision than it, answers one of its tasks and has the hash of its own payload.
    pub Reached-AreGenuine : (m : Mission) → Reached hashes schema_valid m → AreGenuine m
    unfolding create_mission
    Reached-AreGenuine _ (created id goal) = tt
    Reached-AreGenuine _ (and_then m m' r step) = Step-AreGenuine step (Reached-AreGenuine m r)

-- Once the user has steered a mission, each result for one of its earlier revisions is kept aside
-- as stale, in the inbox alone: whatever it says, the mission is the same.
pub steering-quarantines :
    (hashes : Hashes) (schema_valid : Handoff → Bool) (disk : Disk) (m m' : Mission)
    (goal : GoalDefinition) (instruction : String) (inbox : List AgentResult) (r : AgentResult)
    → apply_user_steering hashes m goal instruction ≡ ok m'
    → r.mission_id ≡ m.mission_id
    → r.revision ≤ m.revision
    → receive_result hashes schema_valid disk m' inbox r
      ≡ (quarantined_stale_revision, m', inbox ++ r ∷ [])
unfolding receive_result
steering-quarantines hashes schema_valid disk m m' goal instruction inbox r h own old =
    let e = steer_ok hashes m goal instruction h in
    subst
      (λ x.
        receive_result hashes schema_valid disk x inbox r
        ≡ (quarantined_stale_revision, x, inbox ++ r ∷ []))
      (sym e) (ground (arith, (eq_iff r.mission_id m.mission_id).1 own))
