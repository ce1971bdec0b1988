-- ===== src/Mission/Runs.antt =====
-- A run of a mission: its manager's calls one after the other, as a program.
use sdlc_harness.Prelude.{
  String, ◌≡◌, Bool, none, List, [], ◌∷◌, Result, ok, ◌>>=◌, ok-bind, arith, subst,
}
use sdlc_harness.Handoff.{Disk, Handoff}
use sdlc_harness.Methodology.{GoalDefinition, StageKind}
use sdlc_harness.Mission.{Hashes, Mission, MissionError, AgentResult}
use sdlc_harness.Mission.Manager.{
  issue_task, receive_result, apply_user_steering, bind_candidate, mark_candidate_approved,
  bind_release,
}
use sdlc_harness.Mission.Stages.{advance_if_ready}
use sdlc_harness.Mission.Steps.{
  Step, Reached, issued, received, steers, freezes, approves, releases, advances, and_then,
}

pub data Command : Type 0 where
  issue : StageKind → String → String → String → Command
  receive : AgentResult → Command
  steer : GoalDefinition → String → Command
  freeze : String → String → Command
  approve : String → String → Command
  pack : String → String → String → Command
  advance : Command

module _ (hashes : Hashes) (schema_valid : Handoff → Bool) (disk : Disk) where
  unfoldable pub perform : Command → Mission → Result MissionError Mission
  perform (issue stage role task attempt) m = do
    issued_task ← issue_task m stage role none task attempt
    ok issued_task.1
  perform (receive r) m = ok (receive_result hashes schema_valid disk m [] r).1
  perform (steer goal instruction) m = apply_user_steering hashes m goal instruction
  perform (freeze c digest) m = bind_candidate m c digest
  perform (approve c reference) m = mark_candidate_approved hashes m c reference
  perform (pack c digest reference) m = bind_release m c digest reference
  perform advance m = advance_if_ready m

  unfoldable pub perform_all : List Command → Mission → Result MissionError Mission
  perform_all [] m = ok m
  perform_all (c ∷ commands) m = do next ← perform c m; perform_all commands next

  perform-Step :
      (c : Command) (m : Mission) {m' : Mission}
      → perform c m ≡ ok m'
      → Step hashes schema_valid m m'
  unfolding perform
  perform-Step (issue stage role task attempt) m {m'} h =
      let ((t, n), e, same) = ok-bind (issue_task m stage role none task attempt) _ h in
      issued stage role none task attempt t m' (cc (e, same))
  perform-Step (receive r) m {m'} h =
      let out = receive_result hashes schema_valid disk m [] r in
      received disk [] out.2 r out.0 m' (ground arith)
  perform-Step (steer goal instruction) m {m'} h = steers goal instruction m' h
  perform-Step (freeze c digest) m {m'} h = freezes c digest m' h
  perform-Step (approve c reference) m {m'} h = approves c reference m' h
  perform-Step (pack c digest reference) m {m'} h = releases c digest reference m' h
  perform-Step advance m {m'} h = advances m' h

  -- A run that succeeds leads where the mission's calls lead.
  pub perform_all-Reached :
      (commands : List Command) (m : Mission) {m' : Mission}
      → Reached hashes schema_valid m
      → perform_all commands m ≡ ok m'
      → Reached hashes schema_valid m'
  unfolding perform_all
  perform_all-Reached [] m r h = subst (Reached hashes schema_valid) (ground arith) r
  perform_all-Reached (c ∷ commands) m r h =
      let (next, e, rest) = ok-bind (perform c m) _ h in
      perform_all-Reached commands next (and_then m next r (perform-Step c m e)) rest
