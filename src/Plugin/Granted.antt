-- ===== src/Plugin/Granted.antt =====
-- src/agent_harness/plugin_service.py: `_authority_request`, and the grant that fits one.
use sdlc_harness.Prelude.{
  ℕ, ◌<◌, String, ◌≡◌, refl, sym, ap, true, none, List, [], ◌∷◌, contains, ok, arith,
}
use sdlc_harness.Authority.{Binding, Grant, issued, check_tool}
use sdlc_harness.Authority.Consume.{Permits}
use sdlc_harness.Mission.{WorkTask}
use sdlc_harness.Authority.Update.{issued_status}
use sdlc_harness.Plugin.{authority_request}

-- the grant that an operation on a task uses
pub record IsGranted (now : ℕ) (t : WorkTask) (operation : String) (g : Grant) : Type 0 where
  pub unused : g.use_count < g.max_uses
  pub status : g.status ≡ issued
  pub in_time : now < g.expires_at
  pub mission : g.mission_id ≡ t.mission_id
  pub revision : g.revision ≡ t.revision
  pub task : g.task_id ≡ t.task_id
  pub attempt : g.attempt_id ≡ t.attempt_id
  pub worker : g.worker_id ≡ t.worker_id
  pub workspace : g.workspace_id ≡ t.workspace_id
  pub candidate : g.candidate_id ≡ t.candidate_id
  pub role : g.role ≡ t.assignee_role
  pub allowed : contains operation g.allowed_operations ≡ true
  pub for_no_tool : g.allowed_tools ≡ []

no_tools : (tools : List String) → check_tool none tools ≡ ok tt → tools ≡ []
unfolding check_tool
no_tools [] h = refl
no_tools (x ∷ tools) h = cc

pub Permits-IsGranted :
    (now : ℕ) (t : WorkTask) (operation : String) (g : Grant)
    → Permits now (authority_request t operation) g
    → IsGranted now t operation g
Permits-IsGranted now t operation g p =
    let b = sym p.bound in
    record {
      unused = ground (arith, p.unused);
      status = issued_status g.status (ground (arith, p.unused));
      in_time = p.in_time;
      mission = ap (λ (x : Binding). x.mission_id) b;
      revision = ap (λ (x : Binding). x.revision) b;
      task = ap (λ (x : Binding). x.task_id) b;
      attempt = ap (λ (x : Binding). x.attempt_id) b;
      worker = ap (λ (x : Binding). x.worker_id) b;
      workspace = ap (λ (x : Binding). x.workspace_id) b;
      candidate = ap (λ (x : Binding). x.candidate_id) b;
      role = ap (λ (x : Binding). x.role) b;
      allowed = p.operation;
      for_no_tool = no_tools g.allowed_tools p.tool;
    }
