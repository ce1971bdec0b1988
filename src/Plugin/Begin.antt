-- ===== src/Plugin/Begin.antt =====
-- src/agent_harness/plugin_service.py: what the beginning of an operation makes sure of, and when the
-- checks at its end succeed.
use sdlc_harness.Prelude.{
  ℕ, String, ◌≡◌, ◌≢◌, ◌⊎◌, refl, sym, ap, ◌∙◌, subst, Bool, true, false, not, Option, none, some,
  List, eqb, any, contains, Result, ok, err, ◌>>=◌, require_ok, arith, Bool-cases, Result-cases,
  inl, inr,
}
use sdlc_harness.Dict.{get}
use sdlc_harness.Authority.{AuthorityError, VerifiedAuthority, Grant, find_token, consume}
use sdlc_harness.Authority.Consume.{consume_used}
use sdlc_harness.Authority.SingleUse.{
  Call, afterwards, afterwards-IsSpent, IsSpent, IsOneUse, consume-IsSpent, not_used_again,
}
use sdlc_harness.Handoff.{Handoff, FilePath}
use sdlc_harness.Methodology.{StagePlan}
use sdlc_harness.Mission.{Hashes, Mission, WorkTask, stage_here}
use sdlc_harness.Workflow.{EventBody, Payload, WorkflowEvent}
use sdlc_harness.Workflow.Projection.{WorkflowProjection}
use sdlc_harness.Policy.Agrees.{Agrees}
use sdlc_harness.Policy.History.{History, projection-Agrees}
use sdlc_harness.Candidate.Verified.{eqb_refl, opt_eq_refl}
use sdlc_harness.Plugin.Granted.{IsGranted, Permits-IsGranted}
use sdlc_harness.Plugin.Open.{IsOpen, operations_for_task-IsOpen, same_stage_sound}
use sdlc_harness.Plugin.{
  PluginError, plugin_error, index_error, Params, is_open, operation_task, authority_request,
  supplied_revision, role_claims, admitted, authorized, authorize, begin_operation, or_error,
  require_revision, reject_role_claims, stage_shown, same_flag, check_response,
}

found_ok :
    {A B : Type 0} {b : B} (e : PluginError) (o : Option A) (k : A → Result PluginError B)
    → (or_error e o >>= k) ≡ ok b
    → (a : A) × (o ≡ some a) × (k a ≡ ok b)
found_ok e none k h = cc
found_ok e (some a) k h = (a, refl, h)

-- what an operation that has begun is about
pub record IsAdmitted (m : Mission) (params : Params) (operation : String) (t : WorkTask)
    : Type 0 where
  pub own_revision :
      (params.revision ≡ some m.revision) ⊎ ((params.revision ≡ none) × (m.revision ≡ 0))
  pub no_role : contains "role" params.keys ≡ false
  pub no_producer : contains "producer_role" params.keys ≡ false
  pub no_reviewer : contains "reviewer_role" params.keys ≡ false
  pub no_creator : contains "created_by_role" params.keys ≡ false
  pub known : get params.task_id m.tasks ≡ some t
  pub recent : t.revision ≡ m.revision
  pub here : StagePlan
  pub at_stage : stage_here m ≡ some here
  pub same_kind : t.stage ≡ here.kind
  pub open_to : IsOpen t operation

supplied : (o : Option ℕ) (n : ℕ) → supplied_revision o ≡ n → (o ≡ some n) ⊎ ((o ≡ none) × (n ≡ 0))
supplied none n e = inr (refl, sym e)
supplied (some k) n e = inl (ap some e)

module _ (sha256 : String → String) where
  admitted-IsAdmitted :
      (m : Mission) (params : Params) (operation : String) {t : WorkTask}
      → admitted sha256 m params operation ≡ ok t
      → IsAdmitted m params operation t
  unfolding admitted require_revision reject_role_claims operation_task
  admitted-IsAdmitted m params operation {t} h =
      let (revision, a) =
        require_ok (eqb (supplied_revision params.revision) m.revision) plugin_error _ h in
      let (claims, b) =
        require_ok (not (any (λ claim. contains claim params.keys) role_claims)) plugin_error _ a in
      let (u, known, c) = found_ok plugin_error (get params.task_id m.tasks) _ b in
      let (recent, d) = require_ok (eqb u.revision m.revision) plugin_error _ c in
      let (here, at, e) = found_ok index_error (stage_here m) _ d in
      let (opened, f) = require_ok (is_open here operation u) plugin_error _ e in
      let same : u ≡ t = ground arith in
      subst (IsAdmitted m params operation) same (record {
        own_revision = supplied params.revision m.revision (ground arith);
        no_role = ground arith;
        no_producer = ground arith;
        no_reviewer = ground arith;
        no_creator = ground arith;
        known = known;
        recent = ground arith;
        here = here;
        at_stage = at;
        same_kind = same_stage_sound u.stage here.kind (ground arith);
        open_to = operations_for_task-IsOpen u operation (ground arith);
      })

  begun :
      (now : ℕ) (params : Params) (operation : String) (rows : List Grant)
      (r : Result PluginError WorkTask) {t : WorkTask} {v : VerifiedAuthority} {rows' : List Grant}
      → authorized sha256 now params operation rows r ≡ (ok (t, v), rows')
      → (r ≡ ok t)
        × (consume sha256 now params.authority_token (authority_request t operation) rows
            ≡ (ok v, rows'))
  unfolding authorize
  begun now params operation rows (err e) h = absurd (ground arith)
  begun now params operation rows (ok u) {t} {v} {rows'} h =
      elim (Result-cases
        (consume sha256 now params.authority_token (authority_request u operation) rows).0) [
          | inr (e, refused) ↦ absurd (ground (arith, rw refused at h))
          | inl (w, used) ↦
              let done = rw used at h in
              let same : u ≡ t = ground arith in
              let same_authority : w ≡ v = ground arith in
              let after : (consume sha256 now params.authority_token (authority_request u operation)
                    rows).1
                  ≡ rows' =
                ground arith in
              (
                ap ok same,
                subst
                    (λ x.
                      consume sha256 now params.authority_token (authority_request x operation) rows
                      ≡ (ok v, rows'))
                    same (λ i. ((used ∙ ap ok same_authority) i, after i)),
              )
        ]

  -- The beginning that a checkpoint, an interruption and a retry share succeeds only
  -- with the revision of the mission and with none of the four parameters that claim a role, for
  -- the task of the mission with the given id, at the revision and the current stage of the mission;
  -- an interrupted task is open to a retry only, and another to the operations of its stage. The
  -- token then has a grant that is issued, not used up, not expired, bound to the mission, revision,
  -- task, attempt, worker, workspace, candidate and role of that task, and open to the operation
  -- and to no tool.
  pub begin_operation-IsAdmitted :
      (now : ℕ) (m : Mission) (params : Params) (operation : String) (rows : List Grant)
      {t : WorkTask} {v : VerifiedAuthority} {rows' : List Grant}
      → begin_operation sha256 now m params operation rows ≡ (ok (t, v), rows')
      → IsAdmitted m params operation t
        × ((g : Grant) × (find_token (sha256 params.authority_token) rows ≡ some g)
            × IsGranted now t operation g)
  unfolding begin_operation
  begin_operation-IsAdmitted now m params operation rows {t} h =
      let (passed, used) = begun now params operation rows (admitted sha256 m params operation) h in
      let (g, found, permits, _, _) =
        consume_used sha256 now params.authority_token (authority_request t operation) rows used in
      (
        admitted-IsAdmitted m params operation {t = t} passed,
        (g, found, Permits-IsGranted now t operation g permits),
      )

  -- In a table of grants for one use, a token that has begun an operation begins no other, on any
  -- mission, task and operation, at any time, after any further calls of the authority store.
  pub begin_operation_once :
      (now : ℕ) (m : Mission) (params : Params) (operation : String) (rows : List Grant)
      {t : WorkTask} {v : VerifiedAuthority} {rows' : List Grant}
      → IsOneUse rows
      → begin_operation sha256 now m params operation rows ≡ (ok (t, v), rows')
      → (calls : List Call) (later : ℕ) (n : Mission) (others : Params) (operation₂ : String)
        (u : WorkTask) (w : VerifiedAuthority)
      → others.authority_token ≡ params.authority_token
      → (begin_operation sha256 later n others operation₂ (afterwards sha256 calls rows')).0
        ≢ ok (u, w)
  unfolding begin_operation
  begin_operation_once now m params operation rows {t} {v} {rows'} one h calls later n others
        operation₂ u w same again =
      let (_, used) = begun now params operation rows (admitted sha256 m params operation) h in
      let spent =
        subst (IsSpent (sha256 params.authority_token))
          (ap (λ (r : Result AuthorityError VerifiedAuthority × List Grant). r.1) used)
          (consume-IsSpent sha256 now params.authority_token (authority_request t operation) rows
            one (ap (λ (r : Result AuthorityError VerifiedAuthority × List Grant). r.0) used)) in
      let gone = afterwards-IsSpent sha256 (sha256 params.authority_token) calls rows' spent in
      let (_, taken) =
        begun later others operation₂ (afterwards sha256 calls rows')
          (admitted sha256 n others operation₂) {t = u} {v = w}
          {rows' = (begin_operation sha256 later n others operation₂
            (afterwards sha256 calls rows')).1}
          (λ i. (
            again i,
            (begin_operation sha256 later n others operation₂ (afterwards sha256 calls rows')).1,
          )) in
      not_used_again sha256 later others.authority_token (authority_request u operation₂)
        (afterwards sha256 calls rows')
        (subst (λ x. IsSpent (sha256 x) (afterwards sha256 calls rows')) (sym same) gone)
        (ap (λ (r : Result AuthorityError VerifiedAuthority × List Grant). r.0) taken)

same_flag_refl : (b : Bool) → same_flag b b ≡ true
same_flag_refl true = refl
same_flag_refl false = refl

module _ (digest : EventBody → String) (canonical_json : Payload → String) (hashes : Hashes)
    (schema_valid : Handoff → Bool) (path_text : FilePath → String) where
  stage_matches :
      (m : Mission) (p : WorkflowProjection)
      → Agrees m p
      → (m.completed ≡ true) ⊎ ((here : StagePlan) × (stage_here m ≡ some here))
      → stage_shown m ≡ ok p.current_stage
  unfolding stage_shown
  stage_matches m p a (inl over) = rw over (sym (ap ok (a.stage ∙ rw over refl)))
  stage_matches m p a (inr (here, at)) = elim (Bool-cases m.completed) [
    | inl over ↦ rw over (sym (ap ok (a.stage ∙ rw over refl)))
    | inr on ↦ rw (on, at) (sym (ap ok (a.stage ∙ rw (on, at) refl)))
  ]

  -- After any history of a mission that is completed or has a current stage, the checks of a response
  -- succeed: the chain of the mission verifies, and the projection that is rebuilt from it has the
  -- revision, the stage and the completion of the mission. Of the events that `record_event` can
  -- store as they are given, a history has those of recorded evidence only, which is how the program
  -- calls it.
  pub check_response_ok :
      {m : Mission} {rows : List WorkflowEvent}
      → History digest canonical_json hashes schema_valid path_text m rows
      → (m.completed ≡ true) ⊎ ((here : StagePlan) × (stage_here m ≡ some here))
      → (p : WorkflowProjection) × (check_response digest m rows ≡ ok p) × Agrees m p
  unfolding check_response
  check_response_ok {m} {rows} h known =
      let (valid, (p, rebuilt, a)) =
        projection-Agrees digest canonical_json hashes schema_valid path_text h in
      (
        p,
        rw
            (
              valid,
              rebuilt,
              stage_matches m p a known,
              a.revision,
              a.completed,
              eqb_refl,
              opt_eq_refl,
              same_flag_refl,
            )
            refl,
        a,
      )
