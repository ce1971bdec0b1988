-- ===== src/Mission/Advance.antt =====
-- `advance_if_ready` keeps a mission supplied: each stage hands its outputs to the next.
use sdlc_harness.Prelude.{
  ◌+◌, String, ◌≡◌, sym, true, not, some, List, [], ◌∷◌, ◌++◌, ◌==◌, eqb, arith, contains, subset,
  Within, contains-append, length, ok, require_ok, ok-bind, eq_iff, Bool-cases, Option-cases, inl,
  inr, subst,
}
use sdlc_harness.Dict.{Dict, get, put, keys, contains-keys}
use sdlc_harness.Methodology.{StageKind, StagePlan, implementation, validation}
use sdlc_harness.Mission.{
  Mission, OutputBinding, AgentResult, stage_here, available_outputs, gate_denied,
}
use sdlc_harness.Mission.Manager.{found_ok}
use sdlc_harness.Mission.Stages.{
  take_outputs, settled, next_stage, gate_open, passing_results, required_roles, bind_results,
  advance_if_ready,
}
use sdlc_harness.Mission.Inputs.{Fed, Fed-mono, after_stage, gate_outputs}
use sdlc_harness.Mission.Supply.{drop, drop_here, Supplied, Within-put, contains-put}

-- Outputs that are there stay.
take_outputs_keeps :
    (ids : List String) (bound outputs : Dict OutputBinding)
    → Within (keys outputs) (keys (take_outputs ids bound outputs))
unfolding take_outputs
take_outputs_keeps [] bound outputs x h = h
take_outputs_keeps (id ∷ ids) bound outputs x h = elim (Option-cases (get id bound)) [
  | inl missing ↦ rw missing (take_outputs_keeps ids bound outputs x h)
  | inr (b, e) ↦
      rw e (take_outputs_keeps ids bound (put id b outputs) x (Within-put id b outputs x h))
]

-- The outputs that were produced and are required are taken.
take_outputs_takes :
    (ids : List String) (bound outputs : Dict OutputBinding)
    → subset ids (keys bound) ≡ true
    → Within ids (keys (take_outputs ids bound outputs))
unfolding take_outputs
take_outputs_takes [] bound outputs s x h = ground arith
take_outputs_takes (id ∷ ids) bound outputs s x h = elim (Option-cases (get id bound)) [
  | inl missing ↦ absurd (ground (arith, contains-keys id bound))
  | inr (b, e) ↦ rw e (elim (Bool-cases (id == x)) [
    | inl same ↦ take_outputs_keeps ids bound (put id b outputs) x (
        subst (λ z. contains z (keys (put id b outputs)) ≡ true) ((eq_iff id x).0 same)
          (contains-put id b outputs))
    | inr other ↦ take_outputs_takes ids bound (put id b outputs) (ground arith) x (ground arith)
  ])
]

-- The decision that opens the gate of a stage has bound its outputs.
gate_bound :
    (m : Mission) (k : StageKind)
    → Supplied m
    → gate_open m k ≡ true
    → Within (gate_outputs k) (available_outputs m)
unfolding gate_open
gate_bound m implementation s h x e =
    subst (λ z. contains z (available_outputs m) ≡ true)
      ((eq_iff "frozen-candidate" x).0 (ground arith)) (s.frozen h)
gate_bound m validation s h x e =
    let (_, b, c) = s.approved h in
    elim (Bool-cases ("approved-candidate" == x)) [
      | inl a ↦
          subst (λ z. contains z (available_outputs m) ≡ true) ((eq_iff "approved-candidate" x).0 a)
            b
      | inr n ↦
          subst (λ z. contains z (available_outputs m) ≡ true)
            ((eq_iff "gate-decision" x).0 (ground arith)) c
    ]
gate_bound m _ s h x e = ground arith

module _ (m : Mission) (here : StagePlan) (passing : List (String × AgentResult))
    (bound : Dict OutputBinding) (s : Supplied m) (at_stage : stage_here m ≡ some here)
    (produced : subset here.required_outputs (keys bound) ≡ true)
    (opened : gate_open m here.kind ≡ true) where
  grows : Within (available_outputs m) (available_outputs (settled m here passing bound))
  grows = take_outputs_keeps here.required_outputs bound m.output_bindings

  covers :
      Within
        (after_stage here (available_outputs m))
        (available_outputs (settled m here passing bound))
  covers x h = elim (Bool-cases (contains x here.required_outputs)) [
    | inl a ↦ take_outputs_takes here.required_outputs bound m.output_bindings produced x a
    | inr n ↦ grows x (elim (Bool-cases (contains x (gate_outputs here.kind))) [
      | inl b ↦ gate_bound m here.kind s opened x b
      | inr n' ↦ ground (
        arith,
        contains-append x here.required_outputs (gate_outputs here.kind ++ available_outputs m),
        contains-append x (gate_outputs here.kind) (available_outputs m),
      )
    ])
  ]

  stays_in_stage : Supplied (settled m here passing bound)
  stays_in_stage = record {
    planned = s.planned;
    in_range = s.in_range;
    fed = Fed-mono _ _ _ grows s.fed;
    frozen = λ h. grows "frozen-candidate" (s.frozen h);
    approved = λ h.
        let (a, b, c) = s.approved h in (a, grows "approved-candidate" b, grows "gate-decision" c);
  }

  later-Fed :
      Fed
        (available_outputs (settled m here passing bound))
        (drop (m.current_stage_index + 1) m.plan.stages)
  later-Fed =
      Fed-mono _ _ _ covers
        (subst (Fed (available_outputs m)) (drop_here m.current_stage_index m.plan.stages at_stage)
          s.fed).1

  next-Supplied : Supplied (next_stage (settled m here passing bound))
  next-Supplied = elim (Bool-cases (eqb (m.current_stage_index + 1) (length m.plan.stages))) [
    | inl last ↦ rw last (record {
      planned = s.planned;
      in_range = s.in_range;
      fed = stays_in_stage.fed;
      frozen = stays_in_stage.frozen;
      approved = stays_in_stage.approved;
    })
    | inr more ↦ rw more (record {
      planned = s.planned;
      in_range = ground (arith, s.in_range);
      fed = later-Fed;
      frozen = stays_in_stage.frozen;
      approved = stays_in_stage.approved;
    })
  ]

-- what a step to the next stage was made from
pub record Advanced (m m' : Mission) : Type 0 where
  pub here : StagePlan
  pub passing : List (String × AgentResult)
  pub bound : Dict OutputBinding
  pub going : not m.completed ≡ true
  pub at_stage : stage_here m ≡ some here
  pub passed : passing_results m here.kind (required_roles here) ≡ ok passing
  pub binds : bind_results passing [] ≡ ok bound
  pub produced : subset here.required_outputs (keys bound) ≡ true
  pub opened : gate_open m here.kind ≡ true
  pub next : m' ≡ next_stage (settled m here passing bound)

pub advance-Advanced : (m : Mission) {m' : Mission} → advance_if_ready m ≡ ok m' → Advanced m m'
unfolding advance_if_ready
advance-Advanced m h =
    let (going, a) = require_ok (not m.completed) gate_denied _ h in
    let (here, at, b) = found_ok (stage_here m) _ a in
    let (passing, results, c) = ok-bind (passing_results m here.kind (required_roles here)) _ b in
    let (bound, binds, d) = ok-bind (bind_results passing []) _ c in
    let (produced, e) = require_ok (subset here.required_outputs (keys bound)) gate_denied _ d in
    let (opened, f) = require_ok (gate_open m here.kind) gate_denied _ e in
    record {
      here = here;
      going = going;
      passing = passing;
      bound = bound;
      at_stage = at;
      passed = results;
      binds = binds;
      produced = produced;
      opened = opened;
      next = cc;
    }

pub advance-Supplied :
    (m : Mission) {m' : Mission} → Supplied m → advance_if_ready m ≡ ok m' → Supplied m'
advance-Supplied m s h =
    let a = advance-Advanced m h in
    subst Supplied (sym a.next)
      (next-Supplied m a.here a.passing a.bound s a.at_stage a.produced a.opened)
