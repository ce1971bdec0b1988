-- ===== src/Workflow/Projection/Replay.antt =====
-- What `rebuild` accepts, and what a rebuilt projection looks like.
use sdlc_harness.Prelude.{
  ℕ, suc, ◌+◌, String, ◌≡◌, refl, sym, subst, true, List, [], ◌∷◌, arith, length, ok, err, ◌>>=◌,
  All, eq_iff, inl, inr, ok-bind, err-bind, ◌∙◌,
}
use sdlc_harness.Workflow.{
  EventType, EventBody, WorkflowEvent, genesis, mission_started, chain_valid,
}
use sdlc_harness.Workflow.Chain.{IsChain, chain_valid_iff}
use sdlc_harness.Workflow.Projection.{
  WorkflowProjection, ProjectionError, key_error, apply_type, apply, started_from, check_link,
  rebuild_from, rebuild,
}

-- Applying an event leaves the mission of the projection alone.
mission-apply_type :
    (t : EventType) (e : WorkflowEvent) (p : WorkflowProjection) {q : WorkflowProjection}
    → apply_type t e p ≡ ok q
    → q.mission_id ≡ p.mission_id
unfolding apply_type
mission-apply_type mission_started e p h = ground arith
mission-apply_type _ e p h = ground arith

-- An event that is applied can fail only by a missing name.
apply_type-key_error :
    (t : EventType) (e : WorkflowEvent) (p : WorkflowProjection) {x : ProjectionError}
    → apply_type t e p ≡ err x
    → x ≡ key_error
unfolding apply_type
apply_type-key_error mission_started e p h = ground arith
apply_type-key_error _ e p h = ground arith

abbrev pub SameMission : String → List WorkflowEvent → Type 0
SameMission m es = All (λ e. e.mission_id ≡ m) es

module _ (digest : EventBody → String) where
  link_checked :
      (n : ℕ) (previous : String) (e : WorkflowEvent) (p : WorkflowProjection)
      → check_link digest n previous e p ≡ ok tt
      → (e.mission_id ≡ p.mission_id)
        × (e.sequence ≡ n)
        × (e.previous_hash ≡ previous)
        × (e.event_hash ≡ digest e.body)
  unfolding check_link
  link_checked n previous e p h = ground (
    arith,
    eq_iff e.mission_id p.mission_id,
    eq_iff e.previous_hash previous,
    eq_iff (digest e.body) e.event_hash,
  )

  pub link_holds :
      (n : ℕ) (previous : String) (e : WorkflowEvent) (p : WorkflowProjection)
      → e.mission_id ≡ p.mission_id
      → e.sequence ≡ n
      → e.previous_hash ≡ previous
      → e.event_hash ≡ digest e.body
      → check_link digest n previous e p ≡ ok tt
  unfolding check_link
  link_holds n previous e p m s q h = ground (
    arith,
    eq_iff e.mission_id p.mission_id,
    eq_iff e.previous_hash previous,
    eq_iff (digest e.body) e.event_hash,
  )

  rebuild_from-IsChain :
      (n : ℕ) (previous : String) (es : List WorkflowEvent) (p : WorkflowProjection)
      {q : WorkflowProjection}
      → p.last_sequence + 1 ≡ n
      → rebuild_from digest n previous es p ≡ ok q
      → IsChain digest n previous es
        × SameMission p.mission_id es
        × (q.mission_id ≡ p.mission_id)
        × (q.last_sequence ≡ p.last_sequence + length es)
  unfolding rebuild_from
  rebuild_from-IsChain n previous [] p s h = (tt, tt, ground arith, ground arith)
  rebuild_from-IsChain n previous (e ∷ es) p {q} s h =
      let (u, linked, h₁) =
        ok-bind (check_link digest n previous e p)
          (λ _. apply e p >>= λ r.
            rebuild_from digest (suc n) e.event_hash es (record r { last_sequence = e.sequence }))
          h in
      let (r, applied, h₂) =
        ok-bind (apply e p)
          (λ r.
            rebuild_from digest (suc n) e.event_hash es (record r { last_sequence = e.sequence }))
          h₁ in
      let (m, s', l, d) = link_checked n previous e p linked in
      let kept = mission-apply_type e.event_type e p applied in
      let (c, ms, mq, ls) =
        rebuild_from-IsChain (suc n) e.event_hash es (record r { last_sequence = e.sequence })
          (omega arith) h₂ in
      ((s', l, d, c), (m, rw kept at ms), mq ∙ kept, omega arith)

  -- A valid chain of one mission is rebuilt, or misses a name that an event refers to.
  rebuild_from-err :
      (n : ℕ) (previous : String) (es : List WorkflowEvent) (p : WorkflowProjection)
      {x : ProjectionError}
      → IsChain digest n previous es
      → SameMission p.mission_id es
      → rebuild_from digest n previous es p ≡ err x
      → x ≡ key_error
  unfolding rebuild_from
  rebuild_from-err n previous [] p c m h = cc
  rebuild_from-err n previous (e ∷ es) p c m h =
      let linked = link_holds n previous e p m.0 c.0 c.1 c.2 in
      elim (err-bind (apply e p)
        (λ r. rebuild_from digest (suc n) e.event_hash es (record r { last_sequence = e.sequence }))
        (rw linked at h)) [
          | inl failed ↦ apply_type-key_error e.event_type e p failed
          | inr (r, applied, h₂) ↦
              rebuild_from-err (suc n) e.event_hash es (record r { last_sequence = e.sequence }) c.3
                (rw (mission-apply_type e.event_type e p applied) m.1) h₂
        ]

  -- A projection is rebuilt only from a chain that verifies, all of one mission, and it ends at
  -- the sequence number of the last event.
  pub rebuild-chain :
      (es : List WorkflowEvent) {q : WorkflowProjection}
      → rebuild digest es ≡ ok q
      → (chain_valid digest 1 genesis es ≡ true)
        × SameMission q.mission_id es
        × (q.last_sequence ≡ length es)
  unfolding rebuild
  rebuild-chain [] h = cc
  rebuild-chain (e ∷ es) {q} h =
      let (c, ms, mq, ls) = rebuild_from-IsChain 1 genesis (e ∷ es) (started_from e) refl h in
      (
        (chain_valid_iff digest 1 genesis (e ∷ es)).1 c,
        subst (λ k. SameMission k (e ∷ es)) (sym mq) ms,
        omega arith,
      )

  -- On a chain that verifies, of one mission and not empty, `rebuild` gives a projection or fails
  -- by a missing name, never by one of its own tests.
  pub rebuild-err :
      (e : WorkflowEvent) (es : List WorkflowEvent) {x : ProjectionError}
      → chain_valid digest 1 genesis (e ∷ es) ≡ true
      → SameMission e.mission_id es
      → rebuild digest (e ∷ es) ≡ err x
      → x ≡ key_error
  unfolding rebuild
  rebuild-err e es c m h =
      rebuild_from-err 1 genesis (e ∷ es) (started_from e)
        ((chain_valid_iff digest 1 genesis (e ∷ es)).0 c) (refl, m) h
