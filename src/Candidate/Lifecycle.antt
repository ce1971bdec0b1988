-- ===== src/Candidate/Lifecycle.antt =====
-- Which lives a candidate can have.
use sdlc_harness.Prelude.{
  ℕ, ◌+◌, ◌≤◌, ◌<◌, ◌≡◌, Bool, true, false, List, [], ◌∷◌, arith, length, ok, ok-bind, ◌⊎◌, inl,
  inr, ap, ◌∙◌,
}
use sdlc_harness.Candidate.{
  CandidateState, frozen, verifying, reviewing, approved, packaging, release_ready, review_failed,
  corrupt, Candidate, transition, set_state, transition_all,
}

-- how far a state is along the way
abbrev rank : CandidateState → ℕ
rank frozen = 0
rank verifying = 1
rank reviewing = 2
rank approved = 3
rank packaging = 4
rank release_ready = 5
rank review_failed = 5
rank corrupt = 5

abbrev pub is_terminal : CandidateState → Bool
is_terminal release_ready = true
is_terminal review_failed = true
is_terminal corrupt = true
is_terminal _ = false

transition_step :
    (c : Candidate) (target : CandidateState) {d : Candidate}
    → transition c target ≡ ok d
    → (d ≡ set_state target c) × (rank c.state < rank target) × (is_terminal c.state ≡ false)
unfolding transition
transition_step c target h = ground arith

-- the transitions that lead from a state to RELEASE_READY
abbrev way_to_release : CandidateState → List CandidateState
way_to_release frozen = verifying ∷ reviewing ∷ approved ∷ packaging ∷ release_ready ∷ []
way_to_release verifying = reviewing ∷ approved ∷ packaging ∷ release_ready ∷ []
way_to_release reviewing = approved ∷ packaging ∷ release_ready ∷ []
way_to_release approved = packaging ∷ release_ready ∷ []
way_to_release packaging = release_ready ∷ []
way_to_release _ = []

-- A step that can still lead to RELEASE_READY is the first of the way.
step_on_way :
    (c : Candidate) (target : CandidateState) {d : Candidate}
    → transition c target ≡ ok d
    → (way_to_release c.state ≡ target ∷ way_to_release target)
      ⊎ (target ≡ review_failed)
      ⊎ (target ≡ corrupt)
unfolding transition
step_on_way c target h = ground arith

stuck_at_end :
    (c : Candidate) (ts : List CandidateState) {d : Candidate}
    → is_terminal c.state ≡ true
    → transition_all c ts ≡ ok d
    → d ≡ c
unfolding transition_all
stuck_at_end c [] e h = ground arith
stuck_at_end c (t ∷ ts) e h =
    let (b, first, rest) = ok-bind (transition c t) (λ x. transition_all x ts) h in
    absurd (cc (e, (transition_step c t first).2))

release_way :
    (c : Candidate) (ts : List CandidateState) {d : Candidate}
    → transition_all c ts ≡ ok d
    → d.state ≡ release_ready
    → ts ≡ way_to_release c.state
unfolding transition_all
release_way c [] h r = ground arith
release_way c (t ∷ ts) {d} h r =
    let (b, first, rest) = ok-bind (transition c t) (λ x. transition_all x ts) h in
    let (eq, up, live) = transition_step c t first in
    let state : b.state ≡ t = ap (λ (x : Candidate). x.state) eq in
    let later = release_way b ts rest r in
    elim (step_on_way c t first) [
      | inl way ↦ cc (way, later, state, ap way_to_release state)
      | inr (inl failed) ↦ absurd (
          cc (
            r,
            state,
            failed,
            ap (λ (x : Candidate). x.state) (stuck_at_end b ts (rw (state, failed)) rest),
          ))
      | inr (inr lost) ↦ absurd (
          cc (
            r,
            state,
            lost,
            ap (λ (x : Candidate). x.state) (stuck_at_end b ts (rw (state, lost)) rest),
          ))
    ]

-- From FROZEN to RELEASE_READY there is one way: verification, review, approval and packaging,
-- each once and in this order.
pub release_needs_review :
    (c : Candidate) (ts : List CandidateState) {d : Candidate}
    → c.state ≡ frozen
    → transition_all c ts ≡ ok d
    → d.state ≡ release_ready
    → ts ≡ verifying ∷ reviewing ∷ approved ∷ packaging ∷ release_ready ∷ []
release_needs_review c ts f h r = release_way c ts h r ∙ ap way_to_release f

rank_le : (s : CandidateState) → rank s ≤ 5
rank_le frozen = omega arith
rank_le _ = omega arith

climbs :
    (c : Candidate) (ts : List CandidateState) {d : Candidate}
    → transition_all c ts ≡ ok d
    → (d ≡ set_state d.state c) × (rank c.state + length ts ≤ rank d.state)
unfolding transition_all
climbs c [] h = (ground arith, ground arith)
climbs c (t ∷ ts) {d} h =
    let (b, first, rest) = ok-bind (transition c t) (λ x. transition_all x ts) h in
    let (eq, up, live) = transition_step c t first in
    let state : rank b.state ≡ rank t = ap (λ (x : Candidate). rank x.state) eq in
    let (same, le) = climbs b ts rest in
    (same ∙ ap (λ (x : Candidate). set_state d.state x) eq, omega arith)

-- Accepted transitions change nothing but the state, and there are at most five of them.
pub transitions_bounded :
    (c : Candidate) (ts : List CandidateState) {d : Candidate}
    → transition_all c ts ≡ ok d
    → (d ≡ set_state d.state c) × (length ts ≤ 5)
transitions_bounded c ts {d} h =
    ((climbs c ts h).0, omega (arith, (climbs c ts h).1, rank_le d.state))
