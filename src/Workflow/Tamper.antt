-- ===== src/Workflow/Tamper.antt =====
-- What a verified chain pins down: its newest hash determines every event, unless two bodies of
-- the same digest are at hand.
use sdlc_harness.Prelude.{
  ℕ, suc, String, ◌≡◌, ◌≢◌, refl, ap, sym, true, some, List, [], ◌∷◌, arith, length, ◌⊎◌, inl, inr,
  String-discrete, ℕ_discrete, ◌∙◌,
}
use sdlc_harness.Workflow.{EventBody, WorkflowEvent, genesis, latest, events, verify_chain}
use sdlc_harness.Workflow.Chain.{IsChain, last_hash, chain_valid_iff, latest_of_chain}

EventBody-discrete : Discrete EventBody
EventBody-discrete = hlevel (String-discrete, ℕ_discrete)

-- two different bodies with one hash
abbrev pub Collision : (EventBody → String) → Type 0
Collision digest = (a : EventBody) × (b : EventBody) × (a ≢ b) × (digest a ≡ digest b)

module _ (digest : EventBody → String) where
  -- Chains that start from different hashes and end in one show a collision.
  different_starts :
      (n : ℕ) (p q : String) (xs ys : List WorkflowEvent)
      → IsChain digest n p xs
      → IsChain digest n q ys
      → p ≢ q
      → length xs ≡ length ys
      → last_hash p xs ≡ last_hash q ys
      → Collision digest
  different_starts n p q [] [] c d ne l h = absurd (ne h)
  different_starts n p q [] (y ∷ ys) c d ne l h = absurd (omega arith)
  different_starts n p q (x ∷ xs) [] c d ne l h = absurd (omega arith)
  different_starts n p q (x ∷ xs) (y ∷ ys) c d ne l h =
      elim (String-discrete x.event_hash y.event_hash) [
        | yes same ↦ (
          x.body,
          y.body,
          (λ e. ne (cc (ap (λ (b : EventBody). b.previous_hash) e, c.1, d.1))),
          cc (c.2, d.2),
        )
        | no other ↦
            different_starts (suc n) x.event_hash y.event_hash xs ys c.3 d.3 other (omega arith) h
      ]

  same_start :
      (n : ℕ) (p : String) (xs ys : List WorkflowEvent)
      → IsChain digest n p xs
      → IsChain digest n p ys
      → length xs ≡ length ys
      → last_hash p xs ≡ last_hash p ys
      → (xs ≡ ys) ⊎ Collision digest
  same_start n p [] [] c d l h = inl refl
  same_start n p [] (y ∷ ys) c d l h = absurd (omega arith)
  same_start n p (x ∷ xs) [] c d l h = absurd (omega arith)
  same_start n p (x ∷ xs) (y ∷ ys) c d l h = elim (EventBody-discrete x.body y.body) [
    | yes same ↦
        let hash : x.event_hash ≡ y.event_hash = cc (c.2, d.2, ap digest same) in
        let event : x ≡ y = λ i. record { body = same i; event_hash = hash i } in
        elim (same_start (suc n) x.event_hash xs ys c.3 (rw hash d.3) (omega arith)
          (h ∙ ap (λ k. last_hash k ys) (sym hash))) [ inl rest ↦ inl (cc) | inr found ↦ inr found ]
    | no other ↦ elim (String-discrete x.event_hash y.event_hash) [
      | yes hash ↦ inr (x.body, y.body, other, cc (c.2, d.2))
      | no hash ↦
          inr
            (different_starts (suc n) x.event_hash y.event_hash xs ys c.3 d.3 hash (omega arith) h)
    ]
  ]

  chains_agree :
      (xs ys : List WorkflowEvent) {e f : WorkflowEvent}
      → IsChain digest 1 genesis xs
      → IsChain digest 1 genesis ys
      → latest xs ≡ some e
      → latest ys ≡ some f
      → e.event_hash ≡ f.event_hash
      → (xs ≡ ys) ⊎ Collision digest
  unfolding latest
  chains_agree [] ys c d p q h = cc
  chains_agree (x ∷ xs) [] c d p q h = cc
  chains_agree (x ∷ xs) (y ∷ ys) {e} {f} c d p q h =
      let (e', pe, se, he, de) = latest_of_chain digest 1 genesis x xs c in
      let (f', pf, sf, hf, df) = latest_of_chain digest 1 genesis y ys d in
      let ee : e ≡ e' = cc in
      let ff : f ≡ f' = cc in
      elim (ℕ_discrete (length xs) (length ys)) [
        | yes same ↦ same_start 1 genesis (x ∷ xs) (y ∷ ys) c d (omega arith) (
            cc (
              ap (λ (g : WorkflowEvent). g.event_hash) ee,
              ap (λ (g : WorkflowEvent). g.event_hash) ff,
            ))
        | no other ↦ inr (
          e'.body,
          f'.body,
          (λ b. other (omega (arith, ap (λ (g : EventBody). g.sequence) b))),
          cc (
            ap (λ (g : WorkflowEvent). g.event_hash) ee,
            ap (λ (g : WorkflowEvent). g.event_hash) ff,
          ),
        )
      ]

  -- Two stores whose chains of a mission verify and whose newest events of it have one hash hold
  -- the same events of that mission, or two different bodies with one digest are found.
  pub tamper_evident :
      (m : String) (rows rows' : List WorkflowEvent) {e f : WorkflowEvent}
      → verify_chain digest m rows ≡ true
      → verify_chain digest m rows' ≡ true
      → latest (events m rows) ≡ some e
      → latest (events m rows') ≡ some f
      → e.event_hash ≡ f.event_hash
      → (events m rows ≡ events m rows') ⊎ Collision digest
  unfolding verify_chain
  tamper_evident m rows rows' v w p q h =
      chains_agree (events m rows) (events m rows')
        ((chain_valid_iff digest 1 genesis (events m rows)).0 v)
        ((chain_valid_iff digest 1 genesis (events m rows')).0 w) p q h
