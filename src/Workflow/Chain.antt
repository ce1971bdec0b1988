-- ===== src/Workflow/Chain.antt =====
-- The events of one mission as a chain: the shape that `verify_chain` tests.
use sdlc_harness.Prelude.{
  ℕ, suc, ◌+◌, String, ◌≡◌, refl, true, some, List, [], ◌∷◌, ◌++◌, eq_iff, arith, length, ◌↔◌,
}
use sdlc_harness.Workflow.{EventBody, WorkflowEvent, latest, insert_row, by_sequence, chain_valid}

-- the hash that the event after these must name
abbrev pub last_hash : String → List WorkflowEvent → String
last_hash previous [] = previous
last_hash previous (e ∷ rest) = last_hash e.event_hash rest

module _ (digest : EventBody → String) where
  abbrev pub IsChain : ℕ → String → List WorkflowEvent → Type 0
  IsChain n previous [] = Unit
  IsChain n previous (e ∷ rest) =
      (e.sequence ≡ n)
      × (e.previous_hash ≡ previous)
      × (e.event_hash ≡ digest e.body)
      × IsChain (suc n) e.event_hash rest

  pub chain_valid_iff :
      (n : ℕ) (previous : String) (es : List WorkflowEvent)
      → (chain_valid digest n previous es ≡ true) ↔ IsChain n previous es
  unfolding chain_valid
  chain_valid_iff n previous [] = (λ _. tt, λ _. refl)
  chain_valid_iff n previous (e ∷ rest) = (
    (λ h. ground (
      arith,
      eq_iff e.previous_hash previous,
      eq_iff e.event_hash (digest e.body),
      chain_valid_iff (suc n) e.event_hash rest,
    )),
    (λ h. ground (
      arith,
      eq_iff e.previous_hash previous,
      eq_iff e.event_hash (digest e.body),
      chain_valid_iff (suc n) e.event_hash rest,
    )),
  )

  pub IsChain-append :
      (n : ℕ) (previous : String) (es : List WorkflowEvent) (e : WorkflowEvent)
      → IsChain n previous es
      → e.sequence ≡ n + length es
      → e.previous_hash ≡ last_hash previous es
      → e.event_hash ≡ digest e.body
      → IsChain n previous (es ++ e ∷ [])
  IsChain-append n previous [] e c s p h = (omega arith, p, h, tt)
  IsChain-append n previous (f ∷ es) e c s p h =
      (c.0, c.1, c.2, IsChain-append (suc n) f.event_hash es e c.3 (omega arith) p h)

  -- The newest event of a chain is its last.
  pub latest_of_chain :
      (n : ℕ) (previous : String) (e : WorkflowEvent) (es : List WorkflowEvent)
      → IsChain n previous (e ∷ es)
      → (f : WorkflowEvent) × (latest (e ∷ es) ≡ some f)
        × (f.sequence ≡ n + length es)
        × (f.event_hash ≡ last_hash e.event_hash es)
        × (f.event_hash ≡ digest f.body)
  unfolding latest
  latest_of_chain n previous e [] c = (e, refl, omega arith, refl, c.2)
  latest_of_chain n previous e (g ∷ es) c =
      let (f, found, s, h, sealed) = latest_of_chain (suc n) e.event_hash g es c.3 in
      (f, ground arith, omega arith, h, sealed)

  insert_row_of_chain :
      (n : ℕ) (previous : String) (e : WorkflowEvent) (es : List WorkflowEvent)
      → IsChain n previous (e ∷ es)
      → insert_row e es ≡ e ∷ es
  unfolding insert_row
  insert_row_of_chain n previous e [] c = refl
  insert_row_of_chain n previous e (f ∷ es) c = ground arith

  -- A chain is in the order of its sequence numbers already.
  pub by_sequence_of_chain :
      (n : ℕ) (previous : String) (es : List WorkflowEvent)
      → IsChain n previous es
      → by_sequence es ≡ es
  unfolding by_sequence
  by_sequence_of_chain n previous [] c = refl
  by_sequence_of_chain n previous (e ∷ es) c =
      rw (by_sequence_of_chain (suc n) e.event_hash es c.3) (insert_row_of_chain n previous e es c)
