-- ===== src/Workflow/Fresh.antt =====
-- A call of `append` with a new command and a new event id does not fail: the UNIQUE constraint
-- on the sequence numbers is never in the way.
use sdlc_harness.Prelude.{
  ℕ, suc, ◌+◌, ◌≤◌, ◌<◌, String, ◌≡◌, refl, false, none, List, [], ◌∷◌, ◌++◌, ◌==◌, arith, length,
  Bool-cases, inl, inr, ok, any, All,
}
use sdlc_harness.Workflow.{
  EventBody, WorkflowEvent, Payload, Draft, genesis, of_mission, find_command, latest, clashes,
  is_missing, append, next_sequence,
}
use sdlc_harness.Workflow.Chain.{IsChain}
use sdlc_harness.Workflow.Appends.{IsSound, next_event, next_of_chain}

module _ (digest : EventBody → String) where
  sequences_below :
      (n : ℕ) (previous : String) (es : List WorkflowEvent) (k : ℕ)
      → n + length es ≤ k
      → IsChain digest n previous es
      → All (λ f. f.sequence < k) es
  sequences_below n previous [] k h c = tt
  sequences_below n previous (e ∷ es) k h c =
      (omega arith, sequences_below (suc n) e.event_hash es k (omega arith) c.3)

no_clash :
    (e : WorkflowEvent) (rows : List WorkflowEvent)
    → All (λ f. f.sequence < e.sequence) (of_mission e.mission_id rows)
    → find_command e.command_id rows ≡ none
    → any (λ f. f.event_id == e.event_id) rows ≡ false
    → any (clashes e) rows ≡ false
unfolding find_command
no_clash e [] below new fresh = refl
no_clash e (f ∷ rows) below new fresh = elim (Bool-cases (f.mission_id == e.mission_id)) [
  | inl same ↦
      let below' : (f.sequence < e.sequence)
          × All (λ g. g.sequence < e.sequence) (of_mission e.mission_id rows) =
        rw same at below in
      ground (arith, no_clash e rows below'.1)
  | inr other ↦
      let below' : All (λ g. g.sequence < e.sequence) (of_mission e.mission_id rows) =
        rw other at below in
      ground (arith, no_clash e rows below')
]

module _ (digest : EventBody → String) (canonical_json : Payload → String) where
  -- On a store whose chains are sound, a call with its fields given, a command that is not stored
  -- and an event id that is not taken adds the next event of the mission and returns it.
  pub append_fresh :
      (d : Draft) (i t : String) (rows : List WorkflowEvent)
      → IsSound digest rows
      → is_missing d ≡ false
      → find_command d.command_id rows ≡ none
      → any (λ f. f.event_id == i) rows ≡ false
      → append digest canonical_json d i t rows
        ≡ (ok (next_event digest d i t rows), rows ++ next_event digest d i t rows ∷ [])
  unfolding append
  append_fresh d i t rows sound given new fresh =
      let here = of_mission d.mission_id rows in
      let next = next_of_chain digest here (sound d.mission_id) in
      let below =
        sequences_below digest 1 genesis here (next_sequence (latest here)) (omega arith)
          (sound d.mission_id) in
      let free = no_clash (next_event digest d i t rows) rows below new fresh in
      rw given (rw new (rw free))
