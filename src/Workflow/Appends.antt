-- ===== src/Workflow/Appends.antt =====
-- What `append` does to the store: the chain of every mission goes on, errors change nothing,
-- and a repeated command returns the stored event.
use sdlc_harness.Prelude.{
  ◌+◌, String, ◌≡◌, refl, ap, true, Option, none, some, List, [], ◌∷◌, ◌++◌, ◌==◌, eq_iff, eq_refl,
  arith, length, Bool-cases, inl, inr, Result, ok, err, select-append, any, append-nil,
}
use sdlc_harness.Workflow.{
  EventType, same_type, Payload, EventBody, WorkflowEvent, StoreError, conflict, integrity,
  missing_field, Draft, genesis, of_mission, find_command, latest, clashes, sealed, draft_body,
  next_sequence, next_previous_hash, is_missing, matches_draft, append_found, append, verify_chain,
  mission_started,
}
use sdlc_harness.Workflow.Chain.{
  IsChain, last_hash, chain_valid_iff, IsChain-append, latest_of_chain, by_sequence_of_chain,
}

same_type_refl : (t : EventType) → same_type t t ≡ true
same_type_refl mission_started = refl
same_type_refl _ = refl

module _ (digest : EventBody → String) where
  -- every mission's rows are a chain from the genesis hash
  abbrev pub IsSound : List WorkflowEvent → Type 0
  IsSound rows = (m : String) → IsChain digest 1 genesis (of_mission m rows)

  pub next_of_chain :
      (es : List WorkflowEvent)
      → IsChain digest 1 genesis es
      → (next_sequence (latest es) ≡ 1 + length es)
        × (next_previous_hash (latest es) ≡ last_hash genesis es)
  unfolding latest
  next_of_chain [] c = (refl, refl)
  next_of_chain (e ∷ es) c =
      let (f, found, s, h, _) = latest_of_chain digest 1 genesis e es c in
      (ground arith, ground arith)

  pub IsSound-verify_chain :
      (rows : List WorkflowEvent) (m : String) → IsSound rows → verify_chain digest m rows ≡ true
  unfolding verify_chain
  IsSound-verify_chain rows m h =
      rw (by_sequence_of_chain digest 1 genesis (of_mission m rows) (h m))
        ((chain_valid_iff digest 1 genesis (of_mission m rows)).1 (h m))

  abbrev pub next_event : Draft → String → String → List WorkflowEvent → WorkflowEvent
  next_event d i t rows = sealed digest (draft_body d i t (latest (of_mission d.mission_id rows)))

  pub next_event-IsSound :
      (d : Draft) (i t : String) (rows : List WorkflowEvent)
      → IsSound rows
      → IsSound (rows ++ next_event d i t rows ∷ [])
  next_event-IsSound d i t rows h m =
      rw (select-append (λ e. e.mission_id == m) rows (next_event d i t rows ∷ []))
        (elim (Bool-cases (d.mission_id == m)) [
          | inl same ↦ rw (same) (
              IsChain-append digest 1 genesis (of_mission m rows) (next_event d i t rows) (h m)
                (cc (
                  ap (λ k. next_sequence (latest (of_mission k rows)))
                      ((eq_iff d.mission_id m).0 same),
                  (next_of_chain (of_mission m rows) (h m)).0,
                ))
                (cc (
                  ap (λ k. next_previous_hash (latest (of_mission k rows)))
                      ((eq_iff d.mission_id m).0 same),
                  (next_of_chain (of_mission m rows) (h m)).1,
                ))
                refl)
          | inr other ↦ rw (other, append-nil) (h m)
        ])

find_command-append :
    (c : String) (rows : List WorkflowEvent) (e : WorkflowEvent)
    → find_command c rows ≡ none
    → e.command_id ≡ c
    → find_command c (rows ++ e ∷ []) ≡ some e
unfolding find_command
find_command-append c [] e h p = ground (arith, eq_iff e.command_id c)
find_command-append c (f ∷ rows) e h p = ground (arith, find_command-append c rows e)

-- What a call of `append` can do: return the event that the command stored before, add the next
-- event of its mission under a new command, or raise and change nothing.
pub data Outcome (digest : EventBody → String) (d : Draft) (i t : String)
    (rows : List WorkflowEvent)
    : Result StoreError WorkflowEvent × List WorkflowEvent → Type 0 where
  repeated :
      (e : WorkflowEvent)
      → find_command d.command_id rows ≡ some e
      → Outcome digest d i t rows (ok e, rows)
  appended :
      find_command d.command_id rows ≡ none
      → Outcome digest d i t rows
          (ok (next_event digest d i t rows), rows ++ next_event digest d i t rows ∷ [])
  refused : (x : StoreError) → Outcome digest d i t rows (err x, rows)

module _ (digest : EventBody → String) (canonical_json : Payload → String) where
  found-Outcome :
      (d : Draft) (i t : String) (rows : List WorkflowEvent) (o : Option WorkflowEvent)
      → find_command d.command_id rows ≡ o
      → Outcome digest d i t rows (append_found digest canonical_json d i t rows o)
  unfolding append_found
  found-Outcome d i t rows (some e) p = elim (Bool-cases (matches_draft canonical_json d e)) [
    | inl same ↦ rw same (repeated e p)
    | inr differs ↦ rw differs (refused conflict)
  ]
  found-Outcome d i t rows none p =
      elim (Bool-cases (any (clashes (next_event digest d i t rows)) rows)) [
        | inl clash ↦ rw clash (refused integrity)
        | inr free ↦ rw free (appended p)
      ]

  -- Every call of `append` has one of the three outcomes.
  pub append-Outcome :
      (d : Draft) (i t : String) (rows : List WorkflowEvent)
      → Outcome digest d i t rows (append digest canonical_json d i t rows)
  unfolding append
  append-Outcome d i t rows = elim (Bool-cases (is_missing d)) [
    | inl missing ↦ rw missing (refused missing_field)
    | inr given ↦ rw given (found-Outcome d i t rows (find_command d.command_id rows) refl)
  ]

  pub Outcome-IsSound :
      {d : Draft} {i t : String} {rows : List WorkflowEvent}
      {r : Result StoreError WorkflowEvent × List WorkflowEvent}
      → Outcome digest d i t rows r
      → IsSound digest rows
      → IsSound digest r.1
  Outcome-IsSound (repeated e p) h = h
  Outcome-IsSound {d} {i} {t} {rows} (appended p) h = next_event-IsSound digest d i t rows h
  Outcome-IsSound (refused x) h = h

  -- A sequence of calls, each with the id and the time that it draws.
  unfoldable pub append_all :
      List (Draft × String × String) → List WorkflowEvent → List WorkflowEvent
  append_all [] rows = rows
  append_all ((d, i, t) ∷ calls) rows = append_all calls (append digest canonical_json d i t rows).1

  pub append_all-IsSound :
      (calls : List (Draft × String × String)) (rows : List WorkflowEvent)
      → IsSound digest rows
      → IsSound digest (append_all calls rows)
  unfolding append_all
  append_all-IsSound [] rows h = h
  append_all-IsSound ((d, i, t) ∷ calls) rows h =
      append_all-IsSound calls (append digest canonical_json d i t rows).1
        (Outcome-IsSound (append-Outcome d i t rows) h)

  -- Whatever calls of `append` are made on an empty store, accepted or refused, the chain of every
  -- mission verifies afterwards.
  pub append_all-verify_chain :
      (calls : List (Draft × String × String)) (m : String)
      → verify_chain digest m (append_all calls []) ≡ true
  append_all-verify_chain calls m =
      IsSound-verify_chain digest (append_all calls []) m (append_all-IsSound calls [] (λ k. tt))

  matches_sealed :
      (d : Draft) (i t : String) (o : Option WorkflowEvent)
      → matches_draft canonical_json d (sealed digest (draft_body d i t o)) ≡ true
  matches_sealed d i t o =
      ground (
        arith,
        eq_refl d.mission_id,
        same_type_refl d.event_type,
        eq_refl (canonical_json d.payload),
      )

  found-stored :
      (d : Draft) (i t : String) (rows : List WorkflowEvent) (o : Option WorkflowEvent)
      → find_command d.command_id rows ≡ o
      → {e : WorkflowEvent} {rows' : List WorkflowEvent}
      → append_found digest canonical_json d i t rows o ≡ (ok e, rows')
      → (find_command d.command_id rows' ≡ some e) × (matches_draft canonical_json d e ≡ true)
  unfolding append_found
  found-stored d i t rows (some f) p h = elim (Bool-cases (matches_draft canonical_json d f)) [
    | inl same ↦ ground arith
    | inr differs ↦ ground arith
  ]
  found-stored d i t rows none p {e} {rows'} h =
      let new = next_event digest d i t rows in
      elim (Bool-cases (any (clashes new) rows)) [
        | inl clash ↦ ground arith
        | inr free ↦
            let added = find_command-append d.command_id rows new p refl in
            let same = matches_sealed d i t (latest (of_mission d.mission_id rows)) in
            let end : ◌≡◌ {A = Result StoreError WorkflowEvent × List WorkflowEvent}
                (ok new, rows ++ new ∷ []) (ok e, rows') =
              rw free at h in
            let one : new ≡ e = ground arith in
            let two : rows ++ new ∷ [] ≡ rows' = ground arith in
            (cc, cc (ap (matches_draft canonical_json d) one))
      ]

  -- A call that succeeded can be repeated, with another id and time: it returns the same event
  -- and leaves the rows alone.
  pub append_idem :
      (d : Draft) (i t i' t' : String) (rows : List WorkflowEvent) {e : WorkflowEvent}
      {rows' : List WorkflowEvent}
      → append digest canonical_json d i t rows ≡ (ok e, rows')
      → append digest canonical_json d i' t' rows' ≡ (ok e, rows')
  unfolding append append_found
  append_idem d i t i' t' rows {e} {rows'} h = elim (Bool-cases (is_missing d)) [
    | inl missing ↦ ground arith
    | inr given ↦
        let (found, same) =
          found-stored d i t rows (find_command d.command_id rows) refl (rw given at h) in
        rw (given) (rw found (rw same))
  ]
