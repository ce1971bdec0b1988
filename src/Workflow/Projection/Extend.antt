-- ===== src/Workflow/Projection/Extend.antt =====
-- The projection of a chain that grows by its next event.
use sdlc_harness.Prelude.{
  ℕ, suc, ◌+◌, String, ◌≡◌, refl, sym, subst, ap, ◌∙◌, List, [], ◌∷◌, ◌++◌, ◌==◌, eq_iff, length,
  ok, ◌>>=◌, ok-bind, arith, select-append,
}
use sdlc_harness.Workflow.{EventBody, WorkflowEvent, Draft, genesis, of_mission, events}
use sdlc_harness.Workflow.Chain.{last_hash, by_sequence_of_chain}
use sdlc_harness.Workflow.Appends.{IsSound, next_event, next_event-IsSound, next_of_chain}
use sdlc_harness.Workflow.Projection.{
  WorkflowProjection, check_link, rebuild_from, rebuild, apply, started_from,
}
use sdlc_harness.Workflow.Projection.Replay.{link_holds}

module _ (digest : EventBody → String) where
  -- A replay of two parts is the replay of the one after the other.
  rebuild_from-append :
      (n : ℕ) (previous : String) (es fs : List WorkflowEvent) (p : WorkflowProjection)
      {q : WorkflowProjection}
      → rebuild_from digest n previous es p ≡ ok q
      → rebuild_from digest n previous (es ++ fs) p
        ≡ rebuild_from digest (n + length es) (last_hash previous es) fs q
  unfolding rebuild_from
  rebuild_from-append n previous [] fs p {q} h =
      let same : p ≡ q = ground arith in
      let z : n ≡ n + 0 = omega arith in
      ap (λ x. rebuild_from digest n previous fs x) same
      ∙ ap (λ k. rebuild_from digest k previous fs q) z
  rebuild_from-append n previous (e ∷ es) fs p {q} h =
      let (u, linked, h₁) =
        ok-bind (check_link digest n previous e p)
          (λ _. apply e p >>= λ r.
            rebuild_from digest (suc n) e.event_hash es (record r { last_sequence = e.sequence }))
          h in
      let (r, applied, h₂) =
        ok-bind (apply e p)
          (λ r.
            rebuild_from digest (suc n) e.event_hash es (record r { last_sequence = e.sequence }))
          h₁ in
      let rest =
        rebuild_from-append (suc n) e.event_hash es fs (record r { last_sequence = e.sequence })
          h₂ in
      let z : suc n + length es ≡ n + suc (length es) = omega arith in
      rw (linked, applied)
        (rest ∙ ap (λ k. rebuild_from digest k (last_hash e.event_hash es) fs q) z)

  rebuild-append :
      (es : List WorkflowEvent) (e : WorkflowEvent) {p q : WorkflowProjection}
      → rebuild digest es ≡ ok p
      → check_link digest (1 + length es) (last_hash genesis es) e p ≡ ok tt
      → apply e p ≡ ok q
      → rebuild digest (es ++ e ∷ []) ≡ ok (record q { last_sequence = e.sequence })
  unfolding rebuild
  rebuild-append [] e h l a = cc
  rebuild-append (f ∷ es) e {p} {q} h l a =
      rebuild_from-append 1 genesis (f ∷ es) (e ∷ []) (started_from f) h
      ∙ unfold rebuild_from in rw (l, a) refl

  -- The events of a mission in a sound store are its rows.
  events_of_sound :
      (rows : List WorkflowEvent) (m : String)
      → IsSound digest rows
      → events m rows ≡ of_mission m rows
  unfolding events
  events_of_sound rows m s = by_sequence_of_chain digest 1 genesis (of_mission m rows) (s m)

  -- The next event of a mission is applied to the projection of the events before it.
  pub rebuild-next_event :
      (d : Draft) (i t : String) (rows : List WorkflowEvent) {p q : WorkflowProjection}
      → IsSound digest rows
      → rebuild digest (events d.mission_id rows) ≡ ok p
      → p.mission_id ≡ d.mission_id
      → apply (next_event digest d i t rows) p ≡ ok q
      → rebuild digest (events d.mission_id (rows ++ next_event digest d i t rows ∷ []))
        ≡ ok (record q { last_sequence = (next_event digest d i t rows).sequence })
  rebuild-next_event d i t rows {p} {q} s h m a =
      let new = next_event digest d i t rows in
      let here = of_mission d.mission_id rows in
      let before = events_of_sound rows d.mission_id s in
      let after =
        events_of_sound (rows ++ new ∷ []) d.mission_id (next_event-IsSound digest d i t rows s) in
      let more : of_mission d.mission_id (rows ++ new ∷ []) ≡ here ++ new ∷ [] =
        select-append (λ e. e.mission_id == d.mission_id) rows (new ∷ [])
        ∙ ground (arith, eq_iff d.mission_id d.mission_id) in
      let (n, l) = next_of_chain digest here (s d.mission_id) in
      rw (after, more)
        (rebuild-append here new (subst (λ x. rebuild digest x ≡ ok p) before h)
          (link_holds digest (1 + length here) (last_hash genesis here) new p (sym m) n l refl) a)

  -- The first event of a mission is applied to the projection that starts from it.
  pub rebuild-first_event :
      (d : Draft) (i t : String) (rows : List WorkflowEvent) {q : WorkflowProjection}
      → IsSound digest rows
      → of_mission d.mission_id rows ≡ []
      → apply (next_event digest d i t rows) (started_from (next_event digest d i t rows)) ≡ ok q
      → rebuild digest (events d.mission_id (rows ++ next_event digest d i t rows ∷ []))
        ≡ ok (record q { last_sequence = (next_event digest d i t rows).sequence })
  rebuild-first_event d i t rows {q} s first a =
      let new = next_event digest d i t rows in
      let after =
        events_of_sound (rows ++ new ∷ []) d.mission_id (next_event-IsSound digest d i t rows s) in
      let more : of_mission d.mission_id (rows ++ new ∷ []) ≡ new ∷ [] =
        select-append (λ e. e.mission_id == d.mission_id) rows (new ∷ [])
        ∙ ground (arith, eq_iff d.mission_id d.mission_id) in
      let (n, l) = next_of_chain digest (of_mission d.mission_id rows) (s d.mission_id) in
      let n' : new.sequence ≡ 1 = n ∙ ground arith in
      let l' : new.previous_hash ≡ genesis = l ∙ ap (last_hash genesis) first in
      let linked = link_holds digest 1 genesis new (started_from new) refl n' l' refl in
      rw (after, more) (unfold rebuild in unfold rebuild_from in rw (linked, a) refl)
