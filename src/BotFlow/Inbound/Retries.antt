-- ===== src/BotFlow/Inbound/Retries.antt =====
-- Meta delivers a webhook again and again: only the first delivery of a message has an effect.
use lydia_bg_back.Prelude.{
  Text, List, Bool, true, false, not, ◌&&◌, ◌||◌, ◌≡◌, ◌⊎◌, refl, subst, Option, none, some, inl,
  inr, is_empty, starts_with, codes, length, ◌==◌, eq_iff, eq_refl, arith, Bool-cases, Option-cases,
}
use lydia_bg_back.BotFlow.Graph.{BotGraph, BotEdge}
use lydia_bg_back.BotFlow.Cycle.Closed.{Reaches, no_return}
use lydia_bg_back.BotFlow.Sound.{validate_bot_graph_sound}
use lydia_bg_back.BotFlow.Engine.{
  Session, active, World, Outgoing, Inbound, button, find_session, parse_button, is_status,
  waits_for, option_edge, same_option, hand_over, run, done, outcome_world, try_update,
}
use lydia_bg_back.BotFlow.Engine.Sessions.{find-update_many, any-find, try_update-found}
use lydia_bg_back.BotFlow.Engine.Settled.{Left, ended, waiting, run-Left, find-next}
use lydia_bg_back.BotFlow.Inbound.{
  Answer, Decision, ignore, hand_off, answer, claims, release, claimed, decide_button,
  decide_session, decide, follow, act, handle_inbound,
}
use lydia_bg_back.BotFlow.Inbound.Decisions.{IsAnswer, Decided, decide_sound}

module _ (to_lower_case : Text → Text) (delivers : List Outgoing → Outgoing → Bool) where
  decide_inactive :
      (chat : Text) (inbound : Inbound) (w : World) (t : Session)
      → find_session chat w.sessions ≡ some t
      → is_status t.status active ≡ false
      → decide to_lower_case chat inbound w ≡ ignore
  unfolding decide
  decide_inactive chat inbound w t found off = rw (found, decide) (rw off)

  decide_button_moved :
      (w : World) (t : Session) (node : Text) (option : Option Text)
      → waits_for node t.current_node_id ≡ false
      → decide_button to_lower_case w t node option ≡ ignore
  unfolding decide_button
  decide_button_moved w t node none moved = refl
  decide_button_moved w t node (some option) moved =
      elim (Bool-cases
        (is_empty node || (is_empty option || not (waits_for node t.current_node_id)))) [
          | inl out ↦ rw out
          | inr inside ↦ absurd (ground (arith, inside, moved))
        ]

  decide_moved :
      (chat id node : Text) (w : World) (t : Session)
      → find_session chat w.sessions ≡ some t
      → starts_with id (codes "bot:") ≡ true
      → (parse_button id).0 ≡ node
      → waits_for node t.current_node_id ≡ false
      → decide to_lower_case chat (button id) w ≡ ignore
  unfolding decide decide_session decide_button
  decide_moved chat id node w t found prefixed names moved =
      rw (found, decide)
        (elim (Bool-cases (is_status t.status active)) [
          | inr off ↦ rw off
          | inl on ↦ rw (on, prefixed) (decide_button_moved w t _ _ (rw names moved))
        ])

  -- Where the answer to a button leaves the session.
  record Moved (chat node : Text) (w : World) : Type 0 where
    session : Session
    found : find_session chat w.sessions ≡ some session
    moved : (is_status session.status active && waits_for node session.current_node_id) ≡ false

  Left-moved :
      (g : BotGraph) (node v : Text) (s t : Session)
      → (Reaches g.edges v node → ⊥)
      → Left g v s t
      → (is_status t.status active && waits_for node t.current_node_id) ≡ false
  Left-moved g node v s t back (ended a b) = ground (arith, b)
  Left-moved g node v s t back (waiting q n a b c d r) = elim (Bool-cases (q == node)) [
    | inl same ↦ absurd (back (subst (λ k. Reaches g.edges v k) ((eq_iff q node).0 same) r))
    | inr differs ↦ ground (arith, b, differs)
  ]

  no_way_back :
      (chat : Text) (inbound : Inbound) (w : World) (a : Answer) (e : BotEdge)
      → IsAnswer to_lower_case chat inbound w a
      → option_edge a.graph.edges a.node.id a.option.id ≡ some e
      → Reaches a.graph.edges e.target a.node.id
      → ⊥
  no_way_back chat inbound w a e h q r =
      let good = validate_bot_graph_sound to_lower_case h.stored a.graph h.valid in
      no_return a.graph.edges a.node.id e.target (length a.graph.nodes)
        (λ vs k. good.short_walks a.node.id vs h.node k)
        (find-next (λ d. d.source == a.node.id && same_option d.from_option a.option.id) a.node.id
          a.graph.edges (λ d t. ground (arith, t)) q)
        r

  follow-Moved :
      (chat : Text) (inbound : Inbound) (w x : World) (a : Answer) (s : Session)
      → IsAnswer to_lower_case chat inbound w a
      → find_session chat x.sessions ≡ some s
      → s.id ≡ a.session_id
      → s.current_node_id ≡ none
      → Moved chat a.node.id (follow delivers a (option_edge a.graph.edges a.node.id a.option.id) x)
  unfolding follow
  follow-Moved chat inbound w x a s h found same free =
      elim (Option-cases (option_edge a.graph.edges a.node.id a.option.id)) [
        | inl gone ↦ rw gone (
            let (x', q, there, _) =
              try_update-found chat (λ y. record y { status = done }) x s (λ y. refl) found in
            subst
              (λ k.
                Moved chat a.node.id
                  (outcome_world (try_update k (λ y. record y { status = done }) x)))
              same
              (rw q (record { session = record s { status = done }; found = there; moved = refl })))
        | inr (e, there) ↦ rw there (
            let (t, q, i, left) = run-Left delivers chat a.graph e.target x s found in
            subst (λ k. Moved chat a.node.id (run delivers k a.graph e.target x)) same
              (record {
                session = t;
                found = q;
                moved =
                    Left-moved a.graph a.node.id e.target s t
                      (no_way_back chat inbound w a e h there) left;
              }))
      ]

  act_answer-Moved :
      (chat : Text) (inbound : Inbound) (w : World) (a : Answer)
      → IsAnswer to_lower_case chat inbound w a
      → Moved chat a.node.id (act delivers (answer a) w)
  unfolding act
  act_answer-Moved chat inbound w a h =
      let claimable : claims a h.session ≡ true =
        ground (arith, h.same, h.is_active, h.waits, eq_refl a.session_id, eq_refl a.node.id) in
      rw (any-find chat (claims a) w.sessions h.found claimable) (
        follow-Moved chat inbound w (claimed a w) a (release h.session) h
          (rw (find-update_many chat (claims a) release w.sessions (λ s. refl), h.found, claimable))
          h.same refl)

  Moved-ignored :
      (chat : Text) (inbound : Inbound) (w x : World) (a : Answer)
      (h : IsAnswer to_lower_case chat inbound w a)
      → Moved chat a.node.id x
      → decide to_lower_case chat (button h.id) x ≡ ignore
  Moved-ignored chat inbound w x a h m = elim (Bool-cases (is_status m.session.status active)) [
    | inr off ↦ decide_inactive chat (button h.id) x m.session m.found off
    | inl on ↦
        decide_moved chat h.id a.node.id x m.session m.found h.prefixed h.names
          (ground (arith, m.moved, on))
  ]

  act_twice :
      (f : World → Decision) (w : World)
      → ((f w ≡ ignore) ⊎ (f (act delivers (f w) w) ≡ ignore))
      → act delivers (f (act delivers (f w) w)) (act delivers (f w) w) ≡ act delivers (f w) w
  act_twice f w (inr second) = rw second (unfold act in refl)
  act_twice f w (inl first) =
      let quiet : act delivers (f w) w ≡ w = rw first (unfold act in refl) in rw (quiet, quiet)

  -- After an effect of a message, the same message is ignored.
  act_ignored :
      (chat : Text) (inbound : Inbound) (w : World) (d : Decision)
      → Decided to_lower_case chat inbound w d
      → (d ≡ ignore) ⊎ (decide to_lower_case chat inbound (act delivers d w) ≡ ignore)
  unfolding act
  act_ignored chat inbound w ignore h = inl refl
  act_ignored chat inbound w (hand_off id) h =
      let p = λ (s : Session). s.id == id && is_status s.status active in
      let hit : p h.session ≡ true = ground (arith, h.same, h.is_active, eq_refl id) in
      inr (
        decide_inactive chat inbound (act delivers (hand_off id) w) (hand_over h.session)
          (rw (find-update_many chat p hand_over w.sessions (λ s. refl), h.found, hit)) refl)
  act_ignored chat inbound w (answer a) h =
      let m = act_answer-Moved chat inbound w a h in
      inr (rw h.pressed (Moved-ignored chat inbound w (act delivers (answer a) w) a h m))

  -- A second delivery of the same message to the same chat, after the first one has been handled,
  -- changes nothing: no step is sent twice, no note is written twice and the session stays where it is.
  pub handle_inbound_idem :
      (chat : Text) (inbound : Inbound) (w : World)
      → handle_inbound to_lower_case delivers chat inbound
          (handle_inbound to_lower_case delivers chat inbound w)
        ≡ handle_inbound to_lower_case delivers chat inbound w
  unfolding handle_inbound
  handle_inbound_idem chat inbound w = act_twice (decide to_lower_case chat inbound) w (
      act_ignored chat inbound w (decide to_lower_case chat inbound w)
        (decide_sound to_lower_case chat inbound w))
