-- ===== src/BotFlow/Engine/Settled.antt =====
-- Where a run leaves the session of its chat.
use lydia_bg_back.Prelude.{
  ℕ, zero, suc, Text, List, [], ◌∷◌, Bool, true, ◌≡◌, ◌≢◌, ◌⊎◌, refl, ap, subst, ◌∙◌, Option, none,
  some, inl, inr, find, is_empty, contains, push, ◌==◌, eq_iff, eq_refl, arith, Bool-cases,
  Option-cases,
}
use lydia_bg_back.BotFlow.Graph.{
  NodeType, message, question, BotNode, BotEdge, BotGraph, find_node, next, max_nodes,
}
use lydia_bg_back.BotFlow.Cycle.Closed.{Reaches, here, step}
use lydia_bg_back.BotFlow.Edges.{options_of}
use lydia_bg_back.BotFlow.Engine.{
  active, Session, World, Outgoing, buttons, text, button_options, find_session, first_target,
  Outcome, returned, threw, try_update, send, finish, run_node, run_steps, settle, run, conclude,
  hand_over, outcome_world,
}
use lydia_bg_back.BotFlow.Engine.Sessions.{try_update-found}

-- What the first edge with a property leads to is a successor, if the edges with it leave `id`.
pub find-next :
    (p : BotEdge → Bool) (id : Text) (es : List BotEdge) {e : BotEdge}
    → ((d : BotEdge) → p d ≡ true → (d.source == id) ≡ true)
    → find p es ≡ some e
    → contains e.target (next es id) ≡ true
unfolding next contains
find-next p id [] h q = cc
find-next p id (d ∷ es) {e} h q = elim (Bool-cases (p d)) [
  | inl t ↦ let same : d ≡ e = ground (arith, t, q) in rw (h d t, same, eq_refl e.target)
  | inr t ↦ elim (Bool-cases (d.source == id)) [
    | inl u ↦ ground (arith, t, u, find-next p id es h (rw t at q))
    | inr u ↦ rw u (find-next p id es h (rw t at q))
  ]
]

pub first_target-next :
    (es : List BotEdge) (id : Text) {v : Text}
    → first_target es id ≡ some v
    → contains v (next es id) ≡ true
first_target-next es id {v} q = elim (Option-cases (find (λ (e : BotEdge). e.source == id) es)) [
  | inl gone ↦ absurd (ground (arith, gone, q))
  | inr (e, found) ↦
      let same : e.target ≡ v = ground (arith, found, q) in
      rw (← same) (find-next (λ d. d.source == id) id es (λ d t. t) found)
]

-- The two ways in which a session can be left.
pub data Left (g : BotGraph) (start : Text) (before after : Session) : Type 0 where
  ended : (after.status ≢ active) → after.current_node_id ≡ none → Left g start before after
  waiting :
      (q : Text) (n : BotNode)
      → after.status ≡ before.status
      → after.current_node_id ≡ some q
      → find_node q g.nodes ≡ some n
      → n.type ≡ question
      → Reaches g.edges start q
      → Left g start before after

pub find_node-id :
    (start : Text) (ns : List BotNode) {n : BotNode} → find_node start ns ≡ some n → n.id ≡ start
find_node-id start [] e = cc
find_node-id start (m ∷ ns) {n} e = elim (Bool-cases (m.id == start)) [
  | inl t ↦ let same : m ≡ n = ground (arith, t, e) in rw (← same) ((eq_iff m.id start).0 t)
  | inr t ↦ find_node-id start ns (rw t at e)
]

module _ (delivers : List Outgoing → Outgoing → Bool) (chat : Text) (g : BotGraph) where
  -- The chat's session, when the body of the `try` returned or threw.
  abbrev Ends : Text → Session → Outcome → Type 0
  Ends start s (returned w) =
      (t : Session) × (find_session chat w.sessions ≡ some t) × (t.id ≡ s.id) × Left g start s t
  Ends start s (threw w) = (t : Session) × (find_session chat w.sessions ≡ some t) × (t.id ≡ s.id)

  finish-Ends :
      (start : Text) (w : World) (s : Session)
      → find_session chat w.sessions ≡ some s
      → Ends start s (finish delivers s.id w)
  unfolding finish
  finish-Ends start w s e =
      let (w', q, found, _) = try_update-found chat conclude w s (λ x. refl) e in
      rw q (_, found, refl, ended (λ h. cc) refl)

  send_cases :
      (o : Outgoing) (w : World)
      → (send delivers o w ≡ threw w)
        ⊎ ((w' : World) × (send delivers o w ≡ returned w') × (w'.sessions ≡ w.sessions))
  unfolding send
  send_cases o w = elim (Bool-cases (delivers w.sent o)) [
    | inl t ↦ inr (record w { sent = push w.sent o }, rw t, refl)
    | inr t ↦ inl (rw t)
  ]

  -- A round at a node, if every later round ends as it should.
  run_node-Ends :
      (type : NodeType) (n : BotNode) (rest : Option Text → World → Outcome) (w : World)
      (s : Session)
      → find_session chat w.sessions ≡ some s
      → find_node n.id g.nodes ≡ some n
      → n.type ≡ type
      → ((v : Text) (x : World)
          → contains v (next g.edges n.id) ≡ true
          → find_session chat x.sessions ≡ some s
          → Ends v s (rest (some v) x))
      → ((x : World) → find_session chat x.sessions ≡ some s → Ends n.id s (rest none x))
      → Ends n.id s (run_node delivers s.id g type n rest w)
  unfolding run_node
  run_node-Ends question n rest w s e here_found kind on stop =
      let (w1, q, found, _) =
        try_update-found chat (λ x. record x { current_node_id = some n.id }) w s (λ x. refl) e in
      rw q (elim (send_cases (buttons n.text (button_options n.id (options_of n))) w1) [
        | inl bad ↦ rw bad (_, found, refl)
        | inr (w2, fine, same) ↦ rw fine (
          record s { current_node_id = some n.id },
          rw same found,
          refl,
          waiting n.id n refl refl here_found kind (here n.id),
        )
      ])
  run_node-Ends message n rest w s e here_found kind on stop = elim (send_cases (text n.text) w) [
    | inl bad ↦ rw bad (s, e, refl)
    | inr (w2, fine, same) ↦ rw fine (elim (Option-cases (first_target g.edges n.id)) [
      | inl gone ↦ rw gone (stop w2 (rw same e))
      | inr (v, there) ↦
          let h = first_target-next g.edges n.id there in
          rw there (further n.id v s h (rest (some v) w2) (on v w2 h (rw same e)))
    ])
  ]
    where
      further :
          (u v : Text) (s : Session)
          → contains v (next g.edges u) ≡ true
          → (o : Outcome) → Ends v s o
          → Ends u s o
      further u v s h (threw w) k = k
      further u v s h (returned w) (t, p, i, ended a b) = (t, p, i, ended a b)
      further u v s h (returned w) (t, p, i, waiting q m a b c d r) =
          (t, p, i, waiting q m a b c d (step u v q h r))

  run_none-Ends :
      (k : ℕ) (start : Text) (w : World) (s : Session)
      → find_session chat w.sessions ≡ some s
      → Ends start s (run_steps delivers k s.id g none w)
  unfolding run_steps
  run_none-Ends zero start w s e = finish-Ends start w s e
  run_none-Ends (suc k) start w s e = finish-Ends start w s e

  run_steps-Ends :
      (k : ℕ) (start : Text) (w : World) (s : Session)
      → find_session chat w.sessions ≡ some s
      → Ends start s (run_steps delivers k s.id g (some start) w)
  unfolding run_steps
  run_steps-Ends zero start w s e = finish-Ends start w s e
  run_steps-Ends (suc k) start w s e = elim (Bool-cases (is_empty start)) [
    | inl t ↦ rw t (finish-Ends start w s e)
    | inr t ↦ rw t (elim (Option-cases (find_node start g.nodes)) [
      | inl gone ↦ rw gone (finish-Ends start w s e)
      | inr (n, there) ↦ rw there (
          subst (λ u. Ends u s (run_node delivers s.id g n.type n (run_steps delivers k s.id g) w))
            (find_node-id start g.nodes there)
            (run_node-Ends n.type n (run_steps delivers k s.id g) w s e
              (ap (λ u. find_node u g.nodes) (find_node-id start g.nodes there) ∙ there) refl
              (λ v x h p. run_steps-Ends k v x s p) (λ x p. run_none-Ends k n.id x s p)))
    ])
  ]

  -- A run from a node leaves the chat's session ended with no pending question, or with its status
  -- unchanged and waiting at a question of the graph that the node reaches.
  pub run-Left :
      (start : Text) (w : World) (s : Session)
      → find_session chat w.sessions ≡ some s
      → (t : Session) × (find_session chat (run delivers s.id g start w).sessions ≡ some t)
        × (t.id ≡ s.id)
        × Left g start s t
  unfolding run settle
  run-Left start w s e = settled _ (run_steps-Ends max_nodes start w s e)
    where
      settled :
          (o : Outcome)
          → Ends start s o
          → (t : Session) × (find_session chat (settle delivers s.id o).sessions ≡ some t)
            × (t.id ≡ s.id)
            × Left g start s t
      settled (returned x) k = k
      settled (threw x) (t, p, i) =
          let (x', q, found, _) = try_update-found chat hand_over x t (λ y. refl) p in
          subst
            (λ k.
              (y : Session) × (find_session chat (outcome_world (try_update k hand_over x)).sessions
                ≡ some y)
              × (y.id ≡ k)
              × Left g start s y)
            i (rw q (hand_over t, found, refl, ended (λ h. cc) refl))
