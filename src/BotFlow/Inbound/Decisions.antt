-- ===== src/BotFlow/Inbound/Decisions.antt =====
-- What is known when `handleInbound` has decided.
use lydia_bg_back.Prelude.{
  Text, List, [], ◌∷◌, true, not, ◌||◌, ◌≡◌, refl, ap, Option, none, some, inl, inr, find, is_empty,
  starts_with, codes, ◌==◌, eq_iff, arith, Bool-cases, Option-cases,
}
use lydia_bg_back.Json.{Value}
use lydia_bg_back.BotFlow.Graph.{BotOption, BotNode, BotGraph, find_node, has_node}
use lydia_bg_back.BotFlow.Edges.{options_of}
use lydia_bg_back.BotFlow.Validate.{validate_bot_graph}
use lydia_bg_back.BotFlow.Engine.{
  Session, active, Status, World, Inbound, button, other, find_session, parse_button, is_status,
  waits_for,
}
use lydia_bg_back.BotFlow.Engine.Settled.{find_node-id}
use lydia_bg_back.BotFlow.Inbound.{
  Answer, Decision, ignore, hand_off, answer, find_flow, decide_graph, decide_button,
  decide_session, decide,
}

pub is_status-eq : (a b : Status) → is_status a b ≡ true → a ≡ b
is_status-eq a b h = ground arith

find_node-has_node :
    (k : Text) (ns : List BotNode) {n : BotNode} → find_node k ns ≡ some n → has_node k ns ≡ true
find_node-has_node k [] e = cc
find_node-has_node k (m ∷ ns) e = elim (Bool-cases (m.id == k)) [
  | inl t ↦ ground (arith, t)
  | inr t ↦ ground (arith, find_node-has_node k ns (rw t at e))
]

module _ (to_lower_case : Text → Text) where
  -- The chat's session waits for the question whose button was pressed, and the graph is a valid one.
  pub record IsAnswer (chat : Text) (inbound : Inbound) (w : World) (a : Answer) : Type 0 where
    pub session : Session
    pub found : find_session chat w.sessions ≡ some session
    pub same : session.id ≡ a.session_id
    pub is_active : session.status ≡ active
    pub waits : session.current_node_id ≡ some a.node.id
    pub stored : Value
    pub valid : (validate_bot_graph to_lower_case stored).graph ≡ some a.graph
    pub node : has_node a.node.id a.graph.nodes ≡ true
    pub id : Text
    pub pressed : inbound ≡ button id
    pub prefixed : starts_with id (codes "bot:") ≡ true
    pub names : (parse_button id).0 ≡ a.node.id

  pub record IsHandOff (chat : Text) (w : World) (id : Text) : Type 0 where
    pub session : Session
    pub found : find_session chat w.sessions ≡ some session
    pub same : session.id ≡ id
    pub is_active : session.status ≡ active

  abbrev pub Decided : Text → Inbound → World → Decision → Type 0
  Decided chat inbound w ignore = Unit
  Decided chat inbound w (hand_off id) = IsHandOff chat w id
  Decided chat inbound w (answer a) = IsAnswer chat inbound w a

  module _ (chat : Text) (w : World) (s : Session) (found : find_session chat w.sessions ≡ some s)
      (is_active : s.status ≡ active) where
    decide_graph_sound :
        (id node option : Text) (stored : Value) (o : Option BotGraph)
        → (validate_bot_graph to_lower_case stored).graph ≡ o
        → s.current_node_id ≡ some node
        → (parse_button id).0 ≡ node
        → starts_with id (codes "bot:") ≡ true
        → Decided chat (button id) w (decide_graph s node option o)
    unfolding decide_graph
    decide_graph_sound id node option stored none q c p b = tt
    decide_graph_sound id node option stored (some g) q c p b =
        elim (Option-cases (find_node node g.nodes)) [
          | inl gone ↦ rw gone tt
          | inr (n, there) ↦
              let same : n.id ≡ node = find_node-id node g.nodes there in
              rw there
                (elim (Option-cases (find (λ (o : BotOption). o.id == option) (options_of n))) [
                  | inl gone ↦ rw gone tt
                  | inr (o, there') ↦ rw there' (record {
                    session = s;
                    found = found;
                    same = refl;
                    is_active = is_active;
                    waits = rw same c;
                    stored = stored;
                    valid = q;
                    node = rw same (find_node-has_node node g.nodes there);
                    id = id;
                    pressed = refl;
                    prefixed = b;
                    names = rw same p;
                  })
                ])
        ]

    waits_for-eq : (node : Text) (c : Option Text) → waits_for node c ≡ true → c ≡ some node
    waits_for-eq node none h = cc
    waits_for-eq node (some k) h = ap some ((eq_iff k node).0 h)

    decide_button_sound :
        (id node : Text) (option : Option Text)
        → (parse_button id).0 ≡ node
        → starts_with id (codes "bot:") ≡ true
        → Decided chat (button id) w (decide_button to_lower_case w s node option)
    unfolding decide_button
    decide_button_sound id node none p b = tt
    decide_button_sound id node (some option) p b =
        elim (Bool-cases
          (is_empty node || (is_empty option || not (waits_for node s.current_node_id)))) [
            | inl t ↦ rw t tt
            | inr t ↦ rw t (elim (Option-cases (find_flow s.flow_id w.flows)) [
              | inl gone ↦ rw gone tt
              | inr (f, there) ↦ rw there (
                  decide_graph_sound id node option f.graph _ refl
                    (waits_for-eq node s.current_node_id (ground (arith, t))) p b)
            ])
          ]

    decide_session_sound :
        (inbound : Inbound) → Decided chat inbound w (decide_session to_lower_case w inbound s)
    unfolding decide_session
    decide_session_sound other = record {
      session = s;
      found = found;
      same = refl;
      is_active = is_active;
    }
    decide_session_sound (button id) = elim (Bool-cases (starts_with id (codes "bot:"))) [
      | inl t ↦ rw t (decide_button_sound id _ _ refl t)
      | inr t ↦ rw t (record { session = s; found = found; same = refl; is_active = is_active })
    ]

  pub decide_sound :
      (chat : Text) (inbound : Inbound) (w : World)
      → Decided chat inbound w (decide to_lower_case chat inbound w)
  unfolding decide
  decide_sound chat inbound w = elim (Option-cases (find_session chat w.sessions)) [
    | inl gone ↦ rw (gone, Decided) tt
    | inr (s, found) ↦
        rw (found, Decided)
          (elim (Bool-cases (is_status s.status active)) [
            | inl t ↦
                rw t (decide_session_sound chat w s found (is_status-eq s.status active t) inbound)
            | inr t ↦ rw t tt
          ])
  ]
