-- ===== src/BotFlow/Sound/Nodes.antt =====
-- The loop over the nodes.
use lydia_bg_back.Prelude.{
  ◌+◌, ◌≤◌, Text, codes, List, [], ◌∷◌, false, ◌≡◌, refl, ap, Option, none, some, inl, inr,
  is_empty, length, push, push-ne-nil, push_if-eq-nil, length-push, ltb-eq-false, contains, All,
  All-push, IsDistinct, IsDistinct-push, arith, take, Bool-cases,
}
use lydia_bg_back.Json.{Value, obj, Fields, as_text, get_field}
use lydia_bg_back.BotFlow.Graph.{
  NodeType, message, question, BotNode, BotError, repeated_node_id, text_max, has_node,
}
use lydia_bg_back.BotFlow.Cycle.{ids}
use lydia_bg_back.BotFlow.Nodes.{
  short_id, NodeState, text_errors, raw_options, accept_node, typed_node, read_node, add_node,
  add_nodes,
}
use lydia_bg_back.BotFlow.WellFormed.{IsShortId, IsNode}
use lydia_bg_back.BotFlow.Sound.Options.{short_id-IsShortId, read_options_sound}

ids-push : (ns : List BotNode) (n : BotNode) → ids (push ns n) ≡ push (ids ns) n.id
unfolding push
ids-push [] n = refl
ids-push (m ∷ ns) n = ap (λ ks. m.id ∷ ks) (ids-push ns n)

pub contains-ids : (k : Text) (ns : List BotNode) → contains k (ids ns) ≡ has_node k ns
unfolding contains
contains-ids k [] = refl
contains-ids k (n ∷ ns) = ground (arith, contains-ids k ns)

text_errors_sound :
    (type : NodeType) (text : Text) (errors : List BotError)
    → text_errors type text errors ≡ []
    → (errors ≡ []) × (is_empty text ≡ false) × (length text ≤ text_max type)
unfolding text_errors
text_errors_sound type text errors e =
    let (h2, e1) = push_if-eq-nil _ _ _ e in
    let (h1, e0) = push_if-eq-nil _ _ _ e1 in (e0, h1, ltb-eq-false _ _ h2)

module _ (to_lower_case : Text → Text) where
  pub record NodesGood (s : NodeState) : Type 0 where
    pub nodes : All (IsNode to_lower_case) s.nodes
    pub node_ids : IsDistinct (ids s.nodes)

  record Kept (s s' : NodeState) : Type 0 where
    before : s.errors ≡ []
    good : NodesGood s → NodesGood s'
    longer : length s'.nodes ≡ length s.nodes + 1

  refuse : (s s' : NodeState) (x : BotError) → push s.errors x ≡ [] → Kept s s'
  refuse s s' x e = absurd (push-ne-nil _ _ e)

  -- A node whose id is new and that is well formed keeps the state good.
  NodesGood-push :
      (s : NodeState) (n : BotNode) (errors : List BotError)
      → IsNode to_lower_case n
      → has_node n.id s.nodes ≡ false
      → NodesGood s
      → NodesGood (record { errors = errors; nodes = push s.nodes n })
  NodesGood-push s n errors h fresh g = record {
    nodes = All-push (IsNode to_lower_case) s.nodes n g.nodes h;
    node_ids = rw ids-push (IsDistinct-push _ _ g.node_ids (rw contains-ids fresh));
  }

  accept_node_sound :
      (id : Text) (type : NodeType) (text : Text) (r : Fields) (s : NodeState)
      → IsShortId id
      → has_node id s.nodes ≡ false
      → (accept_node to_lower_case id type text r s).errors ≡ []
      → Kept s (accept_node to_lower_case id type text r s)
  unfolding accept_node
  accept_node_sound id message text r s short fresh e =
      let (e0, h1, h2) = text_errors_sound message text s.errors e in
      record {
        before = e0;
        good =
            NodesGood-push s _ _ (record { id = short; texted = h1; fits = h2; options = tt })
              fresh;
        longer = length-push s.nodes _;
      }
  accept_node_sound id question text r s short fresh e =
      let (e1, choice) = read_options_sound to_lower_case (take 30 text) (raw_options r) _ e in
      let (e0, h1, h2) = text_errors_sound question text s.errors e1 in
      record {
        before = e0;
        good =
            NodesGood-push s _ _ (record { id = short; texted = h1; fits = h2; options = choice })
              fresh;
        longer = length-push s.nodes _;
      }

  typed_node_sound :
      (id : Text) (r : Fields) (t : Option NodeType) (s : NodeState)
      → IsShortId id
      → has_node id s.nodes ≡ false
      → (typed_node to_lower_case id r t s).errors ≡ []
      → Kept s (typed_node to_lower_case id r t s)
  unfolding typed_node
  typed_node_sound id r none s short fresh e = refuse s _ _ e
  typed_node_sound id r (some type) s short fresh e = accept_node_sound id type _ r s short fresh e

  read_node_sound :
      (r : Fields) (t : Option Text) (s : NodeState)
      → ((k : Text) → t ≡ some k → IsShortId k)
      → (read_node to_lower_case r t s).errors ≡ []
      → Kept s (read_node to_lower_case r t s)
  unfolding read_node
  read_node_sound r none s h e = refuse s _ _ e
  read_node_sound r (some id) s h e = elim (Bool-cases (has_node id s.nodes)) [
    | inl old ↦ refuse s _ (repeated_node_id id) (ground (arith, e, old))
    | inr fresh ↦ rw fresh (typed_node_sound id r _ s (h id refl) fresh (rw fresh at e))
  ]

  add_node_sound :
      (s : NodeState) (v : Value)
      → (add_node to_lower_case s v).errors ≡ []
      → Kept s (add_node to_lower_case s v)
  unfolding add_node
  add_node_sound s (obj r) e =
      read_node_sound r (short_id (as_text (get_field (codes "id") r))) s
        (λ k q. short_id-IsShortId (as_text (get_field (codes "id") r)) q) e
  add_node_sound s _ e = refuse s _ _ e

  pub add_nodes_sound :
      (s : NodeState) (vs : List Value)
      → (add_nodes to_lower_case s vs).errors ≡ []
      → (s.errors ≡ [])
        × (NodesGood s → NodesGood (add_nodes to_lower_case s vs))
        × (length (add_nodes to_lower_case s vs).nodes ≡ length s.nodes + length vs)
  unfolding add_nodes
  add_nodes_sound s [] e = (e, λ g. g, omega arith)
  add_nodes_sound s (v ∷ vs) e =
      let (e', g, n) = add_nodes_sound (add_node to_lower_case s v) vs e in
      let k = add_node_sound s v e' in (k.before, λ h. g (k.good h), omega (arith, n, k.longer))
