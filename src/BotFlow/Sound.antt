-- ===== src/BotFlow/Sound.antt =====
-- What a graph that `validateBotGraph` returns has.
pub mod Options
pub mod Nodes
pub mod Edges
use lydia_bg_back.Prelude.{
  ℕ, zero, suc, ◌+◌, ◌≤◌, ◌<◌, Text, codes, List, [], ◌∷◌, Bool, true, false, not, ◌&&◌, ◌≡◌, refl,
  ap, subst, Option, none, some, inl, inr, is_empty, length, push, push-ne-nil, contains, ◌||◌,
  push_if, All, IsDistinct, ◌==◌, if◌then◌else◌, arith, Bool-cases, push_if-eq-nil, take, ltb, min,
  length-take,
}
use lydia_bg_back.Json.{Value, obj, as_text, as_array, get_field, Fields, null, bool, num, str, arr}
use lydia_bg_back.BotFlow.Graph.{
  BotNode, BotEdge, BotGraph, BotError, max_nodes, too_many_nodes, has_node,
}
use lydia_bg_back.BotFlow.Nodes.{NodeState, text_or_empty}
use lydia_bg_back.BotFlow.Edges.{EdgeState, is_truthy}
use lydia_bg_back.BotFlow.Cycle.{ids, has_cycle}
use lydia_bg_back.BotFlow.Cycle.Walks.{no_cycle-IsWalk_lt}
use lydia_bg_back.BotFlow.Validate.{
  checked_nodes, checked_edges, final_errors, validation, validate_parts, validate_bot_graph,
  is_start,
}
use lydia_bg_back.BotFlow.WellFormed.{IsNode, IsEdge, HasStart, IsWellFormed, source_keys}
use Nodes.{NodesGood, add_nodes_sound, contains-ids}
use Edges.{EdgesGood, add_edges_sound, IsEdge-IsClosed}

checked_nodes_sound :
    (to_lower_case : Text → Text) (raws : List Value)
    → (checked_nodes to_lower_case raws).errors ≡ []
    → NodesGood to_lower_case (checked_nodes to_lower_case raws)
      × (length (checked_nodes to_lower_case raws).nodes ≤ max_nodes)
unfolding checked_nodes
checked_nodes_sound to_lower_case raws e =
    let (e1, g, n) = add_nodes_sound to_lower_case _ (take (max_nodes + 1) raws) e in
    let (h, _) = push_if-eq-nil _ _ _ e1 in
    let fits : length raws ≤ max_nodes = ground arith in
    (
      g (record { nodes = tt; node_ids = tt }),
      omega (arith, n, length-take {0} (max_nodes + 1) raws),
    )

pub checked_edges_sound :
    (ns : NodeState) (raws : List Value)
    → (checked_edges ns raws).errors ≡ []
    → (ns.errors ≡ []) × EdgesGood ns.nodes (checked_edges ns raws)
unfolding checked_edges
checked_edges_sound ns raws e =
    let (e1, g) = add_edges_sound ns.nodes _ raws e in
    (e1, g (record { edges = tt; sources = tt; same_sources = λ k. refl }))

pub final_errors_sound :
    (nodes : List BotNode) (es : List BotEdge) (start : Option Text) (errors : List BotError)
    → final_errors nodes es start errors ≡ []
    → (errors ≡ []) × HasStart nodes start × (has_cycle nodes es ≡ false)
unfolding final_errors
final_errors_sound nodes es start errors e =
    let (h2, e1) = push_if-eq-nil _ _ _ e in
    let (h1, e0) = push_if-eq-nil _ _ _ e1 in (e0, started nodes h1, h2)
  where
    started :
        (ns : List BotNode)
        → (not (is_empty ns) && not (is_start ns start)) ≡ false
        → HasStart ns start
    started [] h = tt
    started (n ∷ ns) h = ground arith

is_empty-nil : (es : List BotError) → is_empty es ≡ true → es ≡ []
is_empty-nil [] h = refl
is_empty-nil (e ∷ es) h = cc

unfoldable pub graph_of : Option Text → NodeState → EdgeState → BotGraph
graph_of start ns es = record { start_node_id = start; nodes = ns.nodes; edges = es.edges }

-- A graph is returned only when there is no error, and it is the one that was read.
pub validation-graph :
    (start : Option Text) (ns : NodeState) (es : EdgeState) (g : BotGraph)
    → (validation start ns es).graph ≡ some g
    → (final_errors ns.nodes es.edges start es.errors ≡ []) × (graph_of start ns es ≡ g)
unfolding validation graph_of
validation-graph start ns es g e =
    elim (Bool-cases (is_empty (final_errors ns.nodes es.edges start es.errors))) [
      | inl t ↦ (is_empty-nil _ t, some-inj (rw t at e))
      | inr t ↦ absurd (none-some (rw t at e))
    ]
  where
    some-inj : {a b : BotGraph} → some a ≡ some b → a ≡ b
    some-inj h = cc

    none-some : none ≡ some g → ⊥
    none-some h = cc

validation_sound :
    (to_lower_case : Text → Text) (start : Option Text) (raw_nodes raw_edges : List Value)
    (g : BotGraph)
    → (validation start
        (checked_nodes to_lower_case raw_nodes)
        (checked_edges (checked_nodes to_lower_case raw_nodes) raw_edges)).graph
      ≡ some g
    → IsWellFormed to_lower_case g
unfolding graph_of
validation_sound to_lower_case start raw_nodes raw_edges g e =
    let ns = checked_nodes to_lower_case raw_nodes in
    let es = checked_edges ns raw_edges in
    let (none_left, same) = validation-graph start ns es g e in
    let (e1, started, acyclic) = final_errors_sound ns.nodes es.edges start es.errors none_left in
    let (e0, edges_good) = checked_edges_sound ns raw_edges e1 in
    let (nodes_good, few) = checked_nodes_sound to_lower_case raw_nodes e0 in
    subst (IsWellFormed to_lower_case) same (record {
      few = few;
      nodes = nodes_good.nodes;
      node_ids = nodes_good.node_ids;
      edges = edges_good.edges;
      sources = edges_good.sources;
      start = started;
      short_walks = λ u vs there walk.
          no_cycle-IsWalk_lt ns.nodes es.edges u vs
            (IsEdge-IsClosed ns.nodes es.edges edges_good.edges) acyclic (rw contains-ids there)
            walk;
    })

validate_parts_sound :
    (to_lower_case : Text → Text) (r : Fields) (raw_nodes raw_edges : Option (List Value))
    (g : BotGraph)
    → (validate_parts to_lower_case r raw_nodes raw_edges).graph ≡ some g
    → IsWellFormed to_lower_case g
unfolding validate_parts
validate_parts_sound to_lower_case r (some rn) (some re) g e =
    validation_sound to_lower_case _ rn re g e
validate_parts_sound to_lower_case r none _ g e = cc
validate_parts_sound to_lower_case r (some rn) none g e = cc

-- Whatever value is posted or stored, a graph that the validation returns is well formed: at most 30
-- nodes, whose ids are short, not empty and distinct and whose texts are not empty and within
-- WhatsApp's limits; from one to three buttons with distinct ids and distinct titles on a question and
-- none on a message; edges between nodes, from a button of a question or from a message, at most one
-- from each source; a start among the nodes if there are any; and no walk from a node that passes as
-- many edges as there are nodes, so no cycle.
pub validate_bot_graph_sound :
    (to_lower_case : Text → Text) (input : Value) (g : BotGraph)
    → (validate_bot_graph to_lower_case input).graph ≡ some g
    → IsWellFormed to_lower_case g
unfolding validate_bot_graph
validate_bot_graph_sound to_lower_case (obj r) g e =
    validate_parts_sound to_lower_case r (as_array (get_field (codes "nodes") r))
      (as_array (get_field (codes "edges") r)) g e
validate_bot_graph_sound to_lower_case _ g e = cc
