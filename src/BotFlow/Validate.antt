-- ===== src/BotFlow/Validate.antt =====
-- `validateBotGraph` of src/api/services/bot-flow.validation.ts, from its two loops and two searches.
use lydia_bg_back.Prelude.{
  ℕ, ◌+◌, Text, codes, List, [], ◌∷◌, Bool, not, ◌&&◌, Option, none, some, filter, is_empty, length,
  take, push_if, ltb, contains, if◌then◌else◌,
}
use lydia_bg_back.Json.{Value, obj, Fields, as_text, as_array, get_field}
use lydia_bg_back.BotFlow.Cycle.{has_cycle, reached_from}
use lydia_bg_back.BotFlow.Graph.{
  BotNode, BotEdge, BotGraph, max_nodes, BotError, not_a_graph, too_many_nodes, no_start, cyclic,
  has_node,
}
use lydia_bg_back.BotFlow.Nodes.{text_or_empty, NodeState, add_node, add_nodes}
use lydia_bg_back.BotFlow.Edges.{is_truthy, EdgeState, add_edge, add_edges}

-- `for (const raw of input.nodes.slice(0, maxNodes + 1))`, after the test of their number.
unfoldable pub checked_nodes : (Text → Text) → List Value → NodeState
unfolding add_nodes add_node
checked_nodes to_lower_case raws =
    add_nodes to_lower_case
      (record { errors = push_if (ltb max_nodes (length raws)) too_many_nodes []; nodes = [] })
      (take (max_nodes + 1) raws)

unfoldable pub checked_edges : NodeState → List Value → EdgeState
unfolding add_edges add_edge
checked_edges ns raws =
    add_edges ns.nodes (record { errors = ns.errors; used_sources = []; edges = [] }) raws

-- `startNodeId && nodeById.has(startNodeId)`
abbrev pub is_start : List BotNode → Option Text → Bool
is_start nodes start = is_truthy start && has_node (text_or_empty start) nodes

pub data BotWarning : Type 0 where
  unreachable_steps : ℕ → BotWarning

pub record Validation : Type 0 where
  pub errors : List BotError
  pub warnings : List BotWarning
  pub graph : Option BotGraph

unfoldable pub final_errors :
    List BotNode → List BotEdge → Option Text → List BotError → List BotError
final_errors nodes edges start errors =
    push_if (has_cycle nodes edges) cyclic
      (push_if (not (is_empty nodes) && not (is_start nodes start)) no_start errors)

-- `nodes.filter((n) => !reached.has(n.id))`
abbrev pub orphans : List BotNode → Option (List Text) → List BotNode
orphans nodes none = []
orphans nodes (some reached) = filter (λ n. not (contains n.id reached)) nodes

unfoldable pub reach_warnings : List BotNode → List BotEdge → Option Text → List BotWarning
reach_warnings nodes edges start =
    if is_start nodes start
    then (let left = orphans nodes (reached_from edges (text_or_empty start)) in
        if is_empty left then [] else unreachable_steps (length left) ∷ [])
    else []

unfoldable pub validation : Option Text → NodeState → EdgeState → Validation
unfolding final_errors reach_warnings
validation start ns es =
    let errors = final_errors ns.nodes es.edges start es.errors in
    record {
      errors = errors;
      warnings = reach_warnings ns.nodes es.edges start;
      graph =
          if is_empty errors
          then some (record { start_node_id = start; nodes = ns.nodes; edges = es.edges })
          else none;
    }

unfoldable pub validate_parts :
    (Text → Text) → Fields → Option (List Value) → Option (List Value) → Validation
unfolding validation checked_nodes checked_edges
validate_parts to_lower_case r (some raw_nodes) (some raw_edges) =
    let ns = checked_nodes to_lower_case raw_nodes in
    validation (as_text (get_field (codes "startNodeId") r)) ns (checked_edges ns raw_edges)
validate_parts to_lower_case r _ _ = record {
  errors = not_a_graph ∷ [];
  warnings = [];
  graph = none;
}

unfoldable pub validate_bot_graph : (Text → Text) → Value → Validation
unfolding validate_parts
validate_bot_graph to_lower_case (obj r) =
    validate_parts to_lower_case r (as_array (get_field (codes "nodes") r))
      (as_array (get_field (codes "edges") r))
validate_bot_graph to_lower_case v = record {
  errors = not_a_graph ∷ [];
  warnings = [];
  graph = none;
}
