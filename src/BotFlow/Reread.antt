-- ===== src/BotFlow/Reread.antt =====
-- A validated graph, stored as JSON and validated again, as `getFlow` and the engine do with the
-- column that `saveFlow` has written.
pub mod Options
mod Nodes
mod Edges
use lydia_bg_back.Prelude.{
  ℕ, ◌+◌, ◌≤◌, Text, codes, List, [], ◌∷◌, ◌≡◌, refl, ap, sym, subst, ◌∙◌, Option, none, some,
  length, take, push_if, push_if-eq-nil, ltb, lookup, ◌==◌, if◌then◌else◌, arith,
}
use lydia_bg_back.Json.{
  Value, null, bool, num, str, arr, obj, Fields, items, of_items, as_text, as_array, get_field,
}
use lydia_bg_back.BotFlow.Graph.{BotGraph, max_nodes, too_many_nodes}
use lydia_bg_back.BotFlow.Nodes.{NodeState, add_nodes}
use lydia_bg_back.BotFlow.Edges.{EdgeState}
use lydia_bg_back.BotFlow.Validate.{
  Validation, checked_nodes, checked_edges, validation, validate_parts, validate_bot_graph,
}
use lydia_bg_back.BotFlow.Encode.{value_of_text, values_of_nodes, values_of_edges, value_of_graph}
use lydia_bg_back.BotFlow.Sound.{
  checked_edges_sound, final_errors_sound, graph_of, validation-graph,
}
use lydia_bg_back.BotFlow.Sound.Nodes.{add_nodes_sound}
use Options.{items-of_items, take-all}
use Nodes.{add_nodes_again}
use Edges.{as_text-value_of_text, add_edges_again}

module _ (to_lower_case : Text → Text) where
  checked_nodes_again :
      (raws : List Value)
      → (checked_nodes to_lower_case raws).errors ≡ []
      → checked_nodes to_lower_case (values_of_nodes (checked_nodes to_lower_case raws).nodes)
        ≡ checked_nodes to_lower_case raws
  unfolding checked_nodes
  checked_nodes_again raws e =
      let (e1, good, longer) = add_nodes_sound to_lower_case _ (take (max_nodes + 1) raws) e in
      let (h, e0) = push_if-eq-nil _ _ _ e1 in
      let fits : length raws ≤ max_nodes = ground (arith, h) in
      let (count, again) =
        add_nodes_again to_lower_case (from (length raws)) (take (max_nodes + 1) raws) refl e in
      let stored = values_of_nodes (checked_nodes to_lower_case raws).nodes in
      let same = count ∙ ap length (take-all (max_nodes + 1) raws (omega (arith, fits))) in
      ap (λ n. add_nodes to_lower_case (from n) (take (max_nodes + 1) stored)) same
      ∙ (ap (add_nodes to_lower_case (from (length raws)))
            (take-all (max_nodes + 1) stored (omega (arith, fits, same)))
          ∙ again)
    where
      from : ℕ → NodeState
      from n = record { errors = push_if (ltb max_nodes n) too_many_nodes []; nodes = [] }

  checked_edges_again :
      (ns : NodeState) (raws : List Value)
      → (checked_edges ns raws).errors ≡ []
      → checked_edges ns (values_of_edges (checked_edges ns raws).edges) ≡ checked_edges ns raws
  unfolding checked_edges
  checked_edges_again ns raws e = add_edges_again ns.nodes _ raws refl e

  whole : Option Text → List Value → List Value → Validation
  whole start raw_nodes raw_edges =
      validation start (checked_nodes to_lower_case raw_nodes)
        (checked_edges (checked_nodes to_lower_case raw_nodes) raw_edges)

  stored-whole :
      (g : BotGraph)
      → validate_bot_graph to_lower_case (value_of_graph g)
        ≡ whole g.start_node_id (values_of_nodes g.nodes) (values_of_edges g.edges)
  unfolding validate_bot_graph validate_parts whole lookup ◌==◌
  stored-whole g =
      ap
        (λ s.
          whole s (items (of_items (values_of_nodes g.nodes)))
            (items (of_items (values_of_edges g.edges))))
        (as_text-value_of_text g.start_node_id)
      ∙ (ap (λ vs. whole g.start_node_id vs (items (of_items (values_of_edges g.edges))))
            (items-of_items (values_of_nodes g.nodes))
          ∙ ap (whole g.start_node_id (values_of_nodes g.nodes))
              (items-of_items (values_of_edges g.edges)))

  whole_again :
      (start : Option Text) (raw_nodes raw_edges : List Value) (g : BotGraph)
      → (whole start raw_nodes raw_edges).graph ≡ some g
      → whole g.start_node_id (values_of_nodes g.nodes) (values_of_edges g.edges)
        ≡ whole start raw_nodes raw_edges
  unfolding whole graph_of
  whole_again start raw_nodes raw_edges g e =
      let ns = checked_nodes to_lower_case raw_nodes in
      let es = checked_edges ns raw_edges in
      let (none_left, same) = validation-graph start ns es g e in
      let (e1, started, acyclic) = final_errors_sound ns.nodes es.edges start es.errors none_left in
      let (e0, good) = checked_edges_sound ns raw_edges e1 in
      subst
        (λ (h : BotGraph).
          whole h.start_node_id (values_of_nodes h.nodes) (values_of_edges h.edges)
          ≡ whole start raw_nodes raw_edges)
        same
        (ap (λ n. validation start n (checked_edges n (values_of_edges es.edges)))
            (checked_nodes_again raw_nodes e0)
          ∙ ap (validation start ns) (checked_edges_again ns raw_edges e1))

  parts_again :
      (r : Fields) (raw_nodes raw_edges : Option (List Value)) (g : BotGraph)
      → (validate_parts to_lower_case r raw_nodes raw_edges).graph ≡ some g
      → validate_bot_graph to_lower_case (value_of_graph g)
        ≡ validate_parts to_lower_case r raw_nodes raw_edges
  unfolding validate_parts whole
  parts_again r (some rn) (some re) g e =
      stored-whole g ∙ whole_again (as_text (get_field (codes "startNodeId") r)) rn re g e
  parts_again r none _ g e = cc
  parts_again r (some rn) none g e = cc

  -- If the validation returns a graph, then the graph's JSON value is validated with the same result: the
  -- same graph and the same warnings, and no error.
  pub validate_bot_graph-value_of_graph :
      (input : Value) (g : BotGraph)
      → (validate_bot_graph to_lower_case input).graph ≡ some g
      → validate_bot_graph to_lower_case (value_of_graph g) ≡ validate_bot_graph to_lower_case input
  unfolding validate_bot_graph
  validate_bot_graph-value_of_graph (obj r) g e =
      parts_again r (as_array (get_field (codes "nodes") r))
        (as_array (get_field (codes "edges") r)) g e
  validate_bot_graph-value_of_graph _ g e = cc
