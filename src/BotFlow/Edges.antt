-- ===== src/BotFlow/Edges.antt =====
-- The loop over `edges` of `validateBotGraph` (src/api/services/bot-flow.validation.ts).
use lydia_bg_back.Prelude.{
  Text, codes, List, [], ◌∷◌, ◌++◌, Bool, false, not, ◌||◌, Option, none, some, any, is_empty, take,
  push, contains, ◌==◌, if◌then◌else◌,
}
use lydia_bg_back.Json.{Value, obj, Fields, as_text, get_field}
use lydia_bg_back.BotFlow.Graph.{
  NodeType, message, question, BotOption, BotNode, BotEdge, BotError, malformed_edge, dangling_edge,
  unknown_option, message_with_option, two_targets, find_node, has_node,
}
use lydia_bg_back.BotFlow.Nodes.{text_or_empty}

pub record EdgeState : Type 0 where
  pub errors : List BotError
  pub used_sources : List Text
  pub edges : List BotEdge

-- The edges. `fromOption` is falsy when it is absent or empty.
abbrev pub is_truthy : Option Text → Bool
is_truthy none = false
is_truthy (some s) = not (is_empty s)

abbrev pub options_of : BotNode → List BotOption
options_of n = elim n.options [ none ↦ [] | some os ↦ os ]

-- `from.options?.some((o) => o.id === fromOption)`
abbrev pub offers : BotNode → Option Text → Bool
offers n none = false
offers n (some k) = any (λ o. o.id == k) (options_of n)

-- The error of an edge that leaves `from`, if any.
unfoldable pub source_error : BotNode → NodeType → Option Text → Option BotError
source_error from question option =
    if not (is_truthy option) || not (offers from option)
    then some (unknown_option (take 30 from.text))
    else none
source_error from message option =
    if is_truthy option then some (message_with_option (take 30 from.text)) else none

-- `${raw.from}:${fromOption ?? ''}`
unfoldable pub source_key : Text → Option Text → Text
source_key from option = from ++ (b':' ∷ text_or_empty option)

unfoldable pub accept_edge : BotNode → BotEdge → EdgeState → EdgeState
unfolding source_key
accept_edge from e s =
    let key = source_key e.source e.from_option in
    if contains key s.used_sources
    then record s { errors = push s.errors (two_targets (take 30 from.text)) }
    else record { errors = s.errors; used_sources = key ∷ s.used_sources; edges = push s.edges e }

unfoldable pub check_edge : BotNode → BotEdge → Option BotError → EdgeState → EdgeState
unfolding accept_edge
check_edge from e (some err) s = record s { errors = push s.errors err }
check_edge from e none s = accept_edge from e s

unfoldable pub connect : List BotNode → BotEdge → Option BotNode → EdgeState → EdgeState
unfolding check_edge source_error
connect nodes e none s = record s { errors = push s.errors dangling_edge }
connect nodes e (some from) s =
    if has_node e.target nodes
    then check_edge from e (source_error from from.type e.from_option) s
    else record s { errors = push s.errors dangling_edge }

-- The three strings without which an edge is malformed, and the two optional ones.
unfoldable pub read_edge : Fields → Option Text → Option Text → Option Text → Option BotEdge
read_edge r (some id) (some from) (some to) = some (record {
  id = id;
  source = from;
  from_option = as_text (get_field (codes "fromOption") r);
  target = to;
  to_handle = as_text (get_field (codes "toHandle") r);
})
read_edge r _ _ _ = none

unfoldable pub edge_of : Value → Option BotEdge
unfolding read_edge
edge_of (obj r) =
    read_edge r (as_text (get_field (codes "id") r)) (as_text (get_field (codes "from") r))
      (as_text (get_field (codes "to") r))
edge_of v = none

unfoldable pub add_edge_of : List BotNode → Option BotEdge → EdgeState → EdgeState
unfolding connect
add_edge_of nodes none s = record s { errors = push s.errors malformed_edge }
add_edge_of nodes (some e) s = connect nodes e (find_node e.source nodes) s

unfoldable pub add_edge : List BotNode → EdgeState → Value → EdgeState
unfolding add_edge_of edge_of
add_edge nodes s v = add_edge_of nodes (edge_of v) s

unfoldable pub add_edges : List BotNode → EdgeState → List Value → EdgeState
add_edges nodes s [] = s
add_edges nodes s (v ∷ vs) = add_edges nodes (add_edge nodes s v) vs
