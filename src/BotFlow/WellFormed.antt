-- ===== src/BotFlow/WellFormed.antt =====
-- What a bot's graph must be for the engine, written without the validation's loops.
use lydia_bg_back.Prelude.{
  ◌≤◌, ◌<◌, Text, List, [], ◌∷◌, true, false, ◌≡◌, Option, none, some, is_empty, length, All,
  IsDistinct,
}
use lydia_bg_back.BotFlow.Graph.{
  NodeType, message, question, BotOption, BotNode, BotEdge, BotGraph, max_nodes, max_options,
  option_title_max, id_max, text_max, find_node, has_node,
}
use lydia_bg_back.BotFlow.Cycle.{ids}
use lydia_bg_back.BotFlow.Cycle.Walks.{IsWalk}
use lydia_bg_back.BotFlow.Nodes.{text_or_empty}
use lydia_bg_back.BotFlow.Edges.{is_truthy, offers, source_key}

abbrev pub IsShortId : Text → Type 0
IsShortId k = (is_empty k ≡ false) × (length k ≤ id_max)

pub record IsOption (o : BotOption) : Type 0 where
  pub id : IsShortId o.id
  pub titled : is_empty o.title ≡ false
  pub fits : length o.title ≤ option_title_max

abbrev pub option_ids : List BotOption → List Text
option_ids [] = []
option_ids (o ∷ os) = o.id ∷ option_ids os

abbrev pub option_titles : (Text → Text) → List BotOption → List Text
option_titles to_lower_case [] = []
option_titles to_lower_case (o ∷ os) = to_lower_case o.title ∷ option_titles to_lower_case os

-- From one to three buttons, no two with one id or with titles that differ in case alone.
pub record IsChoice (to_lower_case : Text → Text) (os : List BotOption) : Type 0 where
  pub some_option : 1 ≤ length os
  pub few : length os ≤ max_options
  pub options : All IsOption os
  pub ids : IsDistinct (option_ids os)
  pub titles : IsDistinct (option_titles to_lower_case os)

abbrev pub HasOptions : (Text → Text) → NodeType → Option (List BotOption) → Type 0
HasOptions to_lower_case message none = Unit
HasOptions to_lower_case question (some os) = IsChoice to_lower_case os
HasOptions to_lower_case _ _ = ⊥

pub record IsNode (to_lower_case : Text → Text) (n : BotNode) : Type 0 where
  pub id : IsShortId n.id
  pub texted : is_empty n.text ≡ false
  pub fits : length n.text ≤ text_max n.type
  pub options : HasOptions to_lower_case n.type n.options

-- An edge leaves a question by one of its buttons, and a message by none.
abbrev pub LeavesBy : BotNode → NodeType → Option Text → Type 0
LeavesBy n message option = is_truthy option ≡ false
LeavesBy n question option = (is_truthy option ≡ true) × (offers n option ≡ true)

pub record IsEdge (nodes : List BotNode) (e : BotEdge) : Type 0 where
  pub from : BotNode
  pub found : find_node e.source nodes ≡ some from
  pub leaves : LeavesBy from from.type e.from_option
  pub arrives : has_node e.target nodes ≡ true

abbrev pub source_keys : List BotEdge → List Text
source_keys [] = []
source_keys (e ∷ es) = source_key e.source e.from_option ∷ source_keys es

abbrev pub HasStart : List BotNode → Option Text → Type 0
HasStart [] start = Unit
HasStart (n ∷ ns) start =
    (is_truthy start ≡ true) × (has_node (text_or_empty start) (n ∷ ns) ≡ true)

pub record IsWellFormed (to_lower_case : Text → Text) (g : BotGraph) : Type 0 where
  pub few : length g.nodes ≤ max_nodes
  pub nodes : All (IsNode to_lower_case) g.nodes
  pub node_ids : IsDistinct (ids g.nodes)
  pub edges : All (IsEdge g.nodes) g.edges
  pub sources : IsDistinct (source_keys g.edges)
  pub start : HasStart g.nodes g.start_node_id
  pub short_walks :
      (u : Text) (vs : List Text)
      → has_node u g.nodes ≡ true
      → IsWalk g.edges u vs
      → length vs < length g.nodes
