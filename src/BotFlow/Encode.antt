-- ===== src/BotFlow/Encode.antt =====
-- The JSON value of a graph, as `saveFlow` of src/api/services/bot.service.ts stores it (`graph as object`).
use lydia_bg_back.Prelude.{Text, codes, List, [], ◌∷◌, Option, none, some}
use lydia_bg_back.Json.{Value, null, str, num, arr, obj, Fields, end, prop, of_items}
use lydia_bg_back.BotFlow.Graph.{NodeType, message, question, BotOption, BotNode, BotEdge, BotGraph}

abbrev pub value_of_text : Option Text → Value
value_of_text none = null
value_of_text (some t) = str t

abbrev pub value_of_option : BotOption → Value
value_of_option o = obj (prop (codes "id") (str o.id) (prop (codes "title") (str o.title) end))

abbrev pub values_of_options : List BotOption → List Value
values_of_options [] = []
values_of_options (o ∷ os) = value_of_option o ∷ values_of_options os

abbrev pub name_of_type : NodeType → Text
name_of_type message = codes "message"
name_of_type question = codes "question"

abbrev pub options_field : Option (List BotOption) → Fields
options_field none = end
options_field (some os) = prop (codes "options") (arr (of_items (values_of_options os))) end

abbrev pub node_fields : BotNode → Fields
node_fields n = prop (codes "id") (str n.id) (
    prop (codes "type") (str (name_of_type n.type)) (
      prop (codes "text") (str n.text)
        (prop (codes "x") (num n.x) (prop (codes "y") (num n.y) (options_field n.options)))))

abbrev pub value_of_node : BotNode → Value
value_of_node n = obj (node_fields n)

abbrev pub values_of_nodes : List BotNode → List Value
values_of_nodes [] = []
values_of_nodes (n ∷ ns) = value_of_node n ∷ values_of_nodes ns

abbrev pub value_of_edge : BotEdge → Value
value_of_edge e = obj (
    prop (codes "id") (str e.id) (
      prop (codes "from") (str e.source) (
        prop (codes "fromOption") (value_of_text e.from_option) (
          prop (codes "to") (str e.target)
            (prop (codes "toHandle") (value_of_text e.to_handle) end)))))

abbrev pub values_of_edges : List BotEdge → List Value
values_of_edges [] = []
values_of_edges (e ∷ es) = value_of_edge e ∷ values_of_edges es

abbrev pub value_of_graph : BotGraph → Value
value_of_graph g = obj (
    prop (codes "startNodeId") (value_of_text g.start_node_id) (
      prop (codes "nodes") (arr (of_items (values_of_nodes g.nodes)))
        (prop (codes "edges") (arr (of_items (values_of_edges g.edges))) end)))
