-- ===== src/BotFlow/Flows.antt =====
-- `getFlow` and `saveFlow` of src/api/services/bot.service.ts, over the instances, the flows and the
-- welcome messages. The JSON column of a flow is assumed to give back the value that was stored.
use lydia_bg_back.Prelude.{
  Text, codes, List, [], ◌∷◌, Bool, true, false, not, ◌&&◌, Option, none, some, is_empty, trim,
  push, lookup, if◌then◌else◌, bad_request, not_found, Result, ok, err,
}
use lydia_bg_back.Json.{Value, bool, finite}
use lydia_bg_back.Table.{find_row, update_row}
use lydia_bg_back.BotFlow.Graph.{message, BotNode, BotGraph, find_node}
use lydia_bg_back.BotFlow.Edges.{is_truthy}
use lydia_bg_back.BotFlow.Validate.{BotWarning, Validation, validate_bot_graph}
use lydia_bg_back.BotFlow.Encode.{value_of_graph}
use lydia_bg_back.BotFlow.Engine.{Flow}

-- A row of WelcomeMessageConfig.
pub record Welcome : Type 0 where
  pub instance_id : Text
  pub enabled : Bool
  pub message : Option Text

-- The tables; the instances are pairs of a name and an id.
pub record Config : Type 0 where
  pub instances : List (Text × Text)
  pub flows : List Flow
  pub welcomes : List Welcome

-- What both calls return, but for the name.
pub record FlowView : Type 0 where
  pub enabled : Bool
  pub graph : BotGraph
  pub warnings : List BotWarning

-- The body of a request; a missing field is undefined.
pub record FlowData : Type 0 where
  pub enabled : Option Value
  pub graph : Option Value

abbrev pub flow_key : Flow → Text
flow_key f = f.instance_id

abbrev pub welcome_key : Welcome → Text
welcome_key w = w.instance_id

abbrev pub empty_graph : BotGraph
empty_graph = record { start_node_id = none; nodes = []; edges = [] }

abbrev pub find_instance : Text → Config → Result Text
find_instance name cfg =
    if is_empty name
    then err bad_request
    else elim (lookup name cfg.instances) [ none ↦ err not_found | some id ↦ ok id ]

abbrev pub graph_or_empty : Option BotGraph → BotGraph
graph_or_empty none = empty_graph
graph_or_empty (some g) = g

-- The flow of one step that a welcome message makes.
abbrev pub welcome_node : Text → BotNode
welcome_node text = record {
  id = codes "welcome";
  type = message;
  text = text;
  x = finite 0;
  y = finite 0;
  options = none;
}

unfoldable pub welcome_graph : Option Text → BotGraph
unfolding trim
welcome_graph none = empty_graph
welcome_graph (some m) = if is_empty (trim m) then empty_graph else record {
  start_node_id = some (codes "welcome");
  nodes = welcome_node (trim m) ∷ [];
  edges = [];
}

abbrev pub view_of_welcome : Option Welcome → FlowView
view_of_welcome none = record { enabled = false; graph = empty_graph; warnings = [] }
view_of_welcome (some w) = record {
  enabled = w.enabled;
  graph = welcome_graph w.message;
  warnings = [];
}

-- `data.enabled !== undefined && typeof data.enabled !== 'boolean'`, and the value
abbrev pub is_flag : Option Value → Bool
is_flag none = true
is_flag (some (bool b)) = true
is_flag (some v) = false

abbrev pub flag_of : Option Value → Option Bool
flag_of (some (bool b)) = some b
flag_of _ = none

-- `data.enabled ?? existing?.enabled ?? false`
abbrev pub enabled_of : Option Bool → Option Flow → Bool
enabled_of (some b) existing = b
enabled_of none none = false
enabled_of none (some f) = f.enabled

-- A flow can be on if it has a start and a step.
abbrev pub can_enable : BotGraph → Bool
can_enable g = is_truthy g.start_node_id && not (is_empty g.nodes)

abbrev pub set_flow : Bool → BotGraph → Flow → Flow
set_flow enabled g f = record f { enabled = enabled; graph = value_of_graph g }

-- `botFlow.upsert`; `new_id` is the id of a new row.
unfoldable pub upsert_flow : Text → Text → Bool → BotGraph → List Flow → List Flow
unfolding update_row push
upsert_flow new_id id enabled g flows = elim (find_row flow_key id flows) [
  | none ↦
      push flows
        (record { id = new_id; instance_id = id; enabled = enabled; graph = value_of_graph g })
  | some f ↦ update_row flow_key id (set_flow enabled g) flows
]

abbrev pub set_welcome : Bool → Text → Welcome → Welcome
set_welcome enabled text w = record w { enabled = enabled; message = some text }

unfoldable pub upsert_welcome : Text → Bool → Text → List Welcome → List Welcome
unfolding update_row push
upsert_welcome id enabled text welcomes = elim (find_row welcome_key id welcomes) [
  | none ↦ push welcomes (record { instance_id = id; enabled = enabled; message = some text })
  | some w ↦ update_row welcome_key id (set_welcome enabled text) welcomes
]

-- `graph.nodes.find((n) => n.id === graph.startNodeId)`
abbrev pub first_node : BotGraph → Option BotNode
first_node g = elim g.start_node_id [ none ↦ none | some id ↦ find_node id g.nodes ]

abbrev pub sync_welcome : Text → Bool → Option BotNode → List Welcome → List Welcome
sync_welcome id enabled none welcomes = welcomes
sync_welcome id enabled (some n) welcomes = upsert_welcome id enabled n.text welcomes

unfoldable pub store_flow : Text → Text → Bool → BotGraph → Config → Config
unfolding upsert_flow upsert_welcome
store_flow new_id id enabled g cfg = record cfg {
  flows = upsert_flow new_id id enabled g cfg.flows;
  welcomes = sync_welcome id enabled (first_node g) cfg.welcomes;
}

abbrev pub Saved : Type 0
Saved = Result FlowView × Config

module _ (to_lower_case : Text → Text) where
  abbrev pub view_of_flow : Flow → FlowView
  view_of_flow f =
      let v = validate_bot_graph to_lower_case f.graph in
      record { enabled = f.enabled; graph = graph_or_empty v.graph; warnings = v.warnings }

  unfoldable pub flow_view : Text → Config → FlowView
  unfolding validate_bot_graph welcome_graph
  flow_view id cfg = elim (find_row flow_key id cfg.flows) [
    | none ↦ view_of_welcome (find_row welcome_key id cfg.welcomes)
    | some f ↦ view_of_flow f
  ]

  unfoldable pub get_flow : Text → Config → Result FlowView
  unfolding flow_view
  get_flow name cfg = elim (find_instance name cfg) [
    | err thrown ↦ err thrown
    | ok id ↦ ok (flow_view id cfg)
  ]

  -- What is to be stored, and its warnings.
  abbrev pub validated : Validation → Option (BotGraph × List BotWarning)
  validated v = elim v.graph [ none ↦ none | some g ↦ some (g, v.warnings) ]

  unfoldable pub new_graph : Text → Option Value → Config → Option (BotGraph × List BotWarning)
  unfolding flow_view validate_bot_graph
  new_graph id none cfg = some ((flow_view id cfg).graph, [])
  new_graph id (some v) cfg = validated (validate_bot_graph to_lower_case v)

  unfoldable pub save_graph :
      Text → Text → Bool → Option (BotGraph × List BotWarning) → Config → Saved
  unfolding store_flow
  save_graph new_id id enabled none cfg = (err bad_request, cfg)
  save_graph new_id id enabled (some (g, warnings)) cfg =
      if enabled && not (can_enable g) then (err bad_request, cfg) else (
        ok (record { enabled = enabled; graph = g; warnings = warnings }),
        store_flow new_id id enabled g cfg,
      )

  unfoldable pub save_flow : Text → Text → FlowData → Config → Saved
  unfolding save_graph new_graph
  save_flow new_id name body cfg =
      if not (is_flag body.enabled) then (err bad_request, cfg) else elim (find_instance name cfg) [
        | err thrown ↦ (err thrown, cfg)
        | ok id ↦
            save_graph new_id id
              (enabled_of (flag_of body.enabled) (find_row flow_key id cfg.flows))
              (new_graph id body.graph cfg) cfg
      ]
