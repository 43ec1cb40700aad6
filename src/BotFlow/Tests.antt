-- ===== src/BotFlow/Tests.antt =====
-- Runs of the bot on a small flow, and the theorems at it.
use Prim.Native.String.{String}
use lydia_bg_back.Prelude.{
  ◌+◌, ◌<◌, Text, codes, List, [], ◌∷◌, Bool, true, false, ◌&&◌, ◌≡◌, ◌≢◌, refl, none, some, map,
  length, leb, if◌then◌else◌, arith, contains, starts_with, split_first, push, push_if, lookup,
  ◌==◌,
}
use lydia_bg_back.Json.{Value, str, arr, obj, end, prop, nil, cons, finite}
use lydia_bg_back.BotFlow.Graph.{message, question, BotNode, BotEdge, BotGraph, max_nodes, next}
use lydia_bg_back.BotFlow.Cycle.{has_cycle, IsClosed, Dfs, search_cycle}
use lydia_bg_back.BotFlow.Cycle.Walks.{no_cycle-IsWalk_lt}
use lydia_bg_back.BotFlow.Cycle.Total.{search_cycle_total}
use lydia_bg_back.BotFlow.Validate.{validate_bot_graph}
use lydia_bg_back.BotFlow.WellFormed.{IsWellFormed}
use lydia_bg_back.BotFlow.Sound.{validate_bot_graph_sound}
use lydia_bg_back.BotFlow.Sound.Edges.{IsEdge-IsClosed}
use lydia_bg_back.BotFlow.Engine.{
  Session, active, done, Flow, World, Outgoing, text, buttons, button, button_id, parse_button,
  find_session, run_steps, run,
}
use lydia_bg_back.BotFlow.Engine.Settled.{Left, run-Left}
use lydia_bg_back.BotFlow.Engine.Buttons.{has_colon, parse_button-button_id}
use lydia_bg_back.BotFlow.Engine.Steps.{run_steps_enough}
use lydia_bg_back.BotFlow.Inbound.{handle_inbound, start_flow}
use lydia_bg_back.BotFlow.Inbound.Retries.{handle_inbound_idem}

-- What the tests compute with.
bot : Unit {0}
unfolding validate_bot_graph start_flow handle_inbound run button_id parse_button has_cycle next
    lookup ◌==◌ push push_if contains split_first starts_with
bot = tt

-- `toLowerCase` on ASCII
abbrev pub lower : Text → Text
lower = map (λ c. if leb b'A' c && leb c b'Z' then c + 32 else c)

abbrev pub all_delivered : List Outgoing → Outgoing → Bool
all_delivered sent o = true

abbrev field : String → String → Value
field k v = obj (prop (codes k) (str (codes v)) end)

abbrev raw_option : String → String → Value
raw_option id title =
    obj (prop (codes "id") (str (codes id)) (prop (codes "title") (str (codes title)) end))

abbrev raw_message : String → String → Value
raw_message id t = obj (
    prop (codes "id") (str (codes id))
      (prop (codes "type") (str (codes "message")) (prop (codes "text") (str (codes t)) end)))

abbrev raw_question : Value
raw_question = obj (
    prop (codes "id") (str (codes "q")) (
      prop (codes "type") (str (codes "question")) (
        prop (codes "text") (str (codes " Curso? ")) (
          prop (codes "options") (arr (cons (raw_option "s" "Si") (cons (raw_option "n" "No") nil)))
            end))))

abbrev raw_edge : String → String → Value
raw_edge from to = obj (
    prop (codes "id") (str (codes "e"))
      (prop (codes "from") (str (codes from)) (prop (codes "to") (str (codes to)) end)))

abbrev raw_answer : Value
raw_answer = obj (
    prop (codes "id") (str (codes "f")) (
      prop (codes "from") (str (codes "q"))
        (prop (codes "fromOption") (str (codes "s")) (prop (codes "to") (str (codes "c")) end))))

abbrev pub raw_flow : Value
raw_flow = obj (
    prop (codes "startNodeId") (str (codes "a")) (
      prop (codes "nodes")
        (arr
          (cons (raw_message "a" "Hola") (cons raw_question (cons (raw_message "c" "Chau") nil))))
        (prop (codes "edges") (arr (cons (raw_edge "a" "q") (cons raw_answer nil))) end)))

abbrev node : String → String → BotNode
node id t = record {
  id = codes id;
  type = message;
  text = codes t;
  x = finite 0;
  y = finite 0;
  options = none;
}

abbrev question_node : BotNode
question_node = record {
  id = codes "q";
  type = question;
  text = codes "Curso?";
  x = finite 0;
  y = finite 0;
  options = some (
      record { id = codes "s"; title = codes "Si" }
      ∷ record { id = codes "n"; title = codes "No" }
      ∷ []);
}

abbrev pub edges : List BotEdge
edges =
    record {
      id = codes "e";
      source = codes "a";
      from_option = none;
      target = codes "q";
      to_handle = none;
    }
    ∷ record {
      id = codes "f";
      source = codes "q";
      from_option = some (codes "s");
      target = codes "c";
      to_handle = none;
    }
    ∷ []

abbrev pub nodes : List BotNode
nodes = node "a" "Hola" ∷ question_node ∷ node "c" "Chau" ∷ []

abbrev flow_graph : BotGraph
flow_graph = record { start_node_id = some (codes "a"); nodes = nodes; edges = edges }

raw_flow_valid : (validate_bot_graph lower raw_flow).graph ≡ some flow_graph
unfolding bot
raw_flow_valid = refl

-- The flow with an edge back from its last step has a cycle.
cyclic_edge : BotEdge
cyclic_edge = record {
  id = codes "g";
  source = codes "c";
  from_option = none;
  target = codes "a";
  to_handle = none;
}

has_cycle_back : has_cycle nodes (push edges cyclic_edge) ≡ true
unfolding bot cyclic_edge
has_cycle_back = refl

abbrev stored : Flow
stored = record { id = codes "f1"; instance_id = codes "i1"; enabled = true; graph = raw_flow }

abbrev empty_world : World
empty_world = record {
  chats = codes "5491" ∷ [];
  flows = stored ∷ [];
  sessions = [];
  notes = [];
  sent = [];
}

abbrev session : Session
session = record {
  id = codes "s1";
  chat_id = codes "5491";
  flow_id = codes "f1";
  current_node_id = none;
  status = active;
}

abbrev waiting_world : World
waiting_world = record empty_world {
  sessions = record session { current_node_id = some (codes "q") } ∷ [];
  sent =
      text (codes "Hola")
      ∷ buttons (codes "Curso?") (
          record { id = codes "bot:q:s"; title = codes "Si" }
          ∷ record { id = codes "bot:q:n"; title = codes "No" }
          ∷ [])
      ∷ [];
}

start_flow_sends :
    (start_flow lower all_delivered (codes "s1") (codes "i1") (codes "5491") empty_world).1
    ≡ waiting_world
unfolding bot
start_flow_sends = refl

answer_ends_flow :
    (handle_inbound lower all_delivered
      (codes "5491")
      (button (codes "bot:q:s"))
      waiting_world).sessions
    ≡ record session { status = done } ∷ []
unfolding bot
answer_ends_flow = refl

-- Witnesses.
validate_bot_graph_sound_example : IsWellFormed lower flow_graph
validate_bot_graph_sound_example = validate_bot_graph_sound lower raw_flow flow_graph raw_flow_valid

handle_inbound_idem_example :
    handle_inbound lower all_delivered
      (codes "5491")
      (button (codes "bot:q:s"))
      (handle_inbound lower all_delivered (codes "5491") (button (codes "bot:q:s")) waiting_world)
    ≡ handle_inbound lower all_delivered (codes "5491") (button (codes "bot:q:s")) waiting_world
handle_inbound_idem_example =
    handle_inbound_idem lower all_delivered (codes "5491") (button (codes "bot:q:s")) waiting_world

run_steps_enough_example :
    run_steps all_delivered 50
      (codes "s1")
      flow_graph
      (some (codes "a"))
      (record empty_world { sessions = session ∷ [] })
    ≡ run_steps all_delivered max_nodes
        (codes "s1")
        flow_graph
        (some (codes "a"))
        (record empty_world { sessions = session ∷ [] })
run_steps_enough_example =
    run_steps_enough all_delivered (codes "s1") flow_graph lower raw_flow 50 (codes "a")
      (record empty_world { sessions = session ∷ [] }) raw_flow_valid (omega arith)

flow_graph-IsWellFormed : IsWellFormed lower flow_graph
flow_graph-IsWellFormed = validate_bot_graph_sound lower raw_flow flow_graph raw_flow_valid

edges-IsClosed : IsClosed nodes edges
edges-IsClosed = IsEdge-IsClosed nodes edges flow_graph-IsWellFormed.edges

no_cycle : has_cycle nodes edges ≡ false
unfolding bot
no_cycle = refl

no_cycle-IsWalk_lt_example : length (codes "q" ∷ codes "c" ∷ []) < length nodes
unfolding bot
no_cycle-IsWalk_lt_example =
    no_cycle-IsWalk_lt nodes edges (codes "a") (codes "q" ∷ codes "c" ∷ []) edges-IsClosed no_cycle
      refl (refl, (refl, tt))

search_cycle_total_example : (s : Dfs) × (search_cycle nodes edges ≡ some s)
search_cycle_total_example = search_cycle_total nodes edges edges-IsClosed

run-Left_example :
    (t : Session) × (find_session
        (codes "5491")
        (run all_delivered
          (codes "s1")
          flow_graph
          (codes "a")
          (record empty_world { sessions = session ∷ [] })).sessions
      ≡ some t)
    × (t.id ≡ codes "s1")
    × Left flow_graph (codes "a") session t
unfolding bot
run-Left_example =
    run-Left all_delivered (codes "5491") flow_graph (codes "a")
      (record empty_world { sessions = session ∷ [] }) session refl

parse_button-button_id_example :
    (starts_with (button_id (codes "q") (codes "s")) (codes "bot:") ≡ true)
    × (has_colon (codes "q") ≡ false
        → has_colon (codes "s") ≡ false
        → parse_button (button_id (codes "q") (codes "s")) ≡ (codes "q", some (codes "s")))
    × (has_colon (codes "q") ≡ true
        → (parse_button (button_id (codes "q") (codes "s"))).0 ≢ codes "q")
    × (has_colon (codes "q") ≡ false
        → has_colon (codes "s") ≡ true
        → (parse_button (button_id (codes "q") (codes "s"))).1 ≢ some (codes "s"))
parse_button-button_id_example = parse_button-button_id (codes "q") (codes "s")
