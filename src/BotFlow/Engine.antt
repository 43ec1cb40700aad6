-- ===== src/BotFlow/Engine.antt =====
-- The engine of src/api/services/bot.service.ts: `startFlow`, `handleInbound` and `run`, over the tables
-- that they read and write. A send that throws is one that the channel does not deliver: `delivers`
-- is a parameter, and may depend on all that was sent before.
pub mod Buttons
pub mod Sessions
pub mod Settled
pub mod Steps
use Prim.Native.String.{String}
use lydia_bg_back.Prelude.{
  ℕ, zero, suc, ◌+◌, Text, codes, List, [], ◌∷◌, ◌++◌, Bool, true, false, not, ◌&&◌, ◌||◌, Option,
  none, some, any, find, is_empty, drop, push, starts_with, split_first, ◌==◌, if◌then◌else◌,
}
use lydia_bg_back.Json.{Value}
use lydia_bg_back.BotFlow.Graph.{
  NodeType, message, question, BotOption, BotNode, BotEdge, BotGraph, max_nodes, find_node,
}
use lydia_bg_back.BotFlow.Edges.{is_truthy, options_of}
use lydia_bg_back.BotFlow.Validate.{validate_bot_graph}

pub data Status : Type 0 where
  active handoff done : Status

pub record Session : Type 0 where
  pub id : Text
  pub chat_id : Text
  pub flow_id : Text
  pub current_node_id : Option Text
  pub status : Status

-- A row of BotFlow; `graph` is its JSON column.
pub record Flow : Type 0 where
  pub id : Text
  pub instance_id : Text
  pub enabled : Bool
  pub graph : Value

pub data Outgoing : Type 0 where
  text : Text → Outgoing
  buttons : Text → List BotOption → Outgoing

-- The tables that the engine uses, and what has been sent so far. A chat is its id.
pub record World : Type 0 where
  pub chats : List Text
  pub flows : List Flow
  pub sessions : List Session
  pub notes : List (Text × Text)
  pub sent : List Outgoing

pub data Inbound : Type 0 where
  button : Text → Inbound
  other : Inbound

abbrev pub find_session : Text → List Session → Option Session
find_session chat ss = find (λ (s : Session). s.chat_id == chat) ss

-- `updateMany`: the rows that meet the condition are changed.
unfoldable pub update_many : (Session → Bool) → (Session → Session) → List Session → List Session
update_many p f [] = []
update_many p f (s ∷ ss) = (if p s then f s else s) ∷ update_many p f ss

-- `botSession.update({ where: { id } })`, which throws if there is no such row
unfoldable pub update_session : Text → (Session → Session) → World → Option World
unfolding update_many
update_session id f w =
    if any (λ s. s.id == id) w.sessions
    then some (record w { sessions = update_many (λ s. s.id == id) f w.sessions })
    else none

-- `bot:<node>:<option>`
unfoldable pub button_id : Text → Text → Text
button_id node option = codes "bot:" ++ (node ++ (b':' ∷ option))

abbrev pub button_options : Text → List BotOption → List BotOption
button_options node [] = []
button_options node (o ∷ os) =
    record { id = button_id node o.id; title = o.title } ∷ button_options node os

-- `const [nodeId, optionId] = buttonId.slice(4).split(':')`, if `buttonId` has the prefix
unfoldable pub parse_button : Text → Text × Option Text
parse_button id =
    let (node, rest) = split_first b':' (drop 4 id) in
    (node, elim rest [ [] ↦ none | o ∷ _ ↦ some o ])

abbrev pub is_status : Status → Status → Bool
is_status active active = true
is_status handoff handoff = true
is_status done done = true
is_status _ _ = false

abbrev pub waits_for : Text → Option Text → Bool
waits_for node none = false
waits_for node (some k) = k == node

-- The target of the first edge that leaves a node, as `run` takes it from a message.
abbrev pub first_target : List BotEdge → Text → Option Text
first_target es id = elim (find (λ e. e.source == id) es) [ none ↦ none | some e ↦ some e.target ]

abbrev pub same_option : Option Text → Text → Bool
same_option none k = false
same_option (some j) k = j == k

-- The edge of a button.
abbrev pub option_edge : List BotEdge → Text → Text → Option BotEdge
option_edge es node option = find (λ e. e.source == node && same_option e.from_option option) es

-- How the body of the `try` in `run` ends.
pub data Outcome : Type 0 where
  returned threw : World → Outcome

-- An update of a row that may be gone.
abbrev pub try_update : Text → (Session → Session) → World → Outcome
try_update id f w = elim (update_session id f w) [ none ↦ threw w | some w' ↦ returned w' ]

-- The state when an error is dropped.
abbrev pub outcome_world : Outcome → World
outcome_world (returned w) = w
outcome_world (threw w) = w

-- `{ status: 'handoff', currentNodeId: null }`
abbrev pub hand_over : Session → Session
hand_over s = record s { status = handoff; current_node_id = none }

-- `{ status: 'done', currentNodeId: null }`
abbrev pub conclude : Session → Session
conclude s = record s { status = done; current_node_id = none }

module _ (delivers : List Outgoing → Outgoing → Bool) where
  unfoldable pub send : Outgoing → World → Outcome
  send o w = if delivers w.sent o then returned (record w { sent = push w.sent o }) else threw w

  abbrev pub and_then : Outcome → (World → Outcome) → Outcome
  and_then (returned w) f = f w
  and_then (threw w) f = threw w

  -- The update after the loop.
  unfoldable pub finish : Text → World → Outcome
  unfolding update_session
  finish sid w = try_update sid conclude w

  -- One round at a node: a question ends the loop, a message goes on with `rest`.
  unfoldable pub run_node :
      Text → BotGraph → NodeType → BotNode → (Option Text → World → Outcome) → World → Outcome
  unfolding update_session send
  run_node sid g question n rest w =
      and_then (try_update sid (λ s. record s { current_node_id = some n.id }) w)
        (send (buttons n.text (button_options n.id (options_of n))))
  run_node sid g message n rest w =
      and_then (send (text n.text) w) (rest (first_target g.edges n.id))

  -- The loop, by the steps left; an empty or missing id ends it, as does one that names no node.
  unfoldable pub run_steps : ℕ → Text → BotGraph → Option Text → World → Outcome
  unfolding finish
  run_steps zero sid g next w = finish sid w
  run_steps (suc k) sid g none w = finish sid w
  run_steps (suc k) sid g (some id) w =
      if is_empty id then finish sid w else elim (find_node id g.nodes) [
        | none ↦ finish sid w
        | some n ↦ run_node sid g n.type n (run_steps k sid g) w
      ]

  -- The `catch` of `run`: the chat goes to a person, and an error of that update is dropped.
  unfoldable pub settle : Text → Outcome → World
  unfolding update_session
  settle sid (returned w) = w
  settle sid (threw w) = outcome_world (try_update sid hand_over w)

  unfoldable pub run : Text → BotGraph → Text → World → World
  unfolding run_steps run_node settle
  run sid g start w = settle sid (run_steps max_nodes sid g (some start) w)
