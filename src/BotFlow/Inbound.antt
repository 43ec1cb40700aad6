-- ===== src/BotFlow/Inbound.antt =====
-- `startFlow` and `handleInbound` of src/api/services/bot.service.ts. `handleInbound` is given in two
-- parts, what it reads and decides first and what it writes from its claim on, so that deliveries of
-- one message may overlap.
mod Decisions
pub mod Retries
use Prim.Native.String.{String}
use lydia_bg_back.Prelude.{
  ℕ, Text, codes, List, [], ◌∷◌, ◌++◌, Bool, true, false, not, ◌&&◌, ◌||◌, Option, none, some, any,
  find, is_empty, push, contains, starts_with, ◌==◌, if◌then◌else◌,
}
use lydia_bg_back.Json.{Value}
use lydia_bg_back.BotFlow.Graph.{BotOption, BotNode, BotEdge, BotGraph, find_node}
use lydia_bg_back.BotFlow.Edges.{is_truthy, options_of}
use lydia_bg_back.BotFlow.Nodes.{text_or_empty}
use lydia_bg_back.BotFlow.Validate.{validate_bot_graph}
use lydia_bg_back.BotFlow.Engine.{
  Session, active, handoff, done, Flow, World, Outgoing, Inbound, button, other, find_session,
  update_many, update_session, parse_button, is_status, waits_for, option_edge, run, hand_over,
  try_update, outcome_world,
}

-- A button of the question that the session waits for.
pub record Answer : Type 0 where
  pub session_id : Text
  pub chat_id : Text
  pub graph : BotGraph
  pub node : BotNode
  pub option : BotOption

-- What `handleInbound` does after its reads.
pub data Decision : Type 0 where
  ignore : Decision
  hand_off : Text → Decision
  answer : Answer → Decision

-- The condition of the claim.
abbrev pub claims : Answer → Session → Bool
claims a s =
    s.id == a.session_id && (is_status s.status active && waits_for a.node.id s.current_node_id)

abbrev pub release : Session → Session
release s = record s { current_node_id = none }

-- the row of the flow that a session belongs to
abbrev pub find_flow : Text → List Flow → Option Flow
find_flow id fs = find (λ (f : Flow). f.id == id) fs

-- `Bot — ${node.text}\nRespuesta: ${option.title}`
abbrev pub answer_note : BotNode → BotOption → Text
answer_note n o = codes "Bot — " ++ (n.text ++ (10 ∷ (codes "Respuesta: " ++ o.title)))

-- `node?.options?.find((o) => o.id === optionId)`
unfoldable pub decide_option : Session → BotGraph → BotNode → Option BotOption → Decision
decide_option s g n none = ignore
decide_option s g n (some o) =
    answer (record { session_id = s.id; chat_id = s.chat_id; graph = g; node = n; option = o })

unfoldable pub decide_node : Session → BotGraph → Text → Option BotNode → Decision
unfolding decide_option
decide_node s g option none = ignore
decide_node s g option (some n) =
    decide_option s g n (find (λ (o : BotOption). o.id == option) (options_of n))

unfoldable pub decide_graph : Session → Text → Text → Option BotGraph → Decision
unfolding decide_node
decide_graph s node option none = ignore
decide_graph s node option (some g) = decide_node s g option (find_node node g.nodes)

module _ (to_lower_case : Text → Text) where
  unfoldable pub decide_button : World → Session → Text → Option Text → Decision
  unfolding decide_graph
  decide_button w s node none = ignore
  decide_button w s node (some option) =
      if is_empty node || (is_empty option || not (waits_for node s.current_node_id))
      then ignore
      else elim (find_flow s.flow_id w.flows) [
        | none ↦ ignore
        | some f ↦ decide_graph s node option (validate_bot_graph to_lower_case f.graph).graph
      ]

  unfoldable pub decide_session : World → Inbound → Session → Decision
  unfolding decide_button
  decide_session w other s = hand_off s.id
  decide_session w (button id) s =
      if starts_with id (codes "bot:")
      then (let (node, option) = parse_button id in decide_button w s node option)
      else hand_off s.id

  unfoldable pub decide : Text → Inbound → World → Decision
  unfolding decide_session
  decide chat inbound w = elim (find_session chat w.sessions) [
    | none ↦ ignore
    | some s ↦ if is_status s.status active then decide_session w inbound s else ignore
  ]

abbrev pub claimed : Answer → World → World
claimed a w = record w {
  sessions = update_many (claims a) release w.sessions;
  notes = push w.notes (a.chat_id, answer_note a.node a.option);
}

-- `botSession.create`, which throws on a second session of a chat, a used id or an unknown chat.
abbrev pub can_create : Text → Text → World → Bool
can_create id chat w =
    contains chat w.chats
    && (not (any (λ s. s.chat_id == chat) w.sessions) && not (any (λ s. s.id == id) w.sessions))

module _ (delivers : List Outgoing → Outgoing → Bool) where
  -- After the claim and the note: the session ends, or runs on from the edge's target.
  unfoldable pub follow : Answer → Option BotEdge → World → World
  unfolding update_session
  follow a none w = outcome_world (try_update a.session_id (λ s. record s { status = done }) w)
  follow a (some e) w = run delivers a.session_id a.graph e.target w

  unfoldable pub act : Decision → World → World
  unfolding follow
  act ignore w = w
  act (hand_off id) w = record w {
    sessions = update_many (λ s. s.id == id && is_status s.status active) hand_over w.sessions;
  }
  act (answer a) w =
      if any (claims a) w.sessions
      then follow a (option_edge a.graph.edges a.node.id a.option.id) (claimed a w)
      else w

  unfoldable pub start_session : Text → Text → Text → Flow → BotGraph → World → World
  start_session id chat start f g w =
      if can_create id chat w
      then run delivers id g start (record w {
        sessions = push w.sessions (record {
          id = id;
          chat_id = chat;
          flow_id = f.id;
          current_node_id = none;
          status = active;
        });
      })
      else w

  unfoldable pub start_graph : Text → Text → Flow → Option BotGraph → World → World
  unfolding start_session
  start_graph id chat f none w = w
  start_graph id chat f (some g) w =
      if is_truthy g.start_node_id
      then start_session id chat (text_or_empty g.start_node_id) f g w
      else w

unfoldable pub handle_inbound :
    (Text → Text) → (List Outgoing → Outgoing → Bool) → Text → Inbound → World → World
unfolding decide act
handle_inbound to_lower_case delivers chat inbound w =
    act delivers (decide to_lower_case chat inbound w) w

-- The result says whether the instance has a flow. `id` is the id that the database gives a session.
unfoldable pub start_flow :
    (Text → Text) → (List Outgoing → Outgoing → Bool) → Text → Text → Text → World → Bool × World
unfolding start_graph
start_flow to_lower_case delivers id instance_id chat w =
    elim (find (λ (f : Flow). f.instance_id == instance_id) w.flows) [
      | none ↦ (false, w)
      | some f ↦ (
        true,
        if f.enabled
            then start_graph delivers id chat f (validate_bot_graph to_lower_case f.graph).graph w
            else w,
      )
    ]
