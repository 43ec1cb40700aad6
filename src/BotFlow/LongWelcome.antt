-- ===== src/BotFlow/LongWelcome.antt =====
-- A welcome message that is too long for a step: `saveFlow` stores the flow that it makes of the message
-- without validating it.
use lydia_bg_back.Prelude.{
  ◌<◌, ltb, Text, codes, List, [], ◌∷◌, Bool, true, false, ◌≡◌, refl, ap, sym, subst, ◌∙◌, none,
  some, is_empty, length, trim, push, push_if, contains, lookup, ◌==◌, if◌then◌else◌, ok, arith,
}
use lydia_bg_back.Json.{bool}
use lydia_bg_back.Table.{find_row}
use lydia_bg_back.BotFlow.Graph.{message, BotGraph, long_text, cyclic, message_text_max}
use lydia_bg_back.BotFlow.Validate.{validate_bot_graph}
use lydia_bg_back.BotFlow.Encode.{value_of_graph}
use lydia_bg_back.BotFlow.Engine.{World, Outgoing}
use lydia_bg_back.BotFlow.Inbound.{start_flow, start_graph}
use lydia_bg_back.BotFlow.Reread.Options.{trim_idem}
use lydia_bg_back.BotFlow.Saved.{find-upsert_flow}
use lydia_bg_back.BotFlow.Flows.{
  Config, FlowData, Welcome, flow_key, welcome_key, find_instance, welcome_node, welcome_graph,
  store_flow, flow_view, new_graph, save_graph, save_flow, Saved,
}

-- The flow that a welcome message makes.
abbrev one_step : Text → BotGraph
one_step text = record {
  start_node_id = some (codes "welcome");
  nodes = welcome_node text ∷ [];
  edges = [];
}

-- The request that turns the bot on.
abbrev pub turn_on : FlowData
turn_on = record { enabled = some (bool true); graph = none }

not_empty : (s : Text) → message_text_max < length s → is_empty s ≡ false
not_empty [] k = absurd (omega (arith, k))
not_empty (c ∷ s) k = refl

module _ (to_lower_case : Text → Text) where
  one_step-invalid :
      (t : Text)
      → message_text_max < length (trim t)
      → (validate_bot_graph to_lower_case (value_of_graph (one_step t))).graph ≡ none
  unfolding validate_bot_graph lookup ◌==◌ push push_if contains
  one_step-invalid t h =
      let long : ltb message_text_max (length (trim t)) ≡ true = ground (arith, h) in
      rw long (rw (not_empty (trim t) h) (refused _ _))
    where
      refused :
          (b : Bool) (g : BotGraph)
          → (if is_empty (if b then long_text message ∷ (cyclic ∷ []) else (long_text message ∷ []))
              then some g
              else none)
            ≡ none
      refused true g = refl
      refused false g = refl

  graph-flow_view :
      (id : Text) (cfg : Config) (w : Welcome) (m : Text)
      → find_row flow_key id cfg.flows ≡ none
      → find_row welcome_key id cfg.welcomes ≡ some w
      → w.message ≡ some m
      → message_text_max < length (trim m)
      → (flow_view to_lower_case id cfg).graph ≡ one_step (trim m)
  unfolding flow_view welcome_graph
  graph-flow_view id cfg w m no_flow has_welcome text long =
      rw (flow_view, no_flow, has_welcome) (rw text (rw (not_empty (trim m) long) refl))

  -- If an instance has no flow and its welcome message has more than 4096 characters, `saveFlow` turns the
  -- bot on, with that message as the one step; but `startFlow` then says for every chat that there is a
  -- flow, and neither starts a session nor sends a message.
  pub save_flow-start_flow :
      (new_id name id : Text) (cfg : Config) (w : Welcome) (m : Text)
      (delivers : List Outgoing → Outgoing → Bool) (session chat : Text) (world : World)
      → find_instance name cfg ≡ ok id
      → find_row flow_key id cfg.flows ≡ none
      → find_row welcome_key id cfg.welcomes ≡ some w
      → w.message ≡ some m
      → message_text_max < length (trim m)
      → world.flows ≡ (save_flow to_lower_case new_id name turn_on cfg).1.flows
      → ((save_flow to_lower_case new_id name turn_on cfg).0
          ≡ ok (record { enabled = true; graph = one_step (trim m); warnings = [] }))
        × (start_flow to_lower_case delivers session id chat world ≡ (true, world))
  unfolding save_flow save_graph new_graph start_flow start_graph store_flow
  save_flow-start_flow new_id name id cfg w m delivers session chat world found no_flow has_welcome
        text long same =
      let saved : save_flow to_lower_case new_id name turn_on cfg
          ≡ save_graph to_lower_case new_id id true (some (one_step (trim m), [])) cfg =
        rw (save_flow, found)
          (ap (λ g. save_graph to_lower_case new_id id true (some (g, [])) cfg)
            (graph-flow_view id cfg w m no_flow has_welcome text long)) in
      let (f, (row, (on, stored))) =
        find-upsert_flow new_id id true (one_step (trim m)) cfg.flows in
      let there = ap (find_row flow_key id) (same ∙ ap (λ (z : Saved). z.1.flows) saved) ∙ row in
      let invalid =
        ap (λ v. (validate_bot_graph to_lower_case v).graph) stored
        ∙ one_step-invalid (trim m)
            (subst (λ z. message_text_max < length z) (sym (trim_idem m)) long) in
      (
        ap (λ z. z.0) saved,
        rw (start_flow, there)
            (rw on (ap (λ o. (true, start_graph delivers session chat f o world)) invalid)),
      )
