-- ===== src/BotFlow/FlowTests.antt =====
-- Calls of `saveFlow` on small tables, and the theorems at them.
use lydia_bg_back.Prelude.{
  ℕ, zero, suc, Text, codes, [], ◌∷◌, true, false, ◌≡◌, refl, ap, ◌∙◌, none, some, length, trim,
  trim_start, trim_end, is_space, push, push_if, contains, lookup, ◌==◌, ok, err, bad_request,
  arith,
}
use lydia_bg_back.Json.{bool, str}
use lydia_bg_back.Table.{update_row}
use lydia_bg_back.BotFlow.Graph.{BotGraph, next}
use lydia_bg_back.BotFlow.Cycle.{has_cycle, reached_from}
use lydia_bg_back.BotFlow.Validate.{is_start, validate_bot_graph}
use lydia_bg_back.BotFlow.WellFormed.{IsWellFormed}
use lydia_bg_back.BotFlow.Encode.{value_of_graph}
use lydia_bg_back.BotFlow.Reread.{validate_bot_graph-value_of_graph}
use lydia_bg_back.BotFlow.Engine.{World}
use lydia_bg_back.BotFlow.Inbound.{start_flow}
use lydia_bg_back.BotFlow.Flows.{Config, FlowView, FlowData, welcome_node, get_flow, save_flow}
use lydia_bg_back.BotFlow.Saved.{IsSaved, save_flow-get_flow, save_flow-IsWellFormed}
use lydia_bg_back.BotFlow.LongWelcome.{turn_on, save_flow-start_flow}
use lydia_bg_back.BotFlow.Welcomes.{get_config, update_config, get_config-update_config}
use lydia_bg_back.BotFlow.Tests.{lower, all_delivered, raw_flow, nodes, edges}

-- What the tests compute with.
flows : Unit {0}
unfolding validate_bot_graph has_cycle next reached_from get_flow save_flow lookup ◌==◌ push push_if
    contains update_row
flows = tt

abbrev graph : BotGraph
graph = record { start_node_id = some (codes "a"); nodes = nodes; edges = edges }

abbrev cfg : Config
cfg = record { instances = (codes "main", codes "i") ∷ []; flows = []; welcomes = [] }

abbrev body : FlowData
body = record { enabled = some (bool true); graph = some raw_flow }

abbrev view : FlowView
view = record { enabled = true; graph = graph; warnings = [] }

-- A bot without a step is not turned on.
nothing_to_start :
    (save_flow lower (codes "f") (codes "main") (record body { graph = none }) cfg).0
    ≡ err bad_request
unfolding flows
nothing_to_start = refl

validate_bot_graph-value_of_graph_example :
    validate_bot_graph lower (value_of_graph graph) ≡ validate_bot_graph lower raw_flow
unfolding flows
validate_bot_graph-value_of_graph_example =
    validate_bot_graph-value_of_graph lower raw_flow graph refl

save_flow-get_flow_example :
    get_flow lower (codes "main") (save_flow lower (codes "f") (codes "main") body cfg).1 ≡ ok view
unfolding flows
save_flow-get_flow_example =
    save_flow-get_flow lower (codes "f") (codes "main") body raw_flow cfg view refl refl

save_flow-IsWellFormed_example :
    IsSaved (codes "main") view (save_flow lower (codes "f") (codes "main") body cfg).1
    × (IsWellFormed lower graph × (true ≡ true → is_start nodes (some (codes "a")) ≡ true))
unfolding flows
save_flow-IsWellFormed_example =
    save_flow-IsWellFormed lower (codes "f") (codes "main") body raw_flow cfg view refl refl

letters : ℕ → Text
letters zero = []
letters (suc n) = 97 ∷ letters n

trim_start-letters : (n : ℕ) → trim_start (letters n) ≡ letters n
unfolding trim_start letters is_space
trim_start-letters zero = refl
trim_start-letters (suc n) = refl

trim_end-letters : (n : ℕ) → trim_end (letters n) ≡ letters n
unfolding trim_end letters is_space
trim_end-letters zero = refl
trim_end-letters (suc n) = ap (λ s. 97 ∷ s) (trim_end-letters n)

length-letters : (n : ℕ) → length (letters n) ≡ n
unfolding letters
length-letters zero = refl
length-letters (suc n) = ap suc (length-letters n)

trim-letters : (n : ℕ) → trim (letters n) ≡ letters n
unfolding trim
trim-letters n = ap trim_end (trim_start-letters n) ∙ trim_end-letters n

abbrev welcomed : Config
welcomed = record cfg {
  welcomes = record { instance_id = codes "i"; enabled = true; message = some (letters 5000) } ∷ [];
}

abbrev world : World
world = record {
  chats = codes "k" ∷ [];
  flows = (save_flow lower (codes "f") (codes "main") turn_on welcomed).1.flows;
  sessions = [];
  notes = [];
  sent = [];
}

save_flow-start_flow_example :
    ((save_flow lower (codes "f") (codes "main") turn_on welcomed).0
      ≡ ok (record {
        enabled = true;
        graph = record {
          start_node_id = some (codes "welcome");
          nodes = welcome_node (trim (letters 5000)) ∷ [];
          edges = [];
        };
        warnings = [];
      }))
    × (start_flow lower all_delivered (codes "s") (codes "i") (codes "k") world ≡ (true, world))
unfolding lookup ◌==◌
save_flow-start_flow_example =
    save_flow-start_flow lower (codes "f") (codes "main") (codes "i") welcomed
      (record { instance_id = codes "i"; enabled = true; message = some (letters 5000) })
      (letters 5000) all_delivered (codes "s") (codes "k") world refl refl refl refl
      (omega (arith, ap length (trim-letters 5000), length-letters 5000)) refl

get_config-update_config_example :
    (get_config
        (codes "main")
        (update_config
          (codes "main")
          (record { enabled = some (bool true); message = some (str (codes " Hola ")) })
          cfg).1
      ≡ ok (record { enabled = true; message = codes "Hola" }))
    × (false ≡ false)
unfolding flows update_config trim
get_config-update_config_example =
    get_config-update_config (codes "main")
      (record { enabled = some (bool true); message = some (str (codes " Hola ")) }) cfg
      (record { enabled = true; message = codes "Hola" }) refl
