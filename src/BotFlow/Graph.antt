-- ===== src/BotFlow/Graph.antt =====
-- The graph of a bot, its limits and the validation's messages (src/api/services/bot-flow.validation.ts).
use lydia_bg_back.Prelude.{ℕ, Text, List, [], ◌∷◌, Bool, Option, find, any, ◌==◌, if◌then◌else◌}
use lydia_bg_back.Json.{Number}

pub data NodeType : Type 0 where
  message question : NodeType

pub record BotOption : Type 0 where
  pub id : Text
  pub title : Text

-- `options` is absent from a message.
pub record BotNode : Type 0 where
  pub id : Text
  pub type : NodeType
  pub text : Text
  pub x : Number
  pub y : Number
  pub options : Option (List BotOption)

pub record BotEdge : Type 0 where
  pub id : Text
  pub source : Text
  pub from_option : Option Text
  pub target : Text
  pub to_handle : Option Text

pub record BotGraph : Type 0 where
  pub start_node_id : Option Text
  pub nodes : List BotNode
  pub edges : List BotEdge

-- BOT_LIMITS
abbrev pub max_nodes : ℕ
max_nodes = 30

abbrev pub max_options : ℕ
max_options = 3

abbrev pub option_title_max : ℕ
option_title_max = 20

abbrev pub question_text_max : ℕ
question_text_max = 1024

abbrev pub message_text_max : ℕ
message_text_max = 4096

abbrev pub id_max : ℕ
id_max = 64

abbrev pub text_max : NodeType → ℕ
text_max question = question_text_max
text_max message = message_text_max

-- The messages of `errors`, in the order of the source, with the texts that they quote.
pub data BotError : Type 0 where
  not_a_graph : BotError
  too_many_nodes : BotError
  bad_node_id : BotError
  repeated_node_id : Text → BotError
  bad_node_type : Text → BotError
  empty_text : NodeType → BotError
  long_text : NodeType → BotError
  bad_option_count : Text → BotError
  bad_option_id : Text → BotError
  empty_option : Text → BotError
  long_option : Text → BotError
  repeated_option : Text → Text → BotError
  repeated_option_id : Text → BotError
  malformed_edge : BotError
  dangling_edge : BotError
  unknown_option : Text → BotError
  message_with_option : Text → BotError
  two_targets : Text → BotError
  no_start : BotError
  cyclic : BotError

-- `nodes.find((n) => n.id === id)`. The `nodeById` of the validation is this search too: a node
-- whose id is there already is never added.
abbrev pub find_node : Text → List BotNode → Option BotNode
find_node k nodes = find (λ n. n.id == k) nodes

abbrev pub has_node : Text → List BotNode → Bool
has_node k nodes = any (λ n. n.id == k) nodes

-- `next.get(id) ?? []`: the targets of the edges that leave `id`, in order.
unfoldable pub next : List BotEdge → Text → List Text
next [] k = []
next (e ∷ es) k = let rest = next es k in if e.source == k then e.target ∷ rest else rest
