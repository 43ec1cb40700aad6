-- ===== src/BotFlow/Nodes.antt =====
-- The loop over `nodes` of `validateBotGraph` (src/api/services/bot-flow.validation.ts), with the one
-- over the options of a question. Each loop is a fold of its body over a record of the variables that
-- it writes. `toLowerCase` is a parameter, as its tables are Unicode's.
use lydia_bg_back.Prelude.{
  ◌+◌, Text, codes, List, [], ◌∷◌, ◌||◌, Option, none, some, is_empty, length, take, push, push_if,
  ltb, contains, trim, ◌==◌, if◌then◌else◌,
}
use lydia_bg_back.Json.{Value, Number, finite, num, obj, Fields, as_text, as_array, get_field}
use lydia_bg_back.BotFlow.Graph.{
  NodeType, message, question, BotOption, BotNode, max_options, option_title_max, id_max, text_max,
  BotError, bad_node_id, repeated_node_id, bad_node_type, empty_text, long_text, bad_option_count,
  bad_option_id, empty_option, long_option, repeated_option, repeated_option_id, has_node,
}

-- `isRecord(v) && typeof v.id === 'string' && v.id && v.id.length <= idMax`, with the id; the two
-- loops that test it then read other fields of the same object.
unfoldable pub short_id : Option Text → Option Text
short_id none = none
short_id (some s) = if is_empty s || ltb id_max (length s) then none else some s

abbrev pub own_fields : Value → Option Fields
own_fields (obj r) = some r
own_fields _ = none

abbrev pub text_or_empty : Option Text → Text
text_or_empty none = []
text_or_empty (some s) = s

-- `typeof v === 'number' && Number.isFinite(v) ? v : 0`
abbrev pub coordinate : Option Value → Number
coordinate (some (num (finite n))) = finite n
coordinate _ = finite 0

-- the trimmed text of a field, empty if it is no string
unfoldable pub trimmed : Text → Fields → Text
unfolding trim
trimmed k r = trim (text_or_empty (as_text (get_field k r)))

pub record OptionState : Type 0 where
  pub errors : List BotError
  pub titles : List Text
  pub option_ids : List Text
  pub options : List BotOption

pub record NodeState : Type 0 where
  pub errors : List BotError
  pub nodes : List BotNode

abbrev pub raw_options : Fields → List Value
raw_options r = elim (as_array (get_field (codes "options") r)) [ none ↦ [] | some vs ↦ vs ]

abbrev pub first_options : List BotError → OptionState
first_options errors = record { errors = errors; titles = []; option_ids = []; options = [] }

unfoldable pub text_errors : NodeType → Text → List BotError → List BotError
text_errors type text errors =
    push_if (ltb (text_max type) (length text)) (long_text type)
      (push_if (is_empty text) (empty_text type) errors)

abbrev pub make_node : Text → NodeType → Text → Fields → Option (List BotOption) → BotNode
make_node id type text r options = record {
  id = id;
  type = type;
  text = text;
  x = coordinate (get_field (codes "x") r);
  y = coordinate (get_field (codes "y") r);
  options = options;
}

unfoldable pub node_type : Option Text → Option NodeType
node_type none = none
node_type (some s) =
    if s == codes "message"
    then some message
    else if s == codes "question"
    then some question
    else none

-- The options of a question.
module _ (to_lower_case : Text → Text) where
  unfoldable pub accept_option : Text → Text → Text → OptionState → OptionState
  accept_option label id title s =
      let e1 = push_if (is_empty title) (empty_option label) s.errors in
      let e2 = push_if (ltb option_title_max (length title)) (long_option title) e1 in
      let e3 = push_if (contains (to_lower_case title) s.titles) (repeated_option label title) e2 in
      let e4 = push_if (contains id s.option_ids) (repeated_option_id label) e3 in
      record {
        errors = e4;
        titles = to_lower_case title ∷ s.titles;
        option_ids = id ∷ s.option_ids;
        options = push s.options (record { id = id; title = title });
      }

  unfoldable pub read_option : Text → Fields → Option Text → OptionState → OptionState
  unfolding accept_option
  read_option label r none s = record s { errors = push s.errors (bad_option_id label) }
  read_option label r (some id) s = accept_option label id (trimmed (codes "title") r) s

  unfoldable pub add_option : Text → OptionState → Value → OptionState
  unfolding read_option short_id
  add_option label s (obj r) = read_option label r (short_id (as_text (get_field (codes "id") r))) s
  add_option label s v = record s { errors = push s.errors (bad_option_id label) }

  unfoldable pub add_options : Text → OptionState → List Value → OptionState
  add_options label s [] = s
  add_options label s (v ∷ vs) = add_options label (add_option label s v) vs

  -- The nodes.
  unfoldable pub read_options : Text → List Value → List BotError → OptionState
  unfolding add_options add_option
  read_options label raws errors =
      let count = length raws in
      add_options label
        (first_options
          (push_if (ltb count 1 || ltb max_options count) (bad_option_count label) errors))
        (take (max_options + 1) raws)

  unfoldable pub question_options : Text → Fields → List BotError → OptionState
  unfolding read_options
  question_options label r errors = read_options label (raw_options r) errors

  unfoldable pub accept_node : Text → NodeType → Text → Fields → NodeState → NodeState
  unfolding text_errors question_options
  accept_node id message text r s = record {
    errors = text_errors message text s.errors;
    nodes = push s.nodes (make_node id message text r none);
  }
  accept_node id question text r s =
      let os = question_options (take 30 text) r (text_errors question text s.errors) in
      record {
        errors = os.errors;
        nodes = push s.nodes (make_node id question text r (some os.options));
      }

  unfoldable pub typed_node : Text → Fields → Option NodeType → NodeState → NodeState
  unfolding accept_node trimmed
  typed_node id r none s = record s { errors = push s.errors (bad_node_type id) }
  typed_node id r (some type) s = accept_node id type (trimmed (codes "text") r) r s

  unfoldable pub read_node : Fields → Option Text → NodeState → NodeState
  unfolding typed_node node_type
  read_node r none s = record s { errors = push s.errors bad_node_id }
  read_node r (some id) s =
      if has_node id s.nodes
      then record s { errors = push s.errors (repeated_node_id id) }
      else typed_node id r (node_type (as_text (get_field (codes "type") r))) s

  unfoldable pub add_node : NodeState → Value → NodeState
  unfolding read_node short_id
  add_node s (obj r) = read_node r (short_id (as_text (get_field (codes "id") r))) s
  add_node s v = record s { errors = push s.errors bad_node_id }

  unfoldable pub add_nodes : NodeState → List Value → NodeState
  add_nodes s [] = s
  add_nodes s (v ∷ vs) = add_nodes (add_node s v) vs
