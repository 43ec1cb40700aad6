-- ===== src/BotFlow/Reread/Nodes.antt =====
-- The nodes of a graph, stored and read again.
use lydia_bg_back.Prelude.{
  suc, Text, codes, List, [], ◌∷◌, ◌++◌, false, ◌≡◌, refl, ap, sym, ◌∙◌, Option, none, some, inl,
  inr, length, take, trim, push, push-ne-nil, lookup, ◌==◌, Bool-cases,
}
use mathlib.Core.List.{append-nil, append_assoc}
use lydia_bg_back.Json.{
  Value, Number, nan, infinity, finite, null, bool, num, str, arr, obj, Fields, items, of_items,
  as_text, get_field,
}
use lydia_bg_back.BotFlow.Graph.{
  NodeType, message, question, BotOption, BotNode, BotError, has_node,
}
use lydia_bg_back.BotFlow.Nodes.{
  text_or_empty, short_id, coordinate, trimmed, OptionState, NodeState, make_node, raw_options,
  text_errors, read_options, question_options, accept_node, node_type, typed_node, read_node,
  add_node, add_nodes,
}
use lydia_bg_back.BotFlow.Encode.{
  values_of_options, name_of_type, node_fields, value_of_node, values_of_nodes,
}
use lydia_bg_back.BotFlow.Sound.Nodes.{add_nodes_sound}
use lydia_bg_back.BotFlow.Reread.Options.{
  trim_idem, items-of_items, short_id-some, read_options_again,
}

coordinate_idem : (v : Option Value) → coordinate (some (num (coordinate v))) ≡ coordinate v
coordinate_idem none = refl
coordinate_idem (some null) = refl
coordinate_idem (some (bool b)) = refl
coordinate_idem (some (num nan)) = refl
coordinate_idem (some (num infinity)) = refl
coordinate_idem (some (num (finite n))) = refl
coordinate_idem (some (str t)) = refl
coordinate_idem (some (arr vs)) = refl
coordinate_idem (some (obj r)) = refl

-- A node depends on the coordinates that are read.
at_place : Text → NodeType → Text → Option (List BotOption) → Number → Number → BotNode
at_place id type text options x y = record {
  id = id;
  type = type;
  text = text;
  x = x;
  y = y;
  options = options;
}

module _ (to_lower_case : Text → Text) where
  record Reread (s s' : NodeState) : Type 0 where
    node : BotNode
    added : s'.nodes ≡ push s.nodes node
    again : add_node to_lower_case s (value_of_node node) ≡ s'

  -- The stored form of a node is read up to the text and the options.
  stored_node :
      (s : NodeState) (n : BotNode)
      → short_id (some n.id) ≡ some n.id
      → has_node n.id s.nodes ≡ false
      → trim n.text ≡ n.text
      → add_node to_lower_case s (value_of_node n)
        ≡ accept_node to_lower_case n.id n.type n.text (node_fields n) s
  unfolding add_node read_node typed_node node_type trimmed lookup ◌==◌
  stored_node s n h fresh same =
      ap (λ t. read_node to_lower_case (node_fields n) t s) h
      ∙ (rw fresh (
          ap (λ t. typed_node to_lower_case n.id (node_fields n) t s) (type_again n.type)
          ∙ ap (λ t. accept_node to_lower_case n.id n.type t (node_fields n) s) same))
    where
      type_again : (type : NodeType) → node_type (some (name_of_type type)) ≡ some type
      type_again message = refl
      type_again question = refl

  accept_node_again :
      (id : Text) (type : NodeType) (t : Text) (r : Fields) (s : NodeState)
      → short_id (some id) ≡ some id
      → has_node id s.nodes ≡ false
      → (accept_node to_lower_case id type (trim t) r s).errors ≡ []
      → Reread s (accept_node to_lower_case id type (trim t) r s)
  unfolding accept_node question_options at_place lookup ◌==◌
  accept_node_again id message t r s h fresh e = record {
    node = make_node id message (trim t) r none;
    added = refl;
    again =
        stored_node s (make_node id message (trim t) r none) h fresh (trim_idem t)
        ∙ (ap (λ z. placed z (coordinate (some (num (coordinate (get_field (codes "y") r))))))
              (coordinate_idem (get_field (codes "x") r))
            ∙ ap (placed (coordinate (get_field (codes "x") r)))
                (coordinate_idem (get_field (codes "y") r)));
  }
    where
      placed : Number → Number → NodeState
      placed x y = record {
        errors = text_errors message (trim t) s.errors;
        nodes = push s.nodes (at_place id message (trim t) none x y);
      }
  accept_node_again id question t r s h fresh e = record {
    node = make_node id question (trim t) r (some read.options);
    added = refl;
    again =
        stored_node s (make_node id question (trim t) r (some read.options)) h fresh (trim_idem t)
        ∙ (ap
              (λ q.
                placed q (coordinate (some (num (coordinate (get_field (codes "x") r)))))
                  (coordinate (some (num (coordinate (get_field (codes "y") r))))))
              options_again
            ∙ (ap
                  (λ z.
                    placed read z (coordinate (some (num (coordinate (get_field (codes "y") r))))))
                  (coordinate_idem (get_field (codes "x") r))
                ∙ ap (placed read (coordinate (get_field (codes "x") r)))
                    (coordinate_idem (get_field (codes "y") r))));
  }
    where
      errors : List BotError
      errors = text_errors question (trim t) s.errors

      read : OptionState
      read = question_options to_lower_case (take 30 (trim t)) r errors

      placed : OptionState → Number → Number → NodeState
      placed q x y = record {
        errors = q.errors;
        nodes = push s.nodes (at_place id question (trim t) (some q.options) x y);
      }

      options_again :
          read_options to_lower_case
            (take 30 (trim t))
            (items (of_items (values_of_options read.options)))
            errors
          ≡ read
      options_again =
          ap (λ vs. read_options to_lower_case (take 30 (trim t)) vs errors)
            (items-of_items (values_of_options read.options))
          ∙ read_options_again to_lower_case (take 30 (trim t)) (raw_options r) errors e

  read_node_again :
      (r : Fields) (o : Option Text) (s : NodeState)
      → ((k : Text) → o ≡ some k → short_id (some k) ≡ some k)
      → (read_node to_lower_case r o s).errors ≡ []
      → Reread s (read_node to_lower_case r o s)
  unfolding read_node
  read_node_again r none s h e = absurd (push-ne-nil _ _ e)
  read_node_again r (some id) s h e = elim (Bool-cases (has_node id s.nodes)) [
    | inl old ↦ absurd (push-ne-nil _ _ (rw old at e))
    | inr fresh ↦
        rw fresh (typed (node_type (as_text (get_field (codes "type") r))) fresh (rw fresh at e))
  ]
    where
      typed :
          (t : Option NodeType)
          → has_node id s.nodes ≡ false
          → (typed_node to_lower_case id r t s).errors ≡ []
          → Reread s (typed_node to_lower_case id r t s)
      typed none fresh e = absurd (push-ne-nil _ _ e)
      typed (some type) fresh e =
          accept_node_again id type (text_or_empty (as_text (get_field (codes "text") r))) r s
            (h id refl) fresh e

  add_node_again :
      (s : NodeState) (v : Value)
      → (add_node to_lower_case s v).errors ≡ []
      → Reread s (add_node to_lower_case s v)
  unfolding add_node
  add_node_again s (obj r) e =
      read_node_again r (short_id (as_text (get_field (codes "id") r))) s
        (λ k q. short_id-some (as_text (get_field (codes "id") r)) q) e
  add_node_again s _ e = absurd (push-ne-nil _ _ e)

  record RereadAll (s : NodeState) (vs : List Value) : Type 0 where
    nodes : List BotNode
    added : (add_nodes to_lower_case s vs).nodes ≡ s.nodes ++ nodes
    count : length (values_of_nodes nodes) ≡ length vs
    again : add_nodes to_lower_case s (values_of_nodes nodes) ≡ add_nodes to_lower_case s vs

  add_nodes_all :
      (s : NodeState) (vs : List Value)
      → (add_nodes to_lower_case s vs).errors ≡ []
      → RereadAll s vs
  unfolding add_nodes push
  add_nodes_all s [] e = record {
    nodes = [];
    added = sym (append-nil s.nodes);
    count = refl;
    again = refl;
  }
  add_nodes_all s (v ∷ vs) e =
      let (before, good, longer) =
        add_nodes_sound to_lower_case (add_node to_lower_case s v) vs e in
      let k = add_node_again s v before in
      let rest = add_nodes_all (add_node to_lower_case s v) vs e in
      record {
        nodes = k.node ∷ rest.nodes;
        added =
            rest.added
            ∙ (ap (λ z. z ++ rest.nodes) k.added ∙ append_assoc s.nodes (k.node ∷ []) rest.nodes);
        count = ap suc rest.count;
        again =
            ap (λ z. add_nodes to_lower_case z (values_of_nodes rest.nodes)) k.again ∙ rest.again;
      }

  -- Nodes that raise no error are as many as the values, and are read again with the same result.
  pub add_nodes_again :
      (s : NodeState) (vs : List Value)
      → s.nodes ≡ []
      → (add_nodes to_lower_case s vs).errors ≡ []
      → (length (values_of_nodes (add_nodes to_lower_case s vs).nodes) ≡ length vs)
        × (add_nodes to_lower_case s (values_of_nodes (add_nodes to_lower_case s vs).nodes)
            ≡ add_nodes to_lower_case s vs)
  add_nodes_again s vs h e =
      let all = add_nodes_all s vs e in
      let same = all.added ∙ ap (λ z. z ++ all.nodes) h in
      (
        ap (λ ns. length (values_of_nodes ns)) same ∙ all.count,
        ap (λ ns. add_nodes to_lower_case s (values_of_nodes ns)) same ∙ all.again,
      )
