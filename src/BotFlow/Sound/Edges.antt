-- ===== src/BotFlow/Sound/Edges.antt =====
-- The loop over the edges.
use lydia_bg_back.Prelude.{
  Text, List, [], ◌∷◌, ◌≡◌, refl, ap, Option, none, some, inl, inr, push, push-ne-nil, contains,
  contains-push, All, All-push, IsDistinct, IsDistinct-push, ◌==◌, arith, Bool-cases, Option-cases,
}
use lydia_bg_back.Json.{Value}
use lydia_bg_back.BotFlow.Graph.{
  NodeType, message, question, BotNode, BotEdge, BotError, dangling_edge, two_targets, has_node,
  find_node, next,
}
use lydia_bg_back.BotFlow.Cycle.{IsClosed}
use lydia_bg_back.BotFlow.Edges.{
  EdgeState, source_error, source_key, accept_edge, check_edge, connect, edge_of, add_edge_of,
  add_edge, add_edges,
}
use lydia_bg_back.BotFlow.WellFormed.{LeavesBy, IsEdge, source_keys}
use lydia_bg_back.BotFlow.Sound.Nodes.{contains-ids}

source_keys-push :
    (es : List BotEdge) (e : BotEdge)
    → source_keys (push es e) ≡ push (source_keys es) (source_key e.source e.from_option)
unfolding push
source_keys-push [] e = refl
source_keys-push (d ∷ es) e =
    ap (λ ks. source_key d.source d.from_option ∷ ks) (source_keys-push es e)

source_error_sound :
    (from : BotNode) (type : NodeType) (option : Option Text)
    → source_error from type option ≡ none
    → LeavesBy from type option
unfolding source_error
source_error_sound from message option e = ground arith
source_error_sound from question option e = ground arith

contains-snoc :
    (k x : Text) (seen listed : List Text)
    → contains k seen ≡ contains k listed
    → contains k (x ∷ seen) ≡ contains k (push listed x)
unfolding contains
contains-snoc k x seen listed e = ground (arith, contains-push k listed x, e)

module _ (nodes : List BotNode) where
  pub record EdgesGood (s : EdgeState) : Type 0 where
    pub edges : All (IsEdge nodes) s.edges
    pub sources : IsDistinct (source_keys s.edges)
    pub same_sources : (k : Text) → contains k s.used_sources ≡ contains k (source_keys s.edges)

  record Kept (s s' : EdgeState) : Type 0 where
    before : s.errors ≡ []
    good : EdgesGood s → EdgesGood s'

  refuse : (s s' : EdgeState) (x : BotError) → push s.errors x ≡ [] → Kept s s'
  refuse s s' x e = absurd (push-ne-nil _ _ e)

  accept_edge_sound :
      (from : BotNode) (d : BotEdge) (s : EdgeState)
      → IsEdge nodes d
      → (accept_edge from d s).errors ≡ []
      → Kept s (accept_edge from d s)
  unfolding accept_edge
  accept_edge_sound from d s h e =
      elim (Bool-cases (contains (source_key d.source d.from_option) s.used_sources)) [
        | inl old ↦ refuse s _ (two_targets _) (rw old at e)
        | inr fresh ↦ rw fresh (record {
          before = rw fresh at e;
          good = λ g. record {
            edges = All-push (IsEdge nodes) s.edges d g.edges h;
            sources = rw source_keys-push (
                IsDistinct-push _ _ g.sources
                  (rw (← g.same_sources (source_key d.source d.from_option)) fresh));
            same_sources = λ k. rw source_keys-push (contains-snoc k _ _ _ (g.same_sources k));
          };
        })
      ]

  connect_sound :
      (d : BotEdge) (o : Option BotNode) (s : EdgeState)
      → find_node d.source nodes ≡ o
      → (connect nodes d o s).errors ≡ []
      → Kept s (connect nodes d o s)
  unfolding connect check_edge
  connect_sound d none s q e = refuse s _ _ e
  connect_sound d (some from) s q e = elim (Bool-cases (has_node d.target nodes)) [
    | inr gone ↦ refuse s _ dangling_edge (ground (arith, e, gone))
    | inl there ↦ elim (Option-cases (source_error from from.type d.from_option)) [
      | inl fine ↦
          rw (there, fine)
            (accept_edge_sound from d s
              (record {
                from = from;
                found = q;
                leaves = source_error_sound from from.type d.from_option fine;
                arrives = there;
              })
              (rw (there, fine) at e))
      | inr (err, wrong) ↦ refuse s _ err (rw (there, wrong) at e)
    ]
  ]

  add_edge_of_sound :
      (o : Option BotEdge) (s : EdgeState)
      → (add_edge_of nodes o s).errors ≡ []
      → Kept s (add_edge_of nodes o s)
  unfolding add_edge_of
  add_edge_of_sound none s e = refuse s _ _ e
  add_edge_of_sound (some d) s e = connect_sound d (find_node d.source nodes) s refl e

  pub add_edges_sound :
      (s : EdgeState) (vs : List Value)
      → (add_edges nodes s vs).errors ≡ []
      → (s.errors ≡ []) × (EdgesGood s → EdgesGood (add_edges nodes s vs))
  unfolding add_edges add_edge
  add_edges_sound s [] e = (e, λ g. g)
  add_edges_sound s (v ∷ vs) e =
      let (e', g) = add_edges_sound (add_edge nodes s v) vs e in
      let k = add_edge_of_sound (edge_of v) s e' in (k.before, λ h. g (k.good h))

-- Edges that arrive at nodes lead to nodes.
pub IsEdge-IsClosed :
    (nodes : List BotNode) (es : List BotEdge) → All (IsEdge nodes) es → IsClosed nodes es
unfolding next
IsEdge-IsClosed nodes [] h k = tt
IsEdge-IsClosed nodes (e ∷ es) h k = elim (Bool-cases (e.source == k)) [
  | inl t ↦ rw t (rw contains-ids h.0.arrives, IsEdge-IsClosed nodes es h.1 k)
  | inr t ↦ rw t (IsEdge-IsClosed nodes es h.1 k)
]
