-- ===== src/BotFlow/Reread/Edges.antt =====
-- The edges of a graph, stored and read again.
use lydia_bg_back.Prelude.{
  Text, List, [], ◌∷◌, ◌++◌, ◌≡◌, refl, ap, sym, ◌∙◌, Option, none, some, inl, inr, push,
  push-ne-nil, contains, lookup, ◌==◌, Bool-cases, Option-cases,
}
use mathlib.Core.List.{append-nil, append_assoc}
use lydia_bg_back.Json.{Value, as_text}
use lydia_bg_back.BotFlow.Graph.{BotNode, BotEdge, find_node, has_node}
use lydia_bg_back.BotFlow.Edges.{
  EdgeState, source_error, source_key, accept_edge, check_edge, connect, read_edge, edge_of,
  add_edge_of, add_edge, add_edges,
}
use lydia_bg_back.BotFlow.Encode.{value_of_text, value_of_edge, values_of_edges}
use lydia_bg_back.BotFlow.Sound.Edges.{add_edges_sound}

pub as_text-value_of_text : (o : Option Text) → as_text (some (value_of_text o)) ≡ o
as_text-value_of_text none = refl
as_text-value_of_text (some t) = refl

edge_of-value_of_edge : (e : BotEdge) → edge_of (value_of_edge e) ≡ some e
unfolding edge_of read_edge lookup ◌==◌
edge_of-value_of_edge e =
    ap (λ o. some (with_ends o (as_text (some (value_of_text e.to_handle)))))
      (as_text-value_of_text e.from_option)
    ∙ ap (λ o. some (with_ends e.from_option o)) (as_text-value_of_text e.to_handle)
  where
    with_ends : Option Text → Option Text → BotEdge
    with_ends from to = record e { from_option = from; to_handle = to }

-- An edge that raises no error is added.
accept_edge-push :
    (from : BotNode) (d : BotEdge) (s : EdgeState)
    → (accept_edge from d s).errors ≡ []
    → (accept_edge from d s).edges ≡ push s.edges d
unfolding accept_edge
accept_edge-push from d s e =
    elim (Bool-cases (contains (source_key d.source d.from_option) s.used_sources)) [
      | inl t ↦ absurd (push-ne-nil _ _ (rw t at e))
      | inr t ↦ rw t refl
    ]

connect-push :
    (nodes : List BotNode) (d : BotEdge) (o : Option BotNode) (s : EdgeState)
    → (connect nodes d o s).errors ≡ []
    → (connect nodes d o s).edges ≡ push s.edges d
unfolding connect check_edge
connect-push nodes d none s e = absurd (push-ne-nil _ _ e)
connect-push nodes d (some from) s e = elim (Bool-cases (has_node d.target nodes)) [
  | inr gone ↦ absurd (push-ne-nil _ _ (rw gone at e))
  | inl there ↦ elim (Option-cases (source_error from from.type d.from_option)) [
    | inl fine ↦ rw (there, fine) (accept_edge-push from d s (rw (there, fine) at e))
    | inr (err, wrong) ↦ absurd (push-ne-nil _ _ (rw (there, wrong) at e))
  ]
]

module _ (nodes : List BotNode) where
  record Reread (s s' : EdgeState) : Type 0 where
    edge : BotEdge
    added : s'.edges ≡ push s.edges edge
    again : add_edge nodes s (value_of_edge edge) ≡ s'

  add_edge_again :
      (s : EdgeState) (o : Option BotEdge)
      → (add_edge_of nodes o s).errors ≡ []
      → Reread s (add_edge_of nodes o s)
  unfolding add_edge add_edge_of
  add_edge_again s none e = absurd (push-ne-nil _ _ e)
  add_edge_again s (some d) e = record {
    edge = d;
    added = connect-push nodes d (find_node d.source nodes) s e;
    again = ap (λ o. add_edge_of nodes o s) (edge_of-value_of_edge d);
  }

  record RereadAll (s : EdgeState) (vs : List Value) : Type 0 where
    edges : List BotEdge
    added : (add_edges nodes s vs).edges ≡ s.edges ++ edges
    again : add_edges nodes s (values_of_edges edges) ≡ add_edges nodes s vs

  add_edges_all :
      (s : EdgeState) (vs : List Value) → (add_edges nodes s vs).errors ≡ [] → RereadAll s vs
  unfolding add_edges add_edge push
  add_edges_all s [] e = record { edges = []; added = sym (append-nil s.edges); again = refl }
  add_edges_all s (v ∷ vs) e =
      let (before, more) = add_edges_sound nodes (add_edge nodes s v) vs e in
      let k = add_edge_again s (edge_of v) before in
      let rest = add_edges_all (add_edge nodes s v) vs e in
      record {
        edges = k.edge ∷ rest.edges;
        added =
            rest.added
            ∙ (ap (λ z. z ++ rest.edges) k.added ∙ append_assoc s.edges (k.edge ∷ []) rest.edges);
        again = ap (λ z. add_edges nodes z (values_of_edges rest.edges)) k.again ∙ rest.again;
      }

  -- Edges that raise no error are read again with the same result.
  pub add_edges_again :
      (s : EdgeState) (vs : List Value)
      → s.edges ≡ []
      → (add_edges nodes s vs).errors ≡ []
      → add_edges nodes s (values_of_edges (add_edges nodes s vs).edges) ≡ add_edges nodes s vs
  add_edges_again s vs h e =
      let all = add_edges_all s vs e in
      ap (λ es. add_edges nodes s (values_of_edges es)) (all.added ∙ ap (λ z. z ++ all.edges) h)
      ∙ all.again
