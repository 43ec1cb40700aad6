-- ===== src/BotFlow/Cycle/Total.antt =====
-- The depth-first search ends: its fuel is enough.
use lydia_bg_back.Prelude.{
  ℕ, zero, suc, ◌+◌, ◌≤◌, ◌<◌, Text, List, [], ◌∷◌, Bool, true, false, ◌≡◌, refl, Option, none,
  some, inl, inr, length, All, contains, lookup, eq_iff, eq_refl, arith, Bool-cases, Option-cases,
}
use lydia_bg_back.BotFlow.Graph.{BotNode, BotEdge, next}
use lydia_bg_back.BotFlow.Cycle.{
  Color, active, done, Dfs, set_color, explore, leave, visit, visit_roots, no_color, search_cycle,
  ids, IsClosed,
}

-- How many of the ids have no colour.
abbrev weight : Option Color → ℕ
weight none = 1
weight (some c) = 0

pub free : List Text → List (Text × Color) → ℕ
free [] m = 0
free (k ∷ ks) m = weight (lookup k m) + free ks m

free-set_le :
    (ks : List Text) (id : Text) (c : Color) (m : List (Text × Color))
    → free ks ((id, c) ∷ m) ≤ free ks m
unfolding free lookup
free-set_le [] id c m = omega arith
free-set_le (k ∷ ks) id c m = ground (arith, free-set_le ks id c m)

free-set_lt :
    (ks : List Text) (id : Text) (c : Color) (m : List (Text × Color))
    → contains id ks ≡ true
    → lookup id m ≡ none
    → free ks ((id, c) ∷ m) < free ks m
unfolding free lookup contains
free-set_lt [] id c m h e = cc
free-set_lt (k ∷ ks) id c m h e =
    ground (arith, free-set_le ks id c m, free-set_lt ks id c m, eq_iff k id, eq_iff id k)

module _ (ks : List Text) where
  -- A call with this much fuel returns, and leaves no more ids without a colour.
  abbrev Returns : (Text → Dfs → Option Dfs) → ℕ → Type 0
  Returns v f =
      (id : Text) (s : Dfs)
      → contains id ks ≡ true
      → lookup id s.state ≡ none
      → free ks s.state < f
      → (s' : Dfs) × (v id s ≡ some s') × (free ks s'.state ≤ free ks s.state)

  explore_total :
      (v : Text → Dfs → Option Dfs) (f : ℕ)
      → Returns v f
      → (ns : List Text) (s : Dfs) → All (λ n. contains n ks ≡ true) ns
      → free ks s.state < f
      → (r : Dfs × Bool) × (explore v ns s ≡ some r) × (free ks (r.0).state ≤ free ks s.state)
  unfolding explore
  explore_total v f ret [] s h lt = ((s, false), refl, omega arith)
  explore_total v f ret (n ∷ ns) s h lt = elim (Option-cases (lookup n s.state)) [
    | inl fresh ↦
        let (s', e, le) = ret n s h.0 fresh lt in
        let (r, e', le') = explore_total v f ret ns s' h.1 (omega arith) in
        (r, ground arith, omega arith)
    | inr (active, e) ↦ ((record s { has_cycle = true }, true), ground arith, omega arith)
    | inr (done, e) ↦
        let (r, e', le') = explore_total v f ret ns s h.1 lt in (r, ground arith, omega arith)
  ]

  -- Every edge leads to one of the ids.
  module _ (es : List BotEdge)
      (closed : (k : Text) → All (λ n. contains n ks ≡ true) (next es k)) where
    leave_total :
        (id : Text) (r : Dfs × Bool)
        → (s' : Dfs) × (leave id (some r) ≡ some s') × (free ks s'.state ≤ free ks (r.0).state)
    unfolding leave
    leave_total id (s, true) = (s, refl, omega arith)
    leave_total id (s, false) = (set_color id done s, refl, free-set_le ks id done s.state)

    visit_total : (f : ℕ) → Returns (visit f es) f
    unfolding visit
    visit_total zero id s h e lt = absurd (omega arith)
    visit_total (suc f) id s h e lt = elim (Bool-cases s.has_cycle) [
      | inl t ↦ (s, ground arith, omega arith)
      | inr t ↦
          let lt' = free-set_lt ks id active s.state h e in
          let (r, e', le) =
            explore_total (visit f es) f (visit_total f) (next es id) (set_color id active s)
              (closed id) (omega arith) in
          let (s', e'', le') = leave_total id r in (s', ground (arith, e', e''), omega arith)
    ]

    visit_roots_total :
        (f : ℕ) (nodes : List BotNode) (s : Dfs)
        → All (λ (n : BotNode). contains n.id ks ≡ true) nodes
        → free ks s.state < f
        → (s' : Dfs) × (visit_roots f es nodes s ≡ some s')
    unfolding visit_roots
    visit_roots_total f [] s h lt = (s, refl)
    visit_roots_total f (n ∷ nodes) s h lt = elim (Option-cases (lookup n.id s.state)) [
      | inl fresh ↦
          let (s', e, le) = visit_total f n.id s h.0 fresh lt in
          let (r, e') = visit_roots_total f nodes s' h.1 (omega arith) in (r, ground arith)
      | inr (c, e) ↦ let (r, e') = visit_roots_total f nodes s h.1 lt in (r, ground arith)
    ]

free_le : (ks : List Text) (m : List (Text × Color)) → free ks m ≤ length ks
unfolding free
free_le [] m = omega arith
free_le (k ∷ ks) m = ground (arith, free_le ks m)

pub length-ids : (nodes : List BotNode) → length (ids nodes) ≡ length nodes
length-ids [] = refl
length-ids (n ∷ nodes) = omega (arith, length-ids nodes)

ids-contains_self :
    (ks : List Text) (ns : List BotNode)
    → ((k : Text) → contains k (ids ns) ≡ true → contains k ks ≡ true)
    → All (λ (n : BotNode). contains n.id ks ≡ true) ns
unfolding contains
ids-contains_self ks [] f = tt
ids-contains_self ks (n ∷ ns) f =
    (f n.id (rw eq_refl), ids-contains_self ks ns (λ k h. f k (ground arith)))

-- With its fuel the search returns, if every edge leads to a node.
pub search_cycle_total :
    (nodes : List BotNode) (es : List BotEdge)
    → IsClosed nodes es
    → (s : Dfs) × (search_cycle nodes es ≡ some s)
unfolding search_cycle
search_cycle_total nodes es closed =
    visit_roots_total (ids nodes) es closed (suc (length nodes)) nodes no_color
      (ids-contains_self (ids nodes) nodes (λ n h. h))
      (omega (arith, free_le (ids nodes) [], length-ids nodes))
