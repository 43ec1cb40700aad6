-- ===== src/BotFlow/Cycle/Walks.antt =====
-- In a graph without a cycle walks are short.
use lydia_bg_back.Prelude.{
  ℕ, ◌+◌, ◌≤◌, ◌<◌, Text, List, [], ◌∷◌, true, false, ◌≡◌, Option, none, some, inl, inr, length,
  All, contains, All-contains, lookup, ◌==◌, eq_iff, arith, Bool-cases, Option-cases,
}
use lydia_bg_back.BotFlow.Graph.{BotNode, BotEdge, next}
use lydia_bg_back.BotFlow.Cycle.{Color, active, done, search_cycle, ids, has_cycle, IsClosed}
use lydia_bg_back.BotFlow.Cycle.Total.{length-ids}
use lydia_bg_back.BotFlow.Cycle.Acyclic.{IsDone, IsSorted, search_cycle_sound}

-- A walk from `u` along edges, by the steps that it passes.
abbrev pub IsWalk : List BotEdge → Text → List Text → Type 0
IsWalk es u [] = Unit
IsWalk es u (v ∷ vs) = (contains v (next es u) ≡ true) × IsWalk es v vs

-- How many of the ids are done.
abbrev done_weight : Option Color → ℕ
done_weight (some done) = 1
done_weight _ = 0

finished : List Text → List (Text × Color) → ℕ
finished [] m = 0
finished (k ∷ ks) m = done_weight (lookup k m) + finished ks m

finished_le : (ks : List Text) (m : List (Text × Color)) → finished ks m ≤ length ks
unfolding finished
finished_le [] m = omega arith
finished_le (k ∷ ks) m = ground (arith, finished_le ks m)

finished-active :
    (ks : List Text) (x : Text) (m : List (Text × Color))
    → lookup x m ≡ none
    → finished ks m ≤ finished ks ((x, active) ∷ m)
unfolding finished lookup
finished-active [] x m e = omega arith
finished-active (k ∷ ks) x m e = ground (arith, finished-active ks x m e, eq_iff x k)

finished-done_le :
    (ks : List Text) (x : Text) (m : List (Text × Color))
    → finished ks m ≤ finished ks ((x, done) ∷ m)
unfolding finished lookup
finished-done_le [] x m = omega arith
finished-done_le (k ∷ ks) x m = ground (arith, finished-done_le ks x m)

finished-done_lt :
    (ks : List Text) (x : Text) (m : List (Text × Color))
    → lookup x m ≡ some active
    → contains x ks ≡ true
    → finished ks m < finished ks ((x, done) ∷ m)
unfolding finished lookup contains
finished-done_lt [] x m e h = cc
finished-done_lt (k ∷ ks) x m e h =
    ground (arith, finished-done_le ks x m, finished-done_lt ks x m e, eq_iff x k, eq_iff k x)

module _ (es : List BotEdge) (ks : List Text)
    (closed : (k : Text) → All (λ n. contains n ks ≡ true) (next es k)) where
  walk-lt-finished :
      (m : List (Text × Color)) (u : Text) (vs : List Text)
      → IsSorted es m
      → IsDone m u
      → contains u ks ≡ true
      → IsWalk es u vs
      → length vs < finished ks m
  unfolding lookup
  walk-lt-finished [] u vs w d h k = cc
  walk-lt-finished ((x, active) ∷ m) u vs w d h k =
      omega (arith, walk-lt-finished m u vs w.1 (ground arith) h k, finished-active ks x m w.0)
  walk-lt-finished ((x, done) ∷ m) u [] w d h k = elim (Bool-cases (x == u)) [
    | inl t ↦
        let same : x ≡ u = (eq_iff x u).0 t in
        omega (arith, finished-done_lt ks x m w.1 (rw same h))
    | inr t ↦
        omega (arith, walk-lt-finished m u [] w.2 (ground arith) h tt, finished-done_le ks x m)
  ]
  walk-lt-finished ((x, done) ∷ m) u (v ∷ vs) w d h k = elim (Bool-cases (x == u)) [
    | inl t ↦
        let same : x ≡ u = (eq_iff x u).0 t in
        let here = All-contains (IsDone m) (next es x) v (rw same k.0) w.0 in
        let inside = All-contains (λ n. contains n ks ≡ true) (next es u) v k.0 (closed u) in
        omega (
          arith,
          walk-lt-finished m v vs w.2 here inside k.1,
          finished-done_lt ks x m w.1 (rw same h),
        )
    | inr t ↦
        omega (arith, walk-lt-finished m u (v ∷ vs) w.2 (ground arith) h k, finished-done_le ks x m)
  ]

-- If every edge leads to a node and the search reports no cycle, a walk from a node passes fewer
-- edges than there are nodes.
pub no_cycle-IsWalk_lt :
    (nodes : List BotNode) (es : List BotEdge) (u : Text) (vs : List Text)
    → IsClosed nodes es
    → has_cycle nodes es ≡ false
    → contains u (ids nodes) ≡ true
    → IsWalk es u vs
    → length vs < length nodes
unfolding has_cycle
no_cycle-IsWalk_lt nodes es u vs closed h c w = elim (Option-cases (search_cycle nodes es)) [
  | inl bad ↦ absurd (ground arith)
  | inr (s, e) ↦
      let (sorted, all) = search_cycle_sound nodes es s e (ground arith) in
      omega (
        arith,
        walk-lt-finished es (ids nodes) closed s.state u vs sorted
            (All-contains (IsDone s.state) (ids nodes) u c all) c w,
        finished_le (ids nodes) s.state,
        length-ids nodes,
      )
]
