-- ===== src/BotFlow/Cycle/Acyclic.antt =====
-- What the depth-first search establishes when it reports no cycle: walks are short.
use lydia_bg_back.Prelude.{
  ℕ, zero, suc, Text, List, [], ◌∷◌, Bool, true, false, ◌≡◌, refl, Option, none, some, inl, inr,
  length, All, lookup, ap, ◌==◌, eq_iff, eq_refl, arith, Bool-cases, Option-cases,
}
use lydia_bg_back.BotFlow.Graph.{BotNode, BotEdge, next}
use lydia_bg_back.BotFlow.Cycle.{
  Color, active, done, Dfs, set_color, explore, leave, visit, visit_roots, no_color, search_cycle,
  ids,
}

abbrev pub IsDone : List (Text × Color) → Text → Type 0
IsDone m n = lookup n m ≡ some done

-- Earlier colours are kept.
abbrev Extends : List (Text × Color) → List (Text × Color) → Type 0
Extends m m' = (k : Text) → IsDone m k → IsDone m' k

-- The colours were set in an order that sorts the graph: a step is done after its successors.
abbrev pub IsSorted : List BotEdge → List (Text × Color) → Type 0
IsSorted es [] = Unit
IsSorted es ((u, active) ∷ m) = (lookup u m ≡ none) × IsSorted es m
IsSorted es ((u, done) ∷ m) =
    All (IsDone m) (next es u) × (lookup u m ≡ some active) × IsSorted es m

Extends-set :
    (m : List (Text × Color)) (id : Text) (c : Color)
    → (lookup id m ≡ some done → ⊥)
    → Extends m ((id, c) ∷ m)
unfolding lookup
Extends-set m id c h k e = elim (Bool-cases (id == k)) [
  | inl t ↦ let same : id ≡ k = (eq_iff id k).0 t in absurd (h (ground (arith, same, e)))
  | inr t ↦ ground arith
]

All-IsDone :
    (m m' : List (Text × Color)) (ns : List Text)
    → Extends m m'
    → All (IsDone m) ns
    → All (IsDone m') ns
All-IsDone m m' [] x h = tt
All-IsDone m m' (n ∷ ns) x h = (x n h.0, All-IsDone m m' ns x h.1)

-- From a sorted state, what a call has done if it reports no cycle.
record Done (es : List BotEdge) (ns : List Text) (m m' : List (Text × Color)) : Type 0 where
  sorted : IsSorted es m'
  all : All (IsDone m') ns
  keeps : (k : Text) → (c : Color) → lookup k m ≡ some c → lookup k m' ≡ some c
  closes : (k : Text) → lookup k m' ≡ some active → lookup k m ≡ some active

module _ (es : List BotEdge) where
  abbrev Sound : (Text → Dfs → Option Dfs) → Type 0
  Sound v =
      (id : Text) (s s' : Dfs)
      → v id s ≡ some s'
      → s'.has_cycle ≡ false
      → (s.has_cycle ≡ false)
        × (lookup id s.state ≡ none → IsSorted es s.state → Done es (id ∷ []) s.state s'.state)

  Done-refl : (m : List (Text × Color)) → IsSorted es m → Done es [] m m
  Done-refl m w = record { sorted = w; all = tt; keeps = λ k c p. p; closes = λ k p. p }

  explore-Sound :
      (v : Text → Dfs → Option Dfs)
      → Sound v
      → (ns : List Text) (s s' : Dfs) (b : Bool) → explore v ns s ≡ some (s', b)
      → s'.has_cycle ≡ false
      → (s.has_cycle ≡ false) × (b ≡ false) × (IsSorted es s.state → Done es ns s.state s'.state)
  unfolding explore
  explore-Sound v sv [] s s' b e h =
      let same : s ≡ s' = ground arith in
      (ground arith, ground arith, λ w. rw (← same) (Done-refl s.state w))
  explore-Sound v sv (n ∷ ns) s s' b e h = elim (Option-cases (lookup n s.state)) [
    | inl fresh ↦ elim (Option-cases (v n s)) [
      | inl bad ↦ absurd (ground arith)
      | inr (s1, e1) ↦
          let (h1, h2, rest) = explore-Sound v sv ns s1 s' b (ground arith) h in
          let (h0, first) = sv n s s1 e1 h1 in
          (
            h0,
            h2,
            λ w.
                let d1 = first fresh w in
                let d2 = rest d1.sorted in
                record {
                  sorted = d2.sorted;
                  all = (d2.keeps n done d1.all.0, d2.all);
                  keeps = λ k c p. d2.keeps k c (d1.keeps k c p);
                  closes = λ k p. d1.closes k (d2.closes k p);
                },
          )
    ]
    | inr (active, q) ↦ absurd (ground arith)
    | inr (done, q) ↦
        let (h0, h2, rest) = explore-Sound v sv ns s s' b (ground arith) h in
        (
          h0,
          h2,
          λ w.
              let d = rest w in
              record {
                sorted = d.sorted;
                all = (d.keeps n done q, d.all);
                keeps = d.keeps;
                closes = d.closes;
              },
        )
  ]

  leave_sound :
      (id : Text) (r : Option (Dfs × Bool)) (s' : Dfs)
      → leave id r ≡ some s'
      → s'.has_cycle ≡ false
      → (t : Dfs) × (b : Bool) × (r ≡ some (t, b))
        × (t.has_cycle ≡ false)
        × (b ≡ false → s'.state ≡ (id, done) ∷ t.state)
  unfolding leave
  leave_sound id none s' e h = cc
  leave_sound id (some (t, true)) s' e h = (t, true, refl, ground arith, λ q. cc)
  leave_sound id (some (t, false)) s' e h = (t, false, refl, ground arith, λ q. ground arith)

  keeps-set :
      (m : List (Text × Color)) (id : Text) (c : Color)
      → lookup id m ≡ none
      → (k : Text) (d : Color) → lookup k m ≡ some d
      → lookup k ((id, c) ∷ m) ≡ some d
  unfolding lookup
  keeps-set m id c fresh k d p = ground (arith, eq_iff id k)

  keeps-set_ne :
      (m m' : List (Text × Color)) (id : Text) (c : Color)
      → lookup id m ≡ none
      → ((k : Text) (d : Color) → lookup k m ≡ some d → lookup k m' ≡ some d)
      → (k : Text) (d : Color) → lookup k m ≡ some d
      → lookup k ((id, c) ∷ m') ≡ some d
  unfolding lookup
  keeps-set_ne m m' id c fresh keep k d p = elim (Bool-cases (id == k)) [
    | inl t ↦
        let same : id ≡ k = (eq_iff id k).0 t in absurd (ground (arith, ap (λ x. lookup x m) same))
    | inr t ↦ ground (arith, keep k d p)
  ]

  lookup-set_self :
      (m : List (Text × Color)) (id : Text) (c : Color) → lookup id ((id, c) ∷ m) ≡ some c
  unfolding lookup
  lookup-set_self m id c = rw eq_refl

  active-set :
      (m : List (Text × Color)) (id k : Text)
      → lookup k ((id, done) ∷ m) ≡ some active
      → (lookup k m ≡ some active) × ((id == k) ≡ false)
  unfolding lookup
  active-set m id k p = ground arith

  closes-set :
      (m : List (Text × Color)) (id k : Text)
      → (id == k) ≡ false
      → lookup k ((id, active) ∷ m) ≡ some active
      → lookup k m ≡ some active
  unfolding lookup
  closes-set m id k ne p = ground arith

  visited :
      (id : Text) (m m1 : List (Text × Color))
      → lookup id m ≡ none
      → Done es (next es id) ((id, active) ∷ m) m1
      → Done es (id ∷ []) m ((id, done) ∷ m1)
  visited id m m1 fresh d = record {
    sorted = (d.all, d.keeps id active (lookup-set_self m id active), d.sorted);
    all = (lookup-set_self m1 id done, tt);
    keeps =
        keeps-set_ne m m1 id done fresh (λ k c p. d.keeps k c (keeps-set m id active fresh k c p));
    closes = λ k p. let (q, ne) = active-set m1 id k p in closes-set m id k ne (d.closes k q);
  }

  -- The first colour of the call is kept by its loop, and only then replaced.
  visit-Sound : (f : ℕ) → Sound (visit f es)
  unfolding visit
  visit-Sound zero id s s' e h = cc
  visit-Sound (suc f) id s s' e h = elim (Bool-cases s.has_cycle) [
    | inl t ↦ absurd (ground arith)
    | inr t ↦
        let (u, b, e1, h1, out) =
          leave_sound id (explore (visit f es) (next es id) (set_color id active s)) s'
            (ground arith) h in
        let (_, hb, rest) =
          explore-Sound (visit f es) (visit-Sound f) (next es id) (set_color id active s) u b e1
            h1 in
        (t, λ fresh w. rw (out hb) (visited id s.state u.state fresh (rest (fresh, w))))
  ]

  -- No call is in progress.
  abbrev NoActive : List (Text × Color) → Type 0
  NoActive m = (k : Text) → lookup k m ≡ some active → ⊥

  visit_roots_sound :
      (f : ℕ) (nodes : List BotNode) (s s' : Dfs)
      → visit_roots f es nodes s ≡ some s'
      → s'.has_cycle ≡ false
      → (s.has_cycle ≡ false)
        × (IsSorted es s.state → NoActive s.state → Done es (ids nodes) s.state s'.state)
  unfolding visit_roots
  visit_roots_sound f [] s s' e h =
      let same : s ≡ s' = ground arith in (ground arith, λ w q. rw (← same) (Done-refl s.state w))
  visit_roots_sound f (n ∷ ns) s s' e h = elim (Option-cases (lookup n.id s.state)) [
    | inl fresh ↦ elim (Option-cases (visit f es n.id s)) [
      | inl bad ↦ absurd (ground arith)
      | inr (s1, e1) ↦
          let (h1, rest) = visit_roots_sound f ns s1 s' (ground arith) h in
          let (h0, first) = visit-Sound f n.id s s1 e1 h1 in
          (
            h0,
            λ w q.
                let d1 = first fresh w in
                let d2 = rest d1.sorted (λ k p. q k (d1.closes k p)) in
                record {
                  sorted = d2.sorted;
                  all = (d2.keeps n.id done d1.all.0, d2.all);
                  keeps = λ k c p. d2.keeps k c (d1.keeps k c p);
                  closes = λ k p. d1.closes k (d2.closes k p);
                },
          )
    ]
    | inr (active, p) ↦
        let (h0, rest) = visit_roots_sound f ns s s' (ground arith) h in
        (h0, λ w q. absurd (q n.id p))
    | inr (done, p) ↦
        let (h0, rest) = visit_roots_sound f ns s s' (ground arith) h in
        (
          h0,
          λ w q.
              let d = rest w q in
              record {
                sorted = d.sorted;
                all = (d.keeps n.id done p, d.all);
                keeps = d.keeps;
                closes = d.closes;
              },
        )
  ]

-- A search that reports no cycle has sorted the graph and finished every node.
pub search_cycle_sound :
    (nodes : List BotNode) (es : List BotEdge) (s : Dfs)
    → search_cycle nodes es ≡ some s
    → s.has_cycle ≡ false
    → IsSorted es s.state × All (IsDone s.state) (ids nodes)
unfolding search_cycle lookup
search_cycle_sound nodes es s e h =
    let (_, out) = visit_roots_sound es (suc (length nodes)) nodes no_color s e h in
    let d = out tt (λ k p. none_active k p) in (d.sorted, d.all)
  where
    none_active : (k : Text) → lookup {V = Color} k [] ≡ some active → ⊥
    none_active k p = cc
