-- ===== src/BotFlow/Engine/Steps.antt =====
-- The cap on the steps of a run is never met on a valid graph.
use lydia_bg_back.Prelude.{
  ℕ, zero, suc, ◌≤◌, ◌<◌, Text, List, [], ◌∷◌, Bool, true, false, ◌≡◌, refl, Option, none, some,
  inl, inr, is_empty, contains, length, arith, Bool-cases, Option-cases,
}
use lydia_bg_back.Json.{Value}
use lydia_bg_back.BotFlow.Graph.{
  NodeType, message, question, BotNode, BotEdge, BotGraph, find_node, has_node, next, max_nodes,
}
use lydia_bg_back.BotFlow.Cycle.Walks.{IsWalk}
use lydia_bg_back.BotFlow.Validate.{validate_bot_graph}
use lydia_bg_back.BotFlow.Sound.{validate_bot_graph_sound}
use lydia_bg_back.BotFlow.Engine.{
  World, Outgoing, text, Outcome, returned, threw, send, and_then, first_target, run_node,
  run_steps,
}
use lydia_bg_back.BotFlow.Engine.Settled.{first_target-next, find_node-id}

-- Every walk from `u` passes fewer than `n` edges.
abbrev IsBounded : List BotEdge → ℕ → Text → Type 0
IsBounded es n u = (vs : List Text) → IsWalk es u vs → length vs < n

IsBounded-next :
    (es : List BotEdge) (n : ℕ) (u v : Text)
    → contains v (next es u) ≡ true
    → IsBounded es (suc n) u
    → IsBounded es n v
IsBounded-next es n u v h b vs k = let le = b (v ∷ vs) (h, k) in omega arith

find_node-has_node : (k : Text) (ns : List BotNode) → has_node k ns ≡ false → find_node k ns ≡ none
find_node-has_node k [] h = refl
find_node-has_node k (n ∷ ns) h = ground (arith, find_node-has_node k ns)

module _ (delivers : List Outgoing → Outgoing → Bool) (sid : Text) (g : BotGraph) where
  run_none :
      (m n : ℕ) (w : World) → run_steps delivers m sid g none w ≡ run_steps delivers n sid g none w
  unfolding run_steps
  run_none zero zero w = refl
  run_none zero (suc n) w = refl
  run_none (suc m) zero w = refl
  run_none (suc m) (suc n) w = refl

  run_node-cong :
      (type : NodeType) (n : BotNode) (f h : Option Text → World → Outcome) (w : World)
      → ((x : World) → f (first_target g.edges n.id) x ≡ h (first_target g.edges n.id) x)
      → run_node delivers sid g type n f w ≡ run_node delivers sid g type n h w
  unfolding run_node
  run_node-cong question n f h w same = refl
  run_node-cong message n f h w same = go (send delivers (text n.text) w)
    where
      go :
          (o : Outcome)
          → and_then delivers o (f (first_target g.edges n.id))
            ≡ and_then delivers o (h (first_target g.edges n.id))
      go (returned x) = same x
      go (threw x) = refl

  run_steps_bounded :
      (n m : ℕ) (start : Text) (w : World)
      → n ≤ m
      → IsBounded g.edges n start
      → run_steps delivers m sid g (some start) w ≡ run_steps delivers n sid g (some start) w
  unfolding run_steps
  run_steps_bounded zero m start w le b = absurd (let k = b [] tt in omega arith)
  run_steps_bounded (suc n) zero start w le b = absurd (omega arith)
  run_steps_bounded (suc n) (suc m) start w le b = elim (Bool-cases (is_empty start)) [
    | inl t ↦ rw t
    | inr t ↦ rw t (elim (Option-cases (find_node start g.nodes)) [
      | inl gone ↦ rw gone
      | inr (d, there) ↦ rw there (
          run_node-cong d.type d (run_steps delivers m sid g) (run_steps delivers n sid g) w (λ x.
            elim (Option-cases (first_target g.edges d.id)) [
              | inl stop ↦ rw stop (run_none m n x)
              | inr (v, on) ↦ rw on (
                  run_steps_bounded n m v x (omega arith) (
                    IsBounded-next g.edges n start v
                      (rw (find_node-id start g.nodes there) at (first_target-next g.edges d.id on))
                      b))
            ]))
    ])
  ]

  run_nowhere :
      (j k : ℕ) (start : Text) (w : World)
      → 0 < j
      → 0 < k
      → find_node start g.nodes ≡ none
      → run_steps delivers j sid g (some start) w ≡ run_steps delivers k sid g (some start) w
  unfolding run_steps
  run_nowhere zero k start w lj lk gone = absurd (omega arith)
  run_nowhere (suc j) zero start w lj lk gone = absurd (omega arith)
  run_nowhere (suc j) (suc k) start w lj lk gone = rw gone

  -- On a graph that the validation returned, a run from any step with more rounds allowed than
  -- MAX_STEPS does exactly what it does with MAX_STEPS: the cap never cuts a flow.
  pub run_steps_enough :
      (to_lower_case : Text → Text) (input : Value) (m : ℕ) (start : Text) (w : World)
      → (validate_bot_graph to_lower_case input).graph ≡ some g
      → max_nodes ≤ m
      → run_steps delivers m sid g (some start) w
        ≡ run_steps delivers max_nodes sid g (some start) w
  run_steps_enough to_lower_case input m start w valid le =
      let good = validate_bot_graph_sound to_lower_case input g valid in
      elim (Bool-cases (has_node start g.nodes)) [
        | inl there ↦ run_steps_bounded max_nodes m start w le (λ vs k.
            let lt = good.short_walks start vs there k in let few = good.few in omega arith)
        | inr gone ↦
            run_nowhere m max_nodes start w (omega arith) (omega arith)
              (find_node-has_node start g.nodes gone)
      ]
