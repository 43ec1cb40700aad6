-- ===== src/BotFlow/Cycle/Closed.antt =====
-- Where walks are bounded, no walk returns to its start.
use lydia_bg_back.Prelude.{
  ℕ, zero, suc, ◌≤◌, ◌<◌, Text, List, [], ◌∷◌, true, ◌≡◌, length, contains, arith,
}
use lydia_bg_back.BotFlow.Graph.{BotEdge, next}
use lydia_bg_back.BotFlow.Cycle.Walks.{IsWalk}

-- A walk along edges, from the first step to the second.
pub data Reaches (es : List BotEdge) : Text → Text → Type 0 where
  here : (u : Text) → Reaches es u u
  step : (u v x : Text) → contains v (next es u) ≡ true → Reaches es v x → Reaches es u x

module _ (es : List BotEdge) where
  -- A walk from the end of another goes on from its start.
  extend :
      (u v : Text) (ws : List Text)
      → Reaches es u v
      → IsWalk es v ws
      → (vs : List Text) × IsWalk es u vs × (length ws ≤ length vs)
  extend u v ws (here _) k = (ws, k, omega arith)
  extend u v ws (step _ x _ h r) k =
      let (vs, k', le) = extend x v ws r k in (x ∷ vs, (h, k'), omega arith)

  around :
      (u v : Text) (n : ℕ)
      → contains v (next es u) ≡ true
      → Reaches es v u
      → (vs : List Text) × IsWalk es u vs × (n ≤ length vs)
  around u v zero h r = ([], tt, omega arith)
  around u v (suc n) h r =
      let (ws, k, le) = around u v n h r in
      let (vs, k', le') = extend v u ws r k in (v ∷ vs, (h, k'), omega arith)

  pub no_return :
      (u v : Text) (n : ℕ)
      → ((vs : List Text) → IsWalk es u vs → length vs < n)
      → contains v (next es u) ≡ true
      → Reaches es v u
      → ⊥
  no_return u v n bound h r = let (vs, k, le) = around u v n h r in omega (arith, bound vs k)
