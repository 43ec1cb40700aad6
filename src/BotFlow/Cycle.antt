-- ===== src/BotFlow/Cycle.antt =====
-- The two graph searches of `validateBotGraph` (src/api/services/bot-flow.validation.ts): the
-- coloured depth-first search for a cycle, and the worklist of the steps reached from the start.
-- Both run on fuel, and `none` means that it ran out.
pub mod Total
pub mod Acyclic
pub mod Walks
pub mod Closed
use lydia_bg_back.Prelude.{
  ℕ, zero, suc, ◌+◌, Text, List, [], ◌∷◌, ◌++◌, reverse, Bool, true, false, Option, none, some,
  is_empty, length, contains, lookup, All, ◌≡◌, if◌then◌else◌,
}
use lydia_bg_back.BotFlow.Graph.{BotNode, BotEdge, next}

-- The values 1 and 2 of `state`.
pub data Color : Type 0 where
  active done : Color

pub record Dfs : Type 0 where
  pub state : List (Text × Color)
  pub has_cycle : Bool

abbrev pub set_color : Text → Color → Dfs → Dfs
set_color id c s = record s { state = (id, c) ∷ s.state }

-- The loop over the successors. The Boolean says that it left `visit` by its `return`.
unfoldable pub explore : (Text → Dfs → Option Dfs) → List Text → Dfs → Option (Dfs × Bool)
explore visit [] s = some (s, false)
explore visit (n ∷ ns) s = elim (lookup n s.state) [
  | some active ↦ some (record s { has_cycle = true }, true)
  | some done ↦ explore visit ns s
  | none ↦ elim (visit n s) [ none ↦ none | some s' ↦ explore visit ns s' ]
]

unfoldable pub leave : Text → Option (Dfs × Bool) → Option Dfs
leave id none = none
leave id (some (s, true)) = some s
leave id (some (s, false)) = some (set_color id done s)

unfoldable pub visit : ℕ → List BotEdge → Text → Dfs → Option Dfs
visit zero es id s = none
visit (suc f) es id s =
    if s.has_cycle
    then some s
    else leave id (explore (visit f es) (next es id) (set_color id active s))

unfoldable pub visit_roots : ℕ → List BotEdge → List BotNode → Dfs → Option Dfs
visit_roots f es [] s = some s
visit_roots f es (n ∷ ns) s = elim (lookup n.id s.state) [
  | some c ↦ visit_roots f es ns s
  | none ↦ elim (visit f es n.id s) [ none ↦ none | some s' ↦ visit_roots f es ns s' ]
]

abbrev pub no_color : Dfs
no_color = record { state = []; has_cycle = false }

-- One more than the number of nodes is fuel enough: each call in progress has coloured a node.
unfoldable pub search_cycle : List BotNode → List BotEdge → Option Dfs
unfolding visit_roots visit explore leave
search_cycle nodes es = visit_roots (suc (length nodes)) es nodes no_color

unfoldable pub has_cycle : List BotNode → List BotEdge → Bool
unfolding search_cycle
has_cycle nodes es = elim (search_cycle nodes es) [ none ↦ true | some s ↦ s.has_cycle ]

-- The worklist; the top of `stack` stands first.
unfoldable pub reach : ℕ → List BotEdge → List Text → List Text → Option (List Text)
reach zero es reached stack = if is_empty stack then some reached else none
reach (suc f) es reached [] = some reached
reach (suc f) es reached (id ∷ stack) =
    let skip = reach f es reached stack in
    let grow = reach f es (id ∷ reached) (reverse (next es id) ++ stack) in
    if contains id reached then skip else grow

-- One round for the start and one for each edge at most.
unfoldable pub reached_from : List BotEdge → Text → Option (List Text)
unfolding reach
reached_from es start = reach (suc (length es)) es [] (start ∷ [])

abbrev pub ids : List BotNode → List Text
ids [] = []
ids (n ∷ ns) = n.id ∷ ids ns

-- Every edge leads to a node.
abbrev pub IsClosed : List BotNode → List BotEdge → Type 0
IsClosed nodes es = (k : Text) → All (λ n. contains n (ids nodes) ≡ true) (next es k)
