-- ===== src/BotFlow/Saved.antt =====
-- What `getFlow` and `startFlow` find after `saveFlow`.
use lydia_bg_back.Prelude.{
  Text, List, [], ◌∷◌, Bool, true, false, not, ◌&&◌, ◌≡◌, ◌≢◌, ◌⊎◌, refl, ap, sym, subst, ◌∙◌,
  Option, none, some, inl, inr, is_empty, eq_refl, HttpError, Result, ok, err, arith, Bool-cases,
  Option-cases,
}
use lydia_bg_back.Json.{Value}
use lydia_bg_back.Table.{find_row, find-update_row, find-push_row}
use lydia_bg_back.BotFlow.Graph.{BotNode, BotGraph}
use lydia_bg_back.BotFlow.Edges.{is_truthy}
use lydia_bg_back.BotFlow.Validate.{BotWarning, Validation, is_start, validate_bot_graph}
use lydia_bg_back.BotFlow.WellFormed.{HasStart, IsWellFormed}
use lydia_bg_back.BotFlow.Sound.{validate_bot_graph_sound}
use lydia_bg_back.BotFlow.Encode.{value_of_graph}
use lydia_bg_back.BotFlow.Reread.{validate_bot_graph-value_of_graph}
use lydia_bg_back.BotFlow.Engine.{Flow}
use lydia_bg_back.BotFlow.Flows.{
  Config, FlowView, FlowData, flow_key, find_instance, graph_or_empty, is_flag, flag_of, enabled_of,
  can_enable, set_flow, upsert_flow, store_flow, flow_view, get_flow, validated, new_graph,
  save_graph, save_flow,
}

-- After an upsert the row of the instance has what was stored.
pub find-upsert_flow :
    (new_id id : Text) (enabled : Bool) (g : BotGraph) (flows : List Flow)
    → (f : Flow) × ((find_row flow_key id (upsert_flow new_id id enabled g flows) ≡ some f)
        × ((f.enabled ≡ enabled) × (f.graph ≡ value_of_graph g)))
unfolding upsert_flow
find-upsert_flow new_id id enabled g flows = elim (Option-cases (find_row flow_key id flows)) [
  | inl t ↦ (
    new,
    (
      rw (upsert_flow, t) (find-push_row flow_key id new flows ∙ rw (t, eq_refl id) refl),
      (refl, refl),
    ),
  )
  | inr (f, t) ↦ (
    set_flow enabled g f,
    (
      rw (upsert_flow, t)
          (find-update_row flow_key id id (set_flow enabled g) flows (λ a. refl)
            ∙ rw (t, eq_refl id) refl),
      (refl, refl),
    ),
  )
]
  where
    new : Flow
    new = record { id = new_id; instance_id = id; enabled = enabled; graph = value_of_graph g }

-- The flow of an instance, with the switch and the encoded graph of a view.
pub record IsSaved (name : Text) (view : FlowView) (cfg : Config) : Type 0 where
  pub id : Text
  pub flow : Flow
  pub instance : find_instance name cfg ≡ ok id
  pub found : find_row flow_key id cfg.flows ≡ some flow
  pub switch : flow.enabled ≡ view.enabled
  pub encoded : flow.graph ≡ value_of_graph view.graph

module _ (to_lower_case : Text → Text) where
  validated-graph :
      (v : Validation) {g : BotGraph} {ws : List BotWarning}
      → validated to_lower_case v ≡ some (g, ws)
      → (v.graph ≡ some g) × (v.warnings ≡ ws)
  validated-graph v {g} {ws} e = elim (Option-cases v.graph) [
    | inl t ↦ absurd (none_ne (rw (validated, t) at e))
    | inr (h, t) ↦
        let p = pair_eq (rw (validated, t) at e) in
        (
          t ∙ ap (λ (z : BotGraph × List BotWarning). some z.0) p,
          ap (λ (z : BotGraph × List BotWarning). z.1) p,
        )
  ]
    where
      none_ne : {x : BotGraph × List BotWarning} → none ≢ some x
      none_ne h = cc

      pair_eq : {x y : BotGraph × List BotWarning} → some x ≡ some y → x ≡ y
      pair_eq h = cc

  -- What is seen of a graph that has been stored.
  view-store_flow :
      (new_id id : Text) (enabled : Bool) (v : Value) (g : BotGraph) (ws : List BotWarning)
      (cfg : Config)
      → validated to_lower_case (validate_bot_graph to_lower_case v) ≡ some (g, ws)
      → flow_view to_lower_case id (store_flow new_id id enabled g cfg)
        ≡ record { enabled = enabled; graph = g; warnings = ws }
  unfolding flow_view store_flow
  view-store_flow new_id id enabled v g ws cfg e =
      let (f, (found, (on, stored))) = find-upsert_flow new_id id enabled g cfg.flows in
      let (graph, warnings) = validated-graph (validate_bot_graph to_lower_case v) e in
      let again =
        ap (validate_bot_graph to_lower_case) stored
        ∙ validate_bot_graph-value_of_graph to_lower_case v g graph in
      rw (flow_view, found)
        (ap (λ b. seen b (validate_bot_graph to_lower_case f.graph)) on
          ∙ (ap (seen enabled) again
              ∙ (ap
                    (λ o. record {
                      enabled = enabled;
                      graph = graph_or_empty o;
                      warnings = (validate_bot_graph to_lower_case v).warnings;
                    })
                    graph
                  ∙ ap (λ w. record { enabled = enabled; graph = g; warnings = w }) warnings)))
    where
      seen : Bool → Validation → FlowView
      seen b x = record { enabled = b; graph = graph_or_empty x.graph; warnings = x.warnings }

  -- How a call that saves a graph has gone if it succeeds.
  record Stored (new_id name : Text) (v : Value) (cfg : Config) (view : FlowView) (after : Config)
      : Type 0 where
    id : Text
    found : find_instance name cfg ≡ ok id
    valid :
        validated to_lower_case (validate_bot_graph to_lower_case v)
        ≡ some (view.graph, view.warnings)
    startable : (view.enabled && not (can_enable view.graph)) ≡ false
    stored : after ≡ store_flow new_id id view.enabled view.graph cfg

  Result-cases :
      {A : Type 0} (r : Result A) → ((e : HttpError) × (r ≡ err e)) ⊎ ((a : A) × (r ≡ ok a))
  Result-cases (err e) = inl (e, refl)
  Result-cases (ok a) = inr (a, refl)

  err_ne_ok : {A : Type 0} {e : HttpError} {a : A} → err e ≢ ok a
  err_ne_ok h = cc

  ok_eq : {A : Type 0} {a b : A} → ok a ≡ ok b → a ≡ b
  ok_eq h = cc

  save_graph-ok :
      (new_id id name : Text) (enabled : Bool) (v : Value) (cfg : Config) (view : FlowView)
      (o : Option (BotGraph × List BotWarning))
      → find_instance name cfg ≡ ok id
      → validated to_lower_case (validate_bot_graph to_lower_case v) ≡ o
      → (save_graph to_lower_case new_id id enabled o cfg).0 ≡ ok view
      → Stored new_id name v cfg view (save_graph to_lower_case new_id id enabled o cfg).1
  unfolding save_graph
  save_graph-ok new_id id name enabled v cfg view none found valid e = absurd (err_ne_ok e)
  save_graph-ok new_id id name enabled v cfg view (some (g, ws)) found valid e =
      elim (Bool-cases (enabled && not (can_enable g))) [
        | inl t ↦ absurd (err_ne_ok (rw t at e))
        | inr t ↦ rw t (
            subst
              (λ (z : FlowView). Stored new_id name v cfg z (store_flow new_id id enabled g cfg))
              (ok_eq (rw t at e))
              (record { id = id; found = found; valid = valid; startable = t; stored = refl }))
      ]

  save_flow-Stored :
      (new_id name : Text) (body : FlowData) (v : Value) (cfg : Config) (view : FlowView)
      → body.graph ≡ some v
      → (save_flow to_lower_case new_id name body cfg).0 ≡ ok view
      → Stored new_id name v cfg view (save_flow to_lower_case new_id name body cfg).1
  unfolding save_flow new_graph
  save_flow-Stored new_id name body v cfg view g e =
      elim (Bool-cases (not (is_flag body.enabled))) [
        | inl t ↦ absurd (err_ne_ok (rw (save_flow, t) at e))
        | inr t ↦ elim (Result-cases (find_instance name cfg)) [
          | inl (x, u) ↦ absurd (err_ne_ok (rw (save_flow, t, u) at e))
          | inr (id, u) ↦
              rw (save_flow, t)
                (rw (u, g)
                  (save_graph-ok new_id id name
                    (enabled_of (flag_of body.enabled) (find_row flow_key id cfg.flows)) v cfg view
                    (validated to_lower_case (validate_bot_graph to_lower_case v)) u refl
                    (rw (save_flow, t, u, g) at e)))
        ]
      ]

  -- If a call of `saveFlow` with a graph succeeds, `getFlow` then returns for that instance what the call
  -- has returned: the same graph, warnings and switch.
  pub save_flow-get_flow :
      (new_id name : Text) (body : FlowData) (v : Value) (cfg : Config) (view : FlowView)
      → body.graph ≡ some v
      → (save_flow to_lower_case new_id name body cfg).0 ≡ ok view
      → get_flow to_lower_case name (save_flow to_lower_case new_id name body cfg).1 ≡ ok view
  unfolding get_flow store_flow
  save_flow-get_flow new_id name body v cfg view g e =
      let s = save_flow-Stored new_id name body v cfg view g e in
      ap (get_flow to_lower_case name) s.stored
      ∙ rw (get_flow, s.found)
          (ap ok (view-store_flow new_id s.id view.enabled v view.graph view.warnings cfg s.valid))

  -- If a call of `saveFlow` with a graph succeeds, the instance then has a flow whose switch and encoded
  -- graph are the returned ones; that graph is well formed, and if the flow is on, the graph has a start,
  -- which is one of its nodes.
  pub save_flow-IsWellFormed :
      (new_id name : Text) (body : FlowData) (v : Value) (cfg : Config) (view : FlowView)
      → body.graph ≡ some v
      → (save_flow to_lower_case new_id name body cfg).0 ≡ ok view
      → IsSaved name view (save_flow to_lower_case new_id name body cfg).1
        × (IsWellFormed to_lower_case view.graph
            × (view.enabled ≡ true → is_start view.graph.nodes view.graph.start_node_id ≡ true))
  unfolding store_flow
  save_flow-IsWellFormed new_id name body v cfg view g e =
      let s = save_flow-Stored new_id name body v cfg view g e in
      let good =
        validate_bot_graph_sound to_lower_case v view.graph
          (validated-graph (validate_bot_graph to_lower_case v) s.valid).0 in
      let (f, (found, (on, graph))) =
        find-upsert_flow new_id s.id view.enabled view.graph cfg.flows in
      (
        subst (IsSaved name view) (sym s.stored) (record {
          id = s.id;
          flow = f;
          instance = s.found;
          found = found;
          switch = on;
          encoded = graph;
        }),
        (
          good,
          λ on.
              starts view.graph.nodes view.graph.start_node_id good.start
                (can (view.enabled) on s.startable),
        ),
      )
    where
      can :
          (b : Bool)
          → b ≡ true
          → (b && not (can_enable view.graph)) ≡ false
          → can_enable view.graph ≡ true
      can b h k = ground (arith, h, k)

      starts :
          (ns : List BotNode) (start : Option Text)
          → HasStart ns start
          → (is_truthy start && not (is_empty ns)) ≡ true
          → is_start ns start ≡ true
      starts [] start h k = ground (arith, k)
      starts (n ∷ ns) start h k = ground (arith, h.0, h.1)
