-- ===== src/Recovery/Settle/Laws.antt =====
-- The sources after `settleCanvasRecoverySources` of frontend/src/jobs/canvas-task-recovery.ts.
use canvas_standalone.Prelude.{
  String, false, List, [], ◌∷◌, map, All, ◌≡◌, refl, arith, Bool-cases, inl, inr, ap,
}
use canvas_standalone.Canvas.{Node, node_is_loading}
use canvas_standalone.Recovery.{Binding, Graph}
use canvas_standalone.Recovery.Bindings.{downstream}
use canvas_standalone.Recovery.Settle.{is_unsettled, settled, settle_node, settle_sources}

settled-not_loading :
    (node : Node) (ts : List Node)
    → ((settled node ts).id ≡ node.id) × (node_is_loading (settled node ts) ≡ false)
unfolding settled
settled-not_loading node ts = ground arith

settle_node-not_unsettled :
    (g : Graph) (sources : List String) (active : List Binding) (node : Node)
    → is_unsettled sources active (settle_node g sources active node) ≡ false
unfolding settle_node
settle_node-not_unsettled g sources active node =
    elim (Bool-cases (is_unsettled sources active node)) [
      | inl e ↦ ground (arith, settled-not_loading node (downstream g node.id g.connections))
      | inr e ↦ rw e e
    ]

map-not_unsettled :
    (g : Graph) (sources : List String) (active : List Binding) (ns : List Node)
    → All (λ n. is_unsettled sources active n ≡ false) (map (settle_node g sources active) ns)
map-not_unsettled g sources active [] = tt
map-not_unsettled g sources active (n ∷ ns) =
    (settle_node-not_unsettled g sources active n, map-not_unsettled g sources active ns)

-- Afterwards no source without an active binding is still loading.
pub settle_sources-settled :
    (g : Graph) (sources : List String) (active : List Binding)
    → All (λ n. is_unsettled sources active n ≡ false) (settle_sources g sources active).nodes
unfolding settle_sources
settle_sources-settled g sources active = map-not_unsettled g sources active g.nodes

map-settled :
    (g : Graph) (sources : List String) (active : List Binding) (ns : List Node)
    → All (λ n. is_unsettled sources active n ≡ false) ns
    → map (settle_node g sources active) ns ≡ ns
unfolding settle_node
map-settled g sources active [] h = refl
map-settled g sources active (n ∷ ns) h = rw (h.0, map-settled g sources active ns h.1)

-- A second settlement for the same sources changes nothing.
pub settle_sources_idem :
    (g : Graph) (sources : List String) (active : List Binding)
    → settle_sources (settle_sources g sources active) sources active
      ≡ settle_sources g sources active
unfolding settle_sources
settle_sources_idem g sources active =
    let once = settle_sources g sources active in
    ap (λ ns. record g { nodes = ns })
      (map-settled once sources active once.nodes (settle_sources-settled g sources active))
