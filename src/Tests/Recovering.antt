-- ===== src/Tests/Recovering.antt =====
-- Recovery at concrete inputs.
use canvas_standalone.Prelude.{
  true, false, some, [], ◌∷◌, ◌≡◌, All, map, find_by, ◌==◌, if◌then◌else◌, apply_to,
}
use canvas_standalone.Recovery.{queued, completed, failed, image}
use canvas_standalone.Recovery.Bindings.{build_bindings}
use canvas_standalone.Recovery.Bindings.Sound.{claims, Unclaimed, Distinct, build_bindings-claims}
use canvas_standalone.Recovery.Bindings.Targets.{AllWaiting, build_bindings-waiting}
use canvas_standalone.Recovery.Results.{apply_snapshot, node_key, settle_target}
use canvas_standalone.Recovery.Results.Laws.{
  slot_is_loading, apply_snapshot-not_loading, apply_snapshot-find_by,
}
use canvas_standalone.Recovery.Settle.{settle_sources, is_unsettled}
use canvas_standalone.Recovery.Settle.Laws.{settle_sources-settled, settle_sources_idem}
use canvas_standalone.Tests.Data.{graph, job, binding}

build_bindings-claims_example :
    Unclaimed [] (claims (build_bindings graph (job queued ∷ []) [] []))
    × Distinct (claims (build_bindings graph (job queued ∷ []) [] []))
build_bindings-claims_example = build_bindings-claims graph (job queued ∷ []) [] []

build_bindings-waiting_example : AllWaiting graph (build_bindings graph (job queued ∷ []) [] [])
build_bindings-waiting_example = build_bindings-waiting graph (job queued ∷ []) [] []

apply_snapshot-not_loading_example :
    All
      (λ n. (n.id == "n") ≡ true → slot_is_loading image (some "i1") n ≡ false)
      (apply_snapshot graph binding (job completed)).nodes
apply_snapshot-not_loading_example = apply_snapshot-not_loading graph binding (job completed)

applied_to_others :
    (find_by node_key "c" (apply_snapshot graph binding (job failed)).nodes ≡ (
      if "n" == "c"
      then apply_to node_key (settle_target binding (job failed)) (find_by node_key "c" graph.nodes)
      else find_by node_key "c" graph.nodes))
    × (map node_key (apply_snapshot graph binding (job failed)).nodes ≡ map node_key graph.nodes)
    × ((apply_snapshot graph binding (job failed)).connections ≡ graph.connections)
applied_to_others = apply_snapshot-find_by graph binding (job failed) "c"

settled_all :
    All (λ n. is_unsettled ("c" ∷ []) [] n ≡ false) (settle_sources graph ("c" ∷ []) []).nodes
settled_all = settle_sources-settled graph ("c" ∷ []) []

settled_twice :
    settle_sources (settle_sources graph ("c" ∷ []) []) ("c" ∷ []) []
    ≡ settle_sources graph ("c" ∷ []) []
settled_twice = settle_sources_idem graph ("c" ∷ []) []
