-- ===== src/Recovery/Settle.antt =====
-- `settleCanvasRecoverySources` of frontend/src/jobs/canvas-task-recovery.ts.
pub mod Laws
use canvas_standalone.Prelude.{
  ℕ, String, Bool, true, false, not, ◌&&◌, ◌||◌, Option, none, some, List, [], ◌∷◌, map, has, find,
  any, is_empty, text_or, truthy, if◌then◌else◌, ◌==◌, get_or,
}
use canvas_standalone.Canvas.{
  Node, Image, Metadata, Connection, success, loading, error, Status, is_loading, is_success,
  images_of, metadata_of, node_is_loading, node_is_success,
}
use canvas_standalone.Recovery.{Binding, Graph}
use canvas_standalone.Recovery.Bindings.{downstream}
use canvas_standalone.Recovery.Results.{with_metadata}

-- A target counts as a success by its own status or by that of one of its images.
abbrev pub has_succeeded : Node → Bool
has_succeeded node = node_is_success node || any (λ im. is_success im.status) (images_of node)

-- The first truthy `errorDetails` among the targets.
abbrev pub first_failure : List Node → Option String
first_failure targets = elim (find (λ n. truthy (metadata_of n).error_details) targets) [
  | none ↦ none
  | some n ↦ (metadata_of n).error_details
]

abbrev pub lost_message : String
lost_message = "Generation could not be recovered"

abbrev pub active_sources : List Binding → List String
active_sources bs = map (λ (b : Binding). b.source_node_id) bs

-- The branch that returns the node as it is.
abbrev pub is_unsettled : List String → List Binding → Node → Bool
is_unsettled sources active node =
    has node.id sources && (not (has node.id (active_sources active)) && node_is_loading node)

pub settled : Node → List Node → Node
settled node targets =
    let succeeded = any has_succeeded targets in
    with_metadata node (record (metadata_of node) {
      status = some (if succeeded then success else error);
      error_details =
          if succeeded then none else some (text_or (first_failure targets) lost_message);
    })

pub settle_node : Graph → List String → List Binding → Node → Node
settle_node g sources active node =
    if is_unsettled sources active node
    then settled node (downstream g node.id g.connections)
    else node

pub settle_sources : Graph → List String → List Binding → Graph
settle_sources g sources active = record g { nodes = map (settle_node g sources active) g.nodes }
