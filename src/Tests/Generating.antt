-- ===== src/Tests/Generating.antt =====
-- The generation helpers on a canvas with a circle of connections.
use canvas_standalone.Prelude.{◌≡◌, refl, true, some, none, [], ◌∷◌, List, String, Memᴰ}
use canvas_standalone.Canvas.{Node, Connection}
use canvas_standalone.Projects.State.{State}
use canvas_standalone.Projects.Recoveries.{is_recovery_active}
use canvas_standalone.Generations.{
  find_retry_source, found, not_found, generation_count, whole_part,
}
use canvas_standalone.Generations.Retry.{Upstream, direct, further}
use canvas_standalone.Generations.Retry.Result.{
  IsSource, find_retry_source-found, find_retry_source-IsSource,
}
use canvas_standalone.Generations.Interrupted.{reset_interrupted, reset_interrupted-active}
use canvas_standalone.Tests.Data.{image_node, config_node, waiting_image, empty_store, binding}

abbrev joins : String → String → Connection
joins from to = record { id = "e"; from_node_id = from; to_node_id = to }

abbrev text_node : Node
text_node = record config_node { id = "t"; type = "text" }

-- "t" and "n" lead to one another, and "c" leads to "t".
abbrev circle : List Connection
circle = joins "t" "n" ∷ joins "n" "t" ∷ joins "c" "t" ∷ []

abbrev nodes : List Node
nodes = text_node ∷ image_node ∷ config_node ∷ []

found_in_circle : find_retry_source "n" nodes circle ≡ found config_node
unfolding find_retry_source
found_in_circle = refl

none_in_circle : find_retry_source "n" (text_node ∷ image_node ∷ []) circle ≡ not_found
unfolding find_retry_source
none_in_circle = refl

config-Upstream : Upstream circle "n" "c"
config-Upstream =
    further (joins "c" "t") (Memᴰ.tail (Memᴰ.tail (Memᴰ.head refl)))
      (direct (joins "t" "n") (Memᴰ.head refl) refl)

find_retry_source-found_example :
    (m : Node) × (find_retry_source "n" nodes circle ≡ found m) × IsSource "n" nodes circle m
find_retry_source-found_example =
    find_retry_source-found "n" nodes circle config_node (refl, refl, config-Upstream)

find_retry_source-IsSource_example : IsSource "n" nodes circle config_node
find_retry_source-IsSource_example =
    find_retry_source-IsSource "n" nodes circle config_node found_in_circle

counts : generation_count (whole_part 40) ≡ 15
unfolding generation_count
counts = refl

abbrev recovering : State
recovering = record empty_store { active_project = some "p"; recoveries = λ _. binding ∷ [] }

-- The image that a recovery claims stays loading.
reset_interrupted-active_example :
    (is_recovery_active "n" none recovering ≡ true)
    × (is_recovery_active "n" (some "i1") recovering ≡ true)
unfolding reset_interrupted is_recovery_active
reset_interrupted-active_example =
    reset_interrupted-active recovering "Interrupted" (config_node ∷ image_node ∷ []) image_node
      waiting_image (Memᴰ.tail (Memᴰ.head refl)) refl (Memᴰ.head refl) refl
