-- ===== src/Recovery/Results.antt =====
-- `applyCanvasRecoverySnapshot` and `reconcileImageNode` of
-- frontend/src/jobs/canvas-task-recovery.ts.
pub mod Laws
use Prim.Native.String.{◌++◌ as text_append}
use canvas_standalone.Prelude.{
  ℕ, String, Bool, true, false, not, ◌&&◌, ◌||◌, Option, none, some, List, [], ◌∷◌, map, find, any,
  is_empty, text_or, truthy, if◌then◌else◌, ◌==◌, get_or, update_by, is_some,
}
use canvas_standalone.Canvas.{
  Node, Image, Metadata, success, loading, error, Status, is_loading, is_success, images_of,
  metadata_of,
}
use canvas_standalone.AssetRuntime.{asset_storage_key}
use canvas_standalone.Recovery.{
  Kind, image, video, audio, Snapshot, JobStatus, completed, partial, TaskResult, Binding, Graph,
  kind_name, status_name, is_image,
}

-- `snapshot.status === 'completed' || snapshot.status === 'partial'`
abbrev pub is_successful : JobStatus → Bool
is_successful completed = true
is_successful partial = true
is_successful _ = false

-- `results.find((item) => item.asset_id)`
abbrev pub usable_result : Snapshot → Option TaskResult
usable_result s = find (λ r. truthy r.asset_id) s.results

abbrev pub failure_message : Kind → Snapshot → String
failure_message kind s =
    text_or s.error_message
      (text_append (kind_name kind) (text_append " generation " (status_name s.status)))

-- `result?.asset_id` where it is truthy, with the media type beside it
abbrev pub produced : Option TaskResult → Option (String × Option String)
produced none = none
produced (some r) = elim r.asset_id [
  | none ↦ none
  | some id ↦ if is_empty id then none else some (id, r.mime_type)
]

abbrev pub with_metadata : Node → Metadata → Node
with_metadata node m = record node { metadata = some m }

abbrev pub stored : Metadata → String → Option String → String → Metadata
stored m asset_id mime_type fallback = record m {
  content = some "";
  storage_key = some (asset_storage_key asset_id);
  mime_type = some (text_or mime_type fallback);
  status = some success;
  error_details = none;
}

abbrev pub failed_with : Metadata → String → Metadata
failed_with m message = record m { status = some error; error_details = some message }

-- The node of a task that has no image of its own.
pub settle_whole : Node → Option (String × Option String) → String → String → Node
settle_whole node none fallback message =
    with_metadata node (failed_with (metadata_of node) message)
settle_whole node (some (asset_id, mime_type)) fallback message =
    with_metadata node (stored (metadata_of node) asset_id mime_type fallback)

abbrev pub settle_image : Option (String × Option String) → String → Image → Image
settle_image none message im = record im { status = error; error_details = some message }
settle_image (some (asset_id, mime_type)) message im = record im {
  status = success;
  error_details = none;
  content = "";
  storage_key = asset_storage_key asset_id;
  mime_type = text_or mime_type "image/png";
}

abbrev pub image_key : Image → String
image_key im = im.id

abbrev pub any_loading : List Image → Bool
any_loading ims = any (λ im. is_loading im.status) ims

abbrev pub any_success : List Image → Bool
any_success ims = any (λ im. is_success im.status) ims

abbrev pub images_status : List Image → Status
images_status ims = if any_loading ims then loading else if any_success ims then success else error

-- `recovered && !node.metadata?.storageKey`: the first image to succeed becomes the primary one.
abbrev pub promote : Option Image → Metadata → Metadata
promote none m = m
promote (some im) m = if truthy m.storage_key then m else record m {
  content = some "";
  storage_key = some im.storage_key;
  mime_type = some im.mime_type;
  primary_image_id = some im.id;
}

abbrev pub recovered_image : String → List Image → Option Image
recovered_image id ims = find (λ im. (im.id == id) && is_success im.status) ims

abbrev pub with_images : Metadata → List Image → String → Metadata
with_images m ims message = record m {
  images = some ims;
  status = some (images_status ims);
  error_details = if any_loading ims || any_success ims then none else some message;
}

-- The node of a task that has an image of its own.
pub settle_one : Node → String → Option (String × Option String) → String → Node
settle_one node id result message =
    let ims = update_by image_key id (settle_image result message) (images_of node) in
    with_metadata node
      (promote (recovered_image id ims) (with_images (metadata_of node) ims message))

pub reconcile_image_node : Node → Option String → Option (String × Option String) → String → Node
reconcile_image_node node none result message = settle_whole node result "image/png" message
reconcile_image_node node (some id) result message =
    if is_empty id
    then settle_whole node result "image/png" message
    else settle_one node id result message

-- The node as the task's kind wants it written.
pub settle_slot : Kind → Option String → Option (String × Option String) → String → Node → Node
settle_slot image image_id result message node = reconcile_image_node node image_id result message
settle_slot video image_id result message node = settle_whole node result "video/mp4" message
settle_slot audio image_id result message node = settle_whole node result "audio/mpeg" message

-- `successful ? result : undefined`
abbrev pub outcome : Snapshot → Option (String × Option String)
outcome s = if is_successful s.status then produced (usable_result s) else none

-- What is done to the target node.
abbrev pub settle_target : Binding → Snapshot → Node → Node
settle_target b s node = settle_slot b.kind b.image_id (outcome s) (failure_message b.kind s) node

abbrev pub node_key : Node → String
node_key n = n.id

pub apply_snapshot : Graph → Binding → Snapshot → Graph
apply_snapshot g b s = record g {
  nodes = update_by node_key b.target_node_id (settle_target b s) g.nodes;
}
