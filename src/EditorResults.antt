-- ===== src/EditorResults.antt =====
-- frontend/src/editor/apply-editor-result.ts: an asset that the image editor made is written into the
-- node that it was opened from.
pub mod RoundTrip
use canvas_standalone.Prelude.{
  ℕ, String, Bool, true, false, not, ◌&&◌, ◌||◌, Option, none, some, List, [], ◌∷◌, any, find_by,
  get_or, truthy, text_or, is_empty, if◌then◌else◌, ◌==◌,
}
use canvas_standalone.Canvas.{Node, Image, Metadata, success, metadata_of}
use canvas_standalone.AssetRuntime.{Aliases, asset_storage_key, asset_id_from_key}

-- the part of a CanvasAsset that the code reads
pub record Asset : Type 0 where
  pub id : String
  pub width : ℕ
  pub height : ℕ
  pub byte_size : ℕ
  pub mime_type : String

abbrev pub image_id : Image → String
image_id i = i.id

-- `node.metadata?.images?.find((image) => image.id === node.metadata?.primaryImageId)`
abbrev pub find_primary : Option String → Option (List Image) → Option Image
find_primary none images = none
find_primary (some id) images = find_by image_id id (get_or images [])

-- `primary?.storageKey || node.metadata?.storageKey`
abbrev pub key_among : Option Image → Option String → Option String
key_among none key = key
key_among (some i) key = if is_empty i.storage_key then key else some i.storage_key

abbrev pub key_of : Metadata → Option String
key_of m = key_among (find_primary m.primary_image_id m.images) m.storage_key

unfoldable pub persisted_asset_id : Aliases → Option Node → Option String
unfolding asset_id_from_key
persisted_asset_id aliases none = none
persisted_asset_id aliases (some node) =
    if node.type == "image" then asset_id_from_key aliases (key_of (metadata_of node)) else none

module _ (asset : Asset) (url : String) where
  -- `{ ...image, ...imagePatch }`
  abbrev pub patch_image : Image → Image
  patch_image i = record i {
    content = url;
    storage_key = asset_storage_key asset.id;
    natural_width = asset.width;
    natural_height = asset.height;
    bytes = asset.byte_size;
    mime_type = asset.mime_type;
    status = success;
    error_details = none;
  }

  unfoldable pub patch_images : String → List Image → List Image
  patch_images target [] = []
  patch_images target (i ∷ is) =
      (if i.id == target then patch_image i else i) ∷ patch_images target is

  unfoldable pub update_primary_image : Option (List Image) → Option String → Option (List Image)
  unfolding patch_images
  update_primary_image none primary = none
  update_primary_image (some []) primary = some []
  update_primary_image (some (i ∷ is)) primary = some (patch_images (text_or primary i.id) (i ∷ is))

  unfoldable pub patch_metadata : Metadata → Metadata
  unfolding update_primary_image
  patch_metadata m = record m {
    content = some url;
    storage_key = some (asset_storage_key asset.id);
    natural_width = some asset.width;
    natural_height = some asset.height;
    bytes = some asset.byte_size;
    mime_type = some asset.mime_type;
    status = some success;
    error_details = none;
    images = update_primary_image m.images m.primary_image_id;
  }

  abbrev pub is_target : String → Node → Bool
  is_target node_id n = (n.id == node_id) && (n.type == "image")

  unfoldable pub patch_nodes : String → List Node → List Node
  unfolding patch_metadata
  patch_nodes node_id [] = []
  patch_nodes node_id (n ∷ ns) =
      (if is_target node_id n
        then record n { metadata = some (patch_metadata (metadata_of n)) }
        else n)
      ∷ patch_nodes node_id ns

  -- the nodes of the new project, or none where no node was changed
  unfoldable pub apply_editor_result : String → List Node → Option (List Node)
  unfolding patch_nodes
  apply_editor_result node_id nodes =
      if any (is_target node_id) nodes then some (patch_nodes node_id nodes) else none
