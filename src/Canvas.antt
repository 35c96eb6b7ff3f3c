-- ===== src/Canvas.antt =====
-- The canvas document of frontend/src/upstream/types/canvas.ts, as far as the modelled code
-- reads or writes it. What the code only carries along stands in the fields `frame` (position,
-- width and height of a node) and `carried`.
use canvas_standalone.Prelude.{ℕ, String, Bool, true, false, Option, none, some, List, [], get_or}
use canvas_standalone.Json.{Fields, no_field}

pub data Status : Type 0 where
  idle success loading error : Status

pub record Image : Type 0 where
  pub id : String
  pub status : Status
  pub error_details : Option String
  pub content : String
  pub storage_key : String
  pub natural_width : ℕ
  pub natural_height : ℕ
  pub bytes : ℕ
  pub mime_type : String

pub record Metadata : Type 0 where
  pub content : Option String
  pub status : Option Status
  pub error_details : Option String
  pub images : Option (List Image)
  pub primary_image_id : Option String
  pub storage_key : Option String
  pub mime_type : Option String
  pub natural_width : Option ℕ
  pub natural_height : Option ℕ
  pub bytes : Option ℕ
  pub carried : Fields

pub record Node : Type 0 where
  pub id : String
  pub type : String
  pub title : String
  pub frame : Fields
  pub metadata : Option Metadata

pub record Connection : Type 0 where
  pub id : String
  pub from_node_id : String
  pub to_node_id : String

abbrev pub no_metadata : Metadata
no_metadata = record {
  content = none;
  status = none;
  error_details = none;
  images = none;
  primary_image_id = none;
  storage_key = none;
  mime_type = none;
  natural_width = none;
  natural_height = none;
  bytes = none;
  carried = no_field;
}

-- `...node.metadata`, which is empty where the node has none
abbrev pub metadata_of : Node → Metadata
metadata_of node = get_or node.metadata no_metadata

abbrev pub is_loading : Status → Bool
is_loading loading = true
is_loading _ = false

abbrev pub is_success : Status → Bool
is_success success = true
is_success _ = false

-- `node.metadata?.status === 'loading'`
abbrev pub node_is_loading : Node → Bool
node_is_loading node = elim (metadata_of node).status [ none ↦ false | some s ↦ is_loading s ]

abbrev pub node_is_success : Node → Bool
node_is_success node = elim (metadata_of node).status [ none ↦ false | some s ↦ is_success s ]

-- `node.metadata?.images || []`
abbrev pub images_of : Node → List Image
images_of node = get_or (metadata_of node).images []
