-- ===== src/AssetLibrary/Items.antt =====
-- frontend/src/adapters/use-asset-store.ts: an asset as it is written to the server's library and as
-- it is read from there: libraryWrite and assetFromLibraryItem.
pub mod RoundTrip
use canvas_standalone.Prelude.{
  ℕ, zero, suc, String, Bool, true, false, not, ◌&&◌, ◌||◌, Option, none, some, List, [], ◌∷◌,
  get_or, is_empty, text_or, truthy_or_none, is_some, truthy, begins, starts_exactly, codes, ltb,
  if◌then◌else◌, ◌==◌,
}
use canvas_standalone.Json.{
  Number, nat, other, Fields, no_field, field, Value, obj, null, str, arr, num, bool, Items, get,
  optional,
}
use canvas_standalone.AssetRuntime.{Aliases, asset_id_from_key, asset_storage_key}

-- the address of the file is `dataUrl` of an image and `url` of a video or an audio file
pub record File : Type 0 where
  pub address : String
  pub storage_key : Option String
  pub bytes : Number
  pub mime_type : String

pub data AssetData : Type 0 where
  text : String → AssetData
  image : Number → Number → File → AssetData
  video : Number → Number → Option Number → File → AssetData
  audio : Option Number → File → AssetData

pub record Content : Type 0 where
  pub title : String
  pub cover_url : String
  pub tags : List String
  pub source : Option String
  pub note : Option String
  pub metadata : Option Fields
  pub content : AssetData

-- CanvasLibraryItemWrite without the fields `client_id` and `version`, which are the caller's
pub record Write : Type 0 where
  pub kind : String
  pub asset_id : Option String
  pub title : String
  pub text : Option String
  pub tags : List String
  pub source : String
  pub note : String
  pub metadata : Fields

abbrev pub cover_key : String
cover_key = "__sub2api_cover_url"

abbrev pub data_key : String
data_key = "__sub2api_library_data"

-- `metadata[key] = value`
abbrev pub set_field : String → Value → Fields → Fields
set_field k v no_field = field k v no_field
set_field k v (field j w fs) = if j == k then field j v fs else field j w (set_field k v fs)

-- `delete metadata[key]`; a key occurs once in an object
abbrev pub drop_field : String → Fields → Fields
drop_field k no_field = no_field
drop_field k (field j w fs) = if j == k then fs else field j w (drop_field k fs)

-- `/^https?:\/\//i.test(value)`
abbrev pub is_web : String → Bool
is_web s = begins (codes "http://") (codes s) || begins (codes "https://") (codes s)

unfoldable pub durable_cover_url : String → String
durable_cover_url s = if is_web s then s else ""

abbrev pub kind_of : AssetData → String
kind_of (text content) = "text"
kind_of (image w h f) = "image"
kind_of (video w h d f) = "video"
kind_of (audio d f) = "audio"

abbrev pub file_of : AssetData → Option File
file_of (text content) = none
file_of (image w h f) = some f
file_of (video w h d f) = some f
file_of (audio d f) = some f

abbrev pub text_content : AssetData → Option String
text_content (text content) = some content
text_content _ = none

abbrev pub file_fields : File → Fields → Fields
file_fields f rest = field "bytes" (num f.bytes) (field "mimeType" (str f.mime_type) rest)

abbrev pub data_fields : AssetData → Fields
data_fields (text content) = no_field
data_fields (image w h f) = field "width" (num w) (field "height" (num h) (file_fields f no_field))
data_fields (video w h d f) =
    field "width" (num w)
      (field "height" (num h) (file_fields f (optional "durationMs" num d no_field)))
data_fields (audio d f) = file_fields f (optional "durationMs" num d no_field)

abbrev pub written_metadata : Content → Fields
written_metadata c =
    set_field data_key (obj (data_fields c.content))
      (set_field cover_key (str (durable_cover_url c.cover_url)) (get_or c.metadata no_field))

abbrev pub write_with : Option String → Content → Write
write_with asset_id c = record {
  kind = kind_of c.content;
  asset_id = asset_id;
  title = c.title;
  text = text_content c.content;
  tags = c.tags;
  source = get_or c.source "";
  note = get_or c.note "";
  metadata = written_metadata c;
}

-- `libraryWrite`; it throws where the file of the asset was not uploaded
unfoldable pub library_write : Aliases → Content → Option Write
unfolding durable_cover_url
library_write aliases c = elim (file_of c.content) [
  | none ↦ some (write_with none c)
  | some f ↦ elim (asset_id_from_key aliases f.storage_key) [
    | none ↦ none
    | some id ↦ some (write_with (some id) c)
  ]
]

-- `objectValue`, `stringValue`, `numberValue` and `optionalNumberValue`
abbrev pub object_value : Option Value → Fields
object_value (some (obj fs)) = fs
object_value _ = no_field

abbrev pub string_value : Option Value → String
string_value (some (str s)) = s
string_value _ = ""

abbrev pub number_value : Option Value → Number
number_value (some (num n)) = n
number_value _ = nat 0

abbrev pub is_positive : Number → Bool
is_positive (nat n) = ltb 0 n
is_positive (other s) = not (starts_exactly (codes "-") (codes s))

abbrev pub optional_number : Option Value → Option Number
optional_number v = let n = number_value v in if is_positive n then some n else none

abbrev pub stored_key : Option String → Option String
stored_key none = none
stored_key (some id) = if is_empty id then none else some (asset_storage_key id)

abbrev pub read_file : Option String → Fields → String → File
read_file asset_id fs mime = record {
  address = "";
  storage_key = stored_key asset_id;
  bytes = number_value (get "bytes" fs);
  mime_type = text_or (some (string_value (get "mimeType" fs))) mime;
}

-- the data of an item by its kind, its content and the identifier of its file
abbrev pub read_data : String → Option String → Option String → Fields → AssetData
read_data kind content asset_id fs =
    if kind == "text"
    then text (get_or content "")
    else if kind == "image"
    then image (number_value (get "width" fs)) (number_value (get "height" fs))
        (read_file asset_id fs "image/png")
    else if kind == "video"
    then video (number_value (get "width" fs)) (number_value (get "height" fs))
        (optional_number (get "durationMs" fs)) (read_file asset_id fs "video/mp4")
    else audio (optional_number (get "durationMs" fs)) (read_file asset_id fs "audio/mpeg")

-- the cover of an image is the address of its thumbnail, where that could be loaded
abbrev pub read_cover : String → Option String → Option String → String → String
read_cover kind asset_id thumbnail stored =
    if (kind == "image") && truthy asset_id then get_or thumbnail stored else stored

-- `assetFromLibraryItem`, of an item that has the fields of a write
unfoldable pub asset_from_item : Write → Option String → Content
asset_from_item w thumbnail = record {
  title = w.title;
  cover_url = read_cover w.kind w.asset_id thumbnail (string_value (get cover_key w.metadata));
  tags = w.tags;
  source = some w.source;
  note = some w.note;
  metadata = some (drop_field cover_key (drop_field data_key w.metadata));
  content = read_data w.kind w.text w.asset_id (object_value (get data_key w.metadata));
}
