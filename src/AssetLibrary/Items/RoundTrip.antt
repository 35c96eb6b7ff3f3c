-- ===== src/AssetLibrary/Items/RoundTrip.antt =====
-- frontend/src/adapters/use-asset-store.ts: an asset that is written to the library and read again.
use canvas_standalone.Prelude.{
  String, Bool, true, false, ◌≡◌, refl, sym, subst, ap, ◌∙◌, Option, none, some, get_or, is_empty,
  truthy, if◌then◌else◌, ◌==◌, eq_iff, arith, Option-cases, inl, inr,
}
use canvas_standalone.Json.{Number, Fields, no_field, field, Value, obj, str, num, get, optional}
use canvas_standalone.AssetRuntime.{Aliases, asset_id_from_key, asset_storage_key}
use canvas_standalone.AssetLibrary.Items.{
  File, AssetData, text, image, video, audio, Content, Write, cover_key, data_key, set_field,
  drop_field, durable_cover_url, file_of, library_write, write_with, asset_from_item, is_positive,
  written_metadata, read_cover, read_data, read_file, stored_key, optional_number, kind_of,
  text_content, data_fields,
}

get-set_field : (k : String) (v : Value) (fs : Fields) → get k (set_field k v fs) ≡ some v
get-set_field k v no_field = ground (arith, eq_iff k k)
get-set_field k v (field j w fs) = ground (arith, get-set_field k v fs)

get-set_other :
    (k j : String) (v : Value) (fs : Fields)
    → (k == j) ≡ false
    → get j (set_field k v fs) ≡ get j fs
get-set_other k j v no_field h = ground arith
get-set_other k j v (field i w fs) h =
    ground (arith, eq_iff i k, eq_iff i j, eq_iff k j, get-set_other k j v fs h)

get-drop_other :
    (k j : String) (fs : Fields) → (k == j) ≡ false → get j (drop_field k fs) ≡ get j fs
get-drop_other k j no_field h = refl
get-drop_other k j (field i w fs) h =
    ground (arith, eq_iff i k, eq_iff i j, eq_iff k j, get-drop_other k j fs h)

drop-set_field :
    (k : String) (v : Value) (fs : Fields) → get k fs ≡ none → drop_field k (set_field k v fs) ≡ fs
drop-set_field k v no_field h = ground (arith, eq_iff k k)
drop-set_field k v (field j w fs) h = ground (arith, drop-set_field k v fs)

-- what survives of the data: the addresses of files are the page's
abbrev pub stored_file : File → File
stored_file f = record f { address = "" }

abbrev pub stored_data : AssetData → AssetData
stored_data (text content) = text content
stored_data (image w h f) = image w h (stored_file f)
stored_data (video w h d f) = video w h d (stored_file f)
stored_data (audio d f) = audio d (stored_file f)

-- The files of an asset have a type and the key of an uploaded file.
abbrev pub IsStored : Aliases → Option File → Type 0
IsStored aliases none = Unit
IsStored aliases (some f) =
    (is_empty f.mime_type ≡ false)
    × ((id : String) × (asset_id_from_key aliases f.storage_key ≡ some id)
        × (is_empty id ≡ false)
        × (f.storage_key ≡ some (asset_storage_key id)))

abbrev pub IsPositive : Option Number → Type 0
IsPositive none = Unit
IsPositive (some n) = is_positive n ≡ true

abbrev pub duration_of : AssetData → Option Number
duration_of (video w h d f) = d
duration_of (audio d f) = d
duration_of _ = none

-- `id` is that of the file, if there is one
abbrev IsFileId : Option String → Option File → Type 0
IsFileId id none = Unit
IsFileId id (some f) = (is_empty f.mime_type ≡ false) × (stored_key id ≡ f.storage_key)

optional_number-num :
    (d : Option Number)
    → IsPositive d
    → optional_number (get "durationMs" (optional "durationMs" num d no_field)) ≡ d
optional_number-num none p = refl
optional_number-num (some n) p = rw p refl

read_file-fields :
    (id : Option String) (f : File) (mime : String) (fs : Fields)
    → get "bytes" fs ≡ some (num f.bytes)
    → get "mimeType" fs ≡ some (str f.mime_type)
    → IsFileId id (some f)
    → read_file id fs mime ≡ stored_file f
read_file-fields id f mime fs b m h = rw b (rw m (rw h.0 (rw h.1 refl)))

read_data-data_fields :
    (id : Option String) (d : AssetData)
    → IsFileId id (file_of d)
    → IsPositive (duration_of d)
    → read_data (kind_of d) (text_content d) id (data_fields d) ≡ stored_data d
read_data-data_fields id (text content) h p = refl
read_data-data_fields id (image w x f) h p =
    ap (image w x) (read_file-fields id f "image/png" (data_fields (image w x f)) refl refl h)
read_data-data_fields id (video w x d f) h p =
    rw (optional_number-num d p) (
      ap (video w x d)
        (read_file-fields id f "video/mp4" (data_fields (video w x d f)) refl refl h))
read_data-data_fields id (audio d f) h p =
    rw (optional_number-num d p)
      (ap (audio d) (read_file-fields id f "audio/mpeg" (data_fields (audio d f)) refl refl h))

abbrev pub fields_of : Content → Fields
fields_of c = get_or c.metadata no_field

abbrev pub is_image_data : AssetData → Bool
is_image_data (image w h f) = true
is_image_data _ = false

-- An asset as the page has it after the library was loaded again.
abbrev pub stored_content : Content → Option String → Content
stored_content c thumbnail = record {
  title = c.title;
  cover_url =
      if is_image_data c.content
      then get_or thumbnail (durable_cover_url c.cover_url)
      else durable_cover_url c.cover_url;
  tags = c.tags;
  source = some (get_or c.source "");
  note = some (get_or c.note "");
  metadata = some (fields_of c);
  content = stored_data c.content;
}

module _ (c : Content) (no_data : get data_key (fields_of c) ≡ none)
    (no_cover : get cover_key (fields_of c) ≡ none) where
  abbrev with_cover : Fields
  with_cover = set_field cover_key (str (durable_cover_url c.cover_url)) (fields_of c)

  read_metadata : drop_field cover_key (drop_field data_key (written_metadata c)) ≡ fields_of c
  read_metadata =
      ap (drop_field cover_key) (
        drop-set_field data_key (obj (data_fields c.content)) with_cover (
          get-set_other cover_key data_key (str (durable_cover_url c.cover_url)) (fields_of c) refl
          ∙ no_data))
      ∙ drop-set_field cover_key (str (durable_cover_url c.cover_url)) (fields_of c) no_cover

  read_stored_data : get data_key (written_metadata c) ≡ some (obj (data_fields c.content))
  read_stored_data = get-set_field data_key (obj (data_fields c.content)) with_cover

  read_stored_cover :
      get cover_key (written_metadata c) ≡ some (str (durable_cover_url c.cover_url))
  read_stored_cover =
      get-set_other data_key cover_key (obj (data_fields c.content)) with_cover refl
      ∙ get-set_field cover_key (str (durable_cover_url c.cover_url)) (fields_of c)

  shown_cover :
      (id : Option String) (thumbnail : Option String) (stored : String) (d : AssetData)
      → (is_image_data d ≡ true → truthy id ≡ true)
      → read_cover (kind_of d) id thumbnail stored
        ≡ (if is_image_data d then get_or thumbnail stored else stored)
  shown_cover id thumbnail stored (text content) h = refl
  shown_cover id thumbnail stored (image w x f) h = rw (h refl) refl
  shown_cover id thumbnail stored (video w x d f) h = refl
  shown_cover id thumbnail stored (audio d f) h = refl

  asset_from_write :
      (id thumbnail : Option String)
      → IsFileId id (file_of c.content)
      → (is_image_data c.content ≡ true → truthy id ≡ true)
      → IsPositive (duration_of c.content)
      → asset_from_item (write_with id c) thumbnail ≡ stored_content c thumbnail
  unfolding asset_from_item
  asset_from_write id thumbnail h t p = rw read_metadata (
      rw read_stored_data (
        rw read_stored_cover (
          rw (read_data-data_fields id c.content h p)
            (rw (shown_cover id thumbnail (durable_cover_url c.cover_url) c.content t) refl))))

-- What is sent for an asset without a file, and for one with a file.
library_write-text :
    (aliases : Aliases) (c : Content)
    → file_of c.content ≡ none
    → library_write aliases c ≡ some (write_with none c)
unfolding library_write
library_write-text aliases c e = rw (e, library_write) refl

library_write-file :
    (aliases : Aliases) (c : Content) (f : File) (id : String)
    → file_of c.content ≡ some f
    → asset_id_from_key aliases f.storage_key ≡ some id
    → library_write aliases c ≡ some (write_with (some id) c)
unfolding library_write
library_write-file aliases c f id e k = rw (e, library_write) (rw k refl)

not_image : (d : AssetData) → file_of d ≡ none → is_image_data d ≡ true → ⊥
not_image (text content) e i = cc
not_image (image w h f) e i = cc
not_image (video w h d f) e i = cc
not_image (audio d f) e i = cc

file_id :
    (id : String) (f : File)
    → is_empty f.mime_type ≡ false
    → is_empty id ≡ false
    → f.storage_key ≡ some (asset_storage_key id)
    → IsFileId (some id) (some f)
file_id id f m n k = (m, rw n (sym k))

-- An asset that is written to the library comes back from it.
pub asset_from_item-library_write :
    (aliases : Aliases) (c : Content) (thumbnail : Option String)
    → get data_key (fields_of c) ≡ none
    → get cover_key (fields_of c) ≡ none
    → IsStored aliases (file_of c.content)
    → IsPositive (duration_of c.content)
    → (w : Write) × (library_write aliases c ≡ some w)
      × (asset_from_item w thumbnail ≡ stored_content c thumbnail)
asset_from_item-library_write aliases c thumbnail d v s p =
    elim (Option-cases (file_of c.content)) [
      | inl e ↦ (
        write_with none c,
        library_write-text aliases c e,
        asset_from_write c d v none thumbnail (rw e tt) (λ i. absurd (not_image c.content e i)) p,
      )
      | inr (f, e) ↦
          let (m, (id, k, n, key)) = subst (IsStored aliases) e s in
          (
            write_with (some id) c,
            library_write-file aliases c f id e k,
            asset_from_write c d v (some id) thumbnail
                (subst (IsFileId (some id)) (sym e) (file_id id f m n key)) (λ i. rw n refl) p,
          )
    ]
