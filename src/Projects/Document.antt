-- ===== src/Projects/Document.antt =====
-- `projectDocument` and `sanitizeProjectValue` of frontend/src/adapters/use-canvas-store.ts, with
-- the tree of JSON values that a typed project is in the source.
pub mod Durable
pub mod Kept
use canvas_standalone.Prelude.{
  codes, begins, starts_exactly, ℕ, String, Bool, false, ◌&&◌, ◌||◌, Option, some, List, [], ◌∷◌,
  if◌then◌else◌, ◌==◌, has,
}
use canvas_standalone.Json.{
  Value, null, bool, num, str, arr, obj, Items, nil, cons, Fields, no_field, field, nat, get, join,
  to_items, optional, or_null,
}
use canvas_standalone.Canvas.{
  Node, Connection, Image, Metadata, Status, idle, success, loading, error,
}
use canvas_standalone.Recovery.{Record, kind_name}
use canvas_standalone.AssetRuntime.{Aliases, resolve_alias}
use canvas_standalone.Projects.{Project, BackgroundMode, lines, dots, blank, Viewport}

abbrev pub status_text : Status → String
status_text idle = "idle"
status_text success = "success"
status_text loading = "loading"
status_text error = "error"

abbrev pub natural : ℕ → Value
natural n = num (nat n)

abbrev pub image_value : Image → Value
image_value im = obj (
    field "id" (str im.id) (
      field "status" (str (status_text im.status)) (
        optional "errorDetails" str im.error_details (
          field "content" (str im.content) (
            field "storageKey" (str im.storage_key) (
              field "naturalWidth" (natural im.natural_width) (
                field "naturalHeight" (natural im.natural_height) (
                  field "bytes" (natural im.bytes)
                    (field "mimeType" (str im.mime_type) no_field)))))))))

abbrev pub metadata_value : Metadata → Value
metadata_value m = obj (
    optional "content" str m.content (
      optional "status" (λ s. str (status_text s)) m.status
        (optional "errorDetails" str m.error_details (
          optional "images" (λ ims. arr (to_items image_value ims)) m.images
            (optional "primaryImageId" str m.primary_image_id (
              optional "storageKey" str m.storage_key (
                optional "mimeType" str m.mime_type (
                  optional "naturalWidth" natural m.natural_width (
                    optional "naturalHeight" natural m.natural_height
                      (optional "bytes" natural m.bytes m.carried))))))))))

abbrev pub node_value : Node → Value
node_value n = obj (
    field "id" (str n.id) (
      field "type" (str n.type) (
        field "title" (str n.title)
          (join n.frame (optional "metadata" metadata_value n.metadata no_field)))))

abbrev pub connection_value : Connection → Value
connection_value c = obj (
    field "id" (str c.id)
      (field "fromNodeId" (str c.from_node_id) (field "toNodeId" (str c.to_node_id) no_field)))

abbrev pub record_value : Record → Value
record_value r = obj (
    field "taskID" (str r.task_id) (
      field "kind" (str (kind_name r.kind)) (
        field "sourceNodeID" (str r.source_node_id) (
          field "targetNodeID" (str r.target_node_id)
            (optional "imageID" str r.image_id no_field)))))

abbrev pub background_text : BackgroundMode → String
background_text lines = "lines"
background_text dots = "dots"
background_text blank = "blank"

abbrev pub viewport_value : Viewport → Value
viewport_value v = obj (field "x" (num v.x) (field "y" (num v.y) (field "k" (num v.k) no_field)))

-- `/^(blob:|data:)/i.test(s)`
unfoldable pub is_ephemeral : String → Bool
is_ephemeral s = begins (codes "blob:") (codes s) || begins (codes "data:") (codes s)

-- `/^(https?:)?\/\//i.test(s)`
unfoldable pub is_remote : String → Bool
is_remote s =
    begins (codes "//") (codes s)
    || (begins (codes "http://") (codes s) || begins (codes "https://") (codes s))

-- `typeof source.storageKey === 'string' && source.storageKey.startsWith('asset:')`
unfoldable pub is_durable_key : Option Value → Bool
is_durable_key (some (str s)) = starts_exactly (codes "asset:") (codes s)
is_durable_key _ = false

abbrev pub url_keys : List String
url_keys = "content" ∷ "dataUrl" ∷ "url" ∷ "coverUrl" ∷ []

module _ (aliases : Aliases) where
  -- A text that is the value of a key.
  unfoldable pub sanitize_text : Bool → String → String → String
  sanitize_text durable key s =
      if is_ephemeral s
      then ""
      else if durable && (is_remote s && has key url_keys)
      then ""
      else if key == "storageKey"
      then resolve_alias aliases s
      else s

  mutual
    unfolding sanitize_text

    pub sanitize : Value → Value
    sanitize null = null
    sanitize (bool b) = bool b
    sanitize (num n) = num n
    sanitize (str s) = str (if is_ephemeral s then "" else s)
    sanitize (arr xs) = arr (sanitize_items xs)
    sanitize (obj fs) = obj (sanitize_fields (is_durable_key (get "storageKey" fs)) fs)

    pub sanitize_items : Items → Items
    sanitize_items nil = nil
    sanitize_items (cons v vs) = cons (sanitize v) (sanitize_items vs)

    pub sanitize_fields : Bool → Fields → Fields
    sanitize_fields durable no_field = no_field
    sanitize_fields durable (field k v fs) =
        field k (sanitize_child durable k v) (sanitize_fields durable fs)

    pub sanitize_child : Bool → String → Value → Value
    sanitize_child durable key null = null
    sanitize_child durable key (bool b) = bool b
    sanitize_child durable key (num n) = num n
    sanitize_child durable key (str s) = str (sanitize_text durable key s)
    sanitize_child durable key (arr xs) =
        arr (if key == "references" then sanitize_references xs else sanitize_items xs)
    sanitize_child durable key (obj fs) =
        obj (sanitize_fields (is_durable_key (get "storageKey" fs)) fs)

    -- The texts of a list of references are resolved and not otherwise looked at.
    pub sanitize_references : Items → Items
    sanitize_references nil = nil
    sanitize_references (cons v vs) = cons (sanitize_reference v) (sanitize_references vs)

    pub sanitize_reference : Value → Value
    sanitize_reference (str s) = str (resolve_alias aliases s)
    sanitize_reference null = null
    sanitize_reference (bool b) = bool b
    sanitize_reference (num n) = num n
    sanitize_reference (arr xs) = arr (sanitize_items xs)
    sanitize_reference (obj fs) = obj (sanitize_fields (is_durable_key (get "storageKey" fs)) fs)

  -- The part of `projectDocument` that is built before it is sanitized.
  abbrev pub raw_document : Project → Value
  raw_document p = obj (
      field "schema_version" (natural 2) (
        field "nodes" (arr (to_items node_value p.nodes)) (
          field "connections" (arr (to_items connection_value p.connections)) (
            field "chat_sessions" p.chat_sessions (
              field "active_chat_id" (or_null p.active_chat_id) (
                field "background_mode" (str (background_text p.background_mode)) (
                  field "show_image_info" (bool p.show_image_info) (
                    field "viewport" (viewport_value p.viewport) (
                      field "recoveries" (arr (to_items record_value p.recoveries))
                        no_field)))))))))

  unfoldable pub project_document : Project → Value
  project_document p = sanitize (raw_document p)

  -- A project as one tree, as `scheduleSave` puts it into a draft.
  abbrev pub project_value : Project → Value
  project_value p = obj (
      field "id" (str p.id) (
        field "title" (str p.title) (
          field "createdAt" (str p.created_at) (
            field "updatedAt" (str p.updated_at) (
              field "nodes" (arr (to_items node_value p.nodes)) (
                field "connections" (arr (to_items connection_value p.connections)) (
                  field "chatSessions" p.chat_sessions (
                    field "activeChatId" (or_null p.active_chat_id) (
                      field "backgroundMode" (str (background_text p.background_mode)) (
                        field "showImageInfo" (bool p.show_image_info) (
                          field "viewport" (viewport_value p.viewport) (
                            field "recoveryRevision" (natural p.recovery_revision) (
                              field "recoveries" (arr (to_items record_value p.recoveries))
                                no_field)))))))))))))

  unfoldable pub draft_project : Project → Value
  draft_project p = sanitize (project_value p)
