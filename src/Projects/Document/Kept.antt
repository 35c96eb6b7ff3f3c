-- ===== src/Projects/Document/Kept.antt =====
-- The records of recoveries in the document that `projectDocument` of
-- frontend/src/adapters/use-canvas-store.ts makes.
use canvas_standalone.Prelude.{
  String, false, Option, none, some, List, [], ◌∷◌, ◌≡◌, refl, ap, ◌∙◌, All,
}
use canvas_standalone.Json.{arr, obj, cons, Fields, get, to_items}
use canvas_standalone.Recovery.{Record, Kind, image, video, audio, kind_name}
use canvas_standalone.AssetRuntime.{Aliases}
use canvas_standalone.Projects.{Project}
use canvas_standalone.Projects.Document.{
  sanitize, sanitize_items, sanitize_fields, sanitize_child, sanitize_text, is_ephemeral,
  is_durable_key, project_document, record_value,
}

-- an identifier that is not taken for an address of the page
abbrev pub IsLasting : Option String → Type 0
IsLasting none = Unit
IsLasting (some s) = is_ephemeral s ≡ false

abbrev pub IsLastingRecord : Record → Type 0
IsLastingRecord r =
    IsLasting (some r.task_id)
    × (IsLasting (some r.source_node_id)
        × (IsLasting (some r.target_node_id) × IsLasting r.image_id))

kind_lasts : (k : Kind) → is_ephemeral (kind_name k) ≡ false
unfolding is_ephemeral
kind_lasts image = refl
kind_lasts video = refl
kind_lasts audio = refl

module _ (aliases : Aliases) where
  sanitize-fields_of :
      (kind : Kind) (task source target : String) (im : Option String)
      → is_ephemeral task ≡ false
      → is_ephemeral source ≡ false
      → is_ephemeral target ≡ false
      → IsLasting im
      → sanitize aliases (
          record_value (record {
            task_id = task;
            kind = kind;
            source_node_id = source;
            target_node_id = target;
            image_id = im;
          }))
        ≡ record_value (record {
          task_id = task;
          kind = kind;
          source_node_id = source;
          target_node_id = target;
          image_id = im;
        })
  unfolding sanitize sanitize_text is_durable_key
  sanitize-fields_of kind task source target none t s g i = rw (kind_lasts kind, t, s, g) refl
  sanitize-fields_of kind task source target (some im) t s g i =
      rw (kind_lasts kind, t, s, g, i) refl

  sanitize_items-record_value :
      (rs : List Record)
      → All IsLastingRecord rs
      → sanitize_items aliases (to_items record_value rs) ≡ to_items record_value rs
  unfolding sanitize_items
  sanitize_items-record_value [] h = refl
  sanitize_items-record_value (r ∷ rs) h =
      let (task, (source, (target, im))) = h.0 in
      let first =
        sanitize-fields_of r.kind r.task_id r.source_node_id r.target_node_id r.image_id task source
          target im in
      ap (λ v. cons v (sanitize_items aliases (to_items record_value rs))) first
      ∙ ap (cons (record_value r)) (sanitize_items-record_value rs h.1)

  -- The document has the records as they are, where no identifier is taken for an address.
  pub project_document-recoveries :
      (p : Project)
      → All IsLastingRecord p.recoveries
      → (fs : Fields) × (project_document aliases p ≡ obj fs)
        × (get "recoveries" fs ≡ some (arr (to_items record_value p.recoveries)))
  unfolding project_document sanitize sanitize_items sanitize_fields sanitize_child
  project_document-recoveries p h =
      (_, refl, ap (λ xs. some (arr xs)) (sanitize_items-record_value p.recoveries h))
