-- ===== src/Projects/Document/Durable.antt =====
-- Addresses that end with the page, in the documents of frontend/src/adapters/use-canvas-store.ts.
use canvas_standalone.Prelude.{
  String, Bool, true, false, not, ◌&&◌, ◌||◌, ◌≡◌, refl, arith, if◌then◌else◌, ◌==◌,
}
use canvas_standalone.Json.{
  Value, null, bool, num, str, arr, obj, Items, nil, cons, Fields, no_field, field, get,
}
use canvas_standalone.AssetRuntime.{Aliases}
use canvas_standalone.Projects.{Project}
use canvas_standalone.Projects.Document.{
  sanitize, sanitize_items, sanitize_fields, sanitize_child, sanitize_references,
  sanitize_reference, sanitize_text, is_ephemeral, is_durable_key, project_document, raw_document,
  draft_project, project_value,
}

-- No text of a value begins with `blob:` or `data:`, apart from the keys in `storageKey` and the
-- texts that stand directly in a list of references.
mutual
  pub is_clean : Value → Bool
  is_clean null = true
  is_clean (bool b) = true
  is_clean (num n) = true
  is_clean (str s) = not (is_ephemeral s)
  is_clean (arr xs) = are_clean xs
  is_clean (obj fs) = fields_clean fs

  pub are_clean : Items → Bool
  are_clean nil = true
  are_clean (cons v vs) = is_clean v && are_clean vs

  pub fields_clean : Fields → Bool
  fields_clean no_field = true
  fields_clean (field k v fs) = child_clean k v && fields_clean fs

  pub child_clean : String → Value → Bool
  child_clean k null = true
  child_clean k (bool b) = true
  child_clean k (num n) = true
  child_clean k (str s) = (k == "storageKey") || not (is_ephemeral s)
  child_clean k (arr xs) = if k == "references" then references_clean xs else are_clean xs
  child_clean k (obj fs) = fields_clean fs

  pub references_clean : Items → Bool
  references_clean nil = true
  references_clean (cons v vs) = reference_clean v && references_clean vs

  pub reference_clean : Value → Bool
  reference_clean (str s) = true
  reference_clean null = true
  reference_clean (bool b) = true
  reference_clean (num n) = true
  reference_clean (arr xs) = are_clean xs
  reference_clean (obj fs) = fields_clean fs

no_text-is_ephemeral : is_ephemeral "" ≡ false
unfolding is_ephemeral
no_text-is_ephemeral = refl

module _ (aliases : Aliases) where
  text-clean :
      (durable : Bool) (k s : String)
      → ((k == "storageKey") || not (is_ephemeral (sanitize_text aliases durable k s))) ≡ true
  unfolding sanitize_text
  text-clean durable k s = ground (arith, no_text-is_ephemeral)

  mutual
    unfolding is_clean sanitize

    sanitize-is_clean : (v : Value) → is_clean (sanitize aliases v) ≡ true
    sanitize-is_clean null = refl
    sanitize-is_clean (bool b) = refl
    sanitize-is_clean (num n) = refl
    sanitize-is_clean (str s) = ground (arith, no_text-is_ephemeral)
    sanitize-is_clean (arr xs) = items-clean xs
    sanitize-is_clean (obj fs) = fields-clean (is_durable_key (get "storageKey" fs)) fs

    items-clean : (xs : Items) → are_clean (sanitize_items aliases xs) ≡ true
    items-clean nil = refl
    items-clean (cons v vs) = ground (arith, sanitize-is_clean v, items-clean vs)

    fields-clean :
        (durable : Bool) (fs : Fields) → fields_clean (sanitize_fields aliases durable fs) ≡ true
    fields-clean durable no_field = refl
    fields-clean durable (field k v fs) =
        ground (arith, child-clean durable k v, fields-clean durable fs)

    child-clean :
        (durable : Bool) (k : String) (v : Value)
        → child_clean k (sanitize_child aliases durable k v) ≡ true
    child-clean durable k null = refl
    child-clean durable k (bool b) = refl
    child-clean durable k (num n) = refl
    child-clean durable k (str s) = text-clean durable k s
    child-clean durable k (arr xs) = ground (arith, references-clean xs, items-clean xs)
    child-clean durable k (obj fs) = fields-clean (is_durable_key (get "storageKey" fs)) fs

    references-clean : (xs : Items) → references_clean (sanitize_references aliases xs) ≡ true
    references-clean nil = refl
    references-clean (cons v vs) = ground (arith, reference-clean v, references-clean vs)

    reference-clean : (v : Value) → reference_clean (sanitize_reference aliases v) ≡ true
    reference-clean (str s) = refl
    reference-clean null = refl
    reference-clean (bool b) = refl
    reference-clean (num n) = refl
    reference-clean (arr xs) = items-clean xs
    reference-clean (obj fs) = fields-clean (is_durable_key (get "storageKey" fs)) fs

  -- Neither the document that is sent for a project nor the copy in its draft holds an address that
  -- ends with the page, apart from keys of stored files and texts that stand directly in a list of
  -- references.
  pub project_document-is_clean :
      (p : Project)
      → (is_clean (project_document aliases p) ≡ true) × (is_clean (draft_project aliases p) ≡ true)
  unfolding project_document draft_project
  project_document-is_clean p =
      (sanitize-is_clean (raw_document aliases p), sanitize-is_clean (project_value aliases p))
