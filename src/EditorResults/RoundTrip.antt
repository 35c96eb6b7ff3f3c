-- ===== src/EditorResults/RoundTrip.antt =====
-- frontend/src/editor/apply-editor-result.ts: what is read of a node that was written.
use canvas_standalone.Prelude.{
  String, true, false, ◌≡◌, ◌≢◌, refl, sym, subst, Option, none, some, List, [], ◌∷◌, any, find_by,
  is_empty, ◌==◌, arith, some_injective, eq_iff, Bool-cases, inl, inr,
}
use canvas_standalone.Canvas.{Node, Image, metadata_of}
use canvas_standalone.AssetRuntime.{Aliases, lookup_alias, asset_storage_key}
use canvas_standalone.AssetRuntime.Laws.{asset_id_from_key-asset_storage_key}
use canvas_standalone.EditorResults.{
  Asset, image_id, key_among, find_primary, persisted_asset_id, patch_images, update_primary_image,
  patch_metadata, is_target, patch_nodes, apply_editor_result,
}

module _ (asset : Asset) (url : String) where
  abbrev key : Option String
  key = some (asset_storage_key asset.id)

  key_among-patch_images :
      (id : String) (is : List Image)
      → key_among (find_by image_id id (patch_images asset url id is)) key ≡ key
  unfolding patch_images
  key_among-patch_images id [] = refl
  key_among-patch_images id (i ∷ is) = ground (arith, key_among-patch_images id is)

  key_among-update_primary_image :
      (images : Option (List Image)) (primary : Option String)
      → primary ≢ some ""
      → key_among (find_primary primary (update_primary_image asset url images primary)) key ≡ key
  unfolding update_primary_image
  key_among-update_primary_image images none h = refl
  key_among-update_primary_image none (some id) h = refl
  key_among-update_primary_image (some []) (some id) h = refl
  key_among-update_primary_image (some (i ∷ is)) (some id) h =
      ground (arith, key_among-patch_images id (i ∷ is), eq_iff id "")

  find_by-patch_nodes :
      (node_id : String) (nodes : List Node) (n : Node)
      → find_by Node.id node_id nodes ≡ some n
      → (n.type == "image") ≡ true
      → find_by Node.id node_id (patch_nodes asset url node_id nodes)
        ≡ some (record n { metadata = some (patch_metadata asset url (metadata_of n)) })
  unfolding patch_nodes
  find_by-patch_nodes node_id [] n f t = absurd (cc)
  find_by-patch_nodes node_id (x ∷ xs) n f t = elim (Bool-cases (x.id == node_id)) [
    | inl e ↦
        subst
          (λ (m : Node).
            (m.type == "image") ≡ true
            → find_by Node.id node_id (patch_nodes asset url node_id (x ∷ xs))
              ≡ some (record m { metadata = some (patch_metadata asset url (metadata_of m)) }))
          (some_injective (rw e at f)) (λ k. rw (e, k) (rw e refl)) t
    | inr e ↦ rw e (rw e (find_by-patch_nodes node_id xs n (rw e at f) t))
  ]

  find_by-patch_other :
      (node_id other : String) (nodes : List Node)
      → (node_id == other) ≡ false
      → find_by Node.id other (patch_nodes asset url node_id nodes) ≡ find_by Node.id other nodes
  unfolding patch_nodes
  find_by-patch_other node_id other [] h = refl
  find_by-patch_other node_id other (x ∷ xs) h = ground (
    arith,
    eq_iff x.id node_id,
    eq_iff x.id other,
    eq_iff node_id other,
    find_by-patch_other node_id other xs h,
  )

  is_target-any :
      (node_id : String) (nodes : List Node) (n : Node)
      → find_by Node.id node_id nodes ≡ some n
      → (n.type == "image") ≡ true
      → any (is_target asset url node_id) nodes ≡ true
  is_target-any node_id [] n f t = absurd (cc)
  is_target-any node_id (x ∷ xs) n f t = elim (Bool-cases (x.id == node_id)) [
    | inl e ↦ rw e (
        rw (subst (λ (m : Node). (m.type == "image") ≡ true) (sym (some_injective (rw e at f))) t)
          refl)
    | inr e ↦ rw e (is_target-any node_id xs n (rw e at f) t)
  ]

  persisted-patched :
      (aliases : Aliases) (n : Node)
      → (n.type == "image") ≡ true
      → (metadata_of n).primary_image_id ≢ some ""
      → is_empty asset.id ≡ false
      → lookup_alias (asset_storage_key asset.id) aliases ≡ none
      → persisted_asset_id aliases
          (some (record n { metadata = some (patch_metadata asset url (metadata_of n)) }))
        ≡ some asset.id
  unfolding persisted_asset_id patch_metadata
  persisted-patched aliases n t p a l =
      let m = metadata_of n in
      rw t (
        rw (key_among-update_primary_image m.images m.primary_image_id p)
          (asset_id_from_key-asset_storage_key aliases asset.id a l))

  -- The written project has the asset at the node, and every other node as it was.
  pub persisted_asset_id-apply_editor_result :
      (aliases : Aliases) (node_id other : String) (nodes : List Node) (n : Node)
      → find_by Node.id node_id nodes ≡ some n
      → (n.type == "image") ≡ true
      → (metadata_of n).primary_image_id ≢ some ""
      → is_empty asset.id ≡ false
      → lookup_alias (asset_storage_key asset.id) aliases ≡ none
      → (node_id == other) ≡ false
      → (nodes' : List Node) × (apply_editor_result asset url node_id nodes ≡ some nodes')
        × (persisted_asset_id aliases (find_by Node.id node_id nodes') ≡ some asset.id)
        × (find_by Node.id other nodes' ≡ find_by Node.id other nodes)
  unfolding apply_editor_result
  persisted_asset_id-apply_editor_result aliases node_id other nodes n f t p a l o = (
    patch_nodes asset url node_id nodes,
    rw (is_target-any node_id nodes n f t) refl,
    rw (find_by-patch_nodes node_id nodes n f t) (persisted-patched aliases n t p a l),
    find_by-patch_other node_id other nodes o,
  )
