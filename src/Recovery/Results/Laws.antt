-- ===== src/Recovery/Results/Laws.antt =====
-- The nodes after `applyCanvasRecoverySnapshot` of frontend/src/jobs/canvas-task-recovery.ts.
use canvas_standalone.Prelude.{
  String, Bool, true, false, ◌&&◌, Option, none, some, List, [], ◌∷◌, map, any, is_empty, truthy,
  if◌then◌else◌, ◌==◌, get_or, update_by, All, inl, inr, ◌≡◌, refl, arith, Bool-cases, find_by,
  find_by-update_by, map-update_by, apply_to,
}
use canvas_standalone.Canvas.{
  Node, Image, Metadata, Status, is_loading, images_of, metadata_of, node_is_loading,
}
use canvas_standalone.Recovery.{Kind, image, video, audio, Snapshot, Binding, Graph, is_image}
use canvas_standalone.Recovery.Results.{
  failure_message, settle_whole, settle_image, image_key, any_loading, images_status, promote,
  recovered_image, with_images, settle_one, reconcile_image_node, settle_target, node_key,
  apply_snapshot, settle_slot, outcome,
}

-- Whether a task of the kind writes to one image of its target.
abbrev pub has_image : Kind → Option String → Bool
has_image kind image_id = is_image kind && truthy image_id

-- What the task was bound to is still loading.
abbrev pub slot_is_loading : Kind → Option String → Node → Bool
slot_is_loading kind image_id node =
    if has_image kind image_id
    then any (λ im. (im.id == get_or image_id "") && is_loading im.status) (images_of node)
    else node_is_loading node

settle_whole-not_loading :
    (n : Node) (r : Option (String × Option String)) (fallback message : String)
    → node_is_loading (settle_whole n r fallback message) ≡ false
unfolding settle_whole
settle_whole-not_loading n none fallback message = refl
settle_whole-not_loading n (some r) fallback message = refl

update_by-not_loading :
    (i : String) (r : Option (String × Option String)) (message : String) (ims : List Image)
    → any
        (λ im. (im.id == i) && is_loading im.status)
        (update_by image_key i (settle_image r message) ims)
      ≡ false
update_by-not_loading i r message [] = refl
update_by-not_loading i none message (im ∷ ims) =
    ground (arith, update_by-not_loading i none message ims)
update_by-not_loading i (some r) message (im ∷ ims) =
    ground (arith, update_by-not_loading i (some r) message ims)

abbrev settled_images : Node → String → Option (String × Option String) → String → List Image
settled_images n i r message = update_by image_key i (settle_image r message) (images_of n)

promote_keeps :
    (o : Option Image) (m : Metadata)
    → ((promote o m).images ≡ m.images) × ((promote o m).status ≡ m.status)
promote_keeps none m = (refl, refl)
promote_keeps (some im) m = ground arith

images_status-loading : (ims : List Image) → is_loading (images_status ims) ≡ any_loading ims
images_status-loading ims = ground arith

is_loading_status : Option Status → Bool
is_loading_status none = false
is_loading_status (some s) = is_loading s

settle_one-images :
    (n : Node) (i : String) (r : Option (String × Option String)) (message : String)
    → (images_of (settle_one n i r message) ≡ settled_images n i r message)
      × (node_is_loading (settle_one n i r message) ≡ any_loading (settled_images n i r message))
unfolding settle_one
settle_one-images n i r message =
    let ims = settled_images n i r message in
    let (same_images, same_status) =
      promote_keeps (recovered_image i ims) (with_images (metadata_of n) ims message) in
    (rw same_images refl, rw (node_is_loading, same_status) (images_status-loading ims))

reconcile_image_node-not_loading :
    (i : Option String) (r : Option (String × Option String)) (message : String) (n : Node)
    → slot_is_loading image i (reconcile_image_node n i r message) ≡ false
unfolding reconcile_image_node
reconcile_image_node-not_loading none r message n = settle_whole-not_loading n r "image/png" message
reconcile_image_node-not_loading (some i) r message n = elim (Bool-cases (is_empty i)) [
  | inl e ↦ rw e (settle_whole-not_loading n r "image/png" message)
  | inr e ↦
      rw (e, (settle_one-images n i r message).0) (update_by-not_loading i r message (images_of n))
]

-- Whatever the task's end, the slot that it was bound to is no longer loading.
pub settle_slot-not_loading :
    (kind : Kind) (i : Option String) (r : Option (String × Option String)) (message : String)
    (n : Node)
    → slot_is_loading kind i (settle_slot kind i r message n) ≡ false
unfolding settle_slot
settle_slot-not_loading image i r message n = reconcile_image_node-not_loading i r message n
settle_slot-not_loading video i r message n = settle_whole-not_loading n r "video/mp4" message
settle_slot-not_loading audio i r message n = settle_whole-not_loading n r "audio/mpeg" message

settle_whole_key :
    (n : Node) (r : Option (String × Option String)) (fallback message : String)
    → (settle_whole n r fallback message).id ≡ n.id
unfolding settle_whole
settle_whole_key n none fallback message = refl
settle_whole_key n (some r) fallback message = refl

settle_slot_key :
    (kind : Kind) (i : Option String) (r : Option (String × Option String)) (message : String)
    (n : Node)
    → (settle_slot kind i r message n).id ≡ n.id
unfolding settle_slot reconcile_image_node settle_one
settle_slot_key image none r message n = settle_whole_key n r "image/png" message
settle_slot_key image (some i) r message n =
    ground (arith, settle_whole_key n r "image/png" message)
settle_slot_key video i r message n = settle_whole_key n r "video/mp4" message
settle_slot_key audio i r message n = settle_whole_key n r "audio/mpeg" message

update_by-All {ℓ} :
    (P : Node → Type ℓ) (k : String) (f : Node → Node) (ns : List Node)
    → ((n : Node) → (f n).id ≡ n.id)
    → ((n : Node) → P (f n))
    → All (λ n. (n.id == k) ≡ true → P n) (update_by node_key k f ns)
update_by-All P k f [] h p = tt
update_by-All P k f (n ∷ ns) h p = elim (Bool-cases (n.id == k)) [
  | inl e ↦ rw e ((λ _. p n), update_by-All P k f ns h p)
  | inr e ↦ rw e ((λ d. absurd (ground arith)), update_by-All P k f ns h p)
]

-- After a finished task is applied, no node with the target's identifier is still loading in the
-- slot of the task.
pub apply_snapshot-not_loading :
    (g : Graph) (b : Binding) (s : Snapshot)
    → All
        (λ n. (n.id == b.target_node_id) ≡ true → slot_is_loading b.kind b.image_id n ≡ false)
        (apply_snapshot g b s).nodes
unfolding apply_snapshot
apply_snapshot-not_loading g b s =
    update_by-All _ b.target_node_id (settle_target b s) g.nodes
      (settle_slot_key b.kind b.image_id (outcome s) (failure_message b.kind s))
      (settle_slot-not_loading b.kind b.image_id (outcome s) (failure_message b.kind s))

-- A finished task is written to the node with the target's identifier, and every other node, the
-- order of the nodes and the connections stay as they were.
pub apply_snapshot-find_by :
    (g : Graph) (b : Binding) (s : Snapshot) (j : String)
    → (find_by node_key j (apply_snapshot g b s).nodes ≡ (
        if b.target_node_id == j
        then apply_to node_key (settle_target b s) (find_by node_key j g.nodes)
        else find_by node_key j g.nodes))
      × (map node_key (apply_snapshot g b s).nodes ≡ map node_key g.nodes)
      × ((apply_snapshot g b s).connections ≡ g.connections)
unfolding apply_snapshot
apply_snapshot-find_by g b s j =
    let keeps = settle_slot_key b.kind b.image_id (outcome s) (failure_message b.kind s) in
    (
      find_by-update_by node_key b.target_node_id j (settle_target b s) g.nodes keeps,
      map-update_by node_key b.target_node_id (settle_target b s) g.nodes keeps,
      refl,
    )
