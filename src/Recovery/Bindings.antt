-- ===== src/Recovery/Bindings.antt =====
-- `buildCanvasRecoveryBindings` and `findRecoveryTarget` of
-- frontend/src/jobs/canvas-task-recovery.ts.
pub mod Sound
pub mod Targets
use Prim.Native.String.{◌++◌ as text_append}
use canvas_standalone.Prelude.{
  ℕ, String, Bool, true, false, not, ◌&&◌, ◌||◌, Option, none, some, List, [], ◌∷◌, ◌++◌, map, has,
  find, find_by, keep, any, leb, is_empty, text_or, truthy, if◌then◌else◌, ◌==◌, get_or,
}
use canvas_standalone.Canvas.{Node, Connection, Image, is_loading, node_is_loading, images_of}
use canvas_standalone.Recovery.{
  Kind, image, Snapshot, MediaTask, Record, Binding, Graph, kind_name, is_image,
}

-- The entries of `claimedImages` are texts, a node and an image joined by a NUL character.
abbrev pub claim_key : String → String → String
claim_key node_id image_id = text_append node_id (text_append "\0" image_id)

abbrev pub claim : String → Option String → List String → List String
claim node_id none claimed = claimed
claim node_id (some image_id) claimed =
    if is_empty image_id then claimed else claim_key node_id image_id ∷ claimed

abbrev pub claimed_images : List Record → List String
claimed_images [] = []
claimed_images (r ∷ rs) = claim r.target_node_id r.image_id (claimed_images rs)

abbrev pub snapshot_created_at : Snapshot → ℕ
snapshot_created_at snapshot = get_or snapshot.created_at 0

-- The stable `sort` by creation time.
abbrev pub insert_task : Kind × Snapshot → List (Kind × Snapshot) → List (Kind × Snapshot)
insert_task t [] = t ∷ []
insert_task t (u ∷ us) =
    if leb (snapshot_created_at t.1) (snapshot_created_at u.1)
    then t ∷ u ∷ us
    else u ∷ insert_task t us

pub sort_tasks : List (Kind × Snapshot) → List (Kind × Snapshot)
sort_tasks [] = []
sort_tasks (t ∷ ts) = insert_task t (sort_tasks ts)

-- `node.type === kind && node.metadata?.status === 'loading'`
abbrev pub waits_for : Kind → Node → Bool
waits_for kind node = (node.type == kind_name kind) && node_is_loading node

abbrev pub is_free : List String → Node → Image → Bool
is_free claimed node im = is_loading im.status && not (has (claim_key node.id im.id) claimed)

pub record Target : Type 0 where
  pub node_id : String
  pub image_id : Option String

abbrev pub free_image : List String → Node → List Image → Option Target
free_image claimed node ims = elim (find (is_free claimed node) ims) [
  | none ↦ none
  | some im ↦ some (record { node_id = node.id; image_id = some im.id })
]

-- What one candidate of the loop of `findRecoveryTarget` offers.
pub candidate_target : Kind → List String → Node → Option Target
candidate_target kind claimed node = elim (images_of node) [
  | [] ↦ some (record { node_id = node.id; image_id = none })
  | im ∷ ims ↦
      if is_image kind
      then free_image claimed node (im ∷ ims)
      else some (record { node_id = node.id; image_id = none })
]

pub first_target : Kind → List String → List Node → Option Target
first_target kind claimed [] = none
first_target kind claimed (n ∷ ns) = elim (candidate_target kind claimed n) [
  | none ↦ first_target kind claimed ns
  | some t ↦ some t
]

abbrev pub cons_some {ℓ} : {A : Type ℓ} → Option A → List A → List A
cons_some none xs = xs
cons_some (some x) xs = x ∷ xs

-- The nodes that the connections out of a node lead to, in the order of the connections.
pub downstream : Graph → String → List Connection → List Node
downstream g source [] = []
downstream g source (c ∷ cs) =
    if c.from_node_id == source
    then cons_some (find_by (λ (n : Node). n.id) c.to_node_id g.nodes) (downstream g source cs)
    else downstream g source cs

pub candidates : Graph → String → List Node
candidates g source =
    cons_some (find_by (λ (n : Node). n.id) source g.nodes) (downstream g source g.connections)

pub find_recovery_target : Graph → String → Kind → List String → Option Target
find_recovery_target g source kind claimed =
    first_target kind claimed (keep (waits_for kind) (candidates g source))

-- The body of the loop over the snapshots: no target where the source is missing.
pub target_of : Graph → List String → Kind → Snapshot → Option Target
target_of g claimed kind snapshot =
    let source = text_or snapshot.client_node_id "" in
    if is_empty source then none else find_recovery_target g source kind claimed

abbrev pub bind : Kind → Snapshot → Target → Binding
bind kind snapshot target = record {
  entry = record {
    task_id = snapshot.id;
    kind = kind;
    source_node_id = text_or snapshot.client_node_id "";
    target_node_id = target.node_id;
    image_id = target.image_id;
  };
  snapshot = snapshot;
}

abbrev pub claim_target : Option Target → List String → List String
claim_target none claimed = claimed
claim_target (some t) claimed = claim t.node_id t.image_id claimed

abbrev pub bound : Kind → Snapshot → Option Target → Option Binding
bound kind snapshot none = none
bound kind snapshot (some target) = some (bind kind snapshot target)

pub bind_tasks : Graph → List String → List (Kind × Snapshot) → List Binding
bind_tasks g claimed [] = []
bind_tasks g claimed ((kind, snapshot) ∷ tasks) =
    let target = target_of g claimed kind snapshot in
    cons_some (bound kind snapshot target) (bind_tasks g (claim_target target claimed) tasks)

pub build_bindings : Graph → List Snapshot → List MediaTask → List Record → List Binding
build_bindings g jobs media claimed = bind_tasks g (claimed_images claimed) (
    sort_tasks
      (map (λ job. (image, job)) jobs ++ map (λ (t : MediaTask). (t.kind, t.snapshot)) media))
