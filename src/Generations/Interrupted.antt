-- ===== src/Generations/Interrupted.antt =====
-- frontend/src/adapters/canvas-generation-helpers.ts: resetInterruptedGeneration, which runs when a
-- page is opened. `message` is the translated text of an interrupted generation.
use mathlib.Core.List.Memᴰ
use canvas_standalone.Prelude.{
  sym, subst, inl, inr, ap, ◌∙◌, String, true, not, ◌||◌, ◌≡◌, none, some, List, [], ◌∷◌,
  if◌then◌else◌, Memᴰ, arith, get_or,
}
use canvas_standalone.Canvas.{
  Node, Metadata, Image, error, loading, metadata_of, node_is_loading, is_loading, images_of,
}
use canvas_standalone.Projects.State.{State}
use canvas_standalone.Projects.Recoveries.{is_recovery_active}

module _ (s : State) (message : String) where
  unfoldable pub reset_image : String → Image → Image
  reset_image node_id image =
      if not (is_loading image.status) || is_recovery_active node_id (some image.id) s
      then image
      else record image { status = error; error_details = some message }

  unfoldable pub reset_images : String → List Image → List Image
  unfolding reset_image
  reset_images node_id [] = []
  reset_images node_id (i ∷ is) = reset_image node_id i ∷ reset_images node_id is

  unfoldable pub reset_metadata : Node → Metadata → Metadata
  unfolding reset_images
  reset_metadata node m =
      let recovering = is_recovery_active node.id none s in
      record m {
        status = some (if recovering then loading else error);
        error_details = if recovering then none else some message;
        images = elim m.images [ none ↦ none | some is ↦ some (reset_images node.id is) ];
      }

  unfoldable pub reset_node : Node → Node
  unfolding reset_metadata
  reset_node node =
      if node_is_loading node
      then record node { metadata = some (reset_metadata node (metadata_of node)) }
      else node

  unfoldable pub reset_interrupted : List Node → List Node
  unfolding reset_node
  reset_interrupted [] = []
  reset_interrupted (n ∷ ns) = reset_node n ∷ reset_interrupted ns

  reset_image-active :
      (id : String) (x : Image)
      → is_loading (reset_image id x).status ≡ true
      → is_recovery_active id (some (reset_image id x).id) s ≡ true
  unfolding reset_image
  reset_image-active id x l = ground arith

  reset_images-active :
      (id : String) (is : List Image) (i : Image)
      → Memᴰ i (reset_images id is)
      → is_loading i.status ≡ true
      → is_recovery_active id (some i.id) s ≡ true
  unfolding reset_images
  reset_images-active id [] i m l = absurd (Memᴰ.not-nil m)
  reset_images-active id (x ∷ xs) i m l = elim (Memᴰ.cases_cons m) [
    | inl e ↦
        subst (λ (j : Image). is_recovery_active id (some j.id) s ≡ true) (sym e)
          (reset_image-active id x (subst (λ (j : Image). is_loading j.status ≡ true) e l))
    | inr rest ↦ reset_images-active id xs i rest l
  ]

  images-reset_metadata :
      (n : Node) (m : Metadata)
      → get_or (reset_metadata n m).images [] ≡ reset_images n.id (get_or m.images [])
  unfolding reset_metadata reset_images
  images-reset_metadata n m = ground arith

  id-reset_node : (n : Node) → (reset_node n).id ≡ n.id
  unfolding reset_node
  id-reset_node n = ground arith

  reset_node-active :
      (n : Node) → node_is_loading (reset_node n) ≡ true → is_recovery_active n.id none s ≡ true
  unfolding reset_node reset_metadata
  reset_node-active n w = ground arith

  images-reset_node :
      (n : Node)
      → node_is_loading (reset_node n) ≡ true
      → images_of (reset_node n) ≡ reset_images n.id (images_of n)
  unfolding reset_node
  images-reset_node n w = ground (arith, images-reset_metadata n (metadata_of n))

  -- Where a node of the opened page is loading, a recovery of the page claims it, and one claims each
  -- of its images that is loading.
  pub reset_interrupted-active :
      (ns : List Node) (n : Node) (i : Image)
      → Memᴰ n (reset_interrupted ns)
      → node_is_loading n ≡ true
      → Memᴰ i (images_of n)
      → is_loading i.status ≡ true
      → (is_recovery_active n.id none s ≡ true) × (is_recovery_active n.id (some i.id) s ≡ true)
  unfolding reset_interrupted
  reset_interrupted-active [] n i m w k l = absurd (Memᴰ.not-nil m)
  reset_interrupted-active (x ∷ xs) n i m w k l = elim (Memᴰ.cases_cons m) [
    | inr rest ↦ reset_interrupted-active xs n i rest w k l
    | inl e ↦
        let w' = subst (λ (y : Node). node_is_loading y ≡ true) e w in
        let k' = subst (λ (y : Node). Memᴰ i (images_of y)) e k in
        let id = ap (λ (y : Node). y.id) e ∙ id-reset_node x in
        (
          rw id (reset_node-active x w'),
          rw id (
              reset_images-active x.id (images_of x) i (subst (Memᴰ i) (images-reset_node x w') k')
                l),
        )
  ]
