-- ===== src/Recovery/Bindings/Targets.antt =====
-- The targets of the bindings of frontend/src/jobs/canvas-task-recovery.ts.
use canvas_standalone.Prelude.{
  String, Bool, true, false, ◌&&◌, Option, none, some, List, [], ◌∷◌, find, find_by, keep, any,
  is_empty, text_or, ◌==◌, All, ◌≡◌, refl, arith, eq_iff, eq_refl, Bool-cases, Option-cases, inl,
  inr,
}
use canvas_standalone.Canvas.{Node, Connection, Image, is_loading, images_of}
use canvas_standalone.Recovery.{Kind, Snapshot, MediaTask, Record, Binding, Graph, is_image}
use canvas_standalone.Recovery.Bindings.{
  claimed_images, waits_for, is_free, Target, free_image, candidate_target, first_target,
  downstream, candidates, find_recovery_target, target_of, bind, claim_target, bind_tasks,
  build_bindings, cons_some, bound,
}

-- A node occurs in a list: what holds of it holds of some node there.
abbrev Occurs : List Node → Node → Type 0
Occurs ns n = (p : Node → Bool) → p n ≡ true → any p ns ≡ true

abbrev node_id : Node → String
node_id n = n.id

find_by-any :
    (p : Node → Bool) (k : String) (ns : List Node) {n : Node}
    → find_by node_id k ns ≡ some n
    → p n ≡ true
    → any p ns ≡ true
find_by-any p k [] e h = cc
find_by-any p k (m ∷ ns) {n} e h = ground (arith, find_by-any p k ns {n = n})

cons_found-Occurs :
    (ns : List Node) (k : String) (xs : List Node)
    → All (Occurs ns) xs
    → All (Occurs ns) (cons_some (find_by node_id k ns) xs)
cons_found-Occurs ns k xs h = elim (Option-cases (find_by node_id k ns)) [
  | inl e ↦ rw e h
  | inr (n, e) ↦ rw e ((λ p. find_by-any p k ns e), h)
]

downstream-Occurs :
    (g : Graph) (source : String) (cs : List Connection)
    → All (Occurs g.nodes) (downstream g source cs)
unfolding downstream
downstream-Occurs g source [] = tt
downstream-Occurs g source (c ∷ cs) = elim (Bool-cases (c.from_node_id == source)) [
  | inl e ↦ rw e (cons_found-Occurs g.nodes c.to_node_id _ (downstream-Occurs g source cs))
  | inr e ↦ rw e (downstream-Occurs g source cs)
]

candidates-Occurs : (g : Graph) (source : String) → All (Occurs g.nodes) (candidates g source)
unfolding candidates
candidates-Occurs g source =
    cons_found-Occurs g.nodes source _ (downstream-Occurs g source g.connections)

keep-true {ℓ} :
    (P : Node → Type ℓ) (p : Node → Bool) (ns : List Node)
    → All P ns
    → All (λ n. P n × (p n ≡ true)) (keep p ns)
keep-true P p [] h = tt
keep-true P p (n ∷ ns) h = elim (Bool-cases (p n)) [
  | inl e ↦ rw e ((h.0, e), keep-true P p ns h.1)
  | inr e ↦ rw e (keep-true P p ns h.1)
]

-- The image named by a target is loading; a target with no image asks for nothing.
abbrev pub image_waits : Option String → Node → Bool
image_waits none n = true
image_waits (some i) n = any (λ im. (im.id == i) && is_loading im.status) (images_of n)

find_free-any :
    (claimed : List String) (n : Node) (ims : List Image) {im : Image}
    → find (is_free claimed n) ims ≡ some im
    → any (λ m. (m.id == im.id) && is_loading m.status) ims ≡ true
find_free-any claimed n [] e = cc
find_free-any claimed n (m ∷ ims) {im} e =
    ground (arith, eq_iff m.id im.id, eq_refl im.id, find_free-any claimed n ims {im = im})

abbrev Points : Node → Target → Type 0
Points n t = (t.node_id ≡ n.id) × (image_waits t.image_id n ≡ true)

free_image-Points :
    (claimed : List String) (n : Node) {t : Target}
    → free_image claimed n (images_of n) ≡ some t
    → Points n t
free_image-Points claimed n {t} e = elim (Option-cases (find (is_free claimed n) (images_of n))) [
  | inl none_free ↦ absurd (ground arith)
  | inr (im, f) ↦
      let same : t ≡ record { node_id = n.id; image_id = some im.id } = ground arith in
      rw same (refl, find_free-any claimed n (images_of n) f)
]

candidate_target-Points :
    (kind : Kind) (claimed : List String) (n : Node) {t : Target}
    → candidate_target kind claimed n ≡ some t
    → Points n t
unfolding candidate_target
candidate_target-Points kind claimed n {t} e = by_images (images_of n) refl
  where
    by_images : (ims : List Image) → images_of n ≡ ims → Points n t
    by_images [] f = ground arith
    by_images (im ∷ ims) f = elim (Bool-cases (is_image kind)) [
      | inl yes_image ↦ free_image-Points claimed n (ground arith)
      | inr other ↦ ground arith
    ]

first_target-Points {ℓ} :
    (P : Node → Type ℓ) (kind : Kind) (claimed : List String) (ns : List Node) {t : Target}
    → All P ns
    → first_target kind claimed ns ≡ some t
    → (n : Node) × P n × Points n t
unfolding first_target
first_target-Points P kind claimed [] h e = cc
first_target-Points P kind claimed (n ∷ ns) h e =
    elim (Option-cases (candidate_target kind claimed n)) [
      | inl f ↦ first_target-Points P kind claimed ns h.1 (rw (f, first_target) at e)
      | inr (u, f) ↦ (n, h.0, candidate_target-Points kind claimed n (ground arith))
    ]

-- Some node of the project has the target's identifier, is of the task's kind and is loading, and
-- so is the image that the target names, if it names one.
pub is_waiting : Graph → Kind → String → Option String → Bool
is_waiting g kind target image_id =
    any (λ n. (n.id == target) && (waits_for kind n && image_waits image_id n)) g.nodes

find_recovery_target-is_waiting :
    (g : Graph) (source : String) (kind : Kind) (claimed : List String) {t : Target}
    → find_recovery_target g source kind claimed ≡ some t
    → is_waiting g kind t.node_id t.image_id ≡ true
unfolding find_recovery_target is_waiting
find_recovery_target-is_waiting g source kind claimed {t} e =
    let (n, (occurs, waits), (same, points)) =
      first_target-Points _ kind claimed _
        (keep-true _ (waits_for kind) _ (candidates-Occurs g source)) e in
    occurs (λ m. (m.id == t.node_id) && (waits_for kind m && image_waits t.image_id m))
      (rw (same, eq_refl n.id, waits, points))

abbrev WaitsIn : Graph → Binding → Type 0
WaitsIn g b = is_waiting g b.kind b.target_node_id b.image_id ≡ true

target_of-WaitsIn :
    (g : Graph) (claimed : List String) (kind : Kind) (s : Snapshot) {t : Target}
    → target_of g claimed kind s ≡ some t
    → WaitsIn g (bind kind s t) × (is_empty (text_or s.client_node_id "") ≡ false)
unfolding target_of
target_of-WaitsIn g claimed kind s {t} e =
    elim (Bool-cases (is_empty (text_or s.client_node_id ""))) [
      | inl h ↦ absurd (ground arith)
      | inr h ↦ (find_recovery_target-is_waiting g _ kind claimed (rw h at e), h)
    ]

-- Each binding of a list points at a waiting node and has a source.
abbrev pub AllWaiting : Graph → List Binding → Type 0
AllWaiting g = All (λ b.
    (is_waiting g b.kind b.target_node_id b.image_id ≡ true) × (is_empty b.source_node_id ≡ false))

bind_tasks-waiting :
    (g : Graph) (claimed : List String) (tasks : List (Kind × Snapshot))
    → AllWaiting g (bind_tasks g claimed tasks)
unfolding bind_tasks
bind_tasks-waiting g claimed [] = tt
bind_tasks-waiting g claimed ((kind, s) ∷ tasks) =
    add (target_of g claimed kind s) _ (λ t e. target_of-WaitsIn g claimed kind s e)
      (bind_tasks-waiting g (claim_target (target_of g claimed kind s) claimed) tasks)
  where
    add :
        (o : Option Target) (bs : List Binding)
        → ((t : Target)
            → o ≡ some t
            → WaitsIn g (bind kind s t) × (is_empty (text_or s.client_node_id "") ≡ false))
        → AllWaiting g bs
        → AllWaiting g (cons_some (bound kind s o) bs)
    add none bs h r = r
    add (some t) bs h r = (h t refl, r)

-- Every binding has a source, and its target is a loading node of the task's kind; where it names
-- an image, that image of the node is loading.
pub build_bindings-waiting :
    (g : Graph) (jobs : List Snapshot) (media : List MediaTask) (known : List Record)
    → AllWaiting g (build_bindings g jobs media known)
unfolding build_bindings
build_bindings-waiting g jobs media known = bind_tasks-waiting g (claimed_images known) _
