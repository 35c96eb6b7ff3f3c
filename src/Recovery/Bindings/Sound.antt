-- ===== src/Recovery/Bindings/Sound.antt =====
-- The claims of the bindings of frontend/src/jobs/canvas-task-recovery.ts.
use canvas_standalone.Prelude.{
  String, false, Option, none, some, List, [], ◌∷◌, has, find, keep, is_empty, text_or, All, ◌≡◌,
  refl, arith, eq_iff, Bool-cases, Option-cases, find-true, inl, inr,
}
use canvas_standalone.Canvas.{Node, Image, images_of}
use canvas_standalone.Recovery.{Kind, Snapshot, MediaTask, Record, Binding, Graph}
use canvas_standalone.Recovery.Bindings.{
  claim_key, claim, claimed_images, waits_for, is_free, Target, free_image, candidate_target,
  first_target, candidates, find_recovery_target, target_of, claim_target, bind_tasks,
  build_bindings, bound, cons_some,
}

-- The image keys that the bindings claim, in their order.
abbrev pub claims : List Binding → List String
claims [] = []
claims (b ∷ bs) = claim b.target_node_id b.image_id (claims bs)

abbrev pub Unclaimed : List String → List String → Type 0
Unclaimed claimed = All (λ k. has k claimed ≡ false)

abbrev pub Distinct : List String → Type 0
Distinct [] = Unit
Distinct (k ∷ ks) = (has k ks ≡ false) × Distinct ks

-- A target's image was free when it was chosen.
abbrev IsFresh : List String → Option Target → Type 0
IsFresh claimed t = Unclaimed claimed (claim_target t [])

free_image-IsFresh :
    (claimed : List String) (n : Node) (ims : List Image)
    → IsFresh claimed (free_image claimed n ims)
free_image-IsFresh claimed n ims = elim (Option-cases (find (is_free claimed n) ims)) [
  | inl e ↦ rw (e, free_image) tt
  | inr (im, e) ↦ rw (e, free_image) (ground (arith, find-true (is_free claimed n) ims e))
]

candidate_target-IsFresh :
    (kind : Kind) (claimed : List String) (n : Node)
    → IsFresh claimed (candidate_target kind claimed n)
unfolding candidate_target
candidate_target-IsFresh kind claimed n = by_images (images_of n) refl
  where
    by_images :
        (ims : List Image) → images_of n ≡ ims → IsFresh claimed (candidate_target kind claimed n)
    by_images [] e = rw (e, candidate_target) tt
    by_images (im ∷ ims) e =
        rw (e, candidate_target) (ground (arith, free_image-IsFresh claimed n (im ∷ ims)))

first_target-IsFresh :
    (kind : Kind) (claimed : List String) (ns : List Node)
    → IsFresh claimed (first_target kind claimed ns)
unfolding first_target
first_target-IsFresh kind claimed [] = tt
first_target-IsFresh kind claimed (n ∷ ns) =
    ground (arith, candidate_target-IsFresh kind claimed n, first_target-IsFresh kind claimed ns)

target_of-IsFresh :
    (g : Graph) (claimed : List String) (kind : Kind) (s : Snapshot)
    → IsFresh claimed (target_of g claimed kind s)
unfolding target_of find_recovery_target
target_of-IsFresh g claimed kind s = ground (
  arith,
  first_target-IsFresh kind claimed
      (keep (waits_for kind) (candidates g (text_or s.client_node_id ""))),
)

-- What is not in a longer set is not in a shorter one, and differs from the rest of it.
Unclaimed-claim :
    (k : String) (claimed ks : List String)
    → Unclaimed (k ∷ claimed) ks
    → Unclaimed claimed ks × (has k ks ≡ false)
Unclaimed-claim k claimed [] h = (tt, refl)
Unclaimed-claim k claimed (j ∷ ks) h =
    ground (arith, eq_iff k j, eq_iff j k, Unclaimed-claim k claimed ks h.1)

claim_cases :
    (claimed : List String) (n : String) (i : Option String) (ks : List String)
    → Unclaimed claimed (claim n i [])
    → Unclaimed (claim n i claimed) ks × Distinct ks
    → Unclaimed claimed (claim n i ks) × Distinct (claim n i ks)
claim_cases claimed n none ks h d = d
claim_cases claimed n (some i) ks h d = elim (Bool-cases (is_empty i)) [
  | inl e ↦ ground arith
  | inr e ↦ ground (arith, Unclaimed-claim (claim_key n i) claimed ks)
]

bound-claims :
    (claimed : List String) (kind : Kind) (s : Snapshot) (t : Option Target) (bs : List Binding)
    → IsFresh claimed t
    → Unclaimed (claim_target t claimed) (claims bs) × Distinct (claims bs)
    → Unclaimed claimed (claims (cons_some (bound kind s t) bs))
      × Distinct (claims (cons_some (bound kind s t) bs))
bound-claims claimed kind s none bs h d = d
bound-claims claimed kind s (some t) bs h d =
    claim_cases claimed t.node_id t.image_id (claims bs) h d

bind_tasks-claims :
    (g : Graph) (claimed : List String) (tasks : List (Kind × Snapshot))
    → Unclaimed claimed (claims (bind_tasks g claimed tasks))
      × Distinct (claims (bind_tasks g claimed tasks))
unfolding bind_tasks
bind_tasks-claims g claimed [] = (tt, tt)
bind_tasks-claims g claimed ((kind, s) ∷ tasks) =
    let t = target_of g claimed kind s in
    bound-claims claimed kind s t _ (target_of-IsFresh g claimed kind s)
      (bind_tasks-claims g (claim_target t claimed) tasks)

-- No two of the bindings write to one image of one node, and none writes to an image that a
-- binding known before has claimed.
pub build_bindings-claims :
    (g : Graph) (jobs : List Snapshot) (media : List MediaTask) (known : List Record)
    → Unclaimed (claimed_images known) (claims (build_bindings g jobs media known))
      × Distinct (claims (build_bindings g jobs media known))
unfolding build_bindings
build_bindings-claims g jobs media known = bind_tasks-claims g (claimed_images known) _
