-- ===== src/Projects/World/Forgetting.antt =====
-- The sync objects and the projects after `deleteProjects` of
-- frontend/src/adapters/use-canvas-store.ts.
use canvas_standalone.Prelude.{
  ℕ, String, false, not, some, List, [], ◌∷◌, ◌≡◌, refl, arith, Bool-cases, inl, inr, ◌∙◌, eq_iff,
  eq_refl, ◌==◌, keep, has, find_by,
}
use canvas_standalone.AssetRuntime.{Aliases}
use canvas_standalone.Projects.{Project}
use canvas_standalone.Projects.Document.{project_document}
use canvas_standalone.Projects.State.{State, project_key}
use canvas_standalone.Projects.Creation.{Created, merge_created}
use canvas_standalone.Projects.Deletion.{forget, forget_all}
use canvas_standalone.Projects.World.Advance.{sequence_of}

pub merge_created_document :
    (v : Created) (a : Aliases) (p : Project)
    → project_document a (merge_created v p) ≡ project_document a p
unfolding project_document
merge_created_document v a p = refl

pub forget_frame :
    (id : String) (s : State)
    → ((forget id s).aliases ≡ s.aliases) × ((forget id s).next_object ≡ s.next_object)
unfolding forget
forget_frame id s = ground arith

pub forget_sequence :
    (id : String) (s : State) (r : ℕ) → sequence_of (forget id s) r ≡ sequence_of s r
unfolding forget
forget_sequence id s r = ground arith

pub forget_kept :
    (id : String) (s : State) (j : String) (r : ℕ)
    → (forget id s).syncs j ≡ some r
    → ((id == j) ≡ false) × (s.syncs j ≡ some r)
unfolding forget
forget_kept id s j r e = ground arith

pub forget_all_frame :
    (ids : List String) (s : State)
    → ((forget_all ids s).aliases ≡ s.aliases) × ((forget_all ids s).next_object ≡ s.next_object)
unfolding forget_all
forget_all_frame [] s = (refl, refl)
forget_all_frame (id ∷ ids) s =
    ground (arith, forget_frame id s, forget_all_frame ids (forget id s))

pub forget_all_sequence :
    (ids : List String) (s : State) (r : ℕ) → sequence_of (forget_all ids s) r ≡ sequence_of s r
unfolding forget_all
forget_all_sequence [] s r = refl
forget_all_sequence (id ∷ ids) s r =
    forget_all_sequence ids (forget id s) r ∙ forget_sequence id s r

pub forget_all_kept :
    (ids : List String) (s : State) (j : String) (r : ℕ)
    → (forget_all ids s).syncs j ≡ some r
    → (has j ids ≡ false) × (s.syncs j ≡ some r)
unfolding forget_all
forget_all_kept [] s j r e = (refl, e)
forget_all_kept (id ∷ ids) s j r e =
    let (rest, mid) = forget_all_kept ids (forget id s) j r e in
    let (here, start) = forget_kept id s j r mid in (rw (here, rest) refl, start)

pub find_by-keep :
    (ids : List String) (j : String) (ps : List Project)
    → has j ids ≡ false
    → find_by project_key j (keep (λ (p : Project). not (has p.id ids)) ps)
      ≡ find_by project_key j ps
find_by-keep ids j [] h = refl
find_by-keep ids j (p ∷ ps) h = elim (Bool-cases (p.id == j)) [
  | inl e ↦ rw ((eq_iff p.id j).0 e, h, eq_refl j) refl
  | inr e ↦ ground (arith, find_by-keep ids j ps h)
]
