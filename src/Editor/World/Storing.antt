-- ===== src/Editor/World/Storing.antt =====
-- The drafts of frontend/src/editor/image-editor-controller.ts after its loads and saves.
use canvas_standalone.Prelude.{
  ℕ, ◌<◌, Option, none, some, ◌≡◌, refl, arith, inl, inr, ap, sym, Bool-cases, subst, Option-split,
}
use canvas_standalone.Editor.{
  Draft, Document, Answer, View, Controller, SaveOptions, Failure, set_state, allocate, received,
}
use canvas_standalone.Editor.Saves.{
  Saving, save, send, saved, save_failed, conflict_refreshed, require_document, show_saving,
  without_revision, show_save_error, place_draft, show_conflict, drops_revision, saving_of,
}
use canvas_standalone.Editor.World.Moves.{
  IsSound, IsPlaced, IsSound-IsPlaced, show_saving-Moves, place_draft-Grows, place_draft-IsPlaced,
  Grows-Moves, Moves, IsHeld, Moves-trans, same-Moves, show-Moves, allocate-Moves,
}

-- An operation that may start a save.
pub record Starts (c : Controller) (x : Controller × Option Saving) : Type 0 where
  pub moves : Moves c x.0
  pub held : (f : Saving) → x.1 ≡ some f → IsHeld x.0 f

pub Starts-after :
    {c d : Controller} {x : Controller × Option Saving} → Moves c d → Starts d x → Starts c x
Starts-after m g = record { moves = Moves-trans m g.moves; held = g.held }

pub nothing-Starts : {c d : Controller} → Moves c d → Starts c (d, none)
nothing-Starts m = record { moves = m; held = λ f e. absurd (ground arith) }

pub idle-Moves : (c : Controller) → IsSound c → Moves c c
idle-Moves c v = same-Moves v refl refl refl (λ d. d)

require_document-draft :
    (c : Controller) (d : Document) (r : ℕ)
    → require_document c ≡ some (d, r)
    → c.view.draft ≡ some r
require_document-draft c d r e = ground arith

-- The two ways of an operation that needs a document.
pub document-cases {ℓ κ} :
    {X : Type ℓ} (P : X → Type κ) (x : X) (k : Document × ℕ → X) (c : Controller)
    → P x
    → ((d : Document) (r : ℕ)
        → require_document c ≡ some (d, r)
        → c.view.draft ≡ some r
        → P (k (d, r)))
    → P (elim (require_document c) [ none ↦ x | some current ↦ k current ])
document-cases P x k c base loaded =
    Option-split P x k (require_document c) (λ e. base)
      (λ p e. loaded p.0 p.1 e (require_document-draft c p.0 p.1 e))

-- A new draft that is saved at once.
pub saved_at_once-Moves :
    (d : Draft) (c : Controller)
    → IsPlaced c
    → Moves c (set_state show_saving (set_state (place_draft c.next_object) (allocate d c)))
saved_at_once-Moves d c v = record {
  sound = record { made = λ r e. ground (arith, v.made r); honest = λ e. ground (arith, v.honest) };
  grows = ground arith;
  keeps = λ r h. ground arith;
  frozen = λ e. ground arith;
}

set_state-IsHeld :
    (g : View → View) (c : Controller) (f : Saving) → IsHeld c f → IsHeld (set_state g c) f
set_state-IsHeld g c f h = record { made = ground (arith, h.made); same = ground (arith, h.same) }

saving_of-IsHeld :
    (document : Document) (draft : ℕ) (options : SaveOptions) (c : Controller)
    → draft < c.next_object
    → (f : Saving) → some (saving_of document draft options c) ≡ some f
    → IsHeld c f
saving_of-IsHeld document draft options c h f e = record {
  made = ground (arith, h);
  same = ground arith;
}

pub send-Starts :
    (document : Document) (draft : ℕ) (options : SaveOptions) (c : Controller)
    → IsPlaced c
    → draft < c.next_object
    → Starts c (send document draft options c)
unfolding send
send-Starts document draft options c v h =
    elim (Bool-cases (drops_revision options (c.objects draft))) [
      | inl e ↦ rw e (record {
        moves = saved_at_once-Moves (without_revision (c.objects draft)) c v;
        held = λ f q. set_state-IsHeld show_saving _ f (
            set_state-IsHeld (place_draft c.next_object)
              (allocate (without_revision (c.objects draft)) c) f
              (saving_of-IsHeld document c.next_object options _ (omega arith) f q));
      })
      | inr e ↦ rw e (record {
        moves = show_saving-Moves c v;
        held = λ f q.
            set_state-IsHeld show_saving c f (saving_of-IsHeld document draft options c h f q);
      })
    ]

pub save-Starts : (options : SaveOptions) (c : Controller) → IsSound c → Starts c (save options c)
unfolding save
save-Starts options c v =
    document-cases (Starts c) (c, none) (λ d. send d.0 d.1 options c) c
      (nothing-Starts (idle-Moves c v))
      (λ d r q e. send-Starts d r options c (IsSound-IsPlaced v) (v.made r e))

placed-document :
    (d : Draft) (document : Document) (q : ℕ) (c : Controller)
    → require_document c ≡ some (document, q)
    → (r : ℕ) × (require_document (set_state (place_draft c.next_object) (allocate d c))
        ≡ some (document, r))
placed-document d document q c e = elim (Bool-cases c.destroyed) [
  | inl k ↦ (q, ground arith)
  | inr k ↦ (c.next_object, ground arith)
]

pub save-loaded :
    (options : SaveOptions) (document : Document) (r : ℕ) (c : Controller)
    → require_document c ≡ some (document, r)
    → save options c ≡ send document r options c
unfolding save
save-loaded options document r c e =
    ap
      (λ (o : Option (Document × ℕ)). elim o [
        | none ↦ (c, none)
        | some current ↦ send current.0 current.1 options c
      ])
      e

-- A new draft that replaces the one in the view, and the save of it.
pub placed-Starts :
    (d : Draft) (options : SaveOptions) (document : Document) (q : ℕ) (c : Controller)
    → IsSound c
    → require_document c ≡ some (document, q)
    → Starts c (save options (set_state (place_draft c.next_object) (allocate d c)))
placed-Starts d options document q c v e =
    let next = set_state (place_draft c.next_object) (allocate d c) in
    let p = place_draft-IsPlaced d c v in
    let (r, f) = placed-document d document q c e in
    let g =
      send-Starts document r options next p (p.made r (require_document-draft next document r f)) in
    subst (Starts c) (sym (save-loaded options document r next f))
      (record { moves = Grows-Moves (place_draft-Grows d c) g.moves; held = g.held })

pub saved-Moves : (f : Saving) (a : Answer) (c : Controller) → IsSound c → Moves c (saved f a c)
unfolding saved
saved-Moves f a c v = record {
  sound = record { made = λ r e. ground (arith, v.made r); honest = λ e. ground (arith, v.honest) };
  grows = ground arith;
  keeps = λ r h. ground arith;
  frozen = λ d. ground arith;
}

pub save_failed-Moves :
    (f : Saving) (e : Failure) (c : Controller)
    → IsSound c
    → f.draft < c.next_object
    → Moves c (save_failed f e c)
unfolding save_failed
save_failed-Moves f e c v h = Moves-trans (same-Moves v refl refl refl (λ d. d)) (
    show-Moves (show_save_error f e) (record c { retained = some f.options })
      (record { made = v.made; honest = v.honest }) (λ r. ground (arith, v.made r))
      (λ k. ground arith))

pub conflict_refreshed-Moves :
    (f : Saving) (e : Failure) (before : Option Document) (a : Option Answer) (c : Controller)
    → IsSound c
    → f.draft < c.next_object
    → Moves c (conflict_refreshed f e before a c)
unfolding conflict_refreshed
conflict_refreshed-Moves f e before none c v h =
    show-Moves (show_conflict f e before) c v (λ r. ground (arith, v.made r)) (λ k. ground arith)
conflict_refreshed-Moves f e before (some a) c v h =
    let m = allocate-Moves a.document c v in
    Moves-trans m (
      show-Moves (show_conflict f e (some (received a c))) (allocate a.document c) m.sound
        (λ r. ground (arith, v.made r)) (λ k. ground arith))
