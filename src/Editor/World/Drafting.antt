-- ===== src/Editor/World/Drafting.antt =====
-- The drafts of frontend/src/editor/image-editor-controller.ts after loading, editing, selecting
-- and uploading.
use canvas_standalone.Prelude.{
  ℕ, String, Option, none, some, ◌≡◌, arith, get_or, inl, inr, ◌∙◌, find, ◌==◌, Bool-cases,
}
use canvas_standalone.Editor.{
  Draft, Answer, Controller, SaveOptions, Failure, set_state, allocate, Asset, Revision,
}
use canvas_standalone.Editor.Saves.{
  retry_save, begin_hydrate, hydrated, hydrate_failed, begin_reload, update_draft, select_revision,
  select, begin_upload, uploaded, upload_failed, clear_error, no_options, show_saving, show_draft,
  select_options, is_saving, show_hydrating, show_load_error, without_error, show_reloading,
  show_upload_error,
}
use canvas_standalone.Editor.World.Moves.{IsSound, Moves, Moves-trans, show-Moves, allocate-Moves}
use canvas_standalone.Editor.World.Storing.{
  Starts, Starts-after, nothing-Starts, idle-Moves, document-cases, save-Starts, placed-Starts,
}

pub retry_save-Starts : (c : Controller) → IsSound c → Starts c (retry_save c)
unfolding retry_save
retry_save-Starts c v = save-Starts (get_or c.retained no_options) c v

pub begin_hydrate-Moves : (c : Controller) → IsSound c → Moves c (begin_hydrate c)
begin_hydrate-Moves c v = show-Moves show_hydrating c v v.made (λ k. absurd (ground arith))

pub hydrated-Moves : (a : Answer) (c : Controller) → IsSound c → Moves c (hydrated a c)
unfolding hydrated
hydrated-Moves a c v = record {
  sound = record { made = λ r e. ground (arith, v.made r); honest = λ e. ground (arith, v.honest) };
  grows = ground arith;
  keeps = λ r h. ground arith;
  frozen = λ d. ground arith;
}

pub hydrate_failed-Moves :
    (e : Failure) (fallback : String) (c : Controller)
    → IsSound c
    → Moves c (hydrate_failed e fallback c)
hydrate_failed-Moves e fallback c v = show-Moves (show_load_error e fallback) c v v.made v.honest

pub clear_error-Moves : (c : Controller) → IsSound c → Moves c (clear_error c)
clear_error-Moves c v = show-Moves without_error c v v.made v.honest

pub begin_reload-Moves : (c : Controller) → IsSound c → Moves c (begin_reload c).0
unfolding begin_reload
begin_reload-Moves c v =
    document-cases (λ (x : Controller × Option String). Moves c x.0) _ _ c (idle-Moves c v)
      (λ d r q e. show-Moves show_reloading c v v.made v.honest)

pub begin_upload-Moves : (c : Controller) → IsSound c → Moves c (begin_upload c).0
unfolding begin_upload
begin_upload-Moves c v =
    document-cases (λ (x : Controller × Option String). Moves c x.0) _ _ c (idle-Moves c v)
      (λ d r q e. show-Moves show_saving c v v.made (λ k. absurd (ground arith)))

pub upload_failed-Moves : (e : Failure) (c : Controller) → IsSound c → Moves c (upload_failed e c)
unfolding upload_failed
upload_failed-Moves e c v = elim (Bool-cases (is_saving c.view.save_state)) [
  | inl q ↦ rw q (show-Moves (show_upload_error e) c v v.made (λ k. absurd (ground arith)))
  | inr q ↦ rw q (idle-Moves c v)
]

-- A new draft that is put in place and not yet saved.
shown-Moves :
    (d : Draft) (c : Controller)
    → IsSound c
    → Moves c (set_state (show_draft c.next_object) (allocate d c))
shown-Moves d c v =
    let m = allocate-Moves d c v in
    Moves-trans m (
      show-Moves (show_draft c.next_object) _ m.sound (λ r e. ground arith)
        (λ k. absurd (ground arith)))

updated-Moves :
    (r : ℕ) (o : Option Draft) (c : Controller)
    → IsSound c
    → c.view.draft ≡ some r
    → Moves c (elim o [
      | none ↦ set_state (show_draft r) c
      | some d ↦ set_state (show_draft c.next_object) (allocate d c)
    ])
updated-Moves r none c v e =
    show-Moves (show_draft r) c v (λ q k. v.made q (e ∙ k)) (λ k. absurd (ground arith))
updated-Moves r (some d) c v e = shown-Moves d c v

pub update_draft-Moves :
    (f : Draft → Option Draft) (c : Controller) → IsSound c → Moves c (update_draft f c)
unfolding update_draft
update_draft-Moves f c v =
    document-cases (Moves c) _ _ c (idle-Moves c v)
      (λ d r q e. updated-Moves r (f (c.objects r)) c v e)

selected-Starts :
    (o : Option Revision) (r : ℕ) (c : Controller)
    → IsSound c
    → Starts c (elim o [ none ↦ (c, none) | some revision ↦ select revision r c ])
selected-Starts none r c v = nothing-Starts (idle-Moves c v)
selected-Starts (some revision) r c v =
    let m = shown-Moves _ c v in Starts-after m (save-Starts (select_options revision) _ m.sound)

pub select_revision-Starts :
    (id : String) (c : Controller) → IsSound c → Starts c (select_revision id c)
unfolding select_revision
select_revision-Starts id c v =
    document-cases (Starts c) _ _ c (nothing-Starts (idle-Moves c v))
      (λ d r q e. selected-Starts (find (λ (x : Revision). x.id == id) d.revisions) r c v)

pub uploaded-Starts :
    (asset : Asset) (options : SaveOptions) (c : Controller)
    → IsSound c
    → Starts c (uploaded asset options c)
unfolding uploaded
uploaded-Starts asset options c v =
    document-cases (Starts c) _ _ c (nothing-Starts (idle-Moves c v))
      (λ d r q e. placed-Starts _ _ d r c v q)
