-- ===== src/Editor/World/Moves.antt =====
-- What one operation of frontend/src/editor/image-editor-controller.ts does to the drafts and to a
-- destroyed editor.
use canvas_standalone.Prelude.{
  ℕ, ◌≤◌, ◌<◌, Bool, true, false, Option, none, some, ◌≡◌, refl, arith, ◌∙◌, ap, sym,
}
use canvas_standalone.Editor.{
  Draft, Document, SaveState, save_saved, View, Controller, set_state, allocate,
}
use canvas_standalone.Editor.Saves.{Saving, place_draft, show_saving}

abbrev pub shows_saved : SaveState → Bool
shows_saved save_saved = true
shows_saved _ = false

abbrev pub loaded_draft : Option Document → Option ℕ
loaded_draft none = none
loaded_draft (some d) = some d.document

-- The draft is one that was made, and an editor that shows it as saved has the server's draft.
pub record IsSound (c : Controller) : Type 0 where
  pub made : (r : ℕ) → c.view.draft ≡ some r → r < c.next_object
  pub honest : shows_saved c.view.save_state ≡ true → c.view.draft ≡ loaded_draft c.view.document

-- Drafts that were made stay as they are, and a destroyed editor shows what it showed.
pub record Moves (c c' : Controller) : Type 0 where
  pub sound : IsSound c'
  pub grows : c.next_object ≤ c'.next_object
  pub keeps : (r : ℕ) → r < c.next_object → c'.objects r ≡ c.objects r
  pub frozen : c.destroyed ≡ true → (c'.destroyed ≡ true) × (c'.view ≡ c.view)

-- A save in flight holds the draft that it sent.
pub record IsHeld (c : Controller) (f : Saving) : Type 0 where
  pub made : f.draft < c.next_object
  pub same : c.objects f.draft ≡ f.sent

pub Moves-IsHeld : {c c' : Controller} (f : Saving) → Moves c c' → IsHeld c f → IsHeld c' f
Moves-IsHeld f m h = record {
  made = omega (arith, m.grows, h.made);
  same = ground (arith, m.keeps f.draft h.made, h.same);
}

-- The same without the soundness of what comes out.
pub record Grows (c c' : Controller) : Type 0 where
  pub grows : c.next_object ≤ c'.next_object
  pub keeps : (r : ℕ) → r < c.next_object → c'.objects r ≡ c.objects r
  pub frozen : c.destroyed ≡ true → (c'.destroyed ≡ true) × (c'.view ≡ c.view)

pub Grows-Moves : {c d e : Controller} → Grows c d → Moves d e → Moves c e
Grows-Moves f g = record {
  sound = g.sound;
  grows = omega (arith, f.grows, g.grows);
  keeps = λ r h. g.keeps r (omega (arith, h, f.grows)) ∙ f.keeps r h;
  frozen = λ d. let a = f.frozen d in let b = g.frozen a.0 in (b.0, b.1 ∙ a.1);
}

pub Moves-Grows : {c d : Controller} → Moves c d → Grows c d
Moves-Grows m = record { grows = m.grows; keeps = m.keeps; frozen = m.frozen }

pub Moves-trans : {c d e : Controller} → Moves c d → Moves d e → Moves c e
Moves-trans f g = Grows-Moves (Moves-Grows f) g

-- A new draft is in place whose save is about to begin.
pub record IsPlaced (c : Controller) : Type 0 where
  pub made : (r : ℕ) → c.view.draft ≡ some r → r < c.next_object
  pub honest :
      c.destroyed ≡ true
      → shows_saved c.view.save_state ≡ true
      → c.view.draft ≡ loaded_draft c.view.document

pub IsSound-IsPlaced : {c : Controller} → IsSound c → IsPlaced c
IsSound-IsPlaced v = record { made = v.made; honest = λ d. v.honest }

-- The other variables of the editor do not matter.
pub same-Moves :
    {c c' : Controller}
    → IsSound c
    → c'.view ≡ c.view
    → c'.objects ≡ c.objects
    → c'.next_object ≡ c.next_object
    → (c.destroyed ≡ true → c'.destroyed ≡ true)
    → Moves c c'
same-Moves {c} {c'} v view objects number d = record {
  sound = record {
    made = λ r e. rw number (v.made r (ap (λ (x : View). x.draft) (sym view) ∙ e));
    honest = rw view v.honest;
  };
  grows = rw number (omega arith);
  keeps = λ r h. rw objects refl;
  frozen = λ e. (d e, view);
}

pub show-Moves :
    (f : View → View) (c : Controller)
    → IsSound c
    → ((r : ℕ) → (f c.view).draft ≡ some r → r < c.next_object)
    → (shows_saved (f c.view).save_state ≡ true
        → (f c.view).draft ≡ loaded_draft (f c.view).document)
    → Moves c (set_state f c)
show-Moves f c v made honest = record {
  sound = record {
    made = λ r. ground (arith, v.made r, made r);
    honest = ground (arith, v.honest, honest);
  };
  grows = ground arith;
  keeps = λ r h. ground arith;
  frozen = λ d. ground arith;
}

pub allocate-Moves : (d : Draft) (c : Controller) → IsSound c → Moves c (allocate d c)
allocate-Moves d c v = record {
  sound = record { made = λ r e. omega (arith, v.made r e); honest = v.honest };
  grows = omega arith;
  keeps = λ r h. ground arith;
  frozen = λ d. (d, refl);
}

-- A new draft, and its place in the view.
pub place_draft-Grows :
    (d : Draft) (c : Controller) → Grows c (set_state (place_draft c.next_object) (allocate d c))
place_draft-Grows d c = record {
  grows = ground arith;
  keeps = λ r h. ground arith;
  frozen = λ e. ground arith;
}

pub place_draft-IsPlaced :
    (d : Draft) (c : Controller)
    → IsSound c
    → IsPlaced (set_state (place_draft c.next_object) (allocate d c))
place_draft-IsPlaced d c v = record {
  made = λ r e. ground (arith, v.made r);
  honest = λ k e. ground (arith, v.honest);
}

-- The beginning of a save.
pub show_saving-Moves : (c : Controller) → IsPlaced c → Moves c (set_state show_saving c)
show_saving-Moves c v = record {
  sound = record { made = λ r. ground (arith, v.made r); honest = λ e. ground (arith, v.honest) };
  grows = ground arith;
  keeps = λ r h. ground arith;
  frozen = λ d. ground arith;
}
