-- ===== src/ServerStore/Races.antt =====
-- One order of events around a save of frontend/src/stores/server-canvas-store.ts.
use canvas_standalone.Prelude.{none, some, ◌≡◌, arith, eq_refl}
use canvas_standalone.ServerStore.{
  State, Project, entry, Document, Flight, saved, update_document, draft_removed, timer_fired,
  persist,
}

-- A save is answered, its draft is being removed, and the document is edited in between: then the edit
-- is overwritten by the document of the answer, and the timer that was started for it sends nothing.
pub draft_removed-update_document :
    (f : Flight) (p : Project) (d : Document) (s : State)
    → p.id ≡ f.id
    → (let t = draft_removed f p (update_document f.id d s) in
        (t.projects f.id ≡ some (entry p saved none))
        × ((timer_fired f.id t).1 ≡ none)
        × ((timer_fired f.id t).0.projects f.id ≡ some (entry p saved none)))
unfolding draft_removed timer_fired persist
draft_removed-update_document f p d s e = ground (arith, eq_refl f.id, e)
