-- ===== src/Tests/Stores.antt =====
-- The store over the server at concrete inputs.
use canvas_standalone.Prelude.{false, none, some, [], ◌∷◌, ◌≡◌, refl, has, is_some}
use canvas_standalone.Json.{null}
use canvas_standalone.ServerStore.{
  State, Project, entry, Document, Flight, saved, update_document, draft_removed, timer_fired,
}
use canvas_standalone.ServerStore.Order.{act, hydrates, updates, here, next, has-Reach}
use canvas_standalone.ServerStore.Races.{draft_removed-update_document}

abbrev document : Document
document = record { object = 0; content = null }

abbrev edited : Document
edited = record { object = 1; content = null }

abbrev server_project : Project
server_project = record { id = "p"; name = "Plan"; document = document; version = 3 }

abbrev empty_state : State
empty_state = record {
  projects = λ id. none;
  order = [];
  loaded = false;
  active_project = none;
  timers = λ id. none;
  persisting = λ id. false;
  retired = λ id. false;
  drafts = λ id. none;
}

abbrev listed : State
listed = act (hydrates (server_project ∷ []) (λ id. none)) empty_state

abbrev changed : State
changed = act (updates "p" edited) listed

has-Reach_example : has "p" changed.order ≡ is_some (changed.projects "p")
has-Reach_example =
    has-Reach "p"
      (next (updates "p" edited) (next (hydrates (server_project ∷ []) (λ id. none)) here)) refl

abbrev flight : Flight
flight = record { id = "p"; version = 2; name = "Plan"; draft = document }

draft_removed-update_document_example :
    (let t = draft_removed flight server_project (update_document "p" edited listed) in
      (t.projects "p" ≡ some (entry server_project saved none))
      × ((timer_fired "p" t).1 ≡ none)
      × ((timer_fired "p" t).0.projects "p" ≡ some (entry server_project saved none)))
draft_removed-update_document_example =
    draft_removed-update_document flight server_project edited listed refl
