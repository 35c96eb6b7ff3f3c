-- ===== src/Tests/Blocking.antt =====
-- A blocked project, and a document without passing addresses, at concrete inputs.
use canvas_standalone.Prelude.{true, false, none, some, [], ◌∷◌, ◌≡◌, refl, put, write}
use canvas_standalone.Projects.{Project}
use canvas_standalone.Projects.Document.{draft_project, project_document}
use canvas_standalone.Projects.Document.Durable.{is_clean, project_document-is_clean}
use canvas_standalone.Projects.State.{State, Failure, edit, project_of, is_conflict}
use canvas_standalone.Projects.Saving.{Flight, waiting, fail_flight}
use canvas_standalone.Projects.Creation.{new_sync}
use canvas_standalone.Projects.Commands.{
  set_title, timer_fired, flush_project, retry_project, ignored,
}
use canvas_standalone.Projects.Blocked.{edit-blocked, fail_flight-is_conflict}
use canvas_standalone.Tests.Data.{project, empty_store, saving_sync}

abbrev blocked_store : State
blocked_store = record empty_store {
  projects = project ∷ [];
  syncs = put empty_store.syncs "p" (some 0);
  objects = write empty_store.objects 0 (record new_sync { version = 2; blocked = true });
  next_object = 1;
}

abbrev retitle : Project → Project
retitle = set_title "Other" "later"

edit-blocked_example :
    (let t = edit "p" retitle false 7 blocked_store in
      (t.drafts "p"
        ≡ some (record {
          base_version = 2;
          project = draft_project [] (retitle project);
          saved_at = 7;
        }))
      × (t.statuses "p" ≡ none)
      × (project_of "p" t ≡ some (retitle project))
      × ((timer_fired "p" 0 t).1 ≡ none)
      × ((flush_project "p" t).1 ≡ none))
edit-blocked_example =
    edit-blocked "p" 0 project retitle false 7 blocked_store refl refl refl (λ q. refl)

abbrev saving_store : State
saving_store = record blocked_store { objects = write empty_store.objects 0 saving_sync }

abbrev refused : Flight
refused = record { id = "p"; object = 0; stage = waiting }

abbrev version_conflict : Failure
version_conflict = record {
  message = none;
  status = none;
  response_status = some 409;
  code = none;
  reason = none;
  response_reason = none;
}

fail_flight-is_conflict_example :
    (let x = fail_flight refused version_conflict saving_store in
      (x.1 ≡ none)
      × ((x.0.objects 0).blocked ≡ true)
      × ((x.0.objects 0).saving ≡ false)
      × (x.0.drafts ≡ saving_store.drafts)
      × (x.0.projects ≡ saving_store.projects)
      × (retry_project "p" x.0 ≡ ignored))
unfolding is_conflict
fail_flight-is_conflict_example =
    fail_flight-is_conflict refused version_conflict saving_store refl refl

project_document-is_clean_example :
    (is_clean (project_document [] project) ≡ true) × (is_clean (draft_project [] project) ≡ true)
project_document-is_clean_example = project_document-is_clean [] project
