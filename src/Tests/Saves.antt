-- ===== src/Tests/Saves.antt =====
-- The saves of projects at concrete inputs.
use canvas_standalone.Prelude.{
  ◌≤◌, true, false, none, some, [], ◌∷◌, ◌≡◌, ◌↔◌, refl, arith, put, write,
}
use canvas_standalone.Projects.{Project, saved, unset}
use canvas_standalone.Projects.Document.{project_document}
use canvas_standalone.Projects.State.{State, edit, project_of}
use canvas_standalone.Projects.Saving.{
  Flight, waiting, sent, clearing, Updated, persist, accepted, draft_removed, send,
}
use canvas_standalone.Projects.Creation.{create_optimistic, begin_creation, new_project}
use canvas_standalone.Projects.Commands.{
  flush_project, reload_answered, set_title, timer_fired, reset,
}
use canvas_standalone.Projects.State.{Failure}
use canvas_standalone.Projects.Deletion.{Deletion, delete_projects, deletion_failed}
use canvas_standalone.Projects.World.{
  World, run, creates, launch, timer, resume, done, command, launches, resumes, Reach, here, next,
  with_flight,
}
use canvas_standalone.Projects.World.Exclusive.{count}
use canvas_standalone.Projects.World.SingleSave.{
  IsExclusive, AnyReach, start_here, then_step, usual, resets, count-AnyReach,
}
use canvas_standalone.Projects.World.Advance.{sequence_of}
use canvas_standalone.Projects.World.NoLostUpdate.{IsTracked, accepted-saves}
use canvas_standalone.Projects.Races.{
  accepted-deletion_failed, accepted_after_reload, flush_while_clearing,
}
use canvas_standalone.Tests.Data.{project, blank_source, empty_store, saving_sync}

abbrev start : World
start = record { store = empty_store; flights = [] }

start-IsExclusive : IsExclusive start
start-IsExclusive = record {
  sound = record { allocated = λ id r e. cc; idle_above = λ r h. refl };
  counted = λ r. refl;
}

start-IsTracked : IsTracked start
start-IsTracked = record { exclusive = start-IsExclusive; current = tt }

-- A project is created, its timer fires, and the save is sent.
abbrev created_store : State
created_store = run (creates "p" blank_source (some "Plan") "Untitled" "now") empty_store

abbrev created_project : Project
created_project = new_project "p" blank_source (some "Plan") "Untitled" "now"

abbrev begun : World
begun = with_flight (launch (timer "p" 0) created_store) []

abbrev waiting_flight : Flight
waiting_flight = record { id = "p"; object = 0; stage = waiting }

abbrev sending : World
sending = with_flight (resume waiting done waiting_flight begun.store) []

history : Reach start sending
unfolding run launch timer_fired persist create_optimistic begin_creation new_project
history =
    next
      (next (next here (command (creates "p" blank_source (some "Plan") "Untitled" "now") refl))
        (launches (timer "p" 0) refl))
      (resumes [] [] waiting_flight done refl refl)

-- The history as above, and then a reset while the save is in flight.
abbrev reset_while_sending : World
reset_while_sending = record sending { store = reset sending.store }

any_history : AnyReach start reset_while_sending
unfolding run launch timer_fired persist create_optimistic begin_creation new_project
any_history =
    then_step
      (then_step
        (then_step
          (then_step start_here
            (usual (command (creates "p" blank_source (some "Plan") "Untitled" "now") refl)))
          (usual (launches (timer "p" 0) refl)))
        (usual (resumes [] [] waiting_flight done refl refl)))
      (resets refl)

count-AnyReach_example :
    (count 0 reset_while_sending.flights ≤ 1)
    × ((count 0 reset_while_sending.flights ≡ 1)
        ↔ ((reset_while_sending.store.objects 0).saving ≡ true))
count-AnyReach_example = count-AnyReach any_history start-IsExclusive 0

abbrev sent_flight : Flight
sent_flight = record {
  id = "p";
  object = 0;
  stage = sent 0 0 "Plan" (project_document [] created_project);
}

accepted-saves_example :
    (p : Project) × (project_of "p" sending.store ≡ some p)
    × (project_document [] p ≡ project_document [] created_project)
unfolding run launch timer_fired persist create_optimistic begin_creation resume send new_project
accepted-saves_example =
    accepted-saves [] [] sent_flight 0 0 "Plan" (project_document [] created_project) history
      start-IsTracked refl refl refl refl

abbrev updated : Updated
updated = record { version = 2; name = "Plan"; created_at = "a"; updated_at = "b" }

-- A project with a save in flight that has counted one edit.
abbrev owned : State
owned = record empty_store {
  projects = project ∷ [];
  syncs = put empty_store.syncs "p" (some 0);
  objects = write empty_store.objects 0 saving_sync;
  next_object = 1;
}

abbrev old_flight : Flight
old_flight = record { id = "p"; object = 0; stage = waiting }

abbrev change : Project → Project
change = set_title "Other" "later"

abbrev deletion : Deletion
deletion = record { project = project; object = some 0 }

abbrev refusal : Failure
refusal = record {
  status = some 500;
  response_status = none;
  code = none;
  reason = none;
  response_reason = none;
  message = none;
}

abbrev edited_again : State
edited_again =
    edit "p" change false 7 (deletion_failed deletion refusal (delete_projects ("p" ∷ []) owned).0)

accepted-deletion_failed_example :
    (edited_again.syncs "p" ≡ some 1)
    × ((edited_again.objects 1).blocked ≡ true)
    × ((accepted old_flight 1 updated edited_again).0.drafts "p" ≡ none)
    × ((accepted old_flight 1 updated edited_again).1
        ≡ some (record old_flight { stage = clearing }))
unfolding delete_projects
accepted-deletion_failed_example =
    accepted-deletion_failed old_flight updated change false 7 deletion refusal owned (omega arith)
      refl

accepted_after_reload_example :
    ((accepted old_flight 1 updated
          (edit "p" change false 7 (reload_answered "p" 0 3 owned).0)).0.drafts
        "p"
      ≡ none)
    × ((accepted old_flight 1 updated (edit "p" change false 7 (reload_answered "p" 0 3 owned).0)).1
        ≡ some (record old_flight { stage = clearing }))
accepted_after_reload_example = accepted_after_reload old_flight 3 updated change false 7 owned refl

flush_while_clearing_example :
    let t = draft_removed old_flight (flush_project "p" (edit "p" change false 7 owned)).0 in
    (t.1 ≡ none)
    × ((t.0.objects 0).timer ≡ unset)
    × ((t.0.objects 0).saving ≡ false)
    × ((t.0.objects 0).retry_after_save ≡ false)
    × (t.0.statuses "p" ≡ some (record { state = saved; message = none }))
    × (sequence_of t.0 0 ≡ 2)
flush_while_clearing_example =
    flush_while_clearing old_flight change false 7 owned refl refl refl refl
