-- ===== src/Tests/Editing.antt =====
-- One image editor at concrete inputs: a document is loaded and saved, a job is run.
use canvas_standalone.Prelude.{
  true, false, none, some, [], ◌∷◌, ◌≡◌, ◌⊎◌, refl, arith, if◌then◌else◌, length, is_some, All,
}
use canvas_standalone.Json.{null, no_field}
use canvas_standalone.Recovery.{completed}
use canvas_standalone.Editor.{
  Draft, Answer, Controller, Failure, Job, load_idle, save_idle, job_idle, job_canceled, mask_edit,
}
use canvas_standalone.Editor.Saves.{
  Saving, no_options, saved, save, send, hydrated, conflicted, conflict_refreshed, retry_save,
  drops_revision, without_revision,
}
use canvas_standalone.Editor.Jobs.{
  Run, Completion, begin_job, not_hydrated, cancel_answered, result_saved, is_current,
}
use canvas_standalone.Editor.World.{
  World, Flight, answer, run, launch, hydrates, saves, command, launches, resumes, begins, answered,
  resume, Reach, here, next,
}
use canvas_standalone.Editor.World.Moves.{loaded_draft}
use canvas_standalone.Editor.World.Drafts.{
  IsTracked, saved-draft, Reach-shows_saved, Reach-destroyed,
}
use canvas_standalone.Editor.World.OneJob.{length-Reach}
use canvas_standalone.Editor.Conflicts.{retry_save-conflict_refreshed, cancel_answered-begin_job}

abbrev page : Draft
page = record {
  viewport = null;
  width = 640;
  height = 480;
  background = "white";
  selected_revision_id = some "r1";
}

abbrev blank : Controller
blank = record {
  view = record {
    load_state = load_idle;
    save_state = save_idle;
    job_state = job_idle;
    document = none;
    draft = none;
    job = none;
    error = none;
  };
  destroyed = false;
  job_aborter = none;
  next_aborter = 0;
  aborted = λ r. false;
  explicit_cancellation = false;
  retained = none;
  objects = λ r. page;
  next_object = 0;
}

abbrev loaded : Answer
loaded = record { id = "d"; document = page; version = 1; revisions = []; carried = no_field }

abbrev start : World
start = record { store = blank; saves = []; runs = [] }

start-IsTracked : IsTracked start
start-IsTracked = record {
  sound = record { made = λ r e. absurd (ground arith); honest = λ e. refl };
  held = tt;
}

abbrev first_save : Saving
first_save = record { id = "d"; version = 1; draft = 0; sent = page; options = no_options }

abbrev first_flight : Flight
first_flight = record { saving = first_save; wait = answer }

abbrev ready : Controller
ready = run (hydrates loaded) blank

abbrev sending : World
sending = record {
  store = (launch (saves no_options) ready).0;
  saves = first_flight ∷ [];
  runs = [];
}

history : Reach start sending
unfolding run launch hydrated save send
history = next (next here (command (hydrates loaded) refl)) (launches (saves no_options) refl)

saved-draft_example :
    ((saved first_save loaded sending.store).view.draft ≡ sending.store.view.draft)
    ⊎ ((sending.store.view.draft ≡ some 0) × (sending.store.objects 0 ≡ page))
saved-draft_example = saved-draft [] [] first_flight loaded history start-IsTracked refl

abbrev saved_world : World
saved_world = record {
  store = (resume answer (answered loaded) first_save sending.store).0;
  saves = [];
  runs = [];
}

Reach-shows_saved_example :
    saved_world.store.view.draft ≡ loaded_draft saved_world.store.view.document
unfolding run launch hydrated save send resume saved
Reach-shows_saved_example =
    Reach-shows_saved (next history (resumes [] [] first_flight (answered loaded) refl refl))
      start-IsTracked refl

abbrev closed : World
closed = record { store = record blank { destroyed = true }; saves = []; runs = [] }

closed-IsTracked : IsTracked closed
closed-IsTracked = record {
  sound = record { made = λ r e. absurd (ground arith); honest = λ e. refl };
  held = tt;
}

destroyed_for_good : (run (hydrates loaded) closed.store).view ≡ closed.store.view
destroyed_for_good =
    Reach-destroyed {w = closed} (next here (command (hydrates loaded) refl)) closed-IsTracked refl

abbrev mask_job : Completion
mask_job = record {
  operation = mask_edit;
  parameters = none;
  asset_references = none;
  canvas = none;
}

abbrev first_run : Run
first_run = record { aborter = 0; completion = mask_job }

abbrev editing : World
editing = record { store = (begin_job mask_job blank).0; saves = []; runs = first_run ∷ [] }

length-Reach_example :
    (length editing.runs ≡ (if is_some editing.store.job_aborter then 1 else 0))
    × All (λ (r : Run). is_current editing.store.job_aborter r.aborter ≡ true) editing.runs
unfolding begin_job
length-Reach_example =
    length-Reach {w = start} {w' = editing} (next here (begins mask_job refl)) refl refl refl

abbrev conflict_answer : Failure
conflict_answer = record not_hydrated { status = some 409 }

abbrev newer : Answer
newer = record loaded { version = 4 }

retried_after_conflict :
    (let x = conflicted first_save sending.store in
      let y = retry_save (conflict_refreshed first_save conflict_answer x.1 (some newer) x.0) in
      (g : Saving) × (y.1 ≡ some g)
      × (g.id ≡ "d")
      × (g.version ≡ 4)
      × (g.options ≡ no_options)
      × (g.sent ≡ (
          if drops_revision no_options (sending.store.objects 0)
          then without_revision (sending.store.objects 0)
          else sending.store.objects 0)))
unfolding run launch hydrated save send
retried_after_conflict =
    retry_save-conflict_refreshed first_save conflict_answer newer 0 sending.store refl refl
      (omega arith)

abbrev job : Job
job = record { id = "j"; status = completed; results = []; error = none }

cancel_answered-begin_job_example :
    (let x = begin_job mask_job (result_saved first_run job editing.store) in
      let y = cancel_answered job x.0 in
      (x.1 ≡ some (record { aborter = 1; completion = mask_job }))
      × (y.aborted 1 ≡ true)
      × (y.view.job_state ≡ job_canceled)
      × (y.view.job ≡ some job))
unfolding begin_job
cancel_answered-begin_job_example =
    cancel_answered-begin_job first_run job job mask_job editing.store refl refl
