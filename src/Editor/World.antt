-- ===== src/Editor/World.antt =====
-- The editor with its saves and jobs in flight, and everything that can happen to them. What the
-- other awaits give (loads, uploads, cancellations) may come at any time and be anything.
pub mod Moves
pub mod OneJob
pub mod Drafts
pub mod Running
pub mod Drafting
pub mod Storing
use canvas_standalone.Prelude.{
  ℕ, String, Bool, true, false, Option, none, some, List, [], ◌∷◌, ◌++◌, ◌≡◌,
}
use canvas_standalone.Editor.{Draft, Asset, Answer, Document, Controller, SaveOptions, Failure, Job}
use canvas_standalone.Editor.Saves.{
  Saving, save, saved, save_failed, conflicted, conflict_refreshed, retry_save, begin_hydrate,
  hydrated, hydrate_failed, begin_reload, update_draft, select_revision, begin_upload, uploaded,
  upload_failed, clear_error,
}
use canvas_standalone.Editor.Jobs.{
  Completion, Run, begin_job, job_updated, job_threw, job_ended, result_saved, Cancel, not_running,
  asks, at_once, cancel_job, cancel_answered, cancel_failed, destroy,
}

-- A save waits for its own answer, or for the server's copy after a conflict.
pub data Wait : Type 0 where
  answer : Wait
  copy : Failure → Option Document → Wait

pub record Flight : Type 0 where
  pub saving : Saving
  pub wait : Wait

pub record World : Type 0 where
  pub store : Controller
  pub saves : List Flight
  pub runs : List Run

-- What starts neither a save nor a job.
pub data Command : Type 0 where
  hydrate_begins : Command
  hydrates : Answer → Command
  hydrate_fails : Failure → String → Command
  reload_begins : Command
  updates : (Draft → Option Draft) → Command
  upload_begins : Command
  upload_fails : Failure → Command
  clears : Command
  job_updates : Job → Command
  cancels : Command
  cancel_answers : Job → Command
  cancel_fails : Failure → Command
  destroys : Command

abbrev pub after_cancel : Controller → Cancel → Controller
after_cancel c not_running = c
after_cancel c (asks id next) = next
after_cancel c (at_once next) = next

unfoldable pub run : Command → Controller → Controller
run hydrate_begins c = begin_hydrate c
run (hydrates a) c = hydrated a c
run (hydrate_fails e fallback) c = hydrate_failed e fallback c
run reload_begins c = (begin_reload c).0
run (updates f) c = update_draft f c
run upload_begins c = (begin_upload c).0
run (upload_fails e) c = upload_failed e c
run clears c = clear_error c
run (job_updates job) c = job_updated job c
run cancels c = after_cancel c (cancel_job c)
run (cancel_answers job) c = cancel_answered job c
run (cancel_fails e) c = cancel_failed e c
run destroys c = destroy c

-- What can start a save.
pub data Launch : Type 0 where
  saves : SaveOptions → Launch
  retries : Launch
  selects : String → Launch
  uploads : Asset → SaveOptions → Launch

unfoldable pub launch : Launch → Controller → Controller × Option Saving
launch (saves options) c = save options c
launch retries c = retry_save c
launch (selects id) c = select_revision id c
launch (uploads asset options) c = uploaded asset options c

-- What a wait of a save gives.
pub data Reply : Type 0 where
  answered : Answer → Reply
  failed : Failure → Reply
  conflicts : Failure → Reply
  refreshed : Option Answer → Reply

abbrev pub asks_copy : Saving → Failure → Controller × Option Document → Controller × Option Flight
asks_copy f e (c, latest) = (c, some (record { saving = f; wait = copy e latest }))

unfoldable pub resume : Wait → Reply → Saving → Controller → Controller × Option Flight
resume answer (answered a) f c = (saved f a c, none)
resume answer (failed e) f c = (save_failed f e c, none)
resume answer (conflicts e) f c = asks_copy f e (conflicted f c)
resume (copy e latest) (refreshed a) f c = (conflict_refreshed f e latest a c, none)
resume wait reply f c = (c, some (record { saving = f; wait = wait }))

abbrev pub with_saving : Option Saving → List Flight → List Flight
with_saving none fs = fs
with_saving (some f) fs = record { saving = f; wait = answer } ∷ fs

abbrev pub with_flight : Option Flight → List Flight → List Flight
with_flight none fs = fs
with_flight (some f) fs = f ∷ fs

abbrev pub with_run : Option Run → List Run → List Run
with_run none rs = rs
with_run (some r) rs = r ∷ rs

-- A run whose result is saved goes on until the save is over.
abbrev pub still_runs : Option Saving → Run → List Run → List Run
still_runs none r rs = rs
still_runs (some f) r rs = r ∷ rs

pub data Step (w w' : World) : Type 0 where
  command : (c : Command) → w' ≡ record w { store = run c w.store } → Step w w'
  launches :
      (l : Launch)
      → w' ≡ record w {
        store = (launch l w.store).0;
        saves = with_saving (launch l w.store).1 w.saves;
      }
      → Step w w'
  resumes :
      (before after : List Flight) (f : Flight) (reply : Reply)
      → w.saves ≡ before ++ f ∷ after
      → w' ≡ record w {
        store = (resume f.wait reply f.saving w.store).0;
        saves = with_flight (resume f.wait reply f.saving w.store).1 (before ++ after);
      }
      → Step w w'
  begins :
      (completion : Completion)
      → w' ≡ record w {
        store = (begin_job completion w.store).0;
        runs = with_run (begin_job completion w.store).1 w.runs;
      }
      → Step w w'
  ends :
      (before after : List Run) (r : Run) (job : Job)
      → w.runs ≡ before ++ r ∷ after
      → w' ≡ record w {
        store = (job_ended r job w.store).0;
        saves = with_saving (job_ended r job w.store).1 w.saves;
        runs = still_runs (job_ended r job w.store).1 r (before ++ after);
      }
      → Step w w'
  throws :
      (before after : List Run) (r : Run) (e : Failure)
      → w.runs ≡ before ++ r ∷ after
      → w' ≡ record w { store = job_threw r e w.store; runs = before ++ after }
      → Step w w'
  results :
      (before after : List Run) (r : Run) (job : Job)
      → w.runs ≡ before ++ r ∷ after
      → w' ≡ record w { store = result_saved r job w.store; runs = before ++ after }
      → Step w w'

pub data Reach (w : World) : World → Type 0 where
  here : Reach w w
  next : {u v : World} → Reach w u → Step u v → Reach w v
