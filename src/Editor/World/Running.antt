-- ===== src/Editor/World/Running.antt =====
-- The drafts of frontend/src/editor/image-editor-controller.ts after the operations on its jobs.
use canvas_standalone.Prelude.{
  ℕ, suc, String, Bool, true, false, not, ◌||◌, Option, none, some, ◌≡◌, refl, arith, subst,
  Option-split, if◌then◌else◌, is_empty,
}
use mathlib.Core.Option.{some-injective}
use canvas_standalone.Recovery.Results.{is_successful}
use canvas_standalone.Editor.{View, Controller, SaveOptions, Failure, set_state, Job, JobResult}
use canvas_standalone.Editor.Saves.{Saving, save}
use canvas_standalone.Editor.Jobs.{
  Completion, Run, begin_job, job_updated, job_threw, job_ended, result_saved, asks, at_once,
  cancel_job, cancel_answered, cancel_failed, destroy, end_run, Finish, returned, saves, throws,
  finish_with, finish_job, store_result, resized, after_finish, is_canceled, usable_result,
  job_options, show_running, show_snapshot, show_canceled, show_job, show_cancel_error, abort,
  job_id, after_save_error, show_job_error, is_conflict, is_save_error, not_hydrated,
}
use canvas_standalone.Editor.World.{after_cancel}
use canvas_standalone.Editor.World.Moves.{
  IsSound, Moves, IsHeld, Moves-trans, same-Moves, show-Moves,
}
use canvas_standalone.Editor.World.Storing.{
  Starts, nothing-Starts, idle-Moves, document-cases, save-Starts, placed-Starts,
}

-- Most writes to the view leave the draft, the document and the state of the saves alone.
aside-Moves :
    (f : View → View) (c : Controller)
    → IsSound c
    → (f c.view).draft ≡ c.view.draft
    → (f c.view).document ≡ c.view.document
    → (f c.view).save_state ≡ c.view.save_state
    → Moves c (set_state f c)
aside-Moves f c v d e s =
    show-Moves f c v (λ r. ground (arith, v.made r, d)) (ground (arith, v.honest, d, e, s))

pub begin_job-Moves :
    (completion : Completion) (c : Controller) → IsSound c → Moves c (begin_job completion c).0
unfolding begin_job
begin_job-Moves completion c v =
    Option-split (λ (x : Controller × Option Run). Moves c x.0) _ _ c.job_aborter
      (λ e.
        let m : Moves c (record c {
          explicit_cancellation = false;
          job_aborter = some c.next_aborter;
          next_aborter = suc c.next_aborter;
        }) =
          same-Moves v refl refl refl (λ d. d) in
        Moves-trans m (aside-Moves show_running _ m.sound refl refl refl))
      (λ r e. idle-Moves c v)

pub end_run-Moves : (r : Run) (c : Controller) → IsSound c → Moves c (end_run r c)
unfolding end_run
end_run-Moves r c v = same-Moves v refl refl refl (λ d. d)

pub abort-Moves : (o : Option ℕ) (c : Controller) → IsSound c → Moves c (abort o c)
abort-Moves none c v = idle-Moves c v
abort-Moves (some r) c v = same-Moves v refl refl refl (λ d. d)

pub job_updated-Moves : (job : Job) (c : Controller) → IsSound c → Moves c (job_updated job c)
job_updated-Moves job c v = aside-Moves (show_snapshot job) c v refl refl refl

then_ends : {c d : Controller} (r : Run) → Moves c d → Moves c (end_run r d)
then_ends r m = Moves-trans m (end_run-Moves r _ m.sound)

pub result_saved-Moves :
    (r : Run) (job : Job) (c : Controller) → IsSound c → Moves c (result_saved r job c)
unfolding result_saved
result_saved-Moves r job c v = then_ends r (aside-Moves (show_job job _ _) c v refl refl refl)

pub job_threw-Moves :
    (r : Run) (e : Failure) (c : Controller) → IsSound c → Moves c (job_threw r e c)
unfolding job_threw
job_threw-Moves r e c v = then_ends r (
    choice (c.explicit_cancellation || c.aborted r.aborter)
      (aside-Moves show_canceled c v refl refl refl)
      (choice (is_conflict c.view.save_state || is_save_error c.view.error)
        (aside-Moves after_save_error c v refl refl refl)
        (aside-Moves (show_job_error e) c v refl refl refl)))
  where
    choice : {x y : Controller} (b : Bool) → Moves c x → Moves c y → Moves c (if b then x else y)
    choice true m n = m
    choice false m n = n

pub cancel_answered-Moves :
    (job : Job) (c : Controller) → IsSound c → Moves c (cancel_answered job c)
unfolding cancel_answered
cancel_answered-Moves job c v =
    let m = aside-Moves (show_job job _ _) c v refl refl refl in
    Moves-trans m (abort-Moves c.job_aborter _ m.sound)

pub cancel_failed-Moves : (e : Failure) (c : Controller) → IsSound c → Moves c (cancel_failed e c)
unfolding cancel_failed
cancel_failed-Moves e c v =
    let m = aside-Moves (show_cancel_error e) c v refl refl refl in
    Moves-trans m (abort-Moves c.job_aborter _ m.sound)

pub destroy-Moves : (c : Controller) → IsSound c → Moves c (destroy c)
unfolding destroy
destroy-Moves c v =
    let m = abort-Moves c.job_aborter c v in
    Moves-trans m (same-Moves m.sound refl refl refl (λ d. refl))

cancelled-Moves :
    (b : Bool) (id : String) (r : ℕ) (c d : Controller)
    → IsSound d
    → Moves c d
    → Moves c (
        after_cancel c
          (if b then at_once (abort (some r) (set_state show_canceled d)) else asks id d))
cancelled-Moves true id r c d v m =
    let n = aside-Moves show_canceled d v refl refl refl in
    Moves-trans m (Moves-trans n (abort-Moves (some r) _ n.sound))
cancelled-Moves false id r c d v m = m

pub cancel_job-Moves : (c : Controller) → IsSound c → Moves c (after_cancel c (cancel_job c))
unfolding cancel_job
cancel_job-Moves c v =
    Option-split (λ x. Moves c (after_cancel c x)) _ _ c.job_aborter (λ e. idle-Moves c v)
      (λ r e.
        let m : Moves c (record c { explicit_cancellation = true }) =
          same-Moves v refl refl refl (λ d. d) in
        cancelled-Moves (is_empty (job_id c.view.job)) _ r c _ m.sound m)

-- What `finishJob` leaves of the editor.
abbrev IsFinished : Controller → Finish → Type 0
IsFinished c (returned d) = Moves c d
IsFinished c (saves d f) = Moves c d × IsHeld d f
IsFinished c (throws e d) = Moves c d

finish_with-IsFinished :
    (c : Controller) (x : Controller × Option Saving) → Starts c x → IsFinished c (finish_with x)
finish_with-IsFinished c (d, none) g = g.moves
finish_with-IsFinished c (d, some f) g = (g.moves, g.held f refl)

sized-IsFinished :
    (size : ℕ × ℕ) (options : SaveOptions) (c : Controller)
    → IsSound c
    → IsFinished c (elim (resized (some size) c) [
      | none ↦ throws not_hydrated c
      | some next ↦ finish_with (save options next)
    ])
unfolding resized
sized-IsFinished size options c v =
    document-cases
      (λ (x : Option Controller).
        IsFinished c
          (elim x [ none ↦ throws not_hydrated c | some next ↦ finish_with (save options next) ]))
      none _ c (idle-Moves c v)
      (λ d q e f. finish_with-IsFinished c _ (placed-Starts _ options d q c v e))

store_result-IsFinished :
    (completion : Completion) (job : Job) (result : JobResult) (c : Controller)
    → IsSound c
    → IsFinished c (store_result completion job result c)
unfolding store_result resized
store_result-IsFinished completion job result c v = go completion.canvas
  where
    go :
        (canvas : Option (ℕ × ℕ))
        → IsFinished c (elim (resized canvas c) [
          | none ↦ throws not_hydrated c
          | some next ↦ finish_with (save (job_options completion job result) next)
        ])
    go none = finish_with-IsFinished c _ (save-Starts _ c v)
    go (some size) = sized-IsFinished size (job_options completion job result) c v

finish_job-IsFinished :
    (completion : Completion) (job : Job) (c : Controller)
    → IsSound c
    → IsFinished c (finish_job completion job c)
unfolding finish_job
finish_job-IsFinished completion job c v =
    choice _ _ (is_canceled job.status) (aside-Moves (show_job job _ _) c v refl refl refl) (
      choice _ _ (not (is_successful job.status))
        (aside-Moves (show_job job _ _) c v refl refl refl)
        (Option-split (IsFinished c) _ _ (usable_result job)
          (λ e. aside-Moves (show_job job _ _) c v refl refl refl)
          (λ r e. store_result-IsFinished completion job r c v)))
  where
    choice :
        (x y : Finish) (b : Bool)
        → IsFinished c x
        → IsFinished c y
        → IsFinished c (if b then x else y)
    choice x y true m n = m
    choice x y false m n = n

after_finish-Starts :
    (r : Run) (c : Controller) (x : Finish) → IsFinished c x → Starts c (after_finish r x)
after_finish-Starts r c (returned d) m = nothing-Starts (then_ends r m)
after_finish-Starts r c (saves d f) m = record {
  moves = m.0;
  held = λ g e. subst (IsHeld d) (some-injective f g e) m.1;
}
after_finish-Starts r c (throws e d) m =
    nothing-Starts (Moves-trans m (job_threw-Moves r e d m.sound))

pub job_ended-Starts :
    (r : Run) (job : Job) (c : Controller) → IsSound c → Starts c (job_ended r job c)
unfolding job_ended
job_ended-Starts r job c v = after_finish-Starts r c _ (finish_job-IsFinished r.completion job c v)
