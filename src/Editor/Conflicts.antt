-- ===== src/Editor/Conflicts.antt =====
-- Saves of frontend/src/editor/image-editor-controller.ts after a conflict, and the answer to a
-- cancellation.
use canvas_standalone.Prelude.{
  ℕ, ◌<◌, true, false, Option, some, ◌≡◌, refl, arith, if◌then◌else◌, Bool-cases, inl, inr, get_or,
  ap, ◌∙◌,
}
use canvas_standalone.Editor.{
  Document, Answer, Controller, Failure, Job, job_canceled, SaveOptions, allocate, received,
}
use canvas_standalone.Editor.Saves.{
  Saving, conflicted, conflict_refreshed, retry_save, save, send, drops_revision, without_revision,
  saving_of, no_options, require_document,
}
use canvas_standalone.Editor.World.Storing.{save-loaded}
use canvas_standalone.Editor.Jobs.{
  Run, Completion, begin_job, result_saved, end_run, cancel_answered, is_current,
}

-- What a save sends.
send-sent :
    (d : Document) (q : ℕ) (options : SaveOptions) (c : Controller)
    → (g : Saving) × ((send d q options c).1 ≡ some g)
      × (g.id ≡ d.id)
      × (g.version ≡ d.version)
      × (g.options ≡ options)
      × (g.sent ≡ (
          if drops_revision options (c.objects q)
          then without_revision (c.objects q)
          else c.objects q))
unfolding send
send-sent d q options c = elim (Bool-cases (drops_revision options (c.objects q))) [
  | inl e ↦ rw e (
    saving_of d c.next_object options (allocate (without_revision (c.objects q)) c),
    refl,
    refl,
    refl,
    refl,
    ground arith,
  )
  | inr e ↦ rw e (saving_of d q options c, refl, refl, refl, refl, refl)
]

-- A retry after a conflict, where the server's copy has come: it asks for the version of that copy,
-- with the options of the save that failed, and sends the draft that the user has, which only loses
-- its selected revision where those options drop it.
pub retry_save-conflict_refreshed :
    (f : Saving) (e : Failure) (a : Answer) (r : ℕ) (c : Controller)
    → c.destroyed ≡ false
    → c.view.draft ≡ some r
    → r < c.next_object
    → (let x = conflicted f c in
        let y = retry_save (conflict_refreshed f e x.1 (some a) x.0) in
        (g : Saving) × (y.1 ≡ some g)
        × (g.id ≡ a.id)
        × (g.version ≡ a.version)
        × (g.options ≡ f.options)
        × (g.sent ≡ (
            if drops_revision f.options (c.objects r)
            then without_revision (c.objects r)
            else c.objects r)))
unfolding retry_save conflicted conflict_refreshed
retry_save-conflict_refreshed f e a r c d s h =
    let x = (conflicted f c).0 in
    let t = conflict_refreshed f e (conflicted f c).1 (some a) x in
    let own : require_document t ≡ some (received a x, r) = ground arith in
    let options : get_or t.retained no_options ≡ f.options = ground arith in
    let kept : t.objects r ≡ c.objects r = ground arith in
    let (g, sends, id, version, taken, content) = send-sent (received a x) r f.options t in
    let same : (retry_save t).1 ≡ (send (received a x) r f.options t).1 =
      ap (λ (o : SaveOptions). (save o t).1) options
      ∙ ap (λ (k : Controller × Option Saving). k.1)
          (save-loaded f.options (received a x) r t own) in
    (g, same ∙ sends, id, version, taken, rw (← kept) content)

-- A cancellation is asked for, the job ends before the answer comes, and another job is begun: then
-- the answer aborts that other job and shows it as canceled.
pub cancel_answered-begin_job :
    (r : Run) (job canceled : Job) (completion : Completion) (c : Controller)
    → c.destroyed ≡ false
    → is_current c.job_aborter r.aborter ≡ true
    → (let x = begin_job completion (result_saved r job c) in
        let y = cancel_answered canceled x.0 in
        (x.1 ≡ some (record { aborter = c.next_aborter; completion = completion }))
        × (y.aborted c.next_aborter ≡ true)
        × (y.view.job_state ≡ job_canceled)
        × (y.view.job ≡ some canceled))
unfolding begin_job result_saved end_run cancel_answered
cancel_answered-begin_job r job canceled completion c d e = ground arith
