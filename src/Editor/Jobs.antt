-- ===== src/Editor/Jobs.antt =====
-- The jobs of frontend/src/editor/image-editor-controller.ts: `monitorJob`, `finishJob` and
-- `cancelJob`, cut at their awaits.
use canvas_standalone.Prelude.{
  ℕ, suc, String, Bool, true, false, not, ◌||◌, ◌&&◌, Option, none, some, if◌then◌else◌, write,
  truthy, get_or, nat_eq, find, text_or, is_empty,
}
use Prim.Native.String.{◌++◌ as text_append}
use canvas_standalone.Json.{field, str, no_field, join, Fields, Value}
use canvas_standalone.Recovery.{JobStatus, canceled, status_name}
use canvas_standalone.Recovery.Results.{is_successful}
use canvas_standalone.Editor.{
  View, Controller, SaveOptions, Operation, Job, JobResult, JobError, Error, Failure, problem,
  of_job, of_save, of_cancel, set_state, allocate, job_running, job_completed, job_failed,
  job_canceled, SaveState, save_conflict, JobState,
}
use canvas_standalone.Editor.Saves.{require_document, Saving, save, with_size, place_draft}

-- ImageEditorJobCompletion
pub record Completion : Type 0 where
  pub operation : Operation
  pub parameters : Option Fields
  pub asset_references : Option Value
  pub canvas : Option (ℕ × ℕ)

-- A run of `monitorJob`, with its abort controller.
pub record Run : Type 0 where
  pub aborter : ℕ
  pub completion : Completion

abbrev pub show_running : View → View
show_running v = record v { job = none; job_state = job_running; error = none }

-- Up to the call of `start`; no run where another one goes on.
unfoldable pub begin_job : Completion → Controller → Controller × Option Run
begin_job completion c = elim c.job_aborter [
  | some r ↦ (c, none)
  | none ↦ (
    set_state show_running (record c {
      explicit_cancellation = false;
      job_aborter = some c.next_aborter;
      next_aborter = suc c.next_aborter;
    }),
    some (record { aborter = c.next_aborter; completion = completion }),
  )
]

abbrev pub show_snapshot : Job → View → View
show_snapshot job v = record v { job = some job; job_state = job_running }

-- The callback for the snapshots of the job.
abbrev pub job_updated : Job → Controller → Controller
job_updated job c = set_state (show_snapshot job) c

abbrev pub is_current : Option ℕ → ℕ → Bool
is_current none r = false
is_current (some q) r = nat_eq q r

-- The `finally` block.
unfoldable pub end_run : Run → Controller → Controller
end_run run c = record c {
  job_aborter = if is_current c.job_aborter run.aborter then none else c.job_aborter;
  explicit_cancellation = false;
}

abbrev pub is_conflict : SaveState → Bool
is_conflict save_conflict = true
is_conflict _ = false

abbrev pub is_save_error : Option Error → Bool
is_save_error none = false
is_save_error (some e) = elim e.kind [ of_save ↦ true | _ ↦ false ]

abbrev pub has_succeeded : Option Job → Bool
has_succeeded none = false
has_succeeded (some job) = is_successful job.status

abbrev pub show_canceled : View → View
show_canceled v = record v { job_state = job_canceled; error = none }

abbrev pub after_save_error : View → View
after_save_error v = record v {
  job_state = if has_succeeded v.job then job_completed else job_failed;
}

abbrev pub show_job_error : Failure → View → View
show_job_error e v = record v {
  job_state = job_failed;
  error = problem of_job e "Image edit failed";
}

-- The `catch` block, and `finally` after it.
unfoldable pub job_threw : Run → Failure → Controller → Controller
job_threw run e c = end_run run (
    if c.explicit_cancellation || c.aborted run.aborter
    then set_state show_canceled c
    else if is_conflict c.view.save_state || is_save_error c.view.error
    then set_state after_save_error c
    else set_state (show_job_error e) c)

-- What `finishJob` does up to its save: return, save or throw.
pub data Finish : Type 0 where
  returned : Controller → Finish
  saves : Controller → Saving → Finish
  throws : Failure → Controller → Finish

abbrev pub show_job : Job → JobState → Option Error → View → View
show_job job state error v = record v { job = some job; job_state = state; error = error }

abbrev pub is_canceled : JobStatus → Bool
is_canceled canceled = true
is_canceled _ = false

-- `error?.retryable !== false`
abbrev pub may_retry : Option JobError → Bool
may_retry none = true
may_retry (some e) = get_or e.retryable true

abbrev pub job_message : Option JobError → Option String
job_message none = none
job_message (some e) = some e.message

abbrev pub job_problem : Job → Option Error
job_problem job = some (record {
  kind = of_job;
  message = text_or (job_message job.error) (text_append "Image edit " (status_name job.status));
  retryable = may_retry job.error;
})

abbrev pub no_result : Option Error
no_result =
    some
      (record { kind = of_job; message = "Image edit returned no usable result"; retryable = true })

abbrev pub usable_result : Job → Option JobResult
usable_result job = find (λ r. r.has_completed && truthy r.asset_id) job.results

abbrev pub join_parameters : Option Fields → String → Fields
join_parameters none id = field "job_id" (str id) no_field
join_parameters (some fs) id = join fs (field "job_id" (str id) no_field)

abbrev pub job_options : Completion → Job → JobResult → SaveOptions
job_options completion job result = record {
  current_asset_id = result.asset_id;
  operation = some completion.operation;
  parameters = some (join_parameters completion.parameters job.id);
  asset_references = completion.asset_references;
}

abbrev pub not_hydrated : Failure
not_hydrated = record {
  message = some "Image editor is not hydrated";
  status = none;
  response_status = none;
  reason = none;
  response_reason = none;
  response_code = none;
  code = none;
}

-- `save(…)`, with its error where no document is loaded.
abbrev pub finish_with : Controller × Option Saving → Finish
finish_with (c, none) = throws not_hydrated c
finish_with (c, some f) = saves c f

unfoldable pub resized : Option (ℕ × ℕ) → Controller → Option Controller
resized none c = some c
resized (some size) c = elim (require_document c) [
  | none ↦ none
  | some current ↦ some (
      set_state (place_draft c.next_object)
        (allocate (with_size size.0 size.1 (c.objects current.1)) c))
]

-- A job that gave an asset.
unfoldable pub store_result : Completion → Job → JobResult → Controller → Finish
store_result completion job result c = elim (resized completion.canvas c) [
  | none ↦ throws not_hydrated c
  | some next ↦ finish_with (save (job_options completion job result) next)
]

unfoldable pub finish_job : Completion → Job → Controller → Finish
finish_job completion job c =
    if is_canceled job.status
    then returned (set_state (show_job job job_canceled none) c)
    else if not (is_successful job.status)
    then returned (set_state (show_job job job_failed (job_problem job)) c)
    else elim (usable_result job) [
      | none ↦ returned (set_state (show_job job job_failed no_result) c)
      | some result ↦ store_result completion job result c
    ]

-- The rest of `monitorJob` after the job has ended: a save that is left to wait for, or nothing.
abbrev pub after_finish : Run → Finish → Controller × Option Saving
after_finish run (returned c) = (end_run run c, none)
after_finish run (saves c f) = (c, some f)
after_finish run (throws e c) = (job_threw run e c, none)

unfoldable pub job_ended : Run → Job → Controller → Controller × Option Saving
job_ended run job c = after_finish run (finish_job run.completion job c)

-- After the save of the job's result.
unfoldable pub result_saved : Run → Job → Controller → Controller
result_saved run job c = end_run run (set_state (show_job job job_completed none) c)

-- What a cancellation does first: nothing, a request for the job, or all there is to do.
pub data Cancel : Type 0 where
  not_running : Cancel
  asks : String → Controller → Cancel
  at_once : Controller → Cancel

-- `jobAborter?.abort(…)`
abbrev pub abort : Option ℕ → Controller → Controller
abort none c = c
abort (some r) c = record c { aborted = write c.aborted r true }

abbrev pub job_id : Option Job → String
job_id none = ""
job_id (some job) = job.id

unfoldable pub cancel_job : Controller → Cancel
cancel_job c = elim c.job_aborter [
  | none ↦ not_running
  | some r ↦
      let next = record c { explicit_cancellation = true } in
      if is_empty (job_id c.view.job)
      then at_once (abort (some r) (set_state show_canceled next))
      else asks (job_id c.view.job) next
]

-- The answer to `jobs.cancel`.
unfoldable pub cancel_answered : Job → Controller → Controller
cancel_answered job c = abort c.job_aborter (set_state (show_job job job_canceled none) c)

abbrev pub show_cancel_error : Failure → View → View
show_cancel_error e v = record v { error = problem of_cancel e "Image edit could not be canceled" }

unfoldable pub cancel_failed : Failure → Controller → Controller
cancel_failed e c = abort c.job_aborter (set_state (show_cancel_error e) c)

unfoldable pub destroy : Controller → Controller
destroy c = record (abort c.job_aborter c) { destroyed = true; job_aborter = none }
