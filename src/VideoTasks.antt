-- ===== src/VideoTasks.antt =====
-- frontend/src/adapters/video-api.ts: how the task of a video is followed to its end. Times are
-- milliseconds of one clock. The signal is aborted from one time on, or never.
pub mod Deadline
pub mod Calls
pub mod Creation
pub mod Parameters
use Prim.Native.String.{◌++◌ as text_append}
use canvas_standalone.Prelude.{
  ℕ, ◌+◌, ◌-◌, ◌*◌, String, Bool, true, false, Option, none, some, List, [], ◌∷◌, ◌++◌, find,
  if◌then◌else◌, ltb, leb, min, max, truthy, text_or,
}
use canvas_standalone.Recovery.{
  TaskResult, MediaTask, Kind, JobStatus, completed, partial, failed, canceled, indeterminate,
  expired, video, status_name,
}
use canvas_standalone.AssetRuntime.{asset_storage_key}

-- `VideoGenerationResult`, as this code makes it
pub record VideoResult : Type 0 where
  pub storage_key : String
  pub mime_type : String

-- `VideoGenerationTaskState`
pub data TaskState : Type 0 where
  pending : TaskState
  done : VideoResult → TaskState
  failure : String → TaskState

-- the calls that reach the server and the canvas store: `cancelVideoTask` and
-- `scheduleCanvasTaskRecoveryCleanup`
pub data Call : Type 0 where
  cancel clean : Call

pub data Error : Type 0 where
  abort_error : Error
  error : String → Error

pub data Answer : Type 0 where
  answered : MediaTask → Answer
  refused : Error → Answer

-- One round of the loop: how long the request takes and its answer, and how much later than asked
-- for the timer after it fires.
pub record Turn : Type 0 where
  pub took : ℕ
  pub answer : Answer
  pub late : ℕ

-- when the signal is aborted, when the loop gives up, and how long a cancellation takes
pub record World : Type 0 where
  pub abort_at : Option ℕ
  pub deadline : ℕ
  pub cancel_took : ℕ

abbrev pub reached : Option ℕ → ℕ → Bool
reached none now = false
reached (some a) now = leb a now

-- `signal?.aborted`
abbrev pub aborted : World → ℕ → Bool
aborted w now = reached w.abort_at now

abbrev pub ends_badly : JobStatus → Bool
ends_badly failed = true
ends_badly canceled = true
ends_badly indeterminate = true
ends_badly expired = true
ends_badly _ = false

abbrev pub ends_well : JobStatus → Bool
ends_well completed = true
ends_well partial = true
ends_well _ = false

abbrev pub is_video : Kind → Bool
is_video video = true
is_video _ = false

abbrev pub has_asset : TaskResult → Bool
has_asset r = truthy r.asset_id

abbrev pub stored_result : Option TaskResult → Option String → TaskState
stored_result none message = failure (text_or message "Video generation returned no stored asset")
stored_result (some r) message = done (record {
  storage_key = asset_storage_key (text_or r.asset_id "");
  mime_type = text_or r.mime_type "video/mp4";
})

unfoldable pub video_task_state : MediaTask → TaskState
video_task_state task =
    let message = task.snapshot.error_message in
    let status = task.snapshot.status in
    if is_video task.kind
    then (if ends_well status
        then stored_result (find has_asset task.snapshot.results) message
        else if ends_badly status
        then failure (text_or message (text_append "Video generation " (status_name status)))
        else pending)
    else failure "The server returned an invalid video task"

-- what a promise of this code does, with the calls made on the way and the time then
pub data Settled : Type 0 where
  state : TaskState → Settled
  rejected : Error → Settled

pub record Polled : Type 0 where
  pub calls : List Call
  pub now : ℕ
  pub ending : Settled

-- `await cancelVideoTask(task)`, and then the error
abbrev pub cancelled : World → ℕ → Error → Polled
cancelled w now e = record { calls = cancel ∷ []; now = now + w.cancel_took; ending = rejected e }

abbrev pub poll_answered : World → ℕ → Answer → Polled
poll_answered w now (refused e) =
    if aborted w now
    then cancelled w now e
    else record { calls = []; now = now; ending = rejected e }
poll_answered w now (answered task) =
    if aborted w now
    then cancelled w now abort_error
    else record { calls = []; now = now; ending = state (video_task_state task) }

unfoldable pub poll_task : World → ℕ → Turn → Polled
poll_task w now t =
    if aborted w now then cancelled w now abort_error else poll_answered w (now + t.took) t.answer

-- `delay`: the time when it resolves, or nothing where the signal rejects it
unfoldable pub wait : World → ℕ → ℕ → ℕ → Option ℕ
wait w now ms late =
    if aborted w now
    then none
    else if aborted w (now + (ms + late))
    then none
    else some (now + (ms + late))

-- `waiting`: the turns are used up and the loop is not at its end
pub data Outcome : Type 0 where
  returned : VideoResult → Outcome
  thrown : Error → Outcome
  waiting : Outcome

pub data Next : Type 0 where
  again : (now delay : ℕ) → Next
  stop : Outcome → Next

pub record Round : Type 0 where
  pub calls : List Call
  pub next : Next

-- the outer catch, at an error that is thrown at a time where the signal is aborted or not
abbrev pub caught : Bool → List Call → Error → Round
caught is_aborted calls e = record {
  calls = if is_aborted then calls ++ cancel ∷ clean ∷ [] else calls;
  next = stop (thrown e);
}

-- `await delay(…)`, and the next round; a rejection of it is an abort
abbrev pub slept : List Call → Option ℕ → ℕ → Round
slept calls none delay = caught true calls abort_error
slept calls (some now) delay = record { calls = calls; next = again now delay }

-- `Math.min(pollDelay, Math.max(1, deadline - Date.now()))`
abbrev pub pause : World → ℕ → ℕ → ℕ
pause w now delay = min delay (max 1 (w.deadline - now))

-- the constants videoPollIntervalMs, videoPollMaxBackoffMs and videoPollDeadlineMs
abbrev pub poll_interval : ℕ
poll_interval = 2500

abbrev pub poll_max_backoff : ℕ
poll_max_backoff = 10000

abbrev pub poll_deadline : ℕ
poll_deadline = 1860000

abbrev pub after_poll : World → ℕ → ℕ → List Call → ℕ → Settled → Round
after_poll w delay late calls now (rejected e) =
    if aborted w now
    then caught true calls e
    else let longer = min poll_max_backoff (delay * 2) in
      slept calls (wait w now (pause w now longer) late) longer
after_poll w delay late calls now (state (done r)) = record {
  calls = calls ++ clean ∷ [];
  next = stop (returned r);
}
after_poll w delay late calls now (state (failure message)) =
    caught (aborted w now) (calls ++ clean ∷ []) (error message)
after_poll w delay late calls now (state pending) =
    slept calls (wait w now (pause w now poll_interval) late) poll_interval

unfoldable pub round : World → ℕ → ℕ → Turn → Round
unfolding poll_task wait
round w now delay t = let p = poll_task w now t in after_poll w delay t.late p.calls p.now p.ending

pub record Run : Type 0 where
  pub calls : List Call
  pub outcome : Outcome

-- what follows the loop where the deadline has passed
abbrev pub give_up : World → ℕ → Run
give_up w now =
    let out =
      caught (aborted w (now + w.cancel_took)) (cancel ∷ clean ∷ [])
        (error "Video generation timed out") in
    record { calls = out.calls; outcome = thrown (error "Video generation timed out") }

abbrev pub before : List Call → Run → Run
before calls r = record r { calls = calls ++ r.calls }

-- a round that ends the loop, or the rounds after it
abbrev pub go_on : List Call → (ℕ → ℕ → Run) → Next → Run
go_on calls rest (stop o) = record { calls = calls; outcome = o }
go_on calls rest (again later longer) = before calls (rest later longer)

-- `while (Date.now() < deadline)`
unfoldable pub follow : World → ℕ → ℕ → List Turn → Run
unfolding round
follow w now delay [] =
    if ltb now w.deadline then record { calls = []; outcome = waiting } else give_up w now
follow w now delay (t ∷ ts) = elim (ltb now w.deadline) [
  | false ↦ give_up w now
  | true ↦
      let out = round w now delay t in
      go_on out.calls (λ later longer. follow w later longer ts) out.next
]

-- `requestVideoGeneration`, from the time when its task has been created
unfoldable pub request_video : Option ℕ → ℕ → ℕ → List Turn → Run
unfolding follow
request_video abort_at cancel_took now turns =
    follow
      (record { abort_at = abort_at; deadline = now + poll_deadline; cancel_took = cancel_took })
      now poll_interval turns
