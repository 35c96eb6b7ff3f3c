-- ===== src/JobController.antt =====
-- frontend/src/jobs/canvas-job-controller.ts: how a job is followed to its end. What the server and
-- the abort signal do is a list of answers, one for each time that the code waits.
pub mod Following
use Prim.Native.String.{◌++◌ as text_append}
use canvas_standalone.Prelude.{
  ℕ, ◌*◌, String, Bool, true, false, not, Option, List, [], ◌∷◌, if◌then◌else◌, min, truthy, get_or,
}
use canvas_standalone.Recovery.{Snapshot, JobStatus, queued, running}

-- `terminal`
abbrev pub is_terminal_status : JobStatus → Bool
is_terminal_status queued = false
is_terminal_status running = false
is_terminal_status _ = true

abbrev pub is_terminal : Snapshot → Bool
is_terminal job = is_terminal_status job.status

-- how the stream of a job ends, and whether the signal is aborted then
pub data Ending : Type 0 where
  finished : Ending
  broken : Bool → String → Ending

-- what one round of the polling meets: the job, an error of getJob, or an abort during the wait
pub data Poll : Type 0 where
  answer : Snapshot → Poll
  refused aborted : String → Poll

-- `waiting`: the answers are used up and the job is still followed
pub data Outcome : Type 0 where
  returned : Snapshot → Outcome
  thrown : String → Outcome
  waiting : Outcome

-- the calls of `onUpdate`, the delays that were waited, and what the promise does
pub record Run : Type 0 where
  pub updates : List Snapshot
  pub waits : List ℕ
  pub outcome : Outcome

abbrev pub ended : Outcome → Run
ended o = record { updates = []; waits = []; outcome = o }

abbrev pub updated : Snapshot → Run → Run
updated job r = record r { updates = job ∷ r.updates }

abbrev pub waited : ℕ → Run → Run
waited delay r = record r { waits = delay ∷ r.waits }

-- `while (!terminal(job))`
unfoldable pub poll : Snapshot → ℕ → List Poll → Run
poll job delay [] = if is_terminal job then ended (returned job) else ended waiting
poll job delay (p ∷ ps) =
    if is_terminal job
    then ended (returned job)
    else waited delay (elim p [
      | answer next ↦ updated next (poll next (min 5000 (delay * 2)) ps)
      | refused message ↦ ended (thrown message)
      | aborted message ↦ ended (thrown message)
    ])

-- `for await (const snapshot of api.streamJob(…))` and what follows it
unfoldable pub follow_stream : Snapshot → List Snapshot → Ending → List Poll → Run
unfolding poll
follow_stream job [] finished polls = poll job 1000 polls
follow_stream job [] (broken is_aborted message) polls =
    if is_aborted then ended (thrown message) else poll job 1000 polls
follow_stream job (next ∷ rest) ending polls =
    updated next
      (if is_terminal next then ended (returned next) else follow_stream next rest ending polls)

unfoldable pub monitor : Snapshot → List Snapshot → Ending → List Poll → Run
unfolding follow_stream
monitor job stream ending polls =
    updated job
      (if is_terminal job then ended (returned job) else follow_stream job stream ending polls)

-- `${input.project_id}:${input.client_node_id}:${input.generationNonce || nanoid()}`
unfoldable pub idempotency_key : String → String → Option String → String → String
idempotency_key project_id client_node_id nonce fresh = text_append project_id (
    text_append ":" (
      text_append client_node_id
        (text_append ":" (if truthy nonce then get_or nonce fresh else fresh))))

-- `resume`: the job as getJob answers it is followed, and an error of getJob is thrown
unfoldable pub resume : Poll → List Snapshot → Ending → List Poll → Run
unfolding monitor
resume (answer job) stream ending polls = monitor job stream ending polls
resume (refused message) stream ending polls = ended (thrown message)
resume (aborted message) stream ending polls = ended (thrown message)
