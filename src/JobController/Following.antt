-- ===== src/JobController/Following.antt =====
-- frontend/src/jobs/canvas-job-controller.ts: monitor, from the first snapshot of a job to its last.
use canvas_standalone.Prelude.{
  ℕ, ◌≤◌, ◌*◌, min, true, false, ◌≡◌, refl, ap, some, List, [], ◌∷◌, ◌++◌, map, find, All,
  if◌then◌else◌, arith, Bool-cases, inl, inr, some_injective,
}
use canvas_standalone.Recovery.{Snapshot}
use canvas_standalone.JobController.{
  is_terminal, Ending, finished, broken, Poll, answer, refused, aborted, ended, returned, Run, poll,
  follow_stream, monitor,
}

-- the snapshots up to the first that shows the job at its end
abbrev pub until_terminal : List Snapshot → List Snapshot
until_terminal [] = []
until_terminal (j ∷ js) = j ∷ (if is_terminal j then [] else until_terminal js)

-- the stream did not break for an abort
abbrev pub IsFollowed : Ending → Type 0
IsFollowed finished = Unit
IsFollowed (broken is_aborted message) = is_aborted ≡ false

abbrev Follows : Run → Snapshot → List Snapshot → Type 0
Follows r last seen = (r.outcome ≡ returned last) × (r.updates ≡ seen)

poll-terminal :
    (job : Snapshot) (delay : ℕ) (polls : List Poll)
    → is_terminal job ≡ true
    → poll job delay polls ≡ ended (returned job)
unfolding poll
poll-terminal job delay [] t = rw t refl
poll-terminal job delay (p ∷ ps) t = rw t refl

poll-Follows :
    (job : Snapshot) (delay : ℕ) (jobs : List Snapshot) {last : Snapshot}
    → is_terminal job ≡ false
    → find is_terminal jobs ≡ some last
    → Follows (poll job delay (map answer jobs)) last (until_terminal jobs)
unfolding poll
poll-Follows job delay [] t f = absurd (cc)
poll-Follows job delay (j ∷ js) {last} t f =
    let next = min 5000 (delay * 2) in
    elim (Bool-cases (is_terminal j)) [
      | inl k ↦ rw t (
          rw (poll-terminal j next (map answer js) k)
            (rw k (ap returned (some_injective (rw k at f)), refl)))
      | inr k ↦
          let (o, u) = poll-Follows j next js k (rw k at f) in
          rw t (rw k (o, ap (λ (x : List Snapshot). j ∷ x) u))
    ]

stream-Follows :
    (job : Snapshot) (stream : List Snapshot) (ending : Ending) (jobs : List Snapshot)
    {last : Snapshot}
    → IsFollowed ending
    → is_terminal job ≡ false
    → find is_terminal (stream ++ jobs) ≡ some last
    → Follows
        (follow_stream job stream ending (map answer jobs))
        last
        (until_terminal (stream ++ jobs))
unfolding follow_stream
stream-Follows job [] finished jobs h t f = poll-Follows job 1000 jobs t f
stream-Follows job [] (broken a m) jobs h t f = rw h (poll-Follows job 1000 jobs t f)
stream-Follows job (j ∷ js) ending jobs h t f = elim (Bool-cases (is_terminal j)) [
  | inl k ↦ rw k (ap returned (some_injective (rw k at f)), refl)
  | inr k ↦ rw k (
      let (o, u) = stream-Follows j js ending jobs h k (rw k at f) in
      (o, ap (λ (x : List Snapshot). j ∷ x) u))
]

-- A job is followed to the first snapshot that shows it at its end, wherever that comes, and each
-- snapshot up to it is handed on.
pub monitor-returns :
    (job : Snapshot) (stream : List Snapshot) (ending : Ending) (jobs : List Snapshot)
    {last : Snapshot}
    → IsFollowed ending
    → find is_terminal (job ∷ stream ++ jobs) ≡ some last
    → ((monitor job stream ending (map answer jobs)).outcome ≡ returned last)
      × ((monitor job stream ending (map answer jobs)).updates
          ≡ until_terminal (job ∷ stream ++ jobs))
unfolding monitor
monitor-returns job stream ending jobs h f = elim (Bool-cases (is_terminal job)) [
  | inl k ↦ rw k (ap returned (some_injective (rw k at f)), refl)
  | inr k ↦ rw k (
      let (o, u) = stream-Follows job stream ending jobs h k (rw k at f) in
      (o, ap (λ (x : List Snapshot). job ∷ x) u))
]

abbrev pub InBounds : ℕ → Type 0
InBounds w = (1000 ≤ w) × (w ≤ 5000)

poll-waits :
    (job : Snapshot) (delay : ℕ) (polls : List Poll)
    → InBounds delay
    → All InBounds (poll job delay polls).waits
unfolding poll
poll-waits job delay [] h = ground arith
poll-waits job delay (answer j ∷ ps) h = elim (Bool-cases (is_terminal job)) [
  | inl k ↦ rw k tt
  | inr k ↦ rw k (h, poll-waits j (min 5000 (delay * 2)) ps (omega arith))
]
poll-waits job delay (refused m ∷ ps) h = ground arith
poll-waits job delay (aborted m ∷ ps) h = ground arith

follow_stream-waits :
    (job : Snapshot) (stream : List Snapshot) (ending : Ending) (polls : List Poll)
    → All InBounds (follow_stream job stream ending polls).waits
unfolding follow_stream
follow_stream-waits job [] finished polls = poll-waits job 1000 polls (omega arith)
follow_stream-waits job [] (broken true m) polls = tt
follow_stream-waits job [] (broken false m) polls = poll-waits job 1000 polls (omega arith)
follow_stream-waits job (j ∷ js) ending polls =
    ground (arith, follow_stream-waits j js ending polls)

-- Between two requests for a job at least one second and at most five seconds pass.
pub monitor-waits :
    (job : Snapshot) (stream : List Snapshot) (ending : Ending) (polls : List Poll)
    → All InBounds (monitor job stream ending polls).waits
unfolding monitor
monitor-waits job stream ending polls = ground (arith, follow_stream-waits job stream ending polls)
