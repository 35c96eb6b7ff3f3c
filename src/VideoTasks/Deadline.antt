-- ===== src/VideoTasks/Deadline.antt =====
-- How often requestVideoGeneration polls at most (frontend/src/adapters/video-api.ts).
use canvas_standalone.Prelude.{
  ℕ, suc, ◌+◌, ◌*◌, ◌≤◌, false, Option, some, List, [], ◌∷◌, ◌≡◌, ◌≢◌, ◌⊎◌, inl, inr, ltb, min,
  length, Bool-cases, Option-cases, arith,
}
use canvas_standalone.VideoTasks.{
  World, Turn, Answer, answered, refused, poll_answered, poll_max_backoff, Call, Settled, Next,
  again, stop, state, rejected, pending, done, failure, waiting, Run, slept, wait, pause,
  after_poll, poll_task, round, follow, request_video, aborted, poll_interval, go_on, give_up,
}

wait-later :
    (w : World) (now ms late : ℕ) {later : ℕ} → wait w now ms late ≡ some later → now + ms ≤ later
unfolding wait
wait-later w now ms late h = ground arith

-- the loop is at its end, or the next round begins an interval later or after the deadline
abbrev Later : World → ℕ → Next → Type 0
Later w now (stop o) = o ≢ waiting
Later w now (again later longer) =
    (poll_interval ≤ longer) × ((w.deadline ≤ later) ⊎ (now + poll_interval ≤ later))

pause-Later :
    (w : World) (now delay later : ℕ)
    → poll_interval ≤ delay
    → now + pause w now delay ≤ later
    → (w.deadline ≤ later) ⊎ (now + poll_interval ≤ later)
pause-Later w now delay later h k = ground arith

slept-Later :
    (w : World) (calls : List Call) (now delay late : ℕ)
    → poll_interval ≤ delay
    → Later w now (slept calls (wait w now (pause w now delay) late) delay).next
slept-Later w calls now delay late h = elim (Option-cases (wait w now (pause w now delay) late)) [
  | inl e ↦ rw e (λ k. absurd cc)
  | inr (later, e) ↦
      rw e (h, pause-Later w now delay later h (wait-later w now (pause w now delay) late e))
]

Later-poll :
    (w : World) (now p_now : ℕ) (next : Next) → now ≤ p_now → Later w p_now next → Later w now next
Later-poll w now p_now (stop o) h k = k
Later-poll w now p_now (again later longer) h k = (k.0, ground arith)

poll_answered-now : (w : World) (now : ℕ) (a : Answer) → now ≤ (poll_answered w now a).now
poll_answered-now w now (refused e) = ground arith
poll_answered-now w now (answered task) = ground arith

poll_task-now : (w : World) (now : ℕ) (t : Turn) → now ≤ (poll_task w now t).now
unfolding poll_task
poll_task-now w now t = elim (Bool-cases (aborted w now)) [
  | inl e ↦ rw e (omega arith)
  | inr e ↦ rw e (omega (arith, poll_answered-now w (now + t.took) t.answer))
]

after_poll-Later :
    (w : World) (delay late : ℕ) (calls : List Call) (now : ℕ) (s : Settled)
    → poll_interval ≤ delay
    → Later w now (after_poll w delay late calls now s).next
after_poll-Later w delay late calls now (rejected e) h = elim (Bool-cases (aborted w now)) [
  | inl k ↦ rw k (λ e. absurd cc)
  | inr k ↦ rw k (slept-Later w calls now (min poll_max_backoff (delay * 2)) late (omega arith))
]
after_poll-Later w delay late calls now (state (done r)) h = λ e. absurd cc
after_poll-Later w delay late calls now (state (failure message)) h = λ e. absurd cc
after_poll-Later w delay late calls now (state pending) h =
    slept-Later w calls now poll_interval late (omega arith)

round-Later :
    (w : World) (now delay : ℕ) (t : Turn)
    → poll_interval ≤ delay
    → Later w now (round w now delay t).next
unfolding round
round-Later w now delay t h =
    let p = poll_task w now t in
    Later-poll w now p.now _ (poll_task-now w now t)
      (after_poll-Later w delay t.late p.calls p.now p.ending h)

give_up-ends : (w : World) (now : ℕ) → (give_up w now).outcome ≢ waiting
give_up-ends w now e = absurd cc

go_on-ends :
    (w : World) (now : ℕ) (calls : List Call) (rest : ℕ → ℕ → Run) (next : Next)
    → Later w now next
    → ((later longer : ℕ)
        → Later w now (again later longer)
        → (rest later longer).outcome ≢ waiting)
    → (go_on calls rest next).outcome ≢ waiting
go_on-ends w now calls rest (stop o) h ih = h
go_on-ends w now calls rest (again later longer) h ih = ih later longer h

later-enough :
    (w : World) (now later n : ℕ)
    → w.deadline ≤ now + suc n * poll_interval
    → (w.deadline ≤ later) ⊎ (now + poll_interval ≤ later)
    → w.deadline ≤ later + n * poll_interval
later-enough w now later n k l = ground arith

past_deadline : (w : World) (now : ℕ) → w.deadline ≤ now → ltb now w.deadline ≡ false
past_deadline w now h = ground arith

-- With a turn for each interval up to the deadline the loop comes to its end.
follow-ends :
    (w : World) (now delay : ℕ) (turns : List Turn)
    → poll_interval ≤ delay
    → w.deadline ≤ now + length turns * poll_interval
    → (follow w now delay turns).outcome ≢ waiting
unfolding follow
follow-ends w now delay [] h k = rw (past_deadline w now (omega (arith, k))) (give_up-ends w now)
follow-ends w now delay (t ∷ ts) h k = elim (Bool-cases (ltb now w.deadline)) [
  | inr e ↦ rw (e, follow) (give_up-ends w now)
  | inl e ↦
      rw (e, follow)
        (go_on-ends w now (round w now delay t).calls (λ later longer. follow w later longer ts) _
          (round-Later w now delay t h)
          (λ later longer l.
            follow-ends w later longer ts l.0 (later-enough w now later (length ts) k l.1)))
]

-- Whatever is answered, however long the requests take and however late the timers fire, 744 rounds
-- are enough for `requestVideoGeneration` to return or to throw.
pub length-request_video :
    (abort_at : Option ℕ) (cancel_took now : ℕ) (turns : List Turn)
    → 744 ≤ length turns
    → (request_video abort_at cancel_took now turns).outcome ≢ waiting
unfolding request_video
length-request_video abort_at cancel_took now turns h =
    follow-ends _ now poll_interval turns (omega arith) (omega arith)
