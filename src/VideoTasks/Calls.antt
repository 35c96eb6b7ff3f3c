-- ===== src/VideoTasks/Calls.antt =====
-- What requestVideoGeneration leaves behind at its end (frontend/src/adapters/video-api.ts): the
-- cancellation of the task on the server, and the record of its recovery.
use mathlib.Core.List.Memᴰ
use canvas_standalone.Prelude.{
  ℕ, ◌+◌, ◌*◌, Bool, true, false, Option, none, some, List, [], ◌∷◌, ◌++◌, ◌≡◌, ◌⊎◌, inl, inr, refl,
  ltb, min, any, Memᴰ, Bool-cases, arith,
}
use canvas_standalone.Recovery.{MediaTask}
use canvas_standalone.VideoTasks.{
  World, Turn, Call, cancel, clean, Answer, answered, refused, poll_answered, Settled, TaskState,
  Next, again, stop, state, rejected, pending, done, failure, Outcome, returned, thrown, waiting,
  Run, slept, wait, pause, after_poll, poll_task, round, follow, request_video, aborted, reached,
  poll_interval, poll_max_backoff, go_on, give_up, Error, error, abort_error, video_task_state,
  caught,
}

abbrev is_clean : Call → Bool
is_clean cancel = false
is_clean clean = true

-- a turn whose answer shows the task in this state
abbrev ShownBy : TaskState → Turn → Type 0
ShownBy s t = (task : MediaTask) × ((t.answer ≡ answered task) × (video_task_state task ≡ s))

abbrev Shown : TaskState → List Turn → Type 0
Shown s turns = (t : Turn) × (Memᴰ t turns × ShownBy s t)

abbrev Cancelled : List Call → Type 0
Cancelled calls = (rest : List Call) × ((calls ≡ cancel ∷ rest) × (any is_clean rest ≡ true))

-- what the calls are and what the server has shown, for each way to end
abbrev pub Accounted : List Turn → List Call → Outcome → Type 0
Accounted turns calls (returned r) = (calls ≡ clean ∷ []) × Shown (done r) turns
Accounted turns calls (thrown abort_error) = Cancelled calls
Accounted turns calls (thrown (error message)) =
    ((calls ≡ clean ∷ []) × Shown (failure message) turns) ⊎ Cancelled calls
Accounted turns calls waiting = calls ≡ []

abbrev AfterRound : Turn → List Call → Next → Type 0
AfterRound t calls (stop o) = Accounted (t ∷ []) calls o
AfterRound t calls (again later longer) = calls ≡ []

abbrev AfterPoll : World → Turn → List Call → ℕ → Settled → Type 0
AfterPoll w t calls now (rejected e) =
    (calls ≡ []) ⊎ ((calls ≡ cancel ∷ []) × (aborted w now ≡ true))
AfterPoll w t calls now (state s) = (calls ≡ []) × ((aborted w now ≡ false) × ShownBy s t)

reached-later : (o : Option ℕ) (now more : ℕ) → reached o now ≡ true → reached o (now + more) ≡ true
reached-later none now more h = h
reached-later (some a) now more h = ground arith

aborted-later : (w : World) (now more : ℕ) → aborted w now ≡ true → aborted w (now + more) ≡ true
aborted-later w now more h = reached-later w.abort_at now more h

poll_answered-AfterPoll :
    (w : World) (t : Turn) (now : ℕ) (a : Answer)
    → t.answer ≡ a
    → AfterPoll w t
        (poll_answered w now a).calls
        (poll_answered w now a).now
        (poll_answered w now a).ending
poll_answered-AfterPoll w t now (refused e) h = elim (Bool-cases (aborted w now)) [
  | inl k ↦ rw k (inr (refl, aborted-later w now w.cancel_took k))
  | inr k ↦ rw k (inl refl)
]
poll_answered-AfterPoll w t now (answered task) h = elim (Bool-cases (aborted w now)) [
  | inl k ↦ rw k (inr (refl, aborted-later w now w.cancel_took k))
  | inr k ↦ rw k (refl, (k, (task, (h, refl))))
]

poll_task-AfterPoll :
    (w : World) (now : ℕ) (t : Turn)
    → AfterPoll w t (poll_task w now t).calls (poll_task w now t).now (poll_task w now t).ending
unfolding poll_task
poll_task-AfterPoll w now t = elim (Bool-cases (aborted w now)) [
  | inl k ↦ rw k (inr (refl, aborted-later w now w.cancel_took k))
  | inr k ↦ rw k (poll_answered-AfterPoll w t (now + t.took) t.answer refl)
]

Cancelled-append :
    (calls : List Call)
    → (calls ≡ []) ⊎ (calls ≡ cancel ∷ [])
    → Cancelled (calls ++ cancel ∷ clean ∷ [])
Cancelled-append calls (inl e) = rw e (clean ∷ [], (refl, refl))
Cancelled-append calls (inr e) = rw e (cancel ∷ clean ∷ [], (refl, refl))

Cancelled-AfterRound :
    (t : Turn) (calls : List Call) (e : Error)
    → Cancelled calls
    → AfterRound t calls (stop (thrown e))
Cancelled-AfterRound t calls abort_error h = h
Cancelled-AfterRound t calls (error message) h = inr h

caught-AfterRound :
    (t : Turn) (calls : List Call) (e : Error)
    → (calls ≡ []) ⊎ (calls ≡ cancel ∷ [])
    → AfterRound t (caught true calls e).calls (caught true calls e).next
caught-AfterRound t calls e h =
    Cancelled-AfterRound t (calls ++ cancel ∷ clean ∷ []) e (Cancelled-append calls h)

slept-AfterRound :
    (t : Turn) (calls : List Call) (o : Option ℕ) (delay : ℕ)
    → calls ≡ []
    → AfterRound t (slept calls o delay).calls (slept calls o delay).next
slept-AfterRound t calls none delay h = caught-AfterRound t calls abort_error (inl h)
slept-AfterRound t calls (some now) delay h = h

here : (s : TaskState) (t : Turn) → ShownBy s t → Shown s (t ∷ [])
here s t h = (t, (Memᴰ.head refl, h))

after_poll-AfterRound :
    (w : World) (delay late : ℕ) (t : Turn) (calls : List Call) (now : ℕ) (s : Settled)
    → AfterPoll w t calls now s
    → AfterRound t
        (after_poll w delay late calls now s).calls
        (after_poll w delay late calls now s).next
after_poll-AfterRound w delay late t calls now (rejected e) (inl h) =
    elim (Bool-cases (aborted w now)) [
      | inl k ↦ rw k (caught-AfterRound t calls e (inl h))
      | inr k ↦
          let longer = min poll_max_backoff (delay * 2) in
          rw k (slept-AfterRound t calls (wait w now (pause w now longer) late) longer h)
    ]
after_poll-AfterRound w delay late t calls now (rejected e) (inr h) =
    rw h.1 (caught-AfterRound t calls e (inr h.0))
after_poll-AfterRound w delay late t calls now (state (done r)) h =
    rw h.0 (refl, here (done r) t h.1.1)
after_poll-AfterRound w delay late t calls now (state (failure message)) h =
    rw h.1.0 (rw h.0 (inl (refl, here (failure message) t h.1.1)))
after_poll-AfterRound w delay late t calls now (state pending) h =
    slept-AfterRound t calls (wait w now (pause w now poll_interval) late) poll_interval h.0

round-AfterRound :
    (w : World) (now delay : ℕ) (t : Turn)
    → AfterRound t (round w now delay t).calls (round w now delay t).next
unfolding round
round-AfterRound w now delay t =
    let p = poll_task w now t in
    after_poll-AfterRound w delay t.late t p.calls p.now p.ending (poll_task-AfterPoll w now t)

Shown-later : (s : TaskState) (t : Turn) (ts : List Turn) → Shown s ts → Shown s (t ∷ ts)
Shown-later s t ts (u, (m, h)) = (u, (Memᴰ.tail m, h))

Shown-first : (s : TaskState) (t : Turn) (ts : List Turn) → Shown s (t ∷ []) → Shown s (t ∷ ts)
Shown-first s t ts (u, (m, h)) = elim (Memᴰ.cases_cons m) [
  | inl e ↦ (u, (Memᴰ.head e, h))
  | inr k ↦ absurd (Memᴰ.not-nil k)
]

Accounted-later :
    (t : Turn) (ts : List Turn) (calls : List Call) (o : Outcome)
    → Accounted ts calls o
    → Accounted (t ∷ ts) calls o
Accounted-later t ts calls (returned r) h = (h.0, Shown-later (done r) t ts h.1)
Accounted-later t ts calls (thrown abort_error) h = h
Accounted-later t ts calls (thrown (error message)) (inl h) =
    inl (h.0, Shown-later (failure message) t ts h.1)
Accounted-later t ts calls (thrown (error message)) (inr h) = inr h
Accounted-later t ts calls waiting h = h

Accounted-first :
    (t : Turn) (ts : List Turn) (calls : List Call) (o : Outcome)
    → Accounted (t ∷ []) calls o
    → Accounted (t ∷ ts) calls o
Accounted-first t ts calls (returned r) h = (h.0, Shown-first (done r) t ts h.1)
Accounted-first t ts calls (thrown abort_error) h = h
Accounted-first t ts calls (thrown (error message)) (inl h) =
    inl (h.0, Shown-first (failure message) t ts h.1)
Accounted-first t ts calls (thrown (error message)) (inr h) = inr h
Accounted-first t ts calls waiting h = h

give_up-Accounted :
    (w : World) (now : ℕ) (ts : List Turn)
    → Accounted ts (give_up w now).calls (give_up w now).outcome
give_up-Accounted w now ts = elim (Bool-cases (aborted w (now + w.cancel_took))) [
  | inl k ↦ rw k (inr (clean ∷ cancel ∷ clean ∷ [], (refl, refl)))
  | inr k ↦ rw k (inr (clean ∷ [], (refl, refl)))
]

go_on-Accounted :
    (t : Turn) (ts : List Turn) (calls : List Call) (rest : ℕ → ℕ → Run) (next : Next)
    → AfterRound t calls next
    → ((later longer : ℕ) → Accounted ts (rest later longer).calls (rest later longer).outcome)
    → Accounted (t ∷ ts) (go_on calls rest next).calls (go_on calls rest next).outcome
go_on-Accounted t ts calls rest (stop o) h ih = Accounted-first t ts calls o h
go_on-Accounted t ts calls rest (again later longer) h ih =
    rw h
      (Accounted-later t ts (rest later longer).calls (rest later longer).outcome (ih later longer))

follow-Accounted :
    (w : World) (now delay : ℕ) (turns : List Turn)
    → Accounted turns (follow w now delay turns).calls (follow w now delay turns).outcome
unfolding follow
follow-Accounted w now delay [] = elim (Bool-cases (ltb now w.deadline)) [
  | inl e ↦ rw (e, follow) refl
  | inr e ↦ rw (e, follow) (give_up-Accounted w now [])
]
follow-Accounted w now delay (t ∷ ts) = elim (Bool-cases (ltb now w.deadline)) [
  | inr e ↦ rw (e, follow) (give_up-Accounted w now (t ∷ ts))
  | inl e ↦
      rw (e, follow)
        (go_on-Accounted t ts (round w now delay t).calls (λ later longer. follow w later longer ts)
          (round w now delay t).next (round-AfterRound w now delay t)
          (λ later longer. follow-Accounted w later longer ts))
]

-- A request that returns a video has been shown it by an answer and has only forgotten the recovery
-- of the task; one that throws has been shown the failure and has only forgotten the recovery, or
-- it first cancels the task and forgets the recovery then; and while it is not at its end it does
-- neither.
pub request_video-Accounted :
    (abort_at : Option ℕ) (cancel_took now : ℕ) (turns : List Turn)
    → Accounted turns
        (request_video abort_at cancel_took now turns).calls
        (request_video abort_at cancel_took now turns).outcome
unfolding request_video
request_video-Accounted abort_at cancel_took now turns = follow-Accounted _ now poll_interval turns
