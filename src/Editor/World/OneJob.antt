-- ===== src/Editor/World/OneJob.antt =====
-- The jobs of frontend/src/editor/image-editor-controller.ts over all histories of an editor.
use canvas_standalone.Prelude.{
  ℕ, suc, true, false, Option, none, some, List, [], ◌∷◌, ◌++◌, ◌≡◌, refl, arith, All, All-split,
  length, Option-split, ◌∙◌, sym, subst, is_some, if◌then◌else◌,
}
use canvas_standalone.Editor.{Controller, Job, Failure}
use canvas_standalone.Editor.Saves.{
  Saving, save, send, saved, save_failed, conflicted, conflict_refreshed, retry_save, hydrated,
  begin_reload, update_draft, select_revision, begin_upload, uploaded, upload_failed,
}
use canvas_standalone.Editor.Jobs.{
  Completion, Run, begin_job, job_threw, job_ended, result_saved, cancel_job, cancel_answered,
  cancel_failed, destroy, end_run, finish_job, store_result, resized, is_current,
}
use canvas_standalone.Editor.World.{
  World, Wait, Command, run, Launch, launch, Reply, resume, with_run, still_runs, Step, Reach, here,
  next, command, launches, resumes, begins, ends, throws, results,
}

pub record Steady (c c' : Controller) : Type 0 where
  pub lives : c'.destroyed ≡ c.destroyed
  pub aborter : c'.job_aborter ≡ c.job_aborter

abbrev pub aborter_count : Controller → ℕ
aborter_count c = if is_some c.job_aborter then 1 else 0

run-Steady :
    (k : Command) (c : Controller)
    → (run k c).destroyed ≡ false
    → (c.destroyed ≡ false) × ((run k c).job_aborter ≡ c.job_aborter)
unfolding run hydrated begin_reload update_draft begin_upload upload_failed cancel_job
    cancel_answered cancel_failed destroy
run-Steady k c d = ground arith

launch-Steady : (l : Launch) (c : Controller) → Steady c (launch l c).0
unfolding launch retry_save select_revision uploaded save send
launch-Steady l c = record { lives = ground arith; aborter = ground arith }

resume-Steady :
    (w : Wait) (reply : Reply) (f : Saving) (c : Controller) → Steady c (resume w reply f c).0
unfolding resume saved save_failed conflicted conflict_refreshed
resume-Steady w reply f c = record { lives = ground arith; aborter = ground arith }

begin_job-lives :
    (completion : Completion) (c : Controller) → (begin_job completion c).0.destroyed ≡ c.destroyed
unfolding begin_job
begin_job-lives completion c = ground arith

-- A run that ends is the one of the editor.
end_run-lives :
    (r : Run) (c : Controller)
    → ((end_run r c).destroyed ≡ c.destroyed)
      × ((end_run r c).job_aborter
          ≡ (if is_current c.job_aborter r.aborter then none else c.job_aborter))
unfolding end_run
end_run-lives r c = (refl, refl)

job_threw-lives :
    (r : Run) (e : Failure) (c : Controller)
    → ((job_threw r e c).destroyed ≡ c.destroyed)
      × ((job_threw r e c).job_aborter
          ≡ (if is_current c.job_aborter r.aborter then none else c.job_aborter))
unfolding job_threw end_run
job_threw-lives r e c = ground arith

result_saved-lives :
    (r : Run) (job : Job) (c : Controller)
    → ((result_saved r job c).destroyed ≡ c.destroyed)
      × ((result_saved r job c).job_aborter
          ≡ (if is_current c.job_aborter r.aborter then none else c.job_aborter))
unfolding result_saved end_run
result_saved-lives r job c = ground arith

job_ended-lives :
    (r : Run) (job : Job) (c : Controller)
    → ((job_ended r job c).0.destroyed ≡ c.destroyed)
      × ((job_ended r job c).0.job_aborter ≡ (
          if is_some (job_ended r job c).1
          then c.job_aborter
          else if is_current c.job_aborter r.aborter
          then none
          else c.job_aborter))
unfolding job_ended finish_job store_result resized end_run job_threw save send
job_ended-lives r job c = ground arith

-- The runs are those of the editor's abort controller.
pub record Alone (c : Controller) (rs : List Run) : Type 0 where
  pub number : length rs ≡ aborter_count c
  pub current : All (λ r. is_current c.job_aborter r.aborter ≡ true) rs

pub HasOneJob : World → Type 0
HasOneJob w = w.store.destroyed ≡ false → Alone w.store w.runs

length-split :
    (before : List Run) (r : Run) (after : List Run)
    → length (before ++ r ∷ after) ≡ suc (length (before ++ after))
length-split [] r after = refl
length-split (x ∷ before) r after = omega (arith, length-split before r after)

nothing-All :
    (o : Option ℕ) (rs : List Run) → length rs ≡ 0 → All (λ r. is_current o r.aborter ≡ true) rs
nothing-All o [] e = tt
nothing-All o (r ∷ rs) e = absurd (omega arith)

same-Alone :
    {c c' : Controller} (rs : List Run) → c'.job_aborter ≡ c.job_aborter → Alone c rs → Alone c' rs
same-Alone {c} {c'} rs e v = record {
  number = ground (arith, v.number, e);
  current = subst (λ (o : Option ℕ). All (λ r. is_current o r.aborter ≡ true) rs) (sym e) v.current;
}

ended-Alone :
    {c c' : Controller} (before after : List Run) (r : Run)
    → c'.job_aborter ≡ (if is_current c.job_aborter r.aborter then none else c.job_aborter)
    → Alone c (before ++ r ∷ after)
    → Alone c' (before ++ after)
ended-Alone {c} {c'} before after r e v =
    let (mine, others) =
      All-split (λ (q : Run). is_current c.job_aborter q.aborter ≡ true) before r after v.current in
    let empty : length (before ++ after) ≡ 0 =
      ground (arith, v.number, length-split before r after, mine) in
    record {
      number = ground (arith, empty, e, mine);
      current = nothing-All c'.job_aborter (before ++ after) empty;
    }

stays-Alone :
    {c c' : Controller} (before after : List Run) (r : Run)
    → c'.job_aborter ≡ c.job_aborter
    → Alone c (before ++ r ∷ after)
    → Alone c' (r ∷ (before ++ after))
stays-Alone {c} {c'} before after r e v =
    let (mine, others) =
      All-split (λ (q : Run). is_current c.job_aborter q.aborter ≡ true) before r after v.current in
    same-Alone {c = c} (r ∷ (before ++ after)) e (record {
      number = ground (arith, v.number, length-split before r after);
      current = (mine, others);
    })

begun-Alone :
    (completion : Completion) (c : Controller) (rs : List Run)
    → Alone c rs
    → Alone (begin_job completion c).0 (with_run (begin_job completion c).1 rs)
unfolding begin_job
begun-Alone completion c rs v =
    Option-split (λ (x : Controller × Option Run). Alone x.0 (with_run x.1 rs)) _ _ c.job_aborter
      (λ e.
        let empty : length rs ≡ 0 = ground (arith, v.number, e) in
        record { number = ground (arith, empty); current = (ground arith, nothing-All _ rs empty) })
      (λ r e. v)

over-Alone :
    {c : Controller} (before after : List Run) (r : Run) (x : Controller × Option Saving)
    → x.0.job_aborter ≡ (
        if is_some x.1
        then c.job_aborter
        else if is_current c.job_aborter r.aborter
        then none
        else c.job_aborter)
    → Alone c (before ++ r ∷ after)
    → Alone x.0 (still_runs x.1 r (before ++ after))
over-Alone before after r (d, none) e v = ended-Alone before after r e v
over-Alone before after r (d, some f) e v = stays-Alone before after r e v

Step-HasOneJob : {w w' : World} → Step w w' → HasOneJob w → HasOneJob w'
unfolding HasOneJob
Step-HasOneJob {w} (command k e) v =
    subst HasOneJob (sym e) (λ d. let (a, b) = run-Steady k w.store d in same-Alone w.runs b (v a))
Step-HasOneJob {w} (launches l e) v =
    subst HasOneJob (sym e)
      (λ d. let s = launch-Steady l w.store in same-Alone w.runs s.aborter (v (sym s.lives ∙ d)))
Step-HasOneJob {w} (resumes before after f reply split e) v = subst HasOneJob (sym e) (λ d.
    let s = resume-Steady f.wait reply f.saving w.store in
    same-Alone w.runs s.aborter (v (sym s.lives ∙ d)))
Step-HasOneJob {w} (begins completion e) v =
    subst HasOneJob (sym e) (λ d.
      begun-Alone completion w.store w.runs (v (sym (begin_job-lives completion w.store) ∙ d)))
Step-HasOneJob {w} (ends before after r job split e) v = subst HasOneJob (sym e) (λ d.
    let (a, b) = job_ended-lives r job w.store in
    over-Alone before after r (job_ended r job w.store) b
      (subst (Alone w.store) split (v (sym a ∙ d))))
Step-HasOneJob {w} (throws before after r f split e) v = subst HasOneJob (sym e) (λ d.
    let (a, b) = job_threw-lives r f w.store in
    ended-Alone before after r b (subst (Alone w.store) split (v (sym a ∙ d))))
Step-HasOneJob {w} (results before after r job split e) v = subst HasOneJob (sym e) (λ d.
    let (a, b) = result_saved-lives r job w.store in
    ended-Alone before after r b (subst (Alone w.store) split (v (sym a ∙ d))))

Reach-HasOneJob : {w w' : World} → Reach w w' → HasOneJob w → HasOneJob w'
Reach-HasOneJob here v = v
Reach-HasOneJob (next r st) v = Step-HasOneJob st (Reach-HasOneJob r v)

-- In every history that begins with no job under way, an editor that is not destroyed runs at most
-- one job, and it runs one exactly while it has an abort controller, which is that job's own.
pub length-Reach :
    {w w' : World}
    → Reach w w'
    → w.runs ≡ []
    → w.store.job_aborter ≡ none
    → w'.store.destroyed ≡ false
    → (length w'.runs ≡ (if is_some w'.store.job_aborter then 1 else 0))
      × All (λ r. is_current w'.store.job_aborter r.aborter ≡ true) w'.runs
unfolding HasOneJob
length-Reach {w} reach e f d =
    let start : Alone w.store w.runs = rw e (record { number = ground arith; current = tt }) in
    let v = Reach-HasOneJob reach (λ _. start) d in (v.number, v.current)
