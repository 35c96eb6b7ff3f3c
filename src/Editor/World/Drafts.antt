-- ===== src/Editor/World/Drafts.antt =====
-- The drafts of frontend/src/editor/image-editor-controller.ts over all histories of an editor.
use canvas_standalone.Prelude.{
  true, Option, none, some, List, [], ◌∷◌, ◌++◌, ◌≡◌, ◌⊎◌, inl, inr, refl, arith, All, All-split,
  Bool-cases, sym, subst,
}
use mathlib.Core.Option.{some-injective}
use canvas_standalone.Editor.{Answer, Controller}
use canvas_standalone.Editor.Saves.{Saving, saved, conflicted, is_changed}
use canvas_standalone.Editor.Jobs.{Run}
use canvas_standalone.Editor.World.{
  World, Flight, Wait, answer, copy, Command, run, Launch, launch, Reply, answered, failed,
  conflicts, refreshed, resume, with_saving, with_flight, Step, Reach, here, next, command,
  launches, resumes, begins, ends, throws, results, hydrate_begins, hydrates, hydrate_fails,
  reload_begins, updates, upload_begins, upload_fails, clears, job_updates, cancels, cancel_answers,
  cancel_fails, destroys, saves, retries, selects, uploads,
}
use canvas_standalone.Editor.World.Moves.{
  IsSound, Moves, IsHeld, Moves-IsHeld, Moves-trans, same-Moves, shows_saved, loaded_draft,
}
use canvas_standalone.Editor.World.Storing.{
  Starts, idle-Moves, save-Starts, saved-Moves, save_failed-Moves, conflict_refreshed-Moves,
}
use canvas_standalone.Editor.World.Drafting.{
  retry_save-Starts, begin_hydrate-Moves, hydrated-Moves, hydrate_failed-Moves, clear_error-Moves,
  begin_reload-Moves, begin_upload-Moves, upload_failed-Moves, update_draft-Moves,
  select_revision-Starts, uploaded-Starts,
}
use canvas_standalone.Editor.World.Running.{
  begin_job-Moves, job_updated-Moves, result_saved-Moves, job_threw-Moves, cancel_job-Moves,
  cancel_answered-Moves, cancel_failed-Moves, destroy-Moves, job_ended-Starts,
}

run-Moves : (k : Command) (c : Controller) → IsSound c → Moves c (run k c)
unfolding run
run-Moves hydrate_begins c v = begin_hydrate-Moves c v
run-Moves (hydrates a) c v = hydrated-Moves a c v
run-Moves (hydrate_fails e fallback) c v = hydrate_failed-Moves e fallback c v
run-Moves reload_begins c v = begin_reload-Moves c v
run-Moves (updates f) c v = update_draft-Moves f c v
run-Moves upload_begins c v = begin_upload-Moves c v
run-Moves (upload_fails e) c v = upload_failed-Moves e c v
run-Moves clears c v = clear_error-Moves c v
run-Moves (job_updates job) c v = job_updated-Moves job c v
run-Moves cancels c v = cancel_job-Moves c v
run-Moves (cancel_answers job) c v = cancel_answered-Moves job c v
run-Moves (cancel_fails e) c v = cancel_failed-Moves e c v
run-Moves destroys c v = destroy-Moves c v

launch-Starts : (l : Launch) (c : Controller) → IsSound c → Starts c (launch l c)
unfolding launch
launch-Starts (saves options) c v = save-Starts options c v
launch-Starts retries c v = retry_save-Starts c v
launch-Starts (selects id) c v = select_revision-Starts id c v
launch-Starts (uploads asset options) c v = uploaded-Starts asset options c v

-- A save that goes on, or ends.
record Resumes (c : Controller) (x : Controller × Option Flight) : Type 0 where
  moves : Moves c x.0
  held : (g : Flight) → x.1 ≡ some g → IsHeld x.0 g.saving

over : {c d : Controller} → Moves c d → Resumes c (d, none)
over m = record { moves = m; held = λ g e. absurd (ground arith) }

waits :
    (f : Saving) (w : Wait) (c d : Controller)
    → Moves c d
    → IsHeld d f
    → Resumes c (d, some (record { saving = f; wait = w }))
waits f w c d m h = record {
  moves = m;
  held = λ g e. subst (λ (k : Flight). IsHeld d k.saving) (some-injective _ _ e) h;
}

resume-Resumes :
    (w : Wait) (reply : Reply) (f : Saving) (c : Controller)
    → IsSound c
    → IsHeld c f
    → Resumes c (resume w reply f c)
unfolding resume conflicted
resume-Resumes answer (answered a) f c v h = over (saved-Moves f a c v)
resume-Resumes answer (failed e) f c v h = over (save_failed-Moves f e c v h.made)
resume-Resumes answer (conflicts e) f c v h =
    let m : Moves c (record c { retained = some f.options }) =
      same-Moves v refl refl refl (λ d. d) in
    waits f (copy e c.view.document) c _ m (Moves-IsHeld f m h)
resume-Resumes answer (refreshed a) f c v h = waits f answer c c (idle-Moves c v) h
resume-Resumes (copy e latest) (refreshed a) f c v h =
    over (conflict_refreshed-Moves f e latest a c v h.made)
resume-Resumes (copy e latest) (answered a) f c v h = waits f _ c c (idle-Moves c v) h
resume-Resumes (copy e latest) (failed g) f c v h = waits f _ c c (idle-Moves c v) h
resume-Resumes (copy e latest) (conflicts g) f c v h = waits f _ c c (idle-Moves c v) h

-- Every save in flight holds what it sent.
pub record IsTracked (w : World) : Type 0 where
  pub sound : IsSound w.store
  pub held : All (λ f. IsHeld w.store f.saving) w.saves

All-IsHeld :
    {c d : Controller} (fs : List Flight)
    → Moves c d
    → All (λ f. IsHeld c f.saving) fs
    → All (λ f. IsHeld d f.saving) fs
All-IsHeld [] m h = tt
All-IsHeld (f ∷ fs) m h = (Moves-IsHeld f.saving m h.0, All-IsHeld fs m h.1)

with_saving-IsHeld :
    {d : Controller} (o : Option Saving) (fs : List Flight)
    → ((f : Saving) → o ≡ some f → IsHeld d f)
    → All (λ f. IsHeld d f.saving) fs
    → All (λ f. IsHeld d f.saving) (with_saving o fs)
with_saving-IsHeld none fs g h = h
with_saving-IsHeld (some f) fs g h = (g f refl, h)

with_flight-IsHeld :
    {d : Controller} (o : Option Flight) (fs : List Flight)
    → ((f : Flight) → o ≡ some f → IsHeld d f.saving)
    → All (λ f. IsHeld d f.saving) fs
    → All (λ f. IsHeld d f.saving) (with_flight o fs)
with_flight-IsHeld none fs g h = h
with_flight-IsHeld (some f) fs g h = (g f refl, h)

-- What a step leaves.
record Follows (w w' : World) : Type 0 where
  moves : Moves w.store w'.store
  held : All (λ f. IsHeld w'.store f.saving) w'.saves

Moves-Follows :
    (w w' : World) → w'.saves ≡ w.saves → IsTracked w → Moves w.store w'.store → Follows w w'
Moves-Follows w w' e v m = record { moves = m; held = rw e (All-IsHeld w.saves m v.held) }

Starts-Follows :
    (w : World) (x : Controller × Option Saving) (rs : List Run)
    → IsTracked w
    → Starts w.store x
    → Follows w (record { store = x.0; saves = with_saving x.1 w.saves; runs = rs })
Starts-Follows w x rs v g = record {
  moves = g.moves;
  held = with_saving-IsHeld x.1 w.saves g.held (All-IsHeld w.saves g.moves v.held);
}

Step-Follows : {w w' : World} → Step w w' → IsTracked w → Follows w w'
Step-Follows {w} (command k e) v =
    subst (Follows w) (sym e) (Moves-Follows w _ refl v (run-Moves k w.store v.sound))
Step-Follows {w} (launches l e) v =
    subst (Follows w) (sym e)
      (Starts-Follows w (launch l w.store) w.runs v (launch-Starts l w.store v.sound))
Step-Follows {w} (resumes before after f reply split e) v =
    let (mine, others) =
      All-split (λ (g : Flight). IsHeld w.store g.saving) before f after
        (subst (All (λ (g : Flight). IsHeld w.store g.saving)) split v.held) in
    let g = resume-Resumes f.wait reply f.saving w.store v.sound mine in
    subst (Follows w) (sym e) (record {
      moves = g.moves;
      held =
          with_flight-IsHeld _ (before ++ after) g.held
            (All-IsHeld (before ++ after) g.moves others);
    })
Step-Follows {w} (begins completion e) v =
    subst (Follows w) (sym e)
      (Moves-Follows w _ refl v (begin_job-Moves completion w.store v.sound))
Step-Follows {w} (ends before after r job split e) v =
    subst (Follows w) (sym e) (Starts-Follows w _ _ v (job_ended-Starts r job w.store v.sound))
Step-Follows {w} (throws before after r f split e) v =
    subst (Follows w) (sym e) (Moves-Follows w _ refl v (job_threw-Moves r f w.store v.sound))
Step-Follows {w} (results before after r job split e) v =
    subst (Follows w) (sym e) (Moves-Follows w _ refl v (result_saved-Moves r job w.store v.sound))

Reach-Follows : {w w' : World} → Reach w w' → IsTracked w → Follows w w'
Reach-Follows {w} here v = record { moves = idle-Moves w.store v.sound; held = v.held }
Reach-Follows (next r st) v =
    let f = Reach-Follows r v in
    let g = Step-Follows st (record { sound = f.moves.sound; held = f.held }) in
    record { moves = Moves-trans f.moves g.moves; held = g.held }

-- Whatever happens to an editor, and in whatever order: the answer to a save in flight leaves the
-- draft as it is, or that draft is the very object that was sent, with the content that was sent.
pub saved-draft :
    {w w' : World} (before after : List Flight) (f : Flight) (a : Answer)
    → Reach w w'
    → IsTracked w
    → w'.saves ≡ before ++ f ∷ after
    → ((saved f.saving a w'.store).view.draft ≡ w'.store.view.draft)
      ⊎ ((w'.store.view.draft ≡ some f.saving.draft)
          × (w'.store.objects f.saving.draft ≡ f.saving.sent))
unfolding saved
saved-draft {w} {w'} before after f a reach v split =
    let held = (Reach-Follows reach v).held in
    let (mine, _) =
      All-split (λ (g : Flight). IsHeld w'.store g.saving) before f after
        (subst (All (λ (g : Flight). IsHeld w'.store g.saving)) split held) in
    elim (Bool-cases (is_changed w'.store.view.draft f.saving.draft)) [
      | inl e ↦ inl (ground arith)
      | inr e ↦ inr (ground arith, mine.same)
    ]

-- An editor that shows its state as saved shows the draft of the document that the server gave.
pub Reach-shows_saved :
    {w w' : World}
    → Reach w w'
    → IsTracked w
    → shows_saved w'.store.view.save_state ≡ true
    → w'.store.view.draft ≡ loaded_draft w'.store.view.document
Reach-shows_saved reach v = (Reach-Follows reach v).moves.sound.honest

-- After an editor is destroyed nothing that still comes in changes what it shows.
pub Reach-destroyed :
    {w w' : World}
    → Reach w w'
    → IsTracked w
    → w.store.destroyed ≡ true
    → w'.store.view ≡ w.store.view
Reach-destroyed reach v d = ((Reach-Follows reach v).moves.frozen d).1
