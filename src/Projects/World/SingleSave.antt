-- ===== src/Projects/World/SingleSave.antt =====
-- The saves in flight of one sync object of frontend/src/adapters/use-canvas-store.ts.
use canvas_standalone.Prelude.{
  ℕ, ◌+◌, ◌≤◌, true, Option, none, some, List, [], ◌∷◌, ◌++◌, ◌≡◌, refl, arith, ap, sym, ◌∙◌, ◌↔◌,
  String,
}
use canvas_standalone.Projects.{Project}
use canvas_standalone.Projects.State.{State}
use canvas_standalone.Projects.Saving.{Flight}
use canvas_standalone.Projects.Commands.{reload_answered, reload_finished, replace_projects, reset}
use canvas_standalone.Projects.World.{
  World, Reply, resume, with_flight, Step, command, launches, resumes, reloads, reload_ends,
}
use canvas_standalone.Projects.World.Exclusive.{running, own, weight, count}
use canvas_standalone.Projects.World.Frame.{IsSound, Frame-IsSound, reload_answered-Frame}
use canvas_standalone.Projects.World.Soundness.{run-Kept}
use canvas_standalone.Projects.World.Flights.{resume-Goes, launch-Started}

-- The references are sound, and an object runs exactly while one flight, and no more, is its own.
pub record IsExclusive (w : World) : Type 0 where
  pub sound : IsSound w.store
  pub counted : (r : ℕ) → count r w.flights ≡ running w.store r

pub count-append :
    (r : ℕ) (xs : List Flight) (f : Flight) (ys : List Flight)
    → count r (xs ++ f ∷ ys) ≡ own f r + count r (xs ++ ys)
count-append r [] f ys = refl
count-append r (x ∷ xs) f ys = omega (arith, count-append r xs f ys)

with_flight-IsExclusive :
    (x : State × Option Flight) (fs : List Flight)
    → IsSound x.0
    → ((r : ℕ) → weight x.1 r + count r fs ≡ running x.0 r)
    → IsExclusive (with_flight x fs)
with_flight-IsExclusive (s, none) fs v h = record { sound = v; counted = λ r. omega (arith, h r) }
with_flight-IsExclusive (s, some f) fs v h = record { sound = v; counted = h }

running-le-one : (s : State) (r : ℕ) → running s r ≤ 1
running-le-one s r = ground arith

resumes-IsExclusive :
    (w : World) (before after : List Flight) (f : Flight) (reply : Reply)
    → w.flights ≡ before ++ f ∷ after
    → IsExclusive w
    → IsExclusive (with_flight (resume f.stage reply f w.store) (before ++ after))
resumes-IsExclusive w before after f reply e v =
    let counted : (r : ℕ) → own f r + count r (before ++ after) ≡ running w.store r =
      λ r. sym (count-append r before f after) ∙ (ap (count r) (sym e) ∙ v.counted r) in
    let runs : running w.store f.object ≡ 1 =
      ground (arith, counted f.object, running-le-one w.store f.object) in
    let g = resume-Goes f.stage reply f w.store v.sound runs in
    with_flight-IsExclusive _ _ g.sound λ r. omega (arith, g.runs r, counted r)

-- Every step keeps it.
pub Step-IsExclusive : {w w' : World} → Step w w' → IsExclusive w → IsExclusive w'
unfolding reload_finished
Step-IsExclusive {w} (command c e) v =
    let k = run-Kept c w.store v.sound in
    rw e (record { sound = k.sound; counted = λ r. omega (arith, v.counted r, k.runs r) })
Step-IsExclusive {w} (launches l e) v =
    let k = launch-Started l w.store v.sound in
    rw e (with_flight-IsExclusive _ _ k.sound λ r. omega (arith, v.counted r, k.runs r))
Step-IsExclusive {w} (resumes before after f reply split e) v =
    rw e (resumes-IsExclusive w before after f reply split v)
Step-IsExclusive {w} (reloads id r version idle e) v =
    let k = reload_answered-Frame id r version w.store in
    rw e (record {
      sound = Frame-IsSound k v.sound;
      counted = λ j. omega (arith, v.counted j, k.runs j);
    })
Step-IsExclusive {w} (reload_ends id r p found idle same e) v = rw e (record {
  sound = Frame-IsSound (record { syncs = refl; next_object = refl; runs = λ k. refl }) v.sound;
  counted = λ j. v.counted j;
})

-- The steps, with a reload that is answered and ends at any time, and with `replaceProjects` and the
-- reset. Only the first load is left out.
pub data AnyStep (w w' : World) : Type 0 where
  usual : Step w w' → AnyStep w w'
  answers :
      (id : String) (r version : ℕ)
      → w' ≡ record w { store = (reload_answered id r version w.store).0 }
      → AnyStep w w'
  ends :
      (id : String) (p : Project)
      → w' ≡ record w { store = reload_finished id p w.store }
      → AnyStep w w'
  replaces :
      (ps : List Project) → w' ≡ record w { store = replace_projects ps w.store } → AnyStep w w'
  resets : w' ≡ record w { store = reset w.store } → AnyStep w w'

pub data AnyReach (w : World) : World → Type 0 where
  start_here : AnyReach w w
  then_step : {u v : World} → AnyReach w u → AnyStep u v → AnyReach w v

-- A store that runs what another one runs, and whose references were made.
same_runs :
    (w : World) (s : State)
    → IsSound s
    → ((r : ℕ) → running s r ≡ running w.store r)
    → IsExclusive w
    → IsExclusive (record w { store = s })
same_runs w s v h e = record { sound = v; counted = λ r. omega (arith, h r, e.counted r) }

reset-IsSound : (s : State) → IsSound s → IsSound (reset s)
unfolding reset
reset-IsSound s v = record { allocated = λ id r e. absurd cc; idle_above = v.idle_above }

AnyStep-IsExclusive : {w w' : World} → AnyStep w w' → IsExclusive w → IsExclusive w'
unfolding reload_finished replace_projects reset
AnyStep-IsExclusive (usual st) v = Step-IsExclusive st v
AnyStep-IsExclusive {w} (answers id r version e) v =
    let k = reload_answered-Frame id r version w.store in
    rw e (same_runs w _ (Frame-IsSound k v.sound) (λ j. omega (arith, k.runs j)) v)
AnyStep-IsExclusive {w} (ends id p e) v = rw e (
    same_runs w _
      (Frame-IsSound (record { syncs = refl; next_object = refl; runs = λ k. refl }) v.sound)
      (λ j. refl) v)
AnyStep-IsExclusive {w} (replaces ps e) v = rw e (
    same_runs w _
      (Frame-IsSound (record { syncs = refl; next_object = refl; runs = λ k. refl }) v.sound)
      (λ j. refl) v)
AnyStep-IsExclusive {w} (resets e) v =
    rw e (same_runs w (reset w.store) (reset-IsSound w.store v.sound) (λ j. refl) v)

AnyReach-IsExclusive : {w w' : World} → AnyReach w w' → IsExclusive w → IsExclusive w'
AnyReach-IsExclusive start_here v = v
AnyReach-IsExclusive (then_step r st) v = AnyStep-IsExclusive st (AnyReach-IsExclusive r v)

-- In every history of operations, timers and answers after the first load, in whatever order, with
-- replaced projects and resets too: where the sync objects that the projects have were made, and each
-- runs at the start exactly while one save in flight is its own, an object never has two saves in
-- flight, and it has one exactly while its `saving` flag is set.
pub count-AnyReach :
    {w w' : World}
    → AnyReach w w'
    → IsExclusive w
    → (r : ℕ)
    → (count r w'.flights ≤ 1) × (count r w'.flights ≡ 1 ↔ (w'.store.objects r).saving ≡ true)
count-AnyReach {w} {w'} reach v r = ground (arith, (AnyReach-IsExclusive reach v).counted r)
