-- ===== src/Projects/World/NoLostUpdate.antt =====
-- The saves in flight of frontend/src/adapters/use-canvas-store.ts over histories, and a save that
-- ends.
use canvas_standalone.Prelude.{
  All-split, ℕ, ◌<◌, String, Bool, true, false, not, Option, none, some, List, [], ◌∷◌, ◌++◌,
  nat_eq, ◌≡◌, refl, arith, Bool-cases, inl, inr, ap, sym, ◌∙◌, eq_iff, ◌==◌, All, find_by,
  update_by, subst,
}
use canvas_standalone.Json.{Value}
use canvas_standalone.Projects.{Project}
use canvas_standalone.Projects.Document.{project_document}
use canvas_standalone.Projects.State.{State, project_of, project_key}
use canvas_standalone.Projects.Saving.{Flight, sent}
use canvas_standalone.Projects.Commands.{reload_answered, reload_finished}
use canvas_standalone.Projects.World.{
  World, resume, launch, with_flight, Step, command, launches, resumes, reloads, reload_ends, Reach,
  here, next,
}
use canvas_standalone.Projects.World.Exclusive.{running, count}
use canvas_standalone.Projects.World.SingleSave.{IsExclusive, Step-IsExclusive, count-append}
use canvas_standalone.Projects.World.Progress.{run-Advances}
use canvas_standalone.Projects.World.Advance.{sequence_of, Advances}
use canvas_standalone.Projects.World.Current.{
  IsCurrent, StageIsCurrent, Advances-StageIsCurrent, OptionIsCurrent,
}
use canvas_standalone.Projects.World.Following.{launch-Follows, resume-Follows, Follows}

abbrev pub FlightIsCurrent : State → Flight → Type 0
FlightIsCurrent s f = StageIsCurrent s f.id f.object f.stage

pub record IsTracked (w : World) : Type 0 where
  pub exclusive : IsExclusive w
  pub current : All (FlightIsCurrent w.store) w.flights

always : ℕ → Bool
always r = true

abbrev but : ℕ → ℕ → Bool
but r k = not (nat_eq k r)

All-always : (fs : List Flight) → All (λ f. always f.object ≡ true) fs
unfolding always
All-always [] = tt
All-always (f ∷ fs) = (refl, All-always fs)

All-but : (r : ℕ) (fs : List Flight) → count r fs ≡ 0 → All (λ f. but r f.object ≡ true) fs
All-but r [] h = tt
All-but r (f ∷ fs) h = (ground arith, All-but r fs (omega arith))

All-current :
    {live : ℕ → Bool} {s t : State} (fs : List Flight)
    → Advances live s t
    → All (λ f. live f.object ≡ true) fs
    → All (FlightIsCurrent s) fs
    → All (FlightIsCurrent t) fs
All-current [] a l c = tt
All-current (f ∷ fs) a l c =
    (Advances-StageIsCurrent f.id f.object f.stage a l.0 c.0, All-current fs a l.1 c.1)

with_flight-current :
    (x : State × Option Flight) (fs : List Flight)
    → OptionIsCurrent x.0 x.1
    → All (FlightIsCurrent x.0) fs
    → All (FlightIsCurrent (with_flight x fs).store) (with_flight x fs).flights
with_flight-current (s, none) fs o h = h
with_flight-current (s, some f) fs o h = (o, h)

-- An object that runs was made.
running-made :
    (w : World) (before after : List Flight) (f : Flight)
    → IsExclusive w
    → w.flights ≡ before ++ f ∷ after
    → f.object < w.store.next_object
running-made w before after f v e =
    let total : count f.object (before ++ f ∷ after) ≡ running w.store f.object =
      ap (count f.object) (sym e) ∙ v.counted f.object in
    ground (arith, count-append f.object before f after, v.sound.idle_above f.object)

reload_answered-Advances :
    (id : String) (r version : ℕ) (s : State)
    → Advances (but r) s (reload_answered id r version s).0
unfolding reload_answered
reload_answered-Advances id r version s = record {
  aliases = ground arith;
  made = ground arith;
  counted = λ k l h. ground arith;
  kept = λ j k h e. ground arith;
  unchanged = λ j k p l h e same found. (p, ground arith, refl);
}

replace_elsewhere :
    (id j : String) (p : Project) (ps : List Project)
    → p.id ≡ id
    → (id == j) ≡ false
    → find_by project_key j (update_by project_key id (λ _. p) ps) ≡ find_by project_key j ps
replace_elsewhere id j p [] e o = refl
replace_elsewhere id j p (q ∷ ps) e o =
    ground (arith, eq_iff q.id id, replace_elsewhere id j p ps e o)

reload_finished-Advances :
    (id : String) (r : ℕ) (p : Project) (s : State)
    → s.syncs id ≡ some r
    → p.id ≡ id
    → Advances (but r) s (reload_finished id p s)
unfolding reload_finished
reload_finished-Advances id r p s at same_id = record {
  aliases = refl;
  made = omega arith;
  counted = λ k l h. omega arith;
  kept = λ j k h e. e;
  unchanged = λ j k q l h e same found. elim (Bool-cases (id == j)) [
    | inl i ↦ absurd (ground (arith, eq_iff id j))
    | inr o ↦ (q, replace_elsewhere id j p s.projects same_id o ∙ found, refl)
  ];
}

idle_count :
    {w : World} (r : ℕ) → IsExclusive w → (w.store.objects r).saving ≡ false → count r w.flights ≡ 0
idle_count r v idle = ground (arith, v.counted r)

Step-current : {w w' : World} → Step w w' → IsTracked w → All (FlightIsCurrent w'.store) w'.flights
Step-current {w} (command c e) v =
    rw e (All-current w.flights (run-Advances c w.store) (All-always w.flights) v.current)
Step-current {w} (launches l e) v =
    let g : Follows always w.store (launch l w.store) = launch-Follows l w.store in
    rw e (
      with_flight-current _ w.flights g.current
        (All-current w.flights g.advances (All-always w.flights) v.current))
Step-current {w} (resumes before after f reply split e) v =
    let (mine, others) =
      All-split (FlightIsCurrent w.store) before f after (rw (← split) v.current) in
    let g : Follows always w.store (resume f.stage reply f w.store) =
      resume-Follows f.stage reply f w.store (running-made w before after f v.exclusive split)
        mine in
    rw e (
      with_flight-current _ (before ++ after) g.current
        (All-current (before ++ after) g.advances (All-always (before ++ after)) others))
Step-current {w} (reloads id r version idle e) v = rw e (
    All-current w.flights (reload_answered-Advances id r version w.store)
      (All-but r w.flights (idle_count r v.exclusive idle)) v.current)
Step-current {w} (reload_ends id r p found idle same e) v = rw e (
    All-current w.flights (reload_finished-Advances id r p w.store found same)
      (All-but r w.flights (idle_count r v.exclusive idle)) v.current)

pub Reach-IsTracked : {w w' : World} → Reach w w' → IsTracked w → IsTracked w'
Reach-IsTracked here v = v
Reach-IsTracked (next r st) v =
    let u = Reach-IsTracked r v in
    record { exclusive = Step-IsExclusive st u.exclusive; current = Step-current st u }

-- In a history with no reset, no replaced projects, no first load and no new alias, in which a reload
-- is answered only while its sync object has no save in flight and puts the server's project in place
-- only while that object is still the project's and has no save in flight, and from a world in which
-- each object runs exactly while one save in flight is its own and each of these saves is current: a
-- save whose answer comes back while its sync object is still the project's, and counts what it
-- counted when the save was sent, has stored the very document that the project has now.
pub accepted-saves :
    {w w' : World} (before after : List Flight) (f : Flight) (sequence version : ℕ) (title : String)
    (document : Value)
    → Reach w w'
    → IsTracked w
    → w'.flights ≡ before ++ f ∷ after
    → f.stage ≡ sent sequence version title document
    → w'.store.syncs f.id ≡ some f.object
    → sequence_of w'.store f.object ≡ sequence
    → (p : Project) × (project_of f.id w'.store ≡ some p)
      × (project_document w'.store.aliases p ≡ document)
accepted-saves {w} {w'} before after f sequence version title document reach v split stage own_sync
      same =
    let tracked = (Reach-IsTracked reach v).current in
    let (mine, _) = All-split (FlightIsCurrent w'.store) before f after (rw (← split) tracked) in
    let c : IsCurrent w'.store f.id f.object sequence document =
      subst (StageIsCurrent w'.store f.id f.object) stage mine in
    c.matches own_sync same
