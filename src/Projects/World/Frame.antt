-- ===== src/Projects/World/Frame.antt =====
-- What an operation of frontend/src/adapters/use-canvas-store.ts leaves alone: the sync objects
-- that run and the references to them.
use canvas_standalone.Prelude.{ℕ, ◌≤◌, ◌<◌, String, Bool, true, false, some, ◌≡◌, refl, arith}
use canvas_standalone.Recovery.{Binding, Snapshot, MediaTask, Kind}
use canvas_standalone.Projects.{Project}
use canvas_standalone.Projects.State.{
  State, Failure, edit, bump, schedule_save, schedule, update_project,
}
use canvas_standalone.Projects.Creation.{
  Creation, Created, begin_creation, created, creation_failed, lookup_failed,
}
use canvas_standalone.Projects.Commands.{rename_project, begin_reload, reload_answered}
use canvas_standalone.Projects.Recoveries.{
  register_recovery, cleanup_fired, finish_recovery, add_binding,
}
use canvas_standalone.Projects.World.Exclusive.{running}
use canvas_standalone.Projects.World.Cases.{
  rename_project_cases, created_cases, register_recovery_cases, cleanup_fired_cases,
}

pub record Frame (s s' : State) : Type 0 where
  pub syncs : s'.syncs ≡ s.syncs
  pub next_object : s'.next_object ≡ s.next_object
  pub runs : (r : ℕ) → running s' r ≡ running s r

-- References point at objects that were made, and an object that was not made does not run.
pub record IsSound (s : State) : Type 0 where
  pub allocated : (id : String) (r : ℕ) → s.syncs id ≡ some r → r < s.next_object
  pub idle_above : (r : ℕ) → s.next_object ≤ r → running s r ≡ 0

pub Frame-IsSound : {s s' : State} → Frame s s' → IsSound s → IsSound s'
Frame-IsSound {s} {s'} f v = record {
  allocated = λ id r e. ground (arith, f.syncs, f.next_object, v.allocated id r);
  idle_above = λ r h. ground (arith, f.next_object, f.runs r, v.idle_above r);
}

pub Frame-refl : (s : State) → Frame s s
Frame-refl s = record { syncs = refl; next_object = refl; runs = λ r. refl }

pub Frame-trans : {s t u : State} → Frame s t → Frame t u → Frame s u
Frame-trans f g = record {
  syncs = cc (f.syncs, g.syncs);
  next_object = cc (f.next_object, g.next_object);
  runs = λ r. cc (f.runs r, g.runs r);
}

bump-Frame : (id : String) (s : State) → Frame s (bump id s)
unfolding bump
bump-Frame id s = record {
  syncs = ground arith;
  next_object = ground arith;
  runs = λ r. ground arith;
}

schedule_save-Frame :
    (id : String) (immediate : Bool) (at : ℕ) (s : State)
    → Frame s (schedule_save id immediate at s)
unfolding schedule_save schedule
schedule_save-Frame id immediate at s = record {
  syncs = ground arith;
  next_object = ground arith;
  runs = λ r. ground arith;
}

pub edit-Frame :
    (id : String) (f : Project → Project) (immediate : Bool) (at : ℕ) (s : State)
    → Frame s (edit id f immediate at s)
unfolding edit
edit-Frame id f immediate at s =
    let start : Frame s (update_project id f s) = record {
      syncs = refl;
      next_object = refl;
      runs = λ r. refl;
    } in
    Frame-trans (Frame-trans start (bump-Frame id _)) (schedule_save-Frame id immediate at _)

pub rename_project-Frame :
    (id title now : String) (at : ℕ) (s : State) → Frame s (rename_project id title now at s)
rename_project-Frame id title now at s =
    rename_project_cases (Frame s) id title now at s (Frame-refl s) (edit-Frame id _ false at s)

pub created-Frame : (c : Creation) (v : Created) (at : ℕ) (s : State) → Frame s (created c v at s).0
created-Frame c v at s =
    created_cases (Frame s) c v at s
      (record { syncs = refl; next_object = refl; runs = λ r. ground arith })
      (record { syncs = refl; next_object = refl; runs = λ r. ground arith })
      (Frame-trans (record { syncs = refl; next_object = refl; runs = λ r. ground arith })
        (schedule_save-Frame c.id true at _))

add_binding-Frame :
    (id : String) (b : Binding) (at : ℕ) (s : State) → Frame s (add_binding id b at s)
unfolding add_binding
add_binding-Frame id b at s =
    Frame-trans (record { syncs = refl; next_object = refl; runs = λ r. refl })
      (edit-Frame id _ true at _)

pub register_recovery-Frame :
    (task : MediaTask) (kind : Kind) (at : ℕ) (s : State)
    → Frame s (register_recovery task kind at s)
register_recovery-Frame task kind at s =
    register_recovery_cases (Frame s) task kind at s (Frame-refl s)
      λ id b. add_binding-Frame id b at s

pub cleanup_fired-Frame :
    (id task : String) (at : ℕ) (s : State) → Frame s (cleanup_fired id task at s)
cleanup_fired-Frame id task at s =
    cleanup_fired_cases (Frame s) id task at s
      (λ ks. record { syncs = refl; next_object = refl; runs = λ r. refl })
      λ ks.
        Frame-trans (record { syncs = refl; next_object = refl; runs = λ r. refl })
          (edit-Frame id _ true at _)

pub finish_recovery-Frame :
    (id : String) (b : Binding) (snapshot : Snapshot) (at : ℕ) (s : State)
    → Frame s (finish_recovery id b snapshot at s)
unfolding finish_recovery
finish_recovery-Frame id b snapshot at s =
    Frame-trans (record { syncs = refl; next_object = refl; runs = λ r. refl })
      (edit-Frame id _ true at _)

pub begin_creation-Frame : (id : String) (r : ℕ) (s : State) → Frame s (begin_creation id r s).0
unfolding begin_creation
begin_creation-Frame id r s = record {
  syncs = ground arith;
  next_object = ground arith;
  runs = λ k. ground arith;
}

pub creation_failed-Frame :
    (c : Creation) (e : Failure) (s : State) → Frame s (creation_failed c e s)
unfolding creation_failed
creation_failed-Frame c e s = record {
  syncs = ground arith;
  next_object = ground arith;
  runs = λ k. ground arith;
}

pub lookup_failed-Frame :
    (id : String) (r : ℕ) (e : Failure) (s : State) → Frame s (lookup_failed id r e s).0
unfolding lookup_failed begin_creation
lookup_failed-Frame id r e s = record {
  syncs = ground arith;
  next_object = ground arith;
  runs = λ k. ground arith;
}

pub begin_reload-Frame : (id : String) (s : State) → Frame s (begin_reload id s).0
unfolding begin_reload
begin_reload-Frame id s = record {
  syncs = ground arith;
  next_object = ground arith;
  runs = λ k. ground arith;
}

pub reload_answered-Frame :
    (id : String) (r version : ℕ) (s : State) → Frame s (reload_answered id r version s).0
unfolding reload_answered
reload_answered-Frame id r version s = record {
  syncs = ground arith;
  next_object = ground arith;
  runs = λ k. ground arith;
}
