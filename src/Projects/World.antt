-- ===== src/Projects/World.antt =====
-- The store of frontend/src/adapters/use-canvas-store.ts with the saves in flight, and what can happen
-- to the two. A save is held from its start to its `finally`. The other operations that wait
-- (creations, lookups, deletions) may go on at any time and with any answer. A reload is answered and
-- ends only while no save of its object is in flight, and the first load, the reset and
-- `replaceProjects` are no steps; SingleSave has all of these but the first load.
pub mod Following
pub mod Forgetting
pub mod Flights
pub mod Exclusive
pub mod Cases
pub mod Frame
pub mod Soundness
pub mod SingleSave
pub mod Advance
pub mod Current
pub mod Progress
pub mod NoLostUpdate
use canvas_standalone.Prelude.{
  ℕ, suc, ◌+◌, String, Bool, true, false, Option, none, some, List, [], ◌∷◌, ◌++◌, if◌then◌else◌,
  nat_eq, ◌≡◌, ◌<◌,
}
use canvas_standalone.Recovery.{Binding, Snapshot, MediaTask, Kind}
use canvas_standalone.Projects.{Project, Patch, due_in}
use canvas_standalone.Projects.State.{State, Failure}
use canvas_standalone.Projects.Saving.{
  Flight, Stage, waiting, sent, clearing, Updated, persist, send, accepted, draft_removed,
  fail_flight,
}
use canvas_standalone.Projects.Creation.{
  Source, Creation, Created, create_optimistic, begin_creation, created, creation_saved,
  creation_failed, retry_creation, found_on_server, lookup_failed,
}
use canvas_standalone.Projects.Commands.{
  open_project, rename_project, patch_project, flush_project, retry_project, Retry, ignored,
  looks_up, saves, timer_fired, begin_reload, reload_answered, reload_finished, reload_failed,
  save_as_new, reset,
}
use canvas_standalone.Projects.Deletion.{Deletion, delete_projects, deleted, deletion_failed}
use canvas_standalone.Projects.Recoveries.{register_recovery, cleanup_fired, finish_recovery}

pub record World : Type 0 where
  pub store : State
  pub flights : List Flight

-- What an awaited promise gives.
pub data Reply : Type 0 where
  done : Reply
  answer : Updated → Reply
  broken : Failure → Reply

-- A flight goes on from where it waits; a reply that its promise cannot give changes nothing.
unfoldable pub resume : Stage → Reply → Flight → State → State × Option Flight
resume waiting done f s = send f s
resume waiting (broken e) f s = fail_flight f e s
resume (sent sequence version title document) (answer u) f s = accepted f sequence u s
resume (sent sequence version title document) (broken e) f s = fail_flight f e s
resume clearing done f s = draft_removed f s
resume clearing (broken e) f s = fail_flight f e s
resume _ _ f s = (s, some f)

-- The operations that start no save. Times and fresh identifiers are arguments.
pub data Command : Type 0 where
  opens : String → Command
  creates : String → Source → Option String → String → String → Command
  copies : String → String → Option String → String → String → String → Command
  renames : String → String → String → ℕ → Command
  patches : String → Patch → String → ℕ → Command
  deletes : List String → Command
  created_at_server : Creation → Created → ℕ → Command
  creation_settles : Creation → Command
  creation_fails : Creation → Failure → Command
  lookup_fails : String → ℕ → Failure → Command
  deletion_done : Deletion → Command
  deletion_fails : Deletion → Failure → Command
  reload_fails : String → Failure → Command
  reload_begins : String → Command
  registers : MediaTask → Kind → ℕ → Command
  cleans_up : String → String → ℕ → Command
  finishes : String → Binding → Snapshot → ℕ → Command

unfoldable pub run : Command → State → State
run (opens id) s = (open_project id s).0
run (creates id source title untitled now) s = (create_optimistic id source title untitled now s).0
run (copies id fresh title suffix untitled now) s =
    (save_as_new id fresh title suffix untitled now s).0
run (renames id title now at) s = rename_project id title now at s
run (patches id patch now at) s = patch_project id patch now at s
run (deletes ids) s = (delete_projects ids s).0
run (created_at_server c v at) s = (created c v at s).0
run (creation_settles c) s = creation_saved c s
run (creation_fails c e) s = creation_failed c e s
run (lookup_fails id r e) s = (lookup_failed id r e s).0
run (deletion_done d) s = deleted d s
run (deletion_fails d e) s = deletion_failed d e s
run (reload_fails id e) s = reload_failed id e s
run (reload_begins id) s = (begin_reload id s).0
run (registers task kind at) s = register_recovery task kind at s
run (cleans_up id task at) s = cleanup_fired id task at s
run (finishes id b snapshot at) s = finish_recovery id b snapshot at s

-- The operations that can start a save.
pub data Launch : Type 0 where
  timer : String → ℕ → Launch
  flush : String → Launch
  retry : String → Launch
  lookup_found : String → ℕ → Created → Launch

abbrev pub retried : State → Retry → State × Option Flight
retried s ignored = (s, none)
retried s (looks_up r s') = (s', none)
retried s (saves x) = x

unfoldable pub launch : Launch → State → State × Option Flight
launch (timer id r) s = timer_fired id r s
launch (flush id) s = flush_project id s
launch (retry id) s = retried s (retry_project id s)
launch (lookup_found id r v) s = found_on_server id r v s

abbrev pub with_flight : State × Option Flight → List Flight → World
with_flight (s, none) fs = record { store = s; flights = fs }
with_flight (s, some f) fs = record { store = s; flights = f ∷ fs }

-- The steps, but for `replaceProjects` and the reset, which put other projects in place at once. Of a
-- reload, `reloads` is its answer and `reload_ends` its end, both where no save of the project is
-- in flight. The table of aliases stays as it is.
pub data Step (w w' : World) : Type 0 where
  command : (c : Command) → w' ≡ record w { store = run c w.store } → Step w w'
  launches : (l : Launch) → w' ≡ with_flight (launch l w.store) w.flights → Step w w'
  resumes :
      (before after : List Flight) (f : Flight) (reply : Reply)
      → w.flights ≡ before ++ f ∷ after
      → w' ≡ with_flight (resume f.stage reply f w.store) (before ++ after)
      → Step w w'
  reloads :
      (id : String) (r version : ℕ)
      → (w.store.objects r).saving ≡ false
      → w' ≡ record w { store = (reload_answered id r version w.store).0 }
      → Step w w'
  reload_ends :
      (id : String) (r : ℕ) (p : Project)
      → w.store.syncs id ≡ some r
      → (w.store.objects r).saving ≡ false
      → p.id ≡ id
      → w' ≡ record w { store = reload_finished id p w.store }
      → Step w w'

pub data Reach (w : World) : World → Type 0 where
  here : Reach w w
  next : {u v : World} → Reach w u → Step u v → Reach w v
