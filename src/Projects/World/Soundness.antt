-- ===== src/Projects/World/Soundness.antt =====
-- The references into the sync objects of frontend/src/adapters/use-canvas-store.ts after each
-- operation.
use canvas_standalone.Prelude.{
  ℕ, String, false, Option, List, [], ◌∷◌, ◌≡◌, refl, arith, Option-cases, inl, inr, ◌∙◌,
}
use canvas_standalone.Projects.{Sync}
use canvas_standalone.Projects.State.{State, Failure, project_of}
use canvas_standalone.Projects.Creation.{
  add_object, create_optimistic, Source, new_sync, creation_saved,
}
use canvas_standalone.Projects.Commands.{open_project, patch_project, reload_failed, save_as_new}
use canvas_standalone.Projects.Deletion.{
  Deletion, delete_projects, forget, forget_all, deleted, deletion_failed, restored_sync,
  bring_back,
}
use canvas_standalone.Projects.World.{
  Command, run, opens, creates, copies, renames, patches, deletes, created_at_server,
  creation_settles, creation_fails, lookup_fails, deletion_done, deletion_fails, reload_fails,
  reload_begins, registers, cleans_up, finishes,
}
use canvas_standalone.Projects.World.Exclusive.{running}
use canvas_standalone.Projects.World.Frame.{
  Frame, IsSound, Frame-IsSound, edit-Frame, rename_project-Frame, created-Frame,
  creation_failed-Frame, lookup_failed-Frame, begin_reload-Frame, register_recovery-Frame,
  cleanup_fired-Frame, finish_recovery-Frame, begin_creation-Frame,
}

-- The new state is sound, and the same objects run.
pub record Kept (s s' : State) : Type 0 where
  pub sound : IsSound s'
  pub runs : (r : ℕ) → running s' r ≡ running s r

Frame-Kept : {s s' : State} → IsSound s → Frame s s' → Kept s s'
Frame-Kept v f = record { sound = Frame-IsSound f v; runs = f.runs }

Kept-trans : {s t u : State} → Kept s t → Kept t u → Kept s u
Kept-trans f g = record { sound = g.sound; runs = λ r. g.runs r ∙ f.runs r }

same-Kept :
    {s s' : State}
    → IsSound s
    → s'.syncs ≡ s.syncs
    → s'.next_object ≡ s.next_object
    → s'.objects ≡ s.objects
    → Kept s s'
same-Kept v a b c = Frame-Kept v (record { syncs = a; next_object = b; runs = λ r. rw c refl })

add_object-Kept :
    (id : String) (y : Sync) (s : State) → IsSound s → y.saving ≡ false → Kept s (add_object id y s)
add_object-Kept id y s v h = record {
  sound = record {
    allocated = λ j r e. ground (arith, v.allocated j r);
    idle_above = λ r k. ground (arith, v.idle_above r);
  };
  runs = λ r. ground (arith, v.idle_above r);
}

create_optimistic-Kept :
    (id : String) (source : Source) (title : Option String) (untitled now : String) (s : State)
    → IsSound s
    → Kept s (create_optimistic id source title untitled now s).0
unfolding create_optimistic
create_optimistic-Kept id source title untitled now s v =
    let added = add_object-Kept id new_sync s v refl in
    let shown = Kept-trans added (same-Kept added.sound refl refl refl) in
    Kept-trans shown (Frame-Kept shown.sound (begin_creation-Frame id s.next_object _))

save_as_new-Kept :
    (id fresh : String) (title : Option String) (suffix untitled now : String) (s : State)
    → IsSound s
    → Kept s (save_as_new id fresh title suffix untitled now s).0
unfolding save_as_new
save_as_new-Kept id fresh title suffix untitled now s v = elim (Option-cases (project_of id s)) [
  | inl e ↦ rw (e, save_as_new) (same-Kept v refl refl refl)
  | inr (p, e) ↦ rw (e, save_as_new) (create_optimistic-Kept fresh _ _ untitled now s v)
]

forget-Kept : (id : String) (s : State) → IsSound s → Kept s (forget id s)
unfolding forget
forget-Kept id s v = record {
  sound = record {
    allocated = λ j r e. ground (arith, v.allocated j r);
    idle_above = λ r k. ground (arith, v.idle_above r);
  };
  runs = λ r. ground arith;
}

forget_all-Kept : (ids : List String) (s : State) → IsSound s → Kept s (forget_all ids s)
unfolding forget_all
forget_all-Kept [] s v = same-Kept v refl refl refl
forget_all-Kept (id ∷ ids) s v =
    let first = forget-Kept id s v in
    Kept-trans first (forget_all-Kept ids (forget id s) first.sound)

delete_projects-Kept :
    (ids : List String) (s : State) → IsSound s → Kept s (delete_projects ids s).0
unfolding delete_projects
delete_projects-Kept ids s v =
    let all = forget_all-Kept ids s v in Kept-trans all (same-Kept all.sound refl refl refl)

deletion_failed-Kept :
    (d : Deletion) (e : Failure) (s : State) → IsSound s → Kept s (deletion_failed d e s)
unfolding deletion_failed
deletion_failed-Kept d e s v =
    let back : Kept s (bring_back d.project s) = same-Kept v refl refl refl in
    let again =
      Kept-trans back (add_object-Kept d.project.id (restored_sync d s) _ back.sound refl) in
    Kept-trans again (same-Kept again.sound refl refl refl)

pub run-Kept : (c : Command) (s : State) → IsSound s → Kept s (run c s)
unfolding run open_project patch_project creation_saved deleted reload_failed
run-Kept (opens id) s v = same-Kept v refl refl refl
run-Kept (creates id source title untitled now) s v =
    create_optimistic-Kept id source title untitled now s v
run-Kept (copies id fresh title suffix untitled now) s v =
    save_as_new-Kept id fresh title suffix untitled now s v
run-Kept (renames id title now at) s v = Frame-Kept v (rename_project-Frame id title now at s)
run-Kept (patches id patch now at) s v = Frame-Kept v (edit-Frame id _ false at s)
run-Kept (deletes ids) s v = delete_projects-Kept ids s v
run-Kept (created_at_server c a at) s v = Frame-Kept v (created-Frame c a at s)
run-Kept (creation_settles c) s v = same-Kept v refl refl refl
run-Kept (creation_fails c e) s v = Frame-Kept v (creation_failed-Frame c e s)
run-Kept (lookup_fails id r e) s v = Frame-Kept v (lookup_failed-Frame id r e s)
run-Kept (deletion_done d) s v = same-Kept v refl refl refl
run-Kept (deletion_fails d e) s v = deletion_failed-Kept d e s v
run-Kept (reload_fails id e) s v = same-Kept v refl refl refl
run-Kept (reload_begins id) s v = Frame-Kept v (begin_reload-Frame id s)
run-Kept (registers task kind at) s v = Frame-Kept v (register_recovery-Frame task kind at s)
run-Kept (cleans_up id task at) s v = Frame-Kept v (cleanup_fired-Frame id task at s)
run-Kept (finishes id b snapshot at) s v = Frame-Kept v (finish_recovery-Frame id b snapshot at s)
