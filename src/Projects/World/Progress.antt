-- ===== src/Projects/World/Progress.antt =====
-- The projects of frontend/src/adapters/use-canvas-store.ts and their numbers after each
-- operation.
use canvas_standalone.Prelude.{
  ℕ, String, Bool, true, false, Option, List, ◌∷◌, ◌≡◌, refl, arith, Option-cases, Bool-cases, inl,
  inr, ◌∙◌, ◌==◌, find_by,
}
use canvas_standalone.Recovery.{Binding, Snapshot, MediaTask, Kind}
use canvas_standalone.Projects.{Project, Sync}
use canvas_standalone.Projects.State.{
  State, Failure, project_of, project_key, on_object, update_project,
}
use canvas_standalone.Projects.Creation.{
  Creation, Created, begin_creation, created, creation_saved, creation_failed, lookup_failed,
  add_object, create_optimistic, Source, merge_created, new_project, new_sync,
}
use canvas_standalone.Projects.Commands.{
  rename_project, patch_project, begin_reload, reload_failed, open_project, save_as_new,
}
use canvas_standalone.Projects.Deletion.{
  Deletion, delete_projects, deleted, deletion_failed, restored_sync, bring_back,
}
use canvas_standalone.Projects.Recoveries.{
  register_recovery, cleanup_fired, finish_recovery, add_binding, recovered_project,
}
use canvas_standalone.Projects.World.{
  Command, run, opens, creates, copies, renames, patches, deletes, created_at_server,
  creation_settles, creation_fails, lookup_fails, deletion_done, deletion_fails, reload_fails,
  reload_begins, registers, cleans_up, finishes,
}
use canvas_standalone.Projects.World.Cases.{
  rename_project_cases, created_cases, register_recovery_cases, cleanup_fired_cases,
}
use canvas_standalone.Projects.World.Advance.{
  Advances, Advances-trans, same-Advances, edit-Advances, update_project-Advances,
  schedule_save-Advances,
}
use canvas_standalone.Projects.World.Forgetting.{
  merge_created_document, forget_all_frame, forget_all_sequence, forget_all_kept, find_by-keep,
}

module _ {live : ℕ → Bool} where
  rename_project-Advances :
      (id title now : String) (at : ℕ) (s : State)
      → Advances live s (rename_project id title now at s)
  rename_project-Advances id title now at s =
      rename_project_cases (Advances live s) id title now at s
        (same-Advances s s refl refl refl refl λ r. refl) (edit-Advances id _ false at s λ p. refl)

  created-Advances :
      (c : Creation) (v : Created) (at : ℕ) (s : State) → Advances live s (created c v at s).0
  created-Advances c v at s =
      let s1 = on_object c.object (λ y. record y { version = v.version; blocked = false }) s in
      let first : Advances live s s1 = same-Advances s s1 refl refl refl refl λ r. ground arith in
      let merged : Advances live s (update_project c.id (merge_created v) s1) =
        Advances-trans first (
          update_project-Advances c.id (merge_created v) s1 (λ p. refl)
            (merge_created_document v)) in
      created_cases (Advances live s) c v at s first
        (Advances-trans merged (same-Advances _ _ refl refl refl refl λ r. refl))
        (Advances-trans merged (schedule_save-Advances c.id true at _))

  add_binding-Advances :
      (id : String) (b : Binding) (at : ℕ) (s : State) → Advances live s (add_binding id b at s)
  unfolding add_binding
  add_binding-Advances id b at s =
      Advances-trans (same-Advances s _ refl refl refl refl λ r. refl)
        (edit-Advances id _ true at _ λ p. refl)

  register_recovery-Advances :
      (task : MediaTask) (kind : Kind) (at : ℕ) (s : State)
      → Advances live s (register_recovery task kind at s)
  register_recovery-Advances task kind at s =
      register_recovery_cases (Advances live s) task kind at s
        (same-Advances s s refl refl refl refl λ r. refl) λ id b. add_binding-Advances id b at s

  cleanup_fired-Advances :
      (id task : String) (at : ℕ) (s : State) → Advances live s (cleanup_fired id task at s)
  cleanup_fired-Advances id task at s =
      cleanup_fired_cases (Advances live s) id task at s
        (λ ks. same-Advances s _ refl refl refl refl λ r. refl)
        λ ks.
          Advances-trans (same-Advances s _ refl refl refl refl λ r. refl)
            (edit-Advances id _ true at _ λ p. refl)

  finish_recovery-Advances :
      (id : String) (b : Binding) (snapshot : Snapshot) (at : ℕ) (s : State)
      → Advances live s (finish_recovery id b snapshot at s)
  unfolding finish_recovery recovered_project
  finish_recovery-Advances id b snapshot at s =
      Advances-trans (same-Advances s _ refl refl refl refl λ r. refl)
        (edit-Advances id _ true at _ λ p. refl)

  -- A new object under an identifier, with other projects under that identifier.
  add_object-Advances :
      (id : String) (y : Sync) (s : State) (ps : List Project)
      → ((j : String) → (id == j) ≡ false → find_by project_key j ps ≡ project_of j s)
      → Advances live s (add_object id y (record s { projects = ps }))
  add_object-Advances id y s ps others = record {
    aliases = refl;
    made = omega arith;
    counted = λ r l h. ground arith;
    kept = λ j r h e. ground arith;
    unchanged = λ j r p l h e same found. elim (Bool-cases (id == j)) [
      | inl i ↦ absurd (ground arith)
      | inr o ↦ (p, others j o ∙ found, refl)
    ];
  }

  begin_creation-Advances :
      (id : String) (r : ℕ) (s : State) → Advances live s (begin_creation id r s).0
  unfolding begin_creation
  begin_creation-Advances id r s =
      same-Advances s _ (ground arith) (ground arith) (ground arith) (ground arith)
        λ k. ground arith

  creation_failed-Advances :
      (c : Creation) (e : Failure) (s : State) → Advances live s (creation_failed c e s)
  unfolding creation_failed
  creation_failed-Advances c e s =
      same-Advances s _ (ground arith) (ground arith) (ground arith) (ground arith)
        λ k. ground arith

  lookup_failed-Advances :
      (id : String) (r : ℕ) (e : Failure) (s : State) → Advances live s (lookup_failed id r e s).0
  unfolding lookup_failed begin_creation
  lookup_failed-Advances id r e s =
      same-Advances s _ (ground arith) (ground arith) (ground arith) (ground arith)
        λ k. ground arith

  begin_reload-Advances : (id : String) (s : State) → Advances live s (begin_reload id s).0
  unfolding begin_reload
  begin_reload-Advances id s =
      same-Advances s _ (ground arith) (ground arith) (ground arith) (ground arith)
        λ k. ground arith

  create_optimistic-Advances :
      (id : String) (source : Source) (title : Option String) (untitled now : String) (s : State)
      → Advances live s (create_optimistic id source title untitled now s).0
  unfolding create_optimistic new_project
  create_optimistic-Advances id source title untitled now s =
      let project = new_project id source title untitled now in
      Advances-trans
        (Advances-trans (add_object-Advances id new_sync s (project ∷ s.projects) λ j o. rw o refl)
          (same-Advances _ _ refl refl refl refl λ r. refl))
        (begin_creation-Advances id s.next_object _)

  save_as_new-Advances :
      (id fresh : String) (title : Option String) (suffix untitled now : String) (s : State)
      → Advances live s (save_as_new id fresh title suffix untitled now s).0
  unfolding save_as_new
  save_as_new-Advances id fresh title suffix untitled now s =
      elim (Option-cases (project_of id s)) [
        | inl e ↦ rw (e, save_as_new) (same-Advances s s refl refl refl refl λ r. refl)
        | inr (p, e) ↦ rw (e, save_as_new) (create_optimistic-Advances fresh _ _ untitled now s)
      ]

  deletion_failed-Advances :
      (d : Deletion) (e : Failure) (s : State) → Advances live s (deletion_failed d e s)
  unfolding deletion_failed
  deletion_failed-Advances d e s =
      Advances-trans
        (add_object-Advances d.project.id (restored_sync d s) s (bring_back d.project s).projects
          λ j o. ground arith)
        (same-Advances _ _ refl refl refl refl λ r. refl)

  delete_projects-Advances :
      (ids : List String) (s : State) → Advances live s (delete_projects ids s).0
  unfolding delete_projects
  delete_projects-Advances ids s = record {
    aliases = (forget_all_frame ids s).0;
    made = omega (arith, (forget_all_frame ids s).1);
    counted = λ r l h. omega (arith, forget_all_sequence ids s r);
    kept = λ j r h e. (forget_all_kept ids s j r e).1;
    unchanged = λ j r p l h e same found.
        (p, find_by-keep ids j s.projects (forget_all_kept ids s j r e).0 ∙ found, refl);
  }

  pub run-Advances : (c : Command) (s : State) → Advances live s (run c s)
  unfolding run open_project patch_project creation_saved deleted reload_failed
  run-Advances (opens id) s = same-Advances s _ refl refl refl refl λ r. refl
  run-Advances (creates id source title untitled now) s =
      create_optimistic-Advances id source title untitled now s
  run-Advances (copies id fresh title suffix untitled now) s =
      save_as_new-Advances id fresh title suffix untitled now s
  run-Advances (renames id title now at) s = rename_project-Advances id title now at s
  run-Advances (patches id patch now at) s = edit-Advances id _ false at s λ p. refl
  run-Advances (deletes ids) s = delete_projects-Advances ids s
  run-Advances (created_at_server c a at) s = created-Advances c a at s
  run-Advances (creation_settles c) s = same-Advances s _ refl refl refl refl λ r. refl
  run-Advances (creation_fails c e) s = creation_failed-Advances c e s
  run-Advances (lookup_fails id r e) s = lookup_failed-Advances id r e s
  run-Advances (deletion_done d) s = same-Advances s _ refl refl refl refl λ r. refl
  run-Advances (deletion_fails d e) s = deletion_failed-Advances d e s
  run-Advances (reload_fails id e) s = same-Advances s _ refl refl refl refl λ r. refl
  run-Advances (reload_begins id) s = begin_reload-Advances id s
  run-Advances (registers task kind at) s = register_recovery-Advances task kind at s
  run-Advances (cleans_up id task at) s = cleanup_fired-Advances id task at s
  run-Advances (finishes id b snapshot at) s = finish_recovery-Advances id b snapshot at s
