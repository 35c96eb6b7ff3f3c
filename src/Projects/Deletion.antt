-- ===== src/Projects/Deletion.antt =====
-- `deleteProjects` of frontend/src/adapters/use-canvas-store.ts: what it removes at once, and how
-- each project goes or comes back when the server has answered.
use canvas_standalone.Prelude.{
  ℕ, String, Bool, true, false, not, Option, none, some, List, [], ◌∷◌, if◌then◌else◌, ◌==◌, nat_eq,
  put, keep, has, any, ltb,
}
use canvas_standalone.Projects.{Project, error, Sync, unset}
use canvas_standalone.Projects.State.{
  State, set_status, on_object, remove_draft, Failure, readable_error, clear_timer,
}
use canvas_standalone.Projects.Creation.{add_object}
use canvas_standalone.Projects.Commands.{clear_recoveries}

-- One round of the loop over the identifiers.
unfoldable pub forget : String → State → State
forget id s =
    let cleared : State = elim (s.syncs id) [
      | none ↦ s
      | some r ↦ on_object r (λ y. record y { timer = clear_timer y.timer }) s
    ] in
    clear_recoveries id (record cleared { syncs = put s.syncs id none })

unfoldable pub forget_all : List String → State → State
forget_all [] s = s
forget_all (id ∷ ids) s = forget_all ids (forget id s)

-- A deletion in flight: the project and the sync object that it had.
pub record Deletion : Type 0 where
  pub project : Project
  pub object : Option ℕ

abbrev pub deletions : (String → Option ℕ) → List Project → List Deletion
deletions syncs [] = []
deletions syncs (p ∷ ps) = record { project = p; object = syncs p.id } ∷ deletions syncs ps

unfoldable pub delete_projects : List String → State → State × List Deletion
delete_projects ids s =
    let after = forget_all ids s in
    (
      record after {
        projects = keep (λ (p : Project). not (has p.id ids)) s.projects;
        statuses = λ id. if has id ids then none else s.statuses id;
      },
      deletions s.syncs (keep (λ (p : Project). has p.id ids) s.projects),
    )

abbrev pub captured_version : Deletion → State → ℕ
captured_version d s = elim d.object [ none ↦ 0 | some r ↦ (s.objects r).version ]

abbrev pub captured_sequence : Deletion → State → ℕ
captured_sequence d s = elim d.object [ none ↦ 0 | some r ↦ (s.objects r).sequence ]

-- `(sync?.version || 0) > 0`: only a project that the server knows is deleted there.
unfoldable pub asks_server : Deletion → State → Bool
asks_server d s = ltb 0 (captured_version d s)

unfoldable pub deleted : Deletion → State → State
deleted d s = remove_draft d.project.id s

abbrev pub restored_sync : Deletion → State → Sync
restored_sync d s = record {
  version = if nat_eq (captured_version d s) 0 then 1 else captured_version d s;
  sequence = captured_sequence d s;
  creating = false;
  timer = unset;
  saving = false;
  retry_after_save = false;
  blocked = true;
}

abbrev pub bring_back : Project → State → State
bring_back project s = record s {
  projects =
      if any (λ (p : Project). p.id == project.id) s.projects
      then s.projects
      else project ∷ s.projects;
}

-- The `catch` block: the project comes back, blocked.
unfoldable pub deletion_failed : Deletion → Failure → State → State
deletion_failed d e s =
    set_status d.project.id error (some (readable_error e "Project deletion failed"))
      (add_object d.project.id (restored_sync d s) (bring_back d.project s))
