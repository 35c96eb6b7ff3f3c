-- ===== src/Projects/Blocked.antt =====
-- Projects of frontend/src/adapters/use-canvas-store.ts whose saves are blocked.
use canvas_standalone.Prelude.{
  ℕ, String, Bool, true, false, none, some, ◌≡◌, arith, find_by, update_by, find_by-update_by,
  eq_refl, List,
}
use canvas_standalone.Projects.{Project}
use canvas_standalone.Projects.Document.{draft_project}
use canvas_standalone.Projects.State.{
  State, project_of, project_key, edit, bump, schedule_save, schedule, Failure, is_conflict,
}
use canvas_standalone.Projects.Saving.{Flight, persist, fail_flight, finally}
use canvas_standalone.Projects.Commands.{flush_project, timer_fired, retry_project, ignored}

found_after :
    (id : String) (p : Project) (change : Project → Project) (ps : List Project)
    → find_by project_key id ps ≡ some p
    → ((q : Project) → (change q).id ≡ q.id)
    → find_by project_key id (update_by project_key id change ps) ≡ some (change p)
found_after id p change ps f h =
    ground (arith, find_by-update_by project_key id id change ps h, eq_refl id, f)

-- An edit of a project whose saves are blocked: its draft holds the edited project over the version
-- that the server had, the shown status stays, and neither a timer that still fires nor a flush sends
-- anything.
pub edit-blocked :
    (id : String) (r : ℕ) (p : Project) (change : Project → Project) (immediate : Bool) (at : ℕ)
    (s : State)
    → s.syncs id ≡ some r
    → (s.objects r).blocked ≡ true
    → project_of id s ≡ some p
    → ((q : Project) → (change q).id ≡ q.id)
    → (let t = edit id change immediate at s in
        (t.drafts id
          ≡ some (record {
            base_version = (s.objects r).version;
            project = draft_project s.aliases (change p);
            saved_at = at;
          }))
        × (t.statuses id ≡ s.statuses id)
        × (project_of id t ≡ some (change p))
        × ((timer_fired id r t).1 ≡ none)
        × ((flush_project id t).1 ≡ none))
unfolding edit bump schedule_save schedule timer_fired flush_project persist
edit-blocked id r p change immediate at s e b f h =
    ground (arith, found_after id p change s.projects f h, eq_refl id)

-- A save that fails for a version conflict: it ends without another save, the project is blocked and
-- shown in conflict, its draft and its content stay, and a retry is ignored.
pub fail_flight-is_conflict :
    (f : Flight) (e : Failure) (s : State)
    → is_conflict e ≡ true
    → s.syncs f.id ≡ some f.object
    → (let x = fail_flight f e s in
        (x.1 ≡ none)
        × ((x.0.objects f.object).blocked ≡ true)
        × ((x.0.objects f.object).saving ≡ false)
        × (x.0.drafts ≡ s.drafts)
        × (x.0.projects ≡ s.projects)
        × (retry_project f.id x.0 ≡ ignored))
unfolding fail_flight finally retry_project
fail_flight-is_conflict f e s c h = ground (arith, eq_refl f.id)
