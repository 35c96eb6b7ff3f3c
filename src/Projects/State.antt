-- ===== src/Projects/State.antt =====
-- The state of frontend/src/adapters/use-canvas-store.ts: the zustand store, the module's maps and
-- the drafts in localforage, with the small writes that the operations share and `scheduleSave`.
use canvas_standalone.Prelude.{
  ℕ, ◌+◌, String, Bool, ◌||◌, Option, none, some, List, if◌then◌else◌, find_by, update_by, put,
  write, text_or, is_text, or_else, is_number,
}
use canvas_standalone.Recovery.{Binding}
use canvas_standalone.AssetRuntime.{Aliases}
use canvas_standalone.Projects.{
  Project, SaveState, dirty, SaveStatus, Sync, Timer, unset, cleared, due_in, Draft,
}
use canvas_standalone.Projects.Document.{draft_project}

-- `syncs` is `syncByProject`. The operations that wait hold on to the object that they found, so a
-- project's entry is a reference into `objects`. `monitors` and `cleanups` are the keys of
-- `recoveryControllers` and `recoveryCleanupTimers`, a project and a task.
pub record State : Type 0 where
  pub hydrated : Bool
  pub projects : List Project
  pub statuses : String → Option SaveStatus
  pub syncs : String → Option ℕ
  pub objects : ℕ → Sync
  pub next_object : ℕ
  pub drafts : String → Option Draft
  pub recoveries : String → List Binding
  pub active_project : Option String
  pub epoch : ℕ
  pub aliases : Aliases
  pub monitors : List (String × String)
  pub cleanups : List (String × String)

abbrev pub project_key : Project → String
project_key p = p.id

abbrev pub project_of : String → State → Option Project
project_of id s = find_by project_key id s.projects

-- `setProjectSaveStatus`; an empty message is left out
abbrev pub set_status : String → SaveState → Option String → State → State
set_status id state message s = record s {
  statuses = put s.statuses id (some (record { state = state; message = message }));
}

abbrev pub on_object : ℕ → (Sync → Sync) → State → State
on_object r f s = record s { objects = write s.objects r (f (s.objects r)) }

abbrev pub update_project : String → (Project → Project) → State → State
update_project id f s = record s { projects = update_by project_key id f s.projects }

abbrev pub remove_draft : String → State → State
remove_draft id s = record s { drafts = put s.drafts id none }

-- `clearTimeout(sync.timer)` without a reset of the field
abbrev pub clear_timer : Timer → Timer
clear_timer unset = unset
clear_timer _ = cleared

-- What an `await` can throw, as `canvasErrorStatus`, `canvasErrorCode` and `readableError` read it.
pub record Failure : Type 0 where
  pub message : Option String
  pub status : Option ℕ
  pub response_status : Option ℕ
  pub code : Option String
  pub reason : Option String
  pub response_reason : Option String

abbrev pub error_status : Failure → Option ℕ
error_status e = or_else e.status e.response_status

abbrev pub error_code : Failure → Option String
error_code e = or_else e.code (or_else e.reason e.response_reason)

-- The test of `persistProject` for a version conflict.
unfoldable pub is_conflict : Failure → Bool
is_conflict e = is_number (error_status e) 409 || is_text (error_code e) "project_version_conflict"

abbrev pub readable_error : Failure → String → String
readable_error e fallback = text_or e.message fallback

abbrev pub save_delay : Bool → ℕ
save_delay immediate = if immediate then 0 else 400

abbrev pub draft_of : State → ℕ → Project → ℕ → Draft
draft_of s r p at = record {
  base_version = (s.objects r).version;
  project = draft_project s.aliases p;
  saved_at = at;
}

-- `scheduleSave` where it has found the sync object and the project.
unfoldable pub schedule : String → ℕ → Project → Bool → ℕ → State → State
schedule id r p immediate at s =
    let kept = record s { drafts = put s.drafts id (some (draft_of s r p at)) } in
    if (s.objects r).blocked
    then on_object r (λ y. record y { timer = clear_timer y.timer }) kept
    else on_object r (λ y. record y { timer = due_in (save_delay immediate) })
        (set_status id dirty none kept)

unfoldable pub schedule_save : String → Bool → ℕ → State → State
schedule_save id immediate at s = elim (s.syncs id) [
  | none ↦ s
  | some r ↦ elim (project_of id s) [ none ↦ s | some p ↦ schedule id r p immediate at s ]
]

-- `if (sync) sync.sequence += 1`
unfoldable pub bump : String → State → State
bump id s = elim (s.syncs id) [
  | none ↦ s
  | some r ↦ on_object r (λ y. record y { sequence = y.sequence + 1 }) s
]

-- The shape of every edit of a project: write it, count it and schedule a save.
unfoldable pub edit : String → (Project → Project) → Bool → ℕ → State → State
edit id f immediate at s = schedule_save id immediate at (bump id (update_project id f s))
