-- ===== src/Projects/Commands.antt =====
-- The actions of `useCanvasStore` that edit, save, retry and reload, of
-- frontend/src/adapters/use-canvas-store.ts.
use Prim.Native.String.{◌++◌ as text_append}
use canvas_standalone.Prelude.{
  ℕ, suc, String, Bool, true, false, not, Option, none, some, List, [], if◌then◌else◌, ◌==◌, put,
  text_or, is_some, get_or, is_empty, trim, ltb, keep,
}
use canvas_standalone.Projects.{Project, Patch, saving, saved, error, conflict, SaveStatus, unset}
use canvas_standalone.Projects.State.{
  State, project_of, set_status, on_object, update_project, remove_draft, Failure, readable_error,
  edit,
}
use canvas_standalone.Projects.Saving.{Flight, persist}
use canvas_standalone.Projects.Creation.{Source, Creation, create_optimistic, retry_creation}

unfoldable pub open_project : String → State → State × Option Project
open_project id s = (record s { active_project = some id }, project_of id s)

abbrev pub set_title : String → String → Project → Project
set_title title now p = record p { title = title; updated_at = now }

unfoldable pub rename_project : String → String → String → ℕ → State → State
rename_project id title now at s =
    if is_empty (trim title) then s else edit id (set_title (trim title) now) false at s

-- `{ ...project, ...patch, updatedAt }`
abbrev pub apply_patch : Patch → String → Project → Project
apply_patch patch now p = record p {
  updated_at = now;
  graph = record {
    nodes = get_or patch.nodes p.nodes;
    connections = get_or patch.connections p.connections;
  };
  chat_sessions = get_or patch.chat_sessions p.chat_sessions;
  active_chat_id = get_or patch.active_chat_id p.active_chat_id;
  background_mode = get_or patch.background_mode p.background_mode;
  show_image_info = get_or patch.show_image_info p.show_image_info;
  viewport = get_or patch.viewport p.viewport;
}

unfoldable pub patch_project : String → Patch → String → ℕ → State → State
patch_project id patch now at s = edit id (apply_patch patch now) false at s

unfoldable pub replace_projects : List Project → State → State
replace_projects ps s = record s { projects = ps }

abbrev pub is_saved : Option SaveStatus → Bool
is_saved none = false
is_saved (some st) = elim st.state [ saved ↦ true | _ ↦ false ]

abbrev pub is_in_conflict : Option SaveStatus → Bool
is_in_conflict none = false
is_in_conflict (some st) = elim st.state [ conflict ↦ true | _ ↦ false ]

-- `if (sync.timer) { clearTimeout(sync.timer); sync.timer = undefined }`
abbrev pub stop_timer : ℕ → State → State
stop_timer r s = on_object r (λ y. record y { timer = unset }) s

-- `flushProject`; where a save is in flight, it waits for that one.
unfoldable pub flush_project : String → State → State × Option Flight
flush_project id s = elim (s.syncs id) [
  | none ↦ (s, none)
  | some r ↦
      if (s.objects r).blocked
      then (s, none)
      else if (s.objects r).saving
      then (stop_timer r s, none)
      else if is_saved (s.statuses id)
      then (stop_timer r s, none)
      else persist id (stop_timer r s)
]

-- What a retry does: nothing, a look at the server for a project that was never created, or a save.
pub data Retry : Type 0 where
  ignored : Retry
  looks_up : ℕ → State → Retry
  saves : State × Option Flight → Retry

unfoldable pub retry_project : String → State → Retry
retry_project id s = elim (s.syncs id) [
  | none ↦ ignored
  | some r ↦
      if is_in_conflict (s.statuses id)
      then ignored
      else if ltb (s.objects r).version 1
      then looks_up r (retry_creation id r s)
      else saves (persist id (stop_timer r (on_object r (λ y. record y { blocked = false }) s)))
]

-- The callback of the timer: `sync.timer = undefined; persistProject(id)`.
unfoldable pub timer_fired : String → ℕ → State → State × Option Flight
timer_fired id r s = persist id (stop_timer r s)

-- `clearProjectRecoveries`
abbrev pub clear_recoveries : String → State → State
clear_recoveries id s = record s {
  recoveries = put s.recoveries id [];
  monitors = keep (λ k. not (k.0 == id)) s.monitors;
  cleanups = keep (λ k. not (k.0 == id)) s.cleanups;
}

-- `reloadServerProject` up to `await api().getProject`; the result is the sync object.
unfoldable pub begin_reload : String → State → State × Option ℕ
begin_reload id s = elim (s.syncs id) [
  | none ↦ (s, none)
  | some r ↦
      if (s.objects r).saving
      then (s, none)
      else (set_status id saving none (stop_timer r s), some r)
]

-- From the answer to the removal of the draft.
unfoldable pub reload_answered : String → ℕ → ℕ → State → State × Bool
reload_answered id r version s =
    if is_some (s.syncs id)
    then (
      remove_draft id (
          on_object r
            (λ y. record y {
              version = version;
              sequence = 0;
              blocked = false;
              retry_after_save = false;
              creating = true;
            })
            (clear_recoveries id s)),
      true,
    )
    else (s, false)

-- After `await drafts.removeItem(id)`; the project is what `serverProject` made of the answer.
unfoldable pub reload_finished : String → Project → State → State
reload_finished id p s = set_status id saved none (update_project id (λ _. p) s)

unfoldable pub reload_failed : String → Failure → State → State
reload_failed id e s =
    set_status id error (some (readable_error e "Server project could not be loaded")) s

abbrev pub source_of : Project → Source
source_of p = record {
  title = some p.title;
  created_at = some p.created_at;
  nodes = some p.nodes;
  connections = some p.connections;
  chat_sessions = some p.chat_sessions;
  active_chat_id = p.active_chat_id;
  background_mode = some p.background_mode;
  show_image_info = some p.show_image_info;
  viewport = some p.viewport;
  recoveries = some p.recoveries;
}

abbrev pub trimmed : Option String → String
trimmed none = ""
trimmed (some t) = trim t

-- `saveProjectAsNew`; `suffix` is the translated word for a copy.
unfoldable pub save_as_new :
    String → String → Option String → String → String → String → State → State × Option Creation
save_as_new id fresh title suffix untitled now s = elim (project_of id s) [
  | none ↦ (s, none)
  | some p ↦
      let copy = text_append p.title (text_append " " suffix) in
      create_optimistic fresh (source_of p) (some (text_or (some (trimmed title)) copy)) untitled
        now s
]

-- `resetCanvasProjectStore`
unfoldable pub reset : State → State
reset s = record s {
  hydrated = false;
  projects = [];
  statuses = λ _. none;
  syncs = λ _. none;
  recoveries = λ _. [];
  active_project = none;
  epoch = suc s.epoch;
  monitors = [];
  cleanups = [];
}
