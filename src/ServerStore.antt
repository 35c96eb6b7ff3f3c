-- ===== src/ServerStore.antt =====
-- frontend/src/stores/server-canvas-store.ts, cut at its awaits. The source tells documents apart by
-- object identity, so a document is an object with a number of its own and its content.
pub mod Order
pub mod Races
use Prim.Native.String.{◌++◌ as text_append}
use canvas_standalone.Prelude.{
  ℕ, suc, String, Bool, true, false, not, ◌||◌, ◌&&◌, Option, none, some, List, [], ◌∷◌,
  if◌then◌else◌, nat_eq, ◌==◌, put as set, has, keep, is_empty, trim, or_else, is_number, is_text,
  get_or, map, find_by, text_or, is_some,
}
use canvas_standalone.Json.{Value}

pub record Document : Type 0 where
  pub object : ℕ
  pub content : Value

pub data SaveState : Type 0 where
  idle saving saved conflict error : SaveState

-- CanvasProject of frontend/src/api/canvas-api.ts
pub record Project : Type 0 where
  pub id : String
  pub name : String
  pub document : Document
  pub version : ℕ

-- ServerCanvasProject
pub record Entry : Type 0 where
  pub project : Project
  pub open project use *
  pub save_state : SaveState
  pub local_draft : Option Document

pub record Draft : Type 0 where
  pub base_version : ℕ
  pub document : Document

-- `timers` has the delay of a timer that runs; a timer that fired stays in the map of the source,
-- where only `clearTimeout` looks at it.
pub record State : Type 0 where
  pub projects : String → Option Entry
  pub order : List String
  pub loaded : Bool
  pub active_project : Option String
  pub timers : String → Option ℕ
  pub persisting : String → Bool
  pub retired : String → Bool
  pub drafts : String → Option Draft

abbrev pub entry : Project → SaveState → Option Document → Entry
entry p state draft = record { project = p; save_state = state; local_draft = draft }

-- `put`
abbrev pub put : Project → SaveState → Option Document → State → State
put p state draft s = record s {
  projects = set s.projects p.id (some (entry p state draft));
  order = if has p.id s.order then s.order else p.id ∷ s.order;
}

abbrev pub start_timer : String → ℕ → State → State
start_timer id delay s = record s { timers = set s.timers id (some delay) }

abbrev pub stop_timer : String → State → State
stop_timer id s = record s { timers = set s.timers id none }

abbrev pub set_draft : String → ℕ → Document → State → State
set_draft id version d s = record s {
  drafts = set s.drafts id (some (record { base_version = version; document = d }));
}

abbrev pub remove_draft : String → State → State
remove_draft id s = record s { drafts = set s.drafts id none }

-- A save in flight: what was sent.
pub record Flight : Type 0 where
  pub id : String
  pub version : ℕ
  pub name : String
  pub draft : Document

abbrev pub start_flight : String → Entry → Document → State → State × Option Flight
start_flight id e draft s = (
  put e.project saving (some draft) (record s { persisting = set s.persisting id true }),
  some (record { id = id; version = e.version; name = e.name; draft = draft }),
)

-- `persist` up to `await api.updateProject`.
unfoldable pub persist : String → State → State × Option Flight
persist id s = if s.persisting id || s.retired id then (s, none) else elim (s.projects id) [
  | none ↦ (s, none)
  | some e ↦ elim e.local_draft [ none ↦ (s, none) | some draft ↦ start_flight id e draft s ]
]

-- The callback of the timer.
unfoldable pub timer_fired : String → State → State × Option Flight
timer_fired id s = persist id (stop_timer id s)

abbrev pub finish : Flight → State → State
finish f s = record s { persisting = set s.persisting f.id false }

-- `latest?.localDraft && (latest.localDraft !== draft || latest.name !== name)`, with that draft
abbrev pub newer_draft : Flight → Option Entry → Option (String × Document)
newer_draft f none = none
newer_draft f (some e) = elim e.local_draft [
  | none ↦ none
  | some d ↦
      if not (nat_eq d.object f.draft.object) || not (e.name == f.name)
      then some (e.name, d)
      else none
]

-- What follows the answer: an end, the removal of the draft, or the write of a newer one.
pub data Answer : Type 0 where
  over : State → Answer
  clears : State → Answer
  keeps : Document → State → Answer

unfoldable pub answered : Flight → Project → State → Answer
answered f updated s =
    if s.retired f.id then over (finish f s) else elim (newer_draft f (s.projects f.id)) [
      | none ↦ clears (remove_draft f.id s)
      | some latest ↦ keeps latest.1 (
          set_draft f.id updated.version latest.1 (
            put (record updated { name = latest.0; document = latest.1 }) saving (some latest.1) s))
    ]

-- After `await drafts.removeItem`, and after `await drafts.setItem`.
unfoldable pub draft_removed : Flight → Project → State → State
draft_removed f updated s = finish f (put updated saved none s)

unfoldable pub draft_kept : Flight → State → State
draft_kept f s = finish f (start_timer f.id 0 s)

-- What an `await` can throw.
pub record Failure : Type 0 where
  pub status : Option ℕ
  pub response_status : Option ℕ
  pub code : Option String
  pub reason : Option String
  pub response_reason : Option String

unfoldable pub is_conflict : Failure → Bool
is_conflict e =
    is_text (or_else e.code (or_else e.reason e.response_reason)) "project_version_conflict"
    || is_number (or_else e.status e.response_status) 409

unfoldable pub persist_failed : Flight → Failure → State → State
persist_failed f e s = if s.retired f.id then finish f s else elim (s.projects f.id) [
  | none ↦ finish f s
  | some latest ↦
      finish f (put latest.project (if is_conflict e then conflict else error) latest.local_draft s)
]

abbrev pub loaded_entry : (String → Option Draft) → Project → Entry
loaded_entry drafts p = elim (drafts p.id) [
  | none ↦ entry p idle none
  | some d ↦ entry p conflict (some d.document)
]

abbrev pub project_key : Project → String
project_key p = p.id

abbrev pub add_project : (String → Option Draft) → List Project → String → Option Entry
add_project drafts [] id = none
add_project drafts (p ∷ ps) id = elim (add_project drafts ps id) [
  | some e ↦ some e
  | none ↦ if p.id == id then some (loaded_entry drafts p) else none
]

-- `hydrate`, with the drafts as they were read; a later project of the list writes over an earlier one.
unfoldable pub hydrated : List Project → (String → Option Draft) → State → State
hydrated ps drafts s = record s {
  projects = add_project drafts ps;
  order = map project_key ps;
  loaded = true;
}

-- The answers to `createProject`, also for `saveAsNew`, and to `openProject`.
unfoldable pub created : Project → State → State
created p s = record (put p saved none s) { active_project = some p.id }

abbrev pub kept_draft : Option Entry → Option Document
kept_draft none = none
kept_draft (some e) = e.local_draft

abbrev pub opened_state : Option Document → SaveState
opened_state none = idle
opened_state (some d) = conflict

unfoldable pub opened : String → Project → State → State
opened id p s =
    record (put p (opened_state (kept_draft (s.projects id))) (kept_draft (s.projects id)) s) {
      active_project = some id;
    }

unfoldable pub update_document : String → Document → State → State
update_document id d s = elim (s.projects id) [
  | none ↦ s
  | some e ↦
      start_timer id 400
        (set_draft id e.version d (put (record (e.project) { document = d }) saving (some d) s))
]

unfoldable pub mutate_document : String → (Document → Document) → State → State
mutate_document id update s = elim (s.projects id) [
  | none ↦ s
  | some e ↦ update_document id (update (get_or e.local_draft e.document)) s
]

abbrev pub next_name : String → Entry → String
next_name name e = if is_empty (trim name) then e.name else trim name

-- `renameProject` up to `await drafts.setItem`; the result says whether it goes on.
unfoldable pub rename_project : String → String → State → State × Bool
rename_project id name s = elim (s.projects id) [
  | none ↦ (s, false)
  | some e ↦
      if next_name name e == e.name
      then (s, false)
      else (let d = get_or e.local_draft e.document in
          (
            set_draft id e.version d (
                put (record (e.project) { name = next_name name e; document = d }) saving (some d)
                  s),
            true,
          ))
]

unfoldable pub renamed : String → State → State × Option Flight
renamed id s = persist id (stop_timer id s)

-- `deleteProject` up to its await.
unfoldable pub begin_delete : String → State → State
begin_delete id s = stop_timer id (record s { retired = set s.retired id true })

unfoldable pub delete_failed : String → State → State
delete_failed id s =
    let back = record s { retired = set s.retired id false } in
    if is_some (kept_draft (s.projects id)) then start_timer id 0 back else back

abbrev pub forget_active : String → Option String → Option String
forget_active id none = none
forget_active id (some a) = if a == id then none else some a

unfoldable pub deleted : String → State → State
deleted id s = remove_draft id (record s {
  projects = set s.projects id none;
  order = keep (λ k. not (k == id)) s.order;
  active_project = forget_active id s.active_project;
})

-- `reloadServer` after both of its awaits.
unfoldable pub reloaded : Project → State → State
reloaded p s = put p idle none (remove_draft p.id s)
