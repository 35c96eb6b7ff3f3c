-- ===== src/Projects/Creation.antt =====
-- `emptyProject`, `createOptimisticProject`, `beginProjectCreation` and `retryProjectCreation` of
-- frontend/src/adapters/use-canvas-store.ts, cut at their `await`s.
use canvas_standalone.Prelude.{
  is_number, truthy_or_none, ℕ, suc, String, Bool, true, false, not, ◌||◌, Option, none, some, List,
  [], ◌∷◌, if◌then◌else◌, nat_eq, put, write, text_or, is_some, get_or,
}
use canvas_standalone.Json.{Value, arr, nil, nat}
use canvas_standalone.Canvas.{Node, Connection}
use canvas_standalone.Recovery.{Record}
use canvas_standalone.Projects.{
  Project, BackgroundMode, lines, Viewport, dirty, saving, saved, error, Sync, unset,
}
use canvas_standalone.Projects.Document.{project_document}
use canvas_standalone.Projects.State.{
  State, project_of, set_status, on_object, update_project, remove_draft, Failure, error_status,
  readable_error, schedule_save,
}
use canvas_standalone.Projects.Saving.{Flight, persist}

abbrev pub initial_viewport : Viewport
initial_viewport = record { x = nat 0; y = nat 0; k = nat 1 }

-- `Partial<CanvasProject>`, as far as a new project takes it over.
pub record Source : Type 0 where
  pub title : Option String
  pub created_at : Option String
  pub nodes : Option (List Node)
  pub connections : Option (List Connection)
  pub chat_sessions : Option Value
  pub active_chat_id : Option String
  pub background_mode : Option BackgroundMode
  pub show_image_info : Option Bool
  pub viewport : Option Viewport
  pub recoveries : Option (List Record)

-- `untitled` is the translated title of a project that has none.
unfoldable pub new_project : String → Source → Option String → String → String → Project
new_project id source title untitled now = record {
  id = id;
  title = text_or title (text_or source.title untitled);
  created_at = text_or source.created_at now;
  updated_at = now;
  graph = record { nodes = get_or source.nodes []; connections = get_or source.connections [] };
  chat_sessions = get_or source.chat_sessions (arr nil);
  active_chat_id = truthy_or_none source.active_chat_id;
  background_mode = get_or source.background_mode lines;
  show_image_info = get_or source.show_image_info false;
  viewport = get_or source.viewport initial_viewport;
  recovery_revision = 0;
  recoveries = get_or source.recoveries [];
}

abbrev pub new_sync : Sync
new_sync = record {
  version = 0;
  sequence = 0;
  creating = false;
  timer = unset;
  saving = false;
  retry_after_save = false;
  blocked = false;
}

-- `syncByProject.set(id, { … })`, a new object
abbrev pub add_object : String → Sync → State → State
add_object id y s = record s {
  syncs = put s.syncs id (some s.next_object);
  objects = write s.objects s.next_object y;
  next_object = suc s.next_object;
}

-- A creation in flight: the project, its sync object, the epoch at the start and what was sent.
pub record Creation : Type 0 where
  pub id : String
  pub object : ℕ
  pub epoch : ℕ
  pub title : String
  pub document : Value

-- Up to `await api().createProject`; with no project the promise is rejected at once.
unfoldable pub begin_creation : String → ℕ → State → State × Option Creation
begin_creation id r s =
    let s' = on_object r (λ y. record y { creating = true }) s in
    elim (project_of id s) [
      | none ↦ (s', none)
      | some p ↦ (
        s',
        some (record {
          id = id;
          object = r;
          epoch = s.epoch;
          title = p.title;
          document = project_document s.aliases p;
        }),
      )
    ]

unfoldable pub create_optimistic :
    String → Source → Option String → String → String → State → State × Option Creation
create_optimistic id source title untitled now s =
    let project = new_project id source title untitled now in
    let added = add_object id new_sync s in
    begin_creation id s.next_object
      (set_status id saving none (record added { projects = project ∷ s.projects }))

-- The answer to `createProject` or `getProject`.
pub record Created : Type 0 where
  pub version : ℕ
  pub created_at : String
  pub updated_at : String

abbrev pub merge_created : Created → Project → Project
merge_created v p = record p { created_at = v.created_at; updated_at = v.updated_at }

-- `epoch !== runtimeEpoch || !syncByProject.has(id)`
abbrev pub is_stale : Creation → State → Bool
is_stale c s = not (nat_eq c.epoch s.epoch) || not (is_some (s.syncs c.id))

-- From the answer to the removal of the draft; the result says whether the draft is removed.
unfoldable pub created : Creation → Created → ℕ → State → State × Bool
created c v at s =
    let s1 = on_object c.object (λ y. record y { version = v.version; blocked = false }) s in
    let s2 = update_project c.id (merge_created v) s1 in
    if is_stale c s
    then (s1, false)
    else if nat_eq (s.objects c.object).sequence 0
    then (remove_draft c.id s2, true)
    else (schedule_save c.id true at s2, false)

unfoldable pub creation_saved : Creation → State → State
creation_saved c s = set_status c.id saved none s

unfoldable pub creation_failed : Creation → Failure → State → State
creation_failed c e s =
    if is_stale c s
    then s
    else set_status c.id error (some (readable_error e "Project creation failed"))
        (on_object c.object (λ y. record y { blocked = true }) s)

-- `retryProjectCreation` up to `await api().getProject`.
unfoldable pub retry_creation : String → ℕ → State → State
retry_creation id r s =
    set_status id saving none (on_object r (λ y. record y { blocked = false }) s)

-- It found the project on the server.
unfoldable pub found_on_server : String → ℕ → Created → State → State × Option Flight
found_on_server id r v s =
    if is_some (s.syncs id)
    then persist id (
        set_status id dirty none (
          update_project id (merge_created v)
            (on_object r (λ y. record y { version = v.version; creating = true }) s)))
    else (s, none)

-- It did not: a project that is missing is created again, and any other error blocks the saves.
unfoldable pub lookup_failed : String → ℕ → Failure → State → State × Option Creation
lookup_failed id r e s = if is_number (error_status e) 404 then begin_creation id r s else (
  set_status id error (some (readable_error e "Project creation retry failed"))
      (on_object r (λ y. record y { blocked = true }) s),
  none,
)
