-- ===== src/Editor/Saves.antt =====
-- Loading, editing and saving in frontend/src/editor/image-editor-controller.ts, cut at the awaits.
use canvas_standalone.Prelude.{
  ℕ, String, Bool, true, false, not, ◌&&◌, Option, none, some, if◌then◌else◌, truthy, get_or,
  nat_eq, find, ◌==◌,
}
use canvas_standalone.Json.{field, str, no_field}
use canvas_standalone.Editor.{
  Draft, Asset, Revision, Document, Answer, View, SaveState, Controller, SaveOptions, Operation,
  revision_select, Failure, problem, of_hydrate, of_save, of_conflict, set_state, allocate,
  received, load_hydrating, load_ready, load_error, save_idle, save_saving, save_saved,
  save_conflict, save_error,
}

-- `requireDocument`; `none` is its error.
abbrev pub require_document : Controller → Option (Document × ℕ)
require_document c = elim c.view.document [
  | none ↦ none
  | some document ↦ elim c.view.draft [ none ↦ none | some draft ↦ some (document, draft) ]
]

abbrev pub no_options : SaveOptions
no_options = record {
  current_asset_id = none;
  operation = none;
  parameters = none;
  asset_references = none;
}

-- A save in flight: what was sent, and the draft object that it was sent from. Of the options, the
-- request leaves out what is missing and an identifier that is empty.
pub record Saving : Type 0 where
  pub id : String
  pub version : ℕ
  pub draft : ℕ
  pub sent : Draft
  pub options : SaveOptions

abbrev pub selects_revision : Option Operation → Bool
selects_revision none = false
selects_revision (some operation) = elim operation [ revision_select ↦ true | _ ↦ false ]

abbrev pub without_revision : Draft → Draft
without_revision d = record d { selected_revision_id = none }

-- `options.currentAssetID && options.operation !== 'revision_select'`, where the draft selects one
abbrev pub drops_revision : SaveOptions → Draft → Bool
drops_revision options d =
    (truthy options.current_asset_id && not (selects_revision options.operation))
    && truthy d.selected_revision_id

abbrev pub saving_of : Document → ℕ → SaveOptions → Controller → Saving
saving_of document draft options c = record {
  id = document.id;
  version = document.version;
  draft = draft;
  sent = c.objects draft;
  options = options;
}

abbrev pub place_draft : ℕ → View → View
place_draft r v = record v { draft = some r }

abbrev pub show_saving : View → View
show_saving v = record v { save_state = save_saving; error = none }

unfoldable pub send : Document → ℕ → SaveOptions → Controller → Controller × Option Saving
send document draft options c =
    if drops_revision options (c.objects draft)
    then (let next = allocate (without_revision (c.objects draft)) c in
        (
          set_state show_saving (set_state (place_draft c.next_object) next),
          some (saving_of document c.next_object options next),
        ))
    else (set_state show_saving c, some (saving_of document draft options c))

-- `save` up to `await api.updateEditorDocument`.
unfoldable pub save : SaveOptions → Controller → Controller × Option Saving
save options c = elim (require_document c) [
  | none ↦ (c, none)
  | some current ↦ send current.0 current.1 options c
]

-- `state.draft !== savingDraft`
abbrev pub is_changed : Option ℕ → ℕ → Bool
is_changed none r = true
is_changed (some q) r = not (nat_eq q r)

-- The answer to the save.
unfoldable pub saved : Saving → Answer → Controller → Controller
saved f a c =
    let next = allocate a.document c in
    let changed = is_changed c.view.draft f.draft in
    record (set_state
      (λ v. record v {
        document = some (received a c);
        draft = if changed then v.draft else some c.next_object;
        save_state = if changed then save_idle else save_saved;
        error = none;
      })
      next) { retained = none }

abbrev pub kept_draft : Option ℕ → ℕ → Option ℕ
kept_draft none r = some r
kept_draft (some q) r = some q

abbrev pub show_save_error : Saving → Failure → View → View
show_save_error f e v = record v {
  draft = kept_draft v.draft f.draft;
  save_state = save_error;
  error = problem of_save e "Editor save failed";
}

-- The `catch` block without a conflict.
unfoldable pub save_failed : Saving → Failure → Controller → Controller
save_failed f e c = set_state (show_save_error f e) (record c { retained = some f.options })

-- The `catch` block up to `await api.getEditorDocument`; the result is `latest`.
unfoldable pub conflicted : Saving → Controller → Controller × Option Document
conflicted f c = (record c { retained = some f.options }, c.view.document)

abbrev pub show_conflict : Saving → Failure → Option Document → View → View
show_conflict f e latest v = record v {
  document = latest;
  draft = kept_draft v.draft f.draft;
  save_state = save_conflict;
  error = problem of_conflict e "The editor changed elsewhere";
}

-- After it: the server's copy, or the document that was there before where that did not come.
unfoldable pub conflict_refreshed :
    Saving → Failure → Option Document → Option Answer → Controller → Controller
conflict_refreshed f e before none c = set_state (show_conflict f e before) c
conflict_refreshed f e before (some a) c =
    set_state (show_conflict f e (some (received a c))) (allocate a.document c)

unfoldable pub retry_save : Controller → Controller × Option Saving
retry_save c = save (get_or c.retained no_options) c

abbrev pub show_hydrating : View → View
show_hydrating v = record v { load_state = load_hydrating; save_state = save_idle; error = none }

abbrev pub begin_hydrate : Controller → Controller
begin_hydrate c = set_state show_hydrating c

-- The answer to `createEditorDocument`, or to the `getEditorDocument` of a reload.
unfoldable pub hydrated : Answer → Controller → Controller
hydrated a c =
    set_state
      (λ v. record v {
        load_state = load_ready;
        save_state = save_idle;
        document = some (received a c);
        draft = some c.next_object;
        error = none;
      })
      (record (allocate a.document c) { retained = none })

abbrev pub show_load_error : Failure → String → View → View
show_load_error e fallback v = record v {
  load_state = load_error;
  error = problem of_hydrate e fallback;
}

abbrev pub hydrate_failed : Failure → String → Controller → Controller
hydrate_failed e fallback c = set_state (show_load_error e fallback) c

abbrev pub show_reloading : View → View
show_reloading v = record v { load_state = load_hydrating; error = none }

-- The result is the identifier that the server is asked for.
unfoldable pub begin_reload : Controller → Controller × Option String
begin_reload c = elim (require_document c) [
  | none ↦ (c, none)
  | some current ↦ (set_state show_reloading c, some current.0.id)
]

abbrev pub show_draft : ℕ → View → View
show_draft r v = record v { draft = some r; save_state = save_idle; error = none }

-- `none` is an update that returns the object it was given.
unfoldable pub update_draft : (Draft → Option Draft) → Controller → Controller
update_draft update c = elim (require_document c) [
  | none ↦ c
  | some current ↦ elim (update (c.objects current.1)) [
    | none ↦ set_state (show_draft current.1) c
    | some d ↦ set_state (show_draft c.next_object) (allocate d c)
  ]
]

abbrev pub with_size : ℕ → ℕ → Draft → Draft
with_size width height d = record d { width = width; height = height }

abbrev pub select_options : Revision → SaveOptions
select_options revision = record {
  current_asset_id = some revision.asset.id;
  operation = some revision_select;
  parameters = some (field "revision_id" (str revision.id) no_field);
  asset_references = none;
}

abbrev pub select : Revision → ℕ → Controller → Controller × Option Saving
select revision draft c = save (select_options revision) (
    set_state (show_draft c.next_object) (
      allocate
        (record (with_size revision.asset.width revision.asset.height (c.objects draft)) {
          selected_revision_id = some revision.id;
        })
        c))

unfoldable pub select_revision : String → Controller → Controller × Option Saving
select_revision id c = elim (require_document c) [
  | none ↦ (c, none)
  | some current ↦ elim (find (λ (r : Revision). r.id == id) current.0.revisions) [
    | none ↦ (c, none)
    | some revision ↦ select revision current.1 c
  ]
]

-- `commitDerivedAsset` up to `await api.uploadEditorDerivedAsset`.
unfoldable pub begin_upload : Controller → Controller × Option String
begin_upload c = elim (require_document c) [
  | none ↦ (c, none)
  | some current ↦ (set_state show_saving c, some current.0.id)
]

-- The draft takes the size of the uploaded asset and is saved.
unfoldable pub uploaded : Asset → SaveOptions → Controller → Controller × Option Saving
uploaded asset options c = elim (require_document c) [
  | none ↦ (c, none)
  | some current ↦
      save (record options { current_asset_id = some asset.id })
        (set_state (place_draft c.next_object)
          (allocate (with_size asset.width asset.height (c.objects current.1)) c))
]

abbrev pub is_saving : SaveState → Bool
is_saving save_saving = true
is_saving _ = false

abbrev pub show_upload_error : Failure → View → View
show_upload_error e v = record v {
  save_state = save_error;
  error = problem of_save e "Derived image upload failed";
}

-- Its `catch` block.
unfoldable pub upload_failed : Failure → Controller → Controller
upload_failed e c = if is_saving c.view.save_state then set_state (show_upload_error e) c else c

abbrev pub without_error : View → View
without_error v = record v { error = none }

abbrev pub clear_error : Controller → Controller
clear_error c = set_state without_error c
