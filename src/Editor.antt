-- ===== src/Editor.antt =====
-- frontend/src/editor/image-editor-controller.ts: the state of one image editor. The source tells
-- drafts apart by object identity, so a draft is a reference to an object that never changes, and
-- every object that the code makes or receives is a new one.
pub mod Saves
pub mod Jobs
pub mod World
pub mod Conflicts
use canvas_standalone.Prelude.{
  ℕ, suc, String, Bool, true, false, ◌||◌, ◌&&◌, Option, none, some, List, if◌then◌else◌, write,
  truthy, or_else, is_number, is_text, text_or,
}
use canvas_standalone.Json.{Value, Fields}
use canvas_standalone.Recovery.{JobStatus}

-- ImageEditorDocumentV1; the viewport is only carried along.
pub record Draft : Type 0 where
  pub viewport : Value
  pub width : ℕ
  pub height : ℕ
  pub background : String
  pub selected_revision_id : Option String

pub record Asset : Type 0 where
  pub id : String
  pub width : ℕ
  pub height : ℕ

pub record Revision : Type 0 where
  pub id : String
  pub asset : Asset

-- ImageEditorDocument, its draft being one of the objects; the other fields are carried along.
pub record Document : Type 0 where
  pub id : String
  pub document : ℕ
  pub version : ℕ
  pub revisions : List Revision
  pub carried : Fields

-- What the server answers: a document whose draft is an object that the page has not seen.
pub record Answer : Type 0 where
  pub id : String
  pub document : Draft
  pub version : ℕ
  pub revisions : List Revision
  pub carried : Fields

pub data LoadState : Type 0 where
  load_idle load_hydrating load_ready load_error : LoadState

pub data SaveState : Type 0 where
  save_idle save_saving save_saved save_conflict save_error : SaveState

pub data JobState : Type 0 where
  job_idle job_running job_completed job_failed job_canceled : JobState

pub data ErrorKind : Type 0 where
  of_hydrate of_save of_conflict of_job of_cancel : ErrorKind

pub record Error : Type 0 where
  pub kind : ErrorKind
  pub message : String
  pub retryable : Bool

-- The fields of a CanvasJob that this code reads; `has_completed` is its status "completed".
pub record JobResult : Type 0 where
  pub has_completed : Bool
  pub asset_id : Option String

pub record JobError : Type 0 where
  pub message : String
  pub retryable : Option Bool

pub record Job : Type 0 where
  pub id : String
  pub status : JobStatus
  pub results : List JobResult
  pub error : Option JobError

pub data Operation : Type 0 where
  crop mask_edit background_replace outpaint revision_select : Operation

pub record SaveOptions : Type 0 where
  pub current_asset_id : Option String
  pub operation : Option Operation
  pub parameters : Option Fields
  pub asset_references : Option Value

-- ImageEditorControllerState
pub record View : Type 0 where
  pub load_state : LoadState
  pub save_state : SaveState
  pub job_state : JobState
  pub document : Option Document
  pub draft : Option ℕ
  pub job : Option Job
  pub error : Option Error

-- The variables of `createImageEditorController`. `objects` holds the drafts, `next_object` is above
-- all that are in use; `job_aborter` names an abort controller and `aborted` those that are aborted.
pub record Controller : Type 0 where
  pub view : View
  pub destroyed : Bool
  pub job_aborter : Option ℕ
  pub next_aborter : ℕ
  pub aborted : ℕ → Bool
  pub explicit_cancellation : Bool
  pub retained : Option SaveOptions
  pub objects : ℕ → Draft
  pub next_object : ℕ

-- What an `await` can throw, as `isEditorConflict` and `readableError` read it.
pub record Failure : Type 0 where
  pub message : Option String
  pub status : Option ℕ
  pub response_status : Option ℕ
  pub reason : Option String
  pub response_reason : Option String
  pub response_code : Option String
  pub code : Option String

unfoldable pub is_editor_conflict : Failure → Bool
is_editor_conflict e =
    is_number (or_else e.status e.response_status) 409
    || is_text (or_else e.reason (or_else e.response_reason (or_else e.response_code e.code)))
        "editor_version_conflict"

abbrev pub problem : ErrorKind → Failure → String → Option Error
problem kind e fallback =
    some (record { kind = kind; message = text_or e.message fallback; retryable = true })

-- `setState`
abbrev pub set_state : (View → View) → Controller → Controller
set_state f c = if c.destroyed then c else record c { view = f c.view }

-- A new draft object, which is `c.next_object`.
abbrev pub allocate : Draft → Controller → Controller
allocate d c = record c {
  objects = write c.objects c.next_object d;
  next_object = suc c.next_object;
}

abbrev pub received : Answer → Controller → Document
received a c = record {
  id = a.id;
  document = c.next_object;
  version = a.version;
  revisions = a.revisions;
  carried = a.carried;
}
