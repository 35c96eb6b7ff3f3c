-- ===== src/Recovery.antt =====
-- frontend/src/jobs/canvas-task-recovery.ts: how the tasks that a reloaded page finds on the
-- server are bound to the nodes that wait for them, and how a finished task is written back.
pub mod Bindings
pub mod Results
pub mod Settle
use canvas_standalone.Prelude.{
  ℕ, String, Bool, true, false, ◌||◌, Option, none, some, List, [], ◌∷◌, has,
}
use canvas_standalone.Canvas.{Node, Connection}

pub data Kind : Type 0 where
  image video audio : Kind

-- CanvasJobStatus of frontend/src/api/canvas-api.ts
pub data JobStatus : Type 0 where
  queued running partial completed failed canceled indeterminate expired : JobStatus

pub record TaskResult : Type 0 where
  pub asset_id : Option String
  pub mime_type : Option String

-- What a CanvasJob and a CanvasMediaTask have in common and this code reads.
pub record Snapshot : Type 0 where
  pub id : String
  pub status : JobStatus
  pub client_node_id : Option String
  pub results : List TaskResult
  pub error_message : Option String
  pub created_at : Option ℕ

pub record MediaTask : Type 0 where
  pub kind : Kind
  pub snapshot : Snapshot

pub record Record : Type 0 where
  pub task_id : String
  pub kind : Kind
  pub source_node_id : String
  pub target_node_id : String
  pub image_id : Option String

pub record Binding : Type 0 where
  pub entry : Record
  pub open entry use *
  pub snapshot : Snapshot

pub record Graph : Type 0 where
  pub nodes : List Node
  pub connections : List Connection

abbrev pub kind_name : Kind → String
kind_name image = "image"
kind_name video = "video"
kind_name audio = "audio"

abbrev pub is_image : Kind → Bool
is_image image = true
is_image _ = false

abbrev pub status_name : JobStatus → String
status_name queued = "queued"
status_name running = "running"
status_name partial = "partial"
status_name completed = "completed"
status_name failed = "failed"
status_name canceled = "canceled"
status_name indeterminate = "indeterminate"
status_name expired = "expired"

-- `terminalStatuses` and `isTerminalRecoverySnapshot`
abbrev pub is_terminal_status : JobStatus → Bool
is_terminal_status queued = false
is_terminal_status running = false
is_terminal_status _ = true

abbrev pub is_terminal : Snapshot → Bool
is_terminal snapshot = is_terminal_status snapshot.status
