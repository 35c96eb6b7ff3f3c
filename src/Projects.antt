-- ===== src/Projects.antt =====
-- frontend/src/adapters/use-canvas-store.ts: the projects that a page edits and the machinery that
-- saves them. This file has the types; the children have the operations, in the source's order.
pub mod Document
pub mod State
pub mod Saving
pub mod Hydration
pub mod Creation
pub mod Commands
pub mod Deletion
pub mod Recoveries
pub mod World
pub mod Races
pub mod Blocked
use canvas_standalone.Prelude.{
  ℕ, String, Bool, true, false, Option, none, some, List, [], ◌∷◌, if◌then◌else◌, ◌==◌,
}
use canvas_standalone.Json.{Value, Number, Fields}
use canvas_standalone.Canvas.{Node, Connection}
use canvas_standalone.Recovery.{Record, Binding, Graph}

pub data BackgroundMode : Type 0 where
  lines dots blank : BackgroundMode

pub record Viewport : Type 0 where
  pub x : Number
  pub y : Number
  pub k : Number

-- CanvasProject
pub record Project : Type 0 where
  pub id : String
  pub title : String
  pub created_at : String
  pub updated_at : String
  pub graph : Graph
  pub open graph use *
  pub chat_sessions : Value
  pub active_chat_id : Option String
  pub background_mode : BackgroundMode
  pub show_image_info : Bool
  pub viewport : Viewport
  pub recovery_revision : ℕ
  pub recoveries : List Record

-- CanvasProjectPatch: a missing field is `none`
pub record Patch : Type 0 where
  pub nodes : Option (List Node)
  pub connections : Option (List Connection)
  pub chat_sessions : Option Value
  pub active_chat_id : Option (Option String)
  pub background_mode : Option BackgroundMode
  pub show_image_info : Option Bool
  pub viewport : Option Viewport

pub data SaveState : Type 0 where
  dirty saving saved error conflict : SaveState

pub record SaveStatus : Type 0 where
  pub state : SaveState
  pub message : Option String

-- `ProjectSync.timer`: a timeout that was cleared leaves its handle behind where the source does
-- not reset the field.
pub data Timer : Type 0 where
  unset cleared : Timer
  due_in : ℕ → Timer

-- ProjectSync. `creating` says whether there is a promise; who awaits it may be resumed with either
-- outcome. `currentSave` is the flight of the object, in Projects/World.antt.
pub record Sync : Type 0 where
  pub version : ℕ
  pub sequence : ℕ
  pub creating : Bool
  pub timer : Timer
  pub saving : Bool
  pub retry_after_save : Bool
  pub blocked : Bool

-- DraftRecord; the project is the tree of JSON values that localforage keeps
pub record Draft : Type 0 where
  pub base_version : ℕ
  pub project : Value
  pub saved_at : ℕ
