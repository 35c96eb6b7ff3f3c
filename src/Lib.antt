-- ===== src/Lib.antt =====
-- The part of the browser application of Canvas Standalone that keeps a user's work: the projects
-- with their drafts and their saves (frontend/src/adapters/use-canvas-store.ts), the recovery of
-- generation tasks that outlive a page (frontend/src/jobs/canvas-task-recovery.ts), the aliases of
-- stored assets (frontend/src/adapters/asset-runtime.ts), the editor of single images
-- (frontend/src/editor/image-editor-controller.ts), the session of the user
-- (frontend/src/runtime/session-adapter.ts), the store of the opened projects over the server
-- (frontend/src/stores/server-canvas-store.ts), the side panel
-- (frontend/src/overrides/stores/use-canvas-side-panel-store.ts), the configuration of the models
-- (frontend/src/adapters/use-config-store.ts), the library of assets
-- (frontend/src/adapters/use-asset-store.ts), the client that makes and follows the tasks of videos
-- (frontend/src/adapters/video-api.ts), and what a generation passes through: its helpers
-- (frontend/src/adapters/canvas-generation-helpers.ts), the stream of its job
-- (frontend/src/api/canvas-api.ts) and the controller that follows it
-- (frontend/src/jobs/canvas-job-controller.ts).
--
-- The parts and how they interact. A page edits a project through the actions of `useCanvasStore`;
-- every edit is written to a draft, counted in the project's sync object and sent by a timer. A save
-- in flight is marked in the sync object; its answer is compared with the count to decide whether the
-- draft is still needed. Server tasks that a page no longer waits for are bound to the
-- nodes that show them as loading, and a finished task is written into its node as an edit of its
-- own. Before a document is sent, temporary addresses are cleared and keys of assets resolved. A
-- page that is opened again resets what no recovery claims. The editor of single images writes its
-- result into the node that it was opened from, by a storage key that leads back to the asset.
--
-- The files.
--   Prelude          numbers, tests, lists, maps and texts that all parts share
--   Json             the JSON values that documents are made of
--   Canvas           CanvasNodeData and its kin of frontend/src/upstream/types/canvas.ts
--   AssetRuntime     registerStorageKeyAlias, resolveStorageKeyAlias and the keys of assets
--   Streams          parseCanvasSSE of frontend/src/api/canvas-api.ts; Chunks is about the places
--                    where its reads end, Frames about the events that a server sends
--   JobController    run and resume of frontend/src/jobs/canvas-job-controller.ts
--   Generations      frontend/src/adapters/canvas-generation-helpers.ts; Retry has
--                    findRetrySourceNode, Interrupted resetInterruptedGeneration
--   EditorResults    frontend/src/editor/apply-editor-result.ts
--   Config           the texts that name models, in frontend/src/adapters/use-config-store.ts; Server
--                    has applyServerConfig, Preferences the preferences, Store the state with its
--                    initializations, History all orders of these
--   AssetLibrary     frontend/src/adapters/use-asset-store.ts; Rollback has its failed changes, Items
--                    libraryWrite and assetFromLibraryItem
--   VideoTasks       requestVideoGeneration and pollVideoGenerationTask of
--                    frontend/src/adapters/video-api.ts; Deadline counts their rounds, Calls is about
--                    what they leave behind, Creation has createVideoGenerationTask, Parameters
--                    videoParameters
--   Recovery         the records and tasks; Bindings has buildCanvasRecoveryBindings and
--                    findRecoveryTarget, Results applyCanvasRecoverySnapshot, Settle
--                    settleCanvasRecoverySources
--   Projects         the project, its sync object and its status; Document has projectDocument and
--                    sanitizeProjectValue, Hydration canvasRecoveryRecords and viewportValue, State
--                    the store with scheduleSave, Saving persistProject, Creation
--                    beginProjectCreation and retryProjectCreation, Commands the other actions,
--                    Deletion deleteProjects, Recoveries registerCanvasTaskRecovery and
--                    finishCanvasRecovery, World the interleavings of these, Blocked what follows a
--                    conflict, Races single orders of events
--   Editor           the state of the image editor (frontend/src/editor/image-editor-controller.ts);
--                    Saves has its loads, drafts and saves, Jobs its jobs and cancellations, World
--                    all interleavings of these, Conflicts what follows a conflict
--   Session          the tokens and their refresh (frontend/src/runtime/session-adapter.ts);
--                    OneRefresh has the interleavings of requests, Expiry the end of a session
--   ServerStore      the store over the server (frontend/src/stores/server-canvas-store.ts); Order has
--                    its list of projects, Races one order of events
--   SidePanel        the side panel (frontend/src/overrides/stores/use-canvas-side-panel-store.ts);
--                    Reachable has its states, Plain the panel without its motion
--   Tests            concrete states and the theorems at them
--
-- State. `State` of Projects.State has a field for each field of the zustand store and each map of
-- the module. The operations hold on to the sync object that they found, also after it has left
-- `syncByProject`, so the map goes to references into a heap of objects. An asynchronous function
-- is cut at its awaits: each piece is a function of the state, and what is carried over an await is
-- a record (`Flight`, `Creation`, `Deletion`). `World` keeps the saves that are in flight. Its `Step`
-- lets operations, timers and answers come in any order, apart from the first load, the reset and
-- `replaceProjects`, and from a reload that is answered or ends while a save of its object is in
-- flight; `AnyStep` of World.SingleSave leaves out only the first load. Times, fresh identifiers,
-- translated titles and what the server answers are arguments. Editor and Session are cut the same way;
-- where the source tells drafts or documents apart by identity, they are numbered objects. The job
-- controller takes the list of what it is answered, and so does the client of videos, which also
-- reads a clock: each round says how long its request takes and how late its timer fires.
--
-- Bounds and fuel. A chain of aliases is followed with one step more than there are aliases, which
-- is enough since no key is visited twice. A worklist of nodes is given two rounds for
-- each connection, since a node is put on it once for each connection to a node that is visited, and
-- the blocks of a buffer one round for each character. The loop of a greatest common divisor is given
-- one round more than its second number, and the digits of a number are given as many as the
-- number. Everything else is structural recursion. Numbers are counters of whole numbers that the
-- source only adds to and compares, and the sides of a size, which are read exactly.
--
-- Not modelled: the views, the translations, the notifications, the browser's storage of blobs, the
-- migration of documents of the first version, and the other languages of the repository (the
-- backend and the deployment).
pub mod AssetLibrary
pub mod AssetRuntime
pub mod Canvas
pub mod Config
pub mod Editor
pub mod EditorResults
pub mod Generations
pub mod JobController
pub mod Json
pub mod Prelude
pub mod Projects
pub mod Recovery
pub mod ServerStore
pub mod Session
pub mod SidePanel
pub mod Streams
pub mod Tests
pub mod VideoTasks
