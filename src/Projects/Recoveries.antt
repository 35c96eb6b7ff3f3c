-- ===== src/Projects/Recoveries.antt =====
-- The recoveries of frontend/src/adapters/use-canvas-store.ts: `isCanvasRecoveryActive`,
-- `registerCanvasTaskRecovery`, the callback of `scheduleCanvasTaskRecoveryCleanup` and
-- `finishCanvasRecovery`.
use canvas_standalone.Prelude.{
  ℕ, ◌+◌, String, Bool, true, false, not, ◌&&◌, ◌||◌, Option, none, some, List, [], ◌∷◌, ◌++◌,
  if◌then◌else◌, ◌==◌, put, keep, any, truthy, is_text, is_empty, get_or,
}
use canvas_standalone.Recovery.{Record, Binding, Snapshot, MediaTask, Kind, is_image}
use canvas_standalone.Recovery.Bindings.{build_bindings}
use canvas_standalone.Recovery.Results.{apply_snapshot}
use canvas_standalone.Recovery.Settle.{settle_sources}
use canvas_standalone.Projects.{Project}
use canvas_standalone.Projects.State.{State, project_of, edit}

-- The test of one binding in `isCanvasRecoveryActive`.
abbrev pub binding_matches : String → Option String → Binding → Bool
binding_matches node_id image_id b =
    if truthy image_id
    then (b.target_node_id == node_id)
      && (not (truthy b.image_id) || is_text b.image_id (get_or image_id ""))
    else (b.source_node_id == node_id) || (b.target_node_id == node_id)

unfoldable pub is_recovery_active : String → Option String → State → Bool
is_recovery_active node_id image_id s = elim s.active_project [
  | none ↦ false
  | some id ↦
      if is_empty id then false else any (binding_matches node_id image_id) (s.recoveries id)
]

abbrev pub add_recovery : Record → Project → Project
add_recovery r p = record p { recoveries = p.recoveries ++ r ∷ [] }

-- `snapshot` as a job where an image is asked for, and else as a media task, which has a kind of its own
abbrev pub first_binding : Project → MediaTask → Kind → List Binding
first_binding p task kind =
    build_bindings p.graph (if is_image kind then task.snapshot ∷ [] else [])
      (if is_image kind then [] else task ∷ []) p.recoveries

-- The write of `registerCanvasTaskRecovery` once it has a binding.
unfoldable pub add_binding : String → Binding → ℕ → State → State
add_binding id b at s =
    edit id (add_recovery b.entry) true at
      (record s { recoveries = put s.recoveries id (s.recoveries id ++ b ∷ []) })

-- The own kind of the argument is not read where it is a job, which has none.
unfoldable pub register_recovery : MediaTask → Kind → ℕ → State → State
register_recovery task kind at s = elim s.active_project [
  | none ↦ s
  | some id ↦ if is_empty id || is_empty task.snapshot.id then s else elim (project_of id s) [
    | none ↦ s
    | some p ↦
        if any (λ (r : Record). r.task_id == task.snapshot.id) p.recoveries
        then s
        else elim (first_binding p task kind) [ [] ↦ s | b ∷ bs ↦ add_binding id b at s ]
  ]
]

abbrev pub without_task : String → List Record → List Record
without_task task = keep (λ (r : Record). not (r.task_id == task))

abbrev pub bindings_without : String → List Binding → List Binding
bindings_without task = keep (λ (b : Binding). not (b.task_id == task))

abbrev pub drop_recovery : String → Project → Project
drop_recovery task p = record p { recoveries = without_task task p.recoveries }

-- The callback of the cleanup timer.
unfoldable pub cleanup_fired : String → String → ℕ → State → State
cleanup_fired id task at s =
    let s' = record s { cleanups = keep (λ k. not ((k.0 == id) && (k.1 == task))) s.cleanups } in
    elim (project_of id s) [
      | none ↦ s'
      | some p ↦
          if any (λ (r : Record). r.task_id == task) p.recoveries
          then edit id (drop_recovery task) true at (record s' {
            recoveries = put s.recoveries id (bindings_without task (s.recoveries id));
          })
          else s'
    ]

-- The new project of `finishCanvasRecovery`.
unfoldable pub recovered_project : Binding → Snapshot → List Binding → Project → Project
recovered_project b snapshot remaining p = record p {
  graph = settle_sources (apply_snapshot p.graph b snapshot) (b.source_node_id ∷ []) remaining;
  recoveries = without_task b.task_id p.recoveries;
  recovery_revision = p.recovery_revision + 1;
}

unfoldable pub finish_recovery : String → Binding → Snapshot → ℕ → State → State
finish_recovery id b snapshot at s =
    let remaining = bindings_without b.task_id (s.recoveries id) in
    edit id (recovered_project b snapshot remaining) true at
      (record s { recoveries = put s.recoveries id remaining })
