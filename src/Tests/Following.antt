-- ===== src/Tests/Following.antt =====
-- The job controller and the results of the image editor on the small canvas.
use canvas_standalone.Prelude.{◌≡◌, refl, false, some, [], ◌∷◌, All, find_by, List}
use canvas_standalone.Canvas.{Node}
use canvas_standalone.Recovery.{queued, running, completed}
use canvas_standalone.JobController.{answer, refused, broken, finished, returned, monitor}
use canvas_standalone.JobController.Following.{
  until_terminal, InBounds, monitor-returns, monitor-waits,
}
use canvas_standalone.AssetRuntime.{lookup_alias}
use canvas_standalone.EditorResults.{Asset, apply_editor_result, persisted_asset_id}
use canvas_standalone.EditorResults.RoundTrip.{persisted_asset_id-apply_editor_result}
use canvas_standalone.Tests.Data.{job, image_node, config_node}

-- The stream breaks after one snapshot, and the second poll shows the job completed.
monitored :
    monitor
      (job queued)
      (job running ∷ [])
      (broken false "")
      (answer (job running) ∷ answer (job completed) ∷ [])
    ≡ record {
      updates = job queued ∷ job running ∷ job running ∷ job completed ∷ [];
      waits = 1000 ∷ 2000 ∷ [];
      outcome = returned (job completed);
    }
unfolding monitor
monitored = refl

monitor-returns_example :
    ((monitor
        (job queued)
        (job running ∷ [])
        (broken false "")
        (answer (job running) ∷ answer (job completed) ∷ [])).outcome
      ≡ returned (job completed))
    × ((monitor
          (job queued)
          (job running ∷ [])
          (broken false "")
          (answer (job running) ∷ answer (job completed) ∷ [])).updates
        ≡ until_terminal (job queued ∷ job running ∷ job running ∷ job completed ∷ []))
monitor-returns_example =
    monitor-returns (job queued) (job running ∷ []) (broken false "")
      (job running ∷ job completed ∷ []) refl refl

monitored_waits :
    All InBounds
      (monitor (job queued) [] finished (answer (job running) ∷ refused "gone" ∷ [])).waits
monitored_waits =
    monitor-waits (job queued) [] finished (answer (job running) ∷ refused "gone" ∷ [])

abbrev edited : Asset
edited = record { id = "a9"; width = 640; height = 480; byte_size = 1000; mime_type = "image/png" }

persisted_asset_id-apply_editor_result_example :
    (nodes : List Node) × (apply_editor_result edited "blob:1" "n" (config_node ∷ image_node ∷ [])
      ≡ some nodes)
    × (persisted_asset_id [] (find_by Node.id "n" nodes) ≡ some "a9")
    × (find_by Node.id "c" nodes ≡ find_by Node.id "c" (config_node ∷ image_node ∷ []))
unfolding lookup_alias
persisted_asset_id-apply_editor_result_example =
    persisted_asset_id-apply_editor_result edited "blob:1" [] "n" "c"
      (config_node ∷ image_node ∷ []) image_node refl refl (λ e. cc) refl refl refl
