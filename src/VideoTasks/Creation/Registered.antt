-- ===== src/VideoTasks/Creation/Registered.antt =====
-- What becomes of the tasks that createVideoGenerationTask lets the server make
-- (frontend/src/adapters/video-api.ts).
use canvas_standalone.Prelude.{
  ◌≤◌, String, true, false, List, [], ◌∷◌, ◌⊎◌, inl, inr, ◌≡◌, length, is_empty,
}
use canvas_standalone.VideoTasks.Parameters.{video_parameters}
use canvas_standalone.VideoTasks.Creation.{
  Capability, Reference, Refusal, Request, Input, Call, create, cancel, register, Context, Task,
  selected_model, task_key, ensure_reference, made, refused, lost, require_capability,
}

-- one asset for each reference, in their order: the stored one that the reference names, or the one
-- that its upload has made
abbrev AreAssets : Context → List Reference → List String → Type 0
AreAssets cx [] [] = Unit
AreAssets cx (r ∷ rs) (id ∷ ids) = (ensure_reference cx r ≡ inl id) × AreAssets cx rs ids
AreAssets cx _ _ = false ≡ true

-- what has been checked when a task is created from the input
abbrev Checked : Context → Request → Input → Type 0
Checked cx request input =
    (c : Capability) × ((require_capability cx.capability_of input.selected_model ≡ inl c)
      × ((is_empty input.project_id ≡ false)
          × ((is_empty input.prompt ≡ false)
              × ((AreAssets cx request.references input.reference_asset_ids)
                  × ((length input.reference_asset_ids ≤ c.max_input_images)
                      × (input.parameters ≡ video_parameters request.options c.offer))))))

-- the calls of a creation that fails: none, or one whose answer is a refusal or is lost, or one whose
-- task is cancelled
abbrev Undone : Context → List Call → Refusal → Type 0
Undone cx calls e =
    (calls ≡ [])
    ⊎ ((input : Input) × ((((cx.answer ≡ refused e) ⊎ (cx.answer ≡ lost e))
            × (calls ≡ create input (task_key cx input) ∷ []))
          ⊎ ((id : String) × ((cx.answer ≡ made id)
                × (calls ≡ create input (task_key cx input) ∷ cancel id ∷ [])))))

abbrev pub Recorded : Context → Request → List Call → Task ⊎ Refusal → Type 0
Recorded cx request calls (inr e) = Undone cx calls e
Recorded cx request calls (inl task) =
    (input : Input) × (Checked cx request input
      × ((cx.answer ≡ made task.id)
          × (calls ≡ create input (task_key cx input) ∷ register task.id ∷ [])))
