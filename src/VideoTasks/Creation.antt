-- ===== src/VideoTasks/Creation.antt =====
-- createVideoGenerationTask of frontend/src/adapters/video-api.ts, with the calls that it makes.
pub mod Registered
use Prim.Native.String.{◌++◌ as text_append}
use canvas_standalone.Prelude.{
  ℕ, String, Bool, true, false, not, ◌&&◌, Option, none, some, List, [], ◌∷◌, ◌⊎◌, inl, inr, length,
  if◌then◌else◌, ltb, nat_eq, is_empty, is_text, text_or, trim,
}
use canvas_standalone.AssetRuntime.{Aliases, asset_id_from_key}
use canvas_standalone.VideoTasks.Parameters.{Config, Offer, Parameters, video_parameters}
use canvas_standalone.Config.{model_option_name}

-- the fields of CanvasCapability that are read
pub record Capability : Type 0 where
  pub media_kind : Option String
  pub generation : Bool
  pub max_input_images : ℕ
  pub offer : Offer

pub record Reference : Type 0 where
  pub storage_key : Option String
  pub data_url : String
  pub url : Option String

-- the errors
pub data Refusal : Type 0 where
  aborted no_model unsupported no_project no_key no_prompt not_stored : Refusal
  too_many : ℕ → Refusal
  broken : String → Refusal

-- the selected texts of AiConfig, with `__sub2apiClientNodeID`
pub record Request : Type 0 where
  pub model : String
  pub video_model : String
  pub client_node_id : Option String
  pub prompt : String
  pub references : List Reference
  pub options : Config

pub record Input : Type 0 where
  pub project_id : String
  pub client_node_id : String
  pub api_key_id : ℕ
  pub selected_model : String
  pub prompt : String
  pub reference_asset_ids : List String
  pub parameters : Parameters

pub data Call : Type 0 where
  create : Input → String → Call
  cancel register : String → Call

-- What becomes of `api.createVideoTask`: the task that the server has made, the server's refusal, or
-- an error of a call that was aborted or lost on its way, where the server may have made a task that
-- the code never hears of.
pub data Answer : Type 0 where
  made : String → Answer
  refused lost : Refusal → Answer

-- What is asked of the other modules and of the signal. `upload` is uploadImage, and `earliest` the
-- one of the rejections of several uploads that comes first.
pub record Context : Type 0 where
  pub project_id : Option String
  pub api_key_id : Option ℕ
  pub capability_of : String → Option Capability
  pub aliases : Aliases
  pub upload : String → String ⊎ Refusal
  pub earliest : Refusal → List Refusal → Refusal
  pub fresh_node : String
  pub fresh_key : String
  pub aborted_first : Bool
  pub aborted_uploaded : Bool
  pub aborted_created : Bool
  pub answer : Answer

pub record Task : Type 0 where
  pub id : String
  pub model : String

pub record Run : Type 0 where
  pub calls : List Call
  pub result : Task ⊎ Refusal

abbrev pub refuse : List Call → Refusal → Run
refuse calls r = record { calls = calls; result = inr r }

-- `throw new Error(…)` where the condition holds
abbrev pub unless {ℓ} : {A : Type ℓ} → Bool → Refusal → A ⊎ Refusal → A ⊎ Refusal
unless true r rest = inr r
unless false r rest = rest

abbrev pub supported : Option Capability → Capability ⊎ Refusal
supported none = inr unsupported
supported (some c) = if is_text c.media_kind "video" && c.generation then inl c else inr unsupported

unfoldable pub require_capability : (String → Option Capability) → String → Capability ⊎ Refusal
require_capability capability_of model =
    unless (is_empty model) no_model (supported (capability_of model))

abbrev pub stored_id : Option String → String ⊎ Refusal
stored_id none = inr not_stored
stored_id (some id) = inl id

abbrev pub upload_reference : Context → Reference → String ⊎ Refusal
upload_reference cx r = elim (cx.upload (text_or (some r.data_url) (text_or r.url ""))) [
  | inr e ↦ inr e
  | inl key ↦ stored_id (asset_id_from_key cx.aliases (some key))
]

unfoldable pub ensure_reference : Context → Reference → String ⊎ Refusal
ensure_reference cx r = elim (asset_id_from_key cx.aliases r.storage_key) [
  | some id ↦ inl id
  | none ↦ upload_reference cx r
]

-- `Promise.all(references.map(ensureReferenceAssetID))`
abbrev pub failures : List (String ⊎ Refusal) → List Refusal
failures [] = []
failures (inl id ∷ rest) = failures rest
failures (inr e ∷ rest) = e ∷ failures rest

abbrev pub successes : List (String ⊎ Refusal) → List String
successes [] = []
successes (inl id ∷ rest) = id ∷ successes rest
successes (inr e ∷ rest) = successes rest

abbrev pub gathered : Context → List String → List Refusal → List String ⊎ Refusal
gathered cx ids [] = inl ids
gathered cx ids (e ∷ es) = inr (cx.earliest e es)

unfoldable pub all_ids : Context → List (String ⊎ Refusal) → List String ⊎ Refusal
all_ids cx results = gathered cx (successes results) (failures results)

abbrev pub selected_model : Request → String
selected_model request = model_option_name (text_or (some request.model) request.video_model)

abbrev pub key_missing : Option ℕ → Bool
key_missing none = true
key_missing (some n) = nat_eq n 0

abbrev pub check_rest : Context → Request → Capability ⊎ Refusal → Capability ⊎ Refusal
check_rest cx request (inr e) = inr e
check_rest cx request (inl c) = unless (is_empty (text_or cx.project_id "")) no_project (
    unless (key_missing cx.api_key_id) no_key (
      unless (is_empty (trim request.prompt)) no_prompt (
        unless (ltb c.max_input_images (length request.references)) (too_many c.max_input_images)
          (inl c))))

-- the checks before the first await
unfoldable pub check_request : Context → Request → Capability ⊎ Refusal
unfolding require_capability model_option_name trim
check_request cx request =
    unless cx.aborted_first aborted
      (check_rest cx request (require_capability cx.capability_of (selected_model request)))

abbrev pub client_node_id : Context → Request → String
client_node_id cx request = text_or request.client_node_id (text_append "video-" cx.fresh_node)

abbrev pub number_or : Option ℕ → ℕ → ℕ
number_or none d = d
number_or (some n) d = n

unfoldable pub task_input : Context → Request → Capability → List String → Input
unfolding model_option_name trim video_parameters
task_input cx request c ids = record {
  project_id = text_or cx.project_id "";
  client_node_id = client_node_id cx request;
  api_key_id = number_or cx.api_key_id 0;
  selected_model = selected_model request;
  prompt = trim request.prompt;
  reference_asset_ids = ids;
  parameters = video_parameters request.options c.offer;
}

-- `${projectID}:${clientNodeID}:video:${nanoid()}`
abbrev pub task_key : Context → Input → String
task_key cx input =
    text_append input.project_id
      (text_append ":" (text_append input.client_node_id (text_append ":video:" cx.fresh_key)))

-- from `api.createVideoTask` on
abbrev pub finish_creation : Context → Input → Answer → Run
finish_creation cx input (refused e) = refuse (create input (task_key cx input) ∷ []) e
finish_creation cx input (lost e) = refuse (create input (task_key cx input) ∷ []) e
finish_creation cx input (made id) =
    if cx.aborted_created
    then refuse (create input (task_key cx input) ∷ cancel id ∷ []) aborted
    else record {
      calls = create input (task_key cx input) ∷ register id ∷ [];
      result = inl (record { id = id; model = input.selected_model });
    }

abbrev pub with_ids : Context → Request → Capability → List String ⊎ Refusal → Run
with_ids cx request c (inr e) = refuse [] e
with_ids cx request c (inl ids) =
    if cx.aborted_uploaded
    then refuse [] aborted
    else finish_creation cx (task_input cx request c ids) cx.answer

abbrev pub each_reference : Context → List Reference → List (String ⊎ Refusal)
each_reference cx [] = []
each_reference cx (r ∷ rs) = ensure_reference cx r ∷ each_reference cx rs

abbrev pub after_checks : Context → Request → Capability ⊎ Refusal → Run
after_checks cx request (inr e) = refuse [] e
after_checks cx request (inl c) =
    with_ids cx request c (all_ids cx (each_reference cx request.references))

unfoldable pub create_task : Context → Request → Run
unfolding check_request all_ids task_input ensure_reference
create_task cx request = after_checks cx request (check_request cx request)
