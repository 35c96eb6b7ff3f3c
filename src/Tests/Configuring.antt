-- ===== src/Tests/Configuring.antt =====
-- The configuration of a server with an image model and a text model.
use canvas_standalone.Prelude.{
  ◌≡◌, ◌⊎◌, refl, true, false, some, none, [], ◌∷◌, if◌then◌else◌, trim,
}
use canvas_standalone.Config.{text, channel_id, encode, decode, model_capability_of, model_field}
use canvas_standalone.Config.Encoding.{decode-encode, NoColon-channel_id}
use canvas_standalone.Config.Server.{ServerModel, ServerConfig}
use canvas_standalone.Config.Preferences.{Preferences}
use canvas_standalone.Config.Store.{
  Store, Selection, Request, summary, loaded, initialize, summary_answered, apply_server_config,
}
use canvas_standalone.Config.History.{Reach, start, next, initializes, summary_comes, without}
use canvas_standalone.Config.Loading.{current, current-Reach}
use canvas_standalone.Config.Secrets.{HasNoSecret, Reach-HasNoSecret}
use canvas_standalone.Config.Picks.{offered, apply_server_config-picks}

abbrev pub image_model : ServerModel
image_model = record {
  model = "gpt-image";
  media_kind = some "image";
  generation = true;
  max_input_images = 2;
  aspect_ratios = [];
  resolutions = [];
  video_seconds = [];
  default_aspect_ratio = none;
  default_resolution = none;
}

abbrev text_model : ServerModel
text_model = record image_model { model = "vendor::chat"; media_kind = some "text" }

abbrev server : ServerConfig
server = record {
  api_keys = record { id = 12; name = "Mine"; group_name = "Team"; available = none } ∷ [];
  models = image_model ∷ text_model ∷ [];
}

abbrev session : Selection
session = record { api_key_id = some 12; model = none }

abbrev stored : Preferences
stored key = none

abbrev opened : Store
opened = loaded session stored

channel_text : encode (channel_id 12) " gpt-image " ≡ "sub2api-12::gpt-image"
unfolding encode channel_id
channel_text = refl

decode-encode_example :
    decode (encode (channel_id 12) "vendor::chat") ≡ some (channel_id 12, "vendor::chat")
unfolding trim
decode-encode_example = decode-encode (channel_id 12) "vendor::chat" (NoColon-channel_id 12)

picked_image :
    (apply_server_config server 12 opened).config.texts "imageModel" ≡ "sub2api-12::gpt-image"
unfolding apply_server_config loaded channel_id
picked_image = refl

picked_video : (apply_server_config server 12 opened).config.texts "videoModel" ≡ ""
unfolding apply_server_config loaded channel_id
picked_video = refl

apply_server_config-picks_example :
    (((apply_server_config server 12 opened).config.texts (model_field text) ≡ "")
      × (offered server.models text ≡ false))
    ⊎ (model_capability_of
          (apply_server_config server 12 opened).config.channels
          ((apply_server_config server 12 opened).config.texts (model_field text))
        ≡ some text)
unfolding trim
apply_server_config-picks_example =
    apply_server_config-picks server 12 opened text
      (record { trimmed = refl; filled = refl }, (record { trimmed = refl; filled = refl }, tt))
      (refl, (refl, tt))

-- Two initializations are begun, and the summary of the first comes.
abbrev first_request : Request
first_request = record { version = 1; stage = summary none }

abbrev second_request : Request
second_request = record { version = 2; stage = summary (some 12) }

begun_twice : Reach session stored (initialize (some 12) (initialize none opened))
begun_twice = next (next start (initializes none)) (initializes (some 12))

two_requests :
    (initialize (some 12) (initialize none opened)).requests ≡ second_request ∷ first_request ∷ []
unfolding initialize loaded
two_requests = refl

answered : Reach session stored (
    summary_answered first_request none server
      (without (second_request ∷ []) (initialize (some 12) (initialize none opened))))
answered =
    next begun_twice
      (summary_comes (second_request ∷ []) [] first_request none server two_requests refl)

abbrev answered_store : Store
answered_store =
    summary_answered first_request none server
      (without (second_request ∷ []) (initialize (some 12) (initialize none opened)))

current-Reach_example :
    current answered_store.version answered_store.requests
    ≡ (if answered_store.loading then 1 else 0)
current-Reach_example = current-Reach answered

still_loading : answered_store.loading ≡ true
unfolding summary_answered initialize loaded
still_loading = refl

Reach-HasNoSecret_example : HasNoSecret answered_store.config
Reach-HasNoSecret_example = Reach-HasNoSecret answered
