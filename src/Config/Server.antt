-- ===== src/Config/Server.antt =====
-- frontend/src/adapters/use-config-store.ts: what applyServerConfig makes of the configuration that
-- the server gives for an API key.
use Prim.Native.String.{◌++◌ as text_append}
use canvas_standalone.Prelude.{
  ℕ, String, Bool, Option, none, some, List, [], ◌∷◌, has, get_or, is_empty, if◌then◌else◌, ◌==◌,
  nat_eq, put, find,
}
use canvas_standalone.Config.{
  Capability, image, video, text, audio, ChannelModel, Channel, AiConfig, channel_id, options_of,
  normalize_option, model_options_from_channels, model_field, show,
}

pub record ServerModel : Type 0 where
  pub model : String
  pub media_kind : Option String
  pub generation : Bool
  pub max_input_images : ℕ
  pub aspect_ratios : List String
  pub resolutions : List String
  pub video_seconds : List ℕ
  pub default_aspect_ratio : Option String
  pub default_resolution : Option String

pub record ApiKey : Type 0 where
  pub id : ℕ
  pub name : String
  pub group_name : String
  pub available : Option Bool

pub record ServerConfig : Type 0 where
  pub api_keys : List ApiKey
  pub models : List ServerModel

abbrev pub media_kind_of : String → Option Capability
media_kind_of kind =
    if kind == "image"
    then some image
    else if kind == "video"
    then some video
    else if kind == "audio"
    then some audio
    else if kind == "text"
    then some text
    else none

-- `serverModelCapability`
abbrev pub server_capability : Option String → Option Capability
server_capability none = none
server_capability (some kind) = media_kind_of kind

unfoldable pub channel_models : List ServerModel → List ChannelModel
channel_models [] = []
channel_models (m ∷ ms) = elim (server_capability m.media_kind) [
  | none ↦ channel_models ms
  | some c ↦ record { name = m.model; capability = c } ∷ channel_models ms
]

abbrev pub has_id : ℕ → ApiKey → Bool
has_id id k = nat_eq k.id id

abbrev pub channel_name : Option ApiKey → ℕ → String
channel_name none id = text_append "Sub2API " (show id)
channel_name (some k) id = text_append k.name (text_append " - " k.group_name)

unfoldable pub server_channel : ServerConfig → ℕ → Channel
unfolding channel_models
server_channel server key = record {
  id = channel_id key;
  name = channel_name (find (has_id key) server.api_keys) key;
  base_url = "";
  api_key = "";
  api_format = "openai";
  models = channel_models server.models;
}

abbrev pub first_option : List String → String
first_option [] = ""
first_option (o ∷ os) = o

-- `pick(capability, stored)`; `preferred` is the model of the session, which may be missing
unfoldable pub pick : Channel → Option String → Capability → String → String
unfolding options_of normalize_option
pick channel preferred c stored =
    let options = options_of channel c channel.models in
    let normalized_stored = normalize_option stored (channel ∷ []) in
    let normalized_preferred = normalize_option (get_or preferred "") (channel ∷ []) in
    if has normalized_stored options
    then normalized_stored
    else if has normalized_preferred options
    then normalized_preferred
    else first_option options

-- `a || b`
abbrev pub or_text : String → String → String
or_text a b = if is_empty a then b else a

-- the stored model that `pick` starts from
abbrev pub stored_model : (String → String) → Capability → String
stored_model texts image = or_text (texts "imageModel") (texts "model")
stored_model texts c = texts (model_field c)

unfoldable pub picked : ServerConfig → ℕ → Option String → (String → String) → Capability → String
unfolding pick server_channel
picked server key preferred texts c =
    pick (server_channel server key) preferred c (stored_model texts c)

-- `imageModel || videoModel || textModel || audioModel`
unfoldable pub picked_model : ServerConfig → ℕ → Option String → (String → String) → String
unfolding picked
picked_model server key preferred texts =
    let p = picked server key preferred texts in
    or_text (p image) (or_text (p video) (or_text (p text) (p audio)))

-- the configuration that is stored
unfoldable pub server_config : ServerConfig → ℕ → Option String → AiConfig → AiConfig
unfolding picked_model picked server_channel model_options_from_channels
server_config server key preferred current =
    let p = picked server key preferred current.texts in
    record {
      texts =
          put
            (put
              (put
                (put
                  (put
                    (put
                      (put (put (put current.texts "channelMode" "local") "baseUrl" "") "apiKey" "")
                      "apiFormat" "openai")
                    "model" (picked_model server key preferred current.texts))
                  "imageModel" (p image))
                "videoModel" (p video))
              "textModel" (p text))
            "audioModel" (p audio);
      channels = server_channel server key ∷ [];
      models = model_options_from_channels (server_channel server key ∷ []);
    }

-- the last model of a name: `capabilitiesByModel`
unfoldable pub capabilities : List ServerModel → String → Option ServerModel
capabilities [] name = none
capabilities (m ∷ ms) name = elim (capabilities ms name) [
  | none ↦ if m.model == name then some m else none
  | some later ↦ some later
]
