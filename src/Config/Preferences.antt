-- ===== src/Config/Preferences.antt =====
-- frontend/src/adapters/use-config-store.ts: the defaults, and the preferences in localStorage.
use canvas_standalone.Prelude.{
  String, ◌||◌, Option, none, some, List, [], ◌∷◌, has, get_or, if◌then◌else◌, ◌==◌,
}
use canvas_standalone.Config.{AiConfig}

abbrev pub default_text : String → String
default_text key =
    if key == "channelMode"
    then "local"
    else if key == "apiFormat"
    then "openai"
    else if key == "audioVoice"
    then "alloy"
    else if key == "audioFormat"
    then "mp3"
    else if key == "audioSpeed" || (key == "count")
    then "1"
    else if key == "videoSeconds"
    then "6"
    else if key == "vquality"
    then "720"
    else if key == "videoGenerateAudio"
    then "true"
    else if key == "videoWatermark"
    then "false"
    else if key == "reasoningEffort" || (key == "quality")
    then "auto"
    else if key == "size"
    then "1:1"
    else if key == "canvasImageCount"
    then "3"
    else ""

abbrev pub safe_preference_keys : List String
safe_preference_keys =
    "model" ∷ "imageModel" ∷ "videoModel" ∷ "textModel" ∷ "audioModel" ∷ "audioVoice"
    ∷ "audioFormat" ∷ "audioSpeed" ∷ "audioInstructions" ∷ "videoSeconds" ∷ "vquality"
    ∷ "videoGenerateAudio" ∷ "videoWatermark" ∷ "systemPrompt" ∷ "reasoningEffort" ∷ "quality"
    ∷ "size" ∷ "background" ∷ "count" ∷ "canvasImageCount" ∷ []

abbrev pub blocked_config_keys : List String
blocked_config_keys =
    "apiKey" ∷ "baseUrl" ∷ "channels" ∷ "channelMode" ∷ "apiFormat" ∷ "models" ∷ []

-- The object in localStorage, which anything else on the page may have written; a text that is no
-- JSON is the empty object. A value that is no text is left out of the model.
abbrev pub Preferences : Type 0
Preferences = String → Option String

-- `readSafePreferences`
unfoldable pub read_preferences : Preferences → String → Option String
read_preferences stored key = if has key safe_preference_keys then stored key else none

unfoldable pub write_preferences : AiConfig → Preferences
write_preferences config key =
    if has key safe_preference_keys then some (config.texts key) else none

-- `{ ...defaultConfig, ...readSafePreferences() }`
unfoldable pub initial_config : Preferences → AiConfig
unfolding read_preferences
initial_config stored = record {
  texts = λ key. get_or (read_preferences stored key) (default_text key);
  channels = [];
  models = [];
}
