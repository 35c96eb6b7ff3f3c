-- ===== src/Config/Store.antt =====
-- frontend/src/adapters/use-config-store.ts: the store, its initializations cut at their awaits.
use canvas_standalone.Prelude.{
  ℕ, suc, String, Bool, true, false, not, ◌&&◌, Option, none, some, List, [], ◌∷◌, has, any, get_or,
  is_empty, is_some, or_else, if◌then◌else◌, ◌==◌, nat_eq, is_number, put, trim,
}
use canvas_standalone.Config.{AiConfig, model_option_name, model_capability_of}
use canvas_standalone.Config.Server.{
  ServerModel, ApiKey, ServerConfig, server_config, capabilities, picked_model,
}
use canvas_standalone.Config.Preferences.{
  Preferences, initial_config, write_preferences, blocked_config_keys,
}

-- `canvas-session-store.ts`
pub record Selection : Type 0 where
  pub api_key_id : Option ℕ
  pub model : Option String

-- an initialization that waits: for the summary, or for the configuration of an API key
pub data Stage : Type 0 where
  summary : Option ℕ → Stage
  details : ℕ → Stage

pub record Request : Type 0 where
  pub version : ℕ
  pub stage : Stage

-- `initialized` says whether `configInitialization` is set, and `version` is
-- `configInitializationVersion`.
pub record Store : Type 0 where
  pub config : AiConfig
  pub canvas_config : Option ServerConfig
  pub loading : Bool
  pub error : String
  pub selected : Option ℕ
  pub initialized : Bool
  pub version : ℕ
  pub by_model : String → Option ServerModel
  pub session : Selection
  pub preferences : Preferences
  pub requests : List Request
  pub notices : List String
  pub is_open : Bool
  pub tab : String
  pub prompt_continue : Bool

unfoldable pub update_config : String → String → Store → Store
unfolding write_preferences model_option_name
update_config key value s =
    if has key blocked_config_keys
    then s
    else (let config : AiConfig = record s.config { texts = put s.config.texts key value } in
        record s {
          config = config;
          preferences = write_preferences config;
          session =
              if key == "model"
              then record { api_key_id = s.selected; model = some (model_option_name value) }
              else s.session;
        })

-- `resolvePreferredCanvasAPIKeyID`
abbrev pub is_available : ApiKey → Bool
is_available k = get_or k.available true

unfoldable pub resolve_api_key : List ApiKey → Option ℕ → Option ℕ
resolve_api_key keys preferred =
    if any (λ (k : ApiKey). is_available k && is_number preferred k.id) keys
    then preferred
    else none

-- a number that is present and not 0
abbrev pub usable : Option ℕ → Option ℕ
usable none = none
usable (some n) = if nat_eq n 0 then none else some n

-- `initializeCanvasConfigStore` up to its first await
unfoldable pub initialize : Option ℕ → Store → Store
initialize preferred s = if s.initialized && not (is_some preferred) then s else record s {
  version = suc s.version;
  loading = true;
  error = "";
  initialized = true;
  requests = record { version = suc s.version; stage = summary preferred } ∷ s.requests;
}

abbrev pub is_current : Store → Request → Bool
is_current s r = nat_eq r.version s.version

-- the write where no API key can be used
abbrev pub without_key : ServerConfig → Store → Store
without_key server s = record s {
  selected = none;
  by_model = λ _. none;
  session = record { api_key_id = none; model = none };
  canvas_config = some server;
  loading = false;
  config = record {
    texts =
        put
          (put (put (put (put s.config.texts "model" "") "imageModel" "") "videoModel" "")
            "textModel" "")
          "audioModel" "";
    channels = [];
    models = [];
  };
}

-- the answer to the first request; the request itself is taken off `requests` before
unfoldable pub summary_answered : Request → Option ℕ → ServerConfig → Store → Store
unfolding resolve_api_key
summary_answered r preferred server s =
    if not (is_current s r)
    then s
    else elim (usable (resolve_api_key server.api_keys (or_else preferred s.session.api_key_id))) [
      | none ↦ without_key server s
      | some key ↦ record s {
        canvas_config = some server;
        requests = record { version = r.version; stage = details key } ∷ s.requests;
      }
    ]

-- `applyServerConfig`
unfoldable pub apply_server_config : ServerConfig → ℕ → Store → Store
unfolding server_config capabilities picked_model model_option_name
apply_server_config server key s = record s {
  config = server_config server key s.session.model s.config;
  canvas_config = some server;
  loading = false;
  error = "";
  selected = some key;
  by_model = capabilities server.models;
  session = record {
    api_key_id = some key;
    model = some (model_option_name (picked_model server key s.session.model s.config.texts));
  };
}

unfoldable pub details_answered : Request → ℕ → ServerConfig → Store → Store
unfolding apply_server_config
details_answered r key server s = if is_current s r then apply_server_config server key s else s

-- the callback of `catch`
unfoldable pub request_failed : Request → String → Store → Store
request_failed r message s = if not (is_current s r) then s else record s {
  initialized = false;
  loading = false;
  error = message;
  notices = message ∷ s.notices;
}

unfoldable pub refresh : Store → Store
unfolding initialize
refresh s = initialize s.selected (record s { initialized = false })

unfoldable pub reset : Store → Store
unfolding initial_config
reset s = record s {
  version = suc s.version;
  selected = none;
  initialized = false;
  by_model = λ _. none;
  config = initial_config s.preferences;
  canvas_config = none;
  loading = false;
  error = "";
  is_open = false;
  prompt_continue = false;
}

unfoldable pub select_api_key : ℕ → Store → Store
unfolding initialize
select_api_key key s = initialize (some key) s

unfoldable pub open_config_dialog : Bool → String → Store → Store
open_config_dialog prompt tab s = record s { is_open = true; prompt_continue = prompt; tab = tab }

unfoldable pub set_config_dialog_open : Bool → Store → Store
set_config_dialog_open is_open s = record s { is_open = is_open }

unfoldable pub clear_prompt_continue : Store → Store
clear_prompt_continue s = record s { prompt_continue = false }

-- `isAiConfigReady`
unfoldable pub is_ai_config_ready : Store → AiConfig → String → Bool
unfolding trim model_capability_of
is_ai_config_ready s config model =
    is_some (usable s.selected)
    && (not (is_empty (trim model)) && is_some (model_capability_of config.channels model))

-- `getCanvasModelCapability`
unfoldable pub canvas_model_capability : Store → String → Option ServerModel
unfolding model_option_name
canvas_model_capability s model = s.by_model (model_option_name model)

-- the store when the module is loaded
unfoldable pub loaded : Selection → Preferences → Store
unfolding initial_config
loaded session stored = record {
  config = initial_config stored;
  canvas_config = none;
  loading = false;
  error = "";
  selected = none;
  initialized = false;
  version = 0;
  by_model = λ _. none;
  session = session;
  preferences = stored;
  requests = [];
  notices = [];
  is_open = false;
  tab = "channels";
  prompt_continue = false;
}
