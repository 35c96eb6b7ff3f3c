-- ===== src/Config/Secrets.antt =====
-- The credentials in the configuration of frontend/src/adapters/use-config-store.ts.
use canvas_standalone.Prelude.{
  ℕ, String, false, or_else, ◌≡◌, refl, Option, some, ◌++◌, All, has, eq_iff, arith, Bool-cases,
  Option-cases, inl, inr,
}
use canvas_standalone.Config.{Channel, AiConfig}
use canvas_standalone.Config.Server.{ServerConfig, server_config, server_channel}
use canvas_standalone.Config.Store.{
  Store, Request, Selection, update_config, initialize, refresh, reset, select_api_key,
  summary_answered, details_answered, request_failed, open_config_dialog, set_config_dialog_open,
  clear_prompt_continue, loaded, is_current, usable, resolve_api_key, apply_server_config,
}
use canvas_standalone.Config.Preferences.{
  Preferences, blocked_config_keys, initial_config, read_preferences,
}
use canvas_standalone.Config.History.{
  Step, Reach, start, next, without, updates, initializes, refreshes, resets, selects, opens, shows,
  clears, summary_comes, details_come, fails, session_changes, preferences_change,
}

-- The fields that hold an API key or the address of a provider
abbrev pub HasNoKey : Channel → Type 0
HasNoKey c = (c.api_key ≡ "") × (c.base_url ≡ "")

pub record HasNoSecret (config : AiConfig) : Type 0 where
  pub key : config.texts "apiKey" ≡ ""
  pub url : config.texts "baseUrl" ≡ ""
  pub channels : All HasNoKey config.channels

initial_config-HasNoSecret : (stored : Preferences) → HasNoSecret (initial_config stored)
unfolding initial_config read_preferences
initial_config-HasNoSecret stored = record { key = refl; url = refl; channels = tt }

initialize-config : (preferred : Option ℕ) (s : Store) → (initialize preferred s).config ≡ s.config
unfolding initialize
initialize-config preferred s = ground arith

update_config-HasNoSecret :
    (key value : String) (s : Store)
    → HasNoSecret s.config
    → HasNoSecret (update_config key value s).config
unfolding update_config
update_config-HasNoSecret key value s h = elim (Bool-cases (has key blocked_config_keys)) [
  | inl e ↦ rw (e, update_config) h
  | inr e ↦
      rw (e, update_config)
        (record {
          key = ground (arith, eq_iff key "apiKey", eq_iff "apiKey" key);
          url = ground (arith, eq_iff key "baseUrl", eq_iff "baseUrl" key);
          channels = h.channels;
        })
]

details_answered-HasNoSecret :
    (r : Request) (key : ℕ) (server : ServerConfig) (s : Store)
    → HasNoSecret s.config
    → HasNoSecret (details_answered r key server s).config
unfolding details_answered apply_server_config server_config server_channel
details_answered-HasNoSecret r key server s h = elim (Bool-cases (is_current s r)) [
  | inl e ↦
      rw (e, details_answered) (record { key = refl; url = refl; channels = ((refl, refl), tt) })
  | inr e ↦ rw (e, details_answered) h
]

summary_answered-HasNoSecret :
    (r : Request) (preferred : Option ℕ) (server : ServerConfig) (s : Store)
    → HasNoSecret s.config
    → HasNoSecret (summary_answered r preferred server s).config
unfolding summary_answered
summary_answered-HasNoSecret r preferred server s h = elim (Bool-cases (is_current s r)) [
  | inr e ↦ rw (e, summary_answered) h
  | inl e ↦
      elim (Option-cases
        (usable (resolve_api_key server.api_keys (or_else preferred s.session.api_key_id)))) [
          | inl u ↦ rw (e, u, summary_answered) (record { key = h.key; url = h.url; channels = tt })
          | inr (k, u) ↦ rw (e, u, summary_answered) h
        ]
]

request_failed-config :
    (r : Request) (m : String) (s : Store) → (request_failed r m s).config ≡ s.config
unfolding request_failed
request_failed-config r m s = ground arith

step-HasNoSecret : {s t : Store} → Step s t → HasNoSecret s.config → HasNoSecret t.config
unfolding refresh reset select_api_key open_config_dialog set_config_dialog_open
    clear_prompt_continue
step-HasNoSecret {s} (updates key value) h = update_config-HasNoSecret key value s h
step-HasNoSecret {s} (initializes preferred) h = rw (initialize-config preferred s) h
step-HasNoSecret {s} refreshes h =
    rw (initialize-config s.selected (record s { initialized = false })) h
step-HasNoSecret {s} resets h = initial_config-HasNoSecret s.preferences
step-HasNoSecret {s} (selects key) h = rw (initialize-config (some key) s) h
step-HasNoSecret (opens prompt tab) h = h
step-HasNoSecret (shows is_open) h = h
step-HasNoSecret clears h = h
step-HasNoSecret {s} (summary_comes before after r preferred server e k) h =
    summary_answered-HasNoSecret r preferred server (without (before ++ after) s) h
step-HasNoSecret {s} (details_come before after r key server e k) h =
    details_answered-HasNoSecret r key server (without (before ++ after) s) h
step-HasNoSecret {s} (fails before after r message e) h =
    rw (request_failed-config r message (without (before ++ after) s)) h
step-HasNoSecret (session_changes selection) h = h
step-HasNoSecret (preferences_change stored) h = h

-- Whatever is stored in the page's preferences, edited and answered, the configuration holds no API
-- key and no address of a provider, and neither does a channel of it.
pub Reach-HasNoSecret :
    {session : Selection} {stored : Preferences} {s : Store}
    → Reach session stored s
    → HasNoSecret s.config
unfolding loaded
Reach-HasNoSecret {stored = stored} start = initial_config-HasNoSecret stored
Reach-HasNoSecret (next r step) = step-HasNoSecret step (Reach-HasNoSecret r)
