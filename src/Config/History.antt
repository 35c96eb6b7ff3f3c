-- ===== src/Config/History.antt =====
-- The histories of the store of frontend/src/adapters/use-config-store.ts: every operation, every
-- answer to a request in any order, and what the rest of the page writes.
use canvas_standalone.Prelude.{ℕ, String, Bool, ◌≡◌, Option, List, ◌∷◌, ◌++◌}
use canvas_standalone.Config.Server.{ServerConfig}
use canvas_standalone.Config.Store.{
  Store, Request, summary, details, Selection, update_config, initialize, refresh, reset,
  select_api_key, summary_answered, details_answered, request_failed, open_config_dialog,
  set_config_dialog_open, clear_prompt_continue, loaded,
}
use canvas_standalone.Config.Preferences.{Preferences}

abbrev pub without : List Request → Store → Store
without rs s = record s { requests = rs }

pub data Step (s : Store) : Store → Type 0 where
  updates : (key value : String) → Step s (update_config key value s)
  initializes : (preferred : Option ℕ) → Step s (initialize preferred s)
  refreshes : Step s (refresh s)
  resets : Step s (reset s)
  selects : (key : ℕ) → Step s (select_api_key key s)
  opens : (prompt : Bool) (tab : String) → Step s (open_config_dialog prompt tab s)
  shows : (is_open : Bool) → Step s (set_config_dialog_open is_open s)
  clears : Step s (clear_prompt_continue s)
  summary_comes :
      (before after : List Request) (r : Request) (preferred : Option ℕ) (server : ServerConfig)
      → s.requests ≡ before ++ r ∷ after
      → r.stage ≡ summary preferred
      → Step s (summary_answered r preferred server (without (before ++ after) s))
  details_come :
      (before after : List Request) (r : Request) (key : ℕ) (server : ServerConfig)
      → s.requests ≡ before ++ r ∷ after
      → r.stage ≡ details key
      → Step s (details_answered r key server (without (before ++ after) s))
  fails :
      (before after : List Request) (r : Request) (message : String)
      → s.requests ≡ before ++ r ∷ after
      → Step s (request_failed r message (without (before ++ after) s))
  session_changes : (selection : Selection) → Step s (record s { session = selection })
  preferences_change : (stored : Preferences) → Step s (record s { preferences = stored })

pub data Reach (session : Selection) (stored : Preferences) : Store → Type 0 where
  start : Reach session stored (loaded session stored)
  next : {s t : Store} → Reach session stored s → Step s t → Reach session stored t
