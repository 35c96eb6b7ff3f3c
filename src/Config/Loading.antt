-- ===== src/Config/Loading.antt =====
-- The requests under way in the store of frontend/src/adapters/use-config-store.ts.
use canvas_standalone.Prelude.{
  ℕ, suc, ◌+◌, ◌≤◌, String, Bool, true, false, ◌≡◌, refl, subst, not, ◌&&◌, is_some, or_else,
  Option-cases, Option, some, List, [], ◌∷◌, ◌++◌, All, All-split, has, if◌then◌else◌, nat_eq,
  arith, Bool-cases, inl, inr,
}
use canvas_standalone.Config.Server.{ServerConfig}
use canvas_standalone.Config.Store.{
  Store, Request, Stage, summary, details, Selection, update_config, initialize, refresh, reset,
  select_api_key, summary_answered, details_answered, request_failed, open_config_dialog,
  set_config_dialog_open, clear_prompt_continue, loaded, is_current, usable, resolve_api_key,
  apply_server_config,
}
use canvas_standalone.Config.Preferences.{Preferences, blocked_config_keys}
use canvas_standalone.Config.History.{
  Step, Reach, start, next, without, updates, initializes, refreshes, resets, selects, opens, shows,
  clears, summary_comes, details_come, fails, session_changes, preferences_change,
}

-- the requests of the latest initialization
abbrev pub current : ℕ → List Request → ℕ
current version [] = 0
current version (r ∷ rs) = (if nat_eq r.version version then 1 else 0) + current version rs

abbrev UpTo : ℕ → Request → Type 0
UpTo version r = r.version ≤ version

record IsWaiting (version : ℕ) (loading : Bool) (rs : List Request) : Type 0 where
  one : current version rs ≡ (if loading then 1 else 0)
  known : All (UpTo version) rs

current-split :
    (v : ℕ) (before : List Request) (r : Request) (after : List Request)
    → current v (before ++ r ∷ after)
      ≡ (if nat_eq r.version v then 1 else 0) + current v (before ++ after)
current-split v [] r after = refl
current-split v (b ∷ bs) r after = omega (arith, current-split v bs r after)

current-suc : (v : ℕ) (rs : List Request) → All (UpTo v) rs → current (suc v) rs ≡ 0
current-suc v [] h = refl
current-suc v (r ∷ rs) h = ground (arith, current-suc v rs h.1)

UpTo-suc : (v : ℕ) (rs : List Request) → All (UpTo v) rs → All (UpTo (suc v)) rs
UpTo-suc v [] h = tt
UpTo-suc v (r ∷ rs) h = (omega arith, UpTo-suc v rs h.1)

-- The version goes up, with a request of its own or with none.
IsWaiting-begin :
    (v : ℕ) (loading : Bool) (rs : List Request) (stage : Stage)
    → IsWaiting v loading rs
    → IsWaiting (suc v) true (record { version = suc v; stage = stage } ∷ rs)
IsWaiting-begin v loading rs stage h = record {
  one = ground (arith, current-suc v rs h.known);
  known = (omega arith, UpTo-suc v rs h.known);
}

IsWaiting-drop :
    (v : ℕ) (loading : Bool) (rs : List Request)
    → IsWaiting v loading rs
    → IsWaiting (suc v) false rs
IsWaiting-drop v loading rs h = record {
  one = current-suc v rs h.known;
  known = UpTo-suc v rs h.known;
}

-- A request is taken off: the latest one, or an older one.
IsWaiting-take :
    (v : ℕ) (loading : Bool) (before : List Request) (r : Request) (after rs : List Request)
    → rs ≡ before ++ r ∷ after
    → IsWaiting v loading rs
    → IsWaiting v (if nat_eq r.version v then false else loading) (before ++ after)
IsWaiting-take v loading before r after rs e h =
    let (p, rest) = All-split (UpTo v) before r after (subst (All (UpTo v)) e h.known) in
    let one = subst (λ (x : List Request). current v x ≡ (if loading then 1 else 0)) e h.one in
    record { one = ground (arith, current-split v before r after); known = rest }

abbrev Waits : Store → Type 0
Waits s = IsWaiting s.version s.loading s.requests

initialize-Waits : (preferred : Option ℕ) (s : Store) → Waits s → Waits (initialize preferred s)
unfolding initialize
initialize-Waits preferred s h = elim (Bool-cases (s.initialized && not (is_some preferred))) [
  | inl e ↦ rw (e, initialize) h
  | inr e ↦
      rw (e, initialize) (IsWaiting-begin s.version s.loading s.requests (summary preferred) h)
]

update_config-Waits : (key value : String) (s : Store) → Waits s → Waits (update_config key value s)
unfolding update_config
update_config-Waits key value s h = elim (Bool-cases (has key blocked_config_keys)) [
  | inl e ↦ rw (e, update_config) h
  | inr e ↦ rw (e, update_config) h
]

-- An answer to a request, or its failure: what the waiting needs of the store after it.
module _ (before after : List Request) (r : Request) (s : Store)
    (e : s.requests ≡ before ++ r ∷ after) (h : Waits s) where
  taken : IsWaiting s.version (if is_current s r then false else s.loading) (before ++ after)
  taken = IsWaiting-take s.version s.loading before r after s.requests e h

  old-Waits : is_current s r ≡ false → Waits (without (before ++ after) s)
  old-Waits old = rw old at taken

  done-Waits : is_current s r ≡ true → IsWaiting s.version false (before ++ after)
  done-Waits now = rw now at taken

  goes_on :
      (stage : Stage)
      → is_current s r ≡ true
      → IsWaiting s.version s.loading
          (record { version = r.version; stage = stage } ∷ before ++ after)
  goes_on stage now =
      let one =
        subst (λ (x : List Request). current s.version x ≡ (if s.loading then 1 else 0)) e h.one in
      record {
        one = ground (arith, current-split s.version before r after);
        known = (ground arith, (done-Waits now).known);
      }

  request_failed-Waits :
      (message : String) → Waits (request_failed r message (without (before ++ after) s))
  unfolding request_failed
  request_failed-Waits message = elim (Bool-cases (is_current s r)) [
    | inl now ↦ rw (now, request_failed) (done-Waits now)
    | inr old ↦ rw (old, request_failed) (old-Waits old)
  ]

  details_answered-Waits :
      (key : ℕ) (server : ServerConfig)
      → Waits (details_answered r key server (without (before ++ after) s))
  unfolding details_answered apply_server_config
  details_answered-Waits key server = elim (Bool-cases (is_current s r)) [
    | inl now ↦ rw (now, details_answered) (done-Waits now)
    | inr old ↦ rw (old, details_answered) (old-Waits old)
  ]

  summary_answered-Waits :
      (preferred : Option ℕ) (server : ServerConfig)
      → Waits (summary_answered r preferred server (without (before ++ after) s))
  unfolding summary_answered
  summary_answered-Waits preferred server = elim (Bool-cases (is_current s r)) [
    | inr old ↦ rw (old, summary_answered) (old-Waits old)
    | inl now ↦
        elim (Option-cases
          (usable (resolve_api_key server.api_keys (or_else preferred s.session.api_key_id)))) [
            | inl none_usable ↦ rw (now, none_usable, summary_answered) (done-Waits now)
            | inr (key, u) ↦ rw (now, u, summary_answered) (goes_on (details key) now)
          ]
  ]

step-Waits : {s t : Store} → Step s t → Waits s → Waits t
unfolding refresh reset select_api_key open_config_dialog set_config_dialog_open
    clear_prompt_continue
step-Waits {s} (updates key value) h = update_config-Waits key value s h
step-Waits {s} (initializes preferred) h = initialize-Waits preferred s h
step-Waits {s} refreshes h = initialize-Waits s.selected (record s { initialized = false }) h
step-Waits {s} resets h = IsWaiting-drop s.version s.loading s.requests h
step-Waits {s} (selects key) h = initialize-Waits (some key) s h
step-Waits (opens prompt tab) h = h
step-Waits (shows is_open) h = h
step-Waits clears h = h
step-Waits {s} (summary_comes before after r preferred server e k) h =
    summary_answered-Waits before after r s e h preferred server
step-Waits {s} (details_come before after r key server e k) h =
    details_answered-Waits before after r s e h key server
step-Waits {s} (fails before after r message e) h =
    request_failed-Waits before after r s e h message
step-Waits (session_changes selection) h = h
step-Waits (preferences_change stored) h = h

Reach-Waits :
    {session : Selection} {stored : Preferences} {s : Store} → Reach session stored s → Waits s
unfolding loaded
Reach-Waits start = record { one = refl; known = tt }
Reach-Waits (next r step) = step-Waits step (Reach-Waits r)

-- Whatever happens and in whatever order the answers come: the store shows itself as loading
-- exactly while a request of the latest initialization is under way, and then there is one of it.
pub current-Reach :
    {session : Selection} {stored : Preferences} {s : Store}
    → Reach session stored s
    → current s.version s.requests ≡ (if s.loading then 1 else 0)
current-Reach r = (Reach-Waits r).one
