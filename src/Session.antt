-- ===== src/Session.antt =====
-- frontend/src/runtime/session-adapter.ts: the tokens in the browser's storage, their refresh and
-- `authorizedFetch`, cut at the awaits. The storage is shared with the other pages of the site.
pub mod OneRefresh
pub mod Expiry
use canvas_standalone.Prelude.{
  ℕ, suc, ◌+◌, ◌*◌, String, Bool, true, false, not, ◌&&◌, ◌||◌, Option, none, some, List, ◌∷◌,
  if◌then◌else◌, nat_eq, trim, truthy_or_none, is_text, begins, codes, is_lower, ltb, truthy,
  is_some, ◌==◌, is_empty,
}

-- `in_flight` is `refreshInFlight`, by the number of its promise.
pub record State : Type 0 where
  pub access : Option String
  pub refresh : Option String
  pub expires_at : Option ℕ
  pub in_flight : Option ℕ
  pub next_promise : ℕ
  pub redirects : List String

abbrev pub trimmed : Option String → Option String
trimmed none = none
trimmed (some s) = some (trim s)

unfoldable pub access_token : State → Option String
access_token s = truthy_or_none (trimmed s.access)

-- The target is `/login?redirect=…`, of the path that the page is on.
abbrev pub redirect_to_login : String → State → State
redirect_to_login target s = record s { redirects = target ∷ s.redirects }

-- OfficialTokenPair, where it is what it is meant to be
pub record Pair : Type 0 where
  pub access_token : String
  pub refresh_token : String
  pub expires_in : ℕ

-- The answer to the refresh; a field is missing where it has another type, or is no finite number.
pub record Data : Type 0 where
  pub access_token : Option String
  pub refresh_token : Option String
  pub expires_in : Option ℕ
  pub token_type : Option String

pub record Reply : Type 0 where
  pub ok : Bool
  pub content_type : Option String
  pub code : ℕ
  pub payload : Option Data

-- A refresh in flight, with the token that it sent.
pub record Refresh : Type 0 where
  pub promise : ℕ
  pub token : String

pub data Begin : Type 0 where
  shares : ℕ → Begin
  refuses : Begin
  starts : Refresh → State → Begin

abbrev pub start : String → State → Begin
start token s =
    starts (record { promise = s.next_promise; token = token })
      (record s { in_flight = some s.next_promise; next_promise = suc s.next_promise })

-- `refresh` up to the call of the server.
unfoldable pub begin_refresh : State → Begin
begin_refresh s = elim s.in_flight [
  | some p ↦ shares p
  | none ↦ elim (truthy_or_none (trimmed s.refresh)) [ none ↦ refuses | some token ↦ start token s ]
]

abbrev pub is_json : Option String → Bool
is_json none = false
is_json (some t) = begins (codes "application/json") (codes t)

abbrev pub is_bearer : Option String → Bool
is_bearer none = false
is_bearer (some t) = is_lower (codes "bearer") (codes t)

abbrev pub is_positive : Option ℕ → Bool
is_positive none = false
is_positive (some n) = ltb 0 n

abbrev pub is_complete : Data → Bool
is_complete d =
    truthy d.access_token
    && (truthy d.refresh_token && (is_positive d.expires_in && is_bearer d.token_type))

abbrev pub text_of : Option String → String
text_of none = ""
text_of (some s) = s

abbrev pub number_of : Option ℕ → ℕ
number_of none = 0
number_of (some n) = n

abbrev pub pair_of : Data → Pair
pair_of d = record {
  access_token = text_of d.access_token;
  refresh_token = text_of d.refresh_token;
  expires_in = number_of d.expires_in;
}

-- The tests on the answer.
unfoldable pub checked : Reply → Option Pair
checked r =
    if r.ok && (is_json r.content_type && nat_eq r.code 0)
    then elim r.payload [ none ↦ none | some d ↦ if is_complete d then some (pair_of d) else none ]
    else none

abbrev pub store_pair : Pair → ℕ → State → State
store_pair p now s = record s {
  access = some p.access_token;
  expires_at = some (now + p.expires_in * 1000);
  refresh = some p.refresh_token;
}

-- `storage.getItem(REFRESH_TOKEN_KEY)?.trim() === refreshToken`
abbrev pub is_unchanged : Refresh → State → Bool
is_unchanged f s = is_text (trimmed s.refresh) f.token

-- The `finally` block.
abbrev pub settle : Refresh → State → State
settle f s = record s {
  in_flight = elim s.in_flight [
    | none ↦ none
    | some p ↦ if nat_eq p f.promise then none else some p
  ];
}

-- The rest of `refresh`; `none` is an error.
unfoldable pub refresh_answered : Refresh → Reply → ℕ → State → State × Option Pair
refresh_answered f r now s = elim (checked r) [
  | none ↦ (settle f s, none)
  | some p ↦
      if is_unchanged f s then (settle f (store_pair p now s), some p) else (settle f s, none)
]

-- The request itself failed.
unfoldable pub refresh_broken : Refresh → State → State
refresh_broken f s = settle f s

-- The `catch` block of `authorizedFetch`.
unfoldable pub expire : String → State → State
expire target s =
    redirect_to_login target (record s { access = none; refresh = none; expires_at = none })

-- What a fetch does: throw, or send its request with a token.
pub data Fetch : Type 0 where
  unavailable : State → Fetch
  sends : String → Fetch

unfoldable pub authorized_fetch : String → State → Fetch
authorized_fetch target s = elim (access_token s) [
  | none ↦ unavailable (redirect_to_login target s)
  | some token ↦ sends token
]

-- The answer to the first request: it is the result, or the tokens are refreshed.
unfoldable pub first_answered : ℕ → State → Option Begin
first_answered status s = if nat_eq status 401 then some (begin_refresh s) else none

-- What the refresh gave: the token for the second request, or the end of the session.
unfoldable pub after_refresh : String → Option Pair → State → State × Option String
after_refresh target none s = (expire target s, none)
after_refresh target (some p) s = (s, some p.access_token)

-- The answer to the second request, and its failure.
unfoldable pub second_answered : String → ℕ → State → State
second_answered target status s = if nat_eq status 401 then redirect_to_login target s else s

unfoldable pub second_broken : String → State → State
second_broken target s = expire target s
