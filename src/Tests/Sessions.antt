-- ===== src/Tests/Sessions.antt =====
-- A session at concrete inputs.
use canvas_standalone.Prelude.{
  trim, true, none, some, [], ◌∷◌, ◌≡◌, refl, if◌then◌else◌, length, is_some, All,
}
use canvas_standalone.Session.{
  State, Refresh, Reply, Pair, begin_refresh, refresh_answered, after_refresh, second_broken,
  access_token, checked,
}
use canvas_standalone.Session.OneRefresh.{World, here, next, asks, is_promise, length-refreshes}
use canvas_standalone.Session.Expiry.{
  refresh_answered-stores, refresh_answered-removes, second_broken-refresh_answered,
}

abbrev session : State
session = record {
  access = some "old";
  refresh = some "r1";
  expires_at = none;
  in_flight = none;
  next_promise = 0;
  redirects = [];
}

abbrev sent_refresh : Refresh
sent_refresh = record { promise = 0; token = "r1" }

abbrev refreshing : State
refreshing = record session { in_flight = some 0; next_promise = 1 }

abbrev reply : Reply
reply = record {
  ok = true;
  content_type = some "Application/JSON; charset=utf-8";
  code = 0;
  payload = some (record {
    access_token = some "new";
    refresh_token = some "r2";
    expires_in = some 3600;
    token_type = some "Bearer";
  });
}

abbrev new_pair : Pair
new_pair = record { access_token = "new"; refresh_token = "r2"; expires_in = 3600 }

abbrev idle_world : World
idle_world = record { store = session; refreshes = [] }

abbrev asked : World
asked = record { store = refreshing; refreshes = sent_refresh ∷ [] }

length-refreshes_example :
    (length asked.refreshes ≡ (if is_some asked.store.in_flight then 1 else 0))
    × All (λ (f : Refresh). is_promise asked.store.in_flight f ≡ true) asked.refreshes
unfolding begin_refresh trim
length-refreshes_example =
    length-refreshes {w = idle_world} {w' = asked} (next here (asks refl)) refl refl

refreshed_entries :
    (let x = refresh_answered sent_refresh reply 5 refreshing in
      let y = after_refresh "/login" x.1 x.0 in
      (y.0.access ≡ some "new")
      × (y.0.refresh ≡ some "r2")
      × (y.0.expires_at ≡ some 3600005)
      × (y.1 ≡ some "new"))
unfolding checked trim
refreshed_entries =
    refresh_answered-stores "/login" sent_refresh reply new_pair 5 refreshing refl refl

-- Another page has logged in while the refresh was in flight.
abbrev other_login : State
other_login = record refreshing { access = some "other"; refresh = some "r9" }

refresh_answered-removes_example :
    (let x = refresh_answered sent_refresh reply 5 other_login in
      let y = after_refresh "/login" x.1 x.0 in
      (y.0.access ≡ none) × (y.0.refresh ≡ none) × (y.0.expires_at ≡ none) × (y.1 ≡ none))
unfolding trim
refresh_answered-removes_example =
    refresh_answered-removes "/login" sent_refresh reply 5 other_login refl

second_broken-refresh_answered_example :
    (let x = refresh_answered sent_refresh reply 5 refreshing in
      let y = second_broken "/login" (after_refresh "/login" x.1 x.0).0 in
      (x.0.access ≡ some "new") × (y.access ≡ none) × (y.refresh ≡ none) × (access_token y ≡ none))
unfolding checked trim
second_broken-refresh_answered_example =
    second_broken-refresh_answered "/login" sent_refresh reply new_pair 5 refreshing refl refl
