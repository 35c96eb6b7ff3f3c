-- ===== src/Session/Expiry.antt =====
-- The storage after a refresh of frontend/src/runtime/session-adapter.ts.
use canvas_standalone.Prelude.{ℕ, ◌+◌, ◌*◌, String, true, false, none, some, ◌≡◌, arith}
use canvas_standalone.Session.{
  State, Refresh, Reply, Pair, refresh_answered, checked, is_unchanged, after_refresh, expire,
  access_token, second_broken,
}

-- A refresh whose answer is sound, while the token that it sent is still the stored one: all three
-- entries are those of the answer, and the request is sent again with its access token.
pub refresh_answered-stores :
    (target : String) (f : Refresh) (r : Reply) (p : Pair) (now : ℕ) (s : State)
    → checked r ≡ some p
    → is_unchanged f s ≡ true
    → (let x = refresh_answered f r now s in
        let y = after_refresh target x.1 x.0 in
        (y.0.access ≡ some p.access_token)
        × (y.0.refresh ≡ some p.refresh_token)
        × (y.0.expires_at ≡ some (now + p.expires_in * 1000))
        × (y.1 ≡ some p.access_token))
unfolding refresh_answered after_refresh
refresh_answered-stores target f r p now s c u = ground arith

-- A session that was changed during the refresh, to one with the tokens of another login, is removed
-- from the storage when the answer comes, whatever the answer is.
pub refresh_answered-removes :
    (target : String) (f : Refresh) (r : Reply) (now : ℕ) (s : State)
    → is_unchanged f s ≡ false
    → (let x = refresh_answered f r now s in
        let y = after_refresh target x.1 x.0 in
        (y.0.access ≡ none) × (y.0.refresh ≡ none) × (y.0.expires_at ≡ none) × (y.1 ≡ none))
unfolding refresh_answered after_refresh expire
refresh_answered-removes target f r now s u = ground arith

-- A second request that breaks after a refresh that succeeded ends the session: the tokens that were
-- just stored are removed.
pub second_broken-refresh_answered :
    (target : String) (f : Refresh) (r : Reply) (p : Pair) (now : ℕ) (s : State)
    → checked r ≡ some p
    → is_unchanged f s ≡ true
    → (let x = refresh_answered f r now s in
        let y = second_broken target (after_refresh target x.1 x.0).0 in
        (x.0.access ≡ some p.access_token)
        × (y.access ≡ none)
        × (y.refresh ≡ none)
        × (access_token y ≡ none))
unfolding refresh_answered after_refresh expire second_broken access_token
second_broken-refresh_answered target f r p now s c u = ground arith
