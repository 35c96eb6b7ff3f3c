-- ===== src/AssetRuntime/Laws.antt =====
-- The loop over the aliases of frontend/src/adapters/asset-runtime.ts, and a new alias.
use Prim.Native.Char.{code}
use Prim.Native.String.{◌++◌ as text_append}
use text.Mathlib.TextLemmas.{nil-append, cons-append}
use canvas_standalone.Prelude.{
  true, ◌++◌, ap, starts_exactly, codes, ℕ, suc, zero, String, Bool, false, not, Option, none, some,
  List, [], ◌∷◌, has, is_empty, ◌==◌, get_or, length, keep, ◌≡◌, refl, arith, ◌<◌, ◌≤◌, eq_iff,
  eq_refl, inl, inr, Bool-cases, Option-cases,
}
use canvas_standalone.AssetRuntime.{
  Aliases, lookup_alias, register_alias, follow, resolve_alias, asset_storage_key,
  asset_id_from_key, slice,
}

-- The aliases whose source was not yet visited.
abbrev unseen : List String → Aliases → ℕ
unseen seen aliases = length (keep (λ e. not (has e.0 seen)) aliases)

unseen-le :
    (k : String) (seen : List String) (aliases : Aliases)
    → unseen (k ∷ seen) aliases ≤ unseen seen aliases
unseen-le k seen [] = omega arith
unseen-le k seen (e ∷ es) = ground (arith, unseen-le k seen es)

unseen-lt :
    (k : String) (seen : List String) (aliases : Aliases) {to : String}
    → lookup_alias k aliases ≡ some to
    → has k seen ≡ false
    → unseen (k ∷ seen) aliases < unseen seen aliases
unfolding lookup_alias
unseen-lt k seen [] e h = cc
unseen-lt k seen ((from, t) ∷ es) {to} e h =
    ground (arith, eq_iff from k, eq_iff k from, unseen-le k seen es, unseen-lt k seen es {to = to})

follow_total :
    (fuel : ℕ) (aliases : Aliases) (seen : List String) (current : String)
    → unseen seen aliases < fuel
    → (r : String) × (follow fuel aliases seen current ≡ some r)
unfolding follow
follow_total zero aliases seen current h = absurd (omega arith)
follow_total (suc fuel) aliases seen current h =
    elim (Option-cases (lookup_alias current aliases)) [
      | inl e ↦ (current, rw (e, follow) refl)
      | inr (next, e) ↦ elim (Bool-cases (has current seen)) [
        | inl old ↦ (current, rw (e, follow) (rw old refl))
        | inr new ↦
            let (r, f) =
              follow_total fuel aliases (current ∷ seen) next
                (omega (arith, unseen-lt current seen aliases e new)) in
            (r, rw (e, follow) (rw new f))
      ]
    ]

length-keep-le : (p : String × String → Bool) (es : Aliases) → length (keep p es) ≤ length es
length-keep-le p [] = omega arith
length-keep-le p (e ∷ es) = ground (arith, length-keep-le p es)

some-get_or : (o : Option String) (d : String) {r : String} → o ≡ some r → o ≡ some (get_or o d)
some-get_or none d e = cc
some-get_or (some a) d e = refl

-- The fuel of `resolve_alias` is enough: for every table of aliases, cycles included, the loop
-- stops by its own test, and its result is the resolved key.
pub follow-resolve_alias :
    (aliases : Aliases) (key : String)
    → follow (suc (length aliases)) aliases [] key ≡ some (resolve_alias aliases key)
unfolding resolve_alias
follow-resolve_alias aliases key =
    let (r, e) =
      follow_total (suc (length aliases)) aliases [] key
        (omega (arith, length-keep-le (λ e. not (has e.0 [])) aliases)) in
    some-get_or _ key e

-- A key that was just given an alias resolves to it, unless the alias has an alias of its own.
pub resolve_alias-register_alias :
    (from to : String) (aliases : Aliases)
    → is_empty from ≡ false
    → is_empty to ≡ false
    → (from == to) ≡ false
    → lookup_alias to aliases ≡ none
    → resolve_alias (register_alias from to aliases) from ≡ to
unfolding resolve_alias register_alias
resolve_alias-register_alias from to aliases f t d n = ground (arith, eq_refl from)

codes-append : (s t : String) → codes (text_append s t) ≡ codes s ++ codes t
codes-append String.[] t = rw nil-append refl
codes-append (String.◌∷◌ c s) t =
    rw cons-append (ap (λ (x : List ℕ). code c ∷ x) (codes-append s t))

starts_exactly-append : (p t : List ℕ) → starts_exactly p (p ++ t) ≡ true
starts_exactly-append [] t = refl
starts_exactly-append (c ∷ p) t = ground (arith, starts_exactly-append p t)

slice-append : (s t : String) → slice (length (codes s)) (text_append s t) ≡ t
slice-append String.[] t = nil-append t
slice-append (String.◌∷◌ c s) t = rw cons-append (slice-append s t)

-- The key of an asset leads back to the asset.
pub asset_id_from_key-asset_storage_key :
    (aliases : Aliases) (id : String)
    → is_empty id ≡ false
    → lookup_alias (asset_storage_key id) aliases ≡ none
    → asset_id_from_key aliases (some (asset_storage_key id)) ≡ some id
unfolding asset_id_from_key resolve_alias
asset_id_from_key-asset_storage_key aliases id h n =
    let prefix : starts_exactly (codes "asset:") (codes (asset_storage_key id)) ≡ true =
      rw (codes-append "asset:" id) (starts_exactly-append (codes "asset:") (codes id)) in
    rw (n, follow, resolve_alias) (rw prefix (rw (slice-append "asset:" id) (rw h refl)))
