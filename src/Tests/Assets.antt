-- ===== src/Tests/Assets.antt =====
-- AssetRuntime at concrete inputs.
use canvas_standalone.Prelude.{some, [], ◌∷◌, ◌≡◌, refl}
use canvas_standalone.AssetRuntime.{Aliases, lookup_alias, follow, resolve_alias, register_alias}
use canvas_standalone.AssetRuntime.Laws.{follow-resolve_alias, resolve_alias-register_alias}

abbrev cycle : Aliases
cycle = ("a", "b") ∷ ("b", "a") ∷ []

follow-resolve_alias_example : follow 3 cycle [] "a" ≡ some (resolve_alias cycle "a")
follow-resolve_alias_example = follow-resolve_alias cycle "a"

registered_alias : resolve_alias (register_alias "blob" "asset:1" []) "blob" ≡ "asset:1"
unfolding lookup_alias
registered_alias = resolve_alias-register_alias "blob" "asset:1" [] refl refl refl refl
