-- ===== src/AssetRuntime.antt =====
-- frontend/src/adapters/asset-runtime.ts: the aliases of storage keys and the asset behind a key.
-- The caches of blobs and object URLs are the browser's and are not modelled.
pub mod Laws
use Prim.Native.String.{◌++◌ as text_append}
use canvas_standalone.Prelude.{
  ℕ, suc, zero, String, Bool, true, false, not, ◌&&◌, ◌||◌, Option, none, some, List, [], ◌∷◌, has,
  is_empty, truthy_or_none, starts_exactly, codes, if◌then◌else◌, ◌==◌, get_or, length,
}

-- `aliases`, the last registration first
abbrev pub Aliases : Type 0
Aliases = List (String × String)

unfoldable pub lookup_alias : String → Aliases → Option String
lookup_alias k [] = none
lookup_alias k ((from, to) ∷ rest) = if from == k then some to else lookup_alias k rest

-- `if (from && to && from !== to) aliases.set(from, to)`
unfoldable pub register_alias : String → String → Aliases → Aliases
register_alias from to aliases =
    if is_empty from || (is_empty to || (from == to)) then aliases else (from, to) ∷ aliases

-- The loop of `resolveStorageKeyAlias`; the fuel bounds its rounds.
unfoldable pub follow : ℕ → Aliases → List String → String → Option String
follow zero aliases seen current = none
follow (suc fuel) aliases seen current = elim (lookup_alias current aliases) [
  | none ↦ some current
  | some next ↦ elim (has current seen) [
    | true ↦ some current
    | false ↦ follow fuel aliases (current ∷ seen) next
  ]
]

unfoldable pub resolve_alias : Aliases → String → String
unfolding follow lookup_alias
resolve_alias aliases key = get_or (follow (suc (length aliases)) aliases [] key) key

-- `asset:${assetID}`
abbrev pub asset_storage_key : String → String
asset_storage_key id = text_append "asset:" id

-- `text.slice(n)`
abbrev pub slice : ℕ → String → String
slice zero s = s
slice (suc n) String.[] = String.[]
slice (suc n) (String.◌∷◌ c s) = slice n s

abbrev pub id_of_key : String → Option String
id_of_key key =
    if starts_exactly (codes "asset:") (codes key)
    then truthy_or_none (some (slice 6 key))
    else none

unfoldable pub asset_id_from_key : Aliases → Option String → Option String
unfolding resolve_alias
asset_id_from_key aliases key = id_of_key (resolve_alias aliases (get_or key ""))
