-- ===== src/Tests/Library.antt =====
-- The library of assets at concrete assets and changes.
use canvas_standalone.Prelude.{◌≡◌, refl, true, none, some, [], ◌∷◌, String, find_by}
use canvas_standalone.Json.{nat, no_field, field, str}
use canvas_standalone.AssetRuntime.{asset_id_from_key}
use canvas_standalone.AssetLibrary.{
  Asset, Item, Library, asset_id, update_asset, remove_asset, roll_back, updated, fail, Mutation,
  Progress,
}
use canvas_standalone.AssetLibrary.Rollback.{fail-remove_asset, roll_back-updated}
use canvas_standalone.AssetLibrary.Items.{Content, Write, image, library_write, asset_from_item}
use canvas_standalone.AssetLibrary.Items.RoundTrip.{stored_content, asset_from_item-library_write}

abbrev named : String → String → Asset String
named id title = record { id = id; created_at = "1"; updated_at = "1"; body = title }

abbrev library : Library String
library = record {
  hydrated = true;
  assets = named "a" "A" ∷ named "b" "B" ∷ named "c" "C" ∷ [];
  syncs = λ _. some (record { server_id = "s"; version = 1 });
  creating = [];
  mutations = [];
  detached = [];
}

fail-remove_asset_example :
    ((remove_asset "b" library).assets ≡ named "a" "A" ∷ named "c" "C" ∷ [])
    × (m : Mutation String) × ((remove_asset "b" library).mutations ≡ m ∷ [])
    × ((progress : Progress String)
        → (fail (record m { progress = progress }) (remove_asset "b" library)).assets
          ≡ library.assets)
fail-remove_asset_example =
    fail-remove_asset "b" library (named "b" "B") (refl, (refl, (refl, tt))) refl

abbrev answer : Item
answer = record { server_id = "s"; version = 2; created_at = "1"; updated_at = "server" }

-- The first change is answered between the second change and its failure.
roll_back-updated_example :
    find_by asset_id "b"
      (roll_back "b"
        (record (named "b" "first") { updated_at = "2" })
        "3"
        (updated "b" answer (
          update_asset "b"
            (λ _. "second")
            "3"
            (update_asset "b" (λ _. "first") "2" library)))).assets
    ≡ some (record (named "b" "second") { updated_at = "server" })
unfolding update_asset
roll_back-updated_example =
    roll_back-updated "b" (λ _. "second") "3" answer (update_asset "b" (λ _. "first") "2" library)
      (record (named "b" "first") { updated_at = "2" })
      (record (named "b" "first") { updated_at = "2" }) refl refl

abbrev picture : Content
picture = record {
  title = "Picture";
  cover_url = "https://example.org/cover.png";
  tags = "blue" ∷ [];
  source = none;
  note = some "mine";
  metadata = some (field "seed" (str "7") no_field);
  content = image (nat 64) (nat 48) (record {
    address = "blob:1";
    storage_key = some "asset:a1";
    bytes = nat 100;
    mime_type = "image/webp";
  });
}

asset_from_item-library_write_example :
    (w : Write) × (library_write [] picture ≡ some w)
    × (asset_from_item w none ≡ stored_content picture none)
unfolding asset_id_from_key
asset_from_item-library_write_example =
    asset_from_item-library_write [] picture none refl refl (refl, ("a1", refl, refl, refl)) tt
