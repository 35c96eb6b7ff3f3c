-- ===== src/AssetLibrary/Rollback.antt =====
-- Failed changes of the library of frontend/src/adapters/use-asset-store.ts.
use canvas_standalone.Prelude.{
  Distinct, find_by-update_by, apply_to, String, true, false, ◌≡◌, refl, sym, subst, ap, ◌∙◌, some,
  List, [], ◌∷◌, ◌++◌, has, any, map, find_by, find_by_key, update_by, keep, ◌==◌, eq_iff, eq_refl,
  arith, Bool-cases, inl, inr, some_injective,
}
use canvas_standalone.AssetLibrary.{
  Asset, Item, Library, Mutation, Progress, remove, queued, fail, asset_id, is_other, update_asset,
  remove_asset, index_of, insert_at, roll_back, restore, updated, remove_optimistic, patched,
}

module _ {ℓ} {Body : Type ℓ} where
  keep-other :
      (id : String) (xs : List (Asset Body))
      → has id (map asset_id xs) ≡ false
      → keep (is_other id) xs ≡ xs
  keep-other id [] h = refl
  keep-other id (a ∷ xs) h = ground (arith, keep-other id xs)

  any-keep :
      (id : String) (xs : List (Asset Body))
      → any (λ (a : Asset Body). a.id == id) (keep (is_other id) xs) ≡ false
  any-keep id [] = refl
  any-keep id (a ∷ xs) = ground (arith, any-keep id xs)

  insert_at-keep :
      (id : String) (xs : List (Asset Body)) (a : Asset Body)
      → Distinct (map asset_id xs)
      → find_by asset_id id xs ≡ some a
      → insert_at (index_of id xs) a (keep (is_other id) xs) ≡ xs
  unfolding insert_at index_of
  insert_at-keep id [] a d f = absurd (cc)
  insert_at-keep id (x ∷ xs) a d f = elim (Bool-cases (x.id == id)) [
    | inl e ↦ rw e (
        rw
          (keep-other id xs
            (subst (λ (k : String). has k (map asset_id xs) ≡ false) ((eq_iff x.id id).0 e) d.0))
          (ap (λ (y : Asset Body). y ∷ xs) (sym (some_injective (rw e at f)))))
    | inr e ↦
        rw e (ap (λ (ys : List (Asset Body)). x ∷ ys) (insert_at-keep id xs a d.1 (rw e at f)))
  ]

  restored :
      (id : String) (s : Library Body) (a : Asset Body)
      → Distinct (map asset_id s.assets)
      → find_by asset_id id s.assets ≡ some a
      → (restore id a (index_of id s.assets) (remove_asset id s)).assets ≡ s.assets
  unfolding restore remove_asset remove_optimistic
  restored id s a d f =
      rw (f, remove_asset) (rw (any-keep id s.assets) (insert_at-keep id s.assets a d f))

  queued_removal :
      (id : String) (s : Library Body) (a : Asset Body)
      → find_by asset_id id s.assets ≡ some a
      → (remove_asset id s).mutations
        ≡ s.mutations
          ++ record { id = id; change = remove a (index_of id s.assets); progress = queued } ∷ []
  unfolding remove_asset remove_optimistic
  queued_removal id s a f = rw (f, remove_asset) refl

  removed_at_once :
      (id : String) (s : Library Body) (a : Asset Body)
      → find_by asset_id id s.assets ≡ some a
      → (remove_asset id s).assets ≡ keep (is_other id) s.assets
  unfolding remove_asset remove_optimistic
  removed_at_once id s a f = rw (f, remove_asset) refl

  -- A removal takes the asset out of the list at once and queues one operation. Where the identifiers
  -- of the assets differ, the failure of that operation, however far it has come and with no other
  -- change in between, leaves the list exactly as it was.
  pub fail-remove_asset :
      (id : String) (s : Library Body) (a : Asset Body)
      → Distinct (map asset_id s.assets)
      → find_by asset_id id s.assets ≡ some a
      → ((remove_asset id s).assets ≡ keep (is_other id) s.assets)
        × (m : Mutation Body) × ((remove_asset id s).mutations ≡ s.mutations ++ m ∷ [])
        × ((progress : Progress Body)
            → (fail (record m { progress = progress }) (remove_asset id s)).assets ≡ s.assets)
  unfolding fail
  fail-remove_asset id s a d f = (
    removed_at_once id s a f,
    record { id = id; change = remove a (index_of id s.assets); progress = queued },
    queued_removal id s a f,
    λ progress. restored id s a d f,
  )

  find_by-update :
      (id : String) (f : Asset Body → Asset Body) (xs : List (Asset Body)) {a : Asset Body}
      → ((b : Asset Body) → (f b).id ≡ b.id)
      → find_by asset_id id xs ≡ some a
      → find_by asset_id id (update_by asset_id id f xs) ≡ some (f a)
  find_by-update id f xs {a} h e =
      find_by-update_by asset_id id id f xs h ∙ rw (eq_refl id) (ap (apply_to asset_id f) e)

  find_by-replace :
      (id : String) (p : Asset Body) (xs : List (Asset Body)) {b : Asset Body}
      → (p.id == id) ≡ true
      → find_by asset_id id xs ≡ some b
      → find_by asset_id id (update_by asset_id id (λ a. p) xs) ≡ some p
  find_by-replace id p [] h e = absurd (cc)
  find_by-replace id p (x ∷ xs) {b} h e = elim (Bool-cases (x.id == id)) [
    | inl same ↦ rw same (rw h refl)
    | inr other ↦ rw other (rw other (find_by-replace id p xs h (rw other at e)))
  ]

  roll_back-shown :
      (id now : String) (p b : Asset Body) (t : Library Body)
      → (p.id == id) ≡ true
      → find_by asset_id id t.assets ≡ some b
      → (b.updated_at == now) ≡ true
      → find_by asset_id id (roll_back id p now t).assets ≡ some p
  unfolding roll_back
  roll_back-shown id now p b t h e w = rw (e, roll_back) (rw w (find_by-replace id p t.assets h e))

  roll_back-changed :
      (id now : String) (p b : Asset Body) (t : Library Body)
      → find_by asset_id id t.assets ≡ some b
      → (b.updated_at == now) ≡ false
      → roll_back id p now t ≡ t
  unfolding roll_back
  roll_back-changed id now p b t e w = rw (e, roll_back) (rw w refl)

  find_by-update_asset :
      (id : String) (patch : Body → Body) (now : String) (s : Library Body) (a : Asset Body)
      → find_by asset_id id s.assets ≡ some a
      → find_by asset_id id (update_asset id patch now s).assets ≡ some (patched patch now a)
  unfolding update_asset
  find_by-update_asset id patch now s a e =
      rw (e, update_asset) (find_by-update id (patched patch now) s.assets (λ b. refl) e)

  -- A change whose save fails is taken back where nothing has touched the asset since.
  pub roll_back-update_asset :
      (id : String) (patch : Body → Body) (now : String) (s : Library Body) (a : Asset Body)
      → find_by asset_id id s.assets ≡ some a
      → find_by asset_id id (roll_back id a now (update_asset id patch now s)).assets ≡ some a
  roll_back-update_asset id patch now s a e =
      roll_back-shown id now a (patched patch now a) (update_asset id patch now s)
        ((eq_iff a.id id).1 (find_by_key asset_id id s.assets e))
        (find_by-update_asset id patch now s a e) (eq_refl now)

  find_by-updated :
      (id : String) (item : Item) (t : Library Body) (b : Asset Body)
      → find_by asset_id id t.assets ≡ some b
      → find_by asset_id id (updated id item t).assets
        ≡ some (record b { updated_at = item.updated_at })
  unfolding updated
  find_by-updated id item t b e =
      find_by-update id (λ (x : Asset Body). record x { updated_at = item.updated_at }) t.assets
        (λ x. refl) e

  -- Where an earlier save of the asset is answered before a later one fails, the later change stays,
  -- although it was not saved.
  pub roll_back-updated :
      (id : String) (patch : Body → Body) (now : String) (item : Item) (s : Library Body)
      (a previous : Asset Body)
      → find_by asset_id id s.assets ≡ some a
      → (item.updated_at == now) ≡ false
      → find_by asset_id id
          (roll_back id previous now (updated id item (update_asset id patch now s))).assets
        ≡ some (record a { body = patch a.body; updated_at = item.updated_at })
  roll_back-updated id patch now item s a previous e d =
      let t = updated id item (update_asset id patch now s) in
      let found =
        find_by-updated id item (update_asset id patch now s) (patched patch now a)
          (find_by-update_asset id patch now s a e) in
      ap (λ (u : Library Body). find_by asset_id id u.assets)
        (roll_back-changed id now previous
          (record a { body = patch a.body; updated_at = item.updated_at }) t found d)
      ∙ found
