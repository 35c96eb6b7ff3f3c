-- ===== src/AssetLibrary.antt =====
-- frontend/src/adapters/use-asset-store.ts: the library of assets with its changes under way. What
-- an asset holds apart from its identifier and its times is of any type.
pub mod Rollback
pub mod Items
use canvas_standalone.Prelude.{
  ℕ, zero, suc, String, Bool, true, false, not, ◌&&◌, ◌||◌, Option, none, some, List, [], ◌∷◌, ◌++◌,
  has, any, find_by, update_by, keep, is_empty, put, if◌then◌else◌, ◌==◌,
}

module _ {ℓ} (Body : Type ℓ) where
  pub record Asset : Type ℓ where
    pub id : String
    pub created_at : String
    pub updated_at : String
    pub body : Body

-- LibrarySync
pub record Sync : Type 0 where
  pub server_id : String
  pub version : ℕ

-- what the code reads of a CanvasLibraryItem that answers a write
pub record Item : Type 0 where
  pub server_id : String
  pub version : ℕ
  pub created_at : String
  pub updated_at : String

module _ {ℓ} {Body : Type ℓ} where
  abbrev pub asset_id : Asset Body → String
  asset_id a = a.id

-- What a queued operation holds on to: `previous`, and the time or the place of the change.
pub data Change {ℓ} (Body : Type ℓ) : Type ℓ where
  update : Asset Body → String → Change Body
  remove : Asset Body → ℕ → Change Body

-- a queued operation: it waits for its turn or for the creation of its asset, or its request is sent
pub data Progress {ℓ} (Body : Type ℓ) : Type ℓ where
  queued : Progress Body
  updating : Sync → Body → Progress Body
  deleting : Sync → Progress Body

pub record Mutation {ℓ} (Body : Type ℓ) : Type ℓ where
  pub id : String
  pub change : Change Body
  pub progress : Progress Body

-- `mutations` holds the chains of `mutationQueues`, the oldest operation of an asset first;
-- `creating` has the keys of `pendingCreates`. `detached` holds the operations that a reset has left
-- behind: they go on, and nothing waits for them.
pub record Library {ℓ} (Body : Type ℓ) : Type ℓ where
  pub hydrated : Bool
  pub assets : List (Asset Body)
  pub syncs : String → Option Sync
  pub creating : List String
  pub mutations : List (Mutation Body)
  pub detached : List (Mutation Body)

abbrev pub without_id : String → List String → List String
without_id id [] = []
without_id id (x ∷ xs) = if x == id then without_id id xs else x ∷ without_id id xs

module _ {ℓ} {Body : Type ℓ} where
  abbrev pub is_other : String → Asset Body → Bool
  is_other id a = not (a.id == id)

  -- `removeOptimisticAsset`
  unfoldable pub remove_optimistic : String → Library Body → Library Body
  remove_optimistic id s = record s { assets = keep (is_other id) s.assets }

  -- `addAsset` and `addAssetAsync` up to the creation of the server's item
  unfoldable pub add_asset : String → String → Body → Library Body → Library Body
  add_asset id now body s = record s {
    assets = record { id = id; created_at = now; updated_at = now; body = body } ∷ s.assets;
    creating = if has id s.creating then s.creating else id ∷ s.creating;
  }

  abbrev pub stamped : Item → Asset Body → Asset Body
  stamped item a = record a { created_at = item.created_at; updated_at = item.updated_at }

  -- the end of `createServerItem`
  unfoldable pub created : String → Item → Library Body → Library Body
  created id item s = record s {
    syncs = put s.syncs id (some (record { server_id = item.server_id; version = item.version }));
    assets = update_by asset_id id (stamped item) s.assets;
    creating = without_id id s.creating;
  }

  -- `{ ...asset, ...patch, updatedAt }`
  abbrev pub patched : (Body → Body) → String → Asset Body → Asset Body
  patched patch now a = record a { body = patch a.body; updated_at = now }

  abbrev pub enqueue : String → Change Body → Library Body → Library Body
  enqueue id change s = record s {
    mutations = s.mutations ++ record { id = id; change = change; progress = queued } ∷ [];
  }

  -- `updateAssetAndPersist` up to its queue
  unfoldable pub update_asset : String → (Body → Body) → String → Library Body → Library Body
  update_asset id patch now s = elim (find_by asset_id id s.assets) [
    | none ↦ s
    | some previous ↦
        enqueue id (update previous now)
          (record s { assets = update_by asset_id id (patched patch now) s.assets })
  ]

  -- `findIndex`
  unfoldable pub index_of : String → List (Asset Body) → ℕ
  index_of id [] = 0
  index_of id (x ∷ xs) = if x.id == id then 0 else suc (index_of id xs)

  -- `removeAssetAndPersist` up to its queue
  unfoldable pub remove_asset : String → Library Body → Library Body
  unfolding remove_optimistic
  remove_asset id s = elim (find_by asset_id id s.assets) [
    | none ↦ s
    | some previous ↦ enqueue id (remove previous (index_of id s.assets)) (remove_optimistic id s)
  ]

  -- `[...assets.slice(0, index), previous, ...assets.slice(index)]`
  unfoldable pub insert_at : ℕ → Asset Body → List (Asset Body) → List (Asset Body)
  insert_at zero a xs = a ∷ xs
  insert_at (suc n) a [] = a ∷ []
  insert_at (suc n) a (x ∷ xs) = x ∷ insert_at n a xs

  abbrev pub is_shown_at : Option (Asset Body) → String → Bool
  is_shown_at none now = false
  is_shown_at (some a) now = a.updated_at == now

  -- the catch block of an update
  unfoldable pub roll_back : String → Asset Body → String → Library Body → Library Body
  roll_back id previous now s =
      if is_shown_at (find_by asset_id id s.assets) now
      then record s { assets = update_by asset_id id (λ a. previous) s.assets }
      else s

  -- the catch block of a removal
  unfoldable pub restore : String → Asset Body → ℕ → Library Body → Library Body
  unfolding insert_at
  restore id previous index s =
      if any (λ (a : Asset Body). a.id == id) s.assets
      then s
      else record s { assets = insert_at index previous s.assets }

  -- what an operation does when it fails, at its request or before it
  unfoldable pub fail : Mutation Body → Library Body → Library Body
  unfolding roll_back restore
  fail m s = elim m.change [
    | update previous now ↦ roll_back m.id previous now s
    | remove previous index ↦ restore m.id previous index s
  ]

  -- An operation's turn comes and no creation of its asset is under way: what it sends, if anything.
  unfoldable pub begin : Mutation Body → Library Body → Option (Progress Body)
  begin m s = elim (s.syncs m.id) [
    | none ↦ none
    | some sync ↦ elim m.change [
      | update previous now ↦ elim (find_by asset_id m.id s.assets) [
        | none ↦ none
        | some current ↦ some (updating sync current.body)
      ]
      | remove previous index ↦ some (deleting sync)
    ]
  ]

  -- the answer to an update
  unfoldable pub updated : String → Item → Library Body → Library Body
  updated id item s = record s {
    syncs = put s.syncs id (some (record { server_id = item.server_id; version = item.version }));
    assets = update_by asset_id id (λ a. record a { updated_at = item.updated_at }) s.assets;
  }

  -- the answer to a removal
  unfoldable pub deleted : String → Library Body → Library Body
  deleted id s = record s { syncs = put s.syncs id none }

  -- A creation that failed: the asset that was added is taken away again.
  unfoldable pub create_failed : String → Library Body → Library Body
  unfolding remove_optimistic
  create_failed id s = remove_optimistic id (record s { creating = without_id id s.creating })

  -- `pendingCreates.get(id)` rejects for an operation that waits for it: a removal just ends.
  unfoldable pub creation_rejected : Mutation Body → Library Body → Library Body
  unfolding roll_back
  creation_rejected m s = elim m.change [
    | update previous now ↦ roll_back m.id previous now s
    | remove previous index ↦ s
  ]

  -- `resetCanvasAssetStore`
  unfoldable pub reset_assets : Library Body → Library Body
  reset_assets s = record s {
    hydrated = false;
    assets = [];
    syncs = λ _. none;
    creating = [];
    mutations = [];
    detached = s.detached ++ s.mutations;
  }
