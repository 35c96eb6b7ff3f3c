-- ===== src/Prelude/Maps.antt =====
-- A `Map` or a `Record` of the source is a function from its keys; a missing key is `none`.
use Prim.Native.Nat.{ℕ}
use Prim.Native.String.{String}
use text.Mathlib.Text.{◌==◌}
use canvas_standalone.Prelude.Tests.{if◌then◌else◌, nat_eq}

-- `map.set(k, v)`, and `map.delete(k)` where the value is `none`
abbrev pub put {ℓ} : {A : Type ℓ} → (String → A) → String → A → String → A
put m k v = λ j. if k == j then v else m j

-- a write into the store of shared objects
abbrev pub write {ℓ} : {A : Type ℓ} → (ℕ → A) → ℕ → A → ℕ → A
write m k v = λ j. if nat_eq k j then v else m j
