-- ===== src/Prelude/Lists.antt =====
-- Lists as the source uses its arrays: `some`, `find`, `filter`, and the replacement of the
-- entries that have one identifier, `items.map((item) => item.id === id ? … : item)`.
use Prim.Native.Nat.{ℕ, suc, ◌+◌}
use Prim.Native.String.{String}
use text.Mathlib.Text.{◌==◌}
use text.Mathlib.TextEquality.{eq_iff}
use mathlib.Core.Path.{◌≡◌, refl, sym}
use mathlib.Core.Logic.{inl, inr}
use mathlib.Core.Bool.{Bool, true, false, ◌||◌}
use mathlib.Core.Option.{Option, none, some}
use mathlib.Core.List.{List, [], ◌∷◌, ◌++◌, map, Memᴰ}
use native.Mathlib.Omega.{arith}
use canvas_standalone.Prelude.Tests.{if◌then◌else◌, Bool-cases}

module _ {ℓ} {A : Type ℓ} where
  abbrev pub length : List A → ℕ
  length [] = 0
  length (x ∷ xs) = suc (length xs)

  pub length-append : (xs ys : List A) → length (xs ++ ys) ≡ length xs + length ys
  length-append [] ys = omega arith
  length-append (x ∷ xs) ys = omega (arith, length-append xs ys)

  -- `xs.some(p)`
  abbrev pub any : (A → Bool) → List A → Bool
  any p [] = false
  any p (x ∷ xs) = p x || any p xs

  -- `xs.find(p)`
  abbrev pub find : (A → Bool) → List A → Option A
  find p [] = none
  find p (x ∷ xs) = if p x then some x else find p xs

  -- `xs.filter(p)`, by a Boolean test
  abbrev pub keep : (A → Bool) → List A → List A
  keep p [] = []
  keep p (x ∷ xs) = if p x then x ∷ keep p xs else keep p xs

  pub find-true : (p : A → Bool) (xs : List A) {a : A} → find p xs ≡ some a → p a ≡ true
  find-true p [] e = ground arith
  find-true p (x ∷ xs) {a} e = ground (arith, find-true p xs {a = a})

-- `set.has(s)` for a set of texts
abbrev pub has : String → List String → Bool
has s [] = false
has s (t ∷ ts) = (t == s) || has s ts

-- no two are the same
abbrev pub Distinct : List String → Type 0
Distinct [] = Unit
Distinct (n ∷ ns) = (has n ns ≡ false) × Distinct ns

pub has-Memᴰ : (s : String) (xs : List String) → has s xs ≡ true → Memᴰ s xs
has-Memᴰ s [] h = absurd (cc)
has-Memᴰ s (x ∷ xs) h = elim (Bool-cases (x == s)) [
  | inl e ↦ Memᴰ.head (sym ((eq_iff x s).0 e))
  | inr e ↦ Memᴰ.tail (has-Memᴰ s xs (ground arith))
]

module _ {ℓ κ} {A : Type ℓ} (P : A → Type κ) where
  abbrev pub All : List A → Type κ
  All [] = Unit
  All (x ∷ xs) = P x × All xs

  pub All-append : (xs ys : List A) → All xs → All ys → All (xs ++ ys)
  All-append [] ys hx hy = hy
  All-append (x ∷ xs) ys hx hy = (hx.0, All-append xs ys hx.1 hy)

  pub All-keep : (p : A → Bool) (xs : List A) → All xs → All (keep p xs)
  All-keep p [] h = tt
  All-keep p (x ∷ xs) h = ground (arith, All-keep p xs h.1)

  pub All-split :
      (before : List A) (x : A) (after : List A)
      → All (before ++ x ∷ after)
      → P x × All (before ++ after)
  All-split [] x after h = h
  All-split (y ∷ before) x after h =
      let (p, rest) = All-split before x after h.1 in (p, (h.0, rest))

module _ {ℓ} {A : Type ℓ} (key : A → String) where
  -- the first entry with an identifier
  abbrev pub find_by : String → List A → Option A
  find_by k [] = none
  find_by k (x ∷ xs) = if key x == k then some x else find_by k xs

  -- replaces every entry with the identifier
  abbrev pub update_by : String → (A → A) → List A → List A
  update_by k f [] = []
  update_by k f (x ∷ xs) = (if key x == k then f x else x) ∷ update_by k f xs

  pub find_by_key : (k : String) (xs : List A) {a : A} → find_by k xs ≡ some a → key a ≡ k
  find_by_key k [] e = ground arith
  find_by_key k (x ∷ xs) {a} e = ground (arith, eq_iff (key x) k, find_by_key k xs {a = a})

  abbrev pub apply_to {κ} : {B : Type κ} → (A → B) → Option A → Option B
  apply_to f none = none
  apply_to f (some a) = some (f a)

  -- A replacement that keeps the identifiers is seen at its own identifier and nowhere else.
  pub find_by-update_by :
      (k j : String) (f : A → A) (xs : List A)
      → ((a : A) → key (f a) ≡ key a)
      → find_by j (update_by k f xs) ≡ (if k == j then apply_to f (find_by j xs) else find_by j xs)
  find_by-update_by k j f [] h = ground arith
  find_by-update_by k j f (x ∷ xs) h = ground (
    arith,
    h x,
    eq_iff k j,
    eq_iff (key x) k,
    eq_iff (key x) j,
    eq_iff (key (f x)) j,
    find_by-update_by k j f xs h,
  )

  pub map-update_by :
      (k : String) (f : A → A) (xs : List A)
      → ((a : A) → key (f a) ≡ key a)
      → map key (update_by k f xs) ≡ map key xs
  map-update_by k f [] h = refl
  map-update_by k f (x ∷ xs) h = ground (arith, h x, map-update_by k f xs h)
