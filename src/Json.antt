-- ===== src/Json.antt =====
-- The values that the program keeps in documents: what JSON.parse returns. A number is a natural
-- number, or the text of any other one, which the modelled code only carries along.
use canvas_standalone.Prelude.{
  ℕ, String, Bool, Option, none, some, List, [], ◌∷◌, if◌then◌else◌, ◌==◌,
}

pub data Number : Type 0 where
  nat : ℕ → Number
  other : String → Number

mutual
  pub data Fields : Type 0 where
    no_field : Fields
    field : String → Value → Fields → Fields

  pub data Value : Type 0 where
    obj : Fields → Value
    null : Value
    str : String → Value
    arr : Items → Value
    num : Number → Value
    bool : Bool → Value

  pub data Items : Type 0 where
    nil : Items
    cons : Value → Items → Items

-- `source[key]`; a key occurs once in an object
abbrev pub get : String → Fields → Option Value
get k no_field = none
get k (field j v fs) = if j == k then some v else get k fs

-- `{ ...fs, ...gs }` where the keys of the two are apart
abbrev pub join : Fields → Fields → Fields
join no_field gs = gs
join (field k v fs) gs = field k v (join fs gs)

abbrev pub to_items {ℓ} : {A : Type ℓ} → (A → Value) → List A → Items
to_items f [] = nil
to_items f (x ∷ xs) = cons (f x) (to_items f xs)

-- A field with an undefined value is left out of the text of an object.
abbrev pub optional {ℓ} : {A : Type ℓ} → String → (A → Value) → Option A → Fields → Fields
optional k f none fs = fs
optional k f (some a) fs = field k (f a) fs

abbrev pub or_null : Option String → Value
or_null none = null
or_null (some s) = str s
