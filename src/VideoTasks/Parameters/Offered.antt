-- ===== src/VideoTasks/Parameters/Offered.antt =====
-- videoParameters sends what the model offers (frontend/src/adapters/video-api.ts).
use text.Mathlib.TextPositions.{eq_refl}
use canvas_standalone.Prelude.{
  ℕ, ◌≤◌, String, Bool, true, false, Option, none, some, List, [], ◌∷◌, ◌≡◌, inl, inr, refl, sym,
  subst, Bool-cases, find, any, has, nat_eq, is_empty, get_or, arith, some_injective, ◌==◌, ◌||◌,
}
use canvas_standalone.VideoTasks.Parameters.{
  Config, Offer, Seconds, whole, below_zero, unbounded, video_parameters, chosen_text, text_or_next,
  allowed_value, same_folded, clamped, chosen_seconds, first_or_clamped,
}

or_true : (b : Bool) → b || true ≡ true
or_true b = ground arith

has-find :
    (p : String → Bool) (xs : List String) {a : String} → find p xs ≡ some a → has a xs ≡ true
has-find p [] h = absurd cc
has-find p (x ∷ xs) {a} h = elim (Bool-cases (p x)) [
  | inl e ↦ let same = some_injective (rw e at h) in rw⁻¹ same (rw (eq_refl x) refl)
  | inr e ↦ let k = has-find p xs (rw e at h) in rw k (or_true (x == a))
]

-- one of the values that are offered
abbrev Chosen : Option String → List String → Type 0
Chosen o xs = (a : String) × ((o ≡ some a) × (has a xs ≡ true))

Chosen-text_or_next :
    (a b : Option String) (xs : List String)
    → ((x : String) → a ≡ some x → has x xs ≡ true)
    → Chosen b xs
    → Chosen (text_or_next a b) xs
Chosen-text_or_next none b xs h k = k
Chosen-text_or_next (some x) b xs h k = elim (Bool-cases (is_empty x)) [
  | inl e ↦ rw e k
  | inr e ↦ rw e (x, (refl, h x refl))
]

allowed_value-has :
    (value : Option String) (xs : List String) (x : String)
    → allowed_value value xs ≡ some x
    → has x xs ≡ true
allowed_value-has none xs x h = absurd cc
allowed_value-has (some v) xs x h = elim (Bool-cases (is_empty v)) [
  | inl e ↦ let k = rw e at h in absurd cc
  | inr e ↦ has-find (same_folded v) xs (rw e at h)
]

Chosen-chosen_text :
    (requested : String) (default : Option String) (x : String) (xs : List String)
    (rest : Option String)
    → is_empty x ≡ false
    → Chosen (chosen_text requested default (x ∷ xs) rest) (x ∷ xs)
Chosen-chosen_text requested default x xs rest h =
    Chosen-text_or_next _ _ (x ∷ xs) (allowed_value-has (some requested) (x ∷ xs)) (
      Chosen-text_or_next _ _ (x ∷ xs) (allowed_value-has default (x ∷ xs))
        (rw h (x, (refl, rw (eq_refl x) refl))))

abbrev IsOffered : ℕ → List ℕ → Type 0
IsOffered n ns = any (nat_eq n) ns ≡ true

first_or_clamped-IsOffered :
    (n : ℕ) (ns : List ℕ) (s : Seconds)
    → nat_eq n 0 ≡ false
    → IsOffered (first_or_clamped (n ∷ ns) s) (n ∷ ns)
first_or_clamped-IsOffered n ns s h = rw h (ground arith)

chosen_seconds-true :
    (ns : List ℕ) (m : ℕ) → any (nat_eq m) ns ≡ true → chosen_seconds ns (whole m) ≡ m
chosen_seconds-true ns m h = rw h refl

chosen_seconds-false :
    (ns : List ℕ) (m : ℕ)
    → any (nat_eq m) ns ≡ false
    → chosen_seconds ns (whole m) ≡ first_or_clamped ns (whole m)
chosen_seconds-false ns m h = rw h refl

chosen_seconds-IsOffered :
    (n : ℕ) (ns : List ℕ) (s : Seconds)
    → nat_eq n 0 ≡ false
    → IsOffered (chosen_seconds (n ∷ ns) s) (n ∷ ns)
chosen_seconds-IsOffered n ns (whole m) h = elim (Bool-cases (any (nat_eq m) (n ∷ ns))) [
  | inl e ↦ subst (λ k. IsOffered k (n ∷ ns)) (sym (chosen_seconds-true (n ∷ ns) m e)) e
  | inr e ↦
      subst (λ k. IsOffered k (n ∷ ns)) (sym (chosen_seconds-false (n ∷ ns) m e))
        (first_or_clamped-IsOffered n ns (whole m) h)
]
chosen_seconds-IsOffered n ns below_zero h = first_or_clamped-IsOffered n ns below_zero h
chosen_seconds-IsOffered n ns unbounded h = first_or_clamped-IsOffered n ns unbounded h

clamped-bounds : (s : Seconds) → (1 ≤ clamped s) × (clamped s ≤ 20)
clamped-bounds (whole n) = (ground arith, ground arith)
clamped-bounds below_zero = (omega arith, omega arith)
clamped-bounds unbounded = (omega arith, omega arith)

get_or-Chosen :
    (o : Option String) (d : String) (xs : List String) → Chosen o xs → has (get_or o d) xs ≡ true
get_or-Chosen o d xs (a, (e, k)) = rw e k

-- a list that offers something, whose first entry is not empty
abbrev pub IsOffer : List String → Type 0
IsOffer [] = Unit
IsOffer (x ∷ xs) = is_empty x ≡ false

-- the value is one of the list, where the list is not empty
abbrev pub IsFrom : String → List String → Type 0
IsFrom value [] = Unit
IsFrom value (x ∷ xs) = has value (x ∷ xs) ≡ true

-- the seconds are offered, or between 1 and 20 where none are
abbrev pub AreFrom : ℕ → List ℕ → Type 0
AreFrom n [] = (1 ≤ n) × (n ≤ 20)
AreFrom n (m ∷ ms) = any (nat_eq n) (m ∷ ms) ≡ true

abbrev pub AreOffer : List ℕ → Type 0
AreOffer [] = Unit
AreOffer (m ∷ ms) = nat_eq m 0 ≡ false

IsFrom-chosen_text :
    (requested : String) (default : Option String) (xs : List String) (rest : Option String)
    (d : String)
    → IsOffer xs
    → IsFrom (get_or (chosen_text requested default xs rest) d) xs
IsFrom-chosen_text requested default [] rest d h = tt
IsFrom-chosen_text requested default (x ∷ xs) rest d h =
    get_or-Chosen _ d (x ∷ xs) (Chosen-chosen_text requested default x xs rest h)

AreFrom-chosen_seconds :
    (ns : List ℕ) (s : Seconds) → AreOffer ns → AreFrom (chosen_seconds ns s) ns
AreFrom-chosen_seconds [] (whole n) h = clamped-bounds (whole n)
AreFrom-chosen_seconds [] below_zero h = clamped-bounds below_zero
AreFrom-chosen_seconds [] unbounded h = clamped-bounds unbounded
AreFrom-chosen_seconds (n ∷ ns) s h = chosen_seconds-IsOffered n ns s h

-- Whatever the configuration holds, the size and the resolution that are sent are among those that
-- the model offers, where it offers some, and the seconds are too, or between 1 and 20 where the
-- model offers none; provided that the first entry of each list is neither empty nor zero.
pub video_parameters-IsFrom :
    (config : Config) (offer : Offer)
    → AreOffer offer.video_seconds
    → IsOffer offer.aspect_ratios
    → IsOffer offer.resolutions
    → AreFrom (video_parameters config offer).seconds offer.video_seconds
      × (IsFrom (video_parameters config offer).size offer.aspect_ratios
          × IsFrom (video_parameters config offer).resolution offer.resolutions)
unfolding video_parameters
video_parameters-IsFrom config offer hs ha hr = (
  AreFrom-chosen_seconds offer.video_seconds config.seconds hs,
  (
    IsFrom-chosen_text _ offer.default_ratio offer.aspect_ratios _ "16:9" ha,
    IsFrom-chosen_text _ offer.default_resolution offer.resolutions _ _ hr,
  ),
)
