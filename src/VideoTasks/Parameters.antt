-- ===== src/VideoTasks/Parameters.antt =====
-- videoParameters of frontend/src/adapters/video-api.ts with the functions that it calls. A number
-- that the seconds' text stands for is not negative, or below zero, or Infinity; the digits of a
-- size are read exactly. Letters beyond ASCII are compared as they are.
pub mod Ratio
pub mod Offered
use Prim.Native.String.{◌++◌ as text_append}
use Prim.Native.Char.{Char, code}
use canvas_standalone.Config.{digit, show}
use canvas_standalone.Prelude.{
  ℕ, zero, suc, ◌+◌, ◌-◌, ◌*◌, ◌/◌, ◌%◌, min, max, String, Bool, true, false, not, ◌&&◌, ◌||◌,
  Option, none, some, List, [], ◌∷◌, find, any, if◌then◌else◌, ltb, leb, nat_eq, is_empty, is_text,
  get_or, ◌==◌, codes, lower, trim, starts_exactly, is_lower,
}

-- `Math.floor(Number(config.videoSeconds) || 0)`
pub data Seconds : Type 0 where
  whole : ℕ → Seconds
  below_zero unbounded : Seconds

pub record Config : Type 0 where
  pub seconds : Seconds
  pub size : String
  pub quality : String
  pub generate_audio : String
  pub watermark : String

-- The lists of CanvasCapability, empty where they are missing, and two of its defaults. The seconds
-- that are offered are whole numbers.
pub record Offer : Type 0 where
  pub video_seconds : List ℕ
  pub aspect_ratios : List String
  pub resolutions : List String
  pub default_ratio : Option String
  pub default_resolution : Option String

pub record Parameters : Type 0 where
  pub seconds : ℕ
  pub size : String
  pub resolution : String
  pub generate_audio : Bool
  pub watermark : Bool

-- `while (right) [left, right] = [right, left % right]`, with fuel
unfoldable pub greatest_common_divisor : ℕ → ℕ → ℕ → Option ℕ
greatest_common_divisor zero left right = none
greatest_common_divisor (suc fuel) left right = elim (nat_eq right 0) [
  | true ↦ some left
  | false ↦ greatest_common_divisor fuel right (left % right)
]

-- the two numbers of the ratio
unfoldable pub reduced : ℕ → ℕ → ℕ × ℕ
unfolding greatest_common_divisor
reduced width height =
    let divisor = get_or (greatest_common_divisor (suc height) width height) 1 in
    (width / divisor, height / divisor)

abbrev pub is_digit : ℕ → Bool
is_digit c = leb 48 c && leb c 57

-- the number of a list of digits, which is not empty, as `Number` reads it
abbrev pub number_from : ℕ → List ℕ → Option ℕ
number_from n [] = some n
number_from n (c ∷ cs) = if is_digit c then number_from (n * 10 + (c - 48)) cs else none

abbrev pub read_number : List ℕ → Option ℕ
read_number [] = none
read_number (c ∷ cs) = number_from 0 (c ∷ cs)

-- the texts before and after the first character that passes the test
abbrev pub cut_at : (ℕ → Bool) → List ℕ → Option (List ℕ × List ℕ)
cut_at p [] = none
cut_at p (c ∷ cs) =
    if p c
    then some ([], cs)
    else elim (cut_at p cs) [ none ↦ none | some (before, after) ↦ some (c ∷ before, after) ]

abbrev pub both : Option ℕ → Option ℕ → Option (ℕ × ℕ)
both (some a) (some b) = some (a, b)
both _ _ = none

-- `/^\d+:\d+$/` and `/^(\d+)x(\d+)$/i`
abbrev pub two_numbers : (ℕ → Bool) → String → Option (ℕ × ℕ)
two_numbers p value = elim (cut_at p (codes value)) [
  | none ↦ none
  | some (before, after) ↦ both (read_number before) (read_number after)
]

unfoldable pub print_ratio : ℕ × ℕ → String
unfolding show
print_ratio (a, b) = text_append (show a) (text_append ":" (show b))

unfoldable pub ratio_of_size : Option (ℕ × ℕ) → String
unfolding print_ratio reduced
ratio_of_size none = ""
ratio_of_size (some (width, height)) =
    if nat_eq width 0 || nat_eq height 0 then "" else print_ratio (reduced width height)

abbrev pub is_some_pair : Option (ℕ × ℕ) → Bool
is_some_pair none = false
is_some_pair (some x) = true

unfoldable pub video_aspect_ratio : String → String
unfolding ratio_of_size
video_aspect_ratio value =
    if is_some_pair (two_numbers (λ c. nat_eq c 58) value)
    then value
    else ratio_of_size (two_numbers (λ c. nat_eq (lower c) 120) value)

-- `normalized.replace(/p$/, '')`, read as a number of digits
abbrev pub drop_p : List ℕ → List ℕ
drop_p [] = []
drop_p (c ∷ []) = if nat_eq c 112 then [] else c ∷ []
drop_p (c ∷ d ∷ rest) = c ∷ drop_p (d ∷ rest)

abbrev pub all_digits : List ℕ → Bool
all_digits [] = true
all_digits (c ∷ cs) = is_digit c && all_digits cs

abbrev pub lowered : List ℕ → List ℕ
lowered [] = []
lowered (c ∷ cs) = lower c ∷ lowered cs

abbrev pub text_of_digits : List ℕ → String
text_of_digits [] = ""
text_of_digits (c ∷ cs) = text_append (digit (c - 48)) (text_of_digits cs)

abbrev pub numeric_resolution : List ℕ → String
numeric_resolution [] = "720p"
numeric_resolution (c ∷ cs) =
    if all_digits (c ∷ cs) then text_append (text_of_digits (c ∷ cs)) "p" else "720p"

unfoldable pub video_resolution : String → String
unfolding trim
video_resolution value =
    let normalized = codes (trim value) in
    let named = λ (name : String). is_lower (codes name) normalized in
    if named "low"
    then "480p"
    else if named "auto" || named "medium" || named "high"
    then "720p"
    else numeric_resolution (drop_p (lowered normalized))

abbrev pub same_codes : List ℕ → List ℕ → Bool
same_codes [] [] = true
same_codes (c ∷ cs) (d ∷ ds) = nat_eq (lower c) (lower d) && same_codes cs ds
same_codes _ _ = false

-- `item.toLowerCase() === value.toLowerCase()`
abbrev pub same_folded : String → String → Bool
same_folded value item = same_codes (codes item) (codes value)

abbrev pub allowed_value : Option String → List String → Option String
allowed_value none allowed = none
allowed_value (some value) allowed =
    if is_empty value then none else find (same_folded value) allowed

-- `a || b` for a text that may be missing
abbrev pub text_or_next : Option String → Option String → Option String
text_or_next none b = b
text_or_next (some a) b = if is_empty a then b else some a

abbrev pub first {ℓ} : {A : Type ℓ} → List A → Option A
first [] = none
first (x ∷ xs) = some x

abbrev pub chosen_text : String → Option String → List String → Option String → Option String
chosen_text requested default allowed rest =
    text_or_next (allowed_value (some requested) allowed)
      (text_or_next (allowed_value default allowed) (text_or_next (first allowed) rest))

-- `Math.max(1, Math.min(20, requestedSeconds || 6))`
abbrev pub clamped : Seconds → ℕ
clamped (whole n) = max 1 (min 20 (if nat_eq n 0 then 6 else n))
clamped below_zero = 1
clamped unbounded = 20

abbrev pub includes : List ℕ → Seconds → Bool
includes allowed (whole n) = any (nat_eq n) allowed
includes allowed _ = false

-- `allowedSeconds[0] || …`
abbrev pub first_or_clamped : List ℕ → Seconds → ℕ
first_or_clamped [] s = clamped s
first_or_clamped (n ∷ ns) s = if nat_eq n 0 then clamped s else n

abbrev pub seconds_value : Seconds → ℕ
seconds_value (whole n) = n
seconds_value _ = 0

abbrev pub chosen_seconds : List ℕ → Seconds → ℕ
chosen_seconds allowed s =
    if includes allowed s then seconds_value s else first_or_clamped allowed s

unfoldable pub video_parameters : Config → Offer → Parameters
unfolding video_aspect_ratio video_resolution
video_parameters config offer =
    let ratio = video_aspect_ratio config.size in
    let resolution = video_resolution config.quality in
    record {
      seconds = chosen_seconds offer.video_seconds config.seconds;
      size =
          get_or
            (chosen_text ratio offer.default_ratio offer.aspect_ratios
              (text_or_next (some ratio) (some "16:9")))
            "16:9";
      resolution =
          get_or
            (chosen_text resolution offer.default_resolution offer.resolutions (some resolution))
            resolution;
      generate_audio = not (config.generate_audio == "false");
      watermark = config.watermark == "true";
    }
