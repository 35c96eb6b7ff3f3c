-- ===== src/Prelude/Text.antt =====
-- `trim` of a text, with the white space of ECMAScript, and its length in UTF-16 units.
use Prim.Native.Nat.{ℕ, ◌+◌}
use Prim.Native.Char.{Char, code}
use Prim.Native.String.{String}
use mathlib.Core.Bool.{Bool, ◌&&◌, ◌||◌}
use mathlib.Core.Bool.{true, false}
use mathlib.Core.List.{List, [], ◌∷◌}
use canvas_standalone.Prelude.Tests.{if◌then◌else◌, leb, nat_eq, is_empty}

abbrev pub space_code : ℕ → Bool
space_code c =
    (leb 9 c && leb c 13)
    || (nat_eq c 32
        || (nat_eq c 160
            || (nat_eq c 5760
                || ((leb 8192 c && leb c 8202)
                    || (nat_eq c 8232
                        || (nat_eq c 8233
                            || (nat_eq c 8239
                                || (nat_eq c 8287 || (nat_eq c 12288 || nat_eq c 65279)))))))))

abbrev pub is_space : Char → Bool
is_space c = space_code (code c)

pub trim_start : String → String
trim_start String.[] = String.[]
trim_start (String.◌∷◌ c s) = if is_space c then trim_start s else String.◌∷◌ c s

pub trim_end : String → String
trim_end String.[] = String.[]
trim_end (String.◌∷◌ c s) =
    let rest = trim_end s in if is_space c && is_empty rest then String.[] else String.◌∷◌ c rest

unfoldable pub trim : String → String
unfolding trim_start trim_end
trim s = trim_end (trim_start s)

unfoldable pub utf16_length : String → ℕ
utf16_length String.[] = 0
utf16_length (String.◌∷◌ c s) = (if leb 65536 (code c) then 2 else 1) + utf16_length s

abbrev pub codes : String → List ℕ
codes String.[] = []
codes (String.◌∷◌ c s) = code c ∷ codes s

abbrev pub lower : ℕ → ℕ
lower c = if leb b'A' c && leb c b'Z' then c + 32 else c

-- The pattern is in lower case; the text is compared as a regular expression with the flag i does.
abbrev pub begins : List ℕ → List ℕ → Bool
begins [] text = true
begins (p ∷ ps) [] = false
begins (p ∷ ps) (c ∷ cs) = nat_eq p (lower c) && begins ps cs

abbrev pub starts_exactly : List ℕ → List ℕ → Bool
starts_exactly [] text = true
starts_exactly (p ∷ ps) [] = false
starts_exactly (p ∷ ps) (c ∷ cs) = nat_eq p c && starts_exactly ps cs

-- `text.toLowerCase() === p` for a pattern in lower case
abbrev pub is_lower : List ℕ → List ℕ → Bool
is_lower [] [] = true
is_lower [] (c ∷ cs) = false
is_lower (p ∷ ps) [] = false
is_lower (p ∷ ps) (c ∷ cs) = nat_eq p (lower c) && is_lower ps cs
