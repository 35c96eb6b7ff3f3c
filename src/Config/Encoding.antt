-- ===== src/Config/Encoding.antt =====
-- The texts that name a model of a channel, in frontend/src/adapters/use-config-store.ts.
use Prim.Native.String.{◌++◌ as text_append}
use text.Mathlib.TextLemmas.{nil-append, cons-append}
use canvas_standalone.Prelude.{
  ℕ, zero, suc, ◌/◌, ◌%◌, String, Bool, true, false, ◌≡◌, refl, ap, ◌∙◌, some, List, [], ◌∷◌, All,
  if◌then◌else◌, ltb, trim, arith,
}
use canvas_standalone.Config.{
  is_colon, decode, encode, digit, digits, nth_digit, show_from, show, channel_id,
}

-- No character of the text is a colon.
abbrev pub NoColon : String → Type 0
NoColon String.[] = Unit
NoColon (String.◌∷◌ c s) = (is_colon c ≡ false) × NoColon s

NoColon-append : (s t : String) → NoColon s → NoColon t → NoColon (text_append s t)
NoColon-append String.[] t hs ht = rw nil-append ht
NoColon-append (String.◌∷◌ c s) t hs ht = rw cons-append (hs.0, NoColon-append s t hs.1 ht)

NoColon-if : (b : Bool) (s t : String) → NoColon s → NoColon t → NoColon (if b then s else t)
NoColon-if true s t hs ht = hs
NoColon-if false s t hs ht = ht

NoColon-nth_digit : (ds : List String) (n : ℕ) → All NoColon ds → NoColon (nth_digit ds n)
NoColon-nth_digit [] n h = (refl, tt)
NoColon-nth_digit (d ∷ ds) zero h = h.0
NoColon-nth_digit (d ∷ ds) (suc n) h = NoColon-nth_digit ds n h.1

NoColon-digit : (n : ℕ) → NoColon (digit n)
NoColon-digit n = NoColon-nth_digit digits n (ground arith)

NoColon-show_from : (f n : ℕ) → NoColon (show_from f n)
unfolding show_from
NoColon-show_from zero n = NoColon-digit n
NoColon-show_from (suc f) n =
    NoColon-if (ltb n 10) (digit n) (text_append (show_from f (n / 10)) (digit (n % 10)))
      (NoColon-digit n)
      (NoColon-append (show_from f (n / 10)) (digit (n % 10)) (NoColon-show_from f (n / 10))
        (NoColon-digit (n % 10)))

-- The identifier of the channel of an API key.
pub NoColon-channel_id : (key : ℕ) → NoColon (channel_id key)
unfolding channel_id show
NoColon-channel_id key =
    NoColon-append "sub2api-" (show_from key key)
      (refl, (refl, (refl, (refl, (refl, (refl, (refl, (refl, tt)))))))) (NoColon-show_from key key)

colons : (t : String) → text_append "::" t ≡ String.◌∷◌ ":" (String.◌∷◌ ":" t)
colons t =
    cons-append ":" ":" t
    ∙ ap (λ (x : String). String.◌∷◌ ":" x)
        (cons-append ":" "" t ∙ ap (λ (x : String). String.◌∷◌ ":" x) (nil-append t))

decode-append :
    (s t : String) → NoColon s → decode (text_append s (text_append "::" t)) ≡ some (s, t)
unfolding decode
decode-append String.[] t h = rw nil-append (rw (colons t) refl)
decode-append (String.◌∷◌ c s) t h = rw cons-append (rw h.0 (rw (decode-append s t h.1) refl))

-- The text that is made of a channel and a model leads back to both.
pub decode-encode :
    (channel model : String)
    → NoColon channel
    → decode (encode channel model) ≡ some (channel, trim model)
unfolding encode
decode-encode channel model h = decode-append channel (trim model) h
