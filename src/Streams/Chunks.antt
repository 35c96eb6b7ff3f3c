-- ===== src/Streams/Chunks.antt =====
-- parseCanvasSSE of frontend/src/api/canvas-api.ts: where the reads of the stream end.
use canvas_standalone.Prelude.{
  ℕ, zero, suc, ◌≤◌, Bool, true, false, ◌≡◌, refl, sym, ap, subst, ◌∙◌, none, some, List, [], ◌∷◌,
  ◌++◌, append_assoc, nat_eq, length, arith, inl, inr, Bool-cases, Option-cases, Option-split,
}
use canvas_standalone.Streams.{
  Text, ends_cr, drop_last, normalize, split_block, blocks, read_blocks, normalized, read,
  parse_from, parse, Message,
}

-- the texts of the reads, one after the other
abbrev pub joined : List Text → Text → Text
joined [] last = last
joined (chunk ∷ chunks) last = chunk ++ joined chunks last

-- `text` is cut into blocks at its blank lines and a rest that holds no blank line
pub data Cuts : Text → List Text → Text → Type 0 where
  whole : {text : Text} → split_block text ≡ none → Cuts text [] text
  cut :
      {text block after rest : Text} {more : List Text}
      → split_block text ≡ some (block, after)
      → Cuts after more rest
      → Cuts text (block ∷ more) rest

split_block-length : (t b r : Text) → split_block t ≡ some (b, r) → suc (length r) ≤ length t
unfolding split_block
split_block-length [] b r e = ground arith
split_block-length (c ∷ []) b r e = ground arith
split_block-length (c ∷ d ∷ ds) b r e = elim (Option-cases (split_block (d ∷ ds))) [
  | inl n ↦ ground arith
  | inr ((b', r'), s) ↦ ground (arith, split_block-length (d ∷ ds) b' r' s)
]

abbrev add_block : Text × Text → List Text × Text → List Text × Text
add_block s more = (s.0 ∷ more.0, more.1)

-- The loop over the blocks ends with no blank line left.
pub Cuts-blocks : (f : ℕ) (t : Text) → length t ≤ f → Cuts t (blocks f t).0 (blocks f t).1
unfolding blocks split_block
Cuts-blocks zero [] h = whole refl
Cuts-blocks zero (c ∷ cs) h = absurd (omega arith)
Cuts-blocks (suc f) t h =
    Option-split (λ p. Cuts t p.0 p.1) ([], t) (λ s. add_block s (blocks f s.1)) (split_block t)
      whole λ s e. cut e (Cuts-blocks f s.1 (omega (arith, split_block-length t s.0 s.1 e)))

-- The blocks of a text are determined.
pub Cuts-unique : {t u r s : Text} {bs cs : List Text} → t ≡ u → Cuts t bs r → Cuts u cs s → bs ≡ cs
Cuts-unique h (whole e) (whole d) = refl
Cuts-unique h (whole e) (cut d q) = absurd (cc (ap split_block h))
Cuts-unique h (cut e p) (whole d) = absurd (cc (ap split_block h))
Cuts-unique h (cut e p) (cut d q) =
    let rest = Cuts-unique (cc (ap split_block h)) p q in cc (rest, ap split_block h)

-- Every carriage return of the text stands at its end.
abbrev Clean : Text → Type 0
Clean [] = Unit
Clean (c ∷ cs) = (nat_eq c 13 ≡ true → cs ≡ []) × Clean cs

Clean-normalize : (a : Bool) (t : Text) → Clean (normalize a t)
unfolding normalize
Clean-normalize a [] = tt
Clean-normalize a (c ∷ cs) = ground (arith, Clean-normalize (nat_eq c 13) cs)

Clean-normalize_cr : (a : Bool) (t : Text) → Clean (normalize a t ++ 13 ∷ [])
unfolding normalize
Clean-normalize_cr a [] = ground arith
Clean-normalize_cr a (c ∷ cs) = ground (arith, Clean-normalize_cr (nat_eq c 13) cs)

Clean-normalized : (d : Bool) (t : Text) → Clean (normalized d t)
unfolding normalized
Clean-normalized d t =
    ground (arith, Clean-normalize false t, Clean-normalize_cr false (drop_last t))

-- To make the line ends one is harmless where it was done before.
normalize-ready :
    (a : Bool) (t z : Text)
    → ends_cr a t ≡ false
    → normalize false (normalize a t ++ z) ≡ normalize a (t ++ z)
unfolding normalize
normalize-ready a [] z e = ground arith
normalize-ready a (c ∷ cs) z e = ground (arith, normalize-ready (nat_eq c 13) cs z e)

normalize-pending :
    (a : Bool) (t z : Text) → normalize false (normalize a t ++ 13 ∷ z) ≡ normalize a (t ++ 13 ∷ z)
unfolding normalize
normalize-pending a [] z = ground arith
normalize-pending a (c ∷ cs) z = ground (arith, normalize-pending (nat_eq c 13) cs z)

drop_last-append :
    (a : Bool) (c : ℕ) (t : Text) → ends_cr a (c ∷ t) ≡ true → drop_last (c ∷ t) ++ 13 ∷ [] ≡ c ∷ t
drop_last-append a c [] e = ground arith
drop_last-append a c (d ∷ ds) e = ground (arith, drop_last-append false d ds e)

-- A block that is cut off stays one whatever follows.
split_block-normalize :
    (t b r z : Text)
    → Clean t
    → split_block t ≡ some (b, r)
    → (split_block (normalize false (t ++ z)) ≡ some (b, normalize false (r ++ z))) × Clean r
unfolding split_block normalize
split_block-normalize [] b r z h e = absurd (cc)
split_block-normalize (c ∷ []) b r z h e = ground arith
split_block-normalize (c ∷ d ∷ ds) b r z h e = elim (Option-cases (split_block (d ∷ ds))) [
  | inl n ↦ ground arith
  | inr ((b', r'), s) ↦ ground (arith, split_block-normalize (d ∷ ds) b' r' z h.1 s)
]

Cuts-append :
    {x : Text} {bs cs : List Text} {y r : Text} (z : Text)
    → Clean x
    → Cuts x bs y
    → Cuts (normalize false (y ++ z)) cs r
    → Cuts (normalize false (x ++ z)) (bs ++ cs) r
Cuts-append z h (whole e) q = q
Cuts-append {x} z h (cut {block = b} {after = y} e p) q =
    let (step, clean) = split_block-normalize x b y z h e in cut step (Cuts-append z clean p q)

pending-normalized :
    (t z : Text)
    → drop_last t ++ 13 ∷ [] ≡ t
    → normalize false ((normalize false (drop_last t) ++ 13 ∷ []) ++ z) ≡ normalize false (t ++ z)
pending-normalized t z d =
    let body = drop_last t in
    rw (append_assoc (normalize false body) (13 ∷ []) z) (
      normalize-pending false body z
      ∙ ap (λ (u : Text). normalize false u)
          (sym (append_assoc body (13 ∷ []) z) ∙ ap (λ (u : Text). u ++ z) d))

normalize-normalized :
    (t z : Text) → normalize false (normalized false t ++ z) ≡ normalize false (t ++ z)
unfolding normalized
normalize-normalized [] z = refl
normalize-normalized (c ∷ cs) z =
    let t = c ∷ cs in
    elim (Bool-cases (ends_cr false t)) [
      | inl e ↦ rw (e, normalized) (pending-normalized t z (drop_last-append false c cs e))
      | inr e ↦ rw (e, normalized) (normalize-ready false t z e)
    ]

read_blocks-append : (bs cs : List Text) → read_blocks (bs ++ cs) ≡ read_blocks bs ++ read_blocks cs
read_blocks-append [] cs = refl
read_blocks-append (b ∷ bs) cs = simp (read_blocks-append bs cs, append_assoc)

-- The blocks that all reads together cut off are those of the text in one piece.
pub Cuts-parse_from :
    (buffer : Text) (chunks : List Text) (last : Text)
    → (bs : List Text) × (r : Text) × Cuts (normalize false (buffer ++ joined chunks last)) bs r
      × (parse_from buffer chunks last ≡ read_blocks bs)
unfolding parse_from read
Cuts-parse_from buffer [] last =
    let text = normalized true (buffer ++ last) in
    let cutting = blocks (length text) text in
    (cutting.0, cutting.1, Cuts-blocks (length text) text (omega arith), refl)
Cuts-parse_from buffer (chunk ∷ chunks) last =
    let text = normalized false (buffer ++ chunk) in
    let cutting = blocks (length text) text in
    let z = joined chunks last in
    let (bs, r, cuts, same) = Cuts-parse_from cutting.1 chunks last in
    (
      cutting.0 ++ bs,
      r,
      subst (λ (t : Text). Cuts t (cutting.0 ++ bs) r)
          (normalize-normalized (buffer ++ chunk) z
            ∙ ap (λ (t : Text). normalize false t) (append_assoc buffer chunk z))
          (Cuts-append z (Clean-normalized false (buffer ++ chunk))
            (Cuts-blocks (length text) text (omega arith)) cuts),
      rw (read_blocks-append cutting.0 bs)
          (ap (λ (ms : List Message). read_blocks cutting.0 ++ ms) same),
    )

-- However the stream is cut into reads, what is yielded is what one read of all of it yields.
pub parse-joined :
    (chunks : List Text) (last : Text) → parse chunks last ≡ parse [] (joined chunks last)
unfolding parse
parse-joined chunks last =
    let (bs, r, cuts, same) = Cuts-parse_from [] chunks last in
    let (cs, s, cuts', same') = Cuts-parse_from [] [] (joined chunks last) in
    same ∙ ap read_blocks (Cuts-unique refl cuts cuts') ∙ sym same'
