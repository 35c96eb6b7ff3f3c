-- ===== src/Streams/Frames.antt =====
-- parseCanvasSSE of frontend/src/api/canvas-api.ts, on streams of whole events.
use canvas_standalone.Prelude.{
  ℕ, false, ◌≡◌, ◌≢◌, refl, ap, ◌∙◌, none, some, List, [], ◌∷◌, ◌++◌, map, All, All-append,
  append_assoc, append-nil, arith, codes,
}
use canvas_standalone.Streams.{
  Text, normalize, starts_lf, split_block, split_lines, trim_start, trim_text, join_lines, Event,
  read_line, read_lines, Message, read_block, read_blocks, yield_event, no_event, parse,
}
use canvas_standalone.Streams.Chunks.{joined, Cuts, whole, cut, Cuts-unique, Cuts-parse_from}

-- an event as a server sends it: its name and the lines of its data, one at the least
pub record Sent : Type 0 where
  pub name : Text
  pub first : Text
  pub more : List Text

abbrev data_line : Text → Text
data_line l = codes "data: " ++ l

abbrev lines_of : Sent → List Text
lines_of e = (codes "event: " ++ e.name) ∷ map data_line (e.first ∷ e.more)

abbrev text_of : Sent → Text
text_of e = join_lines (lines_of e)

-- the text of the events, each closed by a blank line
abbrev pub print : List Sent → Text
print [] = []
print (e ∷ es) = join_lines (lines_of e) ++ 10 ∷ 10 ∷ print es

abbrev pub message : Sent → Message
message e = record { event = e.name; payload = join_lines (e.first ∷ e.more) }

abbrev NotFeed : ℕ → Type 0
NotFeed c = c ≢ 10

-- Texts without a line feed, and without the white space that the reader takes away.
pub record IsSendable (e : Sent) : Type 0 where
  pub name_line : All NotFeed e.name
  pub data_lines : All (All NotFeed) (e.first ∷ e.more)
  pub name_trimmed : trim_text e.name ≡ e.name
  pub data_trimmed : All (λ l. trim_start l ≡ l) (e.first ∷ e.more)

abbrev IsLine : Text → Type 0
IsLine [] = ⊥
IsLine (c ∷ cs) = All NotFeed (c ∷ cs)

split_block-last : (l z : Text) → All NotFeed l → split_block (l ++ 10 ∷ 10 ∷ z) ≡ some (l, z)
unfolding split_block
split_block-last [] z h = refl
split_block-last (c ∷ cs) z h = ground (arith, split_block-last cs z h.1)

split_block-line :
    (l t b r : Text)
    → All NotFeed l
    → starts_lf t ≡ false
    → split_block t ≡ some (b, r)
    → split_block (l ++ 10 ∷ t) ≡ some (l ++ 10 ∷ b, r)
unfolding split_block
split_block-line [] t b r h n e = ground arith
split_block-line (c ∷ cs) t b r h n e = ground (arith, split_block-line cs t b r h.1)

starts_lf-join_lines :
    (d : ℕ) (n : Text) (ls : List Text) (z : Text)
    → d ≢ 10
    → starts_lf (join_lines ((d ∷ n) ∷ ls) ++ z) ≡ false
starts_lf-join_lines d n [] z h = ground arith
starts_lf-join_lines d n (l ∷ ls) z h = ground arith

split_block-join_lines :
    (l : Text) (ls : List Text) (z : Text)
    → IsLine l
    → All IsLine ls
    → split_block (join_lines (l ∷ ls) ++ 10 ∷ 10 ∷ z) ≡ some (join_lines (l ∷ ls), z)
split_block-join_lines [] ls z h hs = elim h [ ]
split_block-join_lines (c ∷ l) [] z h hs = split_block-last (c ∷ l) z h
split_block-join_lines (c ∷ l) ([] ∷ ls) z h hs = absurd hs.0
split_block-join_lines (c ∷ l) ((d ∷ n) ∷ ls) z h hs =
    let x = 10 ∷ 10 ∷ z in
    let rest = join_lines ((d ∷ n) ∷ ls) in
    let e =
      split_block-line (c ∷ l) (rest ++ x) rest z h (starts_lf-join_lines d n ls x hs.0.0)
        (split_block-join_lines (d ∷ n) ls z hs.0 hs.1) in
    ap split_block (append_assoc (c ∷ l) (10 ∷ rest) x) ∙ e

split_lines-line :
    (acc l t : Text) → All NotFeed l → split_lines acc (l ++ 10 ∷ t) ≡ (acc ++ l) ∷ split_lines [] t
unfolding split_lines
split_lines-line acc [] t h = rw append-nil
split_lines-line acc (c ∷ l) t h =
    ground (arith, split_lines-line (acc ++ c ∷ []) l t h.1, append_assoc acc (c ∷ []) l)

split_lines-last : (acc l : Text) → All NotFeed l → split_lines acc l ≡ (acc ++ l) ∷ []
unfolding split_lines
split_lines-last acc [] h = rw append-nil
split_lines-last acc (c ∷ l) h =
    ground (arith, split_lines-last (acc ++ c ∷ []) l h.1, append_assoc acc (c ∷ []) l)

split_lines-join_lines :
    (l : Text) (ls : List Text)
    → All NotFeed l
    → All (All NotFeed) ls
    → split_lines [] (join_lines (l ∷ ls)) ≡ l ∷ ls
split_lines-join_lines l [] h hs = split_lines-last [] l h
split_lines-join_lines l (n ∷ ls) h hs =
    split_lines-line [] l (join_lines (n ∷ ls)) h
    ∙ ap (λ (rest : List Text). l ∷ rest) (split_lines-join_lines n ls hs.0 hs.1)

read_line-data :
    (e : Event) (l : Text)
    → trim_start l ≡ l
    → read_line e (data_line l) ≡ record e { lines = e.lines ++ l ∷ [] }
unfolding read_line trim_start
read_line-data e l h = ap (λ (t : Text). record e { lines = e.lines ++ t ∷ [] }) h

read_line-name :
    (e : Event) (n : Text)
    → trim_text n ≡ n
    → read_line e (codes "event: " ++ n) ≡ record e { name = n }
unfolding read_line trim_text trim_start
read_line-name e n h = ap (λ (t : Text). record e { name = t }) h

read_lines-data :
    (e : Event) (ls : List Text)
    → All (λ l. trim_start l ≡ l) ls
    → read_lines e (map data_line ls) ≡ record e { lines = e.lines ++ ls }
unfolding read_lines
read_lines-data e [] h = rw append-nil
read_lines-data e (l ∷ ls) h =
    let next : Event = record e { lines = e.lines ++ l ∷ [] } in
    ap (λ (x : Event). read_lines x (map data_line ls)) (read_line-data e l h.0)
    ∙ read_lines-data next ls h.1
    ∙ ap (λ (t : List Text). record e { lines = t }) (append_assoc e.lines (l ∷ []) ls)

IsLine-lines_of : (ls : List Text) → All (All NotFeed) ls → All IsLine (map data_line ls)
IsLine-lines_of [] h = tt
IsLine-lines_of (l ∷ ls) h =
    (All-append NotFeed (codes "data: ") l (omega arith) h.0, IsLine-lines_of ls h.1)

IsLine-name : (e : Sent) → IsSendable e → All NotFeed (codes "event: " ++ e.name)
IsLine-name e h = All-append NotFeed (codes "event: ") e.name (omega arith) h.name_line

NotFeed-lines : (ls : List Text) → All IsLine ls → All (All NotFeed) ls
NotFeed-lines [] h = tt
NotFeed-lines ([] ∷ ls) h = absurd h.0
NotFeed-lines ((c ∷ l) ∷ ls) h = (h.0, NotFeed-lines ls h.1)

read_block-lines_of :
    (e : Sent) → IsSendable e → read_block (join_lines (lines_of e)) ≡ message e ∷ []
unfolding read_block read_lines
read_block-lines_of e h =
    let name = codes "event: " ++ e.name in
    let ls = map data_line (e.first ∷ e.more) in
    let lines = IsLine-lines_of (e.first ∷ e.more) h.data_lines in
    let named : Event = record no_event { name = e.name } in
    ap yield_event (
      ap (read_lines no_event)
        (split_lines-join_lines name ls (IsLine-name e h) (NotFeed-lines ls lines))
      ∙ ap (λ (x : Event). read_lines x ls) (read_line-name no_event e.name h.name_trimmed)
      ∙ read_lines-data named (e.first ∷ e.more) h.data_trimmed)

split_block-nil : split_block [] ≡ none
unfolding split_block
split_block-nil = refl

Cuts-print : (es : List Sent) → All IsSendable es → Cuts (print es) (map text_of es) []
Cuts-print [] h = whole split_block-nil
Cuts-print (e ∷ es) h =
    cut
      (split_block-join_lines (codes "event: " ++ e.name) (map data_line (e.first ∷ e.more))
        (print es) (IsLine-name e h.0) (IsLine-lines_of (e.first ∷ e.more) h.0.data_lines))
      (Cuts-print es h.1)

read_blocks-lines_of :
    (es : List Sent) → All IsSendable es → read_blocks (map text_of es) ≡ map message es
read_blocks-lines_of [] h = refl
read_blocks-lines_of (e ∷ es) h =
    rw (read_block-lines_of e h.0)
      (ap (λ (ms : List Message). message e ∷ ms) (read_blocks-lines_of es h.1))

-- Whatever the reads and the kind of the line ends, the events that a server sends are yielded.
pub parse-print :
    (es : List Sent) (chunks : List Text) (last : Text)
    → All IsSendable es
    → normalize false (joined chunks last) ≡ print es
    → parse chunks last ≡ map message es
unfolding parse
parse-print es chunks last h e =
    let (bs, r, cuts, same) = Cuts-parse_from [] chunks last in
    same ∙ ap read_blocks (Cuts-unique e cuts (Cuts-print es h)) ∙ read_blocks-lines_of es h
