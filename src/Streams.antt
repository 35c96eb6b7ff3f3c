-- ===== src/Streams.antt =====
-- frontend/src/api/canvas-api.ts: parseCanvasSSE and the snapshots of streamJob. A text is the list
-- of its code units. What the reader gives is a list of texts, each the decoder's for one read; the
-- last one is what the decoder still holds when the reader is done.
pub mod Chunks
pub mod Frames
use canvas_standalone.Prelude.{
  ℕ, zero, suc, Bool, true, false, not, ◌&&◌, Option, none, some, List, [], ◌∷◌, ◌++◌,
  if◌then◌else◌, nat_eq, length, space_code, starts_exactly, codes,
}

abbrev pub Text : Type 0
Text = List ℕ

-- `text.endsWith('\r')` for a text that follows one that ends so or not
abbrev pub ends_cr : Bool → Text → Bool
ends_cr before [] = before
ends_cr before (c ∷ cs) = ends_cr (nat_eq c 13) cs

-- `text.slice(0, -1)`
abbrev pub drop_last : Text → Text
drop_last [] = []
drop_last (c ∷ []) = []
drop_last (c ∷ d ∷ ds) = c ∷ drop_last (d ∷ ds)

-- `text.replace(/\r\n?|\n/g, '\n')`; the flag says that the text follows a carriage return
unfoldable pub normalize : Bool → Text → Text
normalize after [] = []
normalize after (c ∷ cs) =
    let rest = normalize (nat_eq c 13) cs in
    if nat_eq c 13 then 10 ∷ rest else if after && nat_eq c 10 then rest else c ∷ rest

abbrev pub starts_lf : Text → Bool
starts_lf [] = false
starts_lf (c ∷ cs) = nat_eq c 10

abbrev pub tail : Text → Text
tail [] = []
tail (c ∷ cs) = cs

abbrev pub push_front : ℕ → Option (Text × Text) → Option (Text × Text)
push_front c none = none
push_front c (some (block, rest)) = some (c ∷ block, rest)

-- The text before the first blank line, and the text after it: `boundary` and the two slices.
unfoldable pub split_block : Text → Option (Text × Text)
split_block [] = none
split_block (c ∷ cs) =
    if nat_eq c 10 && starts_lf cs then some ([], tail cs) else push_front c (split_block cs)

-- `while (boundary >= 0)`: the blocks of the buffer, and what stays in it. Each round shortens the
-- buffer; the fuel bounds the rounds.
unfoldable pub blocks : ℕ → Text → List Text × Text
blocks zero buffer = ([], buffer)
blocks (suc fuel) buffer = elim (split_block buffer) [
  | none ↦ ([], buffer)
  | some (block, rest) ↦ let more = blocks fuel rest in (block ∷ more.0, more.1)
]

-- `block.split('\n')`
unfoldable pub split_lines : Text → Text → List Text
split_lines line [] = line ∷ []
split_lines line (c ∷ cs) =
    if nat_eq c 10 then line ∷ split_lines [] cs else split_lines (line ++ c ∷ []) cs

-- `text.trimStart()`
unfoldable pub trim_start : Text → Text
trim_start [] = []
trim_start (c ∷ cs) = if space_code c then trim_start cs else c ∷ cs

unfoldable pub trim_end : Text → Text
trim_end [] = []
trim_end (c ∷ cs) =
    let rest = trim_end cs in
    elim rest [ [] ↦ if space_code c then [] else c ∷ [] | d ∷ ds ↦ c ∷ d ∷ ds ]

unfoldable pub trim_text : Text → Text
unfolding trim_start trim_end
trim_text t = trim_end (trim_start t)

-- `text.slice(n)`
abbrev pub drop : ℕ → Text → Text
drop zero t = t
drop (suc n) [] = []
drop (suc n) (c ∷ cs) = drop n cs

pub record Event : Type 0 where
  pub name : Text
  pub lines : List Text

-- the body of the loop over the lines of a block; an empty line and a comment begin with neither word
unfoldable pub read_line : Event → Text → Event
unfolding trim_text trim_start
read_line e line =
    if starts_exactly (codes "event:") line
    then record e { name = trim_text (drop 6 line) }
    else if starts_exactly (codes "data:") line
    then record e { lines = e.lines ++ trim_start (drop 5 line) ∷ [] }
    else e

unfoldable pub read_lines : Event → List Text → Event
unfolding read_line
read_lines e [] = e
read_lines e (line ∷ rest) = read_lines (read_line e line) rest

-- `data.join('\n')`
abbrev pub join_lines : List Text → Text
join_lines [] = []
join_lines (line ∷ []) = line
join_lines (line ∷ next ∷ rest) = line ++ 10 ∷ join_lines (next ∷ rest)

pub record Message : Type 0 where
  pub event : Text
  pub payload : Text

-- `if (data.length) yield { event, data: data.join('\n') }`
abbrev pub yield_event : Event → List Message
yield_event e = elim e.lines [
  | [] ↦ []
  | line ∷ rest ↦ record { event = e.name; payload = join_lines (line ∷ rest) } ∷ []
]

abbrev pub no_event : Event
no_event = record { name = codes "message"; lines = [] }

-- what one block yields
unfoldable pub read_block : Text → List Message
unfolding read_lines split_lines
read_block block = yield_event (read_lines no_event (split_lines [] block))

abbrev pub read_blocks : List Text → List Message
read_blocks [] = []
read_blocks (block ∷ rest) = read_block block ++ read_blocks rest

-- the buffer with its line ends made one, where a carriage return at its end waits for the next read
unfoldable pub normalized : Bool → Text → Text
unfolding normalize
normalized done joined =
    if not done && ends_cr false joined
    then normalize false (drop_last joined) ++ 13 ∷ []
    else normalize false joined

-- one round of `while (true)`: what it yields, and the buffer after it
unfoldable pub read : Bool → Text → Text → List Message × Text
unfolding normalized blocks split_block read_block
read done buffer chunk =
    let text = normalized done (buffer ++ chunk) in
    let cut = blocks (length text) text in (read_blocks cut.0, cut.1)

-- all that parseCanvasSSE yields
unfoldable pub parse_from : Text → List Text → Text → List Message
unfolding read
parse_from buffer [] last = (read true buffer last).0
parse_from buffer (chunk ∷ chunks) last =
    let round = read false buffer chunk in round.0 ++ parse_from round.1 chunks last

unfoldable pub parse : List Text → Text → List Message
unfolding parse_from
parse chunks last = parse_from [] chunks last

-- `if (event.data) yield JSON.parse(event.data)`: the texts that streamJob hands to JSON.parse
unfoldable pub snapshots : List Message → List Text
snapshots [] = []
snapshots (m ∷ ms) = elim m.payload [ [] ↦ snapshots ms | c ∷ cs ↦ (c ∷ cs) ∷ snapshots ms ]
