-- ===== src/Generations.antt =====
-- frontend/src/adapters/canvas-generation-helpers.ts: the search for the node that a retry starts
-- from, the reset of interrupted generations, the references and the numbers of a generation.
pub mod Retry
pub mod Interrupted
use Prim.Native.String.{◌++◌ as text_append}
use canvas_standalone.Prelude.{
  ℕ, zero, suc, ◌+◌, String, Bool, true, false, not, ◌&&◌, ◌||◌, Option, none, some, List, [], ◌∷◌,
  ◌++◌, map, has, find_by, keep, length, if◌then◌else◌, ◌==◌, text_or, truthy, truthy_or_none,
  get_or, is_empty, min, max, or_else, starts_exactly, codes,
}
use canvas_standalone.Canvas.{
  Node, Connection, Metadata, Image, Status, error, loading, metadata_of, node_is_loading,
  is_loading,
}

-- `connections.filter((connection) => connection.toNodeId === id)`, and the nodes they come from
unfoldable pub sources : String → List Connection → List String
sources id [] = []
sources id (c ∷ cs) = if c.to_node_id == id then c.from_node_id ∷ sources id cs else sources id cs

pub data Found : Type 0 where
  found : Node → Found
  not_found : Found
  out_of_fuel : Found

abbrev pub is_config : Node → Bool
is_config node = node.type == "config"

-- The loop of `findRetrySourceNode`; the fuel bounds its rounds.
unfoldable pub search_source : ℕ → List Node → List Connection → List String → List String → Found
search_source zero nodes connections queue visited = elim queue [
  | [] ↦ not_found
  | id ∷ rest ↦ out_of_fuel
]
search_source (suc fuel) nodes connections queue visited = elim queue [
  | [] ↦ not_found
  | id ∷ rest ↦ elim (has id visited) [
    | true ↦ search_source fuel nodes connections rest visited
    | false ↦
        let next =
          search_source fuel nodes connections (rest ++ sources id connections) (id ∷ visited) in
        elim (find_by Node.id id nodes) [
          | none ↦ next
          | some node ↦ if is_config node then found node else next
        ]
  ]
]

unfoldable pub find_retry_source : String → List Node → List Connection → Found
unfolding search_source sources
find_retry_source id nodes connections =
    search_source (length connections + length connections) nodes connections
      (sources id connections) []

-- what `sourceNodeReferenceImages` makes of a node
pub record Reference : Type 0 where
  pub id : String
  pub name : String
  pub type : String
  pub data_url : String
  pub storage_key : Option String
  pub url : Option String

-- `Number(count)` of a text: not a number, or the integer part of its absolute value
pub data Numeral : Type 0 where
  not_a_number infinite : Numeral
  whole_part : ℕ → Numeral

-- `getGenerationCount` of what `Number` reads
unfoldable pub generation_count : Numeral → ℕ
generation_count not_a_number = 1
generation_count infinite = 15
generation_count (whole_part n) = max 1 (min 15 n)

pub data InputKind : Type 0 where
  text image video audio : InputKind

pub record Summary : Type 0 where
  pub text_count : ℕ
  pub image_count : ℕ
  pub video_count : ℕ
  pub audio_count : ℕ

abbrev pub same_kind : InputKind → InputKind → Bool
same_kind text text = true
same_kind image image = true
same_kind video video = true
same_kind audio audio = true
same_kind _ _ = false

-- `inputs.filter((input) => input.type === kind).length`
unfoldable pub count_kind : InputKind → List InputKind → ℕ
count_kind k [] = 0
count_kind k (i ∷ is) = if same_kind i k then suc (count_kind k is) else count_kind k is

unfoldable pub input_summary : List InputKind → Summary
unfolding count_kind
input_summary inputs = record {
  text_count = count_kind text inputs;
  image_count = count_kind image inputs;
  video_count = count_kind video inputs;
  audio_count = count_kind audio inputs;
}

-- `referenceUrl` of canvas-node-factory.ts
abbrev pub reference_url : Reference → Option String
reference_url r = or_else (truthy_or_none r.storage_key) (
    or_else (truthy_or_none r.url)
      (if starts_exactly (codes "data:") (codes r.data_url) then none else some r.data_url))

-- `.filter((url): url is string => Boolean(url))`
abbrev pub present : List (Option String) → List String
present [] = []
present (o ∷ os) = elim o [
  | none ↦ present os
  | some s ↦ if is_empty s then present os else s ∷ present os
]

-- a reference video or audio: its storage key and its address
abbrev pub media_url : Option String × Option String → Option String
media_url m = or_else (truthy_or_none m.0) m.1

unfoldable pub generation_reference_urls :
    List Reference
    → List (Option String × Option String)
    → Option (List (Option String × Option String))
    → List String
generation_reference_urls images videos audios =
    present (map reference_url images)
    ++ (present (map media_url videos) ++ present (map media_url (get_or audios [])))

-- `sourceNodeReferenceImages`
unfoldable pub source_node_references : Option Node → List Reference
source_node_references none = []
source_node_references (some node) =
    let m = metadata_of node in
    if not (node.type == "image") || not (truthy m.content)
    then []
    else record {
      id = node.id;
      name = text_append (if is_empty node.title then node.id else node.title) ".png";
      type = get_or (truthy_or_none m.mime_type) "image/png";
      data_url = get_or m.content "";
      storage_key = m.storage_key;
      url = none;
    }
      ∷ []

-- the part of a MIME type that `audioExtension` finds first
unfoldable pub contains : List ℕ → List ℕ → Bool
contains part [] = starts_exactly part []
contains part (c ∷ cs) = starts_exactly part (c ∷ cs) || contains part cs

unfoldable pub audio_extension : Option String → String
unfolding contains
audio_extension none = "mp3"
audio_extension (some mime) =
    let holds = λ (part : String). contains (codes part) (codes mime) in
    if holds "wav"
    then "wav"
    else if holds "opus"
    then "opus"
    else if holds "aac"
    then "aac"
    else if holds "flac"
    then "flac"
    else if holds "pcm"
    then "pcm"
    else "mp3"
