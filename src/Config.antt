-- ===== src/Config.antt =====
-- frontend/src/adapters/use-config-store.ts: the texts that name a model of a channel, the channels
-- and the configuration. The text fields of AiConfig are a function of their names.
pub mod Encoding
pub mod Server
pub mod Preferences
pub mod Store
pub mod Picks
pub mod History
pub mod Loading
pub mod Secrets
use Prim.Native.String.{◌++◌ as text_append}
use Prim.Native.Char.{Char, code}
use canvas_standalone.Prelude.{
  ℕ, zero, suc, ◌/◌, ◌%◌, String, Bool, true, false, not, ◌&&◌, ◌||◌, Option, none, some, List, [],
  ◌∷◌, ◌++◌, map, any, find, find_by, has, is_empty, is_some, get_or, if◌then◌else◌, ◌==◌, ltb,
  nat_eq, trim, text_or, put,
}

pub data Capability : Type 0 where
  image video text audio : Capability

pub record ChannelModel : Type 0 where
  pub name : String
  pub capability : Capability

pub record Channel : Type 0 where
  pub id : String
  pub name : String
  pub base_url : String
  pub api_key : String
  pub api_format : String
  pub models : List ChannelModel

pub record AiConfig : Type 0 where
  pub texts : String → String
  pub channels : List Channel
  pub models : List String

abbrev pub same_capability : Capability → Capability → Bool
same_capability image image = true
same_capability video video = true
same_capability text text = true
same_capability audio audio = true
same_capability _ _ = false

-- the text of a natural number, `${n}`; the fuel bounds the digits
abbrev pub nth_digit : List String → ℕ → String
nth_digit [] n = "9"
nth_digit (d ∷ ds) zero = d
nth_digit (d ∷ ds) (suc n) = nth_digit ds n

abbrev pub digits : List String
digits = "0" ∷ "1" ∷ "2" ∷ "3" ∷ "4" ∷ "5" ∷ "6" ∷ "7" ∷ "8" ∷ []

abbrev pub digit : ℕ → String
digit n = nth_digit digits n

unfoldable pub show_from : ℕ → ℕ → String
show_from zero n = digit n
show_from (suc fuel) n =
    let rest = show_from fuel (n / 10) in
    if ltb n 10 then digit n else text_append rest (digit (n % 10))

unfoldable pub show : ℕ → String
unfolding show_from
show n = show_from n n

-- `sub2api-${apiKeyID}`
unfoldable pub channel_id : ℕ → String
unfolding show
channel_id key = text_append "sub2api-" (show key)

-- `${channelId}::${model.trim()}`
unfoldable pub encode : String → String → String
unfolding trim
encode channel model = text_append channel (text_append "::" (trim model))

abbrev pub is_colon : Char → Bool
is_colon c = nat_eq (code c) 58

abbrev pub starts_colon : String → Bool
starts_colon String.[] = false
starts_colon (String.◌∷◌ c s) = is_colon c

abbrev pub text_tail : String → String
text_tail String.[] = String.[]
text_tail (String.◌∷◌ c s) = s

abbrev pub push_char : Char → Option (String × String) → Option (String × String)
push_char c none = none
push_char c (some (before, after)) = some (String.◌∷◌ c before, after)

-- `decodeChannelModel`: the texts before and after the first "::"
unfoldable pub decode : String → Option (String × String)
decode String.[] = none
decode (String.◌∷◌ c s) =
    if is_colon c && starts_colon s then some ("", text_tail s) else push_char c (decode s)

-- `decoded?.model || value`
abbrev pub name_in : Option (String × String) → String → String
name_in none value = value
name_in (some d) value = if is_empty d.1 then value else d.1

unfoldable pub model_option_name : String → String
unfolding decode
model_option_name value = name_in (decode value) value

abbrev pub channel_key : Channel → String
channel_key c = c.id

abbrev pub model_key : ChannelModel → String
model_key m = m.name

abbrev pub offers : String → Channel → Bool
offers name c = any (λ (m : ChannelModel). m.name == name) c.models

-- the channel that `decoded` names, or else the first that has a model of the name
abbrev pub channel_for : List Channel → Option (String × String) → String → Option Channel
channel_for channels none name = find (offers name) channels
channel_for channels (some d) name = find_by channel_key d.0 channels

-- `findChannelModel`
unfoldable pub find_channel_model : List Channel → String → Option (Channel × ChannelModel)
unfolding decode
find_channel_model channels value =
    let name = name_in (decode value) value in
    elim (channel_for channels (decode value) name) [
      | none ↦ none
      | some c ↦ elim (find_by model_key name c.models) [ none ↦ none | some m ↦ some (c, m) ]
    ]

unfoldable pub model_capability_of : List Channel → String → Option Capability
unfolding find_channel_model
model_capability_of channels value = elim (find_channel_model channels value) [
  | none ↦ none
  | some found ↦ some found.1.capability
]

abbrev pub is_capability : Option Capability → Capability → Bool
is_capability none c = false
is_capability (some d) c = same_capability d c

unfoldable pub model_matches_capability : List Channel → String → Option Capability → Bool
unfolding model_capability_of
model_matches_capability channels value none = true
model_matches_capability channels value (some c) =
    is_capability (model_capability_of channels value) c

-- the name of the field with the default model of a capability
abbrev pub model_field : Capability → String
model_field image = "imageModel"
model_field video = "videoModel"
model_field audio = "audioModel"
model_field text = "textModel"

-- the fallback models of `defaultConfig` are empty
unfoldable pub resolve_model_for_capability : AiConfig → Option String → Capability → String
unfolding model_matches_capability
resolve_model_for_capability config current c =
    let default_model = config.texts (model_field c) in
    let fits = λ (value : String).
      not (is_empty value) && model_matches_capability config.channels value (some c) in
    if fits (get_or current "")
    then get_or current ""
    else if fits default_model
    then default_model
    else ""

-- the models of a channel that have a capability, as their texts
unfoldable pub options_of : Channel → Capability → List ChannelModel → List String
unfolding encode
options_of channel c [] = []
options_of channel c (m ∷ ms) =
    if same_capability m.capability c
    then encode channel.id m.name ∷ options_of channel c ms
    else options_of channel c ms

unfoldable pub selectable_models : List Channel → Capability → List String
unfolding options_of
selectable_models [] c = []
selectable_models (channel ∷ rest) c =
    options_of channel c channel.models ++ selectable_models rest c

-- `uniqueModelOptions`: the trimmed texts that are not empty, each at its first place
unfoldable pub unique_options : List String → List String → List String
unfolding trim
unique_options seen [] = []
unique_options seen (value ∷ rest) =
    let v = trim value in
    let more = unique_options (v ∷ seen) rest in
    let same = unique_options seen rest in if is_empty v || has v seen then same else v ∷ more

abbrev pub all_options : Channel → List ChannelModel → List String
all_options channel [] = []
all_options channel (m ∷ ms) = encode channel.id m.name ∷ all_options channel ms

abbrev pub options_of_all : List Channel → List String
options_of_all [] = []
options_of_all (c ∷ cs) = all_options c c.models ++ options_of_all cs

unfoldable pub model_options_from_channels : List Channel → List String
unfolding unique_options encode
model_options_from_channels channels = unique_options [] (options_of_all channels)

-- `normalizeModelOptionValue`; where no channel offers the model, neither does `channels[0]`
unfoldable pub normalize_option : String → List Channel → String
unfolding trim decode encode
normalize_option value channels =
    let model = trim value in
    if is_empty model then "" else elim (decode model) [
      | some d ↦ elim (find_by channel_key d.0 channels) [
        | none ↦ ""
        | some c ↦ if offers d.1 c then model else ""
      ]
      | none ↦ elim (find (offers model) channels) [ some c ↦ encode c.id model | none ↦ model ]
    ]
