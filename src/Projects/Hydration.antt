-- ===== src/Projects/Hydration.antt =====
-- What is read of a stored document in frontend/src/adapters/use-canvas-store.ts: the records of its
-- recoveries, its viewport and its background. A number in a document is finite.
pub mod Records
pub mod Written
use canvas_standalone.Prelude.{
  ℕ, zero, suc, String, Bool, true, false, ◌||◌, Option, none, some, List, [], ◌∷◌, has,
  if◌then◌else◌, is_empty, ltb, trim, utf16_length, truthy_or_none, ◌==◌,
}
use canvas_standalone.Json.{
  Value, null, bool, num, str, arr, obj, Items, nil, cons, Fields, no_field, field, Number, nat,
  get,
}
use canvas_standalone.Recovery.{Record, Kind, image, video, audio}
use canvas_standalone.Projects.{BackgroundMode, lines, dots, blank, Viewport}

-- `objectValue`
abbrev pub object_fields : Value → Fields
object_fields (obj fs) = fs
object_fields _ = no_field

abbrev pub item_fields : Option Value → Fields
item_fields none = no_field
item_fields (some v) = object_fields v

-- `arrayValue`, and `Array.isArray` where it is tested
abbrev pub array_value : Value → Items
array_value (arr xs) = xs
array_value _ = nil

-- `numberValue`
abbrev pub finite_number : Option Value → Number → Number
finite_number (some (num n)) fallback = n
finite_number _ fallback = fallback

unfoldable pub read_viewport : Option Value → Viewport
read_viewport value =
    let viewport = item_fields value in
    record {
      x = finite_number (get "x" viewport) (nat 0);
      y = finite_number (get "y" viewport) (nat 0);
      k = finite_number (get "k" viewport) (nat 1);
    }

abbrev pub background_of : String → BackgroundMode
background_of s = if s == "dots" then dots else if s == "blank" then blank else lines

unfoldable pub canvas_background_mode : Option Value → BackgroundMode
canvas_background_mode (some (str s)) = background_of s
canvas_background_mode _ = lines

-- `typeof v === 'string' ? v.trim() : undefined`
unfoldable pub trimmed : Option Value → Option String
trimmed (some (str s)) = some (trim s)
trimmed _ = none

-- `typeof v === 'string' ? v.trim() : ''`
abbrev pub text_of : Option String → String
text_of none = ""
text_of (some s) = s

abbrev pub kind_of_text : String → Option Kind
kind_of_text s =
    if s == "image"
    then some image
    else if s == "video"
    then some video
    else if s == "audio"
    then some audio
    else none

abbrev pub kind_of_value : Option Value → Option Kind
kind_of_value (some (str s)) = kind_of_text s
kind_of_value _ = none

-- `value.length > 128`
unfoldable pub too_long : String → Bool
too_long s = ltb 128 (utf16_length s)

abbrev pub is_bad : String → Bool
is_bad s = is_empty s || too_long s

abbrev pub image_too_long : Option String → Bool
image_too_long none = false
image_too_long (some s) = if is_empty s then false else too_long s

-- the conditions before `continue`
abbrev pub is_refused : List String → String → String → String → Option String → Bool
is_refused seen task source target image_id =
    is_bad task || (has task seen || (is_bad source || (is_bad target || image_too_long image_id)))

abbrev pub accepted_record :
    List String → Option Kind → String → String → String → Option String → Option Record
accepted_record seen none task source target image_id = none
accepted_record seen (some kind) task source target image_id =
    if is_refused seen task source target image_id
    then none
    else some (record {
      task_id = task;
      kind = kind;
      source_node_id = source;
      target_node_id = target;
      image_id = truthy_or_none image_id;
    })

unfoldable pub read_record : List String → Fields → Option Record
unfolding trimmed too_long
read_record seen source =
    accepted_record seen (kind_of_value (get "kind" source))
      (text_of (trimmed (get "taskID" source))) (text_of (trimmed (get "sourceNodeID" source)))
      (text_of (trimmed (get "targetNodeID" source))) (trimmed (get "imageID" source))

-- `value.slice(0, n)`
abbrev pub take_items : ℕ → Items → Items
take_items zero xs = nil
take_items (suc n) nil = nil
take_items (suc n) (cons v vs) = cons v (take_items n vs)

abbrev pub push_record : (List String → List Record) → List String → Option Record → List Record
push_record rest seen none = rest seen
push_record rest seen (some r) = r ∷ rest (r.task_id ∷ seen)

unfoldable pub collect_records : Items → List String → List Record
unfolding read_record
collect_records nil seen = []
collect_records (cons v vs) seen =
    push_record (λ s. collect_records vs s) seen (read_record seen (object_fields v))

unfoldable pub canvas_recovery_records : Value → List Record
unfolding collect_records
canvas_recovery_records value = collect_records (take_items 100 (array_value value)) []

-- `canvasRecoveryRecords(document.recoveries)`
abbrev pub records_field : Option Value → List Record
records_field none = []
records_field (some value) = canvas_recovery_records value

unfoldable pub document_recoveries : Value → List Record
unfolding canvas_recovery_records
document_recoveries document = records_field (get "recoveries" (object_fields document))
