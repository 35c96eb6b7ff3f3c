-- ===== src/Projects/Hydration/Written.antt =====
-- The records of recoveries that are written into a document and read again
-- (frontend/src/adapters/use-canvas-store.ts).
use canvas_standalone.Prelude.{
  ℕ, zero, suc, ◌≤◌, String, false, Option, none, some, List, [], ◌∷◌, ◌≡◌, refl, ap, ◌∙◌, has, map,
  length, All, Distinct, is_empty, trim, arith, ◌==◌,
}
use canvas_standalone.Json.{Value, obj, Fields, get, arr, to_items}
use canvas_standalone.Recovery.{Record, Kind, image, video, audio, kind_name}
use canvas_standalone.AssetRuntime.{Aliases}
use canvas_standalone.Projects.{Project}
use canvas_standalone.Projects.Document.Kept.{IsLastingRecord, project_document-recoveries}
use canvas_standalone.Projects.Document.{project_document, record_value}
use canvas_standalone.Projects.Hydration.{
  document_recoveries, canvas_recovery_records, collect_records, read_record, is_refused, is_bad,
  image_too_long, too_long, take_items, push_record, object_fields, trimmed, kind_of_text,
}
use canvas_standalone.Projects.Hydration.Records.{or_false, apart}

-- an image that is missing, or named by a trimmed text that is neither empty nor too long
abbrev IsSoundImage : Option String → Type 0
IsSoundImage none = Unit
IsSoundImage (some s) = (is_bad s ≡ false) × (trim s ≡ s)

abbrev IsSoundId : String → Type 0
IsSoundId s = (is_bad s ≡ false) × (trim s ≡ s)

abbrev pub IsSound : Record → Type 0
IsSound r =
    IsSoundId r.task_id
    × (IsSoundId r.source_node_id × (IsSoundId r.target_node_id × IsSoundImage r.image_id))

kind_of_text-kind_name : (k : Kind) → kind_of_text (kind_name k) ≡ some k
kind_of_text-kind_name image = refl
kind_of_text-kind_name video = refl
kind_of_text-kind_name audio = refl

not_refused :
    (seen : List String) (task source target : String) (im : Option String)
    → has task seen ≡ false
    → is_bad task ≡ false
    → is_bad source ≡ false
    → is_bad target ≡ false
    → image_too_long im ≡ false
    → is_refused seen task source target im ≡ false
not_refused seen task source target im h t s g i = rw t (rw h (rw s (rw g i)))

read_record_sound :
    (seen : List String) (kind : Kind) (task source target : String) (im : Option String)
    → has task seen ≡ false
    → IsSoundId task
    → IsSoundId source
    → IsSoundId target
    → IsSoundImage im
    → read_record seen (
        object_fields (
          record_value (record {
            task_id = task;
            kind = kind;
            source_node_id = source;
            target_node_id = target;
            image_id = im;
          })))
      ≡ some (record {
        task_id = task;
        kind = kind;
        source_node_id = source;
        target_node_id = target;
        image_id = im;
      })
unfolding read_record trimmed
read_record_sound seen kind task source target none h t s g i =
    rw (kind_of_text-kind_name kind, t.1, s.1, g.1)
      (rw (not_refused seen task source target none h t.0 s.0 g.0 refl) refl)
read_record_sound seen kind task source target (some im) h t s g i =
    let (full, short) = or_false (is_empty im) (too_long im) i.0 in
    rw (kind_of_text-kind_name kind, t.1, s.1, g.1, i.1)
      (rw (not_refused seen task source target (some im) h t.0 s.0 g.0 (rw full short))
        (rw full refl))

All-seen :
    (t : String) (ts : List String) (rs : List Record)
    → has t (map Record.task_id rs) ≡ false
    → All (λ r. has r.task_id ts ≡ false) rs
    → All (λ r. has r.task_id (t ∷ ts) ≡ false) rs
All-seen t ts [] h k = tt
All-seen t ts (r ∷ rs) h k =
    let (first, rest) = or_false (r.task_id == t) (has t (map Record.task_id rs)) h in
    (rw (apart t r.task_id first) k.0, All-seen t ts rs rest k.1)

collect_records_sound :
    (n : ℕ) (rs : List Record) (seen : List String)
    → length rs ≤ n
    → All IsSound rs
    → Distinct (map Record.task_id rs)
    → All (λ r. has r.task_id seen ≡ false) rs
    → collect_records (take_items n (to_items record_value rs)) seen ≡ rs
unfolding collect_records
collect_records_sound zero [] seen h s d u = refl
collect_records_sound (suc n) [] seen h s d u = refl
collect_records_sound zero (r ∷ rs) seen h s d u = absurd (omega (arith, h))
collect_records_sound (suc n) (r ∷ rs) seen h s d u =
    let (task, (source, (target, im))) = s.0 in
    let read =
      read_record_sound seen r.kind r.task_id r.source_node_id r.target_node_id r.image_id u.0 task
        source target im in
    let rest =
      collect_records_sound n rs (r.task_id ∷ seen) (omega (arith, h)) s.1 d.1
        (All-seen r.task_id seen rs d.0 u.1) in
    ap (push_record (λ ts. collect_records (take_items n (to_items record_value rs)) ts) seen) read
    ∙ ap (λ xs. r ∷ xs) rest

All-no_task : (rs : List Record) → All (λ r. has r.task_id [] ≡ false) rs
All-no_task [] = tt
All-no_task (r ∷ rs) = (refl, All-no_task rs)

read-written :
    (rs : List Record)
    → length rs ≤ 100
    → All IsSound rs
    → Distinct (map Record.task_id rs)
    → canvas_recovery_records (arr (to_items record_value rs)) ≡ rs
unfolding canvas_recovery_records
read-written rs h s d = collect_records_sound 100 rs [] h s d (All-no_task rs)

read-document :
    (document : Value) (fs : Fields) (value : Value)
    → document ≡ obj fs
    → get "recoveries" fs ≡ some value
    → document_recoveries document ≡ canvas_recovery_records value
unfolding document_recoveries
read-document document fs value h k = rw h (rw k refl)

-- At most a hundred recoveries of different tasks, whose identifiers are trimmed, not empty, at most
-- 128 units long and do not begin as an address of the page does, are read from the document that is
-- sent for a project exactly as the project has them.
pub document_recoveries-project_document :
    (aliases : Aliases) (p : Project)
    → length p.recoveries ≤ 100
    → All IsSound p.recoveries
    → All IsLastingRecord p.recoveries
    → Distinct (map Record.task_id p.recoveries)
    → document_recoveries (project_document aliases p) ≡ p.recoveries
document_recoveries-project_document aliases p h s l d =
    let (fs, whole, recoveries) = project_document-recoveries aliases p l in
    read-document (project_document aliases p) fs (arr (to_items record_value p.recoveries)) whole
      recoveries
    ∙ read-written p.recoveries h s d
