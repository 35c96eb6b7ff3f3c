-- ===== src/Projects/Hydration/Records.antt =====
-- What canvasRecoveryRecords lets through (frontend/src/adapters/use-canvas-store.ts).
use text.Mathlib.TextEquality.{eq_iff}
use text.Mathlib.TextPositions.{eq_refl}
use canvas_standalone.Prelude.{
  ℕ, zero, suc, ◌≤◌, String, Bool, false, ◌||◌, Option, none, some, List, [], ◌∷◌, ◌≡◌, inl, inr,
  refl, subst, has, map, length, All, Distinct, is_empty, truthy_or_none, Bool-cases, arith, ◌==◌,
  some_injective,
}
use canvas_standalone.Json.{Value, Items, nil, cons, Fields, get}
use canvas_standalone.Recovery.{Record, Kind}
use canvas_standalone.Projects.Hydration.{
  canvas_recovery_records, collect_records, read_record, accepted_record, is_refused, is_bad,
  image_too_long, take_items, push_record, object_fields, trimmed, kind_of_value, text_of,
  array_value,
}

-- what the code keeps of an identifier
abbrev IsKept : String → Type 0
IsKept s = is_bad s ≡ false

abbrev IsKeptImage : Option String → Type 0
IsKeptImage none = Unit
IsKeptImage (some s) = is_bad s ≡ false

abbrev pub IsRead : Record → Type 0
IsRead r =
    IsKept r.task_id
    × (IsKept r.source_node_id × (IsKept r.target_node_id × IsKeptImage r.image_id))

kept_image : (o : Option String) → image_too_long o ≡ false → IsKeptImage (truthy_or_none o)
kept_image none h = tt
kept_image (some s) h = elim (Bool-cases (is_empty s)) [
  | inl e ↦ rw e tt
  | inr e ↦ rw e (ground (arith, h, e))
]

pub or_false : (a b : Bool) → a || b ≡ false → (a ≡ false) × (b ≡ false)
or_false a b h = (ground (arith, h), ground (arith, h))

-- what is pushed is kept and was not seen
abbrev Passed : List String → Record → Type 0
Passed seen r = IsRead r × (has r.task_id seen ≡ false)

passed :
    (seen : List String) (kind : Kind) (task source target : String) (im : Option String)
    → is_refused seen task source target im ≡ false
    → Passed seen (record {
      task_id = task;
      kind = kind;
      source_node_id = source;
      target_node_id = target;
      image_id = truthy_or_none im;
    })
passed seen kind task source target im h =
    let (t, h1) = or_false (is_bad task) _ h in
    let (u, h2) = or_false (has task seen) _ h1 in
    let (s, h3) = or_false (is_bad source) _ h2 in
    let (g, i) = or_false (is_bad target) _ h3 in ((t, (s, (g, kept_image im i))), u)

accepted_record-Passed :
    (seen : List String) (k : Option Kind) (task source target : String) (im : Option String)
    {r : Record}
    → accepted_record seen k task source target im ≡ some r
    → Passed seen r
accepted_record-Passed seen none task source target im h = absurd cc
accepted_record-Passed seen (some kind) task source target im {r} h =
    elim (Bool-cases (is_refused seen task source target im)) [
      | inl e ↦ let none_pushed = rw e at h in absurd cc
      | inr e ↦
          let same = some_injective (rw e at h) in
          subst (λ x. Passed seen x) same (passed seen kind task source target im e)
    ]

-- the records that may follow where some tasks have been seen
abbrev AreRead : List String → ℕ → List Record → Type 0
AreRead seen most rs =
    All IsRead rs
    × (All (λ r. has r.task_id seen ≡ false) rs
        × (Distinct (map Record.task_id rs) × (length rs ≤ most)))

has-false : (s t : String) (ts : List String) → has s (t ∷ ts) ≡ false → has s ts ≡ false
has-false s t ts h = (or_false (t == s) (has s ts) h).1

pub apart : (s t : String) → (t == s) ≡ false → (s == t) ≡ false
apart s t h = elim (Bool-cases (s == t)) [
  | inr e ↦ e
  | inl e ↦ let same = (eq_iff s t).0 e in let again = eq_refl t in absurd cc
]

All-unseen :
    (t : String) (ts : List String) (rs : List Record)
    → All (λ r. has r.task_id (t ∷ ts) ≡ false) rs
    → All (λ r. has r.task_id ts ≡ false) rs
All-unseen t ts [] h = tt
All-unseen t ts (r ∷ rs) h = (has-false r.task_id t ts h.0, All-unseen t ts rs h.1)

has-unseen :
    (t : String) (ts : List String) (rs : List Record)
    → All (λ r. has r.task_id (t ∷ ts) ≡ false) rs
    → has t (map Record.task_id rs) ≡ false
has-unseen t ts [] h = refl
has-unseen t ts (r ∷ rs) h =
    rw (apart r.task_id t (or_false (t == r.task_id) _ h.0).0) (has-unseen t ts rs h.1)

push_record-AreRead :
    (rest : List String → List Record) (seen : List String) (most : ℕ) (o : Option Record)
    → ((r : Record) → o ≡ some r → Passed seen r)
    → ((ts : List String) → AreRead ts most (rest ts))
    → AreRead seen (suc most) (push_record rest seen o)
push_record-AreRead rest seen most none h ih =
    let (a, (b, (c, d))) = ih seen in (a, (b, (c, omega (arith, d))))
push_record-AreRead rest seen most (some r) h ih =
    let (read, new) = h r refl in
    let (a, (b, (c, d))) = ih (r.task_id ∷ seen) in
    (
      (read, a),
      (
        (new, All-unseen r.task_id seen (rest (r.task_id ∷ seen)) b),
        ((has-unseen r.task_id seen (rest (r.task_id ∷ seen)) b, c), omega (arith, d)),
      ),
    )

read_record-Passed :
    (seen : List String) (source : Fields) (r : Record)
    → read_record seen source ≡ some r
    → Passed seen r
unfolding read_record
read_record-Passed seen source r h =
    accepted_record-Passed seen (kind_of_value (get "kind" source))
      (text_of (trimmed (get "taskID" source))) (text_of (trimmed (get "sourceNodeID" source)))
      (text_of (trimmed (get "targetNodeID" source))) (trimmed (get "imageID" source)) h

collect_records-AreRead :
    (n : ℕ) (xs : Items) (seen : List String)
    → AreRead seen n (collect_records (take_items n xs) seen)
unfolding collect_records
collect_records-AreRead zero xs seen = (tt, (tt, (tt, omega arith)))
collect_records-AreRead (suc n) nil seen = (tt, (tt, (tt, omega arith)))
collect_records-AreRead (suc n) (cons v vs) seen =
    push_record-AreRead (λ s. collect_records (take_items n vs) s) seen n
      (read_record seen (object_fields v)) (read_record-Passed seen (object_fields v))
      (λ s. collect_records-AreRead n vs s)

-- Whatever a document holds, at most a hundred records are read from it; no two of them are of one
-- task, and none of their identifiers is empty or longer than 128 units.
pub canvas_recovery_records-IsRead :
    (value : Value)
    → All IsRead (canvas_recovery_records value)
      × (Distinct (map Record.task_id (canvas_recovery_records value))
          × (length (canvas_recovery_records value) ≤ 100))
unfolding canvas_recovery_records
canvas_recovery_records-IsRead value =
    let (a, (b, c)) = collect_records-AreRead 100 (array_value value) [] in (a, c)
