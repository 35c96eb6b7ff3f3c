-- ===== src/Projects/World/Cases.antt =====
-- The branches of the operations, for proofs that treat them alike: a property of the state holds
-- after the operation if it holds after each of its branches.
use canvas_standalone.Prelude.{
  ℕ, String, Bool, true, false, Option, none, some, List, [], ◌∷◌, put, ◌==◌, if◌then◌else◌, ◌≡◌,
  refl, Option-cases, inl, inr, any, trim,
}
use canvas_standalone.Recovery.{Binding, MediaTask, Kind, Record}
use canvas_standalone.Projects.{Project}
use canvas_standalone.Projects.State.{
  State, edit, project_of, on_object, update_project, remove_draft, schedule_save,
}
use canvas_standalone.Projects.Creation.{Creation, Created, created, merge_created}
use canvas_standalone.Projects.Commands.{rename_project, set_title}
use canvas_standalone.Projects.Recoveries.{
  register_recovery, cleanup_fired, add_binding, first_binding, bindings_without, drop_recovery,
}

if_cases {ℓ κ} :
    {A : Type κ} (P : A → Type ℓ) (b : Bool) {x y : A} → P x → P y → P (if b then x else y)
if_cases P true p q = p
if_cases P false p q = q

pub rename_project_cases {ℓ} :
    (P : State → Type ℓ) (id title now : String) (at : ℕ) (s : State)
    → P s
    → P (edit id (set_title (trim title) now) false at s)
    → P (rename_project id title now at s)
unfolding rename_project
rename_project_cases P id title now at s p q = if_cases P _ p q

pub created_cases {ℓ} :
    (P : State → Type ℓ) (c : Creation) (v : Created) (at : ℕ) (s : State)
    → P (on_object c.object (λ y. record y { version = v.version; blocked = false }) s)
    → P (
        remove_draft c.id (
          update_project c.id
            (merge_created v)
            (on_object c.object (λ y. record y { version = v.version; blocked = false }) s)))
    → P (
        schedule_save c.id true at (
          update_project c.id
            (merge_created v)
            (on_object c.object (λ y. record y { version = v.version; blocked = false }) s)))
    → P (created c v at s).0
unfolding created
created_cases P c v at s p q r =
    if_cases (λ (x : State × Bool). P x.0) _ p (if_cases (λ (x : State × Bool). P x.0) _ q r)

pub register_recovery_cases {ℓ} :
    (P : State → Type ℓ) (task : MediaTask) (kind : Kind) (at : ℕ) (s : State)
    → P s
    → ((id : String) (b : Binding) → P (add_binding id b at s))
    → P (register_recovery task kind at s)
unfolding register_recovery
register_recovery_cases P task kind at s p q = by_active s.active_project refl
  where
    by_binding :
        (id : String) (bs : List Binding)
        → P (elim bs as (λ _. State) [ [] ↦ s | b ∷ _ ↦ add_binding id b at s ])
    by_binding id [] = p
    by_binding id (b ∷ bs) = q id b

    by_project :
        (id : String) (o : Option Project)
        → P (elim o as (λ _. State) [
          | none ↦ s
          | some x ↦
              if any (λ (r : Record). r.task_id == task.snapshot.id) x.recoveries
              then s
              else elim (first_binding x task kind) as (λ _. State) [
                | [] ↦ s
                | b ∷ _ ↦ add_binding id b at s
              ]
        ])
    by_project id none = p
    by_project id (some x) = if_cases P _ p (by_binding id (first_binding x task kind))

    by_active : (o : Option String) → s.active_project ≡ o → P (register_recovery task kind at s)
    by_active none e = rw (e, register_recovery) p
    by_active (some id) e =
        rw (e, register_recovery) (if_cases P _ p (by_project id (project_of id s)))

pub cleanup_fired_cases {ℓ} :
    (P : State → Type ℓ) (id task : String) (at : ℕ) (s : State)
    → ((ks : List (String × String)) → P (record s { cleanups = ks }))
    → ((ks : List (String × String))
        → P (
            edit id (drop_recovery task) true at (record s {
              cleanups = ks;
              recoveries = put s.recoveries id (bindings_without task (s.recoveries id));
            })))
    → P (cleanup_fired id task at s)
unfolding cleanup_fired
cleanup_fired_cases P id task at s p q = elim (Option-cases (project_of id s)) [
  | inl e ↦ rw (e, cleanup_fired) (p _)
  | inr (x, e) ↦ rw (e, cleanup_fired) (if_cases P _ (q _) (p _))
]
