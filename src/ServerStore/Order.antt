-- ===== src/ServerStore/Order.antt =====
-- The list of the projects and the projects by their identifiers, of
-- frontend/src/stores/server-canvas-store.ts.
use canvas_standalone.Prelude.{
  String, Bool, false, not, Option, none, some, List, [], ◌∷◌, ◌≡◌, refl, arith, has, keep, map,
  is_some, ◌==◌, eq_iff, if◌then◌else◌, Bool-cases, Option-split, inl, inr, ◌||◌,
}
use canvas_standalone.ServerStore.{
  State, Project, Draft, Document, Flight, Failure, Answer, over, clears, keeps, SaveState, put,
  persist, timer_fired, answered, draft_removed, draft_kept, persist_failed, hydrated, created,
  opened, update_document, mutate_document, rename_project, renamed, begin_delete, delete_failed,
  deleted, reloaded, add_project, project_key, newer_draft, is_conflict, conflict, error, saving,
  saved, idle, next_name,
}

pub data Action : Type 0 where
  hydrates : List Project → (String → Option Draft) → Action
  creates : Project → Action
  opens : String → Project → Action
  updates : String → Document → Action
  mutates : String → (Document → Document) → Action
  renames : String → String → Action
  goes_on : String → Action
  fires : String → Action
  answers : Flight → Project → Action
  removes_draft : Flight → Project → Action
  keeps_draft : Flight → Action
  fails : Flight → Failure → Action
  begins_delete : String → Action
  delete_fails : String → Action
  deletes : String → Action
  reloads : Project → Action

abbrev pub after_answer : Answer → State
after_answer (over s) = s
after_answer (clears s) = s
after_answer (keeps d s) = s

unfoldable pub act : Action → State → State
act (hydrates ps drafts) s = hydrated ps drafts s
act (creates p) s = created p s
act (opens id p) s = opened id p s
act (updates id d) s = update_document id d s
act (mutates id f) s = mutate_document id f s
act (renames id name) s = (rename_project id name s).0
act (goes_on id) s = (renamed id s).0
act (fires id) s = (timer_fired id s).0
act (answers f p) s = after_answer (answered f p s)
act (removes_draft f p) s = draft_removed f p s
act (keeps_draft f) s = draft_kept f s
act (fails f e) s = persist_failed f e s
act (begins_delete id) s = begin_delete id s
act (delete_fails id) s = delete_failed id s
act (deletes id) s = deleted id s
act (reloads p) s = reloaded p s

pub data Reach (s : State) : State → Type 0 where
  here : Reach s s
  next : {t : State} (a : Action) → Reach s t → Reach s (act a t)

has-keep :
    (k id : String) (xs : List String)
    → has k (keep (λ j. not (j == id)) xs) ≡ (if id == k then false else has k xs)
has-keep k id [] = ground arith
has-keep k id (x ∷ xs) = ground (arith, eq_iff x id, eq_iff x k, eq_iff id k, has-keep k id xs)

has-map :
    (drafts : String → Option Draft) (ps : List Project) (k : String)
    → has k (map project_key ps) ≡ is_some (add_project drafts ps k)
has-map drafts [] k = refl
has-map drafts (p ∷ ps) k = ground (arith, has-map drafts ps k)

-- What the list and the map say of one identifier.
abbrev pub Agrees : String → State → Type 0
Agrees k s = has k s.order ≡ is_some (s.projects k)

put-Agrees :
    (p : Project) (state : SaveState) (draft : Option Document) (s : State) (k : String)
    → Agrees k s
    → Agrees k (put p state draft s)
put-Agrees p state draft s k h = ground (arith, eq_iff p.id k)

persist-Agrees : (id : String) (s : State) (k : String) → Agrees k s → Agrees k (persist id s).0
unfolding persist
persist-Agrees id s k h = elim (Bool-cases (s.persisting id || s.retired id)) [
  | inl e ↦ rw e h
  | inr e ↦ rw e (
      Option-split (λ (x : State × Option Flight). Agrees k x.0) _ _ (s.projects id) (λ _. h)
        (λ p _.
          Option-split (λ (x : State × Option Flight). Agrees k x.0) _ _ p.local_draft (λ _. h)
            (λ d _. put-Agrees p.project saving (some d) s k h)))
]

answered-Agrees :
    (f : Flight) (p : Project) (s : State) (k : String)
    → Agrees k s
    → Agrees k (after_answer (answered f p s))
unfolding answered
answered-Agrees f p s k h = elim (Bool-cases (s.retired f.id)) [
  | inl e ↦ rw e h
  | inr e ↦ rw e (
      Option-split (λ x. Agrees k (after_answer x)) _ _ (newer_draft f (s.projects f.id)) (λ _. h)
        (λ l _. put-Agrees _ saving (some l.1) s k h))
]

persist_failed-Agrees :
    (f : Flight) (e : Failure) (s : State) (k : String)
    → Agrees k s
    → Agrees k (persist_failed f e s)
unfolding persist_failed
persist_failed-Agrees f e s k h = elim (Bool-cases (s.retired f.id)) [
  | inl q ↦ rw q h
  | inr q ↦ rw q (
      Option-split (Agrees k) _ _ (s.projects f.id) (λ _. h)
        (λ l _.
          put-Agrees l.project (if is_conflict e then conflict else error) l.local_draft s k h))
]

update_document-Agrees :
    (id : String) (d : Document) (s : State) (k : String)
    → Agrees k s
    → Agrees k (update_document id d s)
unfolding update_document
update_document-Agrees id d s k h =
    Option-split (Agrees k) _ _ (s.projects id) (λ _. h)
      (λ e _. put-Agrees (record (e.project) { document = d }) saving (some d) s k h)

rename_project-Agrees :
    (id name : String) (s : State) (k : String) → Agrees k s → Agrees k (rename_project id name s).0
unfolding rename_project
rename_project-Agrees id name s k h =
    Option-split (λ (x : State × Bool). Agrees k x.0) _ _ (s.projects id) (λ _. h)
      (λ e _. elim (Bool-cases (next_name name e == e.name)) [
        | inl q ↦ rw q h
        | inr q ↦ rw q (put-Agrees _ saving _ s k h)
      ])

deleted-Agrees : (id : String) (s : State) (k : String) → Agrees k s → Agrees k (deleted id s)
unfolding deleted
deleted-Agrees id s k h = ground (arith, has-keep k id s.order)

delete_failed-Agrees :
    (id : String) (s : State) (k : String) → Agrees k s → Agrees k (delete_failed id s)
unfolding delete_failed
delete_failed-Agrees id s k h = ground arith

act-Agrees : (a : Action) (s : State) (k : String) → Agrees k s → Agrees k (act a s)
unfolding act hydrated created opened mutate_document renamed timer_fired draft_removed draft_kept
    begin_delete reloaded
act-Agrees (hydrates ps drafts) s k h = has-map drafts ps k
act-Agrees (creates p) s k h = put-Agrees p saved none s k h
act-Agrees (opens id p) s k h = put-Agrees p _ _ s k h
act-Agrees (updates id d) s k h = update_document-Agrees id d s k h
act-Agrees (mutates id f) s k h =
    Option-split (Agrees k) _ _ (s.projects id) (λ _. h) (λ e _. update_document-Agrees id _ s k h)
act-Agrees (renames id name) s k h = rename_project-Agrees id name s k h
act-Agrees (goes_on id) s k h = persist-Agrees id _ k h
act-Agrees (fires id) s k h = persist-Agrees id _ k h
act-Agrees (answers f p) s k h = answered-Agrees f p s k h
act-Agrees (removes_draft f p) s k h = put-Agrees p saved none s k h
act-Agrees (keeps_draft f) s k h = h
act-Agrees (fails f e) s k h = persist_failed-Agrees f e s k h
act-Agrees (begins_delete id) s k h = h
act-Agrees (delete_fails id) s k h = delete_failed-Agrees id s k h
act-Agrees (deletes id) s k h = deleted-Agrees id s k h
act-Agrees (reloads p) s k h = put-Agrees p idle none s k h

-- Whatever the store does, and whatever answers come: if the list and the projects agree at a key at
-- the start, the key is in the list exactly where the store has a project for it.
pub has-Reach :
    {s t : State} (k : String)
    → Reach s t
    → has k s.order ≡ is_some (s.projects k)
    → has k t.order ≡ is_some (t.projects k)
has-Reach k here h = h
has-Reach k (next {t} a r) h = act-Agrees a t k (has-Reach k r h)
