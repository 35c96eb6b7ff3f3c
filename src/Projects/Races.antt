-- ===== src/Projects/Races.antt =====
-- Orders of events around a save of frontend/src/adapters/use-canvas-store.ts.
use canvas_standalone.Prelude.{
  ℕ, ◌+◌, String, Bool, true, false, none, some, if◌then◌else◌, nat_eq, ◌≡◌, ◌<◌, arith, eq_refl,
  List, [], ◌∷◌, Option, All, keep, has, Bool-cases, Option-cases, inl, inr, refl, sym, ap, ◌∙◌,
  subst, eq_iff, ◌==◌,
}
use canvas_standalone.Projects.{Project, saved, unset}
use canvas_standalone.Projects.State.{State, Failure, edit, bump, schedule_save, schedule}
use canvas_standalone.Projects.Saving.{Flight, clearing, Updated, finally, accepted, draft_removed}
use canvas_standalone.Projects.Commands.{flush_project, reload_answered}
use canvas_standalone.Projects.Deletion.{
  Deletion, delete_projects, deletion_failed, forget, forget_all, deletions,
}
use canvas_standalone.Projects.World.Advance.{sequence_of}

-- What an edit leaves of its project's sync object.
edit_object :
    (id : String) (f : Project → Project) (immediate : Bool) (at : ℕ) (s : State) (r k : ℕ)
    → s.syncs id ≡ some r
    → sequence_of (edit id f immediate at s) k
      ≡ (if nat_eq r k then sequence_of s r + 1 else sequence_of s k)
unfolding edit bump schedule_save schedule
edit_object id f immediate at s r k e = ground arith

edit_flags :
    (id : String) (f : Project → Project) (immediate : Bool) (at : ℕ) (s : State) (k : ℕ)
    → (((edit id f immediate at s).objects k).saving ≡ (s.objects k).saving)
      × (((edit id f immediate at s).objects k).blocked ≡ (s.objects k).blocked)
      × (((edit id f immediate at s).objects k).retry_after_save ≡ (s.objects k).retry_after_save)
      × ((edit id f immediate at s).syncs ≡ s.syncs)
unfolding edit bump schedule_save schedule
edit_flags id f immediate at s k = ground arith

accepted_same :
    (f : Flight) (sequence r : ℕ) (u : Updated) (s : State)
    → s.syncs f.id ≡ some r
    → sequence_of s f.object ≡ sequence
    → ((accepted f sequence u s).0.drafts f.id ≡ none)
      × ((accepted f sequence u s).1 ≡ some (record f { stage = clearing }))
unfolding accepted
accepted_same f sequence r u s e h = ground (arith, eq_refl f.id)

reload_answered_number :
    (id : String) (r version : ℕ) (s : State)
    → s.syncs id ≡ some r
    → ((reload_answered id r version s).0.syncs id ≡ some r)
      × (sequence_of (reload_answered id r version s).0 r ≡ 0)
unfolding reload_answered
reload_answered_number id r version s e = ground arith

forget_number :
    (id : String) (s : State) (k : ℕ)
    → (sequence_of (forget id s) k ≡ sequence_of s k) × ((forget id s).next_object ≡ s.next_object)
unfolding forget
forget_number id s k = elim (Option-cases (s.syncs id)) [
  | inl e ↦ rw (e, forget) (refl, refl)
  | inr (r, e) ↦ rw (e, forget) (ground arith, refl)
]

delete_projects_number :
    (id : String) (s : State) (k : ℕ)
    → (sequence_of (delete_projects (id ∷ []) s).0 k ≡ sequence_of s k)
      × ((delete_projects (id ∷ []) s).0.next_object ≡ s.next_object)
unfolding delete_projects forget_all
delete_projects_number id s k = forget_number id s k

deletion_failed_object :
    (d : Deletion) (e : Failure) (s : State) (k : ℕ)
    → k < s.next_object
    → ((deletion_failed d e s).syncs d.project.id ≡ some s.next_object)
      × (((deletion_failed d e s).objects s.next_object).blocked ≡ true)
      × (sequence_of (deletion_failed d e s) k ≡ sequence_of s k)
unfolding deletion_failed
deletion_failed_object d e s k h = ground (arith, eq_refl d.project.id)

deletions-id :
    (syncs : String → Option ℕ) (id : String) (ps : List Project)
    → All
        (λ (d : Deletion). (id == d.project.id) ≡ true)
        (deletions syncs (keep (λ (p : Project). has p.id (id ∷ [])) ps))
deletions-id syncs id [] = tt
deletions-id syncs id (p ∷ ps) = elim (Bool-cases (id == p.id)) [
  | inl e ↦ rw e (e, deletions-id syncs id ps)
  | inr e ↦ rw e (deletions-id syncs id ps)
]

deleted_id :
    (id : String) (s : State) (d : Deletion)
    → (delete_projects (id ∷ []) s).1 ≡ d ∷ []
    → d.project.id ≡ id
unfolding delete_projects
deleted_id id s d h =
    let same : All (λ (x : Deletion). (id == x.project.id) ≡ true) (d ∷ []) =
      subst (All (λ (x : Deletion). (id == x.project.id) ≡ true)) h
        (deletions-id s.syncs id s.projects) in
    sym ((eq_iff id d.project.id).0 same.0)

-- A project is deleted while a save of it is in flight, the deletion fails, and the project, which
-- comes back, is edited. Where the object of the save counts what it counted when the save was
-- sent, the answer to the save removes the draft of that edit and goes on to report the project as
-- saved; the new object of the project is blocked, so that no timer sends the edit.
pub accepted-deletion_failed :
    (f : Flight) (u : Updated) (change : Project → Project) (immediate : Bool) (at : ℕ)
    (d : Deletion) (e : Failure) (s : State)
    → f.object < s.next_object
    → (delete_projects (f.id ∷ []) s).1 ≡ d ∷ []
    → (let edited =
          edit f.id change immediate at (deletion_failed d e (delete_projects (f.id ∷ []) s).0) in
        (edited.syncs f.id ≡ some s.next_object)
        × ((edited.objects s.next_object).blocked ≡ true)
        × ((accepted f (sequence_of s f.object) u edited).0.drafts f.id ≡ none)
        × ((accepted f (sequence_of s f.object) u edited).1 ≡ some (record f { stage = clearing })))
accepted-deletion_failed f u change immediate at d e s made h =
    let away = (delete_projects (f.id ∷ []) s).0 in
    let back = deletion_failed d e away in
    let same_id = deleted_id f.id s d h in
    let (old_number, next_made) = delete_projects_number f.id s f.object in
    let (own, closed, kept) =
      deletion_failed_object d e away f.object (omega (arith, made, next_made)) in
    let own_object : back.syncs f.id ≡ some s.next_object =
      subst (λ (k : String). back.syncs k ≡ some s.next_object) same_id
        (own ∙ ap (λ (n : ℕ). some n) next_made) in
    let still_closed : (back.objects s.next_object).blocked ≡ true =
      subst (λ (n : ℕ). (back.objects n).blocked ≡ true) next_made closed in
    let (_, flag, _, syncs) = edit_flags f.id change immediate at back s.next_object in
    let edited_syncs = ap (λ (g : String → Option ℕ). g f.id) syncs ∙ own_object in
    let edited_number =
      edit_object f.id change immediate at back s.next_object f.object own_object in
    let (no_draft, goes_on) =
      accepted_same f (sequence_of s f.object) s.next_object u (edit f.id change immediate at back)
        edited_syncs (ground (arith, made, edited_number, kept, old_number)) in
    (edited_syncs, flag ∙ still_closed, no_draft, goes_on)

-- A reload that is answered while the first counted save is in flight sets the number back, so
-- that the next edit counts what that save sent: its answer removes the draft of that edit.
pub accepted_after_reload :
    (f : Flight) (version : ℕ) (u : Updated) (change : Project → Project) (immediate : Bool)
    (at : ℕ) (s : State)
    → s.syncs f.id ≡ some f.object
    → ((accepted f 1 u
            (edit f.id change immediate at (reload_answered f.id f.object version s).0)).0.drafts
          f.id
        ≡ none)
      × ((accepted f 1 u
            (edit f.id change immediate at (reload_answered f.id f.object version s).0)).1
          ≡ some (record f { stage = clearing }))
accepted_after_reload f version u change immediate at s e =
    let t = (reload_answered f.id f.object version s).0 in
    let (same_syncs, zero) = reload_answered_number f.id f.object version s e in
    accepted_same f 1 f.object u _ (ground (arith, edit_flags f.id change immediate at t f.object))
      (ground (arith, edit_object f.id change immediate at t f.object f.object))

-- While the draft of a finished save is being removed, an edit and then a flush of the project stop
-- the timer of the edit; the save then ends, and reports the project as saved. No timer, no save and
-- no retry is left that would send the edit.
pub flush_while_clearing :
    (f : Flight) (change : Project → Project) (immediate : Bool) (at : ℕ) (s : State)
    → s.syncs f.id ≡ some f.object
    → (s.objects f.object).saving ≡ true
    → (s.objects f.object).blocked ≡ false
    → (s.objects f.object).retry_after_save ≡ false
    → (let t = draft_removed f (flush_project f.id (edit f.id change immediate at s)).0 in
        (t.1 ≡ none)
        × ((t.0.objects f.object).timer ≡ unset)
        × ((t.0.objects f.object).saving ≡ false)
        × ((t.0.objects f.object).retry_after_save ≡ false)
        × (t.0.statuses f.id ≡ some (record { state = saved; message = none }))
        × (sequence_of t.0 f.object ≡ sequence_of s f.object + 1))
unfolding draft_removed finally flush_project
flush_while_clearing f change immediate at s e run open_ calm =
    let t = edit f.id change immediate at s in
    ground (
      arith,
      eq_refl f.id,
      edit_flags f.id change immediate at s f.object,
      edit_object f.id change immediate at s f.object f.object e,
    )
