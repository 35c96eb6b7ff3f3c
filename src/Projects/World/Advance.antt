-- ===== src/Projects/World/Advance.antt =====
-- How an operation of frontend/src/adapters/use-canvas-store.ts moves the projects and their
-- sequence numbers on.
use canvas_standalone.Prelude.{
  ℕ, ◌+◌, ◌≤◌, ◌<◌, String, Bool, true, false, some, ◌≡◌, refl, arith, Bool-cases, inl, inr, ◌∙◌,
  eq_iff, ◌==◌, find_by-update_by,
}
use canvas_standalone.AssetRuntime.{Aliases}
use canvas_standalone.Projects.{Project}
use canvas_standalone.Projects.Document.{project_document}
use canvas_standalone.Projects.State.{
  State, edit, bump, schedule_save, schedule, project_of, project_key, update_project,
}

abbrev pub sequence_of : State → ℕ → ℕ
sequence_of s r = (s.objects r).sequence

-- For the objects of which `live` is true.
pub record Advances (live : ℕ → Bool) (s s' : State) : Type 0 where
  pub aliases : s'.aliases ≡ s.aliases
  pub made : s.next_object ≤ s'.next_object
  pub counted : (r : ℕ) → live r ≡ true → r < s.next_object → sequence_of s r ≤ sequence_of s' r
  pub kept : (id : String) (r : ℕ) → r < s.next_object → s'.syncs id ≡ some r → s.syncs id ≡ some r
  pub unchanged :
      (id : String) (r : ℕ) (p : Project)
      → live r ≡ true
      → r < s.next_object
      → s'.syncs id ≡ some r
      → sequence_of s' r ≡ sequence_of s r
      → project_of id s ≡ some p
      → (q : Project) × (project_of id s' ≡ some q)
        × (project_document s.aliases q ≡ project_document s.aliases p)

bump_at :
    (id : String) (s : State) (r : ℕ)
    → s.syncs id ≡ some r
    → sequence_of (bump id s) r ≡ sequence_of s r + 1
unfolding bump
bump_at id s r e = rw (e, bump) (ground arith)

bump-frame :
    (id : String) (s : State)
    → ((bump id s).aliases ≡ s.aliases)
      × ((bump id s).next_object ≡ s.next_object)
      × ((bump id s).syncs ≡ s.syncs)
      × ((bump id s).projects ≡ s.projects)
unfolding bump
bump-frame id s = ground arith

bump_counted : (id : String) (s : State) (r : ℕ) → sequence_of s r ≤ sequence_of (bump id s) r
unfolding bump
bump_counted id s r = ground arith

elsewhere :
    (id j : String) (f : Project → Project) (s : State)
    → ((p : Project) → (f p).id ≡ p.id)
    → (id == j) ≡ false
    → project_of j (update_project id f s) ≡ project_of j s
elsewhere id j f s keeps e = find_by-update_by project_key id j f s.projects keeps ∙ rw e refl

module _ {live : ℕ → Bool} where
  pub Advances-trans : {s t u : State} → Advances live s t → Advances live t u → Advances live s u
  Advances-trans {s} {t} {u} f g = record {
    aliases = g.aliases ∙ f.aliases;
    made = omega (arith, f.made, g.made);
    counted = λ r l h. omega (arith, f.counted r l h, g.counted r l (omega (arith, f.made)));
    kept = λ id r h e. f.kept id r h (g.kept id r (omega (arith, f.made)) e);
    unchanged = λ id r p l h e same found.
        let h' : r < t.next_object = omega (arith, f.made) in
        let e' = g.kept id r h' e in
        let up = f.counted r l h in
        let up' = g.counted r l h' in
        let (q, at, doc) = f.unchanged id r p l h e' (omega arith) found in
        let (q', at', doc') = g.unchanged id r q l h' e (omega arith) at in
        (q', at', rw (← f.aliases) (doc' ∙ rw f.aliases doc));
  }

  -- The projects, the references and the sequence numbers are the same.
  pub same-Advances :
      (s s' : State)
      → s'.aliases ≡ s.aliases
      → s'.next_object ≡ s.next_object
      → s'.syncs ≡ s.syncs
      → s'.projects ≡ s.projects
      → ((r : ℕ) → sequence_of s' r ≡ sequence_of s r)
      → Advances live s s'
  same-Advances s s' a n y p c = record {
    aliases = a;
    made = omega arith;
    counted = λ r l h. omega (arith, c r);
    kept = λ id r h e. rw (← y) e;
    unchanged = λ id r q l h e same found. (q, rw p found, refl);
  }

  -- A write to a project that its sync object counts.
  bump-Advances :
      (id : String) (f : Project → Project) (s : State)
      → ((p : Project) → (f p).id ≡ p.id)
      → Advances live s (bump id (update_project id f s))
  bump-Advances id f s keeps =
      let t = update_project id f s in
      let (a, n, y, ps) = bump-frame id t in
      record {
        aliases = a;
        made = omega arith;
        counted = λ r l h. bump_counted id t r;
        kept = λ j r h e. rw (← y) e;
        unchanged = λ j r p l h e same found. elim (Bool-cases (id == j)) [
          | inl i ↦
              let at : s.syncs id ≡ some r = rw ((eq_iff id j).0 i, ← y) e in
              absurd (omega (arith, bump_at id t r at))
          | inr o ↦ (p, rw ps (elsewhere id j f s keeps o ∙ found), refl)
        ];
      }

  pub schedule_save-Advances :
      (id : String) (immediate : Bool) (at : ℕ) (s : State)
      → Advances live s (schedule_save id immediate at s)
  unfolding schedule_save schedule
  schedule_save-Advances id immediate at s =
      same-Advances s _ (ground arith) (ground arith) (ground arith) (ground arith)
        λ r. ground arith

  pub edit-Advances :
      (id : String) (f : Project → Project) (immediate : Bool) (at : ℕ) (s : State)
      → ((p : Project) → (f p).id ≡ p.id)
      → Advances live s (edit id f immediate at s)
  unfolding edit
  edit-Advances id f immediate at s keeps =
      Advances-trans (bump-Advances id f s keeps) (schedule_save-Advances id immediate at _)

  -- A write to a project that leaves its document alone.
  pub update_project-Advances :
      (id : String) (f : Project → Project) (s : State)
      → ((p : Project) → (f p).id ≡ p.id)
      → ((a : Aliases) (p : Project) → project_document a (f p) ≡ project_document a p)
      → Advances live s (update_project id f s)
  update_project-Advances id f s keeps same_document = record {
    aliases = refl;
    made = omega arith;
    counted = λ r l h. omega arith;
    kept = λ j r h e. e;
    unchanged = λ j r p l h e same found. elim (Bool-cases (id == j)) [
      | inl i ↦ (
        f p,
        find_by-update_by project_key id j f s.projects keeps ∙ rw (i, found) refl,
        same_document s.aliases p,
      )
      | inr o ↦ (p, elsewhere id j f s keeps o ∙ found, refl)
    ];
  }
