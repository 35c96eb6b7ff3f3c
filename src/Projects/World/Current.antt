-- ===== src/Projects/World/Current.antt =====
-- What a save sent, read against the project that it is of
-- (frontend/src/adapters/use-canvas-store.ts).
use canvas_standalone.Prelude.{
  ℕ, ◌≤◌, ◌<◌, String, Bool, true, Option, none, some, ◌≡◌, refl, arith, Bool-cases, inl, inr,
  is_some, ◌∙◌,
}
use canvas_standalone.Json.{Value}
use canvas_standalone.AssetRuntime.{Aliases}
use canvas_standalone.Projects.{Project}
use canvas_standalone.Projects.Document.{project_document}
use canvas_standalone.Projects.State.{State, Failure, project_of, on_object}
use canvas_standalone.Projects.Saving.{
  Flight, Stage, waiting, sent, clearing, Updated, persist, finally, fail_flight, merge_updated,
}
use canvas_standalone.Projects.Creation.{Created, found_on_server, retry_creation, merge_created}
use canvas_standalone.Projects.Commands.{flush_project, retry_project, timer_fired, stop_timer}
use canvas_standalone.Projects.World.{Launch, timer, flush, retry, lookup_found, launch, retried}
use canvas_standalone.Projects.World.Forgetting.{merge_created_document}
use canvas_standalone.Projects.World.Advance.{
  sequence_of, Advances, Advances-trans, same-Advances, update_project-Advances,
}

pub merge_updated_document :
    (u : Updated) (a : Aliases) (p : Project)
    → project_document a (merge_updated u p) ≡ project_document a p
unfolding project_document
merge_updated_document u a p = refl

-- What a flight sent, read against the state: the numbers do not run back, and while the object is
-- the project's and its number is the one that was sent, the document is the one that was sent.
pub record IsCurrent (s : State) (id : String) (r sequence : ℕ) (document : Value) : Type 0 where
  pub made : r < s.next_object
  pub behind : sequence ≤ sequence_of s r
  pub matches :
      s.syncs id ≡ some r
      → sequence_of s r ≡ sequence
      → (p : Project) × (project_of id s ≡ some p) × (project_document s.aliases p ≡ document)

abbrev pub StageIsCurrent : State → String → ℕ → Stage → Type 0
StageIsCurrent s id r waiting = Unit
StageIsCurrent s id r (sent sequence version title document) = IsCurrent s id r sequence document
StageIsCurrent s id r clearing = Unit

pub Advances-StageIsCurrent :
    {live : ℕ → Bool} {s t : State} (id : String) (r : ℕ) (st : Stage)
    → Advances live s t
    → live r ≡ true
    → StageIsCurrent s id r st
    → StageIsCurrent t id r st
Advances-StageIsCurrent id r waiting a l c = tt
Advances-StageIsCurrent {live} {s} {t} id r (sent sequence version title document) a l c = record {
  made = omega (arith, c.made, a.made);
  behind = omega (arith, c.behind, a.counted r l c.made);
  matches = λ e same.
      let up = a.counted r l c.made in
      let low = c.behind in
      let (p, found, doc) = c.matches (a.kept id r c.made e) (omega arith) in
      let (q, found', doc') = a.unchanged id r p l c.made e (omega arith) found in
      (q, found', rw a.aliases (doc' ∙ doc));
}
Advances-StageIsCurrent id r clearing a l c = tt

module _ {live : ℕ → Bool} where
  persist-Advances : (id : String) (s : State) → Advances live s (persist id s).0
  unfolding persist
  persist-Advances id s =
      same-Advances s _ (ground arith) (ground arith) (ground arith) (ground arith)
        λ r. ground arith

  pub finally-Advances : (f : Flight) (s : State) → Advances live s (finally f s).0
  unfolding finally persist
  finally-Advances f s =
      same-Advances s _ (ground arith) (ground arith) (ground arith) (ground arith)
        λ r. ground arith

  flush_project-Advances : (id : String) (s : State) → Advances live s (flush_project id s).0
  unfolding flush_project persist
  flush_project-Advances id s =
      same-Advances s _ (ground arith) (ground arith) (ground arith) (ground arith)
        λ r. ground arith

  retry_project-Advances :
      (id : String) (s : State) → Advances live s (retried s (retry_project id s)).0
  unfolding retry_project retry_creation persist
  retry_project-Advances id s =
      same-Advances s _ (ground arith) (ground arith) (ground arith) (ground arith)
        λ r. ground arith

  found-Advances :
      (id : String) (r : ℕ) (c : Created) (s : State) → Advances live s (found_on_server id r c s).0
  unfolding found_on_server
  found-Advances id r c s = elim (Bool-cases (is_some (s.syncs id))) [
    | inl e ↦ rw e (
        Advances-trans
          (Advances-trans
            (same-Advances s
              (on_object r (λ y. record y { version = c.version; creating = true }) s) refl refl
              refl refl λ k. ground arith)
            (update_project-Advances id (merge_created c) _ (λ p. refl) (merge_created_document c)))
          (Advances-trans (same-Advances _ _ refl refl refl refl λ k. refl)
            (persist-Advances id _)))
    | inr e ↦ rw e (same-Advances s s refl refl refl refl λ k. refl)
  ]

  pub launch-Advances : (l : Launch) (s : State) → Advances live s (launch l s).0
  unfolding launch timer_fired
  launch-Advances (timer id r) s =
      Advances-trans (same-Advances s (stop_timer r s) refl refl refl refl λ k. ground arith)
        (persist-Advances id _)
  launch-Advances (flush id) s = flush_project-Advances id s
  launch-Advances (retry id) s = retry_project-Advances id s
  launch-Advances (lookup_found id r c) s = found-Advances id r c s

  pub fail_flight-Advances :
      (f : Flight) (e : Failure) (s : State) → Advances live s (fail_flight f e s).0
  unfolding fail_flight
  fail_flight-Advances f e s =
      Advances-trans
        (same-Advances s _ (ground arith) (ground arith) (ground arith) (ground arith)
          λ r. ground arith)
        (finally-Advances f _)

abbrev pub OptionIsCurrent : State → Option Flight → Type 0
OptionIsCurrent s none = Unit
OptionIsCurrent s (some f) = StageIsCurrent s f.id f.object f.stage
