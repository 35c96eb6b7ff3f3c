-- ===== src/Projects/World/Following.antt =====
-- The saves in flight of frontend/src/adapters/use-canvas-store.ts after an operation on one of
-- them.
use canvas_standalone.Prelude.{
  ℕ, ◌<◌, String, Bool, true, false, Option, none, some, if◌then◌else◌, nat_eq, ◌≡◌, refl, arith,
  Option-cases, inl, inr, is_some,
}
use canvas_standalone.Projects.{dirty}
use canvas_standalone.Projects.State.{State, Failure, project_of, set_status, on_object}
use canvas_standalone.Projects.Saving.{
  Flight, Stage, waiting, sent, clearing, Updated, persist, finally, send, accepted, draft_removed,
  fail_flight, accept, merge_updated,
}
use canvas_standalone.Projects.Creation.{found_on_server}
use canvas_standalone.Projects.Commands.{flush_project, retry_project, timer_fired}
use canvas_standalone.Projects.World.{
  Reply, done, answer, broken, resume, Launch, timer, flush, retry, lookup_found, launch,
}
use canvas_standalone.Projects.World.Advance.{
  Advances, Advances-trans, same-Advances, update_project-Advances,
}
use canvas_standalone.Projects.World.Current.{
  StageIsCurrent, OptionIsCurrent, merge_updated_document, finally-Advances, launch-Advances,
  fail_flight-Advances,
}

-- A flight that a save starts waits first, and has sent nothing.
abbrev has_sent : Option Flight → Bool
has_sent none = false
has_sent (some f) = elim f.stage [ sent _ _ _ _ ↦ true | _ ↦ false ]

stage_not_sent :
    (s : State) (id : String) (r : ℕ) (st : Stage)
    → has_sent (some (record { id = id; object = r; stage = st })) ≡ false
    → StageIsCurrent s id r st
stage_not_sent s id r waiting e = tt
stage_not_sent s id r (sent sequence version title document) e = cc
stage_not_sent s id r clearing e = tt

not_sent : (s : State) (o : Option Flight) → has_sent o ≡ false → OptionIsCurrent s o
not_sent s none e = tt
not_sent s (some f) e = stage_not_sent s f.id f.object f.stage e

persist-not_sent : (id : String) (s : State) → has_sent (persist id s).1 ≡ false
unfolding persist
persist-not_sent id s = ground arith

finally-not_sent : (f : Flight) (s : State) → has_sent (finally f s).1 ≡ false
unfolding finally persist
finally-not_sent f s = ground arith

fail_flight-not_sent :
    (f : Flight) (e : Failure) (s : State) → has_sent (fail_flight f e s).1 ≡ false
unfolding fail_flight
fail_flight-not_sent f e s = finally-not_sent f _

launch-not_sent : (l : Launch) (s : State) → has_sent (launch l s).1 ≡ false
unfolding launch timer_fired found_on_server flush_project retry_project persist
launch-not_sent (timer id r) s = ground arith
launch-not_sent (flush id) s = ground arith
launch-not_sent (retry id) s = ground arith
launch-not_sent (lookup_found id r c) s = ground arith

-- What becomes of a state and a flight of it.
pub record Follows (live : ℕ → Bool) (s : State) (x : State × Option Flight) : Type 0 where
  pub advances : Advances live s x.0
  pub current : OptionIsCurrent x.0 x.1

ends :
    {live : ℕ → Bool} {s t : State} (f : Flight) → Advances live s t → Follows live s (finally f t)
ends {live} {s} {t} f a = record {
  advances = Advances-trans a (finally-Advances f t);
  current = not_sent _ _ (finally-not_sent f t);
}

if-Follows :
    {live : ℕ → Bool} {s : State} {x y : State × Option Flight} (b : Bool)
    → (b ≡ true → Follows live s x)
    → Follows live s y
    → Follows live s (if b then x else y)
if-Follows true f g = f refl
if-Follows false f g = g

module _ {live : ℕ → Bool} where
  same : (s : State) → Advances live s s
  same s = same-Advances s s refl refl refl refl λ r. refl

  accept-Advances : (f : Flight) (u : Updated) (s : State) → Advances live s (accept f u s)
  accept-Advances f u s =
      Advances-trans
        (same-Advances s (on_object f.object (λ y. record y { version = u.version }) s) refl refl
          refl refl λ r. ground arith)
        (update_project-Advances f.id (merge_updated u) _ (λ p. refl) (merge_updated_document u))

  send-Follows : (f : Flight) (s : State) → f.object < s.next_object → Follows live s (send f s)
  unfolding send
  send-Follows f s h = elim (Option-cases (project_of f.id s)) [
    | inl e ↦ rw (e, send) (ends f (same s))
    | inr (p, e) ↦
        rw (e, send)
          (if-Follows _
            (λ _. record {
              advances = same s;
              current = record { made = h; behind = omega arith; matches = λ _ _. (p, e, refl) };
            })
            (ends f (same s)))
  ]

  accepted-Follows :
      (f : Flight) (sequence : ℕ) (u : Updated) (s : State)
      → Follows live s (accepted f sequence u s)
  unfolding accepted
  accepted-Follows f sequence u s =
      if-Follows (is_some (s.syncs f.id))
        (λ _.
          if-Follows (nat_eq (s.objects f.object).sequence sequence)
            (λ _. record {
              advances =
                  Advances-trans (accept-Advances f u s)
                    (same-Advances _ _ refl refl refl refl λ r. refl);
              current = tt;
            })
            (ends f (
              Advances-trans (accept-Advances f u s) (
                same-Advances (accept f u s)
                  (set_status f.id dirty none
                    (on_object f.object (λ y. record y { retry_after_save = true }) (accept f u s)))
                  refl refl refl refl λ r. ground arith))))
        (ends f (same s))

  fail_flight-Follows : (f : Flight) (e : Failure) (s : State) → Follows live s (fail_flight f e s)
  fail_flight-Follows f e s = record {
    advances = fail_flight-Advances f e s;
    current = not_sent _ _ (fail_flight-not_sent f e s);
  }

  pub launch-Follows : (l : Launch) (s : State) → Follows live s (launch l s)
  launch-Follows l s = record {
    advances = launch-Advances l s;
    current = not_sent _ _ (launch-not_sent l s);
  }

  pub resume-Follows :
      (st : Stage) (reply : Reply) (f : Flight) (s : State)
      → f.object < s.next_object
      → StageIsCurrent s f.id f.object f.stage
      → Follows live s (resume st reply f s)
  unfolding resume draft_removed
  resume-Follows waiting done f s h c = send-Follows f s h
  resume-Follows waiting (broken e) f s h c = fail_flight-Follows f e s
  resume-Follows (sent sequence version title document) (answer u) f s h c =
      accepted-Follows f sequence u s
  resume-Follows (sent sequence version title document) (broken e) f s h c =
      fail_flight-Follows f e s
  resume-Follows clearing done f s h c = ends f (same-Advances s _ refl refl refl refl λ r. refl)
  resume-Follows clearing (broken e) f s h c = fail_flight-Follows f e s
  resume-Follows waiting (answer u) f s h c = record { advances = same s; current = c }
  resume-Follows (sent sequence version title document) done f s h c = record {
    advances = same s;
    current = c;
  }
  resume-Follows clearing (answer u) f s h c = record { advances = same s; current = c }
