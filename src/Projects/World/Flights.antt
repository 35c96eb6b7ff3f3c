-- ===== src/Projects/World/Flights.antt =====
-- The sync objects of frontend/src/adapters/use-canvas-store.ts that run, after operations that
-- start, end or go on with a save.
use canvas_standalone.Prelude.{
  ℕ, ◌+◌, String, Bool, true, false, Option, none, some, if◌then◌else◌, nat_eq, ◌≡◌, refl, arith,
  Option-cases, inl, inr, is_some, ltb,
}
use canvas_standalone.Projects.State.{
  State, Failure, project_of, remove_draft, set_status, on_object, update_project,
}
use canvas_standalone.Projects.Saving.{
  Flight, Stage, waiting, sent, clearing, Updated, persist, finally, send, accepted, draft_removed,
  fail_flight, accept,
}
use canvas_standalone.Projects.{dirty}
use canvas_standalone.Projects.Creation.{Created, found_on_server, retry_creation, merge_created}
use canvas_standalone.Projects.Commands.{
  flush_project, retry_project, timer_fired, stop_timer, ignored, looks_up, saves, is_in_conflict,
}
use canvas_standalone.Projects.World.{
  Reply, done, answer, broken, resume, Launch, timer, flush, retry, lookup_found, launch, retried,
}
use canvas_standalone.Projects.World.Exclusive.{
  running, own, weight, persist-running, finally-running,
}
use canvas_standalone.Projects.World.Frame.{Frame, Frame-refl, IsSound, Frame-IsSound}

-- What a launch gives: the object of the new flight runs, and no other one starts or stops.
pub record Started (s : State) (x : State × Option Flight) : Type 0 where
  pub sound : IsSound x.0
  pub runs : (r : ℕ) → running x.0 r ≡ running s r + weight x.1 r

-- What a flight gives when it goes on: its object stops, unless the flight or a new one of the
-- object goes on.
pub record Goes (f : Flight) (s : State) (x : State × Option Flight) : Type 0 where
  pub sound : IsSound x.0
  pub runs : (r : ℕ) → running x.0 r + own f r ≡ running s r + weight x.1 r

pub persist-Started : (id : String) (s : State) → IsSound s → Started s (persist id s)
unfolding persist
persist-Started id s v = record {
  sound = record {
    allocated = λ j r e. ground (arith, v.allocated j r);
    idle_above = λ r k. ground (arith, v.idle_above r, v.allocated id r);
  };
  runs = persist-running id s;
}

pub Started-Frame :
    {s t : State} {x : State × Option Flight} → Frame s t → Started t x → Started s x
Started-Frame {s} {t} {x} f g = record {
  sound = g.sound;
  runs = λ r. omega (arith, f.runs r, g.runs r);
}

pub finally-Goes :
    (f : Flight) (s : State) → IsSound s → running s f.object ≡ 1 → Goes f s (finally f s)
unfolding finally persist
finally-Goes f s v h = record {
  sound = record {
    allocated = λ j r e. ground (arith, v.allocated j r);
    idle_above = λ r k. ground (arith, v.idle_above r, v.allocated f.id r);
  };
  runs = λ r. finally-running f s r h;
}

pub Goes-Frame :
    {f : Flight} {s t : State} {x : State × Option Flight} → Frame s t → Goes f t x → Goes f s x
Goes-Frame {f} {s} {t} {x} fr g = record {
  sound = g.sound;
  runs = λ r. omega (arith, fr.runs r, g.runs r);
}

-- The end of a flight after writes that keep the frame.
pub ends-Goes :
    (f : Flight) {s t : State}
    → Frame s t
    → IsSound s
    → running s f.object ≡ 1
    → Goes f s (finally f t)
ends-Goes f {s} {t} fr v h =
    Goes-Frame fr (finally-Goes f t (Frame-IsSound fr v) (omega (arith, fr.runs f.object)))

-- A flight that goes on by itself after writes that keep the frame.
pub stays-Goes :
    (f : Flight) (st : Stage) {s t : State}
    → Frame s t
    → IsSound s
    → Goes f s (t, some (record f { stage = st }))
stays-Goes f st {s} {t} fr v = record {
  sound = Frame-IsSound fr v;
  runs = λ r. omega (arith, fr.runs r);
}

pub if-Goes :
    {f : Flight} {s : State} {x y : State × Option Flight} (b : Bool)
    → Goes f s x
    → Goes f s y
    → Goes f s (if b then x else y)
if-Goes true g h = g
if-Goes false g h = h

pub fail_flight-Goes :
    (f : Flight) (e : Failure) (s : State)
    → IsSound s
    → running s f.object ≡ 1
    → Goes f s (fail_flight f e s)
unfolding fail_flight
fail_flight-Goes f e s v h =
    ends-Goes f
      (record { syncs = ground arith; next_object = ground arith; runs = λ r. ground arith }) v h

pub accepted-Frame :
    (f : Flight) (u : Updated) (s : State) → Frame s (remove_draft f.id (accept f u s))
accepted-Frame f u s = record { syncs = refl; next_object = refl; runs = λ r. ground arith }

pub stale-Frame :
    (f : Flight) (u : Updated) (s : State)
    → Frame s (
        set_status f.id dirty none
          (on_object f.object (λ y. record y { retry_after_save = true }) (accept f u s)))
stale-Frame f u s = record { syncs = refl; next_object = refl; runs = λ r. ground arith }

pub unblocked-Frame :
    (r : ℕ) (s : State) → Frame s (stop_timer r (on_object r (λ y. record y { blocked = false }) s))
unblocked-Frame r s = record { syncs = refl; next_object = refl; runs = λ k. ground arith }

pub looked_up-Frame : (id : String) (r : ℕ) (s : State) → Frame s (retry_creation id r s)
unfolding retry_creation
looked_up-Frame id r s = record { syncs = refl; next_object = refl; runs = λ k. ground arith }

pub found-Frame :
    (id : String) (r : ℕ) (c : Created) (s : State)
    → Frame s (
        set_status id dirty none (
          update_project id
            (merge_created c)
            (on_object r (λ y. record y { version = c.version; creating = true }) s)))
found-Frame id r c s = record { syncs = refl; next_object = refl; runs = λ k. ground arith }

pub resume-Goes :
    (st : Stage) (reply : Reply) (f : Flight) (s : State)
    → IsSound s
    → running s f.object ≡ 1
    → Goes f s (resume st reply f s)
unfolding resume send accepted draft_removed
resume-Goes waiting done f s v h = elim (Option-cases (project_of f.id s)) [
  | inl e ↦ rw (e, send) (finally-Goes f s v h)
  | inr (p, e) ↦ rw (e, send) (if-Goes _ (stays-Goes f _ (Frame-refl s) v) (finally-Goes f s v h))
]
resume-Goes waiting (broken e) f s v h = fail_flight-Goes f e s v h
resume-Goes (sent sequence version title document) (answer u) f s v h =
    if-Goes (is_some (s.syncs f.id))
      (if-Goes (nat_eq (s.objects f.object).sequence sequence)
        (stays-Goes f clearing (accepted-Frame f u s) v) (ends-Goes f (stale-Frame f u s) v h))
      (finally-Goes f s v h)
resume-Goes (sent sequence version title document) (broken e) f s v h = fail_flight-Goes f e s v h
resume-Goes clearing done f s v h =
    ends-Goes f (record { syncs = refl; next_object = refl; runs = λ r. refl }) v h
resume-Goes clearing (broken e) f s v h = fail_flight-Goes f e s v h
resume-Goes waiting (answer u) f s v h = stays-Goes f f.stage (Frame-refl s) v
resume-Goes (sent sequence version title document) done f s v h =
    stays-Goes f f.stage (Frame-refl s) v
resume-Goes clearing (answer u) f s v h = stays-Goes f f.stage (Frame-refl s) v

pub persist_after : (id : String) {s t : State} → Frame s t → IsSound s → Started s (persist id t)
persist_after id {s} {t} f v = Started-Frame f (persist-Started id t (Frame-IsSound f v))

pub none_after : {s t : State} → Frame s t → IsSound s → Started s (t, none)
none_after {s} {t} f v = record { sound = Frame-IsSound f v; runs = λ r. omega (arith, f.runs r) }

pub stop_timer-Frame : (r : ℕ) (s : State) → Frame s (stop_timer r s)
stop_timer-Frame r s = record { syncs = refl; next_object = refl; runs = λ k. ground arith }

pub if-Started :
    {s : State} {x y : State × Option Flight} (b : Bool)
    → Started s x
    → Started s y
    → Started s (if b then x else y)
if-Started true g h = g
if-Started false g h = h

pub flush_project-Started : (id : String) (s : State) → IsSound s → Started s (flush_project id s)
unfolding flush_project
flush_project-Started id s v = elim (Option-cases (s.syncs id)) [
  | inl e ↦ rw (e, flush_project) (none_after (Frame-refl s) v)
  | inr (r, e) ↦
      let stopped = none_after (stop_timer-Frame r s) v in
      rw (e, flush_project)
        (if-Started _ (none_after (Frame-refl s) v)
          (if-Started _ stopped (if-Started _ stopped (persist_after id (stop_timer-Frame r s) v))))
]

pub retried-Started :
    {s t : State} {x : State × Option Flight} (r : ℕ) (b c : Bool)
    → Started s (s, none)
    → Started s (t, none)
    → Started s x
    → Started s (retried s (if b then ignored else if c then looks_up r t else saves x))
retried-Started r true c f g h = f
retried-Started r false true f g h = g
retried-Started r false false f g h = h

pub retry_project-Started :
    (id : String) (s : State) → IsSound s → Started s (retried s (retry_project id s))
unfolding retry_project retry_creation
retry_project-Started id s v = elim (Option-cases (s.syncs id)) [
  | inl e ↦ rw (e, retry_project) (none_after (Frame-refl s) v)
  | inr (r, e) ↦
      rw (e, retry_project)
        (retried-Started r (is_in_conflict (s.statuses id)) (ltb (s.objects r).version 1)
          (none_after (Frame-refl s) v) (none_after (looked_up-Frame id r s) v)
          (persist_after id (unblocked-Frame r s) v))
]

pub launch-Started : (l : Launch) (s : State) → IsSound s → Started s (launch l s)
unfolding launch timer_fired found_on_server
launch-Started (timer id r) s v = persist_after id (stop_timer-Frame r s) v
launch-Started (flush id) s v = flush_project-Started id s v
launch-Started (retry id) s v = retry_project-Started id s v
launch-Started (lookup_found id r c) s v =
    if-Started _ (persist_after id (found-Frame id r c s) v) (none_after (Frame-refl s) v)
