-- ===== src/Projects/World/Exclusive.antt =====
-- How many saves of a sync object of frontend/src/adapters/use-canvas-store.ts are in flight.
use canvas_standalone.Prelude.{
  ℕ, ◌+◌, String, Bool, Option, none, some, List, [], ◌∷◌, if◌then◌else◌, nat_eq, ◌≡◌, arith,
}
use canvas_standalone.Projects.State.{State, bump, schedule_save, schedule}
use canvas_standalone.Projects.Saving.{Flight, persist, finally}

-- 1 while the object's save runs
abbrev pub running : State → ℕ → ℕ
running s r = if (s.objects r).saving then 1 else 0

abbrev pub own : Flight → ℕ → ℕ
own f r = if nat_eq f.object r then 1 else 0

abbrev pub weight : Option Flight → ℕ → ℕ
weight none r = 0
weight (some f) r = own f r

abbrev pub count : ℕ → List Flight → ℕ
count r [] = 0
count r (f ∷ fs) = own f r + count r fs

pub persist-running :
    (id : String) (s : State) (r : ℕ)
    → running (persist id s).0 r ≡ running s r + weight (persist id s).1 r
unfolding persist
persist-running id s r = ground arith

pub finally-running :
    (f : Flight) (s : State) (r : ℕ)
    → running s f.object ≡ 1
    → running (finally f s).0 r + own f r ≡ running s r + weight (finally f s).1 r
unfolding finally persist
finally-running f s r h = ground arith

pub bump-running : (id : String) (s : State) (r : ℕ) → running (bump id s) r ≡ running s r
unfolding bump
bump-running id s r = ground arith

pub schedule_save-running :
    (id : String) (immediate : Bool) (at : ℕ) (s : State) (r : ℕ)
    → running (schedule_save id immediate at s) r ≡ running s r
unfolding schedule_save schedule
schedule_save-running id immediate at s r = ground arith
