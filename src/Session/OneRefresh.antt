-- ===== src/Session/OneRefresh.antt =====
-- The refreshes in flight of frontend/src/runtime/session-adapter.ts over all histories.
use canvas_standalone.Prelude.{
  ℕ, suc, String, Bool, true, false, Option, none, some, List, [], ◌∷◌, ◌++◌, ◌≡◌, refl, arith, All,
  All-split, length, sym, subst, nat_eq, is_some, if◌then◌else◌, Option-split, truthy_or_none,
}
use canvas_standalone.Session.{
  State, Refresh, Reply, Pair, Begin, shares, refuses, starts, begin_refresh, refresh_answered,
  refresh_broken, expire, after_refresh, second_answered, second_broken, trimmed,
}

pub record World : Type 0 where
  pub store : State
  pub refreshes : List Refresh

abbrev pub after_begin : World → Begin → World
after_begin w (shares p) = w
after_begin w refuses = w
after_begin w (starts f s) = record { store = s; refreshes = f ∷ w.refreshes }

-- A request asks for a refresh, the refresh is answered or breaks, a fetch goes on or ends, or another
-- page writes into the storage.
pub data Step (w w' : World) : Type 0 where
  asks : w' ≡ after_begin w (begin_refresh w.store) → Step w w'
  answers :
      (before after : List Refresh) (f : Refresh) (r : Reply) (now : ℕ)
      → w.refreshes ≡ before ++ f ∷ after
      → w' ≡ record { store = (refresh_answered f r now w.store).0; refreshes = before ++ after }
      → Step w w'
  breaks :
      (before after : List Refresh) (f : Refresh)
      → w.refreshes ≡ before ++ f ∷ after
      → w' ≡ record { store = refresh_broken f w.store; refreshes = before ++ after }
      → Step w w'
  goes_on :
      (target : String) (p : Option Pair)
      → w' ≡ record w { store = (after_refresh target p w.store).0 }
      → Step w w'
  ends :
      (target : String) (status : ℕ)
      → w' ≡ record w { store = second_answered target status w.store }
      → Step w w'
  fails : (target : String) → w' ≡ record w { store = second_broken target w.store } → Step w w'
  elsewhere :
      (access token : Option String) (at : Option ℕ)
      → w'
        ≡ record w { store = record w.store { access = access; refresh = token; expires_at = at } }
      → Step w w'

pub data Reach (w : World) : World → Type 0 where
  here : Reach w w
  next : {u v : World} → Reach w u → Step u v → Reach w v

abbrev pub is_promise : Option ℕ → Refresh → Bool
is_promise none f = false
is_promise (some p) f = nat_eq p f.promise

-- The refreshes in flight are the one that the adapter knows of.
record Alone (o : Option ℕ) (fs : List Refresh) : Type 0 where
  number : length fs ≡ (if is_some o then 1 else 0)
  known : All (λ f. is_promise o f ≡ true) fs

length-split :
    (before : List Refresh) (f : Refresh) (after : List Refresh)
    → length (before ++ f ∷ after) ≡ suc (length (before ++ after))
length-split [] f after = refl
length-split (g ∷ before) f after = omega (arith, length-split before f after)

nothing-All :
    (o : Option ℕ) (fs : List Refresh) → length fs ≡ 0 → All (λ f. is_promise o f ≡ true) fs
nothing-All o [] e = tt
nothing-All o (f ∷ fs) e = absurd (omega arith)

-- A refresh that is over is the one that was known, and leaves none.
over-Alone :
    {o o' : Option ℕ} (before after : List Refresh) (f : Refresh)
    → o' ≡ (if is_promise o f then none else o)
    → Alone o (before ++ f ∷ after)
    → Alone o' (before ++ after)
over-Alone {o} {o'} before after f e v =
    let (mine, others) =
      All-split (λ (g : Refresh). is_promise o g ≡ true) before f after v.known in
    let empty : length (before ++ after) ≡ 0 =
      ground (arith, v.number, length-split before f after, mine) in
    record {
      number = ground (arith, empty, e, mine);
      known = nothing-All o' (before ++ after) empty;
    }

refresh_answered-in_flight :
    (f : Refresh) (r : Reply) (now : ℕ) (s : State)
    → (refresh_answered f r now s).0.in_flight
      ≡ (if is_promise s.in_flight f then none else s.in_flight)
unfolding refresh_answered
refresh_answered-in_flight f r now s = ground arith

refresh_broken-in_flight :
    (f : Refresh) (s : State)
    → (refresh_broken f s).in_flight ≡ (if is_promise s.in_flight f then none else s.in_flight)
unfolding refresh_broken
refresh_broken-in_flight f s = ground arith

begin_refresh-Alone :
    (w : World)
    → Alone w.store.in_flight w.refreshes
    → Alone
        (after_begin w (begin_refresh w.store)).store.in_flight
        (after_begin w (begin_refresh w.store)).refreshes
unfolding begin_refresh
begin_refresh-Alone w v =
    Option-split
      (λ (x : Begin). Alone (after_begin w x).store.in_flight (after_begin w x).refreshes) _ _
      w.store.in_flight
      (λ e.
        let empty : length w.refreshes ≡ 0 = ground (arith, v.number, e) in
        Option-split
          (λ (x : Begin). Alone (after_begin w x).store.in_flight (after_begin w x).refreshes) _ _
          (truthy_or_none (trimmed w.store.refresh)) (λ n. v)
          (λ t n. record {
            number = omega (arith, empty);
            known = (ground arith, nothing-All (some w.store.next_promise) w.refreshes empty);
          }))
      (λ p e. v)

abbrev HasOne : World → Type 0
HasOne w = Alone w.store.in_flight w.refreshes

second_answered-in_flight :
    (target : String) (status : ℕ) (s : State)
    → (second_answered target status s).in_flight ≡ s.in_flight
unfolding second_answered
second_answered-in_flight target status s = ground arith

Step-Alone : {w w' : World} → Step w w' → HasOne w → HasOne w'
unfolding after_refresh second_broken expire
Step-Alone {w} (asks e) v = subst HasOne (sym e) (begin_refresh-Alone w v)
Step-Alone {w} (answers before after f r now split e) v = subst HasOne (sym e) (
    over-Alone before after f (refresh_answered-in_flight f r now w.store)
      (subst (Alone w.store.in_flight) split v))
Step-Alone {w} (breaks before after f split e) v = subst HasOne (sym e) (
    over-Alone before after f (refresh_broken-in_flight f w.store)
      (subst (Alone w.store.in_flight) split v))
Step-Alone {w} (goes_on target none e) v = subst HasOne (sym e) v
Step-Alone {w} (goes_on target (some p) e) v = subst HasOne (sym e) v
Step-Alone {w} (ends target status e) v =
    subst HasOne (sym e)
      (subst (λ o. Alone o w.refreshes) (sym (second_answered-in_flight target status w.store)) v)
Step-Alone {w} (fails target e) v = subst HasOne (sym e) v
Step-Alone {w} (elsewhere access token at e) v = subst HasOne (sym e) v

Reach-Alone : {w w' : World} → Reach w w' → HasOne w → HasOne w'
Reach-Alone here v = v
Reach-Alone (next r st) v = Step-Alone st (Reach-Alone r v)

-- However many requests find their token refused at a time, and whatever other pages write into the
-- storage: from a start with no refresh in flight, at most one is in flight, exactly while the adapter
-- knows of one, and it is that one.
pub length-refreshes :
    {w w' : World}
    → Reach w w'
    → w.refreshes ≡ []
    → w.store.in_flight ≡ none
    → (length w'.refreshes ≡ (if is_some w'.store.in_flight then 1 else 0))
      × All (λ f. is_promise w'.store.in_flight f ≡ true) w'.refreshes
length-refreshes {w} reach e f =
    let v = Reach-Alone reach (rw (e, f) (record { number = refl; known = tt })) in
    (v.number, v.known)
