-- ===== src/Generations/Retry/Result.antt =====
-- findRetrySourceNode of frontend/src/adapters/canvas-generation-helpers.ts: what it returns.
use canvas_standalone.Prelude.{
  ℕ, zero, suc, ◌+◌, ◌≤◌, String, true, false, ◌≡◌, ◌≢◌, refl, sym, subst, ◌⊎◌, inl, inr, some,
  List, [], ◌∷◌, ◌++◌, has, find_by, has-Memᴰ, find_by_key, length-append, length, arith, Memᴰ,
  Bool-cases, Option-cases,
}
use canvas_standalone.Canvas.{Node, Connection}
use canvas_standalone.Generations.{
  sources, Found, found, not_found, out_of_fuel, is_config, search_source, find_retry_source,
}
use canvas_standalone.Generations.Retry.{Upstream, pending, pending-visit}
use canvas_standalone.Generations.Retry.Loop.{
  IsSearch, IsSearch-start, IsSearch-skip, IsSearch-visit, IsSearch-end,
}

module _ (target : String) (nodes : List Node) (connections : List Connection) where
  -- a node that a retry can start from
  abbrev pub IsSource : Node → Type 0
  IsSource n =
      (is_config n ≡ true)
      × (find_by Node.id n.id nodes ≡ some n)
      × Upstream connections target n.id

  abbrev IsRight : Found → Type 0
  IsRight (found n) = IsSource n
  IsRight not_found =
      (a : String) (n : Node)
      → Upstream connections target a
      → find_by Node.id a nodes ≡ some n
      → is_config n ≡ false
  IsRight out_of_fuel = ⊥

  config_cases :
      (id : String)
      → ((n : Node) × (find_by Node.id id nodes ≡ some n) × (is_config n ≡ true))
        ⊎ ((n : Node) → find_by Node.id id nodes ≡ some n → is_config n ≡ false)
  config_cases id = elim (Option-cases (find_by Node.id id nodes)) [
    | inl absent ↦ inr (λ n e. absurd (cc))
    | inr (n, f) ↦ elim (Bool-cases (is_config n)) [
      | inl c ↦ inl (n, f, c)
      | inr c ↦ inr (λ m e. ground arith)
    ]
  ]

  config_IsSource :
      (id : String) (n : Node)
      → find_by Node.id id nodes ≡ some n
      → is_config n ≡ true
      → Upstream connections target id
      → IsSource n
  config_IsSource id n f c u =
      let e = find_by_key Node.id id nodes f in
      (
        c,
        subst (λ (k : String). find_by Node.id k nodes ≡ some n) (sym e) f,
        subst (Upstream connections target) (sym e) u,
      )

  found_of :
      (r : Found) → IsRight r → (n : Node) → IsSource n → (m : Node) × (r ≡ found m) × IsSource m
  found_of (found m) h n s = (m, refl, h)
  found_of not_found h n s = absurd (cc (h n.id n s.2 s.1))
  found_of out_of_fuel h n s = absurd h

  search_seen :
      (fuel : ℕ) (id : String) (rest visited : List String)
      → has id visited ≡ true
      → search_source (suc fuel) nodes connections (id ∷ rest) visited
        ≡ search_source fuel nodes connections rest visited
  unfolding search_source
  search_seen fuel id rest visited e = rw (e, search_source)

  search_found :
      (fuel : ℕ) (id : String) (rest visited : List String) (n : Node)
      → has id visited ≡ false
      → find_by Node.id id nodes ≡ some n
      → is_config n ≡ true
      → search_source (suc fuel) nodes connections (id ∷ rest) visited ≡ found n
  unfolding search_source
  search_found fuel id rest visited n e f c = rw (e, f, c, search_source)

  search_on :
      (fuel : ℕ) (id : String) (rest visited : List String)
      → has id visited ≡ false
      → ((n : Node) → find_by Node.id id nodes ≡ some n → is_config n ≡ false)
      → search_source (suc fuel) nodes connections (id ∷ rest) visited
        ≡ search_source fuel nodes connections (rest ++ sources id connections) (id ∷ visited)
  unfolding search_source
  search_on fuel id rest visited e no_config = elim (Option-cases (find_by Node.id id nodes)) [
    | inl absent ↦ rw (e, absent, search_source)
    | inr (n, f) ↦ rw (e, f, no_config n f, search_source)
  ]

  search_source-IsRight :
      (fuel : ℕ) (queue visited : List String)
      → IsSearch target nodes connections queue visited
      → length queue + pending visited connections ≤ fuel
      → IsRight (search_source fuel nodes connections queue visited)
  unfolding search_source
  search_source-IsRight zero [] visited h m =
      λ a n u e. h.plain a n (IsSearch-end target nodes connections h u) e
  search_source-IsRight zero (id ∷ rest) visited h m = absurd (omega arith)
  search_source-IsRight (suc fuel) [] visited h m =
      λ a n u e. h.plain a n (IsSearch-end target nodes connections h u) e
  search_source-IsRight (suc fuel) (id ∷ rest) visited h m = elim (Bool-cases (has id visited)) [
    | inl seen ↦ subst IsRight (sym (search_seen fuel id rest visited seen)) (
        search_source-IsRight fuel rest visited
          (IsSearch-skip target nodes connections (has-Memᴰ id visited seen) h) (omega arith))
    | inr new ↦ elim (config_cases id) [
      | inl (n, f, c) ↦
          subst IsRight (sym (search_found fuel id rest visited n new f c))
            (config_IsSource id n f c (h.queued id (Memᴰ.head refl)))
      | inr no_config ↦ subst IsRight (sym (search_on fuel id rest visited new no_config)) (
          search_source-IsRight fuel (rest ++ sources id connections) (id ∷ visited)
            (IsSearch-visit target nodes connections no_config h)
            (omega (
              arith,
              pending-visit id visited connections new,
              length-append rest (sources id connections),
            )))
    ]
  ]

  pending-start : (cs : List Connection) → pending [] cs ≡ length cs
  unfolding pending
  pending-start [] = refl
  pending-start (c ∷ cs) = omega (arith, pending-start cs)

  length-sources : (id : String) (cs : List Connection) → length (sources id cs) ≤ length cs
  unfolding sources
  length-sources id [] = omega arith
  length-sources id (c ∷ cs) = ground (arith, length-sources id cs)

  find_retry_source-IsRight : IsRight (find_retry_source target nodes connections)
  unfolding find_retry_source
  find_retry_source-IsRight =
      search_source-IsRight _ _ [] (IsSearch-start target nodes connections)
        (omega (arith, pending-start connections, length-sources target connections))

  -- Where connections lead to the target from a configuration node, through any others and in a
  -- circle too, the search ends and finds such a node.
  pub find_retry_source-found :
      (n : Node)
      → IsSource n
      → (m : Node) × (find_retry_source target nodes connections ≡ found m) × IsSource m
  find_retry_source-found n h =
      found_of (find_retry_source target nodes connections) find_retry_source-IsRight n h

  -- What the search finds is a configuration node from which connections lead to the target.
  pub find_retry_source-IsSource :
      (n : Node) → find_retry_source target nodes connections ≡ found n → IsSource n
  find_retry_source-IsSource n e = subst IsRight e find_retry_source-IsRight

  -- The search ends where there is no such node, too.
  pub find_retry_source-ne-out_of_fuel : find_retry_source target nodes connections ≢ out_of_fuel
  find_retry_source-ne-out_of_fuel e = subst IsRight e find_retry_source-IsRight
