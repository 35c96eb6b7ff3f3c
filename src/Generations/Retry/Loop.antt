-- ===== src/Generations/Retry/Loop.antt =====
-- findRetrySourceNode of frontend/src/adapters/canvas-generation-helpers.ts: what holds in each round
-- of its loop.
use mathlib.Core.List.Memᴰ
use canvas_standalone.Prelude.{
  String, false, ◌≡◌, refl, sym, ap, subst, ◌∙◌, ◌⊎◌, inl, inr, some, List, [], ◌∷◌, ◌++◌, find_by,
  Memᴰ,
}
use canvas_standalone.Canvas.{Node, Connection}
use canvas_standalone.Generations.{sources, is_config}
use canvas_standalone.Generations.Retry.{Upstream, direct, further, sources-Memᴰ, sources-Upstream}

module _ (target : String) (nodes : List Node) (connections : List Connection) where
  pub record IsSearch (queue visited : List String) : Type 0 where
    pub queued : (a : String) → Memᴰ a queue → Upstream connections target a
    pub first :
        (c : Connection)
        → Memᴰ c connections
        → c.to_node_id ≡ target
        → Memᴰ c.from_node_id queue ⊎ Memᴰ c.from_node_id visited
    pub closed :
        (c : Connection)
        → Memᴰ c connections
        → Memᴰ c.to_node_id visited
        → Memᴰ c.from_node_id queue ⊎ Memᴰ c.from_node_id visited
    pub plain :
        (a : String) (n : Node)
        → Memᴰ a visited
        → find_by Node.id a nodes ≡ some n
        → is_config n ≡ false

  pub IsSearch-start : IsSearch (sources target connections) []
  IsSearch-start = record {
    queued = λ a m.
        let (c, k, to, from) = sources-Upstream target connections a m in
        subst (Upstream connections target) from (direct c k to);
    first = λ c m e. inl (sources-Memᴰ target connections c m e);
    closed = λ c m h. absurd (Memᴰ.not-nil h);
    plain = λ a n h e. absurd (Memᴰ.not-nil h);
  }

  skip_first :
      {a id : String} {rest visited : List String}
      → Memᴰ id visited
      → Memᴰ a (id ∷ rest) ⊎ Memᴰ a visited
      → Memᴰ a rest ⊎ Memᴰ a visited
  skip_first v (inr m) = inr m
  skip_first v (inl m) = elim (Memᴰ.cases_cons m) [ inl e ↦ inr (Memᴰ.cast e v) | inr r ↦ inl r ]

  pub IsSearch-skip :
      {id : String} {rest visited : List String}
      → Memᴰ id visited
      → IsSearch (id ∷ rest) visited
      → IsSearch rest visited
  IsSearch-skip v h = record {
    queued = λ a m. h.queued a (Memᴰ.tail m);
    first = λ c m e. skip_first v (h.first c m e);
    closed = λ c m k. skip_first v (h.closed c m k);
    plain = h.plain;
  }

  visit_first :
      {a id : String} {rest visited : List String}
      → Memᴰ a (id ∷ rest) ⊎ Memᴰ a visited
      → Memᴰ a (rest ++ sources id connections) ⊎ Memᴰ a (id ∷ visited)
  visit_first (inr m) = inr (Memᴰ.tail m)
  visit_first (inl m) = elim (Memᴰ.cases_cons m) [
    | inl e ↦ inr (Memᴰ.head e)
    | inr r ↦ inl (Memᴰ.append_left _ r)
  ]

  pub IsSearch-visit :
      {id : String} {rest visited : List String}
      → ((n : Node) → find_by Node.id id nodes ≡ some n → is_config n ≡ false)
      → IsSearch (id ∷ rest) visited
      → IsSearch (rest ++ sources id connections) (id ∷ visited)
  IsSearch-visit {id} {rest} no_config h = record {
    queued = λ a m. elim (Memᴰ.append_cases rest m) [
      | inl r ↦ h.queued a (Memᴰ.tail r)
      | inr r ↦
          let (c, k, to, from) = sources-Upstream id connections a r in
          subst (Upstream connections target) from (
            further c k
              (subst (Upstream connections target) (sym to) (h.queued id (Memᴰ.head refl))))
    ];
    first = λ c m e. visit_first (h.first c m e);
    closed = λ c m k. elim (Memᴰ.cases_cons k) [
      | inl e ↦ inl (Memᴰ.append_right rest (sources-Memᴰ id connections c m e))
      | inr v ↦ visit_first (h.closed c m v)
    ];
    plain = λ a n k e. elim (Memᴰ.cases_cons k) [
      | inl same ↦ no_config n (sym (ap (λ (x : String). find_by Node.id x nodes) same) ∙ e)
      | inr v ↦ h.plain a n v e
    ];
  }

  pub IsSearch-end :
      {visited : List String}
      → IsSearch [] visited
      → {a : String} → Upstream connections target a
      → Memᴰ a visited
  IsSearch-end h (direct c m e) = elim (h.first c m e) [
    | inl q ↦ absurd (Memᴰ.not-nil q)
    | inr v ↦ v
  ]
  IsSearch-end h (further c m u) = elim (h.closed c m (IsSearch-end h u)) [
    | inl q ↦ absurd (Memᴰ.not-nil q)
    | inr v ↦ v
  ]
