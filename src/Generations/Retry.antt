-- ===== src/Generations/Retry.antt =====
-- findRetrySourceNode of frontend/src/adapters/canvas-generation-helpers.ts: the connections that its loop
-- follows.
pub mod Loop
pub mod Result
use mathlib.Core.List.Memᴰ
use canvas_standalone.Prelude.{
  ℕ, zero, suc, ◌+◌, ◌≤◌, String, Bool, true, false, not, ◌≡◌, ◌≢◌, refl, sym, ap, subst, ◌∙◌, ◌⊎◌,
  inl, inr, Option, none, some, List, [], ◌∷◌, ◌++◌, has, find_by, has-Memᴰ, find_by_key,
  length-append, length, if◌then◌else◌, ◌==◌, eq_iff, eq_refl, arith, Memᴰ, Bool-cases,
  Option-cases,
}
use canvas_standalone.Canvas.{Node, Connection}
use canvas_standalone.Generations.{
  sources, Found, found, not_found, out_of_fuel, is_config, search_source, find_retry_source,
}

-- the nodes from which the connections lead to `target`
pub data Upstream (connections : List Connection) (target : String) : String → Type 0 where
  direct :
      (c : Connection)
      → Memᴰ c connections
      → c.to_node_id ≡ target
      → Upstream connections target c.from_node_id
  further :
      (c : Connection)
      → Memᴰ c connections
      → Upstream connections target c.to_node_id
      → Upstream connections target c.from_node_id

pub sources-Memᴰ :
    (id : String) (cs : List Connection) (c : Connection)
    → Memᴰ c cs
    → c.to_node_id ≡ id
    → Memᴰ c.from_node_id (sources id cs)
unfolding sources
sources-Memᴰ id [] c m e = absurd (Memᴰ.not-nil m)
sources-Memᴰ id (x ∷ xs) c (Memᴰ.head p) e =
    let t : (x.to_node_id == id) ≡ true =
      (eq_iff x.to_node_id id).1 (sym (ap (λ (d : Connection). d.to_node_id) p) ∙ e) in
    rw t (Memᴰ.head (ap (λ (d : Connection). d.from_node_id) p))
sources-Memᴰ id (x ∷ xs) c (Memᴰ.tail m) e = elim (Bool-cases (x.to_node_id == id)) [
  | inl t ↦ rw t (Memᴰ.tail (sources-Memᴰ id xs c m e))
  | inr t ↦ rw t (sources-Memᴰ id xs c m e)
]

pub sources-Upstream :
    (id : String) (cs : List Connection) (a : String)
    → Memᴰ a (sources id cs)
    → (c : Connection) × Memᴰ c cs × (c.to_node_id ≡ id) × (c.from_node_id ≡ a)
unfolding sources
sources-Upstream id [] a m = absurd (Memᴰ.not-nil m)
sources-Upstream id (x ∷ xs) a m = elim (Bool-cases (x.to_node_id == id)) [
  | inl e ↦ elim (Memᴰ.cases_cons (rw e at m)) [
    | inl first ↦ (x, Memᴰ.head refl, (eq_iff x.to_node_id id).0 e, sym first)
    | inr later ↦
        let (c, k, to, from) = sources-Upstream id xs a later in (c, Memᴰ.tail k, to, from)
  ]
  | inr e ↦
      let (c, k, to, from) = sources-Upstream id xs a (rw e at m) in (c, Memᴰ.tail k, to, from)
]

-- the connections to the nodes that were not visited yet
unfoldable pub pending : List String → List Connection → ℕ
pending visited [] = 0
pending visited (c ∷ cs) = (if has c.to_node_id visited then 0 else 1) + pending visited cs

pub pending-visit :
    (id : String) (visited : List String) (cs : List Connection)
    → has id visited ≡ false
    → pending (id ∷ visited) cs + length (sources id cs) ≡ pending visited cs
unfolding pending sources
pending-visit id visited [] h = refl
pending-visit id visited (c ∷ cs) h =
    ground (arith, pending-visit id visited cs h, eq_iff id c.to_node_id, eq_iff c.to_node_id id)
