-- ===== src/Cdc/Complete.antt =====
-- The traversal of tools/cdc_checker/crossings.py reports on every source that its cone holds.
use text.Mathlib.Text.{◌==◌ as str_eq}
use text.Mathlib.TextEquality.{eq_iff}
use mathlib.Core.List.{Memᴰ}
use mathlib.Core.List.Memᴰ.{append_left}
use mind.Prelude.{
  ℕ, zero, suc, ◌<◌, String, false, List, [], ◌∷◌, length, ◌≡◌, refl, sym, subst, ◌∙◌, ◌⊎◌, inl,
  inr, Bool-cases, arith,
}
use mind.Prelude.Names.{has, mem-flat_map}
use mind.Cdc.Netlist.{Driver, edges_of}
use mind.Cdc.Crossings.{Event, Cone, edge_events, node_events, trace_cone}
use mind.Cdc.Weight.{weight, weight-visit, total-one}
use mind.Cdc.Reach.{Feeds}

-- A way from a signal back to what feeds it through combinational logic, outside a list of signals.
pub data Walk (drivers : List Driver) (avoid : List String) (source : String)
    : String → Type 0 where
  stop : {x : String} → x ≡ source → has x avoid ≡ false → Walk drivers avoid source x
  go :
      {x y : String}
      → has x avoid ≡ false
      → Feeds (edges_of drivers x) y
      → Walk drivers avoid source y
      → Walk drivers avoid source x

module _ {drivers : List Driver} {source : String} where
  pub Walk-start :
      {avoid : List String} {x : String} → Walk drivers avoid source x → has x avoid ≡ false
  Walk-start (stop e h) = h
  Walk-start (go h f w) = h

  -- A way that comes by `u` has an end that leaves `u` for good.
  last_visit :
      {avoid : List String} {x : String} (u : String)
      → Walk drivers avoid source x
      → Walk drivers (u ∷ avoid) source x
        ⊎ (u ≡ source)
        ⊎ ((y : String) × Feeds (edges_of drivers u) y × Walk drivers (u ∷ avoid) source y)
  unfolding has
  last_visit u (stop {x} e h) = elim (Bool-cases (str_eq x u)) [
    | inl p ↦ inr (inl (sym ((eq_iff x u).0 p) ∙ e))
    | inr p ↦ inl (stop e (rw p h))
  ]
  last_visit u (go {x} {y} h f w) = elim (last_visit u w) [
    | inr s ↦ inr s
    | inl w' ↦ elim (Bool-cases (str_eq x u)) [
      | inl p ↦ inr (inr (y, subst (λ z. Feeds (edges_of drivers z) y) ((eq_iff x u).0 p) f, w'))
      | inr p ↦ inl (go (rw p h) f w')
    ]
  ]

-- Some event of the list satisfies the predicate.
abbrev pub Reports : (Event → Type 0) → List Event → Type 0
Reports Q es = (e : Event) × Memᴰ e es × Q e

module _ (c : Cone) where
  -- The drivers whose signals are not on the path.
  abbrev open_drivers : List String → ℕ
  open_drivers = weight (λ d. 1) c.drivers

  node_events-mem :
      (node : String) (path : List String) (next : String → List Event) (ds : List Driver)
      {y : String} {e : Event}
      → Feeds ds y
      → Memᴰ e (next y)
      → Memᴰ e (node_events c node path next ds)
  unfolding node_events edge_events
  node_events-mem node path next [] f m = elim f.1 [ ]
  node_events-mem node path next (d ∷ ds) {y} {e} (x, k, q, r) m = append_left _ (
      mem-flat_map (edge_events c node path next) x e (d ∷ ds) k
        (rw q (mem-flat_map next y e x.rhs r m)))

  Feeds-length : (ds : List Driver) {y : String} → Feeds ds y → 0 < length ds
  Feeds-length [] f = elim f.1 [ ]
  Feeds-length (d ∷ ds) f = omega arith

  -- An event that every visit of the source reports is reported from where a way leads to it.
  pub trace_cone-Reports :
      (Q : Event → Type 0) (source : String)
      → ((fuel : ℕ) (path : List String)
          → has source path ≡ false
          → Reports Q (trace_cone c (suc fuel) path source))
      → (fuel : ℕ) (path : List String) (node : String) → Walk c.drivers path source node
      → open_drivers path < fuel
      → Reports Q (trace_cone c fuel path node)
  unfolding trace_cone has
  trace_cone-Reports Q source visit zero path node w h = absurd (omega arith)
  trace_cone-Reports Q source visit (suc fuel) path node w h = elim (last_visit node w) [
    | inl w' ↦ absurd (ground (arith, Walk-start w', (eq_iff node node).1 refl))
    | inr (inl e) ↦
        subst (λ z. Reports Q (trace_cone c (suc fuel) path z)) (sym e)
          (visit fuel path (rw e at (Walk-start w)))
    | inr (inr (y, f, w')) ↦
        let s = weight-visit (λ d. 1) c.drivers node path (Walk-start w) in
        let t = total-one (edges_of c.drivers node) in
        let l = Feeds-length (edges_of c.drivers node) f in
        let (e, m, q) =
          trace_cone-Reports Q source visit fuel (node ∷ path) y w' (omega (arith, s, t, l)) in
        let next = trace_cone c fuel (node ∷ path) in
        (
          e,
          rw (Walk-start w) (node_events-mem node (node ∷ path) next (edges_of c.drivers node) f m),
          q,
        )
  ]
