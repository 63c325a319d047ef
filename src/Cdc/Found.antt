-- ===== src/Cdc/Found.antt =====
-- What a visit of a source reports in `_trace_cone` of tools/cdc_checker/crossings.py.
use text.Mathlib.Text.{◌==◌ as str_eq}
use mathlib.Core.List.{Memᴰ}
use mathlib.Core.List.Memᴰ.{head, append_left, append_right}
use mind.Prelude.{
  ℕ, suc, String, true, false, List, [], ◌∷◌, none, some, ◌≡◌, refl, inl, inr, Bool-cases,
}
use mind.Prelude.Names.{has, mem-flat_map}
use mind.Cdc.Netlist.{Driver, edges_of}
use mind.Cdc.Domains.{domain_of}
use mind.Cdc.Crossings.{
  RawCrossing, Event, crossing, hit, Cone, crossing_at, seq_event, edge_events, node_events,
  trace_cone,
}
use mind.Cdc.Reach.{Clocked}
use mind.Cdc.Complete.{Reports}

-- The event is a crossing from the source to the flop.
abbrev pub IsCrossing : String → String → Event → Type 0
IsCrossing source dest e =
    (x : RawCrossing) × (e ≡ crossing x) × (x.source ≡ source) × (x.dest ≡ dest)

module _ (c : Cone) where
  node_events-Clocked :
      (node : String) (path : List String) (next : String → List Event) (ds : List Driver)
      (e : Event)
      → Clocked ds
      → Memᴰ e (seq_event c node path (domain_of c.domains node))
      → Memᴰ e (node_events c node path next ds)
  unfolding node_events edge_events
  node_events-Clocked node path next [] e k m = elim k.1 [ ]
  node_events-Clocked node path next (d ∷ ds) e (x, k, q) m =
      append_left _ (mem-flat_map (edge_events c node path next) x e (d ∷ ds) k (rw q m))

  module _ (source : String) (fuel : ℕ) (path : List String) (new : has source path ≡ false) where
    -- A visit of a register of another domain reports a crossing.
    pub visit-IsCrossing :
        (e : String)
        → Clocked (edges_of c.drivers source)
        → domain_of c.domains source ≡ some e
        → str_eq e c.dest_domain ≡ false
        → Reports (IsCrossing source c.dest) (trace_cone c (suc fuel) path source)
    unfolding trace_cone seq_event crossing_at
    visit-IsCrossing e k d n =
        let next = trace_cone c fuel (source ∷ path) in
        let x = crossing_at c source (source ∷ path) e in
        rw new (
          crossing x,
          node_events-Clocked source (source ∷ path) next (edges_of c.drivers source) (crossing x) k
              (rw (d, n) (head refl)),
          (x, refl, refl, refl),
        )

    -- A visit of a register whose domain is unknown reports a hit.
    pub visit-unknown :
        Clocked (edges_of c.drivers source)
        → domain_of c.domains source ≡ none
        → Reports (λ e. e ≡ hit c.dest source) (trace_cone c (suc fuel) path source)
    unfolding trace_cone seq_event
    visit-unknown k d =
        let next = trace_cone c fuel (source ∷ path) in
        rw new (
          hit c.dest source,
          node_events-Clocked source (source ∷ path) next (edges_of c.drivers source)
              (hit c.dest source) k (rw d (head refl)),
          refl,
        )

    -- A visit of an undriven signal that is no port reports a hit.
    pub visit-undriven :
        edges_of c.drivers source ≡ []
        → has source c.ports ≡ false
        → Reports (λ e. e ≡ hit c.dest source) (trace_cone c (suc fuel) path source)
    unfolding trace_cone node_events
    visit-undriven n p = elim (Bool-cases (has source c.boundary)) [
      | inl q ↦ rw (new, n, q) (hit c.dest source, head refl, refl)
      | inr q ↦ rw (new, n, q, p) (hit c.dest source, head refl, refl)
    ]

    node_events-boundary :
        (node : String) (p : List String) (next : String → List Event) (ds : List Driver)
        → has node c.boundary ≡ true
        → Memᴰ (hit c.dest node) (node_events c node p next ds)
    unfolding node_events
    node_events-boundary node p next [] q = rw q (head refl)
    node_events-boundary node p next (d ∷ ds) q = rw q (append_right _ (head refl))

    -- A visit of a signal that an instance is connected to reports a hit.
    pub visit-boundary :
        has source c.boundary ≡ true
        → Reports (λ e. e ≡ hit c.dest source) (trace_cone c (suc fuel) path source)
    unfolding trace_cone
    visit-boundary q =
        let next = trace_cone c fuel (source ∷ path) in
        rw new (
          hit c.dest source,
          node_events-boundary source (source ∷ path) next (edges_of c.drivers source) q,
          refl,
        )
