-- ===== src/Cdc/Into.antt =====
-- The crossings that `_trace_cone` of tools/cdc_checker/crossings.py reports are into its flop.
use text.Mathlib.Text.{◌==◌ as str_eq}
use mathlib.Core.List.{Memᴰ}
use mathlib.Core.List.Memᴰ.{append_cases, eq_of_singleton}
use mind.Prelude.{
  ℕ, zero, suc, String, Bool, true, false, List, [], ◌∷◌, if◌then◌else◌, none, some, ◌≡◌, refl, sym,
  subst, inl, inr, Bool-cases,
}
use mind.Prelude.Names.{has, flat_map, flat_map-mem}
use mind.Cdc.Netlist.{Driver, seq, comb, edges_of}
use mind.Cdc.Domains.{Domain, domain_of}
use mind.Cdc.Crossings.{
  Event, crossing, hit, Cone, crossing_at, seq_event, edge_events, node_events, trace_cone,
}

module _ (c : Cone) where
  -- Every crossing is into the flop and its domain.
  abbrev pub IsInto : Event → Type 0
  IsInto (crossing x) = (x.dest ≡ c.dest) × (x.dest_domain ≡ c.dest_domain)
  IsInto (hit dest node) = dest ≡ c.dest

  seq_event-IsInto :
      (node : String) (path : List String) (d : Domain) (e : Event)
      → Memᴰ e (seq_event c node path d)
      → IsInto e
  unfolding seq_event crossing_at
  seq_event-IsInto node path none e = λ m. subst IsInto (sym (eq_of_singleton m)) refl
  seq_event-IsInto node path (some d) e = elim (Bool-cases (str_eq d c.dest_domain)) [
    | inl p ↦ rw p (λ m. elim m [ ])
    | inr p ↦ rw p (λ m. subst IsInto (sym (eq_of_singleton m)) (refl, refl))
  ]

  module _ (node : String) (path : List String) (next : String → List Event)
      (ih : (y : String) (e : Event) → Memᴰ e (next y) → IsInto e) where
    edge_events-IsInto :
        (d : Driver) (e : Event) → Memᴰ e (edge_events c node path next d) → IsInto e
    unfolding edge_events
    edge_events-IsInto d e =
        elim d.kind
          as (λ k.
            Memᴰ e (elim k [
              | seq ↦ seq_event c node path (domain_of c.domains node)
              | comb ↦ flat_map next d.rhs
            ])
            → IsInto e) [
              | seq ↦ λ m. seq_event-IsInto node path (domain_of c.domains node) e m
              | comb ↦ λ m. let (y, k, r) = flat_map-mem next e d.rhs m in ih y e r
            ]

    one_hit-IsInto :
        (b : Bool) (e : Event) → Memᴰ e (if b then hit c.dest node ∷ [] else []) → IsInto e
    one_hit-IsInto true e m = subst IsInto (sym (eq_of_singleton m)) refl
    one_hit-IsInto false e m = elim m [ ]

    node_events-IsInto :
        (ds : List Driver) (e : Event) → Memᴰ e (node_events c node path next ds) → IsInto e
    unfolding node_events
    node_events-IsInto [] e = elim (Bool-cases (has node c.boundary)) [
      | inl p ↦ rw p (λ m. subst IsInto (sym (eq_of_singleton m)) refl)
      | inr p ↦ elim (Bool-cases (has node c.ports)) [
        | inl q ↦ rw (p, q) (λ m. elim m [ ])
        | inr q ↦ rw (p, q) (λ m. subst IsInto (sym (eq_of_singleton m)) refl)
      ]
    ]
    node_events-IsInto (d ∷ ds) e = λ m.
        elim (append_cases (flat_map (edge_events c node path next) (d ∷ ds)) m) [
          | inl k ↦
              let (x, l, r) = flat_map-mem (edge_events c node path next) e (d ∷ ds) k in
              edge_events-IsInto x e r
          | inr k ↦ one_hit-IsInto (has node c.boundary) e k
        ]

  pub trace_cone-IsInto :
      (fuel : ℕ) (path : List String) (node : String) (e : Event)
      → Memᴰ e (trace_cone c fuel path node)
      → IsInto e
  unfolding trace_cone
  trace_cone-IsInto zero path node e = λ m. elim m [ ]
  trace_cone-IsInto (suc fuel) path node e = elim (Bool-cases (has node path)) [
    | inl p ↦ rw p (λ m. elim m [ ])
    | inr p ↦ rw p (
        node_events-IsInto node (node ∷ path) (trace_cone c fuel (node ∷ path))
          (λ y e' m. trace_cone-IsInto fuel (node ∷ path) y e' m) (edges_of c.drivers node) e)
  ]
