-- ===== src/Cdc/Crossings.antt =====
-- `_trace_cone` and `analyze` of tools/cdc_checker/crossings.py. What a call appends to the crossings and
-- to the unknown hits is the list that it returns.
use text.Mathlib.Text.{◌==◌ as str_eq}
use Prim.Native.Nat.{Ordering}
use Prim.Native.String.{compare}
use mind.Prelude.{
  ℕ, zero, suc, ◌+◌, String, Bool, ◌&&◌, ◌||◌, List, [], ◌∷◌, ◌++◌, none, some, map, any, length,
  if◌then◌else◌,
}
use mind.Prelude.Names.{has, flat_map}
use mind.Cdc.Netlist.{Assign, Module, seq, comb, seq_drivers, Driver, build_drivers, edges_of}
use mind.Cdc.Domains.{Domain, DomainMap, domain_of, is_reset_name}

pub record RawCrossing : Type 0 where
  pub source : String
  pub source_domain : Domain
  pub dest : String
  pub dest_domain : String
  pub path : List String
  pub reset_involved : Bool

-- A hit is a flop and the signal at which its cone met something unknown.
pub data Event : Type 0 where
  crossing : RawCrossing → Event
  hit : String → String → Event

-- Every signal that an instance is connected to.
unfoldable pub boundary_of : Module → List String
boundary_of m = flat_map (λ i. flat_map (λ c. c.1) i.connections) m.instances

-- The destination flop, its domain, and what the traversal reads.
pub record Cone : Type 0 where
  pub dest : String
  pub dest_domain : String
  pub drivers : List Driver
  pub boundary : List String
  pub ports : List String
  pub domains : DomainMap

unfoldable pub crossing_at : Cone → String → List String → String → RawCrossing
crossing_at c node path d = record {
  source = node;
  source_domain = some d;
  dest = c.dest;
  dest_domain = c.dest_domain;
  path = path;
  reset_involved = is_reset_name node || any is_reset_name path;
}

-- The event of a source that a sequential driver ends, by its domain.
unfoldable pub seq_event : Cone → String → List String → Domain → List Event
unfolding crossing_at
seq_event c node path none = hit c.dest node ∷ []
seq_event c node path (some d) =
    if str_eq d c.dest_domain then [] else crossing (crossing_at c node path d) ∷ []

-- One edge of a node; `go` is the traversal from a signal that feeds it.
unfoldable pub edge_events :
    Cone → String → List String → (String → List Event) → Driver → List Event
edge_events c node path go d = elim d.kind [
  | seq ↦ seq_event c node path (domain_of c.domains node)
  | comb ↦ flat_map go d.rhs
]

-- A node that is on no earlier place of the path.
unfoldable pub node_events :
    Cone → String → List String → (String → List Event) → List Driver → List Event
unfolding edge_events
node_events c node path go [] =
    if has node c.boundary
    then hit c.dest node ∷ []
    else if has node c.ports
    then []
    else hit c.dest node ∷ []
node_events c node path go (d ∷ ds) =
    flat_map (edge_events c node path go) (d ∷ ds)
    ++ (if has node c.boundary then hit c.dest node ∷ [] else [])

-- `_trace_cone`; the path is kept with its newest node first, as a crossing reports it.
unfoldable pub trace_cone : Cone → ℕ → List String → String → List Event
trace_cone c zero path node = []
trace_cone c (suc fuel) path node =
    if has node path
    then []
    else node_events c node (node ∷ path) (trace_cone c fuel (node ∷ path))
        (edges_of c.drivers node)

unfoldable pub cone_of : Module → DomainMap → String → String → Cone
cone_of m dm dest d = record {
  dest = dest;
  dest_domain = d;
  drivers = build_drivers m;
  boundary = boundary_of m;
  ports = map (λ p. p.0) m.ports;
  domains = dm;
}

-- The traversals for one driver of a flop. A path holds each driven signal once, and one more node.
unfoldable pub flop_events : Module → DomainMap → Domain → Assign → List Event
flop_events m dm none driver = hit driver.lhs driver.lhs ∷ []
flop_events m dm (some d) driver =
    flat_map
      (trace_cone (cone_of m dm driver.lhs d) (length (build_drivers m) + 1) (driver.lhs ∷ []))
      driver.rhs_ids

unfoldable pub events : Module → DomainMap → List Event
unfolding flop_events
events m dm = flat_map (λ a. flop_events m dm (domain_of dm a.lhs) a) (seq_drivers m)

unfoldable pub crossings_of : List Event → List RawCrossing
crossings_of [] = []
crossings_of (crossing c ∷ es) = c ∷ crossings_of es
crossings_of (hit d s ∷ es) = crossings_of es

unfoldable pub hits_of : List Event → List (String × String)
hits_of [] = []
hits_of (crossing c ∷ es) = hits_of es
hits_of (hit d s ∷ es) = (d, s) ∷ hits_of es

abbrev pub same_ends : RawCrossing → RawCrossing → Bool
same_ends c d = str_eq c.source d.source && str_eq c.dest d.dest

-- The crossings whose source and destination are not among those of `seen`.
unfoldable pub unique : List RawCrossing → List RawCrossing → List RawCrossing
unique seen [] = []
unique seen (c ∷ cs) =
    let fresh = c ∷ unique (c ∷ seen) cs in
    let rest = unique seen cs in if any (same_ends c) seen then rest else fresh

-- The order of pairs of texts.
unfoldable pub compare_hits : String × String → String × String → Ordering
compare_hits (a, b) (c, d) = elim (compare a c) [
  | Ordering.lt ↦ Ordering.lt
  | Ordering.eq ↦ compare b d
  | Ordering.gt ↦ Ordering.gt
]

unfoldable pub insert_hit : String × String → List (String × String) → List (String × String)
unfolding compare_hits
insert_hit h [] = h ∷ []
insert_hit h (k ∷ ks) = elim (compare_hits h k) [
  | Ordering.lt ↦ h ∷ k ∷ ks
  | Ordering.eq ↦ k ∷ ks
  | Ordering.gt ↦ k ∷ insert_hit h ks
]

-- `sorted(set(hits))`
unfoldable pub sort_hits : List (String × String) → List (String × String)
unfolding insert_hit
sort_hits [] = []
sort_hits (h ∷ hs) = insert_hit h (sort_hits hs)

pub record Analysis : Type 0 where
  pub crossings : List RawCrossing
  pub unknown_hits : List (String × String)
  pub domains : DomainMap

-- `analyze`
unfoldable pub analyze : Module → DomainMap → Analysis
unfolding events unique sort_hits
analyze m dm = record {
  crossings = unique [] (crossings_of (events m dm));
  unknown_hits = sort_hits (hits_of (events m dm));
  domains = dm;
}
