-- ===== src/Cdc/Netlist.antt =====
-- The parsed design of tools/cdc_checker/parser.py, and the driver table and the combinational cone of
-- tools/cdc_checker/crossings.py. A dict of lists is the list of its entries in the order in which they
-- are added. `params` is left out: the parser alone reads it. A set is the list of its members.
use text.Mathlib.Text.{◌==◌ as str_eq}
use mind.Prelude.{
  ℕ, zero, suc, ◌+◌, String, Bool, true, false, List, [], ◌∷◌, ◌++◌, map, keep, length,
  if◌then◌else◌,
}
use mind.Prelude.Names.{has, add, flat_map}

pub data Direction : Type 0 where
  input output inout : Direction

pub record Port : Type 0 where
  pub name : String
  pub direction : Direction
  pub width : ℕ

pub record Assign : Type 0 where
  pub lhs : String
  pub rhs_ids : List String

pub data Kind : Type 0 where
  seq comb : Kind

-- `clocks` holds the edge and the signal of each event.
pub record AlwaysBlock : Type 0 where
  pub kind : Kind
  pub clocks : List (String × String)
  pub drivers : List Assign

-- `cell` is the name of the instantiated module.
pub record Instance : Type 0 where
  pub cell : String
  pub name : String
  pub connections : List (String × List String)

pub record Module : Type 0 where
  pub name : String
  pub ports : List (String × Port)
  pub widths : List (String × ℕ)
  pub assigns : List Assign
  pub always_blocks : List AlwaysBlock
  pub instances : List Instance

abbrev pub is_seq : Kind → Bool
is_seq seq = true
is_seq comb = false

-- `[driver for block in always_blocks if block.kind == "seq" for driver in block.drivers]`
unfoldable pub seq_drivers : Module → List Assign
seq_drivers m = flat_map (λ b. b.drivers) (keep (λ b. is_seq b.kind) m.always_blocks)

-- An entry of the driver table: the driven signal, and how it is driven from what.
pub record Driver : Type 0 where
  pub lhs : String
  pub kind : Kind
  pub rhs : List String

abbrev driver_of : Kind → Assign → Driver
driver_of k a = record { lhs = a.lhs; kind = k; rhs = a.rhs_ids }

-- `_build_drivers`
unfoldable pub build_drivers : Module → List Driver
build_drivers m =
    map (driver_of comb) m.assigns
    ++ flat_map (λ b. map (driver_of b.kind) b.drivers) m.always_blocks

-- `drivers.get(node)`: a signal with no driver has no entry.
unfoldable pub edges_of : List Driver → String → List Driver
edges_of drivers node = keep (λ d. str_eq d.lhs node) drivers

-- The state of the loop in `comb_cone`; the top of the stack is its head.
pub record Search : Type 0 where
  pub stack : List String
  pub visited : List String
  pub found : List String

-- `stack.extend(xs)`
unfoldable pub extend : List String → List String → List String
extend [] stack = stack
extend (x ∷ xs) stack = extend xs (x ∷ stack)

-- The loop over the edges of a node.
unfoldable pub scan_edges : String → List Driver → Search → Search
scan_edges node [] s = s
scan_edges node (d ∷ ds) s = scan_edges node ds (elim d.kind [
  | seq ↦ record s { found = add node s.found }
  | comb ↦ record s { stack = extend d.rhs s.stack }
])

-- `if not edges: found.add(node)`
unfoldable pub expand : String → List Driver → Search → Search
unfolding scan_edges
expand node [] s = record s { found = add node s.found }
expand node (d ∷ ds) s = scan_edges node (d ∷ ds) s

-- The body of the loop, behind the test for a visited node.
unfoldable pub visit : List Driver → String → Search → Search
visit drivers node s = expand node (edges_of drivers node) (record s { visited = node ∷ s.visited })

unfoldable pub cone_step : List Driver → String → Search → Search
cone_step drivers node s = if has node s.visited then s else visit drivers node s

unfoldable pub cone_loop : List Driver → ℕ → Search → Search
cone_loop drivers zero s = s
cone_loop drivers (suc fuel) s = elim s.stack [
  | [] ↦ s
  | node ∷ rest ↦ cone_loop drivers fuel (cone_step drivers node (record s { stack = rest }))
]

-- The size of the right-hand sides: a node pushes those of its own drivers, once.
unfoldable pub table_size : List Driver → ℕ
table_size [] = 0
table_size (d ∷ ds) = length d.rhs + table_size ds

-- `comb_cone`
unfoldable pub comb_cone : Module → List String → List String
comb_cone m seeds =
    (cone_loop (build_drivers m) (length seeds + table_size (build_drivers m))
      (record { stack = extend seeds []; visited = []; found = [] })).found
