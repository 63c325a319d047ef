-- ===== src/Cdc/Domains.antt =====
-- tools/cdc_checker/clocks.py: the clock domain of each register. Names are ASCII identifiers.
use text.Mathlib.Text.{◌==◌ as str_eq}
use Prim.Native.Char.{Char, code}
use Prim.Native.String.{count}
use mind.Prelude.{
  String, Bool, true, false, ◌&&◌, ◌||◌, List, [], ◌∷◌, ◌++◌, Option, none, some, map, any,
  if◌then◌else◌, leb, ◌==◌,
}
use mind.Prelude.Names.{add}
use mind.Formal.Node.{lower}
use mind.Formal.Scan.{starts_with, drop_text}
use mind.Formal.Table.{union}
use mind.Cdc.Netlist.{Assign, AlwaysBlock, Module, seq, comb}

unfoldable pub is_word : Char → Bool
is_word c =
    leb 48 (code c) && leb (code c) 57
    || leb 65 (code c) && leb (code c) 90
    || leb 97 (code c) && leb (code c) 122
    || code c == 95

unfoldable pub all_word : String → Bool
unfolding is_word
all_word String.[] = true
all_word (String.◌∷◌ c s) = is_word c && all_word s

-- `is_reset_name`: the other alternatives of the pattern begin with one of these three.
unfoldable pub is_reset_name : String → Bool
unfolding all_word
is_reset_name name =
    any (λ p. starts_with p (lower name) && all_word (drop_text (count p) (lower name)))
      ("rst" ∷ "reset" ∷ "arst" ∷ [])

-- A set of domains, where `None` is the unknown one.
abbrev pub Domain : Type 0
Domain = Option String

unfoldable pub same_domain : Domain → Domain → Bool
same_domain none none = true
same_domain none (some b) = false
same_domain (some a) none = false
same_domain (some a) (some b) = str_eq a b

-- `doms.add(domain)`
unfoldable pub add_domain : Domain → List Domain → List Domain
unfolding same_domain
add_domain d ds = if any (same_domain d) ds then ds else ds ++ d ∷ []

pub record DomainMap : Type 0 where
  pub domains : List (String × Domain)
  pub clocks : List String
  pub single_domain : Option String

-- `domains.setdefault(lhs, set()).add(domain)`
unfoldable pub add_to : String → Domain → List (String × List Domain) → List (String × List Domain)
unfolding add_domain
add_to lhs d [] = (lhs, d ∷ []) ∷ []
add_to lhs d ((k, ds) ∷ entries) =
    let rest = add_to lhs d entries in
    if str_eq k lhs then (k, add_domain d ds) ∷ entries else (k, ds) ∷ rest

-- `sorted({sig for _, sig in block.clocks})`
unfoldable pub clock_signals : AlwaysBlock → List String
unfolding union
clock_signals b = union (map (λ c. c.1) b.clocks) []

-- The only item, or none.
unfoldable pub sole : List String → Option String
sole [] = none
sole (x ∷ []) = some x
sole (x ∷ y ∷ xs) = none

-- The only domain of a register; none where it is unknown or not the only one.
unfoldable pub resolve : List Domain → Domain
resolve [] = none
resolve (d ∷ []) = d
resolve (d ∷ e ∷ ds) = none

add_clocks : List String → List String → List String
add_clocks [] clocks = clocks
add_clocks (s ∷ sigs) clocks = add_clocks sigs (add s clocks)

add_drivers : Domain → List Assign → List (String × List Domain) → List (String × List Domain)
unfolding add_to
add_drivers d [] ds = ds
add_drivers d (a ∷ drivers) ds = add_drivers d drivers (add_to a.lhs d ds)

-- The loop over the blocks: the domains and the clocks.
unfoldable pub scan_blocks :
    List AlwaysBlock
    → List (String × List Domain) × List String
    → List (String × List Domain) × List String
unfolding clock_signals sole add_clocks add_drivers
scan_blocks [] acc = acc
scan_blocks (b ∷ blocks) (ds, clocks) = scan_blocks blocks (elim b.kind [
  | comb ↦ (ds, clocks)
  | seq ↦
      let sigs = clock_signals b in (add_drivers (sole sigs) b.drivers ds, add_clocks sigs clocks)
])

-- `assign_domains`
unfoldable pub assign_domains : Module → DomainMap
unfolding scan_blocks resolve sole
assign_domains m =
    let (ds, clocks) = scan_blocks m.always_blocks ([], []) in
    record {
      domains = map (λ e. (e.0, resolve e.1)) ds;
      clocks = clocks;
      single_domain = sole clocks;
    }

find_domain : List (String × Domain) → String → Domain
find_domain [] x = none
find_domain ((k, d) ∷ entries) x = if str_eq k x then d else find_domain entries x

-- `domain_map.domains.get(x)`
unfoldable pub domain_of : DomainMap → String → Domain
unfolding find_domain
domain_of dm x = find_domain dm.domains x
