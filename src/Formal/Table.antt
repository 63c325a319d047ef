-- ===== src/Formal/Table.antt =====
-- The truth table of src/mind3/core/formal_templates.py: _p3c_variables, _p3c_evaluate and
-- _p3c_table_tautology. A dictionary is an association list, and a missing key an answer.
use Prim.Native.Nat.{Ordering}
use Prim.Native.String.{◌++◌ as append, compare}
use text.Mathlib.Text.{◌==◌ as str_eq}
use mind.Prelude.{
  ℕ, zero, suc, ◌/◌, ◌%◌, ◌^◌, String, Bool, true, false, not, Option, none, some, List, [], ◌∷◌,
  length, if◌then◌else◌, ◌==◌, ltb,
}
use mind.Formal.Scan.{occurs_in, count_of, partition}
use mind.Formal.Token.{Unicode}
use mind.Formal.Node.{Node, const, var, not_node, and_node, or_node}
use mind.Formal.Parser.{Parsed, parsed, abstain, out_of_fuel, parse}

-- A set of names is the sorted list that `sorted` makes of it.
unfoldable pub insert : String → List String → List String
insert x [] = x ∷ []
insert x (y ∷ ys) = elim (compare x y) [
  | Ordering.lt ↦ x ∷ y ∷ ys
  | Ordering.eq ↦ y ∷ ys
  | Ordering.gt ↦ y ∷ insert x ys
]

unfoldable pub union : List String → List String → List String
unfolding insert
union [] ys = ys
union (x ∷ xs) ys = insert x (union xs ys)

-- `sorted(_p3c_variables(node))`
unfoldable pub variables : Node → List String
unfolding union
variables (const b) = []
variables (var x) = x ∷ []
variables (not_node a) = variables a
variables (and_node a b) = union (variables a) (variables b)
variables (or_node a b) = union (variables a) (variables b)

abbrev pub Env : Type 0
Env = List (String × Bool)

-- `env[name]`; `none` is the KeyError.
unfoldable pub lookup : String → Env → Option Bool
lookup x [] = none
lookup x ((y, b) ∷ env) = if str_eq x y then some b else lookup x env

-- `_p3c_evaluate`, which reads the right operand only where the left one does not decide.
unfoldable pub evaluate : Node → Env → Option Bool
unfolding lookup
evaluate (const b) env = some b
evaluate (var x) env = lookup x env
evaluate (not_node a) env = elim (evaluate a env) [ none ↦ none | some b ↦ some (not b) ]
evaluate (and_node a b) env = elim (evaluate a env) [
  | none ↦ none
  | some true ↦ evaluate b env
  | some false ↦ some false
]
evaluate (or_node a b) env = elim (evaluate a env) [
  | none ↦ none
  | some true ↦ some true
  | some false ↦ evaluate b env
]

infix 60 ◌>>◌
abbrev pub ◌>>◌ : ℕ → ℕ → ℕ
bits >> zero = bits
bits >> suc i = (bits >> i) / 2

-- `{name: bool((bits >> i) & 1) for i, name in enumerate(variables)}`, from the index `i` on.
unfoldable pub assign : ℕ → ℕ → List String → Env
assign bits i [] = []
assign bits i (x ∷ xs) = (x, (bits >> i) % 2 == 1) ∷ assign bits (suc i) xs

pub data Answer : Type 0 where
  answered : Bool → Answer
  key_error : Answer
  no_fuel : Answer

-- The loop over the rows of the table that are left, from the row `bits` on.
unfoldable pub all_rows : Node → List String → ℕ → ℕ → Answer
unfolding evaluate assign
all_rows node names zero bits = answered true
all_rows node names (suc left) bits = elim (evaluate node (assign bits 0 names)) [
  | none ↦ key_error
  | some true ↦ all_rows node names left (suc bits)
  | some false ↦ answered false
]

abbrev pub max_variables : ℕ
max_variables = 8

unfoldable pub decide : Parsed → Answer
unfolding all_rows variables
decide abstain = answered false
decide out_of_fuel = no_fuel
decide (parsed node rest) =
    let names = variables node in
    if ltb max_variables (length names)
    then answered false
    else all_rows node names (2 ^ length names) 0

-- The text that is parsed: an implication becomes a disjunction.
unfoldable pub implication_body : String → String
unfolding occurs_in partition
implication_body text =
    let (left, right) = partition "|->" text in
    if occurs_in "|->" text
    then append "(!(" (append left (append ")) || (" (append right ")")))
    else text

-- `_p3c_table_tautology`
unfoldable pub table_tautology : Unicode → String → Answer
unfolding occurs_in count_of implication_body parse decide
table_tautology u text =
    if occurs_in "|=>" text
    then answered false
    else if ltb 1 (count_of "|->" text)
    then answered false
    else decide (parse u (implication_body text))
