-- ===== src/Formal/Examples.antt =====
-- Runs of the tautology filter (src/mind3/core/formal_templates.py) on small properties.
use text.Mathlib.Text.{◌==◌ as str_eq}
use mind.Prelude.{Bool, true, false, ◌≡◌, refl, ◌↔◌, ◌⊎◌, [], ◌∷◌, arith}
use mind.Formal.Scan.{starts_with, occurs_in, count_of, partition}
use mind.Formal.Token.{Unicode, tokenize}
use mind.Formal.Node.{comparison, fold_number}
use mind.Formal.Parser.{peek_is, close, parse_or, parse_tokens, at_end, parse}
use mind.Formal.Table.{variables, decide, all_rows, answered, table_tautology, implication_body}
use mind.Formal.Fuel.{IsEnded, parse-IsEnded}
use mind.Formal.Strip.{
  is_wrapped, strip_outer_parens, strip, strip_left, strip_right, strip_pairs, inner, opens,
}
use mind.Formal.Unwrapped.{strip_outer_parens-unwrapped}
use mind.Formal.Structure.{
  normalize, collapse, is_tautology_expression, is_true_constant, same_sides,
  is_tautological_property_text,
}
use mind.Formal.Decided.{IsDecided}
use mind.Formal.Filter.{is_tautological_property_text_iff}
use mind.Formal.Split.{cons_first, split_from, split_top_level, join_parts}
use mind.Formal.Join.{split_top_level-join}
use mind.Formal.Proved.{IsProved, table_tautology_iff}

-- Texts in ASCII only.
abbrev ascii : Unicode
ascii = record { word = λ n. false; digit = λ n. false; space = λ n. false }

-- An equation is an atom whose operands are in order, and `1'b1` is the constant.
nested : parse ascii "!(a == b && c) || 1'b1" ≡ parse ascii "(!((b==a) && c)) || 1"
unfolding parse tokenize parse_tokens parse_or peek_is close comparison fold_number
nested = refl

self_implication : table_tautology ascii "req && ack |-> ack || done" ≡ answered true
unfolding table_tautology occurs_in count_of implication_body partition parse tokenize parse_tokens
    parse_or peek_is close at_end decide variables all_rows
self_implication = refl

open_choice : table_tautology ascii "req || !ack" ≡ answered false
unfolding table_tautology occurs_in count_of implication_body partition parse tokenize parse_tokens
    parse_or peek_is close at_end decide variables all_rows
open_choice = refl

-- A negation is parsed outside the comparison behind it.
loose_negation : table_tautology ascii "!a == b || a == b" ≡ answered true
unfolding table_tautology occurs_in count_of implication_body partition parse tokenize parse_tokens
    parse_or peek_is close at_end decide variables all_rows comparison
loose_negation = refl

parse-IsEnded_example : IsEnded (parse ascii "((a) && (b || !c))")
parse-IsEnded_example = parse-IsEnded ascii "((a) && (b || !c))"

table_tautology_iff_example :
    ((b : Bool) × (table_tautology ascii "req |-> req" ≡ answered b))
    × ((table_tautology ascii "req |-> req" ≡ answered true) ↔ IsProved ascii "req |-> req")
table_tautology_iff_example = table_tautology_iff ascii "req |-> req"

outside_parentheses : split_top_level "(a || b) || !c" "||" ≡ "(a || b) " ∷ " !c" ∷ []
unfolding split_top_level split_from cons_first starts_with
outside_parentheses = refl

split_top_level-join_example :
    join_parts "||" (split_top_level "(a || b) || !c" "||") ≡ "(a || b) || !c"
split_top_level-join_example = split_top_level-join "(a || b) || !c" "||" (omega arith)

strip_outer_parens-unwrapped_example :
    is_wrapped (strip_outer_parens ascii " ((a) || (b)) ") ≡ false
strip_outer_parens-unwrapped_example = strip_outer_parens-unwrapped ascii " ((a) || (b)) "

-- A slice is outside the table's alphabet: the structural check finds it.
slice_equal : is_tautological_property_text ascii "((bus[3:0] == bus[3:0]))" ≡ answered true
unfolding is_tautological_property_text normalize strip_pairs mind.Formal.Strip.text_length collapse
    strip strip_right strip_left mind.Formal.Token.is_space is_wrapped opens inner is_true_constant
    mind.Formal.Node.lower is_tautology_expression strip_outer_parens same_sides split_top_level
    split_from cons_first starts_with mind.Formal.Structure.excluded_middle
slice_equal = refl

is_tautological_property_text_iff_example :
    ((b : Bool) × (is_tautological_property_text ascii "a |-> a" ≡ answered b))
    × ((is_tautological_property_text ascii "a |-> a" ≡ answered true) ↔ (
        (str_eq (normalize ascii "a |-> a") "" ≡ false)
        × (IsDecided ascii (normalize ascii "a |-> a")
            ⊎ IsProved ascii (normalize ascii "a |-> a"))))
is_tautological_property_text_iff_example = is_tautological_property_text_iff ascii "a |-> a"
