-- ===== src/Formal/Structure.antt =====
-- is_tautology_expression, _p3c_normalize and is_tautological_property_text of
-- src/mind3/core/formal_templates.py.
use text.Mathlib.Text.{◌==◌ as str_eq}
use mind.Prelude.{String, Bool, true, false, not, ◌&&◌, ◌||◌, List, [], ◌∷◌, if◌then◌else◌, ◌==◌}
use mind.Formal.Scan.{occurs_in, count_of, partition, starts_with, drop_text}
use mind.Formal.Token.{Unicode, is_space}
use mind.Formal.Node.{lower}
use mind.Formal.Table.{Answer, answered, table_tautology}
use mind.Formal.Strip.{strip, text_length, strip_pairs, strip_outer_parens}
use mind.Formal.Split.{split_top_level}

-- `re.sub(r"\s+", " ", s)`, where `inside` tells that the character before was white space.
unfoldable pub collapse : Unicode → Bool → String → String
collapse u inside String.[] = ""
collapse u inside (String.◌∷◌ c s) =
    let space = is_space u c in
    let rest = collapse u space s in
    if not space then String.◌∷◌ c rest else if inside then rest else String.◌∷◌ " " rest

-- `_p3c_normalize`
unfoldable pub normalize : Unicode → String → String
normalize u text =
    let collapsed = collapse u false (strip u text) in
    strip_pairs u (text_length collapsed) collapsed

-- `_negated`
unfoldable pub negated : Unicode → String → String → Bool
negated u a b =
    (starts_with "!" a && str_eq (strip u (drop_text 1 a)) b)
    || (starts_with "~" a && str_eq (strip u (drop_text 1 a)) b)

-- `x == x`, on the parts around `==`.
unfoldable pub same_sides : Unicode → List String → Bool
same_sides u (left ∷ right ∷ []) =
    not (str_eq (strip u left) "") && str_eq (strip u left) (strip u right)
same_sides u _ = false

-- `a || !a`, on the parts around `||`.
unfoldable pub excluded_middle : Unicode → List String → Bool
excluded_middle u (l ∷ r ∷ []) =
    let left = strip_outer_parens u (strip u l) in
    let right = strip_outer_parens u (strip u r) in
    not (str_eq left "") && not (str_eq right "") && (negated u left right || negated u right left)
excluded_middle u _ = false

-- `is_tautology_expression`
unfoldable pub is_tautology_expression : Unicode → String → Bool
is_tautology_expression u expr =
    let e = strip_outer_parens u (strip u expr) in
    not (str_eq e "")
    && (same_sides u (split_top_level e "==") || excluded_middle u (split_top_level e "||"))

unfoldable pub is_true_constant : String → Bool
is_true_constant s = str_eq (lower s) "1'b1" || str_eq (lower s) "1"

unfoldable pub is_false_constant : String → Bool
is_false_constant s = str_eq (lower s) "1'b0" || str_eq (lower s) "0"

-- The implications that need no table: both sides are one text, or one side decides.
unfoldable pub decided_implication : Unicode → String → Bool
decided_implication u expr =
    let (l, r) = partition "|->" expr in
    let left = normalize u l in
    let right = normalize u r in
    occurs_in "|->" expr
    && not (occurs_in "|=>" expr)
    && count_of "|->" expr == 1
    && ((not (str_eq left "") && str_eq left right)
        || is_false_constant left
        || is_true_constant right)

-- `is_tautological_property_text`
unfoldable pub is_tautological_property_text : Unicode → String → Answer
is_tautological_property_text u text =
    let expr = normalize u text in
    if str_eq expr ""
    then answered false
    else if is_true_constant expr
    then answered true
    else if is_tautology_expression u expr
    then answered true
    else if decided_implication u expr
    then answered true
    else table_tautology u expr
