-- ===== src/Cdc/Statements.antt =====
-- The assignments of an always block in tools/cdc_checker/parser.py: `_lhs_targets` and
-- `_collect_drivers`.
use text.Mathlib.Text.{◌==◌ as str_eq}
use Prim.Native.String.{◌++◌ as append}
use mind.Prelude.{
  ℕ, zero, suc, ◌+◌, ◌-◌, String, Bool, true, false, not, ◌&&◌, ◌||◌, List, [], ◌∷◌, ◌++◌, keep,
  map, length, if◌then◌else◌, ◌==◌,
}
use mind.Prelude.Keep.{is_empty}
use mind.Prelude.Names.{has}
use mind.Cdc.Netlist.{Assign}
use mind.Cdc.Tokens.{
  Parsed, ok, error, ◌>>=◌, is_name, identifiers_of, is_open, is_close, opened, closed,
  split_top_commas, split_statements,
}

unfoldable pub join_tokens : List String → String
join_tokens [] = ""
join_tokens (t ∷ []) = t
join_tokens (t ∷ u ∷ ts) = append t (append " " (join_tokens (u ∷ ts)))

-- The loop over the chunks of a target.
unfoldable pub chunk_names : List (List String) → Parsed (List String)
unfolding join_tokens
chunk_names [] = ok []
chunk_names ([] ∷ chunks) = chunk_names chunks
chunk_names ((name ∷ toks) ∷ chunks) =
    let rest = chunk_names chunks in
    if is_name name
    then (rest >>= λ names. ok (name ∷ names))
    else error (append "Bad assignment target: " (join_tokens (name ∷ toks)))

some_targets : List String → Parsed (List String)
some_targets [] = error "Empty assignment target."
some_targets (t ∷ ts) = ok (t ∷ ts)

-- `_lhs_targets`
unfoldable pub lhs_targets : List String → Parsed (List String)
unfolding chunk_names some_targets
lhs_targets toks =
    chunk_names (split_top_commas (keep (λ t. not (str_eq t "{" || str_eq t "}")) toks))
    >>= some_targets

-- The tokens before and behind the first `sep`.
unfoldable pub before : String → List String → List String
before sep [] = []
before sep (t ∷ ts) = if str_eq t sep then [] else t ∷ before sep ts

unfoldable pub behind : String → List String → List String
behind sep [] = []
behind sep (t ∷ ts) = if str_eq t sep then ts else behind sep ts

-- The tokens behind the parenthesis that closes the first one, none if it is not closed.
unfoldable pub skip_parens : ℕ → List String → List String
skip_parens depth [] = []
skip_parens depth (t ∷ ts) = elim (str_eq t "(") [
  | true ↦ skip_parens (depth + 1) ts
  | false ↦ elim (str_eq t ")") [
    | true ↦ elim (depth == 1) [ true ↦ ts | false ↦ skip_parens (depth - 1) ts ]
    | false ↦ skip_parens depth ts
  ]
]

unfoldable pub starts_with_token : String → List String → Bool
starts_with_token t [] = false
starts_with_token t (u ∷ us) = str_eq u t

unfoldable pub skip_condition : List String → List String
unfolding skip_parens
skip_condition ts = if starts_with_token "(" ts then skip_parens 0 ts else ts

abbrev pub control_words : List String
control_words = "if" ∷ "else" ∷ "case" ∷ "casex" ∷ "casez" ∷ "default" ∷ "begin" ∷ "end" ∷ []

-- The loop that strips control words with their conditions; each round drops a token.
unfoldable pub strip_control : ℕ → List String → List String
strip_control zero ts = ts
strip_control (suc fuel) [] = []
strip_control (suc fuel) (t ∷ ts) = elim (has t control_words) [
  | true ↦ strip_control fuel (skip_condition ts)
  | false ↦ t ∷ ts
]

label_from : ℕ → ℕ → List String → List String → List String
label_from o c all [] = all
label_from o c all (t ∷ ts) =
    let rest = label_from (opened t o) (closed t c) all ts in
    if not (is_open t) && not (is_close t) && str_eq t ":" && (o == c) then ts else rest

-- The tokens behind the label of a case item.
unfoldable pub drop_label : List String → List String
unfolding label_from
drop_label ts = if has ":" ts then label_from 0 0 ts ts else ts

-- The drivers of an assignment to a stripped target.
unfoldable pub target_drivers : List String → List String → Parsed (List Assign)
target_drivers target rhs =
    if is_empty target || starts_with_token "(" target
    then ok []
    else lhs_targets target >>= λ names.
        identifiers_of rhs >>= λ ids. ok (map (λ n. record { lhs = n; rhs_ids = ids }) names)

-- The drivers of an assignment between the two lists of tokens.
unfoldable pub assign_drivers : List String → List String → Parsed (List Assign)
unfolding strip_control drop_label target_drivers
assign_drivers lhs rhs = target_drivers (drop_label (strip_control (length lhs) lhs)) rhs

-- One statement of `_collect_drivers`.
unfoldable pub statement_drivers : List String → Parsed (List Assign)
unfolding assign_drivers
statement_drivers stmt =
    if has "for" stmt || has "while" stmt
    then error "'for'/'while' loops are outside the enforced subset."
    else if has "<=" stmt
    then assign_drivers (before "<=" stmt) (behind "<=" stmt)
    else if has "=" stmt && not (starts_with_token "==" stmt)
    then assign_drivers (before "=" stmt) (behind "=" stmt)
    else ok []

all_drivers : List (List String) → Parsed (List Assign)
unfolding statement_drivers
all_drivers [] = ok []
all_drivers (stmt ∷ stmts) =
    let rest = all_drivers stmts in
    statement_drivers stmt >>= λ drivers. rest >>= λ more. ok (drivers ++ more)

-- `_collect_drivers`
unfoldable pub collect_drivers : List String → Parsed (List Assign)
unfolding all_drivers
collect_drivers body = all_drivers (split_statements body)
