-- ===== src/Cdc/Always.antt =====
-- `_parse_sensitivity`, `_collect_statement`, `_parse_always` and `_parse_instance` of
-- tools/cdc_checker/parser.py. The state of the parser is the list of the tokens that are left; at its
-- end `next` gives the empty text, which is no token. A message quotes a token plainly.
use text.Mathlib.Text.{◌==◌ as str_eq}
use Prim.Native.String.{◌++◌ as append}
use mind.Prelude.{
  ℕ, ◌+◌, ◌-◌, String, true, false, ◌&&◌, ◌||◌, List, [], ◌∷◌, Option, none, some, if◌then◌else◌,
  leb, ◌==◌,
}
use mind.Prelude.Names.{has}
use mind.Cdc.Netlist.{AlwaysBlock, Kind, seq, comb}
use mind.Cdc.Tokens.{Parsed, ok, error, ◌>>=◌, is_name, opened, closed, split_top_commas}
use mind.Cdc.Statements.{collect_drivers}

-- An event of a sensitivity list; none makes the block combinational.
event_of : List String → Option (String × String)
event_of (edge ∷ sig ∷ []) =
    if (str_eq edge "posedge" || str_eq edge "negedge") && is_name sig
    then some (edge, sig)
    else none
event_of _ = none

add_event : String × String → Option (List (String × String)) → Option (List (String × String))
add_event e none = none
add_event e (some es) = some (e ∷ es)

events_of : List (List String) → Option (List (String × String))
unfolding event_of add_event
events_of [] = some []
events_of ([] ∷ parts) = events_of parts
events_of ((t ∷ ts) ∷ parts) =
    let rest = events_of parts in
    elim (event_of (t ∷ ts)) [ none ↦ none | some e ↦ add_event e rest ]

abbrev or_empty : Option (List (String × String)) → List (String × String)
or_empty none = []
or_empty (some es) = es

-- `_parse_sensitivity`: the list `["*"]` has no event either.
unfoldable pub parse_sensitivity : List String → List (String × String)
unfolding events_of
parse_sensitivity sens = or_empty (events_of (split_top_commas sens))

-- The tokens up to the parenthesis that closes the depth, and those behind it.
unfoldable pub read_parens : String → ℕ → List String → Parsed (List String × List String)
read_parens message depth [] = error message
read_parens message depth (t ∷ ts) = elim (str_eq t "(") [
  | true ↦ read_parens message (depth + 1) ts >>= λ r. ok (t ∷ r.0, r.1)
  | false ↦ elim (str_eq t ")") [
    | true ↦ elim (depth == 1) [
      | true ↦ ok ([], ts)
      | false ↦ read_parens message (depth - 1) ts >>= λ r. ok (t ∷ r.0, r.1)
    ]
    | false ↦ read_parens message depth ts >>= λ r. ok (t ∷ r.0, r.1)
  ]
]

-- The tokens of a begin-end block behind its first token.
unfoldable pub read_block : ℕ → List String → Parsed (List String × List String)
read_block depth [] = error "Unterminated begin/end block."
read_block depth (t ∷ ts) = elim (str_eq t "begin") [
  | true ↦ read_block (depth + 1) ts >>= λ r. ok (t ∷ r.0, r.1)
  | false ↦ elim (str_eq t "end") [
    | true ↦ elim (depth == 1) [
      | true ↦ ok (t ∷ [], ts)
      | false ↦ read_block (depth - 1) ts >>= λ r. ok (t ∷ r.0, r.1)
    ]
    | false ↦ read_block depth ts >>= λ r. ok (t ∷ r.0, r.1)
  ]
]

-- A statement up to its semicolon, by the counts of the brackets.
unfoldable pub read_statement : ℕ → ℕ → List String → Parsed (List String × List String)
read_statement o c [] = error "Unterminated statement."
read_statement o c (t ∷ ts) =
    let rest = read_statement (opened t o) (closed t c) ts >>= λ r. ok (t ∷ r.0, r.1) in
    if str_eq t ";" && leb (opened t o) (closed t c) then ok (t ∷ [], ts) else rest

-- `_collect_statement`
unfoldable pub collect_statement : List String → Parsed (List String × List String)
unfolding read_block read_statement
collect_statement [] = error "Unterminated statement."
collect_statement (t ∷ ts) =
    if str_eq t "begin"
    then (read_block 1 ts >>= λ r. ok (t ∷ r.0, r.1))
    else if str_eq t "for"
    then error "'for' loops are outside the enforced subset."
    else if has t ("function" ∷ "task" ∷ "generate" ∷ [])
    then error (append "'" (append t "' blocks are outside the enforced subset."))
    else read_statement 0 0 (t ∷ ts)

-- `expect`
unfoldable pub expect : String → List String → Parsed (List String)
expect tok [] = error (append "Expected '" (append tok "', found ''."))
expect tok (t ∷ ts) =
    if str_eq t tok
    then ok ts
    else error (append "Expected '" (append tok (append "', found '" (append t "'."))))

-- The events behind `@`, and the tokens behind them.
unfoldable pub read_events : List String → Parsed (List (String × String) × List String)
unfolding read_parens
read_events [] = expect "(" [] >>= λ ts. ok ([], ts)
read_events (t ∷ ts) =
    if str_eq t "*"
    then ok ([], ts)
    else expect "(" (t ∷ ts) >>= λ us.
        read_parens "Unterminated sensitivity list." 1 us >>= λ r. ok (parse_sensitivity r.0, r.1)

-- The sensitivity of a block, by its keyword.
unfoldable pub read_sensitivity :
    String → List String → Parsed (List (String × String) × List String)
unfolding read_events
read_sensitivity keyword [] =
    if str_eq keyword "always_ff"
    then error "always_ff requires an event sensitivity list."
    else ok ([], [])
read_sensitivity keyword (t ∷ ts) =
    if str_eq t "@"
    then read_events ts
    else if str_eq keyword "always_ff"
    then error "always_ff requires an event sensitivity list."
    else ok ([], t ∷ ts)

abbrev kind_of : List (String × String) → Kind
kind_of [] = comb
kind_of (e ∷ es) = seq

-- `_parse_always`, from the keyword on.
unfoldable pub parse_always : String → List String → Parsed (AlwaysBlock × List String)
unfolding read_sensitivity collect_statement
parse_always keyword ts = read_sensitivity keyword ts >>= λ s. collect_statement s.1 >>= λ b.
    collect_drivers b.0 >>= λ drivers.
    ok (record { kind = kind_of s.0; clocks = s.0; drivers = drivers }, b.1)
