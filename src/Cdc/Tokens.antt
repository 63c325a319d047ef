-- ===== src/Cdc/Tokens.antt =====
-- The token tests of tools/cdc_checker/parser.py and what they read of a list of tokens. A depth of
-- brackets is kept as the number of those that opened and of those that closed. Text is ASCII.
use text.Mathlib.Text.{◌==◌ as str_eq}
use Prim.Native.Char.{Char, code}
use Prim.Native.String.{◌++◌ as append}
use mind.Prelude.{
  ℕ, ◌+◌, String, Bool, true, false, not, ◌&&◌, ◌||◌, List, [], ◌∷◌, ◌++◌, if◌then◌else◌, leb, ◌==◌,
}
use mind.Prelude.Names.{has}
use mind.Formal.Scan.{occurs_in, starts_with}
use mind.Cdc.Domains.{is_word, all_word}

-- A value, or the message of an InputError.
pub data Parsed (A : Type 0) : Type 0 where
  ok : A → Parsed A
  error : String → Parsed A

infixl 5 ◌>>=◌
unfoldable pub ◌>>=◌ : {A B : Type 0} → Parsed A → (A → Parsed B) → Parsed B
ok a >>= f = f a
error e >>= f = error e

abbrev pub keyword_set : List String
keyword_set =
    "module" ∷ "endmodule" ∷ "input" ∷ "output" ∷ "inout" ∷ "wire" ∷ "reg" ∷ "logic" ∷ "parameter"
    ∷ "localparam" ∷ "assign" ∷ "always" ∷ "always_ff" ∷ "always_comb" ∷ "always_latch" ∷ "begin"
    ∷ "end" ∷ "if" ∷ "else" ∷ "case" ∷ "endcase" ∷ "casex" ∷ "casez" ∷ "default" ∷ "for" ∷ "while"
    ∷ "do" ∷ "foreach" ∷ "function" ∷ "endfunction" ∷ "task" ∷ "endtask" ∷ "generate"
    ∷ "endgenerate" ∷ "genvar" ∷ "interface" ∷ "endinterface" ∷ "package" ∷ "endpackage" ∷ "import"
    ∷ "typedef" ∷ "struct" ∷ "union" ∷ "assert" ∷ "assume" ∷ "cover" ∷ "property" ∷ "sequence"
    ∷ "posedge" ∷ "negedge" ∷ "edge" ∷ "or" ∷ "and" ∷ []

abbrev pub sys_funcs : List String
sys_funcs = "$clog2" ∷ "$bits" ∷ "$past" ∷ "$rose" ∷ "$fell" ∷ "$stable" ∷ []

-- `re.fullmatch(r"[A-Za-z_]\w*", tok)`
unfoldable pub is_name : String → Bool
unfolding is_word all_word
is_name String.[] = false
is_name (String.◌∷◌ c s) = is_word c && not (leb 48 (code c) && leb (code c) 57) && all_word s

is_digit : Char → Bool
is_digit c = leb 48 (code c) && leb (code c) 57

all_digits : String → Bool
unfolding is_digit
all_digits String.[] = true
all_digits (String.◌∷◌ c s) = is_digit c && all_digits s

one_of : String → Char → Bool
one_of String.[] c = false
one_of (String.◌∷◌ d s) c = (code c == code d) || one_of s c

all_of : String → String → Bool
unfolding one_of
all_of set String.[] = true
all_of set (String.◌∷◌ c s) = one_of set c && all_of set s

some_text : String → Bool
some_text String.[] = false
some_text (String.◌∷◌ c s) = true

-- What may follow the first digits of a number.
number_tail : String → Bool
unfolding one_of all_of all_digits some_text
number_tail String.[] = true
number_tail (String.◌∷◌ c String.[]) = false
number_tail (String.◌∷◌ c (String.◌∷◌ b s)) =
    (code c == code "'")
      && one_of "bBoOdDhH" b
      && some_text s
      && all_of "0123456789abcdefABCDEF_xXzZ?" s
    || (code c == code ".") && all_digits (String.◌∷◌ b s)

number_rest : String → Bool
unfolding is_digit number_tail
number_rest String.[] = true
number_rest (String.◌∷◌ c s) = if is_digit c then number_rest s else number_tail (String.◌∷◌ c s)

-- `_is_number`
unfoldable pub is_number : String → Bool
unfolding is_digit number_rest
is_number String.[] = false
is_number (String.◌∷◌ c s) = is_digit c && number_rest s

cons_ok : String → Parsed (List String) → Parsed (List String)
cons_ok tok (ok refs) = ok (tok ∷ refs)
cons_ok tok (error e) = error e

-- `identifiers_of`
unfoldable pub identifiers_of : List String → Parsed (List String)
unfolding cons_ok is_number is_name
identifiers_of [] = ok []
identifiers_of (tok ∷ toks) =
    let rest = identifiers_of toks in
    if has tok sys_funcs && not (has tok ("$clog2" ∷ "$bits" ∷ []))
    then error (append "Temporal/system construct " (append tok " outside the subset."))
    else if starts_with "$" tok
    then rest
    else if has tok keyword_set
    then rest
    else if is_number tok || starts_with "\"" tok
    then rest
    else if is_name tok
    then cons_ok tok rest
    else rest

-- `tok in "(["` and `tok in ")]"`
abbrev pub is_open : String → Bool
is_open tok = occurs_in tok "(["

abbrev pub is_close : String → Bool
is_close tok = occurs_in tok ")]"

-- The counts behind a token: `if is_open … elif is_close …`.
abbrev pub opened : String → ℕ → ℕ
opened tok o = if is_open tok then o + 1 else o

abbrev pub closed : String → ℕ → ℕ
closed tok c = if is_open tok then c else if is_close tok then c + 1 else c

-- The parts at a separator outside brackets; `cur` is the part that is being read. The last part is
-- kept by `last`.
split_at_top :
    String
    → (ℕ → ℕ → Bool)
    → (List String → List (List String))
    → ℕ
    → ℕ
    → List String
    → List String
    → List (List String)
split_at_top sep top last o c cur [] = last cur
split_at_top sep top last o c cur (tok ∷ toks) =
    let next = split_at_top sep top last (opened tok o) (closed tok c) [] toks in
    let longer = split_at_top sep top last (opened tok o) (closed tok c) (cur ++ tok ∷ []) toks in
    if str_eq tok sep && top (opened tok o) (closed tok c) then cur ∷ next else longer

keep_last : List String → List (List String)
keep_last [] = []
keep_last (t ∷ ts) = (t ∷ ts) ∷ []

-- `_split_top_commas`
unfoldable pub split_top_commas : List String → List (List String)
unfolding split_at_top keep_last
split_top_commas toks = split_at_top "," (λ o c. o == c) keep_last 0 0 [] toks

-- The statements of `_collect_drivers`: the tokens behind the last semicolon are dropped.
unfoldable pub split_statements : List String → List (List String)
unfolding split_at_top
split_statements body = split_at_top ";" (λ o c. leb o c) (λ cur. []) 0 0 [] body
