-- ===== src/Formal/Parser.antt =====
-- _p3c_parse of src/mind3/core/formal_templates.py: recursive descent over the tokens. A call that
-- does not consume a token and a call behind a token both cost one unit of fuel.
use mind.Prelude.{
  ℕ, zero, suc, ◌+◌, ◌*◌, String, Bool, true, false, Option, none, some, List, [], ◌∷◌, length,
}
use mind.Formal.Token.{
  Unicode, Kind, impl, and_op, or_op, eq_op, ne_op, not_op, lp, rp, ident, number, ws, Token, token,
  tokenize,
}
use mind.Formal.Node.{Node, var, not_node, and_node, or_node, fold_number, comparison}

-- A node with the tokens behind it, the exception _P3CAbstain, or no fuel.
pub data Parsed : Type 0 where
  parsed : Node → List Token → Parsed
  abstain : Parsed
  out_of_fuel : Parsed

infixl 1 ◌>>=◌
abbrev pub ◌>>=◌ : Parsed → (Node → List Token → Parsed) → Parsed
parsed a ts >>= f = f a ts
abstain >>= f = abstain
out_of_fuel >>= f = out_of_fuel

same_kind : Kind → Kind → Bool
same_kind impl impl = true
same_kind and_op and_op = true
same_kind or_op or_op = true
same_kind eq_op eq_op = true
same_kind ne_op ne_op = true
same_kind not_op not_op = true
same_kind lp lp = true
same_kind rp rp = true
same_kind ident ident = true
same_kind number number = true
same_kind ws ws = true
same_kind _ _ = false

-- `(tok := peek()) is not None and tok[0] == kind`
unfoldable pub peek_is : Kind → List Token → Bool
unfolding same_kind
peek_is kind [] = false
peek_is kind (token k _ ∷ ts) = same_kind kind k

-- `next_token()` behind a successful peek.
abbrev pub rest_of : List Token → List Token
rest_of [] = []
rest_of (t ∷ ts) = ts

-- The closing parenthesis of parse_primary.
unfoldable pub close : Node → List Token → Parsed
close node ts = elim (peek_is rp ts) [ true ↦ parsed node (rest_of ts) | false ↦ abstain ]

-- The check for trailing tokens.
unfoldable pub at_end : Node → List Token → Parsed
at_end node [] = parsed node []
at_end node (t ∷ ts) = abstain

module _ (u : Unicode) where
  unfoldable mutual
    pub parse_or : ℕ → List Token → Parsed
    parse_or zero ts = out_of_fuel
    parse_or (suc f) ts = parse_and f ts >>= λ left rest. or_rest f left rest

    -- The loop of parse_or.
    pub or_rest : ℕ → Node → List Token → Parsed
    or_rest zero left ts = out_of_fuel
    or_rest (suc f) left ts = elim (peek_is or_op ts) [
      | true ↦ parse_and f (rest_of ts) >>= λ right rest. or_rest f (or_node left right) rest
      | false ↦ parsed left ts
    ]

    pub parse_and : ℕ → List Token → Parsed
    parse_and zero ts = out_of_fuel
    parse_and (suc f) ts = parse_not f ts >>= λ left rest. and_rest f left rest

    -- The loop of parse_and.
    pub and_rest : ℕ → Node → List Token → Parsed
    and_rest zero left ts = out_of_fuel
    and_rest (suc f) left ts = elim (peek_is and_op ts) [
      | true ↦ parse_not f (rest_of ts) >>= λ right rest. and_rest f (and_node left right) rest
      | false ↦ parsed left ts
    ]

    pub parse_not : ℕ → List Token → Parsed
    parse_not zero ts = out_of_fuel
    parse_not (suc f) ts = elim (peek_is not_op ts) [
      | true ↦ parse_not f (rest_of ts) >>= λ node rest. parsed (not_node node) rest
      | false ↦ parse_cmp f ts
    ]

    pub parse_cmp : ℕ → List Token → Parsed
    parse_cmp zero ts = out_of_fuel
    parse_cmp (suc f) ts = parse_primary f ts >>= λ left rest. cmp_rest f left rest

    -- The comparison behind the first operand, if there is one.
    pub cmp_rest : ℕ → Node → List Token → Parsed
    cmp_rest zero left ts = out_of_fuel
    cmp_rest (suc f) left ts = elim (peek_is eq_op ts) [
      | true ↦
          parse_primary f (rest_of ts) >>= λ right rest. parsed (comparison true left right) rest
      | false ↦ elim (peek_is ne_op ts) [
        | true ↦
            parse_primary f (rest_of ts) >>= λ right rest. parsed (comparison false left right) rest
        | false ↦ parsed left ts
      ]
    ]

    pub parse_primary : ℕ → List Token → Parsed
    parse_primary zero ts = out_of_fuel
    parse_primary (suc f) (token ident x ∷ ts) = parsed (var x) ts
    parse_primary (suc f) (token number raw ∷ ts) = parsed (fold_number u raw) ts
    parse_primary (suc f) (token lp _ ∷ ts) = parse_or f ts >>= λ node rest. close node rest
    parse_primary (suc f) _ = abstain

  unfoldable pub parse_tokens : Option (List Token) → Parsed
  parse_tokens none = abstain
  parse_tokens (some []) = abstain
  parse_tokens (some (t ∷ ts)) = parse_or (6 * length (t ∷ ts) + 6) (t ∷ ts) >>= at_end

  -- `_p3c_parse`
  unfoldable pub parse : String → Parsed
  parse text = parse_tokens (tokenize u text)
