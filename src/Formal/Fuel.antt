-- ===== src/Formal/Fuel.antt =====
-- The parser of src/mind3/core/formal_templates.py ends: _p3c_parse has fuel enough for every text.
use mind.Prelude.{
  ℕ, zero, suc, ◌+◌, ◌*◌, ◌≤◌, ◌<◌, String, Bool, true, false, Option, none, some, List, [], ◌∷◌,
  length, ◌≡◌, refl, ◌⊎◌, inl, inr, Bool-cases, arith,
}
use mind.Formal.Token.{
  Unicode, Kind, and_op, or_op, eq_op, ne_op, not_op, lp, rp, ident, number, Token, token, tokenize,
}
use mind.Formal.Node.{Node, and_node, or_node, comparison}
use mind.Formal.Parser.{
  Parsed, parsed, abstain, out_of_fuel, ◌>>=◌, peek_is, rest_of, close, parse_or, or_rest,
  parse_and, and_rest, parse_not, parse_cmp, cmp_rest, parse_primary, at_end, parse_tokens, parse,
}

-- There was fuel enough, and fewer than `n` tokens are left.
data Leaves (n : ℕ) : Parsed → Type 0 where
  left : {a : Node} {rest : List Token} → length rest < n → Leaves n (parsed a rest)
  refused : Leaves n abstain

bind-Leaves :
    (n m : ℕ) {p : Parsed} (f : Node → List Token → Parsed)
    → Leaves n p
    → ((a : Node) (rest : List Token) → length rest < n → Leaves m (f a rest))
    → Leaves m (p >>= f)
bind-Leaves n m f (left {a} {rest} h) g = g a rest h
bind-Leaves n m f refused g = refused

Leaves-mono : {n m : ℕ} {p : Parsed} → n ≤ m → Leaves n p → Leaves m p
Leaves-mono e (left h) = left (omega (arith, e, h))
Leaves-mono e refused = refused

peek_is-length :
    (kind : Kind) (ts : List Token) → peek_is kind ts ≡ true → length ts ≡ suc (length (rest_of ts))
unfolding peek_is
peek_is-length kind [] h = ground arith
peek_is-length kind (t ∷ ts) h = omega arith

close-Leaves : (node : Node) (ts : List Token) → Leaves (suc (length ts)) (close node ts)
unfolding close
close-Leaves node ts = elim (Bool-cases (peek_is rp ts)) [
  | inl p ↦ rw (p, close) (left (omega (arith, peek_is-length rp ts p)))
  | inr p ↦ rw (p, close) refused
]

-- A unit of fuel for every call: the six levels cost six units for each token.
record Enough (u : Unicode) (f : ℕ) : Type 0 where
  or : (ts : List Token) → 6 * length ts + 5 ≤ f → Leaves (length ts) (parse_or u f ts)
  or_loop :
      (a : Node) (ts : List Token)
      → 6 * length ts + 1 ≤ f
      → Leaves (suc (length ts)) (or_rest u f a ts)
  and : (ts : List Token) → 6 * length ts + 4 ≤ f → Leaves (length ts) (parse_and u f ts)
  and_loop :
      (a : Node) (ts : List Token)
      → 6 * length ts + 1 ≤ f
      → Leaves (suc (length ts)) (and_rest u f a ts)
  negation : (ts : List Token) → 6 * length ts + 3 ≤ f → Leaves (length ts) (parse_not u f ts)
  cmp : (ts : List Token) → 6 * length ts + 2 ≤ f → Leaves (length ts) (parse_cmp u f ts)
  cmp_loop :
      (a : Node) (ts : List Token)
      → 6 * length ts + 1 ≤ f
      → Leaves (suc (length ts)) (cmp_rest u f a ts)
  primary : (ts : List Token) → 6 * length ts + 1 ≤ f → Leaves (length ts) (parse_primary u f ts)

module _ (u : Unicode) (f : ℕ) (h : Enough u f) where
  primary-Enough :
      (ts : List Token)
      → 6 * length ts + 1 ≤ suc f
      → Leaves (length ts) (parse_primary u (suc f) ts)
  unfolding parse_primary
  primary-Enough [] e = refused
  primary-Enough (token ident x ∷ ts) e = left (omega arith)
  primary-Enough (token number x ∷ ts) e = left (omega arith)
  primary-Enough (token lp x ∷ ts) e =
      bind-Leaves (length ts) _ close (h.or ts (omega (arith, e)))
        (λ a rest l. Leaves-mono (omega (arith, l)) (close-Leaves a rest))
  primary-Enough (token _ x ∷ ts) e = refused

  cmp_rest-Enough :
      (a : Node) (ts : List Token)
      → 6 * length ts + 1 ≤ suc f
      → Leaves (suc (length ts)) (cmp_rest u (suc f) a ts)
  unfolding cmp_rest
  cmp_rest-Enough a ts e = elim (Bool-cases (peek_is eq_op ts)) [
    | inl p ↦ rw (p, cmp_rest) (operand true (peek_is-length eq_op ts p))
    | inr p ↦ elim (Bool-cases (peek_is ne_op ts)) [
      | inl q ↦ rw (p, q, cmp_rest) (operand false (peek_is-length ne_op ts q))
      | inr q ↦ rw (p, q, cmp_rest) (left (omega arith))
    ]
  ]
    where
      operand :
          (equal : Bool)
          → length ts ≡ suc (length (rest_of ts))
          → Leaves (suc (length ts)) (
              parse_primary u f (rest_of ts) >>= λ right rest.
              parsed (comparison equal a right) rest)
      operand equal n =
          bind-Leaves _ _ _ (h.primary (rest_of ts) (omega (arith, n, e)))
            (λ b rest l. left (omega (arith, n, l)))

  cmp-Enough :
      (ts : List Token) → 6 * length ts + 2 ≤ suc f → Leaves (length ts) (parse_cmp u (suc f) ts)
  unfolding parse_cmp
  cmp-Enough ts e =
      bind-Leaves (length ts) _ (cmp_rest u f) (h.primary ts (omega (arith, e)))
        (λ a rest l. Leaves-mono (omega (arith, l)) (h.cmp_loop a rest (omega (arith, l, e))))

  not-Enough :
      (ts : List Token) → 6 * length ts + 3 ≤ suc f → Leaves (length ts) (parse_not u (suc f) ts)
  unfolding parse_not
  not-Enough ts e = elim (Bool-cases (peek_is not_op ts)) [
    | inl p ↦
        let n = peek_is-length not_op ts p in
        rw (p, parse_not)
          (bind-Leaves (length (rest_of ts)) _ _ (h.negation (rest_of ts) (omega (arith, n, e)))
            (λ a rest l. left (omega (arith, n, l))))
    | inr p ↦ rw (p, parse_not) (h.cmp ts (omega (arith, e)))
  ]

  and_rest-Enough :
      (a : Node) (ts : List Token)
      → 6 * length ts + 1 ≤ suc f
      → Leaves (suc (length ts)) (and_rest u (suc f) a ts)
  unfolding and_rest
  and_rest-Enough a ts e = elim (Bool-cases (peek_is and_op ts)) [
    | inl p ↦
        let n = peek_is-length and_op ts p in
        rw (p, and_rest)
          (bind-Leaves (length (rest_of ts)) _ _ (h.negation (rest_of ts) (omega (arith, n, e)))
            (λ b rest l.
              Leaves-mono (omega (arith, n, l))
                (h.and_loop (and_node a b) rest (omega (arith, n, l, e)))))
    | inr p ↦ rw (p, and_rest) (left (omega arith))
  ]

  and-Enough :
      (ts : List Token) → 6 * length ts + 4 ≤ suc f → Leaves (length ts) (parse_and u (suc f) ts)
  unfolding parse_and
  and-Enough ts e =
      bind-Leaves (length ts) _ (and_rest u f) (h.negation ts (omega (arith, e)))
        (λ a rest l. Leaves-mono (omega (arith, l)) (h.and_loop a rest (omega (arith, l, e))))

  or_rest-Enough :
      (a : Node) (ts : List Token)
      → 6 * length ts + 1 ≤ suc f
      → Leaves (suc (length ts)) (or_rest u (suc f) a ts)
  unfolding or_rest
  or_rest-Enough a ts e = elim (Bool-cases (peek_is or_op ts)) [
    | inl p ↦
        let n = peek_is-length or_op ts p in
        rw (p, or_rest)
          (bind-Leaves (length (rest_of ts)) _ _ (h.and (rest_of ts) (omega (arith, n, e)))
            (λ b rest l.
              Leaves-mono (omega (arith, n, l))
                (h.or_loop (or_node a b) rest (omega (arith, n, l, e)))))
    | inr p ↦ rw (p, or_rest) (left (omega arith))
  ]

  or-Enough :
      (ts : List Token) → 6 * length ts + 5 ≤ suc f → Leaves (length ts) (parse_or u (suc f) ts)
  unfolding parse_or
  or-Enough ts e =
      bind-Leaves (length ts) _ (or_rest u f) (h.and ts (omega (arith, e)))
        (λ a rest l. Leaves-mono (omega (arith, l)) (h.or_loop a rest (omega (arith, l, e))))

enough : (u : Unicode) (f : ℕ) → Enough u f
enough u zero = record {
  or = λ ts e. absurd (omega (arith, e));
  or_loop = λ a ts e. absurd (omega (arith, e));
  and = λ ts e. absurd (omega (arith, e));
  and_loop = λ a ts e. absurd (omega (arith, e));
  negation = λ ts e. absurd (omega (arith, e));
  cmp = λ ts e. absurd (omega (arith, e));
  cmp_loop = λ a ts e. absurd (omega (arith, e));
  primary = λ ts e. absurd (omega (arith, e));
}
enough u (suc f) =
    let h = enough u f in
    record {
      or = or-Enough u f h;
      or_loop = or_rest-Enough u f h;
      and = and-Enough u f h;
      and_loop = and_rest-Enough u f h;
      negation = not-Enough u f h;
      cmp = cmp-Enough u f h;
      cmp_loop = cmp_rest-Enough u f h;
      primary = primary-Enough u f h;
    }

-- A node with no token behind it, or a refusal.
abbrev pub IsEnded : Parsed → Type 0
IsEnded p = ((a : Node) × (p ≡ parsed a [])) ⊎ (p ≡ abstain)

at_end-IsEnded : {n : ℕ} (p : Parsed) → Leaves n p → IsEnded (p >>= at_end)
unfolding at_end
at_end-IsEnded (parsed a []) l = inl (a, refl)
at_end-IsEnded (parsed a (t ∷ ts)) l = inr refl
at_end-IsEnded abstain l = inr refl
at_end-IsEnded out_of_fuel l = elim l [ ]

parse_tokens-IsEnded : (u : Unicode) (o : Option (List Token)) → IsEnded (parse_tokens u o)
unfolding parse_tokens
parse_tokens-IsEnded u none = inr refl
parse_tokens-IsEnded u (some []) = inr refl
parse_tokens-IsEnded u (some (t ∷ ts)) = at_end-IsEnded _ ((enough u _).or (t ∷ ts) (omega arith))

-- Every text is parsed into a node with no token behind it, or is refused: the parser's fuel is
-- never used up, however the text is nested.
pub parse-IsEnded : (u : Unicode) (text : String) → IsEnded (parse u text)
unfolding parse
parse-IsEnded u text = parse_tokens-IsEnded u (tokenize u text)
