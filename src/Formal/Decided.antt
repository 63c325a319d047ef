-- ===== src/Formal/Decided.antt =====
-- What the structural checks of src/mind3/core/formal_templates.py, in front of the truth table, decide.
use text.Mathlib.Text.{◌==◌ as str_eq}
use text.Mathlib.TextEquality.{eq_iff}
use mind.Prelude.{
  String, true, false, List, [], ◌∷◌, ◌≡◌, ◌≢◌, ◌↔◌, ◌⊎◌, refl, sym, ap, ◌∙◌, subst, inl, inr,
  Bool-cases, arith,
}
use mind.Formal.Token.{Unicode}
use mind.Formal.Node.{lower}
use mind.Formal.Scan.{occurs_in, count_of, partition, starts_with, drop_text}
use mind.Formal.Strip.{strip, strip_outer_parens}
use mind.Formal.Split.{split_from, split_top_level}
use mind.Formal.Structure.{
  normalize, negated, same_sides, excluded_middle, is_tautology_expression, is_true_constant,
  is_false_constant, decided_implication,
}

-- One text is the other one behind a `!` or a `~`.
abbrev IsNegation : Unicode → String → String → Type 0
IsNegation u a b =
    ((starts_with "!" a ≡ true) ⊎ (starts_with "~" a ≡ true)) × (strip u (drop_text 1 a) ≡ b)

-- `x == x`
abbrev IsEqual : Unicode → String → String → Type 0
IsEqual u l r = (strip u l ≢ "") × (strip u l ≡ strip u r)

-- `x || !x` or `!x || x`
abbrev IsExcluded : Unicode → String → String → Type 0
IsExcluded u l r =
    let a = strip_outer_parens u (strip u l) in
    let b = strip_outer_parens u (strip u r) in
    (a ≢ "") × (b ≢ "") × (IsNegation u a b ⊎ IsNegation u b a)

abbrev IsOne : String → Type 0
IsOne s = (lower s ≡ "1'b1") ⊎ (lower s ≡ "1")

abbrev IsZero : String → Type 0
IsZero s = (lower s ≡ "1'b0") ⊎ (lower s ≡ "0")

-- The sides of an implication are one text, or the antecedent is 0, or the consequent is 1.
abbrev IsImplied : String → String → Type 0
IsImplied a b = ((a ≢ "") × (a ≡ b)) ⊎ (IsZero a ⊎ IsOne b)

-- A list of two sides with a relation.
abbrev Sides : (String → String → Type 0) → List String → Type 0
Sides R parts = (l : String) × (r : String) × (parts ≡ l ∷ r ∷ []) × R l r

-- What a property looks like that is decided without a table.
pub data IsDecided (u : Unicode) (expr : String) : Type 0 where
  constant : IsOne expr → IsDecided u expr
  equal :
      Sides (IsEqual u) (split_top_level (strip_outer_parens u (strip u expr)) "==")
      → IsDecided u expr
  excluded :
      Sides (IsExcluded u) (split_top_level (strip_outer_parens u (strip u expr)) "||")
      → IsDecided u expr
  implied :
      occurs_in "|->" expr ≡ true
      → occurs_in "|=>" expr ≡ false
      → count_of "|->" expr ≡ 1
      → IsImplied (normalize u (partition "|->" expr).0) (normalize u (partition "|->" expr).1)
      → IsDecided u expr

pub is_true_constant_iff : (s : String) → (is_true_constant s ≡ true) ↔ IsOne s
unfolding is_true_constant
is_true_constant_iff s = ground (arith, eq_iff (lower s) "1'b1", eq_iff (lower s) "1")

is_false_constant_iff : (s : String) → (is_false_constant s ≡ true) ↔ IsZero s
unfolding is_false_constant
is_false_constant_iff s = ground (arith, eq_iff (lower s) "1'b0", eq_iff (lower s) "0")

negated_iff : (u : Unicode) (a b : String) → (negated u a b ≡ true) ↔ IsNegation u a b
unfolding negated
negated_iff u a b = ground (arith, eq_iff (strip u (drop_text 1 a)) b)

module _ (u : Unicode) where
  same_sides-Sides : (parts : List String) → same_sides u parts ≡ true → Sides (IsEqual u) parts
  unfolding same_sides
  same_sides-Sides [] h = absurd (ground (arith, h))
  same_sides-Sides (l ∷ []) h = absurd (ground (arith, h))
  same_sides-Sides (l ∷ r ∷ []) h =
      (l, r, refl, ground (arith, h, eq_iff (strip u l) "", eq_iff (strip u l) (strip u r)))
  same_sides-Sides (l ∷ r ∷ x ∷ xs) h = absurd (ground (arith, h))

  Sides-same_sides : (parts : List String) → Sides (IsEqual u) parts → same_sides u parts ≡ true
  unfolding same_sides
  Sides-same_sides parts (l, r, e, p) =
      let (n, q) = p in
      subst (λ ps. same_sides u ps ≡ true) (sym e)
        (ground (arith, n, q, eq_iff (strip u l) "", eq_iff (strip u l) (strip u r)))

  excluded_middle-Sides :
      (parts : List String) → excluded_middle u parts ≡ true → Sides (IsExcluded u) parts
  unfolding excluded_middle
  excluded_middle-Sides [] h = absurd (ground (arith, h))
  excluded_middle-Sides (l ∷ []) h = absurd (ground (arith, h))
  excluded_middle-Sides (l ∷ r ∷ []) h =
      let a = strip_outer_parens u (strip u l) in
      let b = strip_outer_parens u (strip u r) in
      (
        l,
        r,
        refl,
        ground (arith, h, eq_iff a "", eq_iff b "", negated_iff u a b, negated_iff u b a),
      )
  excluded_middle-Sides (l ∷ r ∷ x ∷ xs) h = absurd (ground (arith, h))

  Sides-excluded_middle :
      (parts : List String) → Sides (IsExcluded u) parts → excluded_middle u parts ≡ true
  unfolding excluded_middle
  Sides-excluded_middle parts (l, r, e, p) =
      let (n, m, q) = p in
      let a = strip_outer_parens u (strip u l) in
      let b = strip_outer_parens u (strip u r) in
      subst (λ ps. excluded_middle u ps ≡ true) (sym e)
        (ground (arith, n, m, q, eq_iff a "", eq_iff b "", negated_iff u a b, negated_iff u b a))

  -- The empty text has no two sides.
  split_pair :
      (R : String → String → Type 0) (op e : String)
      → Sides R (split_top_level e op)
      → str_eq e "" ≡ false
  unfolding split_top_level split_from
  split_pair R op e (l, r, q, p) = elim (Bool-cases (str_eq e "")) [
    | inl h ↦
        let none : "" ∷ [] ≡ l ∷ r ∷ [] =
          ap (λ x. split_top_level x op) (sym ((eq_iff e "").0 h)) ∙ q in
        absurd (ground (arith, none))
    | inr h ↦ h
  ]

  tautology_iff :
      (expr : String)
      → let e = strip_outer_parens u (strip u expr) in
        (is_tautology_expression u expr ≡ true) ↔ (
          Sides (IsEqual u) (split_top_level e "==")
          ⊎ Sides (IsExcluded u) (split_top_level e "||"))
  unfolding is_tautology_expression
  tautology_iff expr =
      let e = strip_outer_parens u (strip u expr) in
      let by = split_top_level e "==" in
      let or = split_top_level e "||" in
      (
        λ h. elim (Bool-cases (same_sides u by)) [
          | inl p ↦ inl (same_sides-Sides by p)
          | inr p ↦ inr (excluded_middle-Sides or (ground (arith, h, p)))
        ],
        λ d. elim d [
          | inl p ↦ ground (arith, split_pair (IsEqual u) "==" e p, Sides-same_sides by p)
          | inr p ↦ ground (arith, split_pair (IsExcluded u) "||" e p, Sides-excluded_middle or p)
        ],
      )

  implication_iff :
      (expr : String)
      → (decided_implication u expr ≡ true) ↔ (
          (occurs_in "|->" expr ≡ true)
          × (occurs_in "|=>" expr ≡ false)
          × (count_of "|->" expr ≡ 1)
          × IsImplied (normalize u (partition "|->" expr).0) (normalize u (partition "|->" expr).1))
  unfolding decided_implication
  implication_iff expr =
      let a = normalize u (partition "|->" expr).0 in
      let b = normalize u (partition "|->" expr).1 in
      ground (arith, eq_iff a "", eq_iff a b, is_false_constant_iff a, is_true_constant_iff b)

  pub tautology-IsDecided :
      (expr : String) → is_tautology_expression u expr ≡ true → IsDecided u expr
  tautology-IsDecided expr h = elim ((tautology_iff expr).0 h) [
    | inl p ↦ equal p
    | inr p ↦ excluded p
  ]

  pub implication-IsDecided : (expr : String) → decided_implication u expr ≡ true → IsDecided u expr
  implication-IsDecided expr h = let (a, b, n, p) = (implication_iff expr).0 h in implied a b n p

  pub plain-IsDecided :
      (expr : String)
      → is_true_constant expr ≡ false
      → is_tautology_expression u expr ≡ false
      → decided_implication u expr ≡ false
      → ¬ IsDecided u expr
  plain-IsDecided expr t x y (constant p) = ground (arith, t, (is_true_constant_iff expr).1 p)
  plain-IsDecided expr t x y (equal p) = ground (arith, x, (tautology_iff expr).1 (inl p))
  plain-IsDecided expr t x y (excluded p) = ground (arith, x, (tautology_iff expr).1 (inr p))
  plain-IsDecided expr t x y (implied a b n p) =
      ground (arith, y, (implication_iff expr).1 (a, b, n, p))
