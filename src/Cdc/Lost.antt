-- ===== src/Cdc/Lost.antt =====
-- What the assignments of tools/cdc_checker/parser.py do not record of a condition.
use text.Mathlib.Text.{◌==◌ as str_eq}
use text.Mathlib.TextEquality.{eq_iff}
use mind.Prelude.{
  ℕ, suc, ◌+◌, String, false, List, [], ◌∷◌, ◌++◌, length, ◌≡◌, refl, sym, ap, subst, ◌∙◌, inl, inr,
  Bool-cases, arith,
}
use mathlib.Core.List.Memᴰ.{head, append_right}
use mind.Prelude.Names.{has, has_iff}
use mind.Cdc.Tokens.{ok}
use mind.Cdc.Statements.{
  before, behind, skip_parens, skip_condition, strip_control, drop_label, target_drivers,
  assign_drivers, starts_with_token, statement_drivers, control_words,
}

-- The token does not stand in the list.
abbrev pub Lacks : String → List String → Type 0
Lacks t ts = has t ts ≡ false

module _ (t u : String) (ts : List String) where
  Lacks-head : Lacks t (u ∷ ts) → str_eq t u ≡ false
  unfolding has
  Lacks-head h = elim (Bool-cases (str_eq t u)) [ inr p ↦ p | inl p ↦ absurd (ground (arith, p)) ]

  Lacks-tail : Lacks t (u ∷ ts) → Lacks t ts
  unfolding has
  Lacks-tail h = elim (Bool-cases (str_eq t u)) [
    | inr p ↦ rw p at h
    | inl p ↦ absurd (ground (arith, p))
  ]

str_eq_comm : (s t : String) → str_eq s t ≡ str_eq t s
str_eq_comm s t = elim (Bool-cases (str_eq s t)) [
  | inl p ↦ rw ((eq_iff s t).0 p) refl
  | inr p ↦ elim (Bool-cases (str_eq t s)) [
    | inr q ↦ p ∙ sym q
    | inl q ↦ absurd (ground (arith, p, (eq_iff s t).1 (sym ((eq_iff t s).0 q))))
  ]
]

before-append :
    (sep : String) (xs ys : List String) → Lacks sep xs → before sep (xs ++ sep ∷ ys) ≡ xs
unfolding before
before-append sep [] ys h = rw ((eq_iff sep sep).1 refl) refl
before-append sep (x ∷ xs) ys h =
    rw (str_eq_comm x sep ∙ Lacks-head sep x xs h)
      (ap (λ l. x ∷ l) (before-append sep xs ys (Lacks-tail sep x xs h)))

-- Parentheses that are not closed are skipped to the end.
skip_parens-open : (depth : ℕ) (ts : List String) → Lacks ")" ts → skip_parens depth ts ≡ []
unfolding skip_parens
skip_parens-open depth [] h = refl
skip_parens-open depth (t ∷ ts) h =
    let q = str_eq_comm t ")" ∙ Lacks-head ")" t ts h in
    let l = Lacks-tail ")" t ts h in
    elim (Bool-cases (str_eq t "(")) [
      | inl p ↦ rw (p, skip_parens) (skip_parens-open (depth + 1) ts l)
      | inr p ↦ rw (p, q, skip_parens) (skip_parens-open depth ts l)
    ]

-- A condition without inner parentheses is skipped with its own.
skip_parens-flat :
    (ts rest : List String) → Lacks "(" ts → Lacks ")" ts → skip_parens 1 (ts ++ ")" ∷ rest) ≡ rest
unfolding skip_parens
skip_parens-flat [] rest g h = refl
skip_parens-flat (t ∷ ts) rest g h =
    rw
      (
        str_eq_comm t "(" ∙ Lacks-head "(" t ts g,
        str_eq_comm t ")" ∙ Lacks-head ")" t ts h,
        skip_parens,
      )
      (skip_parens-flat ts rest (Lacks-tail "(" t ts g) (Lacks-tail ")" t ts h))

behind-append :
    (sep : String) (xs ys : List String) → Lacks sep xs → behind sep (xs ++ sep ∷ ys) ≡ ys
unfolding behind
behind-append sep [] ys h = rw ((eq_iff sep sep).1 refl) refl
behind-append sep (x ∷ xs) ys h =
    rw (str_eq_comm x sep ∙ Lacks-head sep x xs h) (behind-append sep xs ys (Lacks-tail sep x xs h))

Lacks-suffix : (t : String) (xs ys : List String) → Lacks t (xs ++ ys) → Lacks t ys
Lacks-suffix t [] ys h = h
Lacks-suffix t (x ∷ xs) ys h = Lacks-suffix t xs ys (Lacks-tail t x (xs ++ ys) h)

Lacks-append : (t : String) (xs ys : List String) → Lacks t xs → Lacks t ys → Lacks t (xs ++ ys)
unfolding has
Lacks-append t [] ys h g = g
Lacks-append t (x ∷ xs) ys h g =
    rw (Lacks-head t x xs h) (Lacks-append t xs ys (Lacks-tail t x xs h) g)

-- The statement has no loop keyword.
abbrev pub IsLoopless : List String → Type 0
IsLoopless ts = Lacks "for" ts × Lacks "while" ts

-- A nonblocking assignment is split at its first <=.
statement_drivers-split :
    (xs ys : List String)
    → Lacks "<=" xs
    → IsLoopless (xs ++ "<=" ∷ ys)
    → statement_drivers (xs ++ "<=" ∷ ys) ≡ assign_drivers xs ys
unfolding statement_drivers
statement_drivers-split xs ys h n =
    let found = (has_iff "<=" (xs ++ "<=" ∷ ys)).1 (append_right xs (head refl)) in
    rw (n.0, n.1, found, before-append "<=" xs ys h, behind-append "<=" xs ys h) refl

-- An assignment under an if whose condition compares with <= before it closes is lost: the statement
-- has no driver, whatever it assigns.
pub statement_drivers-lost :
    (cs rest : List String)
    → Lacks "<=" cs
    → Lacks ")" cs
    → IsLoopless ("if" ∷ "(" ∷ cs ++ "<=" ∷ rest)
    → statement_drivers ("if" ∷ "(" ∷ cs ++ "<=" ∷ rest) ≡ ok []
unfolding assign_drivers strip_control skip_condition skip_parens drop_label target_drivers has
    starts_with_token
statement_drivers-lost cs rest h g n =
    statement_drivers-split ("if" ∷ "(" ∷ cs) rest h n
    ∙ ap (λ ts. target_drivers (drop_label (strip_control (suc (length cs)) ts)) rest)
        (skip_parens-open 1 cs g)

regroup :
    (xs : List String) (a b : String) (ys : List String)
    → (xs ++ a ∷ b ∷ []) ++ ys ≡ (xs ++ a ∷ []) ++ b ∷ ys
regroup [] a b ys = refl
regroup (x ∷ xs) a b ys = ap (λ l. x ∷ l) (regroup xs a b ys)

strip_control-name :
    (fuel : ℕ) (x : String) → Lacks x control_words → strip_control (suc fuel) (x ∷ []) ≡ x ∷ []
unfolding strip_control
strip_control-name fuel x w = rw (w, strip_control) refl

-- A condition without inner parentheses and without <= leaves no trace: the drivers of an assignment
-- under an if are those of the assignment alone.
pub statement_drivers-condition :
    (cs : List String) (x : String) (rhs : List String)
    → Lacks "(" cs
    → Lacks ")" cs
    → Lacks "<=" cs
    → Lacks x ("<=" ∷ control_words)
    → IsLoopless ("if" ∷ "(" ∷ (cs ++ ")" ∷ x ∷ []) ++ "<=" ∷ rhs)
    → statement_drivers ("if" ∷ "(" ∷ (cs ++ ")" ∷ x ∷ []) ++ "<=" ∷ rhs)
      ≡ statement_drivers (x ∷ "<=" ∷ rhs)
unfolding assign_drivers strip_control skip_condition skip_parens has starts_with_token
statement_drivers-condition cs x rhs o g h c n =
    let q = str_eq_comm "<=" x ∙ Lacks-head x "<=" control_words c in
    let w = Lacks-tail x "<=" control_words c in
    let one : Lacks "<=" (x ∷ []) = rw q refl in
    let all : Lacks "<=" ("if" ∷ "(" ∷ (cs ++ ")" ∷ x ∷ [])) =
      Lacks-append "<=" cs (")" ∷ x ∷ []) h one in
    let small : IsLoopless (x ∷ "<=" ∷ rhs) =
      let front = "if" ∷ "(" ∷ (cs ++ ")" ∷ []) in
      let e = ap (λ l. "if" ∷ "(" ∷ l) (regroup cs ")" x ("<=" ∷ rhs)) in
      (
        Lacks-suffix "for" front _ (subst (Lacks "for") e n.0),
        Lacks-suffix "while" front _ (subst (Lacks "while") e n.1),
      ) in
    statement_drivers-split ("if" ∷ "(" ∷ (cs ++ ")" ∷ x ∷ [])) rhs all n
    ∙ ap
        (λ ts.
          target_drivers (drop_label (strip_control (suc (length (cs ++ ")" ∷ x ∷ []))) ts)) rhs)
        (skip_parens-flat cs (x ∷ []) o g)
    ∙ ap (λ ts. target_drivers (drop_label ts) rhs)
        (strip_control-name (length (cs ++ ")" ∷ x ∷ [])) x w ∙ sym (strip_control-name 0 x w))
    ∙ sym (statement_drivers-split (x ∷ []) rhs one small)
