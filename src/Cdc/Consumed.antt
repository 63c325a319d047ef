-- ===== src/Cdc/Consumed.antt =====
-- The tokens that `_collect_statement` of tools/cdc_checker/parser.py reads.
use text.Mathlib.Text.{◌==◌ as str_eq}
use mind.Prelude.{
  ℕ, ◌+◌, ◌-◌, String, ◌&&◌, List, [], ◌∷◌, ◌++◌, leb, ◌==◌, ◌≡◌, ◌≢◌, refl, ap, ◌∙◌, inl, inr,
  Bool-cases,
}
use mind.Prelude.Names.{has}
use mind.Cdc.Tokens.{Parsed, ok, error, ◌>>=◌, opened, closed}
use mind.Cdc.Always.{read_block, read_statement, collect_statement}

-- The tokens read and the tokens left are those given, in order, and at least one was read.
abbrev pub IsSplit : List String → List String × List String → Type 0
IsSplit ts r = (ts ≡ r.0 ++ r.1) × (r.0 ≢ [])

-- Every value of the parser is a split of the tokens.
pub Splits : List String → Parsed (List String × List String) → Type 0
Splits ts p = (r : List String × List String) → p ≡ ok r → IsSplit ts r

-- A token read in front.
Splits-cons :
    (t : String) (ts : List String) (p : Parsed (List String × List String))
    → ((r : List String × List String) → p ≡ ok r → ts ≡ r.0 ++ r.1)
    → Splits (t ∷ ts) (p >>= λ r. ok (t ∷ r.0, r.1))
unfolding Splits ◌>>=◌
Splits-cons t ts (error e) f r h = absurd (cc)
Splits-cons t ts (ok (b, us)) f r h =
    let q : (t ∷ b, us) ≡ r = cc in
    (ap (λ l. t ∷ l) (f (b, us) refl) ∙ ap (λ z. z.0 ++ z.1) q, λ e. filled r q e)
  where
    filled : (r : List String × List String) → (t ∷ b, us) ≡ r → r.0 ≡ [] → ⊥
    filled r q e = let z : t ∷ b ≡ [] = ap (λ (w : List String × List String). w.0) q ∙ e in cc

module _ {ts : List String} {p : Parsed (List String × List String)} where
  Splits-eq : Splits ts p → (r : List String × List String) → p ≡ ok r → ts ≡ r.0 ++ r.1
  unfolding Splits
  Splits-eq s r h = (s r h).0

Splits-last : (t : String) (ts : List String) → Splits (t ∷ ts) (ok (t ∷ [], ts))
unfolding Splits
Splits-last t ts r h =
    let q : (t ∷ [], ts) ≡ r = cc in
    (ap (λ (z : List String × List String). z.0 ++ z.1) q, λ e. filled r q e)
  where
    filled : (r : List String × List String) → (t ∷ [], ts) ≡ r → r.0 ≡ [] → ⊥
    filled r q e = let z : t ∷ [] ≡ [] = ap (λ (w : List String × List String). w.0) q ∙ e in cc

Splits-error : (ts : List String) (e : String) → Splits ts (error e)
unfolding Splits
Splits-error ts e r h = absurd (cc)

read_block-Splits : (depth : ℕ) (ts : List String) → Splits ts (read_block depth ts)
unfolding read_block
read_block-Splits depth [] = Splits-error [] _
read_block-Splits depth (t ∷ ts) =
    let more = λ (d : ℕ). Splits-cons t ts (read_block d ts) (Splits-eq (read_block-Splits d ts)) in
    elim (Bool-cases (str_eq t "begin")) [
      | inl p ↦ rw (p, read_block) (more (depth + 1))
      | inr p ↦ elim (Bool-cases (str_eq t "end")) [
        | inr q ↦ rw (p, q, read_block) (more depth)
        | inl q ↦ elim (Bool-cases (depth == 1)) [
          | inl d ↦ rw (p, q, d, read_block) (Splits-last t ts)
          | inr d ↦ rw (p, q, d, read_block) (more (depth - 1))
        ]
      ]
    ]

read_statement-Splits : (o c : ℕ) (ts : List String) → Splits ts (read_statement o c ts)
unfolding read_statement
read_statement-Splits o c [] = Splits-error [] _
read_statement-Splits o c (t ∷ ts) =
    let p = read_statement (opened t o) (closed t c) ts in
    let more =
      Splits-cons t ts p (Splits-eq (read_statement-Splits (opened t o) (closed t c) ts)) in
    elim (Bool-cases (str_eq t ";" && leb (opened t o) (closed t c))) [
      | inl q ↦ rw q (Splits-last t ts)
      | inr q ↦ rw q more
    ]

collect_statement-Splits : (ts : List String) → Splits ts (collect_statement ts)
unfolding collect_statement
collect_statement-Splits [] = Splits-error [] _
collect_statement-Splits (t ∷ ts) = elim (Bool-cases (str_eq t "begin")) [
  | inl p ↦ rw p (Splits-cons t ts (read_block 1 ts) (Splits-eq (read_block-Splits 1 ts)))
  | inr p ↦ elim (Bool-cases (str_eq t "for")) [
    | inl q ↦ rw (p, q) (Splits-error (t ∷ ts) _)
    | inr q ↦ elim (Bool-cases (has t ("function" ∷ "task" ∷ "generate" ∷ []))) [
      | inl r ↦ rw (p, q, r) (Splits-error (t ∷ ts) _)
      | inr r ↦ rw (p, q, r) (read_statement-Splits 0 0 (t ∷ ts))
    ]
  ]
]

-- A statement that is read and the tokens left behind it are the tokens given, in order, and at least
-- one token is read.
pub collect_statement-append :
    (ts body rest : List String)
    → collect_statement ts ≡ ok (body, rest)
    → (ts ≡ body ++ rest) × (body ≢ [])
unfolding Splits
collect_statement-append ts body rest h = collect_statement-Splits ts (body, rest) h
