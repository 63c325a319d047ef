-- ===== src/Formal/Proved.antt =====
-- What _p3c_table_tautology of src/mind3/core/formal_templates.py decides.
use mind.Prelude.{
  ℕ, zero, suc, ◌+◌, ◌^◌, ◌≤◌, ◌<◌, String, Bool, true, false, some, List, [], length, ltb, ltb→lt,
  ◌≡◌, ◌↔◌, ◌⊎◌, inl, inr, refl, ap, subst, Bool-cases, arith,
}
use mind.Formal.Scan.{occurs_in, count_of}
use mind.Formal.Token.{Unicode, Token}
use mind.Formal.Node.{Node}
use mind.Formal.Parser.{Parsed, parsed, parse}
use mind.Formal.Table.{
  variables, evaluate, assign, Answer, answered, all_rows, max_variables, decide, implication_body,
  table_tautology,
}
use mind.Formal.Fuel.{IsEnded, parse-IsEnded}
use mind.Formal.Assignments.{
  value, evaluate-value, row, assign-Covers, row_of, row_of-below, row_of-Covers,
}

-- The tree has the value true under every assignment of truth values to the names.
abbrev pub IsTautology : Node → Type 0
IsTautology a = (ρ : String → Bool) → value ρ a ≡ true

row-value :
    (a : Node) (bits : ℕ)
    → evaluate a (assign bits 0 (variables a)) ≡ some (value (row (assign bits 0 (variables a))) a)
row-value a bits = evaluate-value _ _ a (assign-Covers bits 0 (variables a))

-- The rows that are left are read as assignments, and all of them are true.
all_rows-answers :
    (a : Node) (left bits : ℕ)
    → ((all_rows a (variables a) left bits ≡ answered true)
        × ((k : ℕ) → k < left → value (row (assign (bits + k) 0 (variables a))) a ≡ true))
      ⊎ ((all_rows a (variables a) left bits ≡ answered false)
          × ((ρ : String → Bool) × (value ρ a ≡ false)))
unfolding all_rows
all_rows-answers a zero bits = inl (refl, λ k h. absurd (omega (arith, h)))
all_rows-answers a (suc left) bits =
    let ρ = row (assign bits 0 (variables a)) in
    elim (Bool-cases (value ρ a)) [
      | inr p ↦ inr (rw (row-value a bits, p, all_rows) refl, (ρ, p))
      | inl p ↦ elim (all_rows-answers a left (suc bits)) [
        | inr (q, w) ↦ inr (rw (row-value a bits, p, all_rows) q, w)
        | inl (q, w) ↦ inl (rw (row-value a bits, p, all_rows) q, rows p w)
      ]
    ]
  where
    rows :
        value (row (assign bits 0 (variables a))) a ≡ true
        → ((k : ℕ) → k < left → value (row (assign (suc bits + k) 0 (variables a))) a ≡ true)
        → (k : ℕ) → k < suc left
        → value (row (assign (bits + k) 0 (variables a))) a ≡ true
    rows p w zero h = subst (λ n. value (row (assign n 0 (variables a))) a ≡ true) (omega arith) p
    rows p w (suc k) h =
        subst (λ n. value (row (assign n 0 (variables a))) a ≡ true) (omega arith)
          (w k (omega (arith, h)))

-- The whole table is true exactly where the tree is a tautology.
table-IsTautology :
    (a : Node)
    → ((k : ℕ)
        → k < 2 ^ length (variables a)
        → value (row (assign (0 + k) 0 (variables a))) a ≡ true)
    → IsTautology a
table-IsTautology a w ρ =
    let names = variables a in
    let k = row_of ρ names in
    let here = evaluate-value _ ρ a (row_of-Covers ρ names) in
    let there = row-value a k in
    let full : value (row (assign k 0 names)) a ≡ true =
      subst (λ n. value (row (assign n 0 names)) a ≡ true) (omega arith)
        (w k (row_of-below ρ names)) in
    cc

-- How the truth table decides a parsed text.
decide-answers :
    (a : Node) (rest : List Token)
    → ((decide (parsed a rest) ≡ answered true)
        × ((length (variables a) ≤ max_variables) × IsTautology a))
      ⊎ ((decide (parsed a rest) ≡ answered false)
          × ((max_variables < length (variables a)) ⊎ ((ρ : String → Bool) × (value ρ a ≡ false))))
unfolding decide
decide-answers a rest = elim (Bool-cases (ltb max_variables (length (variables a)))) [
  | inl p ↦ inr (rw (p, decide) refl, inl (ltb→lt _ _ p))
  | inr p ↦ elim (all_rows-answers a (2 ^ length (variables a)) 0) [
    | inl (q, w) ↦ inl (rw (p, decide) q, (ground arith, table-IsTautology a w))
    | inr (q, w) ↦ inr (rw (p, decide) q, inr w)
  ]
]

-- What the answer true claims of a text.
abbrev pub IsProved : Unicode → String → Type 0
IsProved u text =
    (occurs_in "|=>" text ≡ false)
    × (count_of "|->" text ≤ 1)
    × ((a : Node) × (parse u (implication_body text) ≡ parsed a [])
        × (length (variables a) ≤ max_variables)
        × IsTautology a)

-- The answer, and what it claims or refutes.
abbrev Decides : Answer → Type 0 → Type 0
Decides answer P = ((answer ≡ answered true) × P) ⊎ ((answer ≡ answered false) × ¬ P)

decide-Decides :
    (p : Parsed)
    → IsEnded p
    → Decides
        (decide p)
        ((a : Node) × (p ≡ parsed a []) × (length (variables a) ≤ max_variables) × IsTautology a)
unfolding decide
decide-Decides p (inr e) = rw e (inr (refl, λ (a, q, n, t). cc))
decide-Decides p (inl (a, e)) = rw e (elim (decide-answers a []) [
  | inl (q, (m, t)) ↦ inl (q, (a, refl, m, t))
  | inr (q, inl m) ↦ inr (
    q,
    λ (b, r, n, t).
        let same : a ≡ b = cc in omega (arith, m, n, ap (λ x. length (variables x)) same),
  )
  | inr (q, inr (ρ, f)) ↦ inr (q, λ (b, r, n, t). let same : a ≡ b = cc in let g = t ρ in cc)
])

table_tautology-Decides :
    (u : Unicode) (text : String) → Decides (table_tautology u text) (IsProved u text)
unfolding table_tautology
table_tautology-Decides u text = elim (Bool-cases (occurs_in "|=>" text)) [
  | inl p ↦ inr (rw (p, table_tautology) refl, λ h. let e = h.0 in cc)
  | inr p ↦ elim (Bool-cases (ltb 1 (count_of "|->" text))) [
    | inl q ↦ inr (rw (p, q, table_tautology) refl, λ h. omega (arith, ltb→lt _ _ q, h.1))
    | inr q ↦ elim (decide-Decides (parse u (implication_body text)) (parse-IsEnded u _)) [
      | inl (r, h) ↦ inl (rw (p, q, table_tautology) r, (p, ground arith, h))
      | inr (r, h) ↦ inr (rw (p, q, table_tautology) r, λ (_, _, k). h k)
    ]
  ]
]

-- The checker answers on every text: no KeyError escapes it and its parser ends. It answers true
-- exactly on the texts without `|=>` and with at most one `|->` whose body, an implication read as
-- a disjunction, parses as a tree of at most eight names that is true under every assignment of
-- truth values to its names.
pub table_tautology_iff :
    (u : Unicode) (text : String)
    → ((b : Bool) × (table_tautology u text ≡ answered b))
      × ((table_tautology u text ≡ answered true) ↔ IsProved u text)
table_tautology_iff u text = elim (table_tautology-Decides u text) [
  | inl (q, h) ↦ ((true, q), (λ _. h, λ _. q))
  | inr (q, h) ↦ ((false, q), (λ e. cc, λ k. absurd (h k)))
]
