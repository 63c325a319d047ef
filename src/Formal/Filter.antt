-- ===== src/Formal/Filter.antt =====
-- How the structural checks in front of the truth table of src/mind3/core/formal_templates.py fit to it.
use text.Mathlib.Text.{◌==◌ as str_eq}
use mind.Prelude.{String, Bool, true, false, ◌≡◌, ◌↔◌, ◌⊎◌, refl, inl, inr, Bool-cases, arith}
use mind.Formal.Token.{Unicode}
use mind.Formal.Table.{answered}
use mind.Formal.Proved.{IsProved, table_tautology_iff}
use mind.Formal.Decided.{
  IsDecided, constant, is_true_constant_iff, tautology-IsDecided, implication-IsDecided,
  plain-IsDecided,
}
use mind.Formal.Structure.{
  normalize, is_tautology_expression, is_true_constant, decided_implication,
  is_tautological_property_text,
}

-- The filter answers on every text, and it calls a property a tautology exactly where its
-- normalized text is not empty and is a true constant, `x == x`, `x || !x` or `!x || x`, or one
-- overlapping implication with equal sides, a false antecedent or a true consequent, or where the
-- truth table proves it.
pub is_tautological_property_text_iff :
    (u : Unicode) (text : String)
    → let expr = normalize u text in
      ((b : Bool) × (is_tautological_property_text u text ≡ answered b))
      × ((is_tautological_property_text u text ≡ answered true)
          ↔ ((str_eq expr "" ≡ false) × (IsDecided u expr ⊎ IsProved u expr)))
unfolding is_tautological_property_text
is_tautological_property_text_iff u text =
    let expr = normalize u text in
    let (answer, table) = table_tautology_iff u expr in
    elim (Bool-cases (str_eq expr "")) [
      | inl e ↦
          rw e ((false, refl), (λ h. absurd (ground (arith, h)), λ h. absurd (ground (arith, h.0))))
      | inr e ↦ elim (Bool-cases (is_true_constant expr)) [
        | inl t ↦
            rw (e, t)
              (
                (true, refl),
                (λ h. (refl, inl (constant ((is_true_constant_iff expr).0 t))), λ h. refl),
              )
        | inr t ↦ elim (Bool-cases (is_tautology_expression u expr)) [
          | inl x ↦
              rw (e, t, x)
                ((true, refl), (λ h. (refl, inl (tautology-IsDecided u expr x)), λ h. refl))
          | inr x ↦ elim (Bool-cases (decided_implication u expr)) [
            | inl y ↦
                rw (e, t, x, y)
                  ((true, refl), (λ h. (refl, inl (implication-IsDecided u expr y)), λ h. refl))
            | inr y ↦
                rw (e, t, x, y)
                  (
                    answer,
                    (
                      λ h. (refl, inr (table.0 h)),
                      λ (_, h). elim h [
                        | inr p ↦ table.1 p
                        | inl d ↦ absurd (plain-IsDecided u expr t x y d)
                      ],
                    ),
                  )
          ]
        ]
      ]
    ]
