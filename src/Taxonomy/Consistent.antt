-- ===== src/Taxonomy/Consistent.antt =====
-- The two categories of a classification of src/mind3/core/failure_taxonomy.py.
use text.Mathlib.Text.{◌==◌ as str_eq}
use mind.Prelude.{
  String, Bool, true, false, List, [], ◌∷◌, Option, none, some, if◌then◌else◌, ◌≡◌, refl, inl, inr,
  Bool-cases, arith,
}
use mind.Routing.Words.{Letters}
use mind.Taxonomy.Categories.{
  FailureCategory, unknown, ClassifiedFailure, Gate, find_category, category_for,
}
use mind.Taxonomy.Classifier.{
  Failure, or_empty, has_passed, combined_log, fine_of, classify_synthesis, classify_coverage,
  classify_by_name, classify_gate, classify_gates, or_default, unknown_failure, classify_log,
  classify_reports, direct_failure, classify_by, classify_failure,
}

-- The canonical category of a fine-grained one: that of the map, or unknown.
unfoldable pub canonical_of : Option FailureCategory → FailureCategory
canonical_of none = unknown
canonical_of (some c) = c

unfoldable pub canonical_for : Option String → FailureCategory
unfolding canonical_of category_for
canonical_for none = unknown
canonical_for (some fine) = canonical_of (category_for fine)

-- The canonical category is that of the fine-grained one.
abbrev IsConsistent : ClassifiedFailure → Type 0
IsConsistent r = r.canonical_category ≡ canonical_for r.fine_grained_category

abbrev AllConsistent : Option ClassifiedFailure → Type 0
AllConsistent none = Unit
AllConsistent (some r) = IsConsistent r

module _ (l : Letters) where
  classify_synthesis-IsConsistent :
      (log name det : String) → IsConsistent (classify_synthesis l log name det)
  unfolding classify_synthesis canonical_for category_for find_category canonical_of
  classify_synthesis-IsConsistent log name det = ground arith

  classify_coverage-IsConsistent : (name det : String) → IsConsistent (classify_coverage l name det)
  unfolding classify_coverage canonical_for category_for find_category canonical_of
  classify_coverage-IsConsistent name det = ground arith

  classify_by_name-AllConsistent :
      (log name det : String) → AllConsistent (classify_by_name l log name det)
  unfolding classify_by_name canonical_for category_for find_category canonical_of
  classify_by_name-AllConsistent log name det =
      ground (
        arith,
        classify_synthesis-IsConsistent log name det,
        classify_coverage-IsConsistent name det,
      )

  known : (s : String) (c : FailureCategory) → category_for s ≡ some c → c ≡ canonical_for (some s)
  unfolding canonical_for canonical_of
  known s c e = rw e refl

  classify_gate-AllConsistent :
      (log : String) (g : Gate) (c : Option FailureCategory)
      → category_for (or_empty g.error_category) ≡ c
      → AllConsistent (classify_gate l log g c)
  unfolding classify_gate
  classify_gate-AllConsistent log g none e = classify_by_name-AllConsistent log _ _
  classify_gate-AllConsistent log g (some c) e = known (or_empty g.error_category) c e

  classify_gates-AllConsistent :
      (log : String) (gates : List Gate) → AllConsistent (classify_gates l log gates)
  unfolding classify_gates
  classify_gates-AllConsistent log [] = tt
  classify_gates-AllConsistent log (g ∷ gates) =
      let own = classify_gate l log g (category_for (or_empty g.error_category)) in
      by_result (has_passed g) own (classify_gates-AllConsistent log gates)
        (classify_gate-AllConsistent log g (category_for (or_empty g.error_category)) refl)
    where
      by_result :
          (b : Bool) (o : Option ClassifiedFailure)
          → AllConsistent (classify_gates l log gates)
          → AllConsistent o
          → AllConsistent (
              if b
              then classify_gates l log gates
              else elim o [ none ↦ classify_gates l log gates | some r ↦ some r ])
      by_result true o rest k = rest
      by_result false none rest k = rest
      by_result false (some r) rest k = k

  unknown_failure-IsConsistent :
      (f : Failure) → category_for (fine_of l f) ≡ none → IsConsistent (unknown_failure l f)
  unfolding unknown_failure or_default canonical_for find_category category_for canonical_of
  unknown_failure-IsConsistent f e = elim (Bool-cases (str_eq (fine_of l f) "")) [
    | inl p ↦ rw p refl
    | inr p ↦ rw (p, e) refl
  ]

  classify_log-IsConsistent :
      (f : Failure) (log : String)
      → category_for (fine_of l f) ≡ none
      → IsConsistent (classify_log l f log)
  unfolding classify_log canonical_for category_for find_category canonical_of
  classify_log-IsConsistent f log e = ground (arith, unknown_failure-IsConsistent f e)

  classify_by-IsConsistent :
      (f : Failure) (c : Option FailureCategory)
      → category_for (fine_of l f) ≡ c
      → IsConsistent (classify_by l f c)
  unfolding classify_by direct_failure classify_reports
  classify_by-IsConsistent f (some c) e = known (fine_of l f) c e
  classify_by-IsConsistent f none e =
      by_gates (classify_gates l (combined_log l f) f.gate_reports)
        (classify_gates-AllConsistent (combined_log l f) f.gate_reports)
    where
      by_gates :
          (o : Option ClassifiedFailure)
          → AllConsistent o
          → IsConsistent (elim o [ some r ↦ r | none ↦ classify_log l f (combined_log l f) ])
      by_gates (some r) k = k
      by_gates none k = classify_log-IsConsistent f (combined_log l f) e

-- The canonical category of every classification is that of the map for its fine-grained category, or
-- unknown where the map has none.
pub classify_failure-canonical :
    (l : Letters) (f : Failure)
    → (classify_failure l f).canonical_category
      ≡ canonical_for (classify_failure l f).fine_grained_category
unfolding classify_failure
classify_failure-canonical l f = classify_by-IsConsistent l f (category_for (fine_of l f)) refl
