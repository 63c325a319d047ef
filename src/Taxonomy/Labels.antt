-- ===== src/Taxonomy/Labels.antt =====
-- How src/mind3/core/failure_taxonomy.py reads the labels of the gates of src/mind3/core/verifier.py.
use mind.Prelude.{
  String, Bool, true, false, ◌||◌, List, [], ◌∷◌, ◌++◌, All, none, some, ◌≡◌, refl, subst, ap, ◌∙◌,
  ◌⊎◌, inl, inr, arith,
}
use mind.Formal.Scan.{occurs_in}
use mind.Signoff.Report.{GateName, formal, cdc, label}
use mind.Routing.Words.{Letters}
use mind.Taxonomy.Categories.{
  rtl_syntax_error, rtl_semantic_error, ClassifiedFailure, Gate, category_for,
}
use mind.Taxonomy.Classifier.{
  Failure, or_empty, get_or, has_passed, combined_log, fine_of, classify_synthesis,
  classify_by_name, classify_gate, classify_gates, classify_reports, classify_by, classify_failure,
}

-- The categories of a failed synthesis.
abbrev pub IsSynthesis : ClassifiedFailure → Type 0
IsSynthesis r =
    (r.canonical_category ≡ rtl_semantic_error) ⊎ (r.canonical_category ≡ rtl_syntax_error)

classify_synthesis-IsSynthesis :
    (l : Letters) (log name det : String) → IsSynthesis (classify_synthesis l log name det)
unfolding classify_synthesis
classify_synthesis-IsSynthesis l log name det = ground arith

classify_gate-IsSynthesis :
    (l : Letters) (log : String) (g : Gate) (name : GateName)
    → (name ≡ formal) ⊎ (name ≡ cdc)
    → g.gate ≡ some (label name)
    → classify_gate l log g none
      ≡ some (classify_synthesis l log (label name) (get_or g.details ""))
unfolding classify_gate classify_by_name occurs_in label
classify_gate-IsSynthesis l log g name n e =
    rw (e, yosys_in name n, or_true (occurs_in "Gate 1:" (label name))) refl
  where
    yosys_in :
        (name : GateName) → (name ≡ formal) ⊎ (name ≡ cdc) → occurs_in "Yosys" (label name) ≡ true
    yosys_in name (inl p) = rw p refl
    yosys_in name (inr p) = rw p refl

    or_true : (b : Bool) → (b || true) ≡ true
    or_true true = refl
    or_true false = refl

-- The first failed gate.
classify_gates-first :
    (l : Letters) (log : String) (before : List Gate) (g : Gate) (after : List Gate)
    (r : ClassifiedFailure)
    → All (λ h. has_passed h ≡ true) before
    → has_passed g ≡ false
    → classify_gate l log g (category_for (or_empty g.error_category)) ≡ some r
    → classify_gates l log (before ++ g ∷ after) ≡ some r
unfolding classify_gates
classify_gates-first l log [] g after r b n e = rw (n, e) refl
classify_gates-first l log (h ∷ before) g after r b n e =
    rw b.0 (classify_gates-first l log before g after r b.1 n e)

classify_failure-first :
    (l : Letters) (f : Failure) (r : ClassifiedFailure)
    → category_for (fine_of l f) ≡ none
    → classify_gates l (combined_log l f) f.gate_reports ≡ some r
    → r ≡ classify_failure l f
unfolding classify_failure classify_by classify_reports
classify_failure-first l f r e first = rw (e, classify_by, classify_reports, first) refl

-- Where the first failed gate is the formal gate or the clock-domain gate, and neither the failure nor
-- the gate names a category of the map, the failure is classified as one of synthesis: the labels of
-- these gates contain Yosys.
pub classify_failure-IsSynthesis :
    (l : Letters) (f : Failure) (before after : List Gate) (g : Gate) (name : GateName)
    → category_for (fine_of l f) ≡ none
    → f.gate_reports ≡ before ++ g ∷ after
    → All (λ h. has_passed h ≡ true) before
    → has_passed g ≡ false
    → category_for (or_empty g.error_category) ≡ none
    → (name ≡ formal) ⊎ (name ≡ cdc)
    → g.gate ≡ some (label name)
    → IsSynthesis (classify_failure l f)
classify_failure-IsSynthesis l f before after g name e q b n c k w =
    let log = combined_log l f in
    let r = classify_synthesis l log (label name) (get_or g.details "") in
    let own : classify_gate l log g (category_for (or_empty g.error_category)) ≡ some r =
      rw c (classify_gate-IsSynthesis l log g name k w) in
    let first : classify_gates l log f.gate_reports ≡ some r =
      ap (classify_gates l log) q ∙ classify_gates-first l log before g after r b n own in
    subst IsSynthesis (classify_failure-first l f r e first)
      (classify_synthesis-IsSynthesis l log (label name) (get_or g.details ""))
