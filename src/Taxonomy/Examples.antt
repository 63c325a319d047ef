-- ===== src/Taxonomy/Examples.antt =====
-- A failed clock-domain gate in src/mind3/core/failure_taxonomy.py.
use Prim.Native.Char.{code}
use mind.Prelude.{false, [], ◌∷◌, none, some, ◌==◌, ◌≡◌, refl, inr}
use mind.Formal.Strip.{strip, strip_left, strip_right}
use mind.Signoff.Report.{cdc, label}
use mind.Routing.Words.{Letters}
use mind.Taxonomy.Categories.{Gate, category_for, find_category}
use mind.Taxonomy.Classifier.{Failure, fine_of, classify_failure}
use mind.Taxonomy.Consistent.{canonical_for, classify_failure-canonical}
use mind.Taxonomy.Labels.{IsSynthesis, classify_failure-IsSynthesis}

-- Character tables of ASCII, case kept.
abbrev ascii : Letters
ascii = record {
  unicode = record { word = λ c. false; digit = λ c. false; space = λ c. false };
  same = λ a b. code a == code b;
  lower = λ s. s;
  upper = λ s. s;
}

abbrev cdc_gate : Gate
cdc_gate = record {
  passed = some false;
  gate = some (label cdc);
  error_category = none;
  details = some "unsynchronized crossing from s to f";
}

abbrev failure : Failure
failure = record {
  error_category = none;
  failure_reason = none;
  stdout = "";
  stderr = "";
  gate_reports = cdc_gate ∷ [];
  exit_code = none;
}

no_category : category_for (fine_of ascii failure) ≡ none
unfolding category_for find_category fine_of strip strip_left strip_right
no_category = refl

classify_failure-IsSynthesis_example : IsSynthesis (classify_failure ascii failure)
unfolding category_for find_category
classify_failure-IsSynthesis_example =
    classify_failure-IsSynthesis ascii failure [] [] cdc_gate cdc no_category refl tt refl refl
      (inr refl) refl

classify_failure-canonical_example :
    (classify_failure ascii failure).canonical_category
    ≡ canonical_for (classify_failure ascii failure).fine_grained_category
classify_failure-canonical_example = classify_failure-canonical ascii failure
