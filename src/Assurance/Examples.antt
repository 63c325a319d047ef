-- ===== src/Assurance/Examples.antt =====
-- Reports under src/mind3/core/assurance.py.
use mind.Prelude.{String, true, List, [], ◌∷◌, All, some, ◌≡◌, ◌↔◌, refl}
use mind.Formal.Scan.{occurs_in}
use mind.Action.Paths.{join, is_relative_to}
use mind.Assurance.Readiness.{
  AssuranceCheck, default_check, Site, report_path, has_pattern, receipt_of_text, receipt_of,
  verify_readiness,
}
use mind.Assurance.Ready.{IsMet, verify_readiness_iff}

-- One report with a text, in a workspace without links; the text is in upper case already.
abbrev site : String → Site
site text = record {
  root = "/" ∷ "ws" ∷ [];
  resolve = λ p. p;
  read = λ p. some text;
  upper = λ t. t;
}

abbrev lint : List AssuranceCheck
lint = default_check "lint" "signoff/lint.rpt" ∷ []

clean_report : (verify_readiness (site "LINT CLEAN") lint).0 ≡ true
unfolding verify_readiness receipt_of receipt_of_text is_relative_to report_path join has_pattern
    occurs_in
clean_report = refl

-- A marker is found inside another word.
unmet_report : (verify_readiness (site "TIMING UNMET") lint).0 ≡ true
unfolding verify_readiness receipt_of receipt_of_text is_relative_to report_path join has_pattern
    occurs_in
unmet_report = refl

verify_readiness_iff_example :
    ((verify_readiness (site "LINT CLEAN") lint).0 ≡ true) ↔ All (IsMet (site "LINT CLEAN")) lint
verify_readiness_iff_example = verify_readiness_iff (site "LINT CLEAN") lint
