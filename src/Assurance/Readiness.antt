-- ===== src/Assurance/Readiness.antt =====
-- AssuranceCheck and TapeoutReadinessVerifier of src/mind3/core/assurance.py. The file system and the
-- Unicode table of upper-case letters are parameters.
use mind.Prelude.{
  String, Bool, true, false, not, ◌&&◌, List, [], ◌∷◌, Option, none, some, all, keep, map,
  if◌then◌else◌,
}
use mind.Prelude.Keep.{is_empty}
use mind.Formal.Scan.{occurs_in}
use mind.Action.Paths.{FilePath, join, is_relative_to}

pub record AssuranceCheck : Type 0 where
  pub name : String
  pub report : String
  pub required : Bool
  pub pass_patterns : List String
  pub fail_patterns : List String

-- A check with the default patterns.
abbrev pub default_check : String → String → AssuranceCheck
default_check name report = record {
  name = name;
  report = report;
  required = true;
  pass_patterns = "PASS" ∷ "CLEAN" ∷ "MET" ∷ [];
  fail_patterns = "FAIL" ∷ "ERROR" ∷ "VIOLATED" ∷ "UNRESOLVED" ∷ [];
}

-- The checks of the default `TapeoutReadinessPolicy`.
abbrev pub default_checks : List AssuranceCheck
default_checks =
    default_check "lint" "signoff/lint.rpt"
    ∷ default_check "cdc_rdc" "signoff/cdc_rdc.rpt"
    ∷ default_check "formal_equivalence" "signoff/lec.rpt"
    ∷ default_check "low_power" "signoff/upf.rpt"
    ∷ default_check "dft" "signoff/dft.rpt"
    ∷ default_check "sta_mcmm" "signoff/sta_mcmm.rpt"
    ∷ default_check "physical_drc_lvs" "signoff/drc_lvs.rpt"
    ∷ default_check "reliability_emir" "signoff/emir.rpt"
    ∷ []

pub record Receipt : Type 0 where
  pub name : String
  pub report : Option String
  pub passed : Bool
  pub reason : String

-- The resolved workspace, where links lead, the text of a file (`none` where `is_file` is false), and
-- `str.upper`.
pub record Site : Type 0 where
  pub root : FilePath
  pub resolve : FilePath → FilePath
  pub read : FilePath → Option String
  pub upper : String → String

unfoldable pub report_path : Site → AssuranceCheck → FilePath
report_path s c = s.resolve (join s.root c.report)

-- `p.upper() in text`, where `text` is in upper case.
unfoldable pub has_pattern : Site → String → String → Bool
has_pattern s text p = occurs_in (s.upper p) (s.upper text)

unfoldable pub receipt_of_text : Site → AssuranceCheck → Option String → Receipt
receipt_of_text s c none = record {
  name = c.name;
  report = none;
  passed = not c.required;
  reason = "report missing";
}
receipt_of_text s c (some text) =
    let failures = keep (has_pattern s text) c.fail_patterns in
    let successes = keep (has_pattern s text) c.pass_patterns in
    let passed = is_empty failures && not (is_empty successes) in
    record {
      name = c.name;
      report = some c.report;
      passed = passed;
      reason =
          if passed
          then "clean receipt"
          else "missing PASS/CLEAN/MET marker or failure marker found";
    }

-- The body of the loop over the checks.
unfoldable pub receipt_of : Site → AssuranceCheck → Receipt
receipt_of s c =
    if is_relative_to (report_path s c) s.root
    then receipt_of_text s c (s.read (report_path s c))
    else record { name = c.name; report = none; passed = false; reason = "path traversal" }

-- `TapeoutReadinessVerifier.verify`: `tapeout_ready` and the receipts.
unfoldable pub verify_readiness : Site → List AssuranceCheck → Bool × List Receipt
verify_readiness s checks =
    let receipts = map (receipt_of s) checks in (all (λ r. r.passed) receipts, receipts)
