-- ===== src/Taxonomy/Classifier.antt =====
-- classify_failure of src/mind3/core/failure_taxonomy.py. A gate report's key that may be missing is an
-- Option, and every value is of the type that the verifier writes.
use text.Mathlib.Text.{◌==◌ as str_eq}
use Prim.Native.String.{◌++◌ as append}
use mind.Prelude.{
  ℕ, ◌+◌, String, Bool, false, ◌||◌, List, [], ◌∷◌, Option, none, some, if◌then◌else◌, ◌==◌,
}
use mind.Prelude.Text.{decimal, take_text}
use mind.Formal.Strip.{strip}
use mind.Formal.Scan.{occurs_in}
use mind.Signoff.Report.{ExitCode, pos, negsuc}
use mind.Routing.Words.{Letters}
use mind.Taxonomy.Categories.{
  FailureCategory, rtl_syntax_error, rtl_semantic_error, simulation_failure, formal_failure,
  timing_failure, cdc_failure, coverage_failure, environment_failure, timeout, unknown,
  ClassifiedFailure, Gate, category_for,
}
use mind.Taxonomy.Signature.{has_signature}

-- The arguments of `classify_failure`.
pub record Failure : Type 0 where
  pub error_category : Option String
  pub failure_reason : Option String
  pub stdout : String
  pub stderr : String
  pub gate_reports : List Gate
  pub exit_code : Option ExitCode

abbrev pub or_empty : Option String → String
or_empty none = ""
or_empty (some s) = s

abbrev pub get_or : Option String → String → String
get_or none d = d
get_or (some s) d = s

abbrev pub has_passed : Gate → Bool
has_passed g = elim g.passed [ none ↦ false | some b ↦ b ]

is_code : ℕ → Option ExitCode → Bool
is_code n none = false
is_code n (some (pos k)) = k == n
is_code n (some (negsuc k)) = false

code_text : Option ExitCode → String
code_text none = "None"
code_text (some (pos n)) = decimal n
code_text (some (negsuc n)) = append "-" (decimal (n + 1))

-- `failure_reason or combined_log[:300]`
reason_or : Option String → String → String
reason_or none log = take_text 300 log
reason_or (some r) log = if str_eq r "" then take_text 300 log else r

module _ (l : Letters) where
  abbrev strip' : String → String
  strip' s = strip l.unicode s

  abbrev mentions : String → String → Bool
  mentions p s = occurs_in p (l.lower s)

  -- `f"{stdout}\n{stderr}".strip()`
  unfoldable pub combined_log : Failure → String
  combined_log f = strip' (append f.stdout (append "\n" f.stderr))

  -- `(error_category or "").strip()`
  unfoldable pub fine_of : Failure → String
  fine_of f = strip' (or_empty f.error_category)

  -- A classification of a gate's failure.
  abbrev gate_failure : FailureCategory → String → String → String → String → ClassifiedFailure
  gate_failure c fine name evidence details = record {
    canonical_category = c;
    fine_grained_category = some fine;
    gate_name = some name;
    deterministic_evidence = evidence;
    raw_error_snippet = strip' (take_text 300 details);
  }

  -- The branch for the first gate.
  unfoldable pub classify_synthesis : String → String → String → ClassifiedFailure
  classify_synthesis log name det =
      if mentions "latch" det
      then gate_failure rtl_semantic_error "LATCH_INFERRED" name "Gate 1 detected inferred latch"
          det
      else if mentions "loop" det
      then gate_failure rtl_semantic_error "COMBINATIONAL_LOOP" name
          "Gate 1 detected combinational loop" det
      else if mentions "syntax" log || mentions "syntax error" det
      then gate_failure rtl_syntax_error "SYNTAX_ERROR" name "Gate 1 elaboration syntax error" det
      else gate_failure rtl_semantic_error "SYNTHESIS_ELABORATION_ERROR" name
          "Gate 1 synthesis/elaboration failure" det

  -- The branch for the coverage gate.
  unfoldable pub classify_coverage : String → String → ClassifiedFailure
  classify_coverage name det =
      if mentions "deficit" det || mentions "coverage" det
      then gate_failure coverage_failure "COVERAGE_DEFICIT" name "Gate 3 coverage threshold deficit"
          det
      else gate_failure simulation_failure "SIMULATION_FAILURE" name "Gate 3 simulation failed" det

  -- The gate by its name; none where no pattern fits.
  unfoldable pub classify_by_name : String → String → String → Option ClassifiedFailure
  unfolding classify_synthesis classify_coverage
  classify_by_name log name det =
      if occurs_in "Gate 1:" name || occurs_in "Yosys" name
      then some (classify_synthesis log name det)
      else if occurs_in "Gate 2:" name || occurs_in "Formal" name
      then some (
          gate_failure formal_failure "FORMAL_INVARIANT_BREACH" name
            "Gate 2 formal verification failed" det)
      else if occurs_in "Gate 3:" name || occurs_in "Coverage" name || occurs_in "Simulation" name
      then some (classify_coverage name det)
      else if occurs_in "Gate 4:" name || occurs_in "Timing" name
      then some (
          gate_failure timing_failure "TIMING_SLACK_VIOLATION" name
            "Gate 4 timing constraint violation" det)
      else if occurs_in "Gate 6:" name || occurs_in "CDC" name
      then some (
          gate_failure cdc_failure "CDC_VIOLATION" name "Gate 6 clock domain crossing violation"
            det)
      else none

  -- A failed gate, by the canonical category of its own category, if it has one.
  unfoldable pub classify_gate : String → Gate → Option FailureCategory → Option ClassifiedFailure
  unfolding classify_by_name
  classify_gate log g (some c) = some (
      gate_failure c (or_empty g.error_category) (get_or g.gate "Unknown Gate")
        (append "Gate failure in '"
          (append (get_or g.gate "Unknown Gate") (append "': " (or_empty g.error_category))))
        (get_or g.details ""))
  classify_gate log g none =
      classify_by_name log (get_or g.gate "Unknown Gate") (get_or g.details "")

  -- The loop over the gate reports.
  unfoldable pub classify_gates : String → List Gate → Option ClassifiedFailure
  unfolding classify_gate category_for
  classify_gates log [] = none
  classify_gates log (g ∷ gates) =
      let rest = classify_gates log gates in
      let own = classify_gate log g (category_for (or_empty g.error_category)) in
      if has_passed g then rest else elim own [ none ↦ rest | some r ↦ some r ]

  -- A classification by the logs.
  abbrev log_failure : FailureCategory → String → String → String → ClassifiedFailure
  log_failure c fine evidence log = record {
    canonical_category = c;
    fine_grained_category = some fine;
    gate_name = none;
    deterministic_evidence = evidence;
    raw_error_snippet = take_text 300 log;
  }

  unfoldable pub or_default : String → String → String
  or_default s d = if str_eq s "" then d else s

  unfoldable pub unknown_failure : Failure → ClassifiedFailure
  unfolding or_default reason_or
  unknown_failure f = record {
    canonical_category = unknown;
    fine_grained_category = some (or_default (fine_of f) "UNKNOWN");
    gate_name = none;
    deterministic_evidence = "Unclassified failure pattern";
    raw_error_snippet =
        or_default (strip' (reason_or f.failure_reason (combined_log f))) "No output available";
  }

  -- The inspection of the logs and the exit code.
  unfoldable pub classify_log : Failure → String → ClassifiedFailure
  unfolding is_code code_text has_signature unknown_failure
  classify_log f log =
      if is_code 124 f.exit_code || mentions "timed out" log || mentions "timeout" log
      then log_failure timeout "TIMEOUT"
          (append "Process exited with timeout (code " (append (code_text f.exit_code) ")")) log
      else if mentions "binary missing" log
          || mentions "not found on path" log
          || is_code 127 f.exit_code
      then log_failure environment_failure "EDA_BINARY_MISSING"
          "Missing binary detected on PATH or exit code 127" log
      else if has_signature l log
      then log_failure simulation_failure "ASSERTION_FAILED"
          "Simulation assertion or fatal mismatch signature detected in logs" log
      else if mentions "syntax error" log || mentions "syntax_error" log
      then log_failure rtl_syntax_error "SYNTAX_ERROR"
          "Syntax error string detected in tool compilation output" log
      else if mentions "latch" log
      then log_failure rtl_semantic_error "LATCH_INFERRED"
          "Latch inference signature detected in synthesis log" log
      else if mentions "combinational loop" log
      then log_failure rtl_semantic_error "COMBINATIONAL_LOOP"
          "Combinational loop detected in synthesis log" log
      else unknown_failure f

  -- The gates, and behind them the logs.
  unfoldable pub classify_reports : Failure → ClassifiedFailure
  unfolding classify_gates classify_log
  classify_reports f = elim (classify_gates (combined_log f) f.gate_reports) [
    | some r ↦ r
    | none ↦ classify_log f (combined_log f)
  ]

  unfoldable pub direct_failure : Failure → FailureCategory → ClassifiedFailure
  unfolding reason_or
  direct_failure f c = record {
    canonical_category = c;
    fine_grained_category = some (fine_of f);
    gate_name = none;
    deterministic_evidence = append "Direct category match: " (fine_of f);
    raw_error_snippet = strip' (reason_or f.failure_reason (combined_log f));
  }

  -- By the canonical category of the failure's own category, if it has one.
  unfoldable pub classify_by : Failure → Option FailureCategory → ClassifiedFailure
  unfolding direct_failure classify_reports
  classify_by f (some c) = direct_failure f c
  classify_by f none = classify_reports f

  -- `classify_failure`
  unfoldable pub classify_failure : Failure → ClassifiedFailure
  unfolding classify_by category_for
  classify_failure f = classify_by f (category_for (fine_of f))
