-- ===== src/Cdc/Report.antt =====
-- tools/cdc_checker/report.py: the exit code and the report. What `load_top` gives back is an argument.
use mind.Prelude.{ℕ, String, List, [], ◌∷◌, Option, none, some}
use Prim.Native.String.{◌++◌ as append}
use mind.Cdc.Netlist.{Module}
use mind.Cdc.Domains.{assign_domains}
use mind.Cdc.Crossings.{analyze}
use mind.Cdc.Synchronizers.{
  Status, pass, fail, inconclusive_status, ClassifiedCrossing, Verdict, classify,
}

-- A module, the message of an InputError, or that of another exception.
pub data Loaded : Type 0 where
  loaded : Module → Loaded
  input_error : String → Loaded
  failed : String → Loaded

-- The status of a report, whose text is ERROR where there is no verdict.
pub data ReportStatus : Type 0 where
  of : Status → ReportStatus
  error_status : ReportStatus

pub record CdcReport : Type 0 where
  pub status : ReportStatus
  pub tool : String
  pub tool_version : String
  pub top : String
  pub design : Option String
  pub crossings : List ClassifiedCrossing
  pub notes : List String

abbrev pub exit_pass : ℕ
exit_pass = 0

abbrev pub exit_fail : ℕ
exit_fail = 1

abbrev pub exit_inconclusive : ℕ
exit_inconclusive = 2

abbrev pub exit_error : ℕ
exit_error = 3

-- `_verdict_exit`
unfoldable pub verdict_exit : Status → ℕ
verdict_exit pass = exit_pass
verdict_exit fail = exit_fail
verdict_exit inconclusive_status = exit_inconclusive

-- `_verdict_report`
unfoldable pub verdict_report : String → String → Verdict → CdcReport
verdict_report top name v = record {
  status = of v.status;
  tool = "structural_cdc_checker";
  tool_version = "1.0";
  top = top;
  design = some name;
  crossings = v.crossings;
  notes = v.notes;
}

-- `_error_report`
unfoldable pub error_report : String → String → CdcReport
error_report top message = record {
  status = error_status;
  tool = "structural_cdc_checker";
  tool_version = "1.0";
  top = top;
  design = none;
  crossings = [];
  notes = message ∷ [];
}

abbrev pub verdict_of : Module → Verdict
verdict_of m = classify m (assign_domains m) (analyze m (assign_domains m))

-- `run_checker`
unfoldable pub run_checker : Loaded → String → ℕ × CdcReport
unfolding verdict_exit verdict_report error_report
run_checker (loaded m) top =
    (verdict_exit (verdict_of m).status, verdict_report top m.name (verdict_of m))
run_checker (input_error message) top = (exit_error, error_report top message)
run_checker (failed message) top =
    (exit_error, error_report top (append "internal error: " message))
