-- ===== src/Signoff/Report.antt =====
-- Gate reports and verification results: src/mind3/core/verifier.py's report dictionaries and their
-- labels, and VerificationResult of src/mind3/core/types.py. A key that a report may lack is an Option.
use Prim.Native.String.{◌++◌ as append}
use mind.Prelude.{ℕ, String, Bool, true, false, List, [], Option, none, some, if◌then◌else◌}

-- A process exit code; `negsuc n` is -(n + 1).
pub data ExitCode : Type 0 where
  pos : ℕ → ExitCode
  negsuc : ℕ → ExitCode

-- The eight gates, in the order of `gate_order`.
pub data GateName : Type 0 where
  yosys lec coverage formal timing pnr cdc dft : GateName

-- The text of the "gate" key.
unfoldable pub label : GateName → String
label yosys = "Gate 1: Yosys Elaboration & Latch Trap"
label lec = "Gate 1b: Logic Equivalence Checking (LEC)"
label coverage = "Gate 3: Verilator Coverage Signoff"
label formal = "Gate 2: SymbiYosys Formal Property Verification"
label timing = "Gate 4: OpenSTA Multi-Corner Timing Signoff"
label pnr = "Gate 5: OpenROAD Place-and-Route"
label cdc = "Gate 6: Yosys CDC Static Analysis"
label dft = "DFT Scan Audit (Advisory)"

-- `a == b` on gate names.
unfoldable pub same_gate : GateName → GateName → Bool
same_gate yosys yosys = true
same_gate lec lec = true
same_gate coverage coverage = true
same_gate formal formal = true
same_gate timing timing = true
same_gate pnr pnr = true
same_gate cdc cdc = true
same_gate dft dft = true
same_gate _ _ = false

pub data Status : Type 0 where
  pass fail not_run : Status

-- A metric is a number, in a fixed scale, or a value that is neither an int nor a float.
pub data Metric : Type 0 where
  number : ExitCode → Metric
  other : Metric

pub record GateReport : Type 0 where
  pub gate : GateName
  pub passed : Bool
  pub exit_code : ExitCode
  pub stdout : String
  pub stderr : String
  pub details : String
  pub error_category : Option String
  pub status : Option Status
  pub not_run_reason : Option String
  pub simulated : Bool
  pub skipped : Bool
  -- `cdc_skip_reason == "contract_declares_no_cdc"`
  pub declared_no_cdc : Bool
  pub netlist_path : Option String
  pub metrics : List (String × Metric)
  pub hold_metrics : List (String × Metric)
  pub cdc_violations : List String
  pub dft_audit : List (String × Metric)

pub data VerificationDomain : Type 0 where
  rtl software physical_design vlsi_device industry_report : VerificationDomain

pub record VerificationResult : Type 0 where
  pub passed : Bool
  pub domain : VerificationDomain
  pub exit_code : ExitCode
  pub stdout : String
  pub stderr : String
  pub failure_reason : Option String
  pub error_category : Option String
  pub silicon_verified : Bool
  pub netlist_path : Option String
  pub coverage_metrics : List (String × Metric)
  pub timing_metrics : List (String × Metric)
  pub hold_metrics : List (String × Metric)
  pub pnr_metrics : List (String × Metric)
  pub cdc_violations : List String
  pub dft_audit : List (String × Metric)
  pub gate_reports : List GateReport

-- The presentation labels; a contradictory report raises ValueError.
pub data Label : Type 0 where
  label_not_run label_skipped label_simulated label_real_eda : Label

unfoldable pub get_gate_presentation_label : GateReport → Option Label
get_gate_presentation_label g = elim g.status [
  | some not_run ↦ some label_not_run
  | _ ↦
      if g.skipped
      then if g.simulated then none else some label_skipped
      else if g.simulated
      then some label_simulated
      else some label_real_eda
]

-- The status tag of a row and its provenance label; `none` is the ValueError of the label.
pub data RowStatus : Type 0 where
  row_not_run row_skip row_pass row_fail : RowStatus

row_status : GateReport → RowStatus
row_status g = elim g.status [
  | some not_run ↦ row_not_run
  | _ ↦ if g.skipped then row_skip else if g.passed then row_pass else row_fail
]

unfoldable pub format_gate_report_row : GateReport → Option (RowStatus × Label)
unfolding row_status get_gate_presentation_label
format_gate_report_row g = elim (get_gate_presentation_label g) [
  | none ↦ none
  | some l ↦ some (row_status g, l)
]

-- The result of an RTL run with the defaults of the pydantic fields.
abbrev pub rtl_result : VerificationResult
rtl_result = record {
  passed = false;
  domain = rtl;
  exit_code = ExitCode.pos 1;
  stdout = "";
  stderr = "";
  failure_reason = none;
  error_category = none;
  silicon_verified = false;
  netlist_path = none;
  coverage_metrics = [];
  timing_metrics = [];
  hold_metrics = [];
  pnr_metrics = [];
  cdc_violations = [];
  dft_audit = [];
  gate_reports = [];
}

-- `_make_not_run_gate`.
unfoldable pub make_not_run_gate : GateName → String → GateReport
make_not_run_gate g reason = record {
  gate = g;
  passed = false;
  exit_code = ExitCode.negsuc 0;
  stdout = "";
  stderr = "";
  details = append "NOT_RUN: " reason;
  error_category = some "NOT_RUN";
  status = some not_run;
  not_run_reason = some reason;
  simulated = false;
  skipped = false;
  declared_no_cdc = false;
  netlist_path = none;
  metrics = [];
  hold_metrics = [];
  cdc_violations = [];
  dft_audit = [];
}

-- `_mark_gate_status`: the report is shared with the list, so the marked one stands there.
unfoldable pub mark_gate_status : GateReport → GateReport
mark_gate_status g = record g { status = some (if g.passed then pass else fail) }
