-- ===== src/Signoff/Gates.antt =====
-- SiliconSignoffVerifier.verify of src/mind3/core/verifier.py: the gates in order, fail closed.
-- The gates themselves call EDA tools and are the fields of `Runners`.
use Prim.Native.String.{◌++◌ as append}
use mind.Prelude.{
  String, Bool, true, false, not, ◌&&◌, ◌||◌, List, [], ◌∷◌, ◌++◌, none, some, any, keep,
  if◌then◌else◌,
}
use mind.Signoff.Report.{
  ExitCode, GateName, yosys, lec, coverage, formal, timing, pnr, cdc, dft, label, same_gate, Metric,
  number, other, GateReport, VerificationResult, rtl, rtl_result, make_not_run_gate,
  mark_gate_status,
}

-- The flags of the constructor that steer the sequence; `liberty` is `bool(self.liberty_paths)`.
pub record Config : Type 0 where
  pub top_module : String
  pub require_formal : Bool
  pub require_pnr : Bool
  pub require_cdc : Bool
  pub require_lec : Bool
  pub liberty : Bool

-- What Gate 4 does: report, or raise a ValueError or OSError with a text.
pub data Outcome : Type 0 where
  reported : GateReport → Outcome
  raised : String → Outcome

-- The runners of the gates over the selected sources.
pub record Runners : Type 0 where
  pub run_gate1_yosys : List String → GateReport
  pub run_gate_lec : List String → String → GateReport
  pub run_gate3_coverage : List String → GateReport
  pub run_gate2_formal : List String → GateReport
  pub run_gate4_timing : List String → Outcome
  pub run_gate5_pnr : List String → GateReport
  pub run_gate6_cdc : List String → GateReport
  pub run_dft_scan_audit : List String → GateReport

-- `gate_order`: the gates that would execute, each with the condition that it is enabled.
unfoldable pub gate_order : Config → List (GateName × Bool)
gate_order c =
    (yosys, true)
    ∷ (lec, c.require_lec)
    ∷ (coverage, true)
    ∷ (formal, c.require_formal)
    ∷ (timing, c.liberty)
    ∷ (pnr, c.require_pnr)
    ∷ (cdc, c.require_cdc)
    ∷ (dft, true)
    ∷ []

-- The slice `gate_order[start_idx + 1:]`, empty if the gate is not found.
unfoldable pub after_gate : GateName → List (GateName × Bool) → List (GateName × Bool)
after_gate g [] = []
after_gate g ((h, enabled) ∷ rest) = if same_gate h g then rest else after_gate g rest

-- The NOT_RUN reports of the enabled gates of a list.
unfoldable pub not_run_reports : GateName → List (GateName × Bool) → List GateReport
not_run_reports blocker [] = []
not_run_reports blocker ((g, enabled) ∷ rest) =
    let reason = append "blocked by earlier gate failure (" (append (label blocker) ")") in
    if enabled
    then make_not_run_gate g reason ∷ not_run_reports blocker rest
    else not_run_reports blocker rest

-- `_append_not_run_gates`.
unfoldable pub append_not_run_gates : Config → List GateReport → GateName → List GateReport
append_not_run_gates c reports g = reports ++ not_run_reports g (after_gate g (gate_order c))

-- A value that goes on to the next gate, or the result that `verify` returns at once.
pub data Stage {ℓ} (A : Type ℓ) : Type ℓ where
  proceed : A → Stage A
  stop : VerificationResult → Stage A

infixl 5 ◌>>=◌
abbrev pub ◌>>=◌ {ℓ κ} : {A : Type ℓ} {B : Type κ} → Stage A → (A → Stage B) → Stage B
proceed a >>= f = f a
stop r >>= f = stop r

-- The result of a gate that failed, before the metrics of its kind are put in.
unfoldable pub failed_result : GateReport → List GateReport → VerificationResult
failed_result g reports = record rtl_result {
  exit_code = g.exit_code;
  stdout = g.stdout;
  stderr = g.stderr;
  failure_reason = some g.details;
  error_category = g.error_category;
  gate_reports = reports;
}

is_number : String × Metric → Bool
is_number (k, number v) = true
is_number (k, other) = false

-- `{k: v for k, v in metrics.items() if isinstance(v, (int, float))}`.
unfoldable pub numeric : List (String × Metric) → List (String × Metric)
unfolding is_number
numeric = keep is_number

-- The metrics that the return of each failing gate carries.
unfoldable pub with_metrics : GateName → GateReport → VerificationResult → VerificationResult
with_metrics timing g r = record r {
  timing_metrics = numeric g.metrics;
  hold_metrics = numeric g.hold_metrics;
}
with_metrics pnr g r = record r { pnr_metrics = g.metrics }
with_metrics cdc g r = record r { cdc_violations = g.cdc_violations }
with_metrics _ g r = r

-- One gate: append and mark its report; on a failure append the NOT_RUN gates and return.
unfoldable pub check_gate :
    Config → GateName → GateReport → List GateReport → Stage (List GateReport)
check_gate c name res reports =
    let reports' = reports ++ mark_gate_status res ∷ [] in
    if res.passed
    then proceed reports'
    else stop (with_metrics name res (failed_result res (append_not_run_gates c reports' name)))

-- The report that stands for an exception of the timing gate.
unfoldable pub timing_report : Outcome → GateReport
timing_report (reported g) = g
timing_report (raised exc) = record {
  gate = timing;
  passed = false;
  exit_code = ExitCode.pos 1;
  stdout = "";
  stderr = exc;
  details = append "Timing stage unavailable: " exc;
  error_category = some "ENVIRONMENT_FAILURE";
  status = none;
  not_run_reason = none;
  simulated = false;
  skipped = false;
  declared_no_cdc = false;
  netlist_path = none;
  metrics = [];
  hold_metrics = [];
  cdc_violations = [];
  dft_audit = [];
}

-- `_OPTIONAL_GATE_NAMES`, after its three conditional additions, as a membership test.
unfoldable pub is_optional_gate : Config → List GateReport → GateName → Bool
is_optional_gate c reports g =
    same_gate g pnr
    || same_gate g dft
    || (same_gate g cdc && not c.require_cdc)
    || (same_gate g lec && not c.require_lec)
    || (same_gate g cdc && any (λ r. same_gate r.gate cdc && r.declared_no_cdc) reports)

-- `silicon_verified`: no report simulated, and none skipped outside the optional gates.
unfoldable pub is_silicon_verified : Config → List GateReport → Bool
unfolding is_optional_gate
is_silicon_verified c reports =
    not (any (λ g. g.simulated) reports)
    && not (any (λ g. g.skipped && not (is_optional_gate c reports g.gate)) reports)

-- `gate1_res.get("netlist_path", f"{self.top_module}_netlist.v")`.
unfoldable pub netlist_of : Config → GateReport → String
netlist_of c g1 = elim g1.netlist_path [ none ↦ append c.top_module "_netlist.v" | some p ↦ p ]

-- Gate 1b runs only where it is required.
unfoldable pub check_lec :
    Config → Runners → List String → GateReport → List GateReport → Stage (List GateReport)
check_lec c r sources g1 reports =
    if c.require_lec
    then check_gate c lec (r.run_gate_lec sources (netlist_of c g1)) reports
    else proceed reports

-- What `verify` returns when no gate failed.
unfoldable pub success_result :
    Config
    → (gate1 gate3 gate4 gate5 gate6 audit : GateReport) → List GateReport
    → VerificationResult
unfolding is_silicon_verified
success_result c g1 g3 g4 g5 g6 gd reports = record {
  passed = true;
  domain = rtl;
  exit_code = ExitCode.pos 0;
  stdout = "Silicon signoff succeeded: All 6 hierarchical gates passed.";
  stderr = "";
  failure_reason = none;
  error_category = none;
  silicon_verified = is_silicon_verified c reports;
  netlist_path = g1.netlist_path;
  coverage_metrics = g3.metrics;
  timing_metrics = numeric g4.metrics;
  hold_metrics = numeric g4.hold_metrics;
  pnr_metrics = g5.metrics;
  cdc_violations = g6.cdc_violations;
  dft_audit = gd.dft_audit;
  gate_reports = reports;
}

-- The gates of `verify` after the sources are selected; the last value is the result.
unfoldable pub run_gates : Config → Runners → List String → Stage VerificationResult
run_gates c r sources = do
  let g1 = r.run_gate1_yosys sources
  reports₁ ← check_gate c yosys g1 []
  reports₂ ← check_lec c r sources g1 reports₁
  let g3 = r.run_gate3_coverage sources
  reports₃ ← check_gate c coverage g3 reports₂
  reports₄ ← check_gate c formal (r.run_gate2_formal sources) reports₃
  let g4 = timing_report (r.run_gate4_timing sources)
  reports₅ ← check_gate c timing g4 reports₄
  let g5 = r.run_gate5_pnr sources
  reports₆ ← check_gate c pnr g5 reports₅
  let g6 = r.run_gate6_cdc sources
  reports₇ ← check_gate c cdc g6 reports₆
  let gd = r.run_dft_scan_audit sources
  proceed (success_result c g1 g3 g4 g5 g6 gd (reports₇ ++ mark_gate_status gd ∷ []))

-- The early returns are results as well.
abbrev pub finish : Stage VerificationResult → VerificationResult
finish (proceed r) = r
finish (stop r) = r

-- `verify`, from the sources that `_select_signoff_sources` finds in the workspace.
unfoldable pub verify : Config → Runners → String → List String → VerificationResult
verify c r ws [] = record rtl_result {
  stderr = append "No Verilog/SystemVerilog sources found in " ws;
  failure_reason = some "RTL source files missing";
  error_category = some "MISSING_SOURCE_FILES";
}
verify c r ws (s ∷ sources) = finish (run_gates c r (s ∷ sources))
