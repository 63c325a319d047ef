-- ===== src/Signoff/Examples.antt =====
-- Runs of the signoff gates (src/mind3/core/verifier.py) on small sets of reports.
use mind.Prelude.{Bool, true, false, [], ◌∷◌, ◌++◌, ◌&&◌, ◌≡◌, refl, ◌⊎◌, ◌↔◌, none, some, All}
use mind.Signoff.Report.{
  ExitCode, GateName, yosys, lec, coverage, formal, timing, pnr, cdc, dft, same_gate, GateReport,
  mark_gate_status, make_not_run_gate,
}
use mind.Signoff.Gates.{
  Config, Runners, reported, verify, run_gates, check_gate, check_lec, timing_report,
  success_result, failed_result, with_metrics, append_not_run_gates, after_gate, gate_order,
  not_run_reports, is_silicon_verified,
}
use mind.Signoff.Plan.{plan, all_pass, reports_of}
use mind.Signoff.Reports.{audit_of, verify-plan}
use mind.Signoff.Verdict.{StatusMatches, IsBacked, verify-StatusMatches, verify-IsBacked}
use mind.Signoff.Order.{
  IsInOrder, gates_of, IsLabelled, verify-IsInOrder, first_failure, Explains, verify-Explains,
}
use mind.Signoff.Requirement.{
  CdcContract, DeclaresNoCdc, cdc_requirement, cdc_requirement-waived_iff,
}

-- A report of a gate that ran: its name, whether it passed, and whether it was skipped.
abbrev report : GateName → Bool → Bool → GateReport
report n ok skip = record {
  gate = n;
  passed = ok;
  exit_code = ExitCode.pos 0;
  stdout = "";
  stderr = "";
  details = "ran";
  error_category = none;
  status = none;
  not_run_reason = none;
  simulated = false;
  skipped = skip;
  declared_no_cdc = false;
  netlist_path = some "top_netlist.v";
  metrics = [];
  hold_metrics = [];
  cdc_violations = [];
  dft_audit = [];
}

-- Runners whose formal gate passes or not, and whose place-and-route gate is skipped.
abbrev runners : Bool → Runners
runners formal_ok = record {
  run_gate1_yosys = λ s. report yosys true false;
  run_gate_lec = λ s n. report lec true false;
  run_gate3_coverage = λ s. report coverage true false;
  run_gate2_formal = λ s. report formal formal_ok false;
  run_gate4_timing = λ s. reported (report timing true false);
  run_gate5_pnr = λ s. report pnr true true;
  run_gate6_cdc = λ s. report cdc true false;
  run_dft_scan_audit = λ s. report dft false false;
}

abbrev config : Config
config = record {
  top_module = "top";
  require_formal = true;
  require_pnr = false;
  require_cdc = true;
  require_lec = false;
  liberty = true;
}

runners-IsLabelled : (b : Bool) → IsLabelled (runners b) ("top.sv" ∷ [])
unfolding timing_report
runners-IsLabelled b = record {
  gate1 = refl;
  gate1b = λ n. refl;
  gate3 = refl;
  gate2 = refl;
  gate4 = refl;
  gate5 = refl;
  gate6 = refl;
  audit = refl;
}

-- A clean run is silicon verified although place-and-route was skipped and the audit failed.
clean : (verify config (runners true) "/ws" ("top.sv" ∷ [])).silicon_verified ≡ true
unfolding verify run_gates check_gate check_lec timing_report success_result mark_gate_status
    same_gate
clean = refl

-- After a formal failure the gates that are enabled and come later are reported as not run.
blocked :
    gates_of (verify config (runners false) "/ws" ("top.sv" ∷ [])).gate_reports
    ≡ yosys ∷ coverage ∷ formal ∷ timing ∷ cdc ∷ dft ∷ []
unfolding verify run_gates check_gate check_lec timing_report mark_gate_status failed_result
    with_metrics append_not_run_gates after_gate gate_order not_run_reports make_not_run_gate
    same_gate
blocked = refl

verify-plan_example :
    let gates = plan config (runners false) ("top.sv" ∷ []) in
    let ok = all_pass gates in
    let reports = reports_of config gates ++ audit_of ok (report dft false false) in
    let v = verify config (runners false) "/ws" ("top.sv" ∷ []) in
    (v.passed ≡ ok)
    × (v.gate_reports ≡ reports)
    × (v.silicon_verified ≡ ok && is_silicon_verified config reports)
verify-plan_example = verify-plan config (runners false) "/ws" "top.sv" []

verify-StatusMatches_example :
    All StatusMatches (verify config (runners false) "/ws" ("top.sv" ∷ [])).gate_reports
verify-StatusMatches_example = verify-StatusMatches config (runners false) "/ws" "top.sv" []

verify-IsBacked_example :
    let v = verify config (runners true) "/ws" ("top.sv" ∷ []) in
    (v.passed ≡ true) × All (IsBacked config v.gate_reports) v.gate_reports
verify-IsBacked_example = verify-IsBacked config (runners true) "/ws" "top.sv" [] clean

verify-IsInOrder_example :
    IsInOrder 0 (gates_of (verify config (runners false) "/ws" ("top.sv" ∷ [])).gate_reports)
verify-IsInOrder_example =
    verify-IsInOrder config (runners false) "/ws" "top.sv" [] (runners-IsLabelled false)

fails_at_formal :
    first_failure (plan config (runners false) ("top.sv" ∷ [])) ≡ some (report formal false false)
unfolding first_failure plan timing_report
fails_at_formal = refl

verify-Explains_example :
    Explains (report formal false false) (verify config (runners false) "/ws" ("top.sv" ∷ []))
verify-Explains_example = verify-Explains config (runners false) "/ws" "top.sv" [] fails_at_formal

abbrev single_clock : CdcContract
single_clock = record { async_inputs = some []; reset_synchronous = some true }

cdc_requirement-waived_iff_example : ((cdc_requirement true (some single_clock)).0 ≡ false) ↔ (
    (◌≡◌ {A = Bool} true false)
    ⊎ ((k : CdcContract) × (some single_clock ≡ some k) × DeclaresNoCdc k))
cdc_requirement-waived_iff_example = cdc_requirement-waived_iff true (some single_clock)
