-- ===== src/Signoff/Plan.antt =====
-- An independent description of SiliconSignoffVerifier.verify (src/mind3/core/verifier.py): the list of
-- gates with their reports, and the walk along it up to the first failure.
use mind.Prelude.{
  String, Bool, List, [], ◌∷◌, ◌++◌, ◌≡◌, refl, inl, inr, all, if◌then◌else◌, Bool-cases,
}
use mind.Signoff.Report.{
  GateName, yosys, lec, coverage, formal, timing, pnr, cdc, GateReport, mark_gate_status,
}
use mind.Signoff.Gates.{
  Config, Runners, Stage, proceed, stop, ◌>>=◌, gate_order, after_gate, not_run_reports, netlist_of,
  check_gate, check_lec, timing_report, success_result, run_gates,
}

-- The blocking gates of a run, in order, each with the report that its runner makes.
unfoldable pub plan : Config → Runners → List String → List (GateName × GateReport)
plan c r s =
    let g1 = r.run_gate1_yosys s in
    let tail =
      (coverage, r.run_gate3_coverage s)
      ∷ (formal, r.run_gate2_formal s)
      ∷ (timing, timing_report (r.run_gate4_timing s))
      ∷ (pnr, r.run_gate5_pnr s)
      ∷ (cdc, r.run_gate6_cdc s)
      ∷ [] in
    (yosys, g1) ∷ (if c.require_lec then (lec, r.run_gate_lec s (netlist_of c g1)) ∷ tail else tail)

-- The gates of a list, checked one after the other.
unfoldable pub chain :
    Config → List (GateName × GateReport) → List GateReport → Stage (List GateReport)
chain c [] reports = proceed reports
chain c ((n, g) ∷ gates) reports = check_gate c n g reports >>= chain c gates

-- All gates of a list passed.
abbrev pub all_pass : List (GateName × GateReport) → Bool
all_pass = all (λ g. g.1.passed)

-- The reports that a run leaves: those of the gates up to the first failure, with their status,
-- and behind a failure the NOT_RUN reports of the enabled gates that come after it.
unfoldable pub reports_of : Config → List (GateName × GateReport) → List GateReport
reports_of c [] = []
reports_of c ((n, g) ∷ gates) =
    mark_gate_status g
    ∷ (if g.passed then reports_of c gates else not_run_reports n (after_gate n (gate_order c)))

>>=-assoc {ℓ κ λ'} :
    {A : Type ℓ} {B : Type κ} {C : Type λ'} (m : Stage A) (f : A → Stage B) (g : B → Stage C)
    → ((m >>= f) >>= g) ≡ (m >>= λ a. f a >>= g)
>>=-assoc (proceed a) f g = refl
>>=-assoc (stop r) f g = refl

-- `run_gates` is the chain over the plan, and then the audit and the verdict.
pub run_gates-chain :
    (c : Config) (r : Runners) (s : List String)
    → run_gates c r s ≡ (
        chain c (plan c r s) [] >>= λ reports. proceed (
          success_result c
            (r.run_gate1_yosys s)
            (r.run_gate3_coverage s)
            (timing_report (r.run_gate4_timing s))
            (r.run_gate5_pnr s)
            (r.run_gate6_cdc s)
            (r.run_dft_scan_audit s)
            (reports ++ mark_gate_status (r.run_dft_scan_audit s) ∷ [])))
unfolding run_gates check_lec plan chain
run_gates-chain c r s = elim (Bool-cases c.require_lec) [
  | inl on ↦ simp (on, >>=-assoc)
  | inr off ↦ simp (off, >>=-assoc)
]
