-- ===== src/Signoff/Reports.antt =====
-- What SiliconSignoffVerifier.verify (src/mind3/core/verifier.py) reports and answers, against the plan.
use mind.Prelude.{
  String, Bool, true, false, ◌&&◌, List, [], ◌∷◌, ◌++◌, ◌≡◌, refl, sym, ◌∙◌, inl, inr,
  if◌then◌else◌, Bool-cases, append_assoc, append-nil,
}
use mind.Signoff.Report.{GateName, timing, GateReport, VerificationResult, mark_gate_status}
use mind.Signoff.Gates.{
  Config, Runners, Stage, proceed, stop, ◌>>=◌, failed_result, with_metrics, check_gate,
  is_silicon_verified, append_not_run_gates, success_result, finish, verify, gate_order, after_gate,
  not_run_reports,
}
use mind.Signoff.Plan.{plan, chain, all_pass, reports_of, run_gates-chain}

-- What the return of a failing gate fixes whatever metrics it carries.
with_metrics-fixed :
    (n : GateName) (g : GateReport) (r : VerificationResult)
    → ((with_metrics n g r).passed ≡ r.passed)
      × ((with_metrics n g r).silicon_verified ≡ r.silicon_verified)
      × ((with_metrics n g r).gate_reports ≡ r.gate_reports)
      × ((with_metrics n g r).error_category ≡ r.error_category)
unfolding with_metrics
with_metrics-fixed timing g r = (refl, refl, refl, refl)
with_metrics-fixed _ g r = (refl, refl, refl, refl)

-- What a stage says after a list of gates: it goes on with all their reports, or it stops with a
-- failing result that carries them.
abbrev pub Describes : Bool → List GateReport → Stage (List GateReport) → Type 0
Describes ok reports (proceed found) = (ok ≡ true) × (found ≡ reports)
Describes ok reports (stop r) =
    (ok ≡ false) × (r.passed ≡ false) × (r.silicon_verified ≡ false) × (r.gate_reports ≡ reports)

check_gate-pass :
    (c : Config) (n : GateName) (g : GateReport) (reports : List GateReport)
    → g.passed ≡ true
    → check_gate c n g reports ≡ proceed (reports ++ mark_gate_status g ∷ [])
unfolding check_gate
check_gate-pass c n g reports p = simp p

check_gate-fail :
    (c : Config) (n : GateName) (g : GateReport) (reports : List GateReport)
    → g.passed ≡ false
    → Describes false
        (reports ++ mark_gate_status g ∷ not_run_reports n (after_gate n (gate_order c)))
        (check_gate c n g reports)
unfolding check_gate failed_result append_not_run_gates
check_gate-fail c n g reports p =
    let f =
      with_metrics-fixed n g
        (failed_result g (append_not_run_gates c (reports ++ mark_gate_status g ∷ []) n)) in
    simp p (refl, f.0, f.1, f.2 ∙ append_assoc reports (mark_gate_status g ∷ []) _)

Describes-bind :
    (reports : List GateReport) (m : Stage (List GateReport))
    (f : List GateReport → Stage (List GateReport))
    → Describes false reports m
    → Describes false reports (m >>= f)
Describes-bind reports (proceed a) f h = cc
Describes-bind reports (stop r) f h = h

chain-Describes :
    (c : Config) (gates : List (GateName × GateReport)) (reports : List GateReport)
    → Describes (all_pass gates) (reports ++ reports_of c gates) (chain c gates reports)
unfolding chain reports_of
chain-Describes c [] reports = (refl, sym (append-nil reports))
chain-Describes c ((n, g) ∷ gates) reports = elim (Bool-cases g.passed) [
  | inl p ↦
      simp (p, check_gate-pass c n g reports p)
        (rw append_assoc at (chain-Describes c gates (reports ++ mark_gate_status g ∷ [])))
  | inr p ↦ simp p (
      Describes-bind _ (check_gate c n g reports) (chain c gates) (check_gate-fail c n g reports p))
]

-- The DFT report that a run without a failure ends in.
abbrev pub audit_of : Bool → GateReport → List GateReport
audit_of ok d = if ok then mark_gate_status d ∷ [] else []

finish-Describes :
    (c : Config) (g1 g3 g4 g5 g6 d : GateReport) (ok : Bool) (found : List GateReport)
    (m : Stage (List GateReport))
    → Describes ok found m
    → let v = finish (
        m >>= λ reports.
        proceed (success_result c g1 g3 g4 g5 g6 d (reports ++ mark_gate_status d ∷ []))) in
      (v.passed ≡ ok)
      × (v.gate_reports ≡ found ++ audit_of ok d)
      × (v.silicon_verified ≡ ok && is_silicon_verified c (found ++ audit_of ok d))
unfolding success_result
finish-Describes c g1 g3 g4 g5 g6 d ok found (proceed reports) h = rw (h.0, h.1) (refl, refl, refl)
finish-Describes c g1 g3 g4 g5 g6 d ok found (stop r) h =
    rw h.0 (h.1, h.3 ∙ sym (append-nil found), h.2)

-- On a workspace with sources, for every configuration and every behaviour of the runners:
-- the result passes exactly when every blocking gate of the plan passes; its gate reports are
-- those of the plan up to the first failure, each with its status, followed by the NOT_RUN reports
-- of the enabled gates behind the failing one, or by the DFT audit if there is no failure; and
-- `silicon_verified` is the verdict on those reports, and false after a failure.
pub verify-plan :
    (c : Config) (r : Runners) (ws s : String) (ss : List String)
    → let gates = plan c r (s ∷ ss) in
      let ok = all_pass gates in
      let reports = reports_of c gates ++ audit_of ok (r.run_dft_scan_audit (s ∷ ss)) in
      let v = verify c r ws (s ∷ ss) in
      (v.passed ≡ ok)
      × (v.gate_reports ≡ reports)
      × (v.silicon_verified ≡ ok && is_silicon_verified c reports)
unfolding verify
verify-plan c r ws s ss =
    rw (run_gates-chain c r (s ∷ ss))
      (finish-Describes c _ _ _ _ _ _ _ _ _ (chain-Describes c (plan c r (s ∷ ss)) []))
