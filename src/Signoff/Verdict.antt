-- ===== src/Signoff/Verdict.antt =====
-- What a verdict of SiliconSignoffVerifier.verify (src/mind3/core/verifier.py) lets a reader conclude.
use mind.Prelude.{
  String, Bool, true, false, not, ◌&&◌, List, [], ◌∷◌, ◌++◌, ◌≡◌, refl, sym, ◌∙◌, ◌⊎◌, inl, inr,
  some, All, All-append, All-map, All-and, any-false→All, Bool-cases, &&-true_iff, arith, subst,
}
use mind.Signoff.Report.{
  GateName, GateReport, pass, fail, not_run, label_real_eda, label_skipped, mark_gate_status,
  make_not_run_gate, get_gate_presentation_label,
}
use mind.Signoff.Gates.{
  Config, Runners, is_optional_gate, is_silicon_verified, verify, gate_order, after_gate,
  not_run_reports,
}
use mind.Signoff.Plan.{plan, all_pass, reports_of}
use mind.Signoff.Reports.{audit_of, verify-plan}

-- PASS and FAIL say whether the gate passed, and a gate that did not run has not passed.
abbrev pub StatusMatches : GateReport → Type 0
StatusMatches g =
    ((g.status ≡ some pass) × (g.passed ≡ true))
    ⊎ ((g.status ≡ some fail) × (g.passed ≡ false))
    ⊎ ((g.status ≡ some not_run) × (g.passed ≡ false))

mark-StatusMatches : (g : GateReport) → StatusMatches (mark_gate_status g)
unfolding mark_gate_status
mark-StatusMatches g = ground arith

not_run-StatusMatches :
    (n : GateName) (l : List (GateName × Bool)) → All StatusMatches (not_run_reports n l)
unfolding not_run_reports make_not_run_gate
not_run-StatusMatches n [] = tt
not_run-StatusMatches n ((g, true) ∷ l) = (inr (inr (refl, refl)), not_run-StatusMatches n l)
not_run-StatusMatches n ((g, false) ∷ l) = not_run-StatusMatches n l

reports_of-StatusMatches :
    (c : Config) (gates : List (GateName × GateReport)) → All StatusMatches (reports_of c gates)
unfolding reports_of
reports_of-StatusMatches c [] = tt
reports_of-StatusMatches c ((n, g) ∷ gates) = elim (Bool-cases g.passed) [
  | inl p ↦ simp p (mark-StatusMatches g, reports_of-StatusMatches c gates)
  | inr p ↦ simp p (mark-StatusMatches g, not_run-StatusMatches n (after_gate n (gate_order c)))
]

audit-StatusMatches : (ok : Bool) (d : GateReport) → All StatusMatches (audit_of ok d)
audit-StatusMatches true d = (mark-StatusMatches d, tt)
audit-StatusMatches false d = tt

-- In every result of a run on some sources the status of each report agrees with its `passed`
-- flag, and no report marked NOT_RUN counts as passed.
pub verify-StatusMatches :
    (c : Config) (r : Runners) (ws s : String) (ss : List String)
    → All StatusMatches (verify c r ws (s ∷ ss)).gate_reports
verify-StatusMatches c r ws s ss = subst (All StatusMatches) (sym (verify-plan c r ws s ss).1) (
    All-append StatusMatches (reports_of c (plan c r (s ∷ ss))) _
      (reports_of-StatusMatches c (plan c r (s ∷ ss)))
      (audit-StatusMatches (all_pass (plan c r (s ∷ ss))) (r.run_dft_scan_audit (s ∷ ss))))

-- The gate was executed.
abbrev IsExecuted : GateReport → Type 0
IsExecuted g = (g.status ≡ some pass) ⊎ (g.status ≡ some fail)

mark-IsExecuted : (g : GateReport) → IsExecuted (mark_gate_status g)
unfolding mark_gate_status
mark-IsExecuted g = ground arith

reports_of-IsExecuted :
    (c : Config) (gates : List (GateName × GateReport))
    → all_pass gates ≡ true
    → All IsExecuted (reports_of c gates)
unfolding reports_of
reports_of-IsExecuted c [] h = tt
reports_of-IsExecuted c ((n, g) ∷ gates) h =
    let p : g.passed ≡ true = ground arith in
    simp p (mark-IsExecuted g, reports_of-IsExecuted c gates (ground arith))

-- The presentation label is [REAL EDA], or it is [SKIPPED] and the gate is optional in the run.
abbrev pub IsBacked : Config → List GateReport → GateReport → Type 0
IsBacked c reports g =
    (get_gate_presentation_label g ≡ some label_real_eda)
    ⊎ ((get_gate_presentation_label g ≡ some label_skipped)
        × (is_optional_gate c reports g.gate ≡ true))

label-IsBacked :
    (c : Config) (reports : List GateReport) (g : GateReport)
    → IsExecuted g
    → g.simulated ≡ false
    → (g.skipped && not (is_optional_gate c reports g.gate)) ≡ false
    → IsBacked c reports g
unfolding get_gate_presentation_label
label-IsBacked c reports g e s k = ground arith

silicon-IsBacked :
    (c : Config) (reports : List GateReport)
    → All IsExecuted reports
    → is_silicon_verified c reports ≡ true
    → All (IsBacked c reports) reports
unfolding is_silicon_verified
silicon-IsBacked c reports e h =
    All-map (λ g f. label-IsBacked c reports g f.0 f.1.0 f.1.1) reports
      (All-and _ _ reports e (
        All-and _ _ reports (any-false→All _ reports (ground arith))
          (any-false→All _ reports (ground arith))))

audit-IsExecuted : (ok : Bool) (d : GateReport) → All IsExecuted (audit_of ok d)
audit-IsExecuted true d = (mark-IsExecuted d, tt)
audit-IsExecuted false d = tt

-- On a workspace with sources, a result that is silicon verified has passed, and each of its
-- reports is labelled [REAL EDA], or
-- is labelled [SKIPPED] and belongs to a gate that is optional in this run: none was simulated,
-- none is contradictory and none did not run.
pub verify-IsBacked :
    (c : Config) (r : Runners) (ws s : String) (ss : List String)
    → let v = verify c r ws (s ∷ ss) in
      v.silicon_verified ≡ true → (v.passed ≡ true) × All (IsBacked c v.gate_reports) v.gate_reports
verify-IsBacked c r ws s ss h =
    let ok = all_pass (plan c r (s ∷ ss)) in
    let e = verify-plan c r ws s ss in
    let reports = reports_of c (plan c r (s ∷ ss)) ++ audit_of ok (r.run_dft_scan_audit (s ∷ ss)) in
    let both : (ok ≡ true) × (is_silicon_verified c reports ≡ true) =
      (&&-true_iff ok (is_silicon_verified c reports)).0 (sym e.2 ∙ h) in
    (
      e.0 ∙ both.0,
      subst (λ l. All (IsBacked c l) l) (sym e.1)
          (silicon-IsBacked c reports
            (All-append IsExecuted (reports_of c (plan c r (s ∷ ss))) _
              (reports_of-IsExecuted c (plan c r (s ∷ ss)) both.0) (audit-IsExecuted ok _))
            both.1),
    )
