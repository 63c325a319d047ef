-- ===== src/Signoff/Order.antt =====
-- The order of the gate reports, and the failure that a result of SiliconSignoffVerifier.verify
-- (src/mind3/core/verifier.py) names.
use mind.Prelude.{
  ℕ, ◌<◌, ◌≤◌, String, Bool, true, false, List, [], ◌∷◌, ◌++◌, append-nil, map, ◌≡◌, refl, sym, ◌∙◌,
  inl, inr, Option, none, some, All, if◌then◌else◌, Bool-cases, arith, subst,
}
use mind.Signoff.Report.{
  GateName, yosys, lec, coverage, formal, timing, pnr, cdc, dft, same_gate, GateReport,
  VerificationResult, mark_gate_status, make_not_run_gate,
}
use mind.Signoff.Gates.{
  Config, Runners, Stage, proceed, stop, ◌>>=◌, verify, gate_order, after_gate, not_run_reports,
  timing_report, netlist_of, with_metrics, failed_result, check_gate, append_not_run_gates, finish,
}
use mind.Signoff.Plan.{plan, chain, run_gates-chain, all_pass, reports_of}
use mind.Signoff.Reports.{audit_of, verify-plan}

-- The place of a gate in the flow.
abbrev pub rank : GateName → ℕ
rank yosys = 1
rank lec = 2
rank coverage = 3
rank formal = 4
rank timing = 5
rank pnr = 6
rank cdc = 7
rank dft = 8

-- The gates stand in the order of the flow, each at most once, all behind place `k`.
abbrev pub IsInOrder : ℕ → List GateName → Type 0
IsInOrder k [] = Unit
IsInOrder k (g ∷ gs) = (k < rank g) × IsInOrder (rank g) gs

abbrev pub gates_of : List GateReport → List GateName
gates_of = map (λ g. g.gate)

-- Every runner labels its report with its own gate.
pub record IsLabelled (r : Runners) (s : List String) : Type 0 where
  pub gate1 : (r.run_gate1_yosys s).gate ≡ yosys
  pub gate1b : (n : String) → (r.run_gate_lec s n).gate ≡ lec
  pub gate3 : (r.run_gate3_coverage s).gate ≡ coverage
  pub gate2 : (r.run_gate2_formal s).gate ≡ formal
  pub gate4 : (timing_report (r.run_gate4_timing s)).gate ≡ timing
  pub gate5 : (r.run_gate5_pnr s).gate ≡ pnr
  pub gate6 : (r.run_gate6_cdc s).gate ≡ cdc
  pub audit : (r.run_dft_scan_audit s).gate ≡ dft

IsInOrder-weaken : (j k : ℕ) (gs : List GateName) → j ≤ k → IsInOrder k gs → IsInOrder j gs
IsInOrder-weaken j k [] h o = tt
IsInOrder-weaken j k (g ∷ gs) h o = (omega arith, o.1)

not_run-IsInOrder :
    (n : GateName) (k : ℕ) (l : List (GateName × Bool))
    → IsInOrder k (map (λ e. e.0) l)
    → IsInOrder k (gates_of (not_run_reports n l))
unfolding not_run_reports make_not_run_gate
not_run-IsInOrder n k [] h = tt
not_run-IsInOrder n k ((g, true) ∷ l) h = (h.0, not_run-IsInOrder n (rank g) l h.1)
not_run-IsInOrder n k ((g, false) ∷ l) h =
    not_run-IsInOrder n k l (IsInOrder-weaken k (rank g) _ (omega arith) h.1)

after_gate-IsInOrder :
    (c : Config) (n : GateName) → IsInOrder (rank n) (map (λ e. e.0) (after_gate n (gate_order c)))
unfolding after_gate gate_order same_gate
after_gate-IsInOrder c yosys = omega arith
after_gate-IsInOrder c _ = omega arith

-- A list of gates whose reports carry their names, in order and behind place `k`.
abbrev IsPlanned : ℕ → List (GateName × GateReport) → Type 0
IsPlanned k [] = Unit
IsPlanned k ((n, g) ∷ gates) = (g.gate ≡ n) × (k < rank n) × IsPlanned (rank n) gates

plan-IsPlanned :
    (c : Config) (r : Runners) (s : List String) → IsLabelled r s → IsPlanned 0 (plan c r s)
unfolding plan
plan-IsPlanned c r s h = elim (Bool-cases c.require_lec) [
  | inl on ↦ simp on (ground (arith, h.gate1b (netlist_of c (r.run_gate1_yosys s))))
  | inr off ↦ simp off (ground arith)
]

reports_of-IsInOrder :
    (c : Config) (k : ℕ) (gates : List (GateName × GateReport))
    → IsPlanned k gates
    → IsInOrder k (gates_of (reports_of c gates))
unfolding reports_of mark_gate_status
reports_of-IsInOrder c k [] h = tt
reports_of-IsInOrder c k ((n, g) ∷ gates) h = elim (Bool-cases g.passed) [
  | inl p ↦ simp (p, h.0) (h.1, reports_of-IsInOrder c (rank n) gates h.2)
  | inr p ↦
      simp (p, h.0)
        (h.1, not_run-IsInOrder n (rank n) (after_gate n (gate_order c)) (after_gate-IsInOrder c n))
]

IsPlanned-audit :
    (k : ℕ) (gates : List (GateName × GateReport)) (d : GateReport)
    → d.gate ≡ dft
    → k < 8
    → All (λ g. rank g.0 < 8) gates
    → IsPlanned k gates
    → IsPlanned k (gates ++ (dft, d) ∷ [])
IsPlanned-audit k [] d e b a h = (e, b, tt)
IsPlanned-audit k ((n, g) ∷ gates) d e b a h =
    (h.0, h.1, IsPlanned-audit (rank n) gates d e a.0 a.1 h.2)

plan-before_audit :
    (c : Config) (r : Runners) (s : List String) → All (λ g. rank g.0 < 8) (plan c r s)
unfolding plan
plan-before_audit c r s = elim (Bool-cases c.require_lec) [
  | inl on ↦ simp on (omega arith)
  | inr off ↦ simp off (omega arith)
]

-- The audit is the last gate of the walk: nothing comes after it, passed or not.
reports_of-audit :
    (c : Config) (gates : List (GateName × GateReport)) (d : GateReport)
    → reports_of c (gates ++ (dft, d) ∷ []) ≡ reports_of c gates ++ audit_of (all_pass gates) d
unfolding reports_of after_gate gate_order same_gate not_run_reports
reports_of-audit c [] d = elim (Bool-cases d.passed) [ inl p ↦ simp p | inr p ↦ simp p ]
reports_of-audit c ((n, g) ∷ gates) d = elim (Bool-cases g.passed) [
  | inl p ↦ simp (p, reports_of-audit c gates d)
  | inr p ↦ simp (p, append-nil)
]

-- If every runner labels its report with its own gate, the gate reports of a result stand in the
-- order of the flow and no gate is reported twice, the NOT_RUN reports included.
pub verify-IsInOrder :
    (c : Config) (r : Runners) (ws s : String) (ss : List String)
    → IsLabelled r (s ∷ ss)
    → IsInOrder 0 (gates_of (verify c r ws (s ∷ ss)).gate_reports)
verify-IsInOrder c r ws s ss h =
    let gates = plan c r (s ∷ ss) in
    let d = r.run_dft_scan_audit (s ∷ ss) in
    subst (λ l. IsInOrder 0 (gates_of l))
      (reports_of-audit c gates d ∙ sym (verify-plan c r ws s ss).1)
      (reports_of-IsInOrder c 0 (gates ++ (dft, d) ∷ []) (
        IsPlanned-audit 0 gates d h.audit (omega arith) (plan-before_audit c r (s ∷ ss))
          (plan-IsPlanned c r (s ∷ ss) h)))

-- The report of the first gate of a list that did not pass.
unfoldable pub first_failure : List (GateName × GateReport) → Option GateReport
first_failure [] = none
first_failure ((n, g) ∷ gates) = if g.passed then first_failure gates else some g

-- A result tells why a gate failed.
abbrev pub Explains : GateReport → VerificationResult → Type 0
Explains g v =
    (v.error_category ≡ g.error_category)
    × (v.failure_reason ≡ some g.details)
    × (v.exit_code ≡ g.exit_code)
    × (v.stdout ≡ g.stdout)
    × (v.stderr ≡ g.stderr)

abbrev StopsWith : GateReport → Stage (List GateReport) → Type 0
StopsWith g (proceed reports) = ⊥
StopsWith g (stop v) = Explains g v

with_metrics-Explains :
    (n : GateName) (g : GateReport) (reports : List GateReport)
    → Explains g (with_metrics n g (failed_result g reports))
unfolding with_metrics failed_result
with_metrics-Explains timing g reports = (refl, refl, refl, refl, refl)
with_metrics-Explains _ g reports = (refl, refl, refl, refl, refl)

StopsWith-finish :
    (g : GateReport) (m : Stage (List GateReport)) (f : List GateReport → Stage VerificationResult)
    → StopsWith g m
    → Explains g (finish (m >>= f))
StopsWith-finish g (proceed a) f h = elim h [ ]
StopsWith-finish g (stop v) f h = h

StopsWith-bind :
    (g : GateReport) (m : Stage (List GateReport)) (f : List GateReport → Stage (List GateReport))
    → StopsWith g m
    → StopsWith g (m >>= f)
StopsWith-bind g (proceed a) f h = elim h [ ]
StopsWith-bind g (stop v) f h = h

chain-StopsWith :
    (c : Config) (gates : List (GateName × GateReport)) (reports : List GateReport) {f : GateReport}
    → first_failure gates ≡ some f
    → StopsWith f (chain c gates reports)
unfolding chain first_failure check_gate
chain-StopsWith c [] reports h = cc
chain-StopsWith c ((n, g) ∷ gates) reports {f} h = elim (Bool-cases g.passed) [
  | inl p ↦ simp p (chain-StopsWith c gates (reports ++ mark_gate_status g ∷ []) (simp p at h))
  | inr p ↦ simp p (
      let e : g ≡ f = ground arith in
      subst
        (λ x. Explains x (
          with_metrics n g
            (failed_result g (append_not_run_gates c (reports ++ mark_gate_status g ∷ []) n))))
        e (with_metrics-Explains n g _))
]

-- A run that fails tells its first failing gate: the result has that gate's error category, its
-- details as the failure reason, its exit code and its output.
pub verify-Explains :
    (c : Config) (r : Runners) (ws s : String) (ss : List String) {g : GateReport}
    → first_failure (plan c r (s ∷ ss)) ≡ some g
    → Explains g (verify c r ws (s ∷ ss))
unfolding verify
verify-Explains c r ws s ss {g} h =
    rw (run_gates-chain c r (s ∷ ss))
      (StopsWith-finish g _ _ (chain-StopsWith c (plan c r (s ∷ ss)) [] h))
