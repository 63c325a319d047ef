-- ===== src/Cdc/Exit.antt =====
-- The exit codes of `run_checker` in tools/cdc_checker/report.py.
use mind.Prelude.{String, All, ◌≡◌, refl, sym, ap, subst, ◌↔◌, arith}
use mind.Cdc.Netlist.{Module}
use mind.Cdc.Domains.{assign_domains}
use mind.Cdc.Crossings.{analyze}
use mind.Cdc.Synchronizers.{Status, pass, fail, inconclusive_status, known_crossings}
use mind.Cdc.Report.{
  Loaded, loaded, input_error, failed, run_checker, verdict_of, verdict_exit, verdict_report,
  exit_pass, exit_fail,
}
use mind.Cdc.Status.{IsOk, FailsFirst, classify-pass_iff, classify-fail_iff}

verdict_exit-pass : (s : Status) → verdict_exit s ≡ exit_pass → s ≡ pass
unfolding verdict_exit
verdict_exit-pass pass h = refl
verdict_exit-pass fail h = absurd (omega arith)
verdict_exit-pass inconclusive_status h = absurd (omega arith)

verdict_exit-fail : (s : Status) → verdict_exit s ≡ exit_fail → s ≡ fail
unfolding verdict_exit
verdict_exit-fail pass h = absurd (omega arith)
verdict_exit-fail fail h = refl
verdict_exit-fail inconclusive_status h = absurd (omega arith)

pub exit-pass :
    (m : Module) (top : String)
    → (run_checker (loaded m) top).0 ≡ exit_pass
    → (verdict_of m).status ≡ pass
unfolding run_checker
exit-pass m top h = verdict_exit-pass (verdict_of m).status h

-- The exit code is 0 exactly where a module was loaded and every crossing of the report is ok.
pub run_checker-pass_iff :
    (l : Loaded) (top : String)
    → ((run_checker l top).0 ≡ exit_pass)
      ↔ ((m : Module) × (l ≡ loaded m) × All IsOk (run_checker l top).1.crossings)
unfolding run_checker verdict_exit verdict_report
run_checker-pass_iff (loaded m) top =
    let c = classify-pass_iff m (assign_domains m) (analyze m (assign_domains m)) in
    (
      λ h. (m, refl, c.0 (verdict_exit-pass (verdict_of m).status h)),
      λ (n, e, k). ap verdict_exit (c.1 k),
    )
run_checker-pass_iff (input_error t) top = (λ h. absurd (omega arith), λ (n, e, k). absurd (cc))
run_checker-pass_iff (failed t) top = (λ h. absurd (omega arith), λ (n, e, k). absurd (cc))

-- The exit code is 1 exactly where a module was loaded and, of its crossings in the order of their
-- destinations, the first that is not ok is an error.
pub run_checker-fail_iff :
    (l : Loaded) (top : String)
    → ((run_checker l top).0 ≡ exit_fail) ↔ (
        (m : Module) × (l ≡ loaded m)
        × FailsFirst (known_crossings m (assign_domains m) (analyze m (assign_domains m))))
unfolding run_checker verdict_exit
run_checker-fail_iff (loaded m) top =
    let c = classify-fail_iff m (assign_domains m) (analyze m (assign_domains m)) in
    let F = λ (n : Module).
      FailsFirst (known_crossings n (assign_domains n) (analyze n (assign_domains n))) in
    (
      λ h. (m, refl, c.0 (verdict_exit-fail (verdict_of m).status h)),
      λ (n, e, k). ap verdict_exit (c.1 (subst F (sym (same m n e)) k)),
    )
  where
    same : (a b : Module) → loaded a ≡ loaded b → a ≡ b
    same a b e = cc
run_checker-fail_iff (input_error t) top = (λ h. absurd (omega arith), λ (n, e, k). absurd (cc))
run_checker-fail_iff (failed t) top = (λ h. absurd (omega arith), λ (n, e, k). absurd (cc))
