-- ===== src/Driver/Judgement.antt =====
-- Every turn of PhaseDriver.run (src/mind3/core/driver.py) goes on with its snapshot, or ends in one of the
-- outcomes.
use mind.Prelude.{
  ℕ, suc, ◌+◌, ◌<◌, true, false, ◌≡◌, refl, ◌∙◌, ◌⊎◌, inl, inr, some, Bool-cases, leb, arith,
}
use mind.Signoff.Report.{VerificationResult}
use mind.Driver.Trace.{Phase, repair_or_finish, verify, trace, str, Payload, Crypto, emit_trace}
use mind.Driver.Snapshot.{Files, Snapshot, Restoration, restored, missing, broken, restore_snapshot}
use mind.Driver.Host.{Result, ok, raised, Host}
use mind.Driver.State.{Config, Driver, is_non_repairable, Ending, emit, next_turn}
use mind.Driver.Finish.{
  finish_verified, after_restore, roll_back, trace_aborted, trace_rolled_back, repair_or_roll_back,
  after_verify,
}
use mind.Driver.Lifecycle.{judge, verify_phase}
use mind.Driver.Rules.{OfTurn, TurnRules, is_early}
use mind.Driver.Frame.{
  last_phase, final_status, emit-world, emit-workspace, emit-snapshot, emit-turn, emit-last_phase,
  emit-final_status,
}
use mind.Driver.Outcome.{
  FailedEarly, Kept, Outcome, verified, rolled_back, without_snapshot, half_restored,
  without_verdict, reverted_label,
}

module _ {W : Type 0} (k : Crypto) (c : Config) (h : Host W) (start : Driver W) where
  -- Within turn `t`.
  abbrev pub During : ℕ → Driver W → Type 0
  During t d = Kept h start d × (d.ledger.turn ≡ t)

  -- At the start of the turn after `t`.
  abbrev pub Next : ℕ → Driver W → Type 0
  Next t d = Kept h start d × (d.ledger.turn ≡ suc t) × ((suc t < c.max_repairs) ⊎ FailedEarly d)

  abbrev pub Ended : Driver W → Ending → Type 0
  Ended = Outcome c h start

  emit-During :
      (t : ℕ) (phase : Phase) (payload : Payload) (d : Driver W)
      → During t d
      → During t (emit k phase payload d)
  unfolding emit emit_trace
  emit-During t phase payload d p = p

  retried-Next :
      (t : ℕ) (phase : Phase) (payload : Payload) (d : Driver W)
      → is_early phase ≡ true
      → During t d
      → Next t (next_turn k (emit k phase payload d))
  unfolding next_turn
  retried-Next t phase payload d e p =
      let q = emit-During t phase payload d p in
      (q.0, omega (arith, q.1), inr (phase, emit-last_phase k phase payload d, e))

  -- `prev`, `before` and `w` are what the verifier was given, behind whose result `d` stands.
  module _ (t : ℕ) (v : VerificationResult) (prev : Files) (before : Snapshot) (w : W) where
    abbrev Verified : Driver W → Type 0
    Verified d = h.verify prev before w ≡ (d.world, d.workspace, d.snapshot, ok v)

    finish_verified-Ended :
        (d : Driver W)
        → Verified d
        → v.passed ≡ true
        → OfTurn (Next t) Ended (finish_verified k c v d)
    unfolding finish_verified
    finish_verified-Ended d e p =
        verified refl prev before d.snapshot w v (simp (emit-world, emit-workspace) e) p
          (simp emit-snapshot) (emit-last_phase k trace _ _) (emit-final_status k trace _ _ _)

    -- What the phases behind a rollback trace.
    abbrev Traces : (Driver W → Driver W) → Type 0
    Traces traced =
        (x : Driver W)
        → ((traced x).world ≡ x.world)
          × ((traced x).workspace ≡ x.workspace)
          × ((traced x).snapshot ≡ x.snapshot)
          × (last_phase (traced x) ≡ some trace)
          × (final_status (traced x) ≡ some (str (reverted_label v)))

    after_restore-Ended :
        (r : Restoration) (d : Driver W) (traced : Driver W → Driver W)
        → restore_snapshot d.snapshot d.workspace ≡ r
        → Verified d
        → v.passed ≡ false
        → Kept h start d
        → last_phase d ≡ some verify
        → Traces traced
        → OfTurn (Next t) Ended (after_restore k c r traced d)
    unfolding after_restore
    after_restore-Ended missing d traced q e p s l keeps =
        without_snapshot refl prev before w v e p s q l
    after_restore-Ended (broken ws) d traced q e p s l keeps =
        half_restored refl prev d.workspace before w v e p s q l
    after_restore-Ended (restored ws) d traced q e p s l keeps =
        let x = record d { workspace = ws } in
        let (kw, kf, ks, kl, kt) = keeps x in
        rolled_back refl prev d.workspace before w v (rw (kw, ks) e) p (rw ks s) (rw (ks, kf) q) kl
          kt

    aborted-Ended :
        (d : Driver W)
        → Verified d
        → v.passed ≡ false
        → is_non_repairable v.error_category ≡ true
        → Kept h start d
        → last_phase d ≡ some verify
        → OfTurn (Next t) Ended (roll_back k c d (trace_aborted k c v))
    unfolding trace_aborted roll_back
    aborted-Ended d e p q s l =
        after_restore-Ended (restore_snapshot d.snapshot d.workspace) d _ refl e p s l λ x. (
          simp emit-world,
          simp emit-workspace,
          simp emit-snapshot,
          emit-last_phase k trace _ _,
          rw q (emit-final_status k trace _ _ _),
        )

    repaired-Ended :
        (d : Driver W)
        → Verified d
        → v.passed ≡ false
        → is_non_repairable v.error_category ≡ false
        → During t d
        → last_phase d ≡ some verify
        → OfTurn (Next t) Ended (repair_or_roll_back k c v d)
    unfolding repair_or_roll_back trace_rolled_back next_turn roll_back
    repaired-Ended d e p q s l = elim (Bool-cases (leb c.max_repairs (d.ledger.turn + 1))) [
      | inl x ↦ simp x (
          after_restore-Ended (restore_snapshot d.snapshot d.workspace) (next_turn k d) _ refl e p
            s.0 l
            λ y. (
              simp emit-world,
              simp emit-workspace,
              simp emit-snapshot,
              emit-last_phase k trace _ _,
              rw q (emit-final_status k trace _ _ _),
            ))
      | inr x ↦ simp x (
        simp emit-snapshot s.0,
        emit-turn k repair_or_finish _ (next_turn k d) ∙ omega (arith, s.1),
        inl (ground arith),
      )
    ]

    after_verify-Ended :
        (d : Driver W)
        → Verified d
        → During t d
        → last_phase d ≡ some verify
        → OfTurn (Next t) Ended (after_verify k c v d)
    unfolding after_verify
    after_verify-Ended d e s l = elim (Bool-cases v.passed) [
      | inl p ↦ simp p (finish_verified-Ended d e p)
      | inr p ↦ elim (Bool-cases (is_non_repairable v.error_category)) [
        | inl q ↦ simp (p, q) (aborted-Ended d e p q s.0 l)
        | inr q ↦ simp (p, q) (repaired-Ended d e p q s l)
      ]
    ]

  judge-Ended :
      (t : ℕ) (r : Result VerificationResult) (prev : Files) (before : Snapshot) (w : W)
      (d : Driver W)
      → h.verify prev before w ≡ (d.world, d.workspace, d.snapshot, r)
      → During t d
      → OfTurn (Next t) Ended (judge k c h r d)
  unfolding judge
  judge-Ended t (ok v) prev before w d e s =
      after_verify-Ended t v prev before w _ (simp (emit-world, emit-workspace, emit-snapshot) e)
        (emit-During t _ _ _ s) (emit-last_phase k verify _ d)
  judge-Ended t (raised exc) prev before w d e s = without_verdict exc refl prev before w e

  verify-Ended : (t : ℕ) (d : Driver W) → During t d → OfTurn (Next t) Ended (verify_phase k c h d)
  unfolding verify_phase
  verify-Ended t d s =
      judge-Ended t _ d.workspace d.snapshot d.world _ refl
        (λ g. g.verified d.workspace d.snapshot d.world ∙ s.0 g, s.1)

  pub outcome_rules : (t : ℕ) → TurnRules k c h (During t) (Next t) Ended
  outcome_rules t = record {
    emitted = emit-During t;
    retried = retried-Next t;
    asked = λ w d s. s;
    executed = λ a d s. (λ g. g.executed a d.workspace d.snapshot d.world ∙ s.0 g, s.1);
    judged = verify-Ended t;
  }
