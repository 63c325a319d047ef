-- ===== src/Driver/Chain.antt =====
-- The hash chain of the transcript (src/mind3/core/driver.py, _emit_trace; src/mind3/core/types.py,
-- TraceRecord), kept by every phase of PhaseDriver.run.
use mind.Prelude.{
  ℕ, zero, suc, ◌+◌, String, List, [], ◌∷◌, ◌++◌, ◌≡◌, refl, sym, Option, inl, inr, length,
  length-append, Bool-cases, leb, ltb, arith,
}
use mind.Signoff.Report.{VerificationResult}
use mind.Driver.Trace.{
  Phase, Payload, TraceRecord, Crypto, Ledger, compute_expected_hash, next_record, emit_trace,
}
use mind.Driver.Host.{Result, ok, raised, Host}
use mind.Driver.Snapshot.{
  Snapshot, absent, stored, not_directory, Restoration, restored, missing, broken, restore_snapshot,
}
use mind.Driver.Rules.{OfTurn, TurnRules, turn_rule, after_turn_rule}
use mind.Driver.State.{Config, is_non_repairable, Driver, Turn, emit, next_turn}
use mind.Driver.Finish.{
  finish_verified, after_restore, roll_back, trace_aborted, trace_rolled_back, repair_or_roll_back,
  after_verify,
}
use mind.Driver.Lifecycle.{
  judge, verify_phase, route_phase, snapshot_phase, run_turn, repair_loop, open_session, run,
}

-- `"0" * 64`.
abbrev pub genesis : String
genesis = "0000000000000000000000000000000000000000000000000000000000000000"

-- The records are numbered from `i` on, each names the hash of the one before it, `h` at first,
-- and each carries the hash that its own content gives.
abbrev pub IsChain : Crypto → String → ℕ → List TraceRecord → Type 0
IsChain k h i [] = Unit
IsChain k h i (r ∷ rs) =
    (r.step_index ≡ i)
    × (r.prev_hash ≡ h)
    × (r.current_hash ≡ compute_expected_hash k r)
    × (r.event.phase ≡ r.phase)
    × IsChain k r.current_hash (suc i) rs

abbrev pub last_hash : String → List TraceRecord → String
last_hash h [] = h
last_hash h (r ∷ rs) = last_hash r.current_hash rs

-- The transcript is a chain, and the ledger stands at its end.
pub record IsLedger (k : Crypto) (l : Ledger) : Type 0 where
  pub chained : IsChain k genesis 0 l.transcript
  pub head : l.prev_hash ≡ last_hash genesis l.transcript
  pub counted : l.step_index ≡ length l.transcript

IsChain-append :
    (k : Crypto) (h : String) (i : ℕ) (rs : List TraceRecord) (r : TraceRecord)
    → IsChain k h i rs
    → r.step_index ≡ i + length rs
    → r.prev_hash ≡ last_hash h rs
    → r.current_hash ≡ compute_expected_hash k r
    → r.event.phase ≡ r.phase
    → IsChain k h i (rs ++ r ∷ [])
IsChain-append k h i [] r c n p e f = (omega arith, p, e, f, tt)
IsChain-append k h i (q ∷ rs) r c n p e f =
    (c.0, c.1, c.2, c.3, IsChain-append k q.current_hash (suc i) rs r c.4 (omega arith) p e f)

last_hash-append :
    (h : String) (rs : List TraceRecord) (r : TraceRecord)
    → last_hash h (rs ++ r ∷ []) ≡ r.current_hash
last_hash-append h [] r = refl
last_hash-append h (q ∷ rs) r = last_hash-append q.current_hash rs r

emit_trace-IsLedger :
    (k : Crypto) (phase : Phase) (payload : Payload) (l : Ledger)
    → IsLedger k l
    → IsLedger k (emit_trace k phase payload l)
unfolding emit_trace next_record compute_expected_hash
emit_trace-IsLedger k phase payload l h = record {
  chained =
      IsChain-append k genesis 0 l.transcript (next_record k phase payload l) h.chained
        (omega (arith, h.counted)) h.head refl refl;
  head = sym (last_hash-append genesis l.transcript (next_record k phase payload l));
  counted =
      omega (arith, h.counted, length-append l.transcript (next_record k phase payload l ∷ []));
}

module _ {W : Type 0} (k : Crypto) where
  abbrev Good : Driver W → Type 0
  Good d = IsLedger k d.ledger

  emit-Good :
      (phase : Phase) (payload : Payload) (d : Driver W) → Good d → Good (emit k phase payload d)
  unfolding emit
  emit-Good phase payload d = emit_trace-IsLedger k phase payload d.ledger

  next_turn-Good : (d : Driver W) → Good d → Good (next_turn k d)
  unfolding next_turn
  next_turn-Good d g = record { chained = g.chained; head = g.head; counted = g.counted }

module _ {W : Type 0} (k : Crypto) (c : Config) where
  abbrev GoodTurn : Turn W → Type 0
  GoodTurn = OfTurn (Good k) (λ d ending. Good k d)

  after_restore-Good :
      (r : Restoration) (d : Driver W) (traced : Driver W → Driver W)
      → ((e : Driver W) → Good k e → Good k (traced e))
      → Good k d
      → GoodTurn (after_restore k c r traced d)
  unfolding after_restore
  after_restore-Good missing d traced keeps g = g
  after_restore-Good (broken ws) d traced keeps g = g
  after_restore-Good (restored ws) d traced keeps g = keeps _ g

  roll_back-Good :
      (d : Driver W) (traced : Driver W → Driver W)
      → ((e : Driver W) → Good k e → Good k (traced e))
      → Good k d
      → GoodTurn (roll_back k c d traced)
  unfolding roll_back
  roll_back-Good d traced keeps g =
      after_restore-Good (restore_snapshot d.snapshot d.workspace) d traced keeps g

  repair-Good :
      (v : VerificationResult) (d : Driver W) → Good k d → GoodTurn (repair_or_roll_back k c v d)
  unfolding repair_or_roll_back trace_rolled_back
  repair-Good v d g = elim (Bool-cases (leb c.max_repairs (next_turn k d).ledger.turn)) [
    | inl p ↦ simp p (
        roll_back-Good (next_turn k d) _ (λ e ge. emit-Good k _ _ _ (emit-Good k _ _ e ge))
          (next_turn-Good k d g))
    | inr p ↦ simp p (emit-Good k _ _ _ (next_turn-Good k d g))
  ]

  after_verify-Good :
      (v : VerificationResult) (d : Driver W) → Good k d → GoodTurn (after_verify k c v d)
  unfolding after_verify finish_verified trace_aborted
  after_verify-Good v d g = elim (Bool-cases v.passed) [
    | inl p ↦ simp p (emit-Good k _ _ _ (emit-Good k _ _ _ g))
    | inr p ↦ elim (Bool-cases (is_non_repairable v.error_category)) [
      | inl q ↦
          simp (p, q) (roll_back-Good d _ (λ e ge. emit-Good k _ _ _ (emit-Good k _ _ e ge)) g)
      | inr q ↦ simp (p, q) (repair-Good v d g)
    ]
  ]

module _ {W : Type 0} (k : Crypto) (c : Config) (h : Host W) where
  judge-Good :
      (r : Result VerificationResult) (d : Driver W)
      → Good k d
      → OfTurn (Good k) (λ e ending. Good k e) (judge k c h r d)
  unfolding judge
  judge-Good (ok v) d g = after_verify-Good k c _ _ (emit-Good k _ _ _ g)
  judge-Good (raised exc) d g = g

  verify-Good :
      (d : Driver W) → Good k d → OfTurn (Good k) (λ e ending. Good k e) (verify_phase k c h d)
  unfolding verify_phase
  verify-Good d g = judge-Good _ _ g

  Good-rules : TurnRules k c h (Good k) (Good k) (λ d ending. Good k d)
  Good-rules = record {
    emitted = emit-Good k;
    retried = λ phase payload d e g. next_turn-Good k _ (emit-Good k phase payload d g);
    asked = λ w d g. g;
    executed = λ a d g. g;
    judged = verify-Good;
  }

  turn-Good :
      (instruction prompt : String) (feedback : Option String) (d : Driver W)
      → Good k d
      → OfTurn (Good k) (λ e ending. Good k e) (run_turn k c h instruction prompt feedback d)
  turn-Good = turn_rule k c h Good-rules

  snapshot-Good :
      (s : Snapshot) (d : Driver W)
      → Good k d
      → OfTurn (Good k) (λ e ending. Good k e) (snapshot_phase k c h s d)
  unfolding snapshot_phase
  snapshot-Good absent d g = emit-Good k _ _ _ g
  snapshot-Good (stored files) d g = emit-Good k _ _ _ g
  snapshot-Good not_directory d g = g

  route-Good : (prompt : String) (d : Driver W) → Good k d → Good k (route_phase k c h prompt d)
  unfolding route_phase
  route-Good prompt d g =
      emit-Good k _ _ _
        (emit-Good k _ _ _ (record { chained = g.chained; head = g.head; counted = g.counted }))

  open_session-Good :
      (prompt : String) (d : Driver W)
      → Good k d
      → OfTurn (Good k) (λ e ending. Good k e) (open_session k c h prompt d)
  unfolding open_session
  open_session-Good prompt d g = snapshot-Good _ _ (route-Good prompt d g)

  -- The loop keeps the chain, whatever its fuel.
  loop-Good :
      (fuel : ℕ) (instruction prompt : String) (feedback : Option String) (d : Driver W)
      → Good k d
      → Good k (repair_loop k c h fuel instruction prompt feedback d).0
  unfolding repair_loop
  loop-Good zero instruction prompt feedback d g = g
  loop-Good (suc fuel) instruction prompt feedback d g =
      elim (Bool-cases (ltb d.ledger.turn c.max_repairs)) [
        | inl p ↦ simp p (
            after_turn_rule (repair_loop k c h fuel instruction prompt) (Good k)
              (λ e ending. Good k e) (run_turn k c h instruction prompt feedback d)
              (turn-Good instruction prompt feedback d g)
              (λ f e ge. loop-Good fuel instruction prompt f e ge))
        | inr p ↦ simp p g
      ]

-- A run leaves a transcript that is hash chained from the genesis hash, numbered from 0 without a
-- gap, and whose end the driver stands at, if it starts from one: for every model, executor and
-- verifier, and on every path through the phases.
pub run-IsLedger :
    {W : Type 0} (k : Crypto) (c : Config) (h : Host W) (prompt : String) (d : Driver W)
    → IsLedger k d.ledger
    → IsLedger k (run k c h prompt d).0.ledger
unfolding run
run-IsLedger k c h prompt d g =
    after_turn_rule _ (Good k) (λ e ending. Good k e) (open_session k c h prompt d)
      (open_session-Good k c h prompt d g)
      (λ f e ge. loop-Good k c h (c.max_repairs + 1) _ prompt f e ge)
