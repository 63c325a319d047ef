-- ===== src/Driver/Rules.antt =====
-- Proof rules for PhaseDriver.run of src/mind3/core/driver.py: what each phase keeps holds of a turn,
-- and what each turn keeps holds of the repair loop.
use mind.Prelude.{
  ℕ, zero, suc, ◌+◌, ◌<◌, ◌≤◌, String, Bool, true, false, ◌≡◌, refl, inl, inr, Option, Bool-cases,
  ltb, ltb→lt, arith,
}
use mind.Driver.Trace.{Phase, model_call, parse, policy_check, execute, Payload, Crypto}
use mind.Driver.Host.{AgentAction, Result, ok, raised, Host}
use mind.Driver.State.{
  Config, Driver, Ending, returned, Turn, again, finished, emit, next_turn, retry,
}
use mind.Driver.Lifecycle.{
  verify_phase, observe_phase, after_execute, execute_phase, after_policy, policy_phase,
  after_parse, parse_phase, after_query, run_turn, after_turn, repair_loop,
}

-- One predicate of a driver that goes on, one of a driver that ends.
abbrev pub OfTurn {κ} :
    {W : Type 0} → (Driver W → Type κ) → (Driver W → Ending → Type κ) → Turn W → Type κ
OfTurn P Q (again d feedback) = P d
OfTurn P Q (finished d ending) = Q d ending

-- The phases of a turn that may fail before the workspace is verified.
abbrev pub is_early : Phase → Bool
is_early model_call = true
is_early parse = true
is_early policy_check = true
is_early execute = true
is_early _ = false

pub after_turn_rule :
    {W : Type 0} (continue : Option String → Driver W → Driver W × Ending) (N : Driver W → Type 0)
    (Q : Driver W → Ending → Type 0) (t : Turn W)
    → OfTurn N Q t
    → ((f : Option String) (d : Driver W) → N d → Q (continue f d).0 (continue f d).1)
    → Q (after_turn continue t).0 (after_turn continue t).1
unfolding after_turn
after_turn_rule continue N Q (again d f) o next = next f d o
after_turn_rule continue N Q (finished d e) o next = o

module _ {W : Type 0} (k : Crypto) (c : Config) (h : Host W) where
  -- `P` holds within a turn, `N` at the start of the next one, `Q` at the end of the run.
  pub record TurnRules (P N : Driver W → Type 0) (Q : Driver W → Ending → Type 0) : Type 0 where
    pub emitted :
        (phase : Phase) (payload : Payload) (d : Driver W) → P d → P (emit k phase payload d)
    pub retried :
        (phase : Phase) (payload : Payload) (d : Driver W)
        → is_early phase ≡ true
        → P d
        → N (next_turn k (emit k phase payload d))
    pub asked : (w : W) (d : Driver W) → P d → P (record d { world = w })
    pub executed :
        (a : AgentAction) (d : Driver W)
        → P d
        → let (w, ws, s, r) = h.execute_action a d.workspace d.snapshot d.world in
          P (record d { workspace = ws; snapshot = s; world = w })
    pub judged : (d : Driver W) → P d → OfTurn N Q (verify_phase k c h d)

  module _ {P N : Driver W → Type 0} {Q : Driver W → Ending → Type 0}
      (rules : TurnRules P N Q) where
    retry_rule :
        (phase : Phase) (payload : Payload) (f : String) (d : Driver W)
        → is_early phase ≡ true
        → P d
        → OfTurn N Q (retry k phase payload f d)
    unfolding retry
    retry_rule phase payload f d e p = rules.retried phase payload d e p

    observe_rule : (r : Payload) (d : Driver W) → P d → OfTurn N Q (observe_phase k c h r d)
    unfolding observe_phase
    observe_rule r d p = rules.judged _ (rules.emitted _ _ d p)

    after_execute_rule :
        (r : Result Payload) (d : Driver W) → P d → OfTurn N Q (after_execute k c h r d)
    unfolding after_execute
    after_execute_rule (ok executed) d p = observe_rule _ _ (rules.emitted _ _ d p)
    after_execute_rule (raised exc) d p = retry_rule _ _ _ d refl p

    execute_rule : (a : AgentAction) (d : Driver W) → P d → OfTurn N Q (execute_phase k c h a d)
    unfolding execute_phase
    execute_rule a d p = after_execute_rule _ _ (rules.executed a d p)

    after_policy_rule :
        (a : AgentAction) (r : Result (Unit {0})) (d : Driver W)
        → P d
        → OfTurn N Q (after_policy k c h a r d)
    unfolding after_policy
    after_policy_rule a (ok _) d p = execute_rule a _ (rules.emitted _ _ d p)
    after_policy_rule a (raised exc) d p = retry_rule _ _ _ d refl p

    after_parse_rule :
        (raw : String) (r : Result AgentAction) (d : Driver W)
        → P d
        → OfTurn N Q (after_parse k c h raw r d)
    unfolding after_parse policy_phase
    after_parse_rule raw (ok a) d p = after_policy_rule a _ _ (rules.emitted _ _ d p)
    after_parse_rule raw (raised exc) d p = retry_rule _ _ _ d refl p

    after_query_rule : (r : Result String) (d : Driver W) → P d → OfTurn N Q (after_query k c h r d)
    unfolding after_query parse_phase
    after_query_rule (ok raw) d p = after_parse_rule raw _ _ (rules.emitted _ _ d p)
    after_query_rule (raised exc) d p = retry_rule _ _ _ d refl p

    -- What every phase keeps holds of the whole turn.
    pub turn_rule :
        (instruction prompt : String) (feedback : Option String) (d : Driver W)
        → P d
        → OfTurn N Q (run_turn k c h instruction prompt feedback d)
    unfolding run_turn
    turn_rule instruction prompt feedback d p = after_query_rule _ _ (rules.asked _ d p)

  -- Every turn counts one, and goes on only below the budget.
  abbrev pub Counts : Driver W → Driver W → Type 0
  Counts d d' = d'.ledger.turn ≡ suc d.ledger.turn

  module _ (I : Driver W → Type 0) (Q : Driver W → Ending → Type 0) where
    -- What every turn keeps holds at the end of the loop, with fuel for the turns left.
    pub loop_rule :
        (instruction prompt : String)
        → ((feedback : Option String) (d : Driver W)
            → I d
            → d.ledger.turn < c.max_repairs
            → OfTurn (λ d'. I d' × Counts d d') Q (run_turn k c h instruction prompt feedback d))
        → ((d : Driver W) → I d → c.max_repairs ≤ d.ledger.turn → Q d (returned false))
        → (fuel : ℕ) (feedback : Option String) (d : Driver W) → d.ledger.turn ≤ c.max_repairs
        → c.max_repairs < d.ledger.turn + fuel
        → I d
        → let (d', ending) = repair_loop k c h fuel instruction prompt feedback d in Q d' ending
    unfolding repair_loop
    loop_rule instruction prompt step stop zero feedback d a b i = absurd (omega arith)
    loop_rule instruction prompt step stop (suc fuel) feedback d a b i =
        elim (Bool-cases (ltb d.ledger.turn c.max_repairs)) [
          | inl p ↦ simp p (
              after_turn_rule (repair_loop k c h fuel instruction prompt) (λ d'. I d' × Counts d d')
                Q (run_turn k c h instruction prompt feedback d) (step feedback d i (ltb→lt _ _ p))
                (λ f d' n.
                  loop_rule instruction prompt step stop fuel f d'
                    (omega (arith, ltb→lt _ _ p, n.1)) (omega (arith, n.1)) n.0))
          | inr p ↦ simp p (stop d i (ground arith))
        ]
