-- ===== src/Driver/Lifecycle.antt =====
-- PhaseDriver.run of src/mind3/core/driver.py: the phases of a turn and the repair loop.
use Prim.Native.String.{◌++◌ as append}
use mind.Prelude.{ℕ, zero, suc, ◌+◌, String, false, map, Option, none, some, ltb, if◌then◌else◌}
use mind.Signoff.Report.{VerificationResult}
use mind.Driver.Trace.{
  intake, route, snapshot, model_call, parse, policy_check, execute, observe, verify, str, number,
  flag, optional, texts, reports, dict, Payload, end, field, Crypto, attested,
}
use mind.Driver.Snapshot.{Snapshot, stored, not_directory, create_snapshot}
use mind.Driver.Host.{Result, AgentAction, action_name, ok, raised, Host}
use mind.Driver.Prompts.{build_prompt_messages, system_instruction_of, domain_value, exit_text}
use mind.Driver.State.{
  Config, Driver, verifier_raised, not_removed, Ending, returned, crashed, out_of_fuel, Turn, again,
  finished, emit, retry,
}
use mind.Driver.Finish.{after_verify}

verify_payload : VerificationResult → Payload
unfolding domain_value
verify_payload v = field "passed" (flag v.passed) (
    field "domain" (str (domain_value v.domain)) (
      field "exit_code" (str (exit_text v.exit_code)) (
        field "failure_reason" (optional v.failure_reason) (
          field "error_category" (optional v.error_category) (
            field "silicon_verified" (flag v.silicon_verified) (
              field "gate_reports" (reports v.gate_reports)
                (field "stdout" (str v.stdout) (field "stderr" (str v.stderr) end))))))))

-- What the loop does with a turn: another round, or the end.
unfoldable pub after_turn :
    {W : Type 0} → (Option String → Driver W → Driver W × Ending) → Turn W → Driver W × Ending
after_turn continue (again d feedback) = continue feedback d
after_turn continue (finished d ending) = (d, ending)

module _ {W : Type 0} (k : Crypto) (c : Config) (h : Host W) where
  -- The verifier's result is traced and judged; its exception leaves the run.
  unfoldable pub judge : Result VerificationResult → Driver W → Turn W
  unfolding verify_payload
  judge (ok v) d = after_verify k c v (emit k verify (verify_payload v) d)
  judge (raised exc) d = finished d (crashed (verifier_raised exc))

  -- Phase 9.
  unfoldable pub verify_phase : Driver W → Turn W
  verify_phase d =
      let (w, ws, s, outcome) = h.verify d.workspace d.snapshot d.world in
      judge outcome (record d { workspace = ws; snapshot = s; world = w })

  -- Phase 8. The executor's record was traced, so it carries the attestation by now.
  unfoldable pub observe_phase : Payload → Driver W → Turn W
  observe_phase executed d = verify_phase (emit k observe (field "observed" (dict executed) end) d)

  -- Phase 7: the record is traced, or the exception is.
  unfoldable pub after_execute : Result Payload → Driver W → Turn W
  after_execute (ok executed) d =
      observe_phase (attested k d.ledger executed) (emit k execute executed d)
  after_execute (raised exc) d =
      retry k execute (field "error" (str (append "Execution error: " exc)) end)
        (append "Action execution failed: " exc) d

  unfoldable pub execute_phase : AgentAction → Driver W → Turn W
  execute_phase action d =
      let (w, ws, s, outcome) = h.execute_action action d.workspace d.snapshot d.world in
      after_execute outcome (record d { workspace = ws; snapshot = s; world = w })

  -- Phase 6.
  unfoldable pub after_policy : AgentAction → Result (Unit {0}) → Driver W → Turn W
  after_policy action (ok _) d = execute_phase action (
      emit k policy_check
        (field "policy_status" (str "APPROVED") (field "action" (str (action_name action)) end)) d)
  after_policy action (raised exc) d =
      retry k policy_check (field "policy_status" (str "DENIED") (field "reason" (str exc) end))
        (append "Policy violation: " exc) d

  unfoldable pub policy_phase : AgentAction → Driver W → Turn W
  policy_phase action d = after_policy action (h.policy_check action d.workspace) d

  -- Phase 5.
  unfoldable pub after_parse : String → Result AgentAction → Driver W → Turn W
  after_parse raw (ok action) d = policy_phase action (
      emit k parse
        (field "parsed_action" (str (action_name action)) (field "turn" (number d.ledger.turn) end))
        d)
  after_parse raw (raised exc) d =
      retry k parse
        (field "error" (str (append "Schema parse error: " exc)) (field "raw" (str raw) end))
        (append "Your response did not match the AgentAction JSON schema: "
          (append exc "\nEnsure you return raw JSON without markdown formatting."))
        d

  unfoldable pub parse_phase : String → Driver W → Turn W
  parse_phase raw d = after_parse raw (h.parse_action raw) d

  -- Phase 4, the start of a turn.
  unfoldable pub after_query : Result String → Driver W → Turn W
  after_query (ok raw) d =
      parse_phase raw
        (emit k model_call (field "model" (str c.model) (field "raw_response" (str raw) end)) d)
  after_query (raised exc) d =
      retry k model_call
        (field "error" (str (append "Model query failed: " exc))
          (field "turn" (number d.ledger.turn) end))
        (append "Model call failed: " exc) d

  unfoldable pub run_turn :
      (system_instruction task_prompt : String) → Option String → Driver W → Turn W
  run_turn instruction prompt feedback d =
      let (w, answer) = h.query_model (build_prompt_messages instruction prompt feedback) d.world in
      after_query answer (record d { world = w })

  -- `while self.turn < self.max_repairs`, and the return behind the loop.
  unfoldable pub repair_loop :
      ℕ → (system_instruction task_prompt : String) → Option String → Driver W → Driver W × Ending
  repair_loop zero instruction prompt feedback d = (d, out_of_fuel)
  repair_loop (suc fuel) instruction prompt feedback d =
      let rest =
        after_turn (repair_loop fuel instruction prompt) (run_turn instruction prompt feedback d) in
      if ltb d.ledger.turn c.max_repairs then rest else (d, returned false)

  -- Phase 3. `rmtree` raises a NotADirectoryError where the old snapshot is no directory.
  unfoldable pub snapshot_phase : Snapshot → Driver W → Turn W
  snapshot_phase not_directory d = finished d (crashed not_removed)
  snapshot_phase _ d =
      let (snap, copied) = create_snapshot d.workspace in
      again
        (emit k snapshot
          (field "snapshot_path" (str c.snapshot_path) (field "items_captured" (number copied) end))
          (record d { snapshot = stored snap }))
        none

  -- Phases 1 and 2.
  unfoldable pub route_phase : String → Driver W → Driver W
  route_phase prompt d =
      let d₀ = record d { ledger = record (d.ledger) { turn = 0 } } in
      let d₁ =
        emit k intake
          (field "task_prompt" (str prompt) (
            field "workspace" (str c.workspace_path)
              (field "skills_available" (texts c.skills_available) end)))
          d₀ in
      let m = h.route prompt in
      let fallback = if c.verifier_is_rtl then "RTL" else "SOFTWARE" in
      let domain : String = elim m.skill [ none ↦ fallback | some s ↦ m.suggested_domain ] in
      emit k route
        (field "domain" (str domain) (
          field "verifier" (str c.verifier_name) (
            field "max_repairs" (number c.max_repairs) (
              field "active_skill" (optional (elim m.skill [ none ↦ none | some s ↦ some s.name ]))
                (field "skill_score" (number m.score) (
                  field "matched_keywords" (texts m.matched_keywords) (
                    field "relevant_references" (texts (map (λ r. r.name) m.relevant_references))
                      (field "reasoning" (str m.reasoning) end))))))))
        d₁

  -- Phases 1 to 3.
  unfoldable pub open_session : String → Driver W → Turn W
  open_session prompt d = let d₂ = route_phase prompt d in snapshot_phase d₂.snapshot d₂

  -- `run`, with fuel for one turn more than the budget.
  unfoldable pub run : String → Driver W → Driver W × Ending
  run prompt d =
      after_turn (repair_loop (c.max_repairs + 1) (system_instruction_of (h.route prompt)) prompt)
        (open_session prompt d)
