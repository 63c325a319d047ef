-- ===== src/Driver/Examples.antt =====
-- Runs of the driver (src/mind3/core/driver.py) over a world that counts the model calls.
use mind.Prelude.{
  ℕ, ◌+◌, String, true, false, List, [], ◌∷◌, ◌≡◌, refl, ◌⊎◌, none, some, if◌then◌else◌, arith, ltb,
}
use text.Mathlib.Text.{◌==◌}
use mind.Signoff.Report.{ExitCode, VerificationResult, rtl_result}
use mind.Driver.Trace.{
  intake, trace, end, Crypto, TraceRecord, emit_trace, next_record, compute_expected_hash,
}
use mind.Driver.Snapshot.{
  file, Files, absent, stored, restored, create_snapshot, copy_back, placed, restore_snapshot, put,
  find, copy_entry, copy_items,
}
use mind.Driver.Host.{write_file, run_command, Message, ok, raised, SkillMatch, Host, IsGuarded}
use mind.Driver.State.{
  Config, Driver, no_snapshot, verifier_raised, returned, crashed, is_non_repairable, emit,
  next_turn, retry,
}
use mind.Driver.Finish.{
  finish_verified, after_restore, roll_back, trace_rolled_back, repair_or_roll_back, after_verify,
}
use mind.Driver.Lifecycle.{
  judge, verify_phase, route_phase, snapshot_phase, observe_phase, after_execute, execute_phase,
  after_policy, policy_phase, after_parse, parse_phase, after_query, run_turn, after_turn,
  repair_loop, open_session, run,
}
use mind.Driver.Rollback.{IsDirectory, restore-create_snapshot}
use mind.Driver.Chain.{genesis, IsChain, IsLedger, run-IsLedger}
use mind.Driver.Tamper.{Collision, chain_tamper_evident}
use mind.Driver.Frame.{last_phase}
use mind.Driver.Outcome.{Outcome}
use mind.Driver.Endings.{run-Outcome, run-restores, repair_loop-unrestored}

abbrev crypto : Crypto
crypto = record { sha256 = λ s. s; canonical_json = λ b. "{}"; clock = λ n. n }

abbrev config : Config
config = record {
  session_id = "s1";
  workspace_path = "/ws";
  snapshot_path = "/ws/.mind/snapshots/s1";
  verifier_name = "RTLVerifier";
  verifier_is_rtl = true;
  model = "qwen";
  max_repairs = 2;
  skills_available = [];
}

abbrev no_skill : SkillMatch
no_skill = record {
  skill = none;
  score = 0;
  matched_keywords = [];
  relevant_references = [];
  suggested_domain = "SOFTWARE";
  reasoning = "none";
}

-- A model that answers its first calls, as many as `answers`, and then fails; an executor that
-- writes a file; a verifier with a fixed verdict.
abbrev host : ℕ → VerificationResult → Host ℕ
host answers verdict = record {
  route = λ p. no_skill;
  query_model = λ ms w. (w + 1, if ltb w answers then ok "reply" else raised "timeout");
  parse_action = λ raw. ok (write_file (record { path = "a.sv"; content = "bad" }));
  policy_check = λ a ws. ok tt;
  execute_action = λ a ws s w. (w, put "a.sv" (file "bad") ws, s, ok end);
  verify = λ ws s w. (w, ws, s, ok verdict);
}

abbrev latch : VerificationResult
latch = record rtl_result { error_category = some "LATCH_INFERRED" }

abbrev clean : VerificationResult
clean = record rtl_result { passed = true; exit_code = ExitCode.pos 0; silicon_verified = true }

abbrev files : Files
files = ("top.sv", file "good") ∷ (".mind", file "") ∷ []

abbrev start : Driver ℕ
start = record {
  ledger = record {
    session_id = "s1";
    loopback_only = false;
    turn = 0;
    step_index = 0;
    prev_hash = genesis;
    transcript = [];
  };
  workspace = files;
  snapshot = absent;
  world = 0;
}

start-IsLedger : IsLedger crypto start.ledger
start-IsLedger = record { chained = tt; head = refl; counted = refl }

files-IsDirectory : IsDirectory files
unfolding find
files-IsDirectory = (refl, (refl, tt))

-- The first verification passes: the run is verified in 11 phases.
verified_run : (run crypto config (host 1 clean) "task" start).1 ≡ returned true
unfolding run open_session route_phase snapshot_phase judge repair_loop after_turn run_turn
    after_query parse_phase after_parse policy_phase after_policy execute_phase after_execute
    observe_phase verify_phase after_verify finish_verified next_turn emit emit_trace
verified_run = refl

-- Both turns are verified and fail: the run is rolled back.
rolled_back_run :
    let (d, ending) = run crypto config (host 2 latch) "task" start in
    (ending ≡ returned false) × (last_phase d ≡ some trace)
unfolding run open_session route_phase snapshot_phase judge repair_loop after_turn run_turn
    after_query parse_phase after_parse policy_phase after_policy execute_phase after_execute
    observe_phase verify_phase after_verify repair_or_roll_back roll_back after_restore
    restore_snapshot copy_back placed find trace_rolled_back is_non_repairable next_turn emit
    emit_trace create_snapshot next_record copy_items put copy_entry
rolled_back_run = (refl, refl)

-- The first turn is verified and fails, the second one has no model: the bad file stays.
unrestored_run :
    let (d, ending) = run crypto config (host 1 latch) "task" start in
    (ending ≡ returned false) × (find "a.sv" d.workspace ≡ some (file "bad"))
unfolding run open_session route_phase snapshot_phase judge repair_loop after_turn run_turn
    after_query retry parse_phase after_parse policy_phase after_policy execute_phase after_execute
    observe_phase verify_phase after_verify repair_or_roll_back is_non_repairable next_turn emit
    emit_trace create_snapshot put find copy_entry
unrestored_run = (refl, refl)

restore-create_snapshot_example :
    (back : Files) × (restore_snapshot
        (stored (create_snapshot files).0)
        (("a.sv", file "bad") ∷ [])
      ≡ restored back)
    × ((j : String)
        → find j back ≡ (if j == ".mind" then find j (("a.sv", file "bad") ∷ []) else find j files))
restore-create_snapshot_example =
    restore-create_snapshot files (("a.sv", file "bad") ∷ []) files-IsDirectory

run-IsLedger_example : IsLedger crypto (run crypto config (host 1 latch) "task" start).0.ledger
run-IsLedger_example = run-IsLedger crypto config (host 1 latch) "task" start start-IsLedger

-- A transcript of one record.
abbrev one : List TraceRecord
one = (emit_trace crypto intake end start.ledger).transcript

one-IsChain : IsChain crypto genesis 0 one
unfolding emit_trace next_record compute_expected_hash
one-IsChain = (refl, refl, refl, refl, tt)

-- A record of another phase: this digest does not tell them apart.
abbrev other : List TraceRecord
other = (emit_trace crypto trace end start.ledger).transcript

other-IsChain : IsChain crypto genesis 0 other
unfolding emit_trace next_record compute_expected_hash
other-IsChain = (refl, refl, refl, refl, tt)

chain_tamper_evident_example : (one ≡ other) ⊎ Collision crypto one other
unfolding emit_trace next_record
chain_tamper_evident_example =
    chain_tamper_evident crypto genesis one other one-IsChain other-IsChain refl refl

-- The same host with a command that removes the snapshot, as `rm -rf .mind/snapshots` does.
abbrev eraser : Host ℕ
eraser = record (host 2 latch) {
  parse_action = λ raw. ok (run_command ("rm" ∷ "-rf" ∷ ".mind/snapshots" ∷ []) 30);
  execute_action = λ a ws s w. (w, ws, absent, ok end);
}

erased_run :
    (run crypto config eraser "task" start).1
    ≡ crashed
        (no_snapshot "Cannot restore snapshot: directory /ws/.mind/snapshots/s1 does not exist.")
unfolding run open_session route_phase snapshot_phase judge repair_loop after_turn run_turn
    after_query parse_phase after_parse policy_phase after_policy execute_phase after_execute
    observe_phase verify_phase after_verify repair_or_roll_back roll_back after_restore
    restore_snapshot is_non_repairable next_turn emit emit_trace
erased_run = refl

-- A command that puts its own file into the snapshot: the rollback restores it.
abbrev forger : Host ℕ
forger = record (host 2 latch) {
  execute_action = λ a ws s w. (w, ws, stored (("top.sv", file "forged") ∷ []), ok end);
}

forged_run :
    let (d, ending) = run crypto config forger "task" start in
    (ending ≡ returned false) × (find "top.sv" d.workspace ≡ some (file "forged"))
unfolding run open_session route_phase snapshot_phase judge repair_loop after_turn run_turn
    after_query parse_phase after_parse policy_phase after_policy execute_phase after_execute
    observe_phase verify_phase after_verify repair_or_roll_back roll_back after_restore
    restore_snapshot copy_back placed find put copy_entry trace_rolled_back is_non_repairable
    next_turn emit emit_trace
forged_run = (refl, refl)

-- A verifier whose exception leaves the run.
abbrev broken_tool : Host ℕ
broken_tool = record (host 2 latch) { verify = λ ws s w. (w, ws, s, raised "yosys: not found") }

unjudged_run :
    (run crypto config broken_tool "task" start).1 ≡ crashed (verifier_raised "yosys: not found")
unfolding run open_session route_phase snapshot_phase judge repair_loop after_turn run_turn
    after_query parse_phase after_parse policy_phase after_policy execute_phase after_execute
    observe_phase verify_phase next_turn emit emit_trace
unjudged_run = refl

run-Outcome_example :
    Outcome config eraser start
      (run crypto config eraser "task" start).0
      (run crypto config eraser "task" start).1
run-Outcome_example = run-Outcome crypto config eraser "task" start

host-IsGuarded : IsGuarded (host 2 latch)
host-IsGuarded = record { executed = λ a ws s w. refl; verified = λ ws s w. refl }

run-restores_example :
    find "top.sv" (run crypto config (host 2 latch) "task" start).0.workspace ≡ find "top.sv" files
run-restores_example =
    run-restores crypto config (host 2 latch) "task" start host-IsGuarded (omega arith)
      files-IsDirectory rolled_back_run.0 rolled_back_run.1 "top.sv" refl

-- The last turn of the budget, on a workspace that a turn before has changed.
abbrev last_turn : Driver ℕ
last_turn = record start {
  ledger = record (start.ledger) { turn = 1 };
  workspace = ("a.sv", file "bad") ∷ files;
}

no_answer : (ms : List Message) → (w : ℕ) → ((host 0 latch).query_model ms w).1 ≡ raised "timeout"
no_answer ms w = ground arith

repair_loop-unrestored_example :
    let (e, ending) = repair_loop crypto config (host 0 latch) 3 "system" "task" none last_turn in
    (ending ≡ returned false) × (e.workspace ≡ ("a.sv", file "bad") ∷ files) × (e.snapshot ≡ absent)
repair_loop-unrestored_example =
    repair_loop-unrestored crypto config (host 0 latch) "system" "task" 1 none last_turn refl
      no_answer
