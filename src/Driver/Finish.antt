-- ===== src/Driver/Finish.antt =====
-- REPAIR_OR_FINISH of PhaseDriver.run (src/mind3/core/driver.py): success, abort, rollback or repair.
use Prim.Native.String.{◌++◌ as append}
use mind.Prelude.{◌+◌, true, false, some, leb, if◌then◌else◌}
use mind.Signoff.Report.{VerificationResult}
use mind.Driver.Trace.{
  repair_or_finish, trace, str, number, flag, optional, reports, end, field, Crypto,
}
use mind.Driver.Snapshot.{Restoration, restored, missing, broken, restore_snapshot, purge_snapshot}
use mind.Driver.Prompts.{repair_feedback_of}
use mind.Driver.State.{
  Config, Driver, is_non_repairable, no_snapshot, not_copied, returned, crashed, Turn, again,
  finished, emit, next_turn,
}

module _ {W : Type 0} (k : Crypto) (c : Config) where
  -- `v_result.passed`: purge the snapshot and finish.
  unfoldable pub finish_verified : VerificationResult → Driver W → Turn W
  finish_verified v d =
      let label = if v.silicon_verified then "SILICON_VERIFIED" else "VERIFIED_SUCCESS" in
      let d₁ = record d { snapshot = purge_snapshot d.snapshot } in
      let d₂ =
        emit k repair_or_finish
          (field "status" (str label) (
            field "turns_taken" (number (d.ledger.turn + 1)) (
              field "workspace_clean" (flag true) (
                field "silicon_verified" (flag v.silicon_verified)
                  (field "gate_reports" (reports v.gate_reports) end)))))
          d₁ in
      finished
        (emit k trace
          (field "final_status" (str label) (
            field "total_steps" (number d₂.ledger.step_index)
              (field "session_id" (str c.session_id) end)))
          d₂)
        (returned true)

  -- What the caller of `_restore_snapshot` does: trace, or let the exception out.
  unfoldable pub after_restore : Restoration → (Driver W → Driver W) → Driver W → Turn W
  after_restore missing traced d = finished d (
      crashed (
        no_snapshot (
          append "Cannot restore snapshot: directory "
            (append c.snapshot_path " does not exist."))))
  after_restore (broken ws) traced d = finished (record d { workspace = ws }) (crashed not_copied)
  after_restore (restored ws) traced d =
      finished (traced (record d { workspace = ws })) (returned false)

  -- `_restore_snapshot`, and then the phases that the caller traces.
  unfoldable pub roll_back : Driver W → (Driver W → Driver W) → Turn W
  roll_back d traced = after_restore (restore_snapshot d.snapshot d.workspace) traced d

  unfoldable pub trace_aborted : VerificationResult → Driver W → Driver W
  trace_aborted v d =
      let d₁ =
        emit k repair_or_finish
          (field "status" (str "ABORTED_NON_REPAIRABLE") (
            field "error_category" (optional v.error_category) (
              field "turns_taken" (number d.ledger.turn) (
                field "reverted_to_snapshot" (str c.snapshot_path)
                  (field "failure_reason" (optional v.failure_reason) end)))))
          d in
      emit k trace
        (field "final_status" (str "ABORTED_NON_REPAIRABLE") (
          field "total_steps" (number d₁.ledger.step_index) (
            field "session_id" (str c.session_id)
              (field "error_category" (optional v.error_category) end))))
        d₁

  unfoldable pub trace_rolled_back : VerificationResult → Driver W → Driver W
  trace_rolled_back v d =
      let d₁ =
        emit k repair_or_finish
          (field "status" (str "ROLLED_BACK") (
            field "turns_exhausted" (number d.ledger.turn) (
              field "reverted_to_snapshot" (str c.snapshot_path)
                (field "last_error_category" (optional v.error_category) end))))
          d in
      emit k trace
        (field "final_status" (str "ROLLED_BACK") (
          field "total_steps" (number d₁.ledger.step_index)
            (field "session_id" (str c.session_id) end)))
        d₁

  -- A repairable failure: count the turn, and roll back or ask for a repair.
  unfoldable pub repair_or_roll_back : VerificationResult → Driver W → Turn W
  repair_or_roll_back v d =
      let d₁ = next_turn k d in
      let required = field "status" (str "REPAIR_REQUIRED") (
        field "next_turn" (number d₁.ledger.turn)
          (field "max_repairs" (number c.max_repairs) end)) in
      if leb c.max_repairs d₁.ledger.turn
      then roll_back d₁ (trace_rolled_back v)
      else again (emit k repair_or_finish required d₁) (some (repair_feedback_of v))

  -- Phase 10, after the verification is traced.
  unfoldable pub after_verify : VerificationResult → Driver W → Turn W
  after_verify v d =
      if v.passed
      then finish_verified v d
      else if is_non_repairable v.error_category
      then roll_back d (trace_aborted v)
      else repair_or_roll_back v d
