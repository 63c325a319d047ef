-- ===== src/Driver/Outcome.antt =====
-- How a run of PhaseDriver (src/mind3/core/driver.py) may end: verified, rolled back, behind a last turn
-- that failed early with the workspace as it was left, or with an exception.
use Prim.Native.String.{◌++◌ as append}
use mind.Prelude.{◌≤◌, String, true, false, ◌≡◌, ◌⊎◌, some, if◌then◌else◌}
use mind.Signoff.Report.{VerificationResult}
use mind.Driver.Trace.{Phase, verify, trace, str}
use mind.Driver.Snapshot.{
  Files, Snapshot, stored, not_directory, create_snapshot, restored, missing, broken,
  restore_snapshot, purge_snapshot,
}
use mind.Driver.Host.{ok, raised, Host, IsGuarded}
use mind.Driver.State.{
  Config, Driver, is_non_repairable, not_removed, verifier_raised, no_snapshot, not_copied, Ending,
  returned, crashed,
}
use mind.Driver.Rules.{is_early}
use mind.Driver.Frame.{last_phase, final_status}

-- A phase that fails before the verification was traced last.
abbrev pub FailedEarly : {W : Type 0} → Driver W → Type 0
FailedEarly d = (phase : Phase) × (last_phase d ≡ some phase) × (is_early phase ≡ true)

-- The label of a verified run.
abbrev pub verified_label : VerificationResult → String
verified_label v = if v.silicon_verified then "SILICON_VERIFIED" else "VERIFIED_SUCCESS"

-- The label of a run that was rolled back.
abbrev pub reverted_label : VerificationResult → String
reverted_label v =
    if is_non_repairable v.error_category then "ABORTED_NON_REPAIRABLE" else "ROLLED_BACK"

-- The snapshot is the one of the workspace of the driver `start`, if no call changes it.
abbrev pub Kept : {W : Type 0} → Host W → Driver W → Driver W → Type 0
Kept h start d = IsGuarded h → d.snapshot ≡ stored (create_snapshot start.workspace).0

-- The text of the RuntimeError of a rollback without a snapshot.
abbrev pub missing_text : Config → String
missing_text c =
    append "Cannot restore snapshot: directory " (append c.snapshot_path " does not exist.")

-- How a run ends that started with the driver `start`.
pub data Outcome {W : Type 0} (c : Config) (h : Host W) (start d : Driver W) (e : Ending)
    : Type 0 where
  verified :
      e ≡ returned true
      → (prev : Files) (before after : Snapshot) (w : W) (v : VerificationResult)
      → h.verify prev before w ≡ (d.world, d.workspace, after, ok v)
      → v.passed ≡ true
      → d.snapshot ≡ purge_snapshot after
      → last_phase d ≡ some trace
      → final_status d ≡ some (str (verified_label v))
      → Outcome c h start d e
  rolled_back :
      e ≡ returned false
      → (prev later : Files) (before : Snapshot) (w : W) (v : VerificationResult)
      → h.verify prev before w ≡ (d.world, later, d.snapshot, ok v)
      → v.passed ≡ false
      → Kept h start d
      → restore_snapshot d.snapshot later ≡ restored d.workspace
      → last_phase d ≡ some trace
      → final_status d ≡ some (str (reverted_label v))
      → Outcome c h start d e
  left_as_is :
      e ≡ returned false
      → Kept h start d
      → c.max_repairs ≤ d.ledger.turn
      → FailedEarly d ⊎ (c.max_repairs ≡ 0)
      → Outcome c h start d e
  without_snapshot :
      e ≡ crashed (no_snapshot (missing_text c))
      → (prev : Files) (before : Snapshot) (w : W) (v : VerificationResult)
      → h.verify prev before w ≡ (d.world, d.workspace, d.snapshot, ok v)
      → v.passed ≡ false
      → Kept h start d
      → restore_snapshot d.snapshot d.workspace ≡ missing
      → last_phase d ≡ some verify
      → Outcome c h start d e
  half_restored :
      e ≡ crashed not_copied
      → (prev later : Files) (before : Snapshot) (w : W) (v : VerificationResult)
      → h.verify prev before w ≡ (d.world, later, d.snapshot, ok v)
      → v.passed ≡ false
      → Kept h start d
      → restore_snapshot d.snapshot later ≡ broken d.workspace
      → last_phase d ≡ some verify
      → Outcome c h start d e
  without_verdict :
      (exc : String)
      → e ≡ crashed (verifier_raised exc)
      → (prev : Files) (before : Snapshot) (w : W)
      → h.verify prev before w ≡ (d.world, d.workspace, d.snapshot, raised exc)
      → Outcome c h start d e
  not_started :
      e ≡ crashed not_removed
      → start.snapshot ≡ not_directory
      → d.snapshot ≡ not_directory
      → d.workspace ≡ start.workspace
      → d.world ≡ start.world
      → Outcome c h start d e
