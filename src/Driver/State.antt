-- ===== src/Driver/State.antt =====
-- The driver of src/mind3/core/driver.py: its fields, its tracing, and how a turn of its loop ends.
use text.Mathlib.Text.{◌==◌ as str_eq}
use mind.Prelude.{ℕ, ◌+◌, String, Bool, false, List, [], ◌∷◌, Option, none, some, any}
use mind.Driver.Trace.{Phase, Payload, Crypto, Ledger, emit_trace}
use mind.Driver.Snapshot.{Files, Snapshot}

-- The fields of the driver that a run does not change.
pub record Config : Type 0 where
  pub session_id : String
  pub workspace_path : String
  pub snapshot_path : String
  pub verifier_name : String
  pub verifier_is_rtl : Bool
  pub model : String
  pub max_repairs : ℕ
  pub skills_available : List String

-- The fields that a run changes, and the world of its calls.
pub record Driver (W : Type 0) : Type 0 where
  pub ledger : Ledger
  pub workspace : Files
  pub snapshot : Snapshot
  pub world : W

-- NON_REPAIRABLE_CATEGORIES.
abbrev pub non_repairable_categories : List String
non_repairable_categories =
    "EDA_BINARY_MISSING" ∷ "TIMING_REPORT_UNPARSEABLE" ∷ "MISSING_SOURCE_FILES"
    ∷ "MISSING_NETLIST_FOR_PNR" ∷ "MISSING_LIBERTY_FOR_PNR" ∷ "CDC_ANALYSIS_FAILED"
    ∷ "CDC_TOOLING_UNAVAILABLE" ∷ "CDC_INCONCLUSIVE" ∷ "CDC_CHECKER_ERROR" ∷ "NO_GENUINE_PROPERTY"
    ∷ []

unfoldable pub is_non_repairable : Option String → Bool
is_non_repairable none = false
is_non_repairable (some c) = any (λ d. str_eq c d) non_repairable_categories

-- The exceptions that leave a run: the old snapshot is no directory to remove, the verifier raised,
-- there is no snapshot to restore, or its copy failed half-way.
pub data Failure : Type 0 where
  not_removed : Failure
  verifier_raised : String → Failure
  no_snapshot : String → Failure
  not_copied : Failure

-- How a run ends: with an answer, with an exception, or, in the model alone, at the end of its fuel.
pub data Ending : Type 0 where
  returned : Bool → Ending
  crashed : Failure → Ending
  out_of_fuel : Ending

-- A turn of the loop asks for another one, with its feedback, or ends the run.
pub data Turn (W : Type 0) : Type 0 where
  again : Driver W → Option String → Turn W
  finished : Driver W → Ending → Turn W

module _ {W : Type 0} (k : Crypto) where
  unfoldable pub emit : Phase → Payload → Driver W → Driver W
  emit phase payload d = record d { ledger = emit_trace k phase payload d.ledger }

  -- `self.turn += 1`.
  unfoldable pub next_turn : Driver W → Driver W
  next_turn d = record d { ledger = record (d.ledger) { turn = d.ledger.turn + 1 } }

  -- An early phase failed: trace it, count the turn, and go on with the feedback.
  unfoldable pub retry : Phase → Payload → String → Driver W → Turn W
  retry phase payload feedback d = again (next_turn (emit phase payload d)) (some feedback)
