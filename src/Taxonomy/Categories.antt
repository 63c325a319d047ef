-- ===== src/Taxonomy/Categories.antt =====
-- The categories of src/mind3/core/failure_taxonomy.py and the map from the fine-grained ones.
use text.Mathlib.Text.{◌==◌ as str_eq}
use mind.Prelude.{String, Bool, List, [], ◌∷◌, Option, none, some, if◌then◌else◌}

pub data FailureCategory : Type 0 where
  specification_error rtl_syntax_error rtl_semantic_error simulation_failure formal_failure
        timing_failure :
      FailureCategory
  cdc_failure coverage_failure repair_failure environment_failure timeout unknown : FailureCategory

pub record ClassifiedFailure : Type 0 where
  pub canonical_category : FailureCategory
  pub fine_grained_category : Option String
  pub gate_name : Option String
  pub deterministic_evidence : String
  pub raw_error_snippet : String

-- A gate report's keys.
pub record Gate : Type 0 where
  pub passed : Option Bool
  pub gate : Option String
  pub error_category : Option String
  pub details : Option String

abbrev fine_grained_map : List (String × FailureCategory)
fine_grained_map =
    ("EMPTY_FORMAL_PROPERTY_SET", specification_error)
    ∷ ("NO_GENUINE_PROPERTY", specification_error)
    ∷ ("UNSUPPORTED_FORMAL_PROPERTY", specification_error)
    ∷ ("SPECIFICATION_PARSING_FAILED", specification_error)
    ∷ ("INVALID_CONTRACT", specification_error)
    ∷ ("MISSING_SOURCE_FILES", specification_error)
    ∷ ("MISSING_VERIFICATION_ARTIFACT", specification_error)
    ∷ ("SYNTAX_ERROR", rtl_syntax_error)
    ∷ ("PARSE_ERROR", rtl_syntax_error)
    ∷ ("COVERAGE_BUILD_FAILURE", rtl_syntax_error)
    ∷ ("LATCH_INFERRED", rtl_semantic_error)
    ∷ ("COMBINATIONAL_LOOP", rtl_semantic_error)
    ∷ ("SYNTHESIS_ELABORATION_ERROR", rtl_semantic_error)
    ∷ ("WIDTH_MISMATCH", rtl_semantic_error)
    ∷ ("SIGNED_UNSIGNED_MISMATCH", rtl_semantic_error)
    ∷ ("MULTIPLE_DRIVERS", rtl_semantic_error)
    ∷ ("SIMULATION_FAILURE", simulation_failure)
    ∷ ("SIMULATION_MISMATCH", simulation_failure)
    ∷ ("ASSERTION_FAILED", simulation_failure)
    ∷ ("FORMAL_INVARIANT_BREACH", formal_failure)
    ∷ ("VACUOUS_PROPERTY", formal_failure)
    ∷ ("FORMAL_ANALYSIS_FAILED", formal_failure)
    ∷ ("FORMAL_FAILURE", formal_failure)
    ∷ ("LEC_VERIFICATION_FAILED", formal_failure)
    ∷ ("TIMING_SLACK_VIOLATION", timing_failure)
    ∷ ("HOLD_SLACK_VIOLATION", timing_failure)
    ∷ ("TIMING_ANALYSIS_FAILED", timing_failure)
    ∷ ("TIMING_REPORT_UNPARSEABLE", timing_failure)
    ∷ ("CDC_VIOLATION", cdc_failure)
    ∷ ("UNSYNCHRONIZED_CROSSING", cdc_failure)
    ∷ ("CDC_TOOLING_UNAVAILABLE", environment_failure)
    ∷ ("CDC_ANALYSIS_FAILED", environment_failure)
    ∷ ("COVERAGE_DEFICIT", coverage_failure)
    ∷ ("LOW_BRANCH_COVERAGE", coverage_failure)
    ∷ ("LOW_TOGGLE_COVERAGE", coverage_failure)
    ∷ ("REPAIR_BUDGET_EXHAUSTED", repair_failure)
    ∷ ("MAX_TURNS_EXCEEDED", repair_failure)
    ∷ ("REPAIR_PATCH_REJECTED", repair_failure)
    ∷ ("EDA_BINARY_MISSING", environment_failure)
    ∷ ("SANDBOX_UNAVAILABLE", environment_failure)
    ∷ ("TOOL_SEGFAULT", environment_failure)
    ∷ ("MISSING_LIBERTY_FOR_PNR", environment_failure)
    ∷ ("MISSING_NETLIST_FOR_PNR", environment_failure)
    ∷ ("MISSING_NETLIST_FOR_LEC", environment_failure)
    ∷ ("EXECUTION_TIMEOUT", timeout)
    ∷ ("TIMEOUT", timeout)
    ∷ []

unfoldable pub find_category : String → List (String × FailureCategory) → Option FailureCategory
find_category key [] = none
find_category key ((k, c) ∷ entries) = if str_eq key k then some c else find_category key entries

-- `_FINE_GRAINED_MAP.get(key)`
unfoldable pub category_for : String → Option FailureCategory
unfolding find_category
category_for key = find_category key fine_grained_map
