-- ===== src/Lib.antt =====
-- Mind 3.0 drives a language model through the design of a digital circuit and accepts its work only
-- behind deterministic verification. This library models the parts that decide: the sequence of
-- signoff gates with its verdict; the lifecycle that runs the model, executes its actions, asks the
-- verifier, and repairs, accepts or rolls back, with a hash-chained transcript of every phase; the
-- policy on actions; the filter of trivial properties; the design frontier; and the checks before a
-- release.
--
-- The parts, by module:
--   * Prelude: the library names and helpers that all modules share; Prelude/Tests has if-then-else
--     and the Boolean tests, Prelude/Lists has Python's any, all and filters, Prelude/Keep
--     what a filter keeps, Prelude/Names the sets of names, Prelude/Text the numerals and slices.
--   * Signoff (src/mind3/core/verifier.py, SiliconSignoffVerifier). Signoff/Report has the report
--     dictionaries, a key that may be absent as an Option, and VerificationResult of
--     src/mind3/core/types.py. Signoff/Gates has `verify`: `check_gate` is the append, mark, return
--     early on failure that the source repeats for every gate, `Stage` tells an early return from
--     going on, and `Runners` has one function for each _run_gate method. Signoff/Requirement has
--     _cdc_requirement. Signoff/Plan is an independent description: the gates as one list, in the
--     order of the flow; Signoff/Reports, Signoff/Verdict and Signoff/Order relate the two.
--   * Driver (src/mind3/core/driver.py, PhaseDriver). Driver/Trace has the records, their hash and
--     _emit_trace; Driver/Snapshot has _create_snapshot, _restore_snapshot and _purge_snapshot over
--     an association list of the workspace's items, and what stands at the snapshot's path, which
--     lies in the workspace and which the executor and the verifier may change like the rest; Driver/Prompts the texts sent to the model;
--     Driver/Host what the driver calls (the model, the action schema, the policy, the executor, the
--     verifier), over any state of the world; Driver/State, Driver/Finish and Driver/Lifecycle have
--     `run`, one function for each phase. Driver/Rules has the proof rules of a turn and of the
--     loop; Driver/Chain, Driver/Tamper, Driver/Rollback, Driver/Outcome, Driver/Judgement and
--     Driver/Endings have what is proved with them.
--   * Formal (src/mind3/core/formal_templates.py, is_tautological_property_text): the filter that drops formal
--     properties which hold of every design. Formal/Scan has Python's text operations, Formal/Token
--     the regular expression of the tokens, Formal/Node and Formal/Parser the trees and the
--     recursive descent, Formal/Table the truth table; Formal/Strip, Formal/Split and
--     Formal/Structure the checks by structure in front of it, and is_tautological_property_text.
--     Formal/Fuel, Formal/Assignments, Formal/Proved, Formal/Unwrapped, Formal/Join,
--     Formal/Decided and Formal/Filter have what is proved of them.
--   * Action (src/mind3/core/driver.py, _policy_check and _execute_action): Action/Paths has pathlib's
--     paths as lists of parts, Action/Disk the disk with mkdir and write_text, Action/Policy and
--     Action/Execute the two functions; Action/Ancestors, Action/Writes and Action/Confined have
--     what is proved. The driver's Host stands for these two, so Driver does not use Action.
--   * Pareto (src/mind3/core/driver.py, PPAPoint and PPAOptimizer): Pareto/Numbers is the interface of
--     floats without NaN, Pareto/Optimizer the points and the frontier, Pareto/Dominance and
--     Pareto/Frontier what is proved for every implementation of the interface.
--   * Assurance (src/mind3/core/assurance.py, TapeoutReadinessVerifier): Assurance/Readiness has the
--     checks and receipts, Assurance/Ready what is proved. It takes its paths from Action/Paths.
--   * Release (src/mind3/core/release.py): Release/Bundle has the approval, the bundle, verify_integrity
--     and create_release_bundle, Release/Integrity what is proved.
--   * Cache (src/mind3/core/cache.py, ContentAddressedCache): Cache/Store has the files, counters and
--     keys, Cache/Contents what is proved.
--   * Cdc (tools/cdc_checker): Cdc/Netlist has the parsed design and the combinational cone, Cdc/Domains
--     the clock domains, Cdc/Crossings the traversal behind each flop, Cdc/Synchronizers the
--     classification and the verdict, Cdc/Report the exit code and the report. Cdc/Reach says what
--     feeds what; Cdc/Weight, Cdc/Cone, Cdc/Complete, Cdc/Found, Cdc/Into, Cdc/Listed, Cdc/Status,
--     Cdc/Exit, Cdc/Passed, Cdc/Sampled, Cdc/Chained and Cdc/Safe have what is
--     proved. Cdc/Tokens, Cdc/Statements and Cdc/Always are the part of the front end that turns an
--     always block into drivers; Cdc/Lost and Cdc/Consumed have what is proved of it.
--   * Routing (src/mind3/core/intent.py, src/mind3/skills/router.py): Routing/Words has the word
--     searches, Routing/Intent the gate between direct answers and the pipeline, Routing/Skills and
--     Routing/Router the skills, their keyword table and `route`; Routing/Gate and Routing/Best have
--     what is proved.
--   * Taxonomy (src/mind3/core/failure_taxonomy.py, classify_failure): Taxonomy/Categories has the
--     categories and their map, Taxonomy/Signature the search of a log, Taxonomy/Classifier the
--     classification; Taxonomy/Consistent and Taxonomy/Labels have what is proved. It takes the
--     gates' labels from Signoff/Report.
--   * Vcd (src/mind3/core/vcd_evidence.py): Vcd/Lines has the text operations and the dicts,
--     Vcd/Reader the loop of parse_vcd over the lines, Vcd/Grouping the steps by the solver's
--     counter and parse_vcd, Vcd/Decode the choice of signals and steps, Vcd/Table
--     decode_counterexample; Vcd/Quoted, Vcd/Evidence and
--     Vcd/Bounds have what is proved.
--
-- Parameters. SHA-256, canonical JSON and the clock are fields of Crypto. The gate runners, which
-- start EDA tools, are fields of Runners. A Host answers for the model and its JSON schema, the
-- policy check, the executor and the verifier; each may raise an exception, which the source catches
-- except for the verifier's, and the executor and the verifier may change the workspace and the
-- snapshot in any way. Unicode has what the
-- character classes of Python's regular expressions match beyond ASCII, and Letters adds its cases. Setting.resolve is where
-- the links of the file system lead, Site has the files and str.upper, Registry has the digest of
-- the evidence and the parser of timestamps, and a Sandbox runs a command and may change the disk
-- in any way.
--
-- Bounds. Numbers are natural numbers without a bound, as Python's; exit codes carry their sign. The
-- loop of `run` has the fuel max_repairs + 1: every turn that goes on adds 1 to `turn`, so the fuel
-- is not used up. The parser of Formal has 6 units of
-- fuel for each token, one for each of its levels of precedence; the loop that strips parentheses
-- has the text's length. The decimal numerals have the number itself as fuel.
--
-- Not modelled: the writing of transcript.jsonl (the transcript is a list, and _emit_trace raises
-- nothing, also where a command has removed .mind), failing reads and writes of files, the search for source
-- files (an argument of `verify`), the bodies of the gate runners, the HTTP clients, and the parts
-- of the repository that generate text or start processes (sandbox, EDA scripts, benchmarks, scripts).
-- The gate runners' parsers, the silicon pipeline, the contracts, the property templates, the
-- guards of the waveform evidence and the rest of the front end of the clock-domain checker are not
-- modelled either.
pub mod Prelude
pub mod Signoff
pub mod Driver
pub mod Formal
pub mod Action
pub mod Pareto
pub mod Assurance
pub mod Release
pub mod Cache
pub mod Cdc
pub mod Routing
pub mod Taxonomy
pub mod Vcd
