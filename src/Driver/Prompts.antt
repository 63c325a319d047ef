-- ===== src/Driver/Prompts.antt =====
-- The texts that PhaseDriver of src/mind3/core/driver.py sends to the model: the instruction, the prompt
-- and the repair feedback.
use Prim.Native.String.{◌++◌ as append}
use text.Mathlib.Text.{◌==◌ as str_eq}
use mind.Prelude.{◌+◌, String, List, [], ◌∷◌, Option, none, some, any, if◌then◌else◌}
use mind.Prelude.Text.{decimal, take_text, or_none}
use mind.Signoff.Report.{
  ExitCode, VerificationResult, VerificationDomain, rtl, software, physical_design, vlsi_device,
  industry_report,
}
use mind.Driver.Host.{Message, SkillReference, SkillMatch}

unfoldable pub domain_value : VerificationDomain → String
domain_value rtl = "RTL"
domain_value software = "SOFTWARE"
domain_value physical_design = "PHYSICAL_DESIGN"
domain_value vlsi_device = "VLSI_DEVICE"
domain_value industry_report = "INDUSTRY_REPORT"

unfoldable pub exit_text : ExitCode → String
exit_text (ExitCode.pos n) = decimal n
exit_text (ExitCode.negsuc n) = append "-" (decimal (n + 1))

-- `_build_prompt_messages`.
unfoldable pub build_prompt_messages : String → String → Option String → List Message
build_prompt_messages system_instruction task_prompt repair_feedback =
    let task = append "Task: " task_prompt in
    let content : String = elim repair_feedback [
      | none ↦ task
      | some feedback ↦ append task (
          append "\n\nPrevious attempt failed verification:\n"
            (append feedback "\nPlease repair the implementation."))
    ] in
    record { role = "system"; content = system_instruction }
    ∷ record { role = "user"; content = content }
    ∷ []

append_references : List SkillReference → String
append_references [] = ""
append_references (r ∷ rs) =
    append "\n["
      (append r.name (append "]\n" (append r.content (append "\n" (append_references rs)))))

-- The lines of the instruction that every run sends.
abbrev base_instruction : String
base_instruction = append "You are Mind 3.0, a deterministic, fail-closed AI engineering agent.\n" (
    append "You MUST respond ONLY with a valid JSON object matching the AgentAction schema.\n" (
      append "Supported actions:\n" (
        append
          "1. {\"action\": \"write_file\", \"path\": \"<relative_path>\", \"content\": \"<file_content>\"}\n"
          (append
            "2. {\"action\": \"write_batch_files\", \"files\": [{\"action\": \"write_file\", \"path\": \"<path1>\", \"content\": \"<content1>\"}]}\n"
            (append
              "3. {\"action\": \"run_command\", \"command\": [\"<cmd>\", \"<arg1>\", \"<arg2>\"], \"timeout_sec\": 30}\n"
              (append
                "4. {\"action\": \"run_skill_script\", \"skill_name\": \"<skill_name>\", \"script_name\": \"<relative_script_path>\", \"args\": [\"<arg1>\"]}\n"
                "Strict rules: Never wrap output in markdown codeblocks. Do not include prose or commentary.\n"))))))

-- The instruction, with the active skill and its references.
unfoldable pub system_instruction_of : SkillMatch → String
unfolding append_references
system_instruction_of m = elim m.skill [
  | none ↦ base_instruction
  | some skill ↦
      let active = append base_instruction (
        append "\n--- ACTIVE SPECIALIZED DOMAIN SKILL: "
          (append skill.name (append " ---\n" (append skill.instructions "\n")))) in
      elim m.relevant_references [
        | [] ↦ active
        | r ∷ rs ↦ append active (
            append "\n--- MANDATORY DOMAIN REFERENCE SPECIFICATIONS ---\n"
              (append_references (r ∷ rs)))
      ]
]

-- The repair feedback, by the error category of the failed verification.
unfoldable pub repair_feedback_of : VerificationResult → String
unfolding domain_value exit_text
repair_feedback_of v =
    let reason = or_none v.failure_reason in
    let has = λ (c : String).
      any (λ d. str_eq d c) (elim v.error_category [ none ↦ [] | some d ↦ d ∷ [] ]) in
    let detailed = λ (head label fix : String).
      append head (append label (append reason (append "\nFix Invariant: " fix))) in
    if has "LATCH_INFERRED"
    then detailed "GATE 1 SIGN-OFF FAILURE: Latch inferred in combinational logic.\n" "Details: "
        "Ensure every 'if' has an explicit 'else' branch and every 'case' includes a 'default'."
    else if has "FORMAL_INVARIANT_BREACH"
    then detailed
        "GATE 2 SIGN-OFF FAILURE: Formal invariant (typed bounded-property template) breached in SymbiYosys BMC.\n"
        "Counterexample Trace: "
        "Correct sequential transition condition to prevent illegal state activation."
    else if has "CDC_VIOLATION"
    then detailed
        "GATE 6 SIGN-OFF FAILURE: Unsafe clock-domain crossing detected by structural CDC analysis.\n"
        "Counterexample Trace: "
        "Route every cross-domain signal through an exact 2-flop synchronizer (`sync1 <= src; sync2 <= sync1;` in the destination domain) and never consume the raw crossing signal or the first stage elsewhere; multi-bit buses require a handshake or async FIFO."
    else if has "COVERAGE_DEFICIT"
    then detailed "GATE 3 SIGN-OFF FAILURE: Coverage threshold deficit.\n" "Details: "
        "Exercise unreached branches and toggles."
    else if has "TIMING_SLACK_VIOLATION"
    then detailed "GATE 4 SIGN-OFF FAILURE: OpenSTA timing violation (Slack < 0 ps).\n" "Details: "
        "Reduce combinational logic depth and cell delay along the critical path."
    else if has "MISSING_VERIFICATION_ARTIFACT"
    then detailed
        "VERIFICATION ARTIFACT MISSING: Required verification harness or testbench is missing.\n"
        "Details: "
        "Use 'write_file' to author the missing verification harness (e.g. .sby formal verification configuration for SymbiYosys or .cpp testbench for Verilator)."
    else append "Verification failed in " (
        append (domain_value v.domain) (
          append " domain (exit code " (
            append (exit_text v.exit_code) (
              append "):\nReason: "
                (append reason (append "\nCompiler/Runner stderr:\n" (take_text 1000 v.stderr)))))))
