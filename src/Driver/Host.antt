-- ===== src/Driver/Host.antt =====
-- What PhaseDriver of src/mind3/core/driver.py calls: the actions of src/mind3/core/types.py, the skill
-- match of mind3/skills/router.py, the model, the policy check, the executor and the verifier.
use mind.Prelude.{ℕ, String, List, Option, ◌≡◌}
use mind.Signoff.Report.{VerificationResult}
use mind.Driver.Trace.{Payload}
use mind.Driver.Snapshot.{Files, Snapshot}

pub record WriteFile : Type 0 where
  pub path : String
  pub content : String

pub data AgentAction : Type 0 where
  write_file : WriteFile → AgentAction
  run_command : List String → ℕ → AgentAction
  run_skill_script : (skill_name script_name : String) → List String → ℕ → AgentAction
  write_batch_files : List WriteFile → AgentAction

-- The discriminator `action.action`.
unfoldable pub action_name : AgentAction → String
action_name (write_file f) = "write_file"
action_name (run_command command timeout) = "run_command"
action_name (run_skill_script skill script args timeout) = "run_skill_script"
action_name (write_batch_files files) = "write_batch_files"

-- A call that returns a value or raises an exception with a text.
pub data Result {ℓ} (A : Type ℓ) : Type ℓ where
  ok : A → Result A
  raised : String → Result A

-- A message of a prompt.
pub record Message : Type 0 where
  pub role : String
  pub content : String

pub record SkillReference : Type 0 where
  pub name : String
  pub content : String

-- The matched skill: its name and its instructions.
pub record Skill : Type 0 where
  pub name : String
  pub instructions : String

pub record SkillMatch : Type 0 where
  pub skill : Option Skill
  pub score : ℕ
  pub matched_keywords : List String
  pub relevant_references : List SkillReference
  pub suggested_domain : String
  pub reasoning : String

-- The calls of a run over a world `W`, which keeps what the model, the commands and the tools do.
-- The executor and the verifier may change the workspace and the snapshot, which lies in it below
-- `.mind`, and both may raise an exception, behind which their changes stay.
pub record Host (W : Type 0) : Type 0 where
  pub route : String → SkillMatch
  pub query_model : List Message → W → W × Result String
  pub parse_action : String → Result AgentAction
  pub policy_check : AgentAction → Files → Result (Unit {0})
  pub execute_action : AgentAction → Files → Snapshot → W → W × Files × Snapshot × Result Payload
  pub verify : Files → Snapshot → W → W × Files × Snapshot × Result VerificationResult

-- No action and no verification changes the snapshot.
pub record IsGuarded {W : Type 0} (h : Host W) : Type 0 where
  pub executed :
      (a : AgentAction) (ws : Files) (s : Snapshot) (w : W) → (h.execute_action a ws s w).2 ≡ s
  pub verified : (ws : Files) (s : Snapshot) (w : W) → (h.verify ws s w).2 ≡ s
