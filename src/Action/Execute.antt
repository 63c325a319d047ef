-- ===== src/Action/Execute.antt =====
-- _execute_action of src/mind3/core/driver.py. The sandbox, which runs a command, is a parameter.
use Prim.Native.Char.{code}
use Prim.Native.String.{◌++◌ as append, len}
use text.Mathlib.Text.{◌==◌ as str_eq}
use mind.Prelude.{
  ℕ, ◌+◌, String, Bool, false, List, [], ◌∷◌, ◌++◌, length, Option, none, some, if◌then◌else◌, ◌==◌,
}
use mind.Signoff.Report.{ExitCode}
use mind.Driver.Host.{
  WriteFile, AgentAction, write_file, run_command, run_skill_script, write_batch_files, Result, ok,
  raised,
}
use mind.Action.Paths.{join, relative_to, path_text, absolute_text}
use mind.Action.Disk.{Disk, parent_of, write_file_at}
use mind.Action.Policy.{Setting, target_of}

pub record WriteRecord : Type 0 where
  pub path : String
  pub bytes_written : ℕ

pub record Completed : Type 0 where
  pub exit_code : ExitCode
  pub stdout : String
  pub stderr : String

-- The dictionary that the execution returns.
pub data ExecutionRecord : Type 0 where
  wrote : WriteRecord → ExecutionRecord
  wrote_batch : (count total_bytes_written : ℕ) → List WriteRecord → ExecutionRecord
  ran_script :
      (skill_name script_name : String) → (command : List String) → Completed → ExecutionRecord
  ran : (command : List String) → Completed → ExecutionRecord

-- A sandbox runs a command with a timeout; the command may change the disk.
abbrev pub Sandbox : Type 0
Sandbox = List String → ℕ → Disk → Disk × Result Completed

ends_in_newline : String → Bool
ends_in_newline String.[] = false
ends_in_newline (String.◌∷◌ c String.[]) = code c == 10
ends_in_newline (String.◌∷◌ c (String.◌∷◌ d t)) = ends_in_newline (String.◌∷◌ d t)

-- The content with a newline at its end, if it is not empty.
unfoldable pub with_newline : String → String
unfolding ends_in_newline
with_newline text =
    if str_eq text "" then text else if ends_in_newline text then text else append text "\n"

module _ {A B : Type 0} where
  -- The next statement, unless the one before raised.
  unfoldable pub and_then : Disk × Result A → (A → Disk → Disk × Result B) → Disk × Result B
  and_then (disk, ok a) next = next a disk
  and_then (disk, raised e) next = (disk, raised e)

-- The branch `write_file`.
unfoldable pub execute_write : Setting → WriteFile → Disk → Disk × Result WriteRecord
execute_write s f disk =
    let target = target_of s f.path in
    let content = with_newline f.content in
    and_then (write_file_at (parent_of target) target content disk) λ _ d. (
      d,
      ok (record {
        path = path_text (relative_to target (s.resolve s.workspace));
        bytes_written = len content;
      }),
    )

-- `[self._execute_action(f) for f in files]`: the files before a failing one stay written.
unfoldable pub execute_writes : Setting → List WriteFile → Disk → Disk × Result (List WriteRecord)
execute_writes s [] disk = (disk, ok [])
execute_writes s (f ∷ fs) disk =
    and_then (execute_write s f disk)
      λ r d. and_then (execute_writes s fs d) λ rs d'. (d', ok (r ∷ rs))

total : List WriteRecord → ℕ
total [] = 0
total (r ∷ rs) = r.bytes_written + total rs

script_content : String → List (String × String) → Option String
script_content name [] = none
script_content name ((n, content) ∷ scripts) =
    if str_eq name n then some content else script_content name scripts

module _ (s : Setting) (sandbox : Sandbox) where
  run_script :
      String → String → List String → ℕ → Option String → Disk → Disk × Result ExecutionRecord
  run_script skill script args timeout none disk = (
    disk,
    raised
        (append "Script '" (append script (append "' not found in skill '" (append skill "'.")))),
  )
  run_script skill script args timeout (some content) disk =
      let path = join (s.workspace ++ ".mind" ∷ "skills" ∷ skill ∷ []) script in
      let command = "python3" ∷ absolute_text path ∷ args in
      and_then (write_file_at (s.resolve (parent_of path)) (s.resolve path) content disk) λ _ d.
        and_then (sandbox command timeout d) λ c d'. (d', ok (ran_script skill script command c))

  -- `_execute_action`
  unfoldable pub execute_action : AgentAction → Disk → Disk × Result ExecutionRecord
  unfolding total script_content run_script
  execute_action (write_file f) disk = and_then (execute_write s f disk) λ r d. (d, ok (wrote r))
  execute_action (write_batch_files fs) disk =
      and_then (execute_writes s fs disk) λ rs d. (d, ok (wrote_batch (length rs) (total rs) rs))
  execute_action (run_skill_script skill script args timeout) disk = elim (s.scripts_of skill) [
    | none ↦ (disk, raised (append "Skill '" (append skill "' is not registered.")))
    | some scripts ↦ run_script skill script args timeout (script_content script scripts) disk
  ]
  execute_action (run_command command timeout) disk =
      and_then (sandbox command timeout disk) λ c d. (d, ok (ran command c))
