-- ===== src/Action/Policy.antt =====
-- _policy_check of src/mind3/core/driver.py.
use Prim.Native.Char.{Char}
use Prim.Native.String.{◌++◌ as append}
use text.Mathlib.Text.{◌==◌ as str_eq}
use mind.Prelude.{
  String, Bool, true, false, not, ◌&&◌, ◌||◌, List, [], ◌∷◌, ◌++◌, Option, none, some, any,
  if◌then◌else◌, ◌==◌,
}
use mind.Formal.Token.{Unicode, is_space}
use mind.Driver.Host.{
  WriteFile, AgentAction, write_file, run_command, run_skill_script, write_batch_files, Result, ok,
  raised,
}
use mind.Action.Paths.{FilePath, join, is_relative_to, same_path, common_path}
use mind.Action.Disk.{Item, directory, Disk}

-- What the policy reads: the workspace, where the links of the file system lead, the scripts of the
-- registered skills, and Python's character classes.
pub record Setting : Type 0 where
  pub workspace : FilePath
  pub resolve : FilePath → FilePath
  pub scripts_of : String → Option (List (String × String))
  pub unicode : Unicode

unfoldable pub target_of : Setting → String → FilePath
target_of s path = s.resolve (join s.workspace path)

unfoldable pub has_null : String → Bool
has_null String.[] = false
has_null (String.◌∷◌ c t) = (Prim.Native.Char.code c == 0) || has_null t

unfoldable pub is_directory : Option Item → Bool
is_directory (some directory) = true
is_directory _ = false

-- The checks of `write_file`, in their order.
unfoldable pub check_write : Setting → Disk → WriteFile → Result (Unit {0})
check_write s disk f =
    let root = s.resolve s.workspace in
    let target = target_of s f.path in
    let internal = s.resolve (s.workspace ++ ".mind" ∷ []) in
    if has_null f.path
    then raised "Security violation: null bytes in path are forbidden."
    else if not (is_relative_to target root) || not (same_path (common_path root target) root)
    then raised (append "Security violation: path traversal blocked for path: " f.path)
    else if same_path target root
    then raised "Security violation: cannot overwrite workspace root directory."
    else if is_directory (disk target)
    then raised
        (append "Security violation: target path " (append f.path " is an existing directory."))
    else if same_path target internal || is_relative_to target internal
    then raised (append "Security violation: mutation of .mind internal storage blocked: " f.path)
    else ok tt

unfoldable pub check_next : Result (Unit {0}) → Result (Unit {0}) → Result (Unit {0})
check_next (ok _) rest = rest
check_next (raised e) rest = raised e

-- The loop over the files of a batch.
unfoldable pub check_writes : Setting → Disk → List WriteFile → Result (Unit {0})
check_writes s disk [] = ok tt
check_writes s disk (f ∷ fs) = check_next (check_write s disk f) (check_writes s disk fs)

-- `not text.strip()`
is_blank : Unicode → String → Bool
unfolding is_space
is_blank u String.[] = true
is_blank u (String.◌∷◌ c t) = is_space u c && is_blank u t

check_script : String → String → Option (List (String × String)) → Result (Unit {0})
check_script skill script none =
    raised (append "Security violation: skill '" (append skill "' is not in registry."))
check_script skill script (some scripts) =
    if any (λ (name, _). str_eq script name) scripts
    then ok tt
    else raised (
        append "Security violation: script '"
          (append script (append "' is not declared in skill '" (append skill "'."))))

check_command : Unicode → List String → Result (Unit {0})
unfolding is_blank
check_command u [] = raised "Command list cannot be empty."
check_command u (name ∷ args) =
    if is_blank u name then raised "Executable binary name cannot be empty." else ok tt

-- `_policy_check`
unfoldable pub policy_check : Setting → Disk → AgentAction → Result (Unit {0})
unfolding check_script check_command
policy_check s disk (write_file f) = check_write s disk f
policy_check s disk (write_batch_files []) = raised "write_batch_files list cannot be empty."
policy_check s disk (write_batch_files (f ∷ fs)) = check_writes s disk (f ∷ fs)
policy_check s disk (run_command command timeout) = check_command s.unicode command
policy_check s disk (run_skill_script skill script args timeout) =
    check_script skill script (s.scripts_of skill)
