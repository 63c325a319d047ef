-- ===== src/Action/Examples.antt =====
-- Actions on a small workspace under src/mind3/core/driver.py's policy.
use text.Mathlib.Text.{◌==◌ as str_eq}
use mind.Prelude.{String, false, [], ◌∷◌, ◌++◌, none, some, if◌then◌else◌, ◌≡◌, refl, inl}
use mind.Driver.Host.{WriteFile, AgentAction, write_batch_files, write_file, ok, raised}
use mind.Action.Paths.{FilePath, join, is_relative_to, same_path, common_path}
use mind.Action.Disk.{
  file, directory, Disk, store, make_directories, parent_of, write_text, write_after, write_file_at,
}
use mind.Action.Policy.{
  Setting, target_of, has_null, is_directory, check_next, check_write, check_writes, policy_check,
}
use mind.Action.Execute.{
  Sandbox, with_newline, and_then, execute_write, execute_writes, execute_action,
}
use mind.Action.Confined.{HasRoot, policy_check-confines}

-- A file system without links: `..` goes up.
unfoldable resolve_from : FilePath → FilePath → FilePath
unfolding parent_of
resolve_from done [] = done
resolve_from done (p ∷ rest) =
    resolve_from (if str_eq p ".." then parent_of done else done ++ p ∷ []) rest

abbrev setting : Setting
setting = record {
  workspace = "/" ∷ "ws" ∷ [];
  resolve = λ p. p;
  scripts_of = λ n. none;
  unicode = record { word = λ n. false; digit = λ n. false; space = λ n. false };
}

abbrev lexical : Setting
lexical = record setting { resolve = resolve_from [] }

abbrev sandbox : Sandbox
sandbox = λ c t d. (d, raised "no sandbox")

-- The directories down to the workspace.
abbrev disk : Disk
disk = λ p. if is_relative_to ("/" ∷ "ws" ∷ []) p then some directory else none

abbrev write : String → WriteFile
write path = record { path = path; content = "x" }

up_blocked :
    policy_check lexical disk (write_file (write "rtl/../../etc/passwd"))
    ≡ raised "Security violation: path traversal blocked for path: rtl/../../etc/passwd"
unfolding policy_check check_write has_null is_relative_to resolve_from target_of join
up_blocked = refl

absolute_blocked :
    policy_check lexical disk (write_file (write "/etc/passwd"))
    ≡ raised "Security violation: path traversal blocked for path: /etc/passwd"
unfolding policy_check check_write has_null is_relative_to resolve_from target_of join
absolute_blocked = refl

-- The second file needs a directory where the first one was written: the batch passes the policy,
-- its execution raises, and the first file stays.
abbrev clash : AgentAction
clash = write_batch_files (write "a" ∷ write "a/b" ∷ [])

clash_admitted : policy_check setting disk clash ≡ ok tt
unfolding policy_check check_writes check_next check_write has_null is_relative_to target_of join
    same_path common_path is_directory
clash_admitted = refl

half_written :
    let (d, result) = execute_action setting sandbox clash disk in
    (d ("/" ∷ "ws" ∷ "a" ∷ []) ≡ some (file "x\n")) × (result ≡ raised "Not a directory")
unfolding execute_action and_then execute_writes execute_write write_file_at write_after
    make_directories parent_of target_of join is_relative_to write_text store same_path with_newline
half_written = (refl, refl)

disk-HasRoot : HasRoot setting disk
disk-HasRoot p h = rw h refl

outside : is_relative_to ("/" ∷ "etc" ∷ []) ("/" ∷ "ws" ∷ []) ≡ false
unfolding is_relative_to
outside = refl

policy_check-confines_example :
    (execute_action setting sandbox clash disk).0 ("/" ∷ "etc" ∷ []) ≡ disk ("/" ∷ "etc" ∷ [])
policy_check-confines_example =
    policy_check-confines setting sandbox clash disk tt disk-HasRoot clash_admitted
      ("/" ∷ "etc" ∷ []) (inl outside)
