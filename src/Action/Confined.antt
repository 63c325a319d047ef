-- ===== src/Action/Confined.antt =====
-- What an action that src/mind3/core/driver.py's policy admits can change on the disk.
use mind.Prelude.{
  true, false, List, [], ◌∷◌, ◌++◌, some, All, ◌≡◌, ◌≢◌, refl, sym, ◌∙◌, ap, ◌⊎◌, inl, inr,
  Bool-cases, arith,
}
use mind.Driver.Host.{
  WriteFile, AgentAction, write_file, run_command, run_skill_script, write_batch_files, Result, ok,
  raised,
}
use mind.Action.Ancestors.{
  relative_refl, relative_trans, relative_antisym, relative_comparable, parent_of-relative,
}
use mind.Action.Paths.{FilePath, is_relative_to, same_path}
use mind.Action.Disk.{directory, Disk}
use mind.Action.Writes.{write_file_at-keeps}
use mind.Action.Policy.{Setting, target_of, check_write, check_writes, check_next, policy_check}
use mind.Action.Execute.{Sandbox, and_then, execute_write, execute_writes, execute_action}

abbrev root : Setting → FilePath
root s = s.resolve s.workspace

abbrev internal : Setting → FilePath
internal s = s.resolve (s.workspace ++ ".mind" ∷ [])

-- The target is below the workspace, is not the workspace, and is not in `.mind`.
record IsAllowed (s : Setting) (f : WriteFile) : Type 0 where
  inside : is_relative_to (target_of s f.path) (root s) ≡ true
  below : same_path (target_of s f.path) (root s) ≡ false
  public : is_relative_to (target_of s f.path) (internal s) ≡ false

check_write-IsAllowed :
    (s : Setting) (disk : Disk) (f : WriteFile) → check_write s disk f ≡ ok tt → IsAllowed s f
unfolding check_write
check_write-IsAllowed s disk f h = record {
  inside = ground arith;
  below = ground arith;
  public = ground arith;
}

-- A place that no action may write: outside the workspace, the workspace itself, or in `.mind`.
abbrev pub IsProtected : Setting → FilePath → Type 0
IsProtected s q =
    (is_relative_to q (s.resolve s.workspace) ≡ false)
    ⊎ ((q ≡ s.resolve s.workspace)
        ⊎ (is_relative_to q (s.resolve (s.workspace ++ ".mind" ∷ [])) ≡ true))

-- The workspace and the directories above it exist.
abbrev pub HasRoot : Setting → Disk → Type 0
HasRoot s disk =
    (p : FilePath) → is_relative_to (s.resolve s.workspace) p ≡ true → disk p ≡ some directory

root-IsProtected : (s : Setting) (p : FilePath) → is_relative_to (root s) p ≡ true → IsProtected s p
root-IsProtected s p h = elim (Bool-cases (is_relative_to p (root s))) [
  | inl e ↦ inr (inl (relative_antisym p (root s) e h))
  | inr e ↦ inl e
]

-- Every protected place holds what it held.
abbrev Keeps : Setting → Disk → Disk → Type 0
Keeps s disk d = (q : FilePath) → IsProtected s q → d q ≡ disk q

and_then-rule :
    {A B : Type 0} (P : Disk → Type 0) (m : Disk × Result A) (next : A → Disk → Disk × Result B)
    → P m.0
    → ((a : A) (d : Disk) → P d → P (next a d).0)
    → P (and_then m next).0
unfolding and_then
and_then-rule P (d, ok a) next h k = k a d h
and_then-rule P (d, raised e) next h k = h

check_next-ok :
    (first rest : Result (Unit {0}))
    → check_next first rest ≡ ok tt
    → (first ≡ ok tt) × (rest ≡ ok tt)
unfolding check_next
check_next-ok (ok t) rest h = (refl, h)
check_next-ok (raised e) rest h = absurd (ground (arith, h))

module _ (s : Setting) (disk : Disk) (r : HasRoot s disk) (f : WriteFile) (a : IsAllowed s f) where
  above_target :
      (q : FilePath)
      → IsProtected s q
      → is_relative_to (target_of s f.path) q ≡ true
      → disk q ≡ some directory
  above_target q (inl e) h = elim (relative_comparable (target_of s f.path) (root s) q a.inside h) [
    | inl k ↦ r q k
    | inr k ↦ absurd (ground (arith, k, e))
  ]
  above_target q (inr (inl e)) h = rw e (r (root s) (relative_refl (root s)))
  above_target q (inr (inr e)) h =
      absurd (ground (arith, relative_trans (target_of s f.path) q (internal s) h e, a.public))

  target_unprotected : (q : FilePath) → IsProtected s q → target_of s f.path ≢ q
  unfolding same_path
  target_unprotected q (inl h) e =
      absurd (ground (arith, sym a.inside ∙ ap (λ p. is_relative_to p (root s)) e ∙ h))
  target_unprotected q (inr (inl h)) e =
      let same = ap (λ p. same_path p (root s)) (e ∙ h) in
      let below = a.below in absurd (ground (arith, relative_refl (root s), same, below))
  target_unprotected q (inr (inr h)) e =
      absurd (ground (arith, sym a.public ∙ ap (λ p. is_relative_to p (internal s)) e ∙ h))

  execute_write-Keeps : Keeps s disk (execute_write s f disk).0
  unfolding execute_write
  execute_write-Keeps =
      and_then-rule (Keeps s disk) _ _
        (λ q p. write_file_at-keeps _ _ _ disk q (target_unprotected q p) (λ h e.
          let full =
            above_target q p (relative_trans _ _ q (parent_of-relative (target_of s f.path)) h) in
          cc))
        (λ t d k. k)

-- Directories above the workspace are protected, so they stay.
Keeps-HasRoot : (s : Setting) (disk d : Disk) → Keeps s disk d → HasRoot s disk → HasRoot s d
Keeps-HasRoot s disk d k r p h = k p (root-IsProtected s p h) ∙ r p h

execute_writes-Keeps :
    (s : Setting) (fs : List WriteFile) (disk : Disk)
    → All (IsAllowed s) fs
    → HasRoot s disk
    → Keeps s disk (execute_writes s fs disk).0
unfolding execute_writes
execute_writes-Keeps s [] disk a r = λ q p. refl
execute_writes-Keeps s (f ∷ fs) disk a r =
    and_then-rule (Keeps s disk) _ _ (execute_write-Keeps s disk r f a.0) (λ w d k.
      and_then-rule (Keeps s disk) _ _
        (λ q p. execute_writes-Keeps s fs d a.1 (Keeps-HasRoot s disk d k r) q p ∙ k q p)
        (λ ws d' k'. k'))

check_writes-IsAllowed :
    (s : Setting) (disk : Disk) (fs : List WriteFile)
    → check_writes s disk fs ≡ ok tt
    → All (IsAllowed s) fs
unfolding check_writes
check_writes-IsAllowed s disk [] h = tt
check_writes-IsAllowed s disk (f ∷ fs) h =
    let both = check_next-ok (check_write s disk f) (check_writes s disk fs) h in
    (check_write-IsAllowed s disk f both.0, check_writes-IsAllowed s disk fs both.1)

-- The action writes files on the host, one or a batch.
abbrev pub IsWrite : AgentAction → Type 0
IsWrite (write_file f) = Unit
IsWrite (write_batch_files fs) = Unit
IsWrite _ = ⊥

-- A write or a batch of writes that the policy admits changes nothing outside the workspace, does
-- not replace the workspace, and changes nothing in `.mind`: not by a file, and not by a directory
-- made on the way to one, and also where the execution raises half-way through a batch. The
-- workspace and the directories above it exist, and no link changes during the action.
pub policy_check-confines :
    (s : Setting) (sandbox : Sandbox) (action : AgentAction) (disk : Disk)
    → IsWrite action
    → HasRoot s disk
    → policy_check s disk action ≡ ok tt
    → (q : FilePath) → IsProtected s q
    → (execute_action s sandbox action disk).0 q ≡ disk q
unfolding policy_check execute_action
policy_check-confines s sandbox (write_file f) disk w r h =
    and_then-rule (Keeps s disk) _ _
      (execute_write-Keeps s disk r f (check_write-IsAllowed s disk f h)) (λ a d k. k)
policy_check-confines s sandbox (write_batch_files []) disk w r h = absurd (ground (arith, h))
policy_check-confines s sandbox (write_batch_files (f ∷ fs)) disk w r h =
    and_then-rule (Keeps s disk) _ _
      (execute_writes-Keeps s (f ∷ fs) disk (check_writes-IsAllowed s disk (f ∷ fs) h) r)
      (λ a d k. k)
policy_check-confines s sandbox (run_command c t) disk w r h = absurd w
policy_check-confines s sandbox (run_skill_script k c a t) disk w r h = absurd w
