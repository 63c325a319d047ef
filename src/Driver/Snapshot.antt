-- ===== src/Driver/Snapshot.antt =====
-- The workspace snapshot of src/mind3/core/driver.py: _create_snapshot, _restore_snapshot and
-- _purge_snapshot. A workspace is the list of its top-level items; what stands at the snapshot's path,
-- which lies below `.mind`, is kept beside it.
use text.Mathlib.Text.{◌==◌}
use mind.Prelude.{
  ℕ, String, Bool, not, List, [], ◌∷◌, Option, none, some, keep, length, if◌then◌else◌,
}

mutual
  pub data Entry : Type 0 where
    symlink : String → Entry
    file : String → Entry
    dir : Entries → Entry

  pub data Entries : Type 0 where
    empty : Entries
    item : String → Entry → Entries → Entries

abbrev pub Files : Type 0
Files = List (String × Entry)

-- `symlink_to(readlink())`, `copy2` and `copytree(symlinks=True)`, by the kind of the item.
unfoldable mutual
  pub copy_entry : Entry → Entry
  copy_entry (symlink target) = symlink target
  copy_entry (file content) = file content
  copy_entry (dir es) = dir (copytree es)

  pub copytree : Entries → Entries
  copytree empty = empty
  copytree (item name e es) = item name (copy_entry e) (copytree es)

abbrev pub is_mind : String × Entry → Bool
is_mind (name, e) = name == ".mind"

-- What stands at the path of the snapshot, as `exists` and `iterdir` see it.
pub data Snapshot : Type 0 where
  absent : Snapshot
  stored : Files → Snapshot
  not_directory : Snapshot

-- Put an item at a name of a directory.
unfoldable pub put : String → Entry → Files → Files
put name e [] = (name, e) ∷ []
put name e ((n, x) ∷ fs) = if n == name then (n, e) ∷ fs else (n, x) ∷ put name e fs

-- Copy the items of one directory into another, one after the other.
unfoldable pub copy_items : Files → Files → Files
unfolding put
copy_items [] dest = dest
copy_items ((name, e) ∷ fs) dest = copy_items fs (put name (copy_entry e) dest)

-- The new snapshot and the count of the items copied.
unfoldable pub create_snapshot : Files → Files × ℕ
unfolding copy_items
create_snapshot ws =
    let items = keep (λ f. not (is_mind f)) ws in (copy_items items [], length items)

-- What the workspace holds at a name.
unfoldable pub find : String → Files → Option Entry
find name [] = none
find name ((n, e) ∷ fs) = if n == name then some e else find name fs

put_in : String → Entry → Entries → Entries
put_in name e empty = item name e empty
put_in name e (item n x es) =
    let rest = put_in name e es in if n == name then item n e es else item n x rest

-- An item that is copied to a place where another one stands: `copy2` writes over a file, through a
-- link and into a directory, `symlink_to` and `copytree` raise a FileExistsError.
unfoldable pub copy_over : String → Entry → Entry → Option Entry
unfolding put_in
copy_over name (symlink target) old = none
copy_over name (dir es) old = none
copy_over name (file content) (symlink target) = some (symlink target)
copy_over name (file content) (file before) = some (file content)
copy_over name (file content) (dir es) = some (dir (put_in name (file content) es))

-- The entry that a copy leaves at a place.
unfoldable pub placed : String → Entry → Option Entry → Option Entry
unfolding copy_over
placed name e none = some (copy_entry e)
placed name e (some old) = copy_over name e old

-- What a restoration does: the workspace, a RuntimeError as there is no snapshot, or an OSError that
-- leaves the workspace half-way.
pub data Restoration : Type 0 where
  restored : Files → Restoration
  missing : Restoration
  broken : Files → Restoration

unfoldable pub copy_back : Files → Files → Restoration
unfolding placed put find
copy_back [] dest = restored dest
copy_back ((name, e) ∷ fs) dest = elim (placed name e (find name dest)) [
  | none ↦ broken dest
  | some x ↦ copy_back fs (put name x dest)
]

-- `_restore_snapshot`
unfoldable pub restore_snapshot : Snapshot → Files → Restoration
unfolding copy_back
restore_snapshot absent ws = missing
restore_snapshot not_directory ws = broken (keep is_mind ws)
restore_snapshot (stored snap) ws = copy_back snap (keep is_mind ws)

-- `_purge_snapshot`: `rmtree` with its errors ignored leaves what is no directory.
unfoldable pub purge_snapshot : Snapshot → Snapshot
purge_snapshot not_directory = not_directory
purge_snapshot _ = absent
