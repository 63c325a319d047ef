-- ===== src/Action/Disk.antt =====
-- The disk that src/mind3/core/driver.py's actions write: what stands at a path, the links of the file
-- system, and pathlib's mkdir and write_text. The texts of the operating system's errors are shortened.
use mind.Prelude.{String, [], ◌∷◌, ◌++◌, Option, none, some, if◌then◌else◌}
use mind.Driver.Host.{Result, ok, raised}
use mind.Action.Paths.{FilePath, same_path}

pub data Item : Type 0 where
  file : String → Item
  directory : Item

-- What stands at a resolved path.
abbrev pub Disk : Type 0
Disk = FilePath → Option Item

unfoldable pub store : FilePath → Item → Disk → Disk
store path item disk q = if same_path path q then some item else disk q

-- The directory with a path, created on the way down, and the rest of the path to go.
unfoldable pub make_directories : FilePath → FilePath → Disk → Disk × Result (Unit {0})
make_directories above [] disk = (disk, ok tt)
make_directories above (p ∷ rest) disk =
    let here = above ++ p ∷ [] in
    let made = make_directories here rest (store here directory disk) in
    let kept = make_directories here rest disk in
    elim (disk here) [
      | none ↦ made
      | some directory ↦ kept
      | some (file _) ↦ (disk, raised "Not a directory")
    ]

unfoldable pub drop_last : FilePath → FilePath
drop_last [] = []
drop_last (p ∷ []) = []
drop_last (p ∷ q ∷ rest) = p ∷ drop_last (q ∷ rest)

-- `path.parent`; the root is its own parent.
unfoldable pub parent_of : FilePath → FilePath
unfolding drop_last
parent_of [] = []
parent_of (root ∷ rest) = root ∷ drop_last rest

unfoldable pub write_text : FilePath → String → Disk → Disk × Result (Unit {0})
write_text path content disk = elim (disk path) [
  | some directory ↦ (disk, raised "Is a directory")
  | _ ↦ (store path (file content) disk, ok tt)
]

unfoldable pub write_after : FilePath → String → Disk × Result (Unit {0}) → Disk × Result (Unit {0})
write_after path content (disk, ok _) = write_text path content disk
write_after path content (disk, raised e) = (disk, raised e)

-- `parent.mkdir(parents=True, exist_ok=True)`, and then `path.write_text(content)`.
unfoldable pub write_file_at : FilePath → FilePath → String → Disk → Disk × Result (Unit {0})
write_file_at parent path content disk = write_after path content (make_directories [] parent disk)
