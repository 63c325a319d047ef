-- ===== src/Action/Paths.antt =====
-- The paths of src/mind3/core/driver.py's policy, as pathlib splits them: an absolute path is the
-- list of its parts, the root first.
use Prim.Native.Char.{Char, code}
use Prim.Native.String.{◌++◌ as append}
use text.Mathlib.Text.{◌==◌ as str_eq}
use mind.Prelude.{
  String, Bool, true, false, not, ◌&&◌, ◌||◌, List, [], ◌∷◌, ◌++◌, if◌then◌else◌, ◌==◌, keep,
}
use mind.Formal.Scan.{starts_with}

abbrev pub FilePath : Type 0
FilePath = List String

before_first : Char → List String → List String
before_first c [] = []
before_first c (p ∷ ps) = String.◌∷◌ c p ∷ ps

-- The texts between the slashes.
split_slash : String → List String
unfolding before_first
split_slash String.[] = "" ∷ []
split_slash (String.◌∷◌ c s) =
    let rest = split_slash s in if code c == 47 then "" ∷ rest else before_first c rest

-- The parts of a path's text behind its root: `.` and the empty texts are dropped, `..` is kept.
unfoldable pub parts_of : String → FilePath
unfolding split_slash
parts_of text = keep (λ p. not (str_eq p "" || str_eq p ".")) (split_slash text)

-- Exactly two slashes are a root of their own.
unfoldable pub root_of : String → String
unfolding starts_with
root_of text =
    if starts_with "//" text && not (starts_with "///" text)
    then "//"
    else if starts_with "/" text
    then "/"
    else ""

-- `base / text`
unfoldable pub join : FilePath → String → FilePath
unfolding parts_of root_of
join base text =
    let root = root_of text in
    if str_eq root "" then base ++ parts_of text else root ∷ parts_of text

-- `path.is_relative_to(base)`
unfoldable pub is_relative_to : FilePath → FilePath → Bool
is_relative_to path [] = true
is_relative_to [] (b ∷ base) = false
is_relative_to (p ∷ path) (b ∷ base) = str_eq p b && is_relative_to path base

unfoldable pub same_path : FilePath → FilePath → Bool
unfolding is_relative_to
same_path p q = is_relative_to p q && is_relative_to q p

-- `os.path.commonpath([p, q])`
unfoldable pub common_path : FilePath → FilePath → FilePath
common_path [] q = []
common_path (a ∷ p) [] = []
common_path (a ∷ p) (b ∷ q) = if str_eq a b then a ∷ common_path p q else []

-- `path.relative_to(base)` of a path below the base.
unfoldable pub relative_to : FilePath → FilePath → FilePath
relative_to path [] = path
relative_to [] (b ∷ base) = []
relative_to (p ∷ path) (b ∷ base) = relative_to path base

slashed : FilePath → String
slashed [] = ""
slashed (p ∷ ps) = append "/" (append p (slashed ps))

-- `str(path)` of a relative path.
unfoldable pub path_text : FilePath → String
unfolding slashed
path_text [] = "."
path_text (p ∷ ps) = append p (slashed ps)

-- `str(path)` of an absolute path, its root first.
unfoldable pub absolute_text : FilePath → String
unfolding path_text
absolute_text [] = ""
absolute_text (root ∷ []) = root
absolute_text (root ∷ p ∷ ps) = append root (path_text (p ∷ ps))
