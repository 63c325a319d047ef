-- ===== src/Formal/Scan.antt =====
-- Python's text operations that src/mind3/core/formal_templates.py uses: startswith, in, count,
-- partition, and the longest run of a character class.
use Prim.Native.Char.{Char}
use Prim.Native.String.{count}
use text.Mathlib.Text.{◌==◌ as str_eq}
use mind.Prelude.{ℕ, zero, suc, ◌-◌, String, Bool, true, false, if◌then◌else◌}
use mind.Prelude.Text.{take_text}

-- `s[n:]`
unfoldable pub drop_text : ℕ → String → String
drop_text zero s = s
drop_text (suc n) String.[] = String.[]
drop_text (suc n) (String.◌∷◌ c s) = drop_text n s

-- `s.startswith(p)`
unfoldable pub starts_with : String → String → Bool
unfolding take_text
starts_with p s = str_eq (take_text (count p) s) p

-- `p in s`
unfoldable pub occurs_in : String → String → Bool
unfolding starts_with
occurs_in p String.[] = starts_with p ""
occurs_in p (String.◌∷◌ c s) = if starts_with p (String.◌∷◌ c s) then true else occurs_in p s

count_from : String → String → ℕ → ℕ
unfolding starts_with
count_from p String.[] skip = 0
count_from p (String.◌∷◌ c s) (suc skip) = count_from p s skip
count_from p (String.◌∷◌ c s) zero = elim (starts_with p (String.◌∷◌ c s)) [
  | true ↦ suc (count_from p s (count p - 1))
  | false ↦ count_from p s 0
]

-- `s.count(p)` for a `p` that is not empty: the occurrences that do not overlap.
unfoldable pub count_of : String → String → ℕ
unfolding count_from
count_of p s = count_from p s 0

-- The texts before and behind the first `p` in `s`, as `s.partition(p)` gives them.
unfoldable pub partition : String → String → String × String
unfolding starts_with drop_text
partition p String.[] = ("", "")
partition p (String.◌∷◌ c s) =
    let (left, right) = partition p s in
    if starts_with p (String.◌∷◌ c s)
    then ("", drop_text (count p) (String.◌∷◌ c s))
    else (String.◌∷◌ c left, right)

-- How many characters at the start are in the class.
unfoldable pub run_length : (Char → Bool) → String → ℕ
run_length p String.[] = 0
run_length p (String.◌∷◌ c s) = if p c then suc (run_length p s) else 0
