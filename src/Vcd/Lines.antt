-- ===== src/Vcd/Lines.antt =====
-- Python's text operations that src/mind3/core/vcd_evidence.py uses: splitlines, split, int, and dicts.
use text.Mathlib.Text.{◌==◌ as str_eq}
use Prim.Native.Char.{Char, code}
use Prim.Native.String.{◌++◌ as append}
use mind.Prelude.{
  ℕ, zero, suc, ◌+◌, ◌*◌, ◌-◌, String, Bool, true, false, ◌&&◌, ◌||◌, List, [], ◌∷◌, Option, none,
  some, if◌then◌else◌, leb, ◌==◌,
}
use mind.Formal.Token.{Unicode, is_space}
use mind.Formal.Strip.{strip}

-- `negsuc n` is -(n + 1).
pub data ℤ : Type 0 where
  pos : ℕ → ℤ
  negsuc : ℕ → ℤ

-- The characters that end a line.
is_line_end : ℕ → Bool
is_line_end c = leb 10 c && leb c 13 || leb 28 c && leb c 30 || c == 133 || c == 8232 || c == 8233

-- `cur` is the line that is read; `cr` says that a carriage return stands in front.
lines_from : String → Bool → String → List String
unfolding is_line_end
lines_from cur cr String.[] = if str_eq cur "" then [] else cur ∷ []
lines_from cur cr (String.◌∷◌ c s) =
    let skipped = lines_from "" false s in
    let next = cur ∷ lines_from "" (code c == 13) s in
    let longer = lines_from (append cur (String.◌∷◌ c "")) false s in
    if cr && code c == 10 then skipped else if is_line_end (code c) then next else longer

-- `s.splitlines()`
unfoldable pub split_lines : String → List String
unfolding lines_from
split_lines s = lines_from "" false s

add_part : String → List String → List String
add_part cur parts = if str_eq cur "" then parts else cur ∷ parts

parts_from : Unicode → String → String → List String
unfolding add_part
parts_from u cur String.[] = add_part cur []
parts_from u cur (String.◌∷◌ c s) =
    let next = parts_from u "" s in
    let longer = parts_from u (append cur (String.◌∷◌ c "")) s in
    if is_space u c then add_part cur next else longer

-- `s.split()`
unfoldable pub split_words : Unicode → String → List String
unfolding parts_from
split_words u s = parts_from u "" s

is_digit : Char → Bool
is_digit c = leb 48 (code c) && leb (code c) 57

-- Digits with single underscores between them; `digit` says that a digit stands in front.
digits_from : ℕ → Bool → String → Option ℕ
unfolding is_digit
digits_from n digit String.[] = if digit then some n else none
digits_from n digit (String.◌∷◌ c s) =
    let more = digits_from (n * 10 + (code c - 48)) true s in
    let gap = digits_from n false s in
    if is_digit c then more else if digit && code c == code "_" then gap else none

negate : Option ℕ → Option ℤ
negate none = none
negate (some zero) = some (pos 0)
negate (some (suc n)) = some (negsuc n)

to_pos : Option ℕ → Option ℤ
to_pos none = none
to_pos (some n) = some (pos n)

signed : String → Option ℤ
unfolding digits_from negate to_pos
signed String.[] = none
signed (String.◌∷◌ c s) =
    if code c == code "-"
    then negate (digits_from 0 false s)
    else if code c == code "+"
    then to_pos (digits_from 0 false s)
    else to_pos (digits_from 0 false (String.◌∷◌ c s))

-- `int(s)` of ASCII digits; none is the ValueError.
unfoldable pub int_of : Unicode → String → Option ℤ
unfolding signed
int_of u s = signed (strip u s)

bits_from : ℕ → String → Option ℕ
bits_from n String.[] = some n
bits_from n (String.◌∷◌ c s) =
    let low = bits_from (n * 2) s in
    let high = bits_from (n * 2 + 1) s in
    if code c == code "0" then low else if code c == code "1" then high else none

-- `int(s, 2)` where every character is 0 or 1, and none otherwise.
unfoldable pub binary_of : String → Option ℕ
unfolding bits_from
binary_of String.[] = none
binary_of (String.◌∷◌ c s) = bits_from 0 (String.◌∷◌ c s)

-- A dict from texts, in the order of its keys.
unfoldable pub put {ℓ} : {A : Type ℓ} → String → A → List (String × A) → List (String × A)
put k v [] = (k, v) ∷ []
put k v ((j, w) ∷ d) = let rest = put k v d in if str_eq j k then (j, v) ∷ d else (j, w) ∷ rest

unfoldable pub find {ℓ} : {A : Type ℓ} → String → List (String × A) → Option A
find k [] = none
find k ((j, v) ∷ d) = if str_eq j k then some v else find k d

-- `d.update(e)`
unfoldable pub update {ℓ} : {A : Type ℓ} → List (String × A) → List (String × A) → List (String × A)
unfolding put
update d [] = d
update d ((k, v) ∷ e) = update (put k v d) e
