-- ===== src/Vcd/Reader.antt =====
-- The lines of a waveform: the first loop of parse_vcd in src/mind3/core/vcd_evidence.py.
use text.Mathlib.Text.{◌==◌ as str_eq}
use Prim.Native.String.{◌++◌ as append}
use mind.Prelude.{String, Bool, true, false, List, [], ◌∷◌, ◌++◌, Option, none, some, if◌then◌else◌}
use mind.Prelude.Keep.{is_empty}
use mind.Prelude.Names.{has}
use mind.Formal.Token.{Unicode}
use mind.Formal.Strip.{strip}
use mind.Formal.Scan.{starts_with, drop_text}
use mind.Vcd.Lines.{ℤ, pos, split_words, int_of, put}

pub record Signal : Type 0 where
  pub width : ℤ
  pub scope : String
  pub name : String

-- The values of the signals, by their id.
abbrev pub Values : Type 0
Values = List (String × String)

pub record Snapshot : Type 0 where
  pub time : ℤ
  pub values : Values

-- The locals of the loop.
pub record State : Type 0 where
  pub signals : List (String × Signal)
  pub raw_steps : List Snapshot
  pub scope : List String
  pub current : Values
  pub current_time : ℤ
  pub in_definitions : Bool

-- `flush`
unfoldable pub flush : State → State
flush s = if is_empty s.current then s else record s {
  raw_steps = s.raw_steps ++ (record { time = s.current_time; values = s.current }) ∷ [];
  current = [];
}

or_one : Option ℤ → ℤ
or_one none = pos 1
or_one (some w) = w

join_dots : List String → String
join_dots [] = ""
join_dots (x ∷ []) = x
join_dots (x ∷ y ∷ xs) = append x (append "." (join_dots (y ∷ xs)))

unfoldable pub drop_last : List String → List String
drop_last [] = []
drop_last (x ∷ []) = []
drop_last (x ∷ y ∷ xs) = x ∷ drop_last (y ∷ xs)

-- `$scope`, by the words of the line.
unfoldable pub enter_scope : List String → State → State
enter_scope (a ∷ b ∷ name ∷ rest) s = record s {
  scope = s.scope ++ name ∷ [];
  in_definitions = true;
}
enter_scope _ s = record s { in_definitions = true }

-- `$var`
unfoldable pub define_signal : Unicode → List String → State → State
unfolding or_one join_dots
define_signal u (a ∷ b ∷ width ∷ id ∷ name ∷ rest) s = record s {
  signals =
      put id (record { width = or_one (int_of u width); scope = join_dots s.scope; name = name })
        s.signals;
}
define_signal u _ s = s

two_words : List String → Option (String × String)
two_words (value ∷ id ∷ []) = some (id, value)
two_words _ = none

scalar : String → Option (String × String)
scalar String.[] = none
scalar (String.◌∷◌ c String.[]) = none
scalar (String.◌∷◌ c (String.◌∷◌ d s)) =
    if has (String.◌∷◌ c "") ("0" ∷ "1" ∷ "x" ∷ "X" ∷ "z" ∷ "Z" ∷ "?" ∷ [])
    then some (String.◌∷◌ d s, String.◌∷◌ c "")
    else none

-- The id and the value that a line quotes, if it is a value change.
unfoldable pub sample_of : Unicode → String → Option (String × String)
unfolding two_words scalar
sample_of u line =
    if starts_with "b" line then two_words (split_words u (drop_text 1 line)) else scalar line

unfoldable pub set_time : Option ℤ → State → State
set_time none s = s
set_time (some t) s = record s { current_time = t }

unfoldable pub record_sample : Option (String × String) → State → State
record_sample none s = s
record_sample (some (id, value)) s = record s { current = put id value s.current }

-- A line that is stripped.
unfoldable pub read_stripped : Unicode → String → State → State
unfolding enter_scope define_signal drop_last set_time record_sample sample_of flush
read_stripped u line s =
    if str_eq line ""
    then s
    else if starts_with "$scope" line
    then enter_scope (split_words u line) s
    else if starts_with "$upscope" line
    then record s { scope = drop_last s.scope }
    else if starts_with "$var" line
    then define_signal u (split_words u line) s
    else if starts_with "$enddefinitions" line
    then record s { in_definitions = false }
    else if s.in_definitions
    then s
    else if starts_with "#" line
    then set_time (int_of u (drop_text 1 line)) (flush s)
    else record_sample (sample_of u line) s

unfoldable pub read_lines : Unicode → List String → State → State
unfolding read_stripped
read_lines u [] s = s
read_lines u (line ∷ lines) s = read_lines u lines (read_stripped u (strip u line) s)
