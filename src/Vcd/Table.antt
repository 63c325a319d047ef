-- ===== src/Vcd/Table.antt =====
-- The table of a counterexample: decode_counterexample of src/mind3/core/vcd_evidence.py.
use text.Mathlib.Text.{◌==◌ as str_eq}
use Prim.Native.String.{◌++◌ as append, count}
use mind.Prelude.{
  ℕ, String, Bool, false, not, ◌||◌, List, [], ◌∷◌, ◌++◌, map, Option, none, some, if◌then◌else◌,
  leb, ◌==◌,
}
use mind.Prelude.Keep.{is_empty}
use mind.Prelude.Text.{decimal, take_text}
use mind.Formal.Token.{Unicode}
use mind.Formal.Split.{join_parts}
use mind.Vcd.Lines.{put, find}
use mind.Vcd.Reader.{Signal, Values}
use mind.Vcd.Grouping.{Step, Waveform, parse_vcd}
use mind.Vcd.Decode.{wanted_of, choose, chosen_names, fail_of, window, is_cut}

-- The arguments but the text; a limit of `max_cycles` and a step are no negative numbers.
pub record Request : Type 0 where
  pub port_names : List String
  pub extra_names : List String
  pub t_fail : Option ℕ
  pub clock_name : String
  pub reset_name : String
  pub reset_active_low : Bool
  pub max_cycles : ℕ
  pub failing_assertion : Option String
  pub source : String

-- What a row has under a name: the step's number, or the value of a signal.
pub data Cell : Type 0 where
  number : Option ℕ → Cell
  raw : Option String → Cell

abbrev pub Row : Type 0
Row = List (String × Cell)

pub record Decoded : Type 0 where
  pub markdown : String
  pub rows : List Row
  pub signals : List String
  pub t_fail : Option ℕ
  pub truncated : Bool

-- `values.get(chosen[name])`; every name of the table has an id.
unfoldable pub value_of : Option String → Values → Option String
unfolding find
value_of none values = none
value_of (some id) values = find id values

unfoldable pub raw_of : Values → Values → String → Option String
unfolding value_of
raw_of chosen values name = value_of (find name chosen) values

unfoldable pub put_cells : List String → Values → Values → Row → Row
unfolding put
put_cells [] chosen values row = row
put_cells (name ∷ names) chosen values row =
    put_cells names chosen values (put name (raw (raw_of chosen values name)) row)

unfoldable pub row_of : List String → Values → Step → Row
row_of names chosen snap = put_cells names chosen snap.values (("step", number snap.step) ∷ [])

-- `fmt`
fmt : String → Bool → String → Option String → String
fmt reset low name none = "?"
fmt reset low name (some value) =
    if str_eq name reset
    then append value (
        append " ("
          (append (if str_eq value (if low then "0" else "1") then "asserted" else "released") ")"))
    else value

or_none : Option ℕ → String
or_none none = "None"
or_none (some n) = decimal n

is_step : ℕ → Option ℕ → Bool
is_step t none = false
is_step t (some n) = n == t

-- `failing_assertion`, if it is not empty, between two texts.
assertion : String → String → Option String → String
assertion before behind none = ""
assertion before behind (some text) =
    if str_eq text "" then "" else append before (append text behind)

marker : Option String → ℕ → Option ℕ → String
unfolding is_step assertion
marker failing t step =
    if is_step t step then append " <-- t_fail" (assertion ": " "" failing) else ""

table_row : List String → String
table_row cells = append "| " (append (join_parts " | " cells) " |")

-- The line of a step.
line_of : Request → ℕ → List String → Values → Step → String
unfolding table_row marker fmt or_none
line_of q t names chosen snap =
    let cells =
      map (λ name. fmt q.reset_name q.reset_active_low name (raw_of chosen snap.values name))
        names in
    append (table_row (or_none snap.step ∷ cells)) (marker q.failing_assertion t snap.step)

violated : Option String → List String
unfolding assertion
violated failing =
    let text = assertion "Violated assertion: " "." failing in
    if str_eq text "" then [] else text ∷ []

lines_of : Request → ℕ → List String → Values → List Step → List String
unfolding line_of violated table_row
lines_of q t names chosen snaps =
    append "Decoded counterexample from "
        (append q.source " (solver steps, signal values quoted from VCD).")
      ∷ violated q.failing_assertion
    ++ table_row ("step" ∷ names)
      ∷ table_row (map (λ name. "---") ("step" ∷ names))
      ∷ map (line_of q t names chosen) snaps

abbrev pub vcd_max_chars : ℕ
vcd_max_chars = 300000

abbrev decoded_max_chars : ℕ
decoded_max_chars = 5900

unfoldable pub undecodable : Request → Decoded
undecodable q = record {
  markdown = append "VCD undecodable: no signals or steps parsed from " (append q.source ".");
  rows = [];
  signals = [];
  t_fail = q.t_fail;
  truncated = false;
}

unfoldable pub decode_steps : Request → List (String × Signal) → List Step → Decoded
unfolding lines_of
decode_steps q signals steps =
    let wanted = wanted_of q.port_names q.extra_names q.clock_name q.reset_name in
    let chosen = choose signals wanted [] in
    let names = chosen_names wanted chosen in
    let t = fail_of q.t_fail steps in
    let snaps = window q.max_cycles t steps in
    let text = join_parts "\n" (lines_of q t names chosen snaps) in
    let long = not (leb (count text) decoded_max_chars) in
    record {
      markdown = if long then append (take_text decoded_max_chars text) "\n…(truncated)" else text;
      rows = map (row_of names chosen) snaps;
      signals = names;
      t_fail = some t;
      truncated = is_cut q.max_cycles t steps || long;
    }

unfoldable pub decode_waveform : Request → Waveform → Decoded
unfolding decode_steps undecodable
decode_waveform q w =
    if is_empty w.signals || is_empty w.steps
    then undecodable q
    else decode_steps q w.signals w.steps

-- `decode_counterexample`
unfoldable pub decode_counterexample : Unicode → String → Request → Decoded
unfolding decode_waveform
decode_counterexample u text q = decode_waveform q (parse_vcd u (take_text vcd_max_chars text))
