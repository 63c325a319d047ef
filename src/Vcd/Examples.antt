-- ===== src/Vcd/Examples.antt =====
-- The reader of src/mind3/core/vcd_evidence.py at a waveform with two steps.
use mathlib.Core.List.{Memᴰ}
use mathlib.Core.List.Memᴰ.{head, tail}
use mind.Prelude.{String, true, false, [], ◌∷◌, none, some, ◌≡◌, refl, sym, ap, ◌∙◌, subst}
use mind.Formal.Token.{Unicode, is_space}
use mind.Formal.Strip.{strip, strip_left, strip_right}
use mind.Formal.Scan.{starts_with, occurs_in, drop_text}
use mind.Vcd.Lines.{pos, int_of, split_words, put, find, binary_of, update, split_lines}
use mind.Vcd.Reader.{Signal, flush, read_lines, sample_of}
use mind.Vcd.Grouping.{Step, Waveform, parse_vcd}
use mind.Vcd.Bounds.{decode_counterexample-bound}
use mind.Prelude.{length, ◌≤◌, arith}
use mind.Prelude.Names.{add, has}
use mind.Formal.Split.{join_parts}
use mind.Vcd.Decode.{
  window, fail_of, wanted_of, choose, choose_first, candidates, chosen_names, is_cut, take_last,
  drop, up_to,
}
use mind.Vcd.Table.{
  decode_steps, row_of, put_cells, raw_of, value_of, Request, number, raw, Row, vcd_max_chars,
  decode_waveform, decode_counterexample,
}
use mind.Vcd.Evidence.{decode_counterexample-quoted}
use mind.Prelude.Text.{take_text, decimal}

-- Texts in ASCII only.
abbrev ascii : Unicode
ascii = record { word = λ n. false; digit = λ n. false; space = λ n. false }

abbrev trace : String
trace =
    "$var reg 2 ! smt_step $end\n$var reg 4 # q $end\n$enddefinitions $end\n#0\nb00 !\nb1010 #\n#10\nb01 !\nb1011 #\n"

abbrev second : Step
second = record { step = some 1; time = pos 10; values = ("!", "01") ∷ ("#", "1011") ∷ [] }

abbrev waveform : Waveform
waveform = record {
  signals =
      ("!", record { width = pos 2; scope = ""; name = "smt_step" })
      ∷ ("#", record { width = pos 4; scope = ""; name = "q" })
      ∷ [];
  steps =
      (record { step = some 0; time = pos 10; values = ("!", "00") ∷ ("#", "1010") ∷ [] })
      ∷ second
      ∷ [];
}

parse_vcd-trace : parse_vcd ascii trace ≡ waveform
unfolding parse_vcd flush read_lines split_lines strip strip_right strip_left is_space starts_with
    int_of drop_text split_words put find binary_of update
parse_vcd-trace = refl

abbrev request : Request
request = record {
  port_names = "q" ∷ [];
  extra_names = [];
  t_fail = none;
  clock_name = "clk";
  reset_name = "rst_n";
  reset_active_low = true;
  max_cycles = 10;
  failing_assertion = some "a_q";
  source = "trace.vcd";
}

abbrev second_row : Row
second_row = ("step", number (some 1)) ∷ ("q", raw (some "1011")) ∷ []

read_trace : take_text vcd_max_chars trace ≡ trace
unfolding take_text
read_trace = refl

decoded : decode_counterexample ascii trace request ≡ decode_waveform request waveform
unfolding decode_counterexample
decoded =
    ap (λ t. decode_waveform request (parse_vcd ascii t)) read_trace
    ∙ ap (decode_waveform request) parse_vcd-trace

decoded_rows :
    (decode_waveform request waveform).rows
    ≡ (("step", number (some 0)) ∷ ("q", raw (some "1010")) ∷ []) ∷ second_row ∷ []
unfolding decode_waveform window fail_of wanted_of choose choose_first candidates chosen_names
    is_cut take_last drop up_to decode_steps row_of put_cells raw_of value_of put find occurs_in add
    has join_parts decimal take_text
decoded_rows = refl

decoded_markdown :
    (decode_waveform request waveform).markdown
    ≡ "Decoded counterexample from trace.vcd (solver steps, signal values quoted from VCD).\nViolated assertion: a_q.\n| step | q |\n| --- | --- |\n| 0 | 1010 |\n| 1 | 1011 | <-- t_fail: a_q"
unfolding decode_waveform window fail_of wanted_of choose choose_first candidates chosen_names
    is_cut take_last drop up_to decode_steps row_of put_cells raw_of value_of put find occurs_in add
    has join_parts decimal take_text
decoded_markdown = refl

second_row_in : Memᴰ second_row (decode_counterexample ascii trace request).rows
second_row_in =
    subst (Memᴰ second_row) (sym (ap (λ d. d.rows) decoded ∙ decoded_rows)) (tail (head refl))

decode_counterexample-quoted_example :
    (id : String) × (line : String) × (meta : Signal) × Memᴰ
      (id, meta)
      (parse_vcd ascii (take_text vcd_max_chars trace)).signals
    × (meta.name ≡ "q")
    × Memᴰ line (split_lines (take_text vcd_max_chars trace))
    × (sample_of ascii (strip ascii line) ≡ some (id, "1011"))
decode_counterexample-quoted_example =
    decode_counterexample-quoted ascii trace request second_row "q" "1011" second_row_in
      (tail (head refl))

decode_counterexample-bound_example : length (decode_counterexample ascii trace request).rows ≤ 10
decode_counterexample-bound_example = decode_counterexample-bound ascii trace request (omega arith)
