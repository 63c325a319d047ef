-- ===== src/Vcd/Evidence.antt =====
-- Every cell of a decoded table is evidence (src/mind3/core/vcd_evidence.py, decode_counterexample).
use text.Mathlib.TextEquality.{eq_iff}
use mathlib.Core.Logic.{inl, inr}
use mathlib.Core.List.{Memᴰ}
use mind.Prelude.{
  ℕ, zero, suc, ◌-◌, String, Bool, true, false, ◌||◌, List, [], ◌∷◌, Option, none, some, All,
  All-map, keep, length, leb, if◌then◌else◌, Bool-cases, ◌≡◌, refl,
}
use mind.Prelude.Keep.{All-mem, All-self, All-keep, All-map_iff, is_empty}
use mind.Prelude.Text.{take_text}
use mind.Formal.Token.{Unicode}
use mind.Formal.Strip.{strip}
use mind.Vcd.Lines.{find, split_lines}
use mind.Vcd.Dicts.{All-put, find-All}
use mind.Vcd.Reader.{Signal, Values, sample_of}
use mind.Vcd.Grouping.{Step, parse_vcd}
use mind.Vcd.Quoted.{parse_vcd-quoted}
use mind.Vcd.Decode.{
  choose_first, candidates, choose, drop, take_last, window, up_to, wanted_of, chosen_names,
  fail_of,
}
use mind.Vcd.Table.{
  Request, Cell, number, raw, Row, value_of, raw_of, put_cells, row_of, decode_steps,
  decode_waveform, decode_counterexample, vcd_max_chars, undecodable,
}

-- The window has steps of the waveform only.
module _ (P : Step → Type 0) where
  All-drop : (n : ℕ) (xs : List Step) → All P xs → All P (drop n xs)
  unfolding drop
  All-drop zero xs h = h
  All-drop (suc n) [] h = h
  All-drop (suc n) (x ∷ xs) h = All-drop n xs h.1

  All-take_last : (n : ℕ) (xs : List Step) → All P xs → All P (take_last n xs)
  unfolding take_last
  All-take_last zero xs h = h
  All-take_last (suc n) xs h = All-drop (length xs - suc n) xs h

  choose-All : (b : Bool) (xs ys : List Step) → All P xs → All P ys → All P (if b then xs else ys)
  choose-All true xs ys h g = h
  choose-All false xs ys h g = g

  All-window : (cycles t : ℕ) (steps : List Step) → All P steps → All P (window cycles t steps)
  unfolding window
  All-window cycles t steps h =
      let known = keep (λ s. up_to t s.step) steps in
      let kept : All P known = (All-keep _ P steps).1 (All-map (λ x p _. p) steps h) in
      choose-All _ _ _ (All-take_last cycles steps h)
        (choose-All (leb (length known) cycles) _ _ kept (All-take_last cycles known kept))

-- `name` is the name of the signal with the id `id`.
abbrev Names : List (String × Signal) → String × String → Type 0
Names signals x = (meta : Signal) × Memᴰ (x.1, meta) signals × (meta.name ≡ x.0)

choose_first-Names :
    (signals hits cs : List (String × Signal)) (want : String) (chosen : Values)
    → All (λ x. Names signals (want, x.0)) hits
    → All (λ x. Names signals (want, x.0)) cs
    → All (Names signals) chosen
    → All (Names signals) (choose_first hits cs want chosen)
unfolding choose_first
choose_first-Names signals [] [] want chosen hh hc h = h
choose_first-Names signals [] (c ∷ cs) want chosen hh hc h =
    All-put (Names signals) want c.0 chosen hc.0 h
choose_first-Names signals (hit ∷ hits) cs want chosen hh hc h =
    All-put (Names signals) want hit.0 chosen hh.0 h

candidates-Names :
    (signals : List (String × Signal)) (want : String)
    → All (λ x. Names signals (want, x.0)) (candidates signals want)
unfolding candidates
candidates-Names signals want =
    (All-keep _ (λ x. Names signals (want, x.0)) signals).1
      (All-map (λ x m e. (x.1, m, (eq_iff x.1.name want).0 e)) signals (All-self signals))

choose-Names :
    (signals : List (String × Signal)) (wanted : List String) (chosen : Values)
    → All (Names signals) chosen
    → All (Names signals) (choose signals wanted chosen)
unfolding choose
choose-Names signals [] chosen h = h
choose-Names signals (want ∷ wanted) chosen h =
    let hc = candidates-Names signals want in
    choose-Names signals wanted _ (
      choose_first-Names signals _ (candidates signals want) want chosen
        ((All-keep _ (λ x. Names signals (want, x.0)) _).1 (All-map (λ x p _. p) _ hc)) hc h)

-- `V` is what holds of the values of the steps.
module _ (signals : List (String × Signal)) (V : String × String → Type 0) where
  abbrev Shown : String → String → Type 0
  Shown name v = (id : String) × Names signals (name, id) × V (id, v)

  abbrev CellIs : String × Cell → Type 0
  CellIs (name, number n) = Unit
  CellIs (name, raw none) = Unit
  CellIs (name, raw (some v)) = Shown name v

  found :
      (name : String) (r : Option String)
      → ((v : String) → r ≡ some v → Shown name v)
      → CellIs (name, raw r)
  found name none h = tt
  found name (some v) h = h v refl

  value_of-CellIs :
      (name : String) (id : Option String) (values : Values)
      → ((k : String) → id ≡ some k → Names signals (name, k))
      → All V values
      → CellIs (name, raw (value_of id values))
  unfolding value_of
  value_of-CellIs name none values n h = tt
  value_of-CellIs name (some k) values n h =
      found name (find k values) (λ v e. (k, n k refl, find-All V k v values h e))

  put_cells-CellIs :
      (names : List String) (chosen values : Values) (row : Row)
      → All (Names signals) chosen
      → All V values
      → All CellIs row
      → All CellIs (put_cells names chosen values row)
  unfolding put_cells raw_of
  put_cells-CellIs [] chosen values row n h r = r
  put_cells-CellIs (name ∷ names) chosen values row n h r =
      put_cells-CellIs names chosen values _ n h (
        All-put CellIs name _ row
          (value_of-CellIs name (find name chosen) values
            (λ k e. find-All (Names signals) name k chosen n e) h)
          r)

  decode_steps-CellIs :
      (q : Request) (steps : List Step)
      → All (λ s. All V s.values) steps
      → All (All CellIs) (decode_steps q signals steps).rows
  unfolding decode_steps row_of
  decode_steps-CellIs q steps h =
      let wanted = wanted_of q.port_names q.extra_names q.clock_name q.reset_name in
      let chosen = choose signals wanted [] in
      let snaps = window q.max_cycles (fail_of q.t_fail steps) steps in
      (All-map_iff (All CellIs) (row_of (chosen_names wanted chosen) chosen) snaps).1 (
        All-map
          (λ s k.
            put_cells-CellIs (chosen_names wanted chosen) chosen s.values _
              (choose-Names signals wanted [] tt) k (tt, tt))
          snaps (All-window (λ s. All V s.values) q.max_cycles (fail_of q.t_fail steps) steps h))

  decode_waveform-CellIs :
      (q : Request) (steps : List Step)
      → All (λ s. All V s.values) steps
      → All (All CellIs) (decode_waveform q (record { signals = signals; steps = steps })).rows
  unfolding decode_waveform undecodable
  decode_waveform-CellIs q steps h = elim (Bool-cases (is_empty signals || is_empty steps)) [
    | inl g ↦ rw g tt
    | inr g ↦ rw g (decode_steps-CellIs q steps h)
  ]

-- Every value in a row of a decoded table, under whatever name, is quoted: a signal of the waveform
-- has that name, and some line of the text that is read, stripped, is a change of it to that value.
pub decode_counterexample-quoted :
    (u : Unicode) (text : String) (q : Request) (row : Row) (name v : String)
    → Memᴰ row (decode_counterexample u text q).rows
    → Memᴰ (name, raw (some v)) row
    → (id : String) × (line : String) × (meta : Signal) × Memᴰ
        (id, meta)
        (parse_vcd u (take_text vcd_max_chars text)).signals
      × (meta.name ≡ name)
      × Memᴰ line (split_lines (take_text vcd_max_chars text))
      × (sample_of u (strip u line) ≡ some (id, v))
unfolding decode_counterexample
decode_counterexample-quoted u text q row name v mr mc =
    let read = take_text vcd_max_chars text in
    let w = parse_vcd u read in
    let V : String × String → Type 0 =
      λ x. (line : String) × Memᴰ line (split_lines read) × (sample_of u (strip u line) ≡ some x) in
    let quoted : All (λ s. All V s.values) w.steps =
      All-map (λ s m. All-map (λ x k. parse_vcd-quoted u read s x m k) s.values (All-self s.values))
        w.steps (All-self w.steps) in
    let (id, named, quoting) =
      All-mem (CellIs w.signals V) (name, raw (some v)) row
        (All-mem (All (CellIs w.signals V)) row _
          (decode_waveform-CellIs w.signals V q w.steps quoted) mr)
        mc in
    let (meta, m, e) = named in let (line, ml, es) = quoting in (id, line, meta, m, e, ml, es)
