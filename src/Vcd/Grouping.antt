-- ===== src/Vcd/Grouping.antt =====
-- The steps of a waveform: the grouping of parse_vcd in src/mind3/core/vcd_evidence.py.
use text.Mathlib.Text.{◌==◌ as str_eq}
use mind.Prelude.{
  ℕ, ◌+◌, String, Bool, true, false, not, ◌||◌, List, [], ◌∷◌, ◌++◌, keep, Option, none, some,
  if◌then◌else◌, ◌==◌,
}
use mind.Prelude.Keep.{is_empty}
use mind.Formal.Token.{Unicode}
use mind.Vcd.Lines.{ℤ, pos, split_lines, binary_of, find, update}
use mind.Vcd.Reader.{Signal, Values, Snapshot, State, flush, read_lines}

pub record Step : Type 0 where
  pub step : Option ℕ
  pub time : ℤ
  pub values : Values

pub record Waveform : Type 0 where
  pub signals : List (String × Signal)
  pub steps : List Step

-- The locals of the grouping loop.
pub record Group : Type 0 where
  pub current_step : Option ℕ
  pub acc : Values
  pub steps : List Step

unfoldable pub counter_of : Option String → Option ℕ
counter_of none = none
counter_of (some raw) = binary_of raw

unfoldable pub same_step : ℕ → Option ℕ → Bool
same_step n none = false
same_step n (some k) = n == k

abbrev pub is_some : Option ℕ → Bool
is_some none = false
is_some (some n) = true

-- The step so far is appended where it holds something or has a number.
unfoldable pub close_step : ℤ → Group → List Step
close_step t g =
    if not (is_empty g.acc) || is_some g.current_step
    then g.steps ++ (record { step = g.current_step; time = t; values = g.acc }) ∷ []
    else g.steps

-- Another number begins a step.
unfoldable pub begin_step : Option ℕ → ℤ → Group → Group
unfolding close_step same_step
begin_step none t g = g
begin_step (some n) t g =
    if same_step n g.current_step
    then g
    else record { current_step = some n; acc = []; steps = close_step t g }

unfoldable pub group_snapshots : String → List Snapshot → Group → Group
unfolding begin_step counter_of
group_snapshots sid [] g = g
group_snapshots sid (snap ∷ snaps) g =
    let h = begin_step (counter_of (find sid snap.values)) snap.time g in
    group_snapshots sid snaps (record h { acc = update h.acc snap.values })

unfoldable pub last_time : List Snapshot → ℤ
last_time [] = pos 0
last_time (s ∷ []) = s.time
last_time (s ∷ t ∷ ss) = last_time (t ∷ ss)

-- The steps by the solver's counter.
unfoldable pub counted_steps : String → List Snapshot → List Step
unfolding group_snapshots last_time
counted_steps sid snaps =
    let g = group_snapshots sid snaps (record { current_step = none; acc = []; steps = [] }) in
    keep (λ s. not (is_empty s.values))
      (g.steps ++ (record { step = g.current_step; time = last_time snaps; values = g.acc }) ∷ [])

-- One step for each snapshot, counted from `n`.
unfoldable pub numbered_steps : ℕ → List Snapshot → List Step
numbered_steps n [] = []
numbered_steps n (snap ∷ snaps) =
    (record { step = some n; time = snap.time; values = snap.values })
    ∷ numbered_steps (n + 1) snaps

-- The ids of the signals that are named smt_step.
unfoldable pub step_ids : List (String × Signal) → List String
step_ids [] = []
step_ids ((id, meta) ∷ signals) =
    if str_eq meta.name "smt_step" then id ∷ step_ids signals else step_ids signals

unfoldable pub steps_by : List String → List Snapshot → List Step
unfolding counted_steps numbered_steps
steps_by [] snaps = numbered_steps 0 snaps
steps_by (sid ∷ ids) snaps = counted_steps sid snaps

abbrev pub start : State
start = record {
  signals = [];
  raw_steps = [];
  scope = [];
  current = [];
  current_time = pos 0;
  in_definitions = true;
}

-- `parse_vcd`
unfoldable pub parse_vcd : Unicode → String → Waveform
unfolding steps_by step_ids
parse_vcd u text =
    let s = flush (read_lines u (split_lines text) start) in
    record { signals = s.signals; steps = steps_by (step_ids s.signals) s.raw_steps }
