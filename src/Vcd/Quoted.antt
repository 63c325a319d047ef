-- ===== src/Vcd/Quoted.antt =====
-- Every value of a step is quoted from a line of the waveform (src/mind3/core/vcd_evidence.py).
use text.Mathlib.Text.{◌==◌ as str_eq}
use mind.Prelude.{
  ℕ, ◌+◌, String, Bool, true, false, List, [], ◌∷◌, Option, none, some, All, All-map, if◌then◌else◌,
  Bool-cases, ◌≡◌, not, ◌||◌, refl, All-append,
}
use mathlib.Core.Logic.{inl, inr}
use mathlib.Core.List.{Memᴰ}
use mind.Prelude.Keep.{All-keep, is_empty, All-mem, All-self}
use mind.Formal.Token.{Unicode}
use mind.Formal.Strip.{strip}
use mind.Formal.Scan.{starts_with, drop_text}
use mind.Vcd.Lines.{ℤ, find, int_of, split_words, put, update, split_lines}
use mind.Vcd.Dicts.{All-put}
use mind.Vcd.Reader.{
  Values, Snapshot, State, flush, enter_scope, define_signal, sample_of, set_time, drop_last,
  record_sample, read_stripped, read_lines,
}
use mind.Vcd.Grouping.{
  Step, Group, close_step, begin_step, counter_of, is_some, same_step, group_snapshots,
  counted_steps, numbered_steps, steps_by, start, parse_vcd,
}

-- `P` is any predicate of an id with its value.
module _ (P : String × String → Type 0) where
  All-update : (d e : Values) → All P d → All P e → All P (update d e)
  unfolding update
  All-update d [] h g = h
  All-update d ((k, v) ∷ e) h g = All-update (put k v d) e (All-put P k v d g.0 h) g.1

  Kept : State → Type 0
  Kept s = All P s.current × All (λ x. All P x.values) s.raw_steps

  choose-Kept : (b : Bool) (s t : State) → Kept s → Kept t → Kept (if b then s else t)
  choose-Kept true s t h g = h
  choose-Kept false s t h g = g

  flush-Kept : (s : State) → Kept s → Kept (flush s)
  unfolding flush Kept
  flush-Kept s h =
      choose-Kept (is_empty s.current) s _ h
        (tt, All-append (λ x. All P x.values) s.raw_steps _ h.1 (h.0, tt))

  enter_scope-Kept : (words : List String) (s : State) → Kept s → Kept (enter_scope words s)
  unfolding enter_scope Kept
  enter_scope-Kept [] s h = h
  enter_scope-Kept (a ∷ []) s h = h
  enter_scope-Kept (a ∷ b ∷ []) s h = h
  enter_scope-Kept (a ∷ b ∷ c ∷ rest) s h = h

  define_signal-Kept :
      (u : Unicode) (words : List String) (s : State) → Kept s → Kept (define_signal u words s)
  unfolding define_signal Kept
  define_signal-Kept u [] s h = h
  define_signal-Kept u (a ∷ []) s h = h
  define_signal-Kept u (a ∷ b ∷ []) s h = h
  define_signal-Kept u (a ∷ b ∷ c ∷ []) s h = h
  define_signal-Kept u (a ∷ b ∷ c ∷ d ∷ []) s h = h
  define_signal-Kept u (a ∷ b ∷ c ∷ d ∷ e ∷ rest) s h = h

  record_sample-Kept :
      (sample : Option (String × String)) (s : State)
      → ((kv : String × String) → sample ≡ some kv → P kv)
      → Kept s
      → Kept (record_sample sample s)
  unfolding record_sample Kept
  record_sample-Kept none s p h = h
  record_sample-Kept (some (k, v)) s p h = (All-put P k v s.current (p (k, v) refl) h.0, h.1)

  upscope-Kept : (s : State) → Kept s → Kept (record s { scope = drop_last s.scope })
  unfolding Kept
  upscope-Kept s h = h

  enddefinitions-Kept : (s : State) → Kept s → Kept (record s { in_definitions = false })
  unfolding Kept
  enddefinitions-Kept s h = h

  set_time-Kept : (t : Option ℤ) (s : State) → Kept s → Kept (set_time t s)
  unfolding set_time Kept
  set_time-Kept none s h = h
  set_time-Kept (some t) s h = h

  read_stripped-Kept :
      (u : Unicode) (line : String) (s : State)
      → ((kv : String × String) → sample_of u line ≡ some kv → P kv)
      → Kept s
      → Kept (read_stripped u line s)
  unfolding read_stripped
  read_stripped-Kept u line s p h = choose-Kept (str_eq line "") _ _ h (
      choose-Kept (starts_with "$scope" line) _ _ (enter_scope-Kept (split_words u line) s h) (
        choose-Kept (starts_with "$upscope" line) _ _ (upscope-Kept s h) (
          choose-Kept (starts_with "$var" line) _ _ (define_signal-Kept u (split_words u line) s h)
            (choose-Kept (starts_with "$enddefinitions" line) _ _ (enddefinitions-Kept s h) (
              choose-Kept s.in_definitions _ _ h (
                choose-Kept (starts_with "#" line) _ _
                  (set_time-Kept (int_of u (drop_text 1 line)) (flush s) (flush-Kept s h))
                  (record_sample-Kept (sample_of u line) s p h)))))))

  read_lines-Kept :
      (u : Unicode) (lines : List String) (s : State)
      → All (λ line. (kv : String × String) → sample_of u (strip u line) ≡ some kv → P kv) lines
      → Kept s
      → Kept (read_lines u lines s)
  unfolding read_lines
  read_lines-Kept u [] s p h = h
  read_lines-Kept u (line ∷ lines) s p h =
      read_lines-Kept u lines (read_stripped u (strip u line) s) p.1
        (read_stripped-Kept u (strip u line) s p.0 h)

  Taken : List Step → Type 0
  Taken steps = All (λ x. All P x.values) steps

  close_step-Taken : (t : ℤ) (g : Group) → All P g.acc → Taken g.steps → Taken (close_step t g)
  unfolding close_step Taken
  close_step-Taken t g ha hs = elim (Bool-cases (not (is_empty g.acc) || is_some g.current_step)) [
    | inl e ↦ rw e (All-append (λ x. All P x.values) g.steps _ hs (ha, tt))
    | inr e ↦ rw e hs
  ]

  begin_step-Taken :
      (n : Option ℕ) (t : ℤ) (g : Group)
      → All P g.acc
      → Taken g.steps
      → All P (begin_step n t g).acc × Taken (begin_step n t g).steps
  unfolding begin_step
  begin_step-Taken none t g ha hs = (ha, hs)
  begin_step-Taken (some n) t g ha hs = elim (Bool-cases (same_step n g.current_step)) [
    | inl e ↦ rw e (ha, hs)
    | inr e ↦ rw e (tt, close_step-Taken t g ha hs)
  ]

  group_snapshots-Taken :
      (sid : String) (snaps : List Snapshot) (g : Group)
      → All (λ x. All P x.values) snaps
      → All P g.acc
      → Taken g.steps
      → All P (group_snapshots sid snaps g).acc × Taken (group_snapshots sid snaps g).steps
  unfolding group_snapshots
  group_snapshots-Taken sid [] g hv ha hs = (ha, hs)
  group_snapshots-Taken sid (snap ∷ snaps) g hv ha hs =
      let n = counter_of (find sid snap.values) in
      let (ha', hs') = begin_step-Taken n snap.time g ha hs in
      group_snapshots-Taken sid snaps _ hv.1
        (All-update (begin_step n snap.time g).acc snap.values ha' hv.0) hs'

  numbered_steps-Taken :
      (n : ℕ) (snaps : List Snapshot)
      → All (λ x. All P x.values) snaps
      → Taken (numbered_steps n snaps)
  unfolding numbered_steps Taken
  numbered_steps-Taken n [] h = h
  numbered_steps-Taken n (snap ∷ snaps) h = (h.0, numbered_steps-Taken (n + 1) snaps h.1)

  counted_steps-Taken :
      (sid : String) (snaps : List Snapshot)
      → All (λ x. All P x.values) snaps
      → Taken (counted_steps sid snaps)
  unfolding counted_steps Taken
  counted_steps-Taken sid snaps h =
      let g = group_snapshots-Taken sid snaps _ h tt tt in
      (All-keep _ (λ x. All P x.values) _).1
        (All-map (λ x q _. q) _ (All-append (λ x. All P x.values) _ _ g.1 (g.0, tt)))

  steps_by-Taken :
      (ids : List String) (snaps : List Snapshot)
      → All (λ x. All P x.values) snaps
      → Taken (steps_by ids snaps)
  unfolding steps_by
  steps_by-Taken [] snaps h = numbered_steps-Taken 0 snaps h
  steps_by-Taken (sid ∷ ids) snaps h = counted_steps-Taken sid snaps h

-- Every value of a step is quoted: some line of the text, stripped, is a value change with that id
-- and that value.
pub parse_vcd-quoted :
    (u : Unicode) (text : String) (s : Step) (kv : String × String)
    → Memᴰ s (parse_vcd u text).steps
    → Memᴰ kv s.values
    → (line : String) × Memᴰ line (split_lines text) × (sample_of u (strip u line) ≡ some kv)
unfolding parse_vcd Kept Taken
parse_vcd-quoted u text s kv ms mv =
    let Q : String × String → Type 0 =
      λ x. (line : String) × Memᴰ line (split_lines text) × (sample_of u (strip u line) ≡ some x) in
    let r =
      read_lines-Kept Q u (split_lines text) start
        (All-map (λ line m x e. (line, m, e)) _ (All-self (split_lines text))) (tt, tt) in
    All-mem Q kv s.values
      (All-mem (λ x. All Q x.values) s _ (steps_by-Taken Q _ _ (flush-Kept Q _ r).1) ms) mv
