-- ===== src/Vcd/Bounds.antt =====
-- The length of a decoded table (src/mind3/core/vcd_evidence.py, decode_counterexample).
use mathlib.Core.Logic.{inl, inr}
use mind.Prelude.{
  ℕ, zero, suc, ◌-◌, ◌≤◌, String, ◌||◌, List, [], ◌∷◌, keep, length, map, leb, Bool-cases, ◌≡◌,
}
use mind.Prelude.Keep.{is_empty}
use mind.Formal.Token.{Unicode}
use mind.Vcd.Grouping.{Step, Waveform}
use mind.Vcd.Decode.{drop, take_last, up_to, window, fail_of}
use mind.Vcd.Table.{Request, decode_steps, decode_waveform, undecodable, decode_counterexample}
use native.Mathlib.Omega.{arith}

length-map : {A B : Type 0} (f : A → B) (xs : List A) → length (map f xs) ≡ length xs
length-map f [] = omega arith
length-map f (x ∷ xs) = omega (arith, length-map f xs)

length-drop : (n : ℕ) (xs : List Step) → length (drop n xs) ≡ length xs - n
unfolding drop
length-drop zero xs = omega arith
length-drop (suc n) [] = omega arith
length-drop (suc n) (x ∷ xs) = omega (arith, length-drop n xs)

length-take_last : (n : ℕ) (xs : List Step) → 1 ≤ n → length (take_last n xs) ≤ n
unfolding take_last
length-take_last zero xs h = omega (arith, h)
length-take_last (suc n) xs h = omega (arith, length-drop (length xs - suc n) xs)

length-window :
    (cycles t : ℕ) (steps : List Step) → 1 ≤ cycles → length (window cycles t steps) ≤ cycles
unfolding window
length-window cycles t steps h =
    let known = keep (λ s. up_to t s.step) steps in
    let all = length-take_last cycles steps h in
    let some_of = length-take_last cycles known h in
    elim (Bool-cases (leb (length known) cycles)) [
      | inl g ↦ rw g (elim (Bool-cases (is_empty known)) [
        | inl e ↦ rw e all
        | inr e ↦ rw e (ground (arith, g))
      ])
      | inr g ↦ rw g (elim (Bool-cases (is_empty (take_last cycles known))) [
        | inl e ↦ rw e all
        | inr e ↦ rw e some_of
      ])
    ]

decode_steps-bound :
    (q : Request) (w : Waveform)
    → 1 ≤ q.max_cycles
    → length (decode_steps q w.signals w.steps).rows ≤ q.max_cycles
unfolding decode_steps
decode_steps-bound q w h =
    let snaps = window q.max_cycles (fail_of q.t_fail w.steps) w.steps in
    omega
      (arith, length-map _ snaps, length-window q.max_cycles (fail_of q.t_fail w.steps) w.steps h)

decode_waveform-bound :
    (q : Request) (w : Waveform)
    → 1 ≤ q.max_cycles
    → length (decode_waveform q w).rows ≤ q.max_cycles
unfolding decode_waveform undecodable
decode_waveform-bound q w h = elim (Bool-cases (is_empty w.signals || is_empty w.steps)) [
  | inl g ↦ rw g (omega (arith, h))
  | inr g ↦ rw g (decode_steps-bound q w h)
]

-- A decoded table has no more rows than the limit of cycles, if that is not 0.
pub decode_counterexample-bound :
    (u : Unicode) (text : String) (q : Request)
    → 1 ≤ q.max_cycles
    → length (decode_counterexample u text q).rows ≤ q.max_cycles
unfolding decode_counterexample
decode_counterexample-bound u text q h = decode_waveform-bound q _ h
