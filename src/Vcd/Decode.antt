-- ===== src/Vcd/Decode.antt =====
-- The signals and the steps of a counterexample, for decode_counterexample of src/mind3/core/vcd_evidence.py.
use text.Mathlib.Text.{◌==◌ as str_eq}
use Prim.Native.String.{◌++◌ as append}
use mind.Prelude.{
  ℕ, zero, suc, ◌-◌, String, Bool, true, false, not, List, [], ◌∷◌, ◌++◌, keep, length, Option,
  none, some, if◌then◌else◌, leb,
}
use mind.Prelude.Keep.{is_empty}
use mind.Prelude.Names.{add}
use mind.Formal.Scan.{occurs_in}
use mind.Vcd.Lines.{put, find}
use mind.Vcd.Reader.{Signal, Values}
use mind.Vcd.Grouping.{Step}

-- Names without those that stand in front already.
add_all : List String → List String → List String
unfolding add
add_all [] known = known
add_all (x ∷ xs) known = add_all xs (add x known)

unfoldable pub wanted_of : List String → List String → String → String → List String
unfolding add_all
wanted_of ports extra clock reset = add_all (ports ++ extra ++ clock ∷ reset ∷ []) []

is_dut : Signal → Bool
is_dut meta = occurs_in ".dut." (append "." (append meta.scope "."))

unfoldable pub choose_first :
    List (String × Signal) → List (String × Signal) → String → Values → Values
unfolding put
choose_first [] [] want chosen = chosen
choose_first [] (c ∷ cs) want chosen = put want c.0 chosen
choose_first (hit ∷ hits) cs want chosen = put want hit.0 chosen

unfoldable pub candidates : List (String × Signal) → String → List (String × Signal)
candidates signals want = keep (λ x. str_eq x.1.name want) signals

-- `_preferred_scope_ids`
unfoldable pub choose : List (String × Signal) → List String → Values → Values
unfolding choose_first is_dut
choose signals [] chosen = chosen
choose signals (want ∷ wanted) chosen =
    let cs = candidates signals want in
    choose signals wanted (choose_first (keep (λ x. is_dut x.1) cs) cs want chosen)

has_id : Option String → Bool
has_id none = false
has_id (some id) = true

-- The names that have an id.
unfoldable pub chosen_names : List String → Values → List String
unfolding has_id find
chosen_names wanted chosen = keep (λ name. has_id (find name chosen)) wanted

-- The last `n` items, and `xs[-0:]` is `xs`.
unfoldable pub drop : ℕ → List Step → List Step
drop zero xs = xs
drop (suc n) [] = []
drop (suc n) (x ∷ xs) = drop n xs

unfoldable pub take_last : ℕ → List Step → List Step
unfolding drop
take_last zero xs = xs
take_last (suc n) xs = drop (length xs - suc n) xs

max_step : ℕ → List Step → ℕ
max_step n [] = n
max_step n (s ∷ steps) =
    max_step (elim s.step [ none ↦ n | some k ↦ if leb n k then k else n ]) steps

numbers : List Step → List Step
numbers steps = keep (λ s. elim s.step [ none ↦ false | some k ↦ true ]) steps

-- The step that fails, where none is given.
last_step : List Step → ℕ
unfolding max_step numbers
last_step steps = if is_empty (numbers steps) then length steps - 1 else max_step 0 steps

unfoldable pub fail_of : Option ℕ → List Step → ℕ
unfolding last_step
fail_of (some t) steps = t
fail_of none steps = last_step steps

unfoldable pub up_to : ℕ → Option ℕ → Bool
up_to t none = false
up_to t (some k) = leb k t

unfoldable pub window : ℕ → ℕ → List Step → List Step
unfolding take_last up_to
window cycles t steps =
    let known = keep (λ s. up_to t s.step) steps in
    let cut = if leb (length known) cycles then known else take_last cycles known in
    if is_empty cut then take_last cycles steps else cut

unfoldable pub is_cut : ℕ → ℕ → List Step → Bool
unfolding up_to
is_cut cycles t steps = not (leb (length (keep (λ s. up_to t s.step) steps)) cycles)
