-- ===== src/Pareto/Examples.antt =====
-- A small set of design points of src/mind3/core/driver.py's PPAOptimizer.
use mathlib.Core.List.{Memᴰ}
use mathlib.Core.List.Memᴰ.{head, tail}
use mind.Prelude.{
  ℕ, Bool, true, false, List, [], ◌∷◌, All, Option, none, some, ◌==◌, leb, ltb, ◌≡◌, ◌↔◌, ◌⊎◌, refl,
  arith,
}
use mind.Pareto.Numbers.{Number}
use mind.Pareto.Optimizer.{
  PpaPoint, same_point, same_figure, dominates, is_dominated, is_valid, get_pareto_frontier,
}
use mind.Pareto.Frontier.{get_pareto_frontier_iff, get_pareto_frontier-covers}

-- Figures that are natural numbers, with a bound in place of infinity.
abbrev whole : Number ℕ
whole = record {
  leb = leb;
  ltb = ltb;
  eqb = λ a b. a == b;
  inf = 1000000;
  leb_trans = λ a b c h k. ground arith;
  ltb_irrefl = λ a. ground arith;
  ltb-leb = λ a b c h k. ground arith;
  leb-ltb = λ a b c h k. ground arith;
  eqb-ltb = λ a b h. (ground arith, ground arith);
}

abbrev point : ℕ → Option ℕ → Bool → PpaPoint ℕ
point frequency power timing = record {
  turn = 0;
  frequency_mhz = frequency;
  setup_wns_ps = 0;
  power_mw = power;
  area_um2 = none;
  passes_timing = timing;
  passes_physical = true;
}

abbrev points : List (PpaPoint ℕ)
points =
    point 100 (some 9) true
    ∷ point 100 none true
    ∷ point 80 (some 5) true
    ∷ point 900 (some 1) false
    ∷ []

frontier : get_pareto_frontier whole points ≡ point 100 (some 9) true ∷ point 80 (some 5) true ∷ []
unfolding get_pareto_frontier is_dominated same_point same_figure dominates
frontier = refl

get_pareto_frontier_iff_example : Memᴰ (point 100 none true) (get_pareto_frontier whole points) ↔ (
    Memᴰ (point 100 none true) points
    × (is_valid whole (point 100 none true) ≡ true)
    × All (λ q. is_valid whole q ≡ true → dominates whole q (point 100 none true) ≡ false) points)
get_pareto_frontier_iff_example = get_pareto_frontier_iff whole points (point 100 none true)

get_pareto_frontier-covers_example :
    (m : PpaPoint ℕ) × Memᴰ m (get_pareto_frontier whole points)
    × ((m ≡ point 100 none true) ⊎ (dominates whole m (point 100 none true) ≡ true))
get_pareto_frontier-covers_example =
    get_pareto_frontier-covers whole points (point 100 none true) (tail (head refl)) refl
