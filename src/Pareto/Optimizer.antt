-- ===== src/Pareto/Optimizer.antt =====
-- PPAPoint and PPAOptimizer of src/mind3/core/driver.py.
use mind.Prelude.{
  ℕ, Bool, true, false, not, ◌&&◌, ◌||◌, List, [], ◌∷◌, ◌++◌, Option, none, some, keep,
  if◌then◌else◌, ◌==◌,
}
use mind.Pareto.Numbers.{Number}

pub record PpaPoint (F : Type 0) : Type 0 where
  pub turn : ℕ
  pub frequency_mhz : F
  pub setup_wns_ps : F
  pub power_mw : Option F
  pub area_um2 : Option F
  pub passes_timing : Bool
  pub passes_physical : Bool

-- `self.points.append(point)`
unfoldable pub record_point : {F : Type 0} → PpaPoint F → List (PpaPoint F) → List (PpaPoint F)
record_point p points = points ++ p ∷ []

same_flag : Bool → Bool → Bool
same_flag true b = b
same_flag false b = not b

module _ {F : Type 0} (n : Number F) where
  -- A missing figure counts as infinite.
  abbrev pub figure : Option F → F
  figure none = n.inf
  figure (some x) = x

  unfoldable pub same_figure : Option F → Option F → Bool
  same_figure none none = true
  same_figure (some x) (some y) = n.eqb x y
  same_figure _ _ = false

  -- `p1 == p2` of the dataclass: every field.
  unfoldable pub same_point : PpaPoint F → PpaPoint F → Bool
  unfolding same_figure same_flag
  same_point p q =
      p.turn == q.turn
      && n.eqb p.frequency_mhz q.frequency_mhz
      && n.eqb p.setup_wns_ps q.setup_wns_ps
      && same_figure p.power_mw q.power_mw
      && same_figure p.area_um2 q.area_um2
      && same_flag p.passes_timing q.passes_timing
      && same_flag p.passes_physical q.passes_physical

  -- The second point is as good as the first in every figure, and better in one.
  unfoldable pub dominates : PpaPoint F → PpaPoint F → Bool
  dominates p2 p1 =
      let power1 = figure p1.power_mw in
      let power2 = figure p2.power_mw in
      let area1 = figure p1.area_um2 in
      let area2 = figure p2.area_um2 in
      n.leb p1.frequency_mhz p2.frequency_mhz
      && n.leb power2 power1
      && n.leb area2 area1
      && (n.ltb p1.frequency_mhz p2.frequency_mhz || n.ltb power2 power1 || n.ltb area2 area1)

  -- The inner loop over the points that are left.
  unfoldable pub is_dominated : PpaPoint F → List (PpaPoint F) → Bool
  is_dominated p1 [] = false
  is_dominated p1 (p2 ∷ points) =
      let rest = is_dominated p1 points in
      if same_point p1 p2 then rest else if dominates p2 p1 then true else rest

  abbrev pub is_valid : PpaPoint F → Bool
  is_valid p = p.passes_timing && p.passes_physical

  -- `get_pareto_frontier`
  unfoldable pub get_pareto_frontier : List (PpaPoint F) → List (PpaPoint F)
  get_pareto_frontier points =
      let valid = keep is_valid points in keep (λ p1. not (is_dominated p1 valid)) valid
