-- ===== src/Pareto/Dominance.antt =====
-- Dominance between the points of src/mind3/core/driver.py's PPAOptimizer is a strict order.
use mind.Prelude.{
  true, false, List, [], ◌∷◌, Option, none, some, All, ◌≡◌, refl, inl, inr, Bool-cases, arith,
}
use mind.Pareto.Numbers.{Number}
use mind.Pareto.Optimizer.{PpaPoint, figure, same_figure, same_point, dominates, is_dominated}

module _ {F : Type 0} (n : Number F) where
  pub dominates_irrefl : (p : PpaPoint F) → dominates n p p ≡ false
  unfolding dominates
  dominates_irrefl p =
      let f = n.ltb_irrefl p.frequency_mhz in
      let w = n.ltb_irrefl (figure n p.power_mw) in
      let a = n.ltb_irrefl (figure n p.area_um2) in ground arith

  pub dominates_trans :
      (p q r : PpaPoint F)
      → dominates n p q ≡ true
      → dominates n q r ≡ true
      → dominates n p r ≡ true
  unfolding dominates
  dominates_trans p q r h k =
      let fp = p.frequency_mhz in
      let fq = q.frequency_mhz in
      let fr = r.frequency_mhz in
      let wp = figure n p.power_mw in
      let wq = figure n q.power_mw in
      let wr = figure n r.power_mw in
      let ap = figure n p.area_um2 in
      let aq = figure n q.area_um2 in
      let ar = figure n r.area_um2 in
      ground (
        arith,
        n.leb_trans fr fq fp,
        n.leb_trans wp wq wr,
        n.leb_trans ap aq ar,
        n.ltb-leb fr fq fp,
        n.leb-ltb fr fq fp,
        n.ltb-leb wp wq wr,
        n.leb-ltb wp wq wr,
        n.ltb-leb ap aq ar,
        n.leb-ltb ap aq ar,
      )

  same_figure-ltb :
      (x y : Option F) → same_figure n x y ≡ true → n.ltb (figure n y) (figure n x) ≡ false
  unfolding same_figure
  same_figure-ltb none none h = n.ltb_irrefl n.inf
  same_figure-ltb (some x) (some y) h = (n.eqb-ltb x y h).1
  same_figure-ltb none (some y) h = ground (arith, h)
  same_figure-ltb (some x) none h = ground (arith, h)

  -- Equal points do not dominate one another.
  same_point-dominates : (p q : PpaPoint F) → same_point n p q ≡ true → dominates n q p ≡ false
  unfolding same_point dominates
  same_point-dominates p q h = ground (
    arith,
    n.eqb-ltb p.frequency_mhz q.frequency_mhz,
    same_figure-ltb p.power_mw q.power_mw,
    same_figure-ltb p.area_um2 q.area_um2,
  )

  -- The inner loop finds a dominating point if there is one: skipping the equal points loses none.
  pub is_dominated-false :
      (p : PpaPoint F) (points : List (PpaPoint F))
      → All (λ q. dominates n q p ≡ false) points
      → is_dominated n p points ≡ false
  unfolding is_dominated
  is_dominated-false p [] h = refl
  is_dominated-false p (q ∷ points) h =
      let rest = is_dominated-false p points h.1 in let here = h.0 in ground arith

  pub undominated :
      (p : PpaPoint F) (points : List (PpaPoint F))
      → is_dominated n p points ≡ false
      → All (λ q. dominates n q p ≡ false) points
  unfolding is_dominated
  undominated p [] h = tt
  undominated p (q ∷ points) h = elim (Bool-cases (same_point n p q)) [
    | inl e ↦ (same_point-dominates p q e, undominated p points (ground arith))
    | inr e ↦ (ground arith, undominated p points (ground arith))
  ]
