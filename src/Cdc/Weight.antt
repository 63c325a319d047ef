-- ===== src/Cdc/Weight.antt =====
-- What the entries of a driver table that are still to be visited amount to, for the traversals of
-- tools/cdc_checker/crossings.py.
use text.Mathlib.Text.{◌==◌ as str_eq}
use text.Mathlib.TextEquality.{eq_iff}
use mind.Prelude.{
  ℕ, ◌+◌, ◌≤◌, String, false, List, [], ◌∷◌, length, if◌then◌else◌, ◌≡◌, refl, ap, inl, inr,
  Bool-cases, arith,
}
use mind.Prelude.Names.{has}
use mind.Cdc.Netlist.{Driver, edges_of, table_size}

module _ (f : Driver → ℕ) where
  pub total : List Driver → ℕ
  total [] = 0
  total (d ∷ ds) = f d + total ds

  pub weight : List Driver → List String → ℕ
  weight [] visited = 0
  weight (d ∷ ds) visited = if has d.lhs visited then weight ds visited else f d + weight ds visited

  pub weight-visit :
      (ds : List Driver) (node : String) (visited : List String)
      → has node visited ≡ false
      → weight ds (node ∷ visited) + total (edges_of ds node) ≡ weight ds visited
  unfolding weight total edges_of has
  weight-visit [] node visited h = refl
  weight-visit (d ∷ ds) node visited h =
      let ih = weight-visit ds node visited h in
      elim (Bool-cases (str_eq d.lhs node)) [
        | inl p ↦
            let q : has d.lhs visited ≡ false = rw ((eq_iff d.lhs node).0 p) h in
            simp (p, q) (omega (arith, ih))
        | inr p ↦ elim (Bool-cases (has d.lhs visited)) [
          | inl q ↦ simp (p, q) (omega (arith, ih))
          | inr q ↦ simp (p, q) (omega (arith, ih))
        ]
      ]

  pub weight-le-total : (ds : List Driver) (visited : List String) → weight ds visited ≤ total ds
  unfolding weight total
  weight-le-total [] visited = omega arith
  weight-le-total (d ∷ ds) visited =
      let ih = weight-le-total ds visited in
      elim (Bool-cases (has d.lhs visited)) [
        | inl q ↦ simp q (omega (arith, ih))
        | inr q ↦ simp q (omega (arith, ih))
      ]

pub total-rhs : (ds : List Driver) → total (λ d. length d.rhs) ds ≡ table_size ds
unfolding total table_size
total-rhs [] = refl
total-rhs (d ∷ ds) = ap (λ n. length d.rhs + n) (total-rhs ds)

pub total-one : (ds : List Driver) → total (λ d. 1) ds ≡ length ds
unfolding total
total-one [] = refl
total-one (d ∷ ds) = omega (arith, total-one ds)
