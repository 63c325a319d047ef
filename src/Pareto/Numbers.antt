-- ===== src/Pareto/Numbers.antt =====
-- Python's floats without NaN, as src/mind3/core/driver.py's PPAOptimizer compares them.
use mind.Prelude.{Bool, true, false, ◌≡◌}

-- The comparisons `<=`, `<` and `==`, infinity, and the laws of a preorder that they obey.
pub record Number (F : Type 0) : Type 0 where
  pub leb : F → F → Bool
  pub ltb : F → F → Bool
  pub eqb : F → F → Bool
  pub inf : F
  pub leb_trans : (a b c : F) → leb a b ≡ true → leb b c ≡ true → leb a c ≡ true
  pub ltb_irrefl : (a : F) → ltb a a ≡ false
  pub ltb-leb : (a b c : F) → ltb a b ≡ true → leb b c ≡ true → ltb a c ≡ true
  pub leb-ltb : (a b c : F) → leb a b ≡ true → ltb b c ≡ true → ltb a c ≡ true
  pub eqb-ltb : (a b : F) → eqb a b ≡ true → (ltb a b ≡ false) × (ltb b a ≡ false)
