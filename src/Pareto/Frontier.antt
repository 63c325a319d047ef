-- ===== src/Pareto/Frontier.antt =====
-- What get_pareto_frontier of src/mind3/core/driver.py returns.
use mathlib.Core.List.{Memᴰ}
use mathlib.Core.List.Memᴰ.{head, tail}
use mind.Prelude.Keep.{mem-keep, keep-mem, All-keep}
use mind.Prelude.{
  true, false, not, List, [], ◌∷◌, All, All-map, keep, ◌≡◌, ◌↔◌, refl, sym, subst, ◌⊎◌, inl, inr,
  Bool-cases, not-true_iff, arith,
}
use mind.Pareto.Numbers.{Number}
use mind.Pareto.Optimizer.{PpaPoint, dominates, is_dominated, is_valid, get_pareto_frontier}
use mind.Pareto.Dominance.{dominates_irrefl, dominates_trans, is_dominated-false, undominated}

module _ {F : Type 0} (n : Number F) where
  -- A design point is on the frontier exactly where it was recorded, passes timing and the physical
  -- checks, and no recorded point that passes them dominates it: skipping equal points in the
  -- comparison loses none.
  pub get_pareto_frontier_iff :
      (points : List (PpaPoint F)) (p : PpaPoint F)
      → Memᴰ p (get_pareto_frontier n points) ↔ (
          Memᴰ p points
          × (is_valid n p ≡ true)
          × All (λ q. is_valid n q ≡ true → dominates n q p ≡ false) points)
  unfolding get_pareto_frontier
  get_pareto_frontier_iff points p =
      let valid = keep (is_valid n) points in
      (
        λ m.
            let (k, h) = keep-mem (λ q. not (is_dominated n q valid)) p valid m in
            let (l, g) = keep-mem (is_valid n) p points k in
            let best = undominated n p valid ((not-true_iff _).0 h) in
            (l, g, (All-keep (is_valid n) (λ q. dominates n q p ≡ false) points).0 best),
        λ (m, g, best).
            mem-keep (λ q. not (is_dominated n q valid)) p valid
              (mem-keep (is_valid n) p points m g)
              ((not-true_iff _).1 (
                is_dominated-false n p valid
                  ((All-keep (is_valid n) (λ q. dominates n q p ≡ false) points).1 best))),
      )

  over :
      {points : List (PpaPoint F)} (q p m : PpaPoint F)
      → dominates n q m ≡ true
      → (m ≡ p) ⊎ (Memᴰ m points × (dominates n m p ≡ true))
      → dominates n q p ≡ true
  over q p m e (inl s) = subst (λ r. dominates n q r ≡ true) s e
  over q p m e (inr (k, d)) = dominates_trans n q m p e d

  still :
      (q m : PpaPoint F)
      → dominates n q m ≡ true
      → (r : PpaPoint F) → dominates n r m ≡ false
      → dominates n r q ≡ false
  still q m e r h = elim (Bool-cases (dominates n r q)) [
    | inl d ↦ absurd (ground (arith, dominates_trans n r q m d e))
    | inr d ↦ d
  ]

  -- Above each point stands one that no point of the list dominates.
  best_above :
      (points : List (PpaPoint F)) (p : PpaPoint F)
      → (m : PpaPoint F) × ((m ≡ p) ⊎ (Memᴰ m points × (dominates n m p ≡ true)))
        × All (λ q. dominates n q m ≡ false) points
  best_above [] p = (p, inl refl, tt)
  best_above (q ∷ points) p =
      let (m, above, best) = best_above points p in
      elim (Bool-cases (dominates n q m)) [
        | inr e ↦ (m, elim above [ inl s ↦ inl s | inr (k, d) ↦ inr (tail k, d) ], (e, best))
        | inl e ↦ (
          q,
          inr (head refl, over q p m e above),
          (dominates_irrefl n q, All-map (still q m e) points best),
        )
      ]

  -- Every recorded point that passes timing and the physical checks is on the frontier or is
  -- dominated by a point of the frontier: no trade-off is lost, and the frontier is empty only
  -- where no point passes.
  pub get_pareto_frontier-covers :
      (points : List (PpaPoint F)) (p : PpaPoint F)
      → Memᴰ p points
      → is_valid n p ≡ true
      → (m : PpaPoint F) × Memᴰ m (get_pareto_frontier n points)
        × ((m ≡ p) ⊎ (dominates n m p ≡ true))
  unfolding get_pareto_frontier
  get_pareto_frontier-covers points p k g =
      let valid = keep (is_valid n) points in
      let p_valid = mem-keep (is_valid n) p points k g in
      let (m, above, best) = best_above valid p in
      let m_valid : Memᴰ m valid = elim above [
        | inl e ↦ subst (λ q. Memᴰ q valid) (sym e) p_valid
        | inr (l, d) ↦ l
      ] in
      (
        m,
        mem-keep (λ q. not (is_dominated n q valid)) m valid m_valid
            ((not-true_iff _).1 (is_dominated-false n m valid best)),
        elim above [ inl e ↦ inl e | inr (l, d) ↦ inr d ],
      )
