-- ===== src/Vcd/Dicts.antt =====
-- Laws of the dicts of src/mind3/core/vcd_evidence.py.
use text.Mathlib.Text.{◌==◌ as str_eq}
use text.Mathlib.TextEquality.{eq_iff}
use mathlib.Core.Logic.{inl, inr}
use mind.Prelude.{String, List, [], ◌∷◌, some, All, Bool-cases, ◌≡◌, sym, subst}
use native.Mathlib.Omega.{arith}
use mind.Vcd.Lines.{put, find}

module _ {A : Type 0} where
  pub All-put :
      (P : String × A → Type 0) (k : String) (v : A) (d : List (String × A))
      → P (k, v)
      → All P d
      → All P (put k v d)
  unfolding put
  All-put P k v [] p h = (p, tt)
  All-put P k v ((j, w) ∷ d) p h = elim (Bool-cases (str_eq j k)) [
    | inl g ↦ rw g (subst (λ x. P (x, v)) (sym ((eq_iff j k).0 g)) p, h.1)
    | inr g ↦ rw g (h.0, All-put P k v d p h.1)
  ]

  pub find-All :
      (P : String × A → Type 0) (k : String) (v : A) (d : List (String × A))
      → All P d
      → find k d ≡ some v
      → P (k, v)
  unfolding find
  find-All P k v [] h = λ e. absurd (ground (arith, e))
  find-All P k v ((j, w) ∷ d) h = elim (Bool-cases (str_eq j k)) [
    | inl g ↦ rw g (λ e. subst P (cc ((eq_iff j k).0 g, e)) h.0)
    | inr g ↦ rw g (find-All P k v d h.1)
  ]
