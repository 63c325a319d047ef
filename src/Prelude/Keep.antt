-- ===== src/Prelude/Keep.antt =====
-- The items that a list filter keeps.
use mathlib.Core.Path.{◌≡◌, refl, sym, subst}
use mathlib.Core.Logic.{◌↔◌, inl, inr}
use mathlib.Core.Bool.{Bool, true, false}
use mathlib.Core.List.{List, [], ◌∷◌, map, Memᴰ}
use mathlib.Core.List.Memᴰ.{head, tail, cases_cons}
use native.Mathlib.Omega.{arith}
use mind.Prelude.Tests.{Bool-cases}
use mind.Prelude.Lists.{any, keep, All, All-map}

-- `not xs`
abbrev pub is_empty {ℓ} : {A : Type ℓ} → List A → Bool
is_empty [] = true
is_empty (x ∷ xs) = false

module _ {A : Type 0} (b : A → Bool) where
  pub mem-keep : (x : A) (xs : List A) → Memᴰ x xs → b x ≡ true → Memᴰ x (keep b xs)
  mem-keep x [] m h = elim m [ ]
  mem-keep x (y ∷ xs) (head e) h = let g : b y ≡ true = subst (λ z. b z ≡ true) e h in rw g (head e)
  mem-keep x (y ∷ xs) (tail m) h = elim (Bool-cases (b y)) [
    | inl g ↦ rw g (tail (mem-keep x xs m h))
    | inr g ↦ rw g (mem-keep x xs m h)
  ]

  pub keep-mem : (x : A) (xs : List A) → Memᴰ x (keep b xs) → Memᴰ x xs × (b x ≡ true)
  keep-mem x (y ∷ xs) = elim (Bool-cases (b y)) [
    | inr g ↦ rw g (λ m. let (k, h) = keep-mem x xs m in (tail k, h))
    | inl g ↦ rw g (λ m. elim (cases_cons m) [
      | inl e ↦ (head e, subst (λ z. b z ≡ true) (sym e) g)
      | inr k ↦ let (l, h) = keep-mem x xs k in (tail l, h)
    ])
  ]
  keep-mem x [] = λ m. elim m [ ]

  pub All-keep {κ} :
      (P : A → Type κ) (xs : List A) → All P (keep b xs) ↔ All (λ x. b x ≡ true → P x) xs
  All-keep P [] = (λ h. tt, λ h. tt)
  All-keep P (x ∷ xs) =
      let ih = All-keep P xs in
      elim (Bool-cases (b x)) [
        | inl g ↦ rw g (λ h. (λ _. h.0, ih.0 h.1), λ h. (h.0 refl, ih.1 h.1))
        | inr g ↦ rw g (λ h. (λ e. absurd (ground (arith, e)), ih.0 h), λ h. ih.1 h.1)
      ]

  pub keep-is_empty : (xs : List A) → is_empty (keep b xs) ≡ true → All (λ x. b x ≡ false) xs
  keep-is_empty [] = λ h. tt
  keep-is_empty (x ∷ xs) = elim (Bool-cases (b x)) [
    | inl g ↦ rw g (λ h. absurd (ground (arith, h)))
    | inr g ↦ rw g (λ h. (refl, keep-is_empty xs h))
  ]

  pub is_empty-keep : (xs : List A) → All (λ x. b x ≡ false) xs → is_empty (keep b xs) ≡ true
  is_empty-keep [] h = refl
  is_empty-keep (x ∷ xs) h = rw h.0 (is_empty-keep xs h.1)

  pub first_of-keep :
      (xs : List A) → is_empty (keep b xs) ≡ false → (x : A) × Memᴰ x xs × (b x ≡ true)
  first_of-keep [] = λ h. absurd (ground (arith, h))
  first_of-keep (x ∷ xs) = elim (Bool-cases (b x)) [
    | inl g ↦ λ h. (x, head refl, g)
    | inr g ↦ rw g (λ h. let (y, m, e) = first_of-keep xs h in (y, tail m, e))
  ]

  pub any-true→mem : (xs : List A) → any b xs ≡ true → (x : A) × Memᴰ x xs × (b x ≡ true)
  any-true→mem [] h = absurd (ground (arith, h))
  any-true→mem (x ∷ xs) h = elim (Bool-cases (b x)) [
    | inl g ↦ (x, head refl, g)
    | inr g ↦ let (y, m, e) = any-true→mem xs (rw g at h) in (y, tail m, e)
  ]

  pub is_empty-keep_mem :
      (x : A) (xs : List A) → Memᴰ x xs → b x ≡ true → is_empty (keep b xs) ≡ false
  is_empty-keep_mem x xs m h = filled (keep b xs) (mem-keep x xs m h)
    where
      filled : (ys : List A) → Memᴰ x ys → is_empty ys ≡ false
      filled [] k = elim k [ ]
      filled (y ∷ ys) k = refl

-- What holds of every item holds of each, and every item is one of the list.
pub All-mem {κ} : {A : Type 0} (P : A → Type κ) (x : A) (xs : List A) → All P xs → Memᴰ x xs → P x
All-mem P x [] h m = elim m [ ]
All-mem P x (y ∷ xs) h m = elim (cases_cons m) [
  | inl e ↦ subst P (sym e) h.0
  | inr k ↦ All-mem P x xs h.1 k
]

pub All-self : {A : Type 0} (xs : List A) → All (λ x. Memᴰ x xs) xs
All-self [] = tt
All-self (x ∷ xs) = (head refl, All-map (λ y m. tail m) xs (All-self xs))

pub All-map_iff {κ} :
    {A B : Type 0} (P : B → Type κ) (f : A → B) (xs : List A)
    → All P (map f xs) ↔ All (λ x. P (f x)) xs
All-map_iff P f [] = (λ h. h, λ h. h)
All-map_iff P f (x ∷ xs) =
    let ih = All-map_iff P f xs in (λ h. (h.0, ih.0 h.1), λ h. (h.0, ih.1 h.1))
