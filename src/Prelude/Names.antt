-- ===== src/Prelude/Names.antt =====
-- Lists of names as Python's sets and lists: membership, `add`, and concatenation over a list.
use text.Mathlib.Text.{◌==◌ as str_eq}
use text.Mathlib.TextEquality.{eq_iff}
use Prim.Native.String.{String}
use mathlib.Core.Path.{◌≡◌, refl}
use mathlib.Core.Logic.{◌↔◌, inl, inr}
use mathlib.Core.Bool.{Bool, true, false, ◌||◌}
use mathlib.Core.List.{List, [], ◌∷◌, ◌++◌, Memᴰ}
use mathlib.Core.List.Memᴰ.{head, tail, cases_cons, append_left, append_right, append_cases}
use native.Mathlib.Omega.{arith}
use mind.Prelude.Tests.{Bool-cases, if◌then◌else◌}

-- `x in xs`
unfoldable pub has : String → List String → Bool
has x [] = false
has x (y ∷ ys) = if str_eq x y then true else has x ys

pub has_iff : (x : String) (xs : List String) → (has x xs ≡ true) ↔ Memᴰ x xs
unfolding has
has_iff x [] = (λ h. absurd (ground (arith, h)), λ m. elim m [ ])
has_iff x (y ∷ ys) =
    let ih = has_iff x ys in
    elim (Bool-cases (str_eq x y)) [
      | inl p ↦ rw p (λ _. head ((eq_iff x y).0 p), λ _. refl)
      | inr p ↦ rw p (
        λ h. tail (ih.0 h),
        λ m. elim (cases_cons m) [
          | inl e ↦ absurd (ground (arith, p, (eq_iff x y).1 e))
          | inr k ↦ ih.1 k
        ],
      )
    ]

-- `xs.add(x)`, for a set that is kept as the list of its members.
unfoldable pub add : String → List String → List String
add x xs = if has x xs then xs else xs ++ x ∷ []

-- `xs & ys` is not empty.
unfoldable pub meets : List String → List String → Bool
meets [] ys = false
meets (x ∷ xs) ys = has x ys || meets xs ys

-- `xs <= ys`, and `all(x in ys for x in xs)`
unfoldable pub within : List String → List String → Bool
within [] ys = true
within (x ∷ xs) ys = if has x ys then within xs ys else false

pub within-has : (x : String) (xs ys : List String) → within xs ys ≡ true → Memᴰ x xs → Memᴰ x ys
unfolding within
within-has x [] ys = λ h m. elim m [ ]
within-has x (y ∷ xs) ys = elim (Bool-cases (has y ys)) [
  | inl p ↦ rw p (λ h m. elim (cases_cons m) [
    | inl e ↦ rw e ((has_iff y ys).0 p)
    | inr k ↦ within-has x xs ys h k
  ])
  | inr p ↦ rw p (λ h m. absurd (ground (arith, h)))
]

module _ {A B : Type 0} where
  -- What a loop over the items appends to a list.
  unfoldable pub flat_map : (A → List B) → List A → List B
  flat_map f [] = []
  flat_map f (x ∷ xs) = f x ++ flat_map f xs

  pub mem-flat_map :
      (f : A → List B) (x : A) (y : B) (xs : List A)
      → Memᴰ x xs
      → Memᴰ y (f x)
      → Memᴰ y (flat_map f xs)
  unfolding flat_map
  mem-flat_map f x y [] m h = elim m [ ]
  mem-flat_map f x y (z ∷ xs) (head e) h = append_left _ (subst_head e h)
    where
      subst_head : x ≡ z → Memᴰ y (f x) → Memᴰ y (f z)
      subst_head e h = rw (← e) h
  mem-flat_map f x y (z ∷ xs) (tail m) h = append_right (f z) (mem-flat_map f x y xs m h)

  pub flat_map-mem :
      (f : A → List B) (y : B) (xs : List A)
      → Memᴰ y (flat_map f xs)
      → (x : A) × Memᴰ x xs × Memᴰ y (f x)
  unfolding flat_map
  flat_map-mem f y [] m = elim m [ ]
  flat_map-mem f y (z ∷ xs) m = elim (append_cases (f z) m) [
    | inl k ↦ (z, head refl, k)
    | inr k ↦ let (x, l, h) = flat_map-mem f y xs k in (x, tail l, h)
  ]
