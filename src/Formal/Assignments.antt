-- ===== src/Formal/Assignments.antt =====
-- The rows of the truth table in src/mind3/core/formal_templates.py and the assignments of truth
-- values: each row evaluates as an assignment, and each assignment has a row.
use Prim.Native.Nat.{Ordering}
use Prim.Native.String.{compare}
use text.Mathlib.Text.{◌==◌ as str_eq}
use text.Mathlib.TextEquality.{eq_iff}
use native.Mathlib.Numerals.{unary_clauses}
use mind.Prelude.{
  ℕ, suc, ◌+◌, ◌*◌, ◌/◌, ◌%◌, ◌^◌, ◌<◌, String, Bool, true, false, not, ◌&&◌, ◌||◌, Option, none,
  some, List, [], ◌∷◌, length, All, ◌==◌, ◌≡◌, refl, sym, subst, ◌⊎◌, All-map, ◌∙◌, ap, map, inl,
  inr, Bool-cases, arith,
}
use mind.Formal.Node.{Node, const, var, not_node, and_node, or_node}
use mind.Formal.Table.{insert, union, variables, Env, lookup, evaluate, ◌>>◌, assign}

-- What a tree means under an assignment of truth values to all names.
abbrev pub value : (String → Bool) → Node → Bool
value ρ (const b) = b
value ρ (var x) = ρ x
value ρ (not_node a) = not (value ρ a)
value ρ (and_node a b) = value ρ a && value ρ b
value ρ (or_node a b) = value ρ a || value ρ b

-- The dictionary holds the value of every name of the list.
abbrev pub Covers : Env → (String → Bool) → List String → Type 0
Covers env ρ names = All (λ x. lookup x env ≡ some (ρ x)) names

Ordering-cases : (o : Ordering) → (o ≡ Ordering.lt) ⊎ ((o ≡ Ordering.eq) ⊎ (o ≡ Ordering.gt))
Ordering-cases Ordering.lt = inl refl
Ordering-cases Ordering.eq = inr (inl refl)
Ordering-cases Ordering.gt = inr (inr refl)

compare-equal : (x y : String) → compare x y ≡ Ordering.eq → x ≡ y
compare-equal x y h = (eq_iff x y).0 (rw h refl)

module _ (P : String → Type 0) where
  All-insert : (x : String) (ys : List String) → All P (insert x ys) → P x × All P ys
  unfolding insert
  All-insert x [] h = (h.0, tt)
  All-insert x (y ∷ ys) h =
      let split : All P (insert x (y ∷ ys)) → P x × All P (y ∷ ys) =
        elim (Ordering-cases (compare x y)) [
          | inl p ↦ rw (p, insert) (λ l. l)
          | inr (inl p) ↦ rw (p, insert) (λ l. (subst P (sym (compare-equal x y p)) l.0, l))
          | inr (inr p) ↦ rw (p, insert) (λ l. let r = All-insert x ys l.1 in (r.0, (l.0, r.1)))
        ] in
      split h

  pub All-union : (xs ys : List String) → All P (union xs ys) → All P xs × All P ys
  unfolding union
  All-union [] ys h = (tt, h)
  All-union (x ∷ xs) ys h =
      let (p, q) = All-insert x (union xs ys) h in let (r, t) = All-union xs ys q in ((p, r), t)

-- Where the dictionary covers the names of a tree, evaluation raises no KeyError and gives its
-- value: what a short-circuited operand would give does not matter.
pub evaluate-value :
    (env : Env) (ρ : String → Bool) (a : Node)
    → Covers env ρ (variables a)
    → evaluate a env ≡ some (value ρ a)
unfolding evaluate variables
evaluate-value env ρ (const b) h = refl
evaluate-value env ρ (var x) h = h.0
evaluate-value env ρ (not_node a) h = rw (evaluate-value env ρ a h) refl
evaluate-value env ρ (and_node a b) h =
    let (p, q) = All-union _ (variables a) (variables b) h in
    let l = evaluate-value env ρ a p in
    let r = evaluate-value env ρ b q in
    elim (Bool-cases (value ρ a)) [ inl t ↦ simp (l, t, r) refl | inr t ↦ simp (l, t) refl ]
evaluate-value env ρ (or_node a b) h =
    let (p, q) = All-union _ (variables a) (variables b) h in
    let l = evaluate-value env ρ a p in
    let r = evaluate-value env ρ b q in
    elim (Bool-cases (value ρ a)) [ inl t ↦ simp (l, t) refl | inr t ↦ simp (l, t, r) refl ]

abbrev pub or_false : Option Bool → Bool
or_false none = false
or_false (some b) = b

-- The row as an assignment: a name that it lacks is false.
abbrev pub row : Env → String → Bool
row env x = or_false (lookup x env)

abbrev Found : Env → String → Type 0
Found env x = (b : Bool) × (lookup x env ≡ some b)

Found-behind :
    (env : Env) (x : String) (b : Bool) (y : String) → Found env y → Found ((x, b) ∷ env) y
unfolding lookup
Found-behind env x b y (c, h) = elim (Bool-cases (str_eq y x)) [
  | inl p ↦ (b, rw p refl)
  | inr p ↦ (c, rw (p, h) refl)
]

Found-here : (env : Env) (x : String) (b : Bool) → lookup x ((x, b) ∷ env) ≡ some b
unfolding lookup
Found-here env x b = rw ((eq_iff x x).1 refl) refl

assign-Found : (bits i : ℕ) (names : List String) → All (Found (assign bits i names)) names
unfolding assign
assign-Found bits i [] = tt
assign-Found bits i (x ∷ xs) =
    let b = (bits >> i) % 2 == 1 in
    (
      (b, Found-here (assign bits (suc i) xs) x b),
      All-map (Found-behind (assign bits (suc i) xs) x b) xs (assign-Found bits (suc i) xs),
    )

row-Found : (env : Env) (x : String) → Found env x → lookup x env ≡ some (row env x)
row-Found env x (b, h) = rw h refl

-- Each row covers the names of the table.
pub assign-Covers :
    (bits i : ℕ) (names : List String)
    → Covers (assign bits i names) (row (assign bits i names)) names
assign-Covers bits i names =
    All-map (row-Found (assign bits i names)) names (assign-Found bits i names)

abbrev bit : Bool → ℕ
bit true = 1
bit false = 0

-- The number of the row that holds an assignment.
unfoldable pub row_of : (String → Bool) → List String → ℕ
row_of ρ [] = 0
row_of ρ (x ∷ xs) = bit (ρ x) + 2 * row_of ρ xs

double_below : {r : ℕ} (n : ℕ) (b : Bool) → r < 2 ^ n → bit b + 2 * r < 2 ^ suc n
double_below n true h = simp unary_clauses (omega (arith, h))
double_below n false h = simp unary_clauses (omega (arith, h))

pub row_of-below : (ρ : String → Bool) (names : List String) → row_of ρ names < 2 ^ length names
unfolding row_of
row_of-below ρ [] = omega arith
row_of-below ρ (x ∷ xs) = double_below (length xs) (ρ x) (row_of-below ρ xs)

low_bit : (b : Bool) (r : ℕ) → (((bit b + 2 * r) % 2 == 1) ≡ b) × ((bit b + 2 * r) / 2 ≡ r)
low_bit true r = (ground arith, omega arith)
low_bit false r = (ground arith, omega arith)

assign-row_of :
    (ρ : String → Bool) (bits i : ℕ) (names : List String)
    → bits >> i ≡ row_of ρ names
    → assign bits i names ≡ map (λ x. (x, ρ x)) names
unfolding assign row_of
assign-row_of ρ bits i [] h = refl
assign-row_of ρ bits i (x ∷ xs) h =
    let low = low_bit (ρ x) (row_of ρ xs) in
    let behind = assign-row_of ρ bits (suc i) xs (ap (λ n. n / 2) h ∙ low.1) in
    rw (h, low.0, behind) refl

map-Covers : (ρ : String → Bool) (names : List String) → Covers (map (λ x. (x, ρ x)) names) ρ names
unfolding lookup
map-Covers ρ [] = tt
map-Covers ρ (x ∷ xs) =
    let env = map (λ y. (y, ρ y)) xs in
    (Found-here env x (ρ x), All-map (λ y h. step y h) xs (map-Covers ρ xs))
  where
    step :
        (y : String)
        → lookup y (map (λ z. (z, ρ z)) xs) ≡ some (ρ y)
        → lookup y (map (λ z. (z, ρ z)) (x ∷ xs)) ≡ some (ρ y)
    step y h = elim (Bool-cases (str_eq y x)) [
      | inl p ↦ rw (p, lookup) (ap (λ z. some (ρ z)) (sym ((eq_iff y x).0 p)))
      | inr p ↦ rw (p, lookup) h
    ]

-- Each assignment has its row: the table misses none.
pub row_of-Covers :
    (ρ : String → Bool) (names : List String) → Covers (assign (row_of ρ names) 0 names) ρ names
row_of-Covers ρ names = rw (assign-row_of ρ (row_of ρ names) 0 names refl) (map-Covers ρ names)
