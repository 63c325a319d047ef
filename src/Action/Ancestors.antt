-- ===== src/Action/Ancestors.antt =====
-- The order of paths below one another, as is_relative_to of src/mind3/core/driver.py's policy tests it.
use text.Mathlib.Text.{◌==◌ as str_eq}
use text.Mathlib.TextEquality.{eq_iff}
use mind.Prelude.{true, [], ◌∷◌, ◌++◌, ◌≡◌, refl, sym, ◌∙◌, ◌⊎◌, inl, inr, &&-true_iff, arith}
use mind.Action.Paths.{FilePath, is_relative_to, same_path}
use mind.Action.Disk.{drop_last, parent_of}

pub relative_refl : (p : FilePath) → is_relative_to p p ≡ true
unfolding is_relative_to
relative_refl [] = refl
relative_refl (a ∷ p) = rw ((eq_iff a a).1 refl, relative_refl p) refl

pub relative_trans :
    (p q r : FilePath)
    → is_relative_to p q ≡ true
    → is_relative_to q r ≡ true
    → is_relative_to p r ≡ true
unfolding is_relative_to
relative_trans p q [] h k = refl
relative_trans p [] (c ∷ r) h k = ground arith
relative_trans [] (b ∷ q) (c ∷ r) h k = ground arith
relative_trans (a ∷ p) (b ∷ q) (c ∷ r) h k =
    let (e, h') = (&&-true_iff (str_eq a b) (is_relative_to p q)).0 h in
    let (f, k') = (&&-true_iff (str_eq b c) (is_relative_to q r)).0 k in
    let ac = (eq_iff a b).0 e ∙ (eq_iff b c).0 f in
    rw ((eq_iff a c).1 ac, relative_trans p q r h' k') refl

pub relative_antisym :
    (p q : FilePath) → is_relative_to p q ≡ true → is_relative_to q p ≡ true → p ≡ q
unfolding is_relative_to
relative_antisym [] [] h k = refl
relative_antisym [] (b ∷ q) h k = ground arith
relative_antisym (a ∷ p) [] h k = ground arith
relative_antisym (a ∷ p) (b ∷ q) h k =
    let (e, h') = (&&-true_iff (str_eq a b) (is_relative_to p q)).0 h in
    let (f, k') = (&&-true_iff (str_eq b a) (is_relative_to q p)).0 k in
    let ab = (eq_iff a b).0 e in let pq = relative_antisym p q h' k' in cc

-- Two ancestors of one path are comparable.
pub relative_comparable :
    (t p q : FilePath)
    → is_relative_to t p ≡ true
    → is_relative_to t q ≡ true
    → (is_relative_to p q ≡ true) ⊎ (is_relative_to q p ≡ true)
unfolding is_relative_to
relative_comparable t p [] h k = inl refl
relative_comparable t [] (b ∷ q) h k = inr refl
relative_comparable [] (a ∷ p) (b ∷ q) h k = ground arith
relative_comparable (c ∷ t) (a ∷ p) (b ∷ q) h k =
    let (e, h') = (&&-true_iff (str_eq c a) (is_relative_to t p)).0 h in
    let (f, k') = (&&-true_iff (str_eq c b) (is_relative_to t q)).0 k in
    let ab = sym ((eq_iff c a).0 e) ∙ (eq_iff c b).0 f in
    elim (relative_comparable t p q h' k') [
      | inl r ↦ inl (rw ((eq_iff a b).1 ab, r) refl)
      | inr r ↦ inr (rw ((eq_iff b a).1 (sym ab), r) refl)
    ]

pub relative_append :
    (p q r : FilePath) → is_relative_to p r ≡ true → is_relative_to (p ++ q) r ≡ true
unfolding is_relative_to
relative_append p q [] h = refl
relative_append [] q (c ∷ r) h = ground arith
relative_append (a ∷ p) q (c ∷ r) h =
    let (e, h') = (&&-true_iff (str_eq a c) (is_relative_to p r)).0 h in
    rw (e, relative_append p q r h') refl

drop_last-relative : (p : FilePath) → is_relative_to p (drop_last p) ≡ true
unfolding is_relative_to drop_last
drop_last-relative [] = refl
drop_last-relative (a ∷ []) = refl
drop_last-relative (a ∷ b ∷ p) = rw ((eq_iff a a).1 refl) (drop_last-relative (b ∷ p))

pub parent_of-relative : (p : FilePath) → is_relative_to p (parent_of p) ≡ true
unfolding is_relative_to parent_of
parent_of-relative [] = refl
parent_of-relative (a ∷ p) = rw ((eq_iff a a).1 refl, drop_last-relative p) refl

pub same_path-equal : (p q : FilePath) → same_path p q ≡ true → p ≡ q
unfolding same_path
same_path-equal p q h =
    let (a, b) = (&&-true_iff (is_relative_to p q) (is_relative_to q p)).0 h in
    relative_antisym p q a b
