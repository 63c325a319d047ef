-- ===== src/Formal/Join.antt =====
-- The parts of _split_top_level in src/mind3/core/formal_templates.py, joined again.
use Prim.Native.Char.{Char, code}
use Prim.Native.String.{◌++◌ as append, count}
use Prim.Native.String.append
use text.Mathlib.TextEquality.{eq_iff}
use mind.Prelude.{
  ℕ, zero, suc, ◌-◌, String, true, ◌&&◌, List, [], ◌∷◌, ◌==◌, ◌≡◌, refl, sym, ◌∙◌, ap, ◌⊎◌, ◌<◌,
  inl, inr, Bool-cases, &&-true_iff, arith,
}
use mind.Prelude.Text.{take_text}
use mind.Formal.Scan.{drop_text, starts_with}
use mind.Formal.Split.{cons_first, split_from, split_top_level, join_parts}

take-drop : (n : ℕ) (s : String) → append (take_text n s) (drop_text n s) ≡ s
unfolding take_text drop_text
take-drop zero s = append.nil s
take-drop (suc n) String.[] = append.nil ""
take-drop (suc n) (String.◌∷◌ c s) =
    append.cons c (take_text n s) (drop_text n s) ∙ ap (String.◌∷◌ c) (take-drop n s)

join_parts-one : (op p : String) → join_parts op (p ∷ []) ≡ p
unfolding join_parts
join_parts-one op p = refl

join_parts-cons_first :
    (op : String) (c : Char) (parts : List String)
    → join_parts op (cons_first c parts) ≡ String.◌∷◌ c (join_parts op parts)
unfolding join_parts cons_first
join_parts-cons_first op c [] = refl
join_parts-cons_first op c (p ∷ []) = refl
join_parts-cons_first op c (p ∷ q ∷ ps) = append.cons c p (append op (join_parts op (q ∷ ps)))

abbrev Filled : List String → Type 0
Filled parts = (p : String) × (ps : List String) × (parts ≡ p ∷ ps)

cons_first-Filled : (c : Char) (parts : List String) → Filled (cons_first c parts)
unfolding cons_first
cons_first-Filled c [] = (_, _, refl)
cons_first-Filled c (p ∷ ps) = (_, _, refl)

join_parts-behind :
    (op : String) (parts : List String)
    → Filled parts
    → join_parts op ("" ∷ parts) ≡ append op (join_parts op parts)
unfolding join_parts
join_parts-behind op parts (p, ps, e) = rw e (append.nil _)

-- What one character does: it goes to the first part, or an operator starts with it.
split_from-cases :
    (op : String) (o d : ℕ) (c : Char) (s : String)
    → ((o' d' : ℕ) × (split_from op o d 0 (String.◌∷◌ c s)
          ≡ cons_first c (split_from op o' d' 0 s)))
      ⊎ ((starts_with op (String.◌∷◌ c s) ≡ true)
          × (split_from op o d 0 (String.◌∷◌ c s) ≡ "" ∷ split_from op o d (count op - 1) s))
unfolding split_from
split_from-cases op o d c s = elim (Bool-cases (code c == 40)) [
  | inl e ↦ inl (suc o, d, rw (e, split_from) refl)
  | inr e ↦ elim (Bool-cases (code c == 41)) [
    | inl f ↦ inl (o, suc d, rw (e, f, split_from) refl)
    | inr f ↦ elim (Bool-cases (o == d && starts_with op (String.◌∷◌ c s))) [
      | inl h ↦ inr (
        ((&&-true_iff (o == d) (starts_with op (String.◌∷◌ c s))).0 h).1,
        rw (e, f, h, split_from) refl,
      )
      | inr h ↦ inl (o, d, rw (e, f, h, split_from) refl)
    ]
  ]
]

split_from-Filled : (op : String) (o d k : ℕ) (s : String) → Filled (split_from op o d k s)
unfolding split_from
split_from-Filled op o d k String.[] = (_, _, refl)
split_from-Filled op o d (suc k) (String.◌∷◌ c s) = split_from-Filled op o d k s
split_from-Filled op o d zero (String.◌∷◌ c s) = elim (split_from-cases op o d c s) [
  | inl (o', d', e) ↦
      let (p, ps, f) = cons_first-Filled c (split_from op o' d' 0 s) in (p, ps, e ∙ f)
  | inr (h, e) ↦ (_, _, e)
]

-- An operator that starts a text, and what is behind it.
operator_behind :
    (op : String) (c : Char) (s : String)
    → 0 < count op
    → starts_with op (String.◌∷◌ c s) ≡ true
    → append op (drop_text (count op - 1) s) ≡ String.◌∷◌ c s
unfolding starts_with drop_text
operator_behind op c s n h =
    let text = String.◌∷◌ c s in
    let start = (eq_iff (take_text (count op) text) op).0 h in
    let len : count op ≡ suc (count op - 1) = omega (arith, n) in
    let behind : drop_text (count op) text ≡ drop_text (count op - 1) s =
      ap (λ m. drop_text m text) len in
    ap (λ t. append t (drop_text (count op - 1) s)) (sym start)
    ∙ ap (append (take_text (count op) text)) (sym behind)
    ∙ take-drop (count op) text

split_from-join :
    (op : String) (o d k : ℕ) (s : String)
    → 0 < count op
    → join_parts op (split_from op o d k s) ≡ drop_text k s
unfolding split_from drop_text
split_from-join op o d zero String.[] n = join_parts-one op ""
split_from-join op o d (suc k) String.[] n = join_parts-one op ""
split_from-join op o d (suc k) (String.◌∷◌ c s) n = split_from-join op o d k s n
split_from-join op o d zero (String.◌∷◌ c s) n = elim (split_from-cases op o d c s) [
  | inl (o', d', e) ↦
      ap (join_parts op) e
      ∙ join_parts-cons_first op c (split_from op o' d' 0 s)
      ∙ ap (String.◌∷◌ c) (split_from-join op o' d' 0 s n)
  | inr (h, e) ↦
      ap (join_parts op) e
      ∙ join_parts-behind op (split_from op o d (count op - 1) s)
          (split_from-Filled op o d (count op - 1) s)
      ∙ ap (append op) (split_from-join op o d (count op - 1) s n)
      ∙ operator_behind op c s n h
]

-- Splitting a text at an operator of at least one character and joining the parts with it gives
-- the text back, whatever its parentheses: no character is lost or added.
pub split_top_level-join :
    (text op : String) → 0 < count op → join_parts op (split_top_level text op) ≡ text
unfolding split_top_level drop_text
split_top_level-join text op n = split_from-join op 0 0 0 text n
