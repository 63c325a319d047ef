-- ===== src/Formal/Unwrapped.antt =====
-- _strip_outer_parens of src/mind3/core/formal_templates.py ends with no pair of parentheses around.
use text.Mathlib.Text.{◌==◌ as str_eq}
use mind.Prelude.{
  ℕ, zero, suc, ◌≤◌, ◌<◌, String, true, false, ◌&&◌, ◌≡◌, inl, inr, Bool-cases, arith,
}
use mind.Formal.Token.{Unicode, is_space}
use mind.Formal.Strip.{
  strip_left, strip_right, strip, text_length, drop_end, inner, opens, is_wrapped, strip_pairs,
  strip_outer_parens,
}

length-strip_left : (u : Unicode) (s : String) → text_length (strip_left u s) ≤ text_length s
unfolding text_length strip_left
length-strip_left u String.[] = omega arith
length-strip_left u (String.◌∷◌ c s) = elim (Bool-cases (is_space u c)) [
  | inl e ↦ rw e (omega (arith, length-strip_left u s))
  | inr e ↦ rw e (omega arith)
]

length-strip_right : (u : Unicode) (s : String) → text_length (strip_right u s) ≤ text_length s
unfolding text_length strip_right
length-strip_right u String.[] = omega arith
length-strip_right u (String.◌∷◌ c s) =
    elim (Bool-cases (str_eq (strip_right u s) "" && is_space u c)) [
      | inl e ↦ rw e (omega arith)
      | inr e ↦ rw e (omega (arith, length-strip_right u s))
    ]

length-drop_end : (s : String) → text_length (drop_end s) ≤ text_length s
unfolding text_length drop_end
length-drop_end String.[] = omega arith
length-drop_end (String.◌∷◌ c String.[]) = omega arith
length-drop_end (String.◌∷◌ c (String.◌∷◌ d s)) = omega (arith, length-drop_end (String.◌∷◌ d s))

wrapped_opens : (s : String) → is_wrapped s ≡ true → opens s ≡ true
unfolding is_wrapped
wrapped_opens s h = ground arith

-- A text that opens has a first character, and its inside is shorter.
length-inner :
    (u : Unicode) (s : String) → opens s ≡ true → text_length (strip u (inner s)) < text_length s
unfolding opens inner strip text_length
length-inner u String.[] h = absurd (ground (arith, h))
length-inner u (String.◌∷◌ c s) h =
    let left = length-strip_left u (drop_end s) in
    omega (arith, length-strip_right u (strip_left u (drop_end s)), left, length-drop_end s)

strip_pairs-unwrapped :
    (u : Unicode) (fuel : ℕ) (s : String)
    → text_length s ≤ fuel
    → is_wrapped (strip_pairs u fuel s) ≡ false
unfolding strip_pairs
strip_pairs-unwrapped u zero s h = elim (Bool-cases (is_wrapped s)) [
  | inr e ↦ e
  | inl e ↦ absurd (omega (arith, length-inner u s (wrapped_opens s e), h))
]
strip_pairs-unwrapped u (suc fuel) s h = elim (Bool-cases (is_wrapped s)) [
  | inr e ↦ rw (e, strip_pairs) e
  | inl e ↦
      rw (e, strip_pairs)
        (strip_pairs-unwrapped u fuel (strip u (inner s))
          (omega (arith, length-inner u s (wrapped_opens s e), h)))
]

-- What is left has no pair of parentheses around the whole text: the loop is never cut off.
pub strip_outer_parens-unwrapped :
    (u : Unicode) (text : String) → is_wrapped (strip_outer_parens u text) ≡ false
unfolding strip_outer_parens
strip_outer_parens-unwrapped u text = strip_pairs-unwrapped u _ (strip u text) (omega arith)
