-- ===== src/Formal/Strip.antt =====
-- Python's str.strip, and _strip_outer_parens and _p3c_normalize of
-- src/mind3/core/formal_templates.py. Their loops have the text's length as fuel.
use Prim.Native.Char.{code}
use text.Mathlib.Text.{◌==◌ as str_eq}
use mind.Prelude.{ℕ, zero, suc, ◌-◌, String, Bool, false, not, ◌&&◌, if◌then◌else◌, ◌==◌}
use mind.Formal.Token.{Unicode, is_space}

unfoldable pub strip_left : Unicode → String → String
strip_left u String.[] = ""
strip_left u (String.◌∷◌ c s) = if is_space u c then strip_left u s else String.◌∷◌ c s

unfoldable pub strip_right : Unicode → String → String
strip_right u String.[] = ""
strip_right u (String.◌∷◌ c s) =
    let rest = strip_right u s in if str_eq rest "" && is_space u c then "" else String.◌∷◌ c rest

-- `s.strip()`
unfoldable pub strip : Unicode → String → String
strip u s = strip_right u (strip_left u s)

-- `len(s)`
unfoldable pub text_length : String → ℕ
text_length String.[] = 0
text_length (String.◌∷◌ c s) = suc (text_length s)

-- `s[:-1]`
unfoldable pub drop_end : String → String
drop_end String.[] = ""
drop_end (String.◌∷◌ c String.[]) = ""
drop_end (String.◌∷◌ c (String.◌∷◌ d s)) = String.◌∷◌ c (drop_end (String.◌∷◌ d s))

-- `s[1:-1]`
unfoldable pub inner : String → String
unfolding drop_end
inner String.[] = ""
inner (String.◌∷◌ c s) = drop_end s

ends_closed : String → Bool
ends_closed String.[] = false
ends_closed (String.◌∷◌ c String.[]) = code c == 41
ends_closed (String.◌∷◌ c (String.◌∷◌ d s)) = ends_closed (String.◌∷◌ d s)

-- The scan of a text that starts with a parenthesis, at a depth: the depth becomes 0 at the last
-- character and at none before it.
closes_last : ℕ → String → Bool
closes_last depth String.[] = depth == 0
closes_last depth (String.◌∷◌ c s) =
    let after = if code c == 40 then suc depth else if code c == 41 then depth - 1 else depth in
    let rest = closes_last after s in
    if code c == 41 && after == 0 && not (str_eq s "") then false else rest

unfoldable pub opens : String → Bool
opens String.[] = false
opens (String.◌∷◌ c s) = code c == 40

-- One pair of parentheses is around the whole text.
unfoldable pub is_wrapped : String → Bool
unfolding ends_closed closes_last
is_wrapped s = opens s && ends_closed s && closes_last 0 s

unfoldable pub strip_pairs : Unicode → ℕ → String → String
strip_pairs u zero s = s
strip_pairs u (suc fuel) s =
    let rest = strip_pairs u fuel (strip u (inner s)) in if is_wrapped s then rest else s

-- `_strip_outer_parens`
unfoldable pub strip_outer_parens : Unicode → String → String
strip_outer_parens u text = let s = strip u text in strip_pairs u (text_length s) s
