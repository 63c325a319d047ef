-- ===== src/Formal/Token.antt =====
-- The tokens of src/mind3/core/formal_templates.py: _P3C_TOKEN_RE and _p3c_tokenize. The character
-- classes of a regular expression on other characters than ASCII are a parameter.
use Prim.Native.Char.{Char, code}
use mind.Prelude.{
  ℕ, zero, suc, ◌+◌, ◌-◌, String, Bool, ◌&&◌, ◌||◌, Option, none, some, List, [], ◌∷◌,
  if◌then◌else◌, leb, ltb, ◌==◌,
}
use mind.Prelude.Text.{take_text}
use mind.Formal.Scan.{drop_text, starts_with, run_length}

-- What `\w`, `\d` and `\s` match beyond ASCII, by the character's number.
pub record Unicode : Type 0 where
  pub word : ℕ → Bool
  pub digit : ℕ → Bool
  pub space : ℕ → Bool

pub data Kind : Type 0 where
  impl and_op or_op eq_op ne_op not_op lp rp ident number ws : Kind

pub data Token : Type 0 where
  token : Kind → String → Token

between : ℕ → ℕ → Char → Bool
between low high c = leb low (code c) && leb (code c) high

is : Char → Char → Bool
is d c = code c == code d

-- `[A-Za-z_]`
is_start : Char → Bool
unfolding between is
is_start c = between 65 90 c || between 97 122 c || is "_" c

module _ (u : Unicode) where
  -- `\d`
  is_digit : Char → Bool
  unfolding between
  is_digit c = between 48 57 c || (leb 128 (code c) && u.digit (code c))

  -- `\w`
  unfoldable pub is_word : Char → Bool
  unfolding between is_start
  is_word c = is_start c || between 48 57 c || (leb 128 (code c) && u.word (code c))

  -- `\s`
  unfoldable pub is_space : Char → Bool
  unfolding between
  is_space c = between 9 13 c || between 28 32 c || (leb 128 (code c) && u.space (code c))

  -- `[bBoOdDhH]`
  is_base : Char → Bool
  unfolding is
  is_base c =
      is "b" c || is "B" c || is "o" c || is "O" c || is "d" c || is "D" c || is "h" c || is "H" c

  -- `[0-9a-fA-F_xXzZ?]`
  is_literal_digit : Char → Bool
  unfolding between is
  is_literal_digit c =
      between 48 57 c
      || between 97 102 c
      || between 65 70 c
      || is "_" c
      || is "x" c
      || is "X" c
      || is "z" c
      || is "Z" c
      || is "?" c

  -- `(?:'[bBoOdDhH][0-9a-fA-F_xXzZ?]+)?`
  base_length : String → ℕ
  unfolding is is_base is_literal_digit run_length
  base_length (String.◌∷◌ q (String.◌∷◌ b s)) =
      let n = run_length is_literal_digit s in if is "'" q && is_base b && ltb 0 n then n + 2 else 0
  base_length _ = 0

  -- `\d[\d_]*` with the optional base.
  number_length : String → ℕ
  unfolding is is_digit base_length run_length drop_text
  number_length s =
      let n = run_length (λ c. is_digit c || is "_" c) s in n + base_length (drop_text n s)

  -- The first alternative that matches at the start of a text, with the length of the match;
  -- `none` is the alternative `bad`.
  unfoldable pub match_at : String → Option (Kind × ℕ)
  unfolding starts_with is_start is_word is_digit is_space number_length run_length
  match_at String.[] = none
  match_at (String.◌∷◌ c s) =
      let text = String.◌∷◌ c s in
      if starts_with "|->" text
      then some (impl, 3)
      else if starts_with "&&" text
      then some (and_op, 2)
      else if starts_with "||" text
      then some (or_op, 2)
      else if starts_with "==" text
      then some (eq_op, 2)
      else if starts_with "!=" text
      then some (ne_op, 2)
      else if starts_with "!" text
      then some (not_op, 1)
      else if starts_with "(" text
      then some (lp, 1)
      else if starts_with ")" text
      then some (rp, 1)
      else if is_start c
      then some (ident, suc (run_length is_word s))
      else if is_digit c
      then some (number, number_length text)
      else if is_space c
      then some (ws, suc (run_length is_space s))
      else none

  -- The tokens of a text, of which the first `skip` characters belong to the token before.
  tokens_from : String → ℕ → Option (List Token)
  unfolding match_at take_text
  tokens_from String.[] skip = some []
  tokens_from (String.◌∷◌ c s) (suc skip) = tokens_from s skip
  tokens_from (String.◌∷◌ c s) zero = elim (match_at (String.◌∷◌ c s)) [
    | none ↦ none
    | some (ws, n) ↦ tokens_from s (n - 1)
    | some (kind, n) ↦ elim (tokens_from s (n - 1)) [
      | none ↦ none
      | some ts ↦ some (token kind (take_text n (String.◌∷◌ c s)) ∷ ts)
    ]
  ]

  -- `_p3c_tokenize`; `none` is the abstention on a character outside the alphabet.
  unfoldable pub tokenize : String → Option (List Token)
  unfolding tokens_from
  tokenize text = tokens_from text 0
