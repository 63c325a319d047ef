-- ===== src/Routing/Words.antt =====
-- The word searches of Python's re that src/mind3/skills/router.py and src/mind3/core/intent.py use.
use Prim.Native.Char.{Char}
use Prim.Native.String.{◌++◌ as append, count}
use mind.Prelude.{String, Bool, true, false, not, ◌&&◌, List, [], ◌∷◌, if◌then◌else◌}
use mind.Formal.Token.{Unicode, is_word}
use mind.Formal.Scan.{drop_text}

-- Python's character tables: the classes of `re`, whether two characters match under IGNORECASE, and
-- the lower and upper case of a text.
pub record Letters : Type 0 where
  pub unicode : Unicode
  pub same : Char → Char → Bool
  pub lower : String → String
  pub upper : String → String

unfoldable pub add_word : String → List String → List String
add_word String.[] ws = ws
add_word (String.◌∷◌ d word) ws = (String.◌∷◌ d word) ∷ ws

module _ (l : Letters) where
  -- Whether the text goes on with a word character.
  unfoldable pub starts_word : String → Bool
  starts_word String.[] = false
  starts_word (String.◌∷◌ c s) = is_word l.unicode c

  unfoldable pub ends_word : String → Bool
  ends_word String.[] = false
  ends_word (String.◌∷◌ c String.[]) = is_word l.unicode c
  ends_word (String.◌∷◌ c (String.◌∷◌ d s)) = ends_word (String.◌∷◌ d s)

  abbrev differs : Bool → Bool → Bool
  differs true b = not b
  differs false b = b

  -- The text begins with the word, by the test on two characters.
  unfoldable pub begins : (Char → Char → Bool) → String → String → Bool
  begins same String.[] s = true
  begins same (String.◌∷◌ w ws) String.[] = false
  begins same (String.◌∷◌ w ws) (String.◌∷◌ c s) = same w c && begins same ws s

  -- `\b` before, the word, and `\b` behind it; `before` says whether a word character stands in front.
  unfoldable pub word_here : (Char → Char → Bool) → String → Bool → String → Bool
  unfolding begins starts_word ends_word
  word_here same word before s =
      begins same word s
      && differs before (starts_word s)
      && differs (ends_word word) (starts_word (drop_text (count word) s))

  unfoldable pub search_from : (Char → Char → Bool) → String → Bool → String → Bool
  unfolding word_here
  search_from same word before String.[] = word_here same word before String.[]
  search_from same word before (String.◌∷◌ c s) =
      let rest = search_from same word (is_word l.unicode c) s in
      if word_here same word before (String.◌∷◌ c s) then true else rest

  -- `re.search(r"\b" + re.escape(word) + r"\b", s)`, for a word that is not empty.
  unfoldable pub word_search : (Char → Char → Bool) → String → String → Bool
  unfolding search_from
  word_search same word s = search_from same word false s

  -- The words of `re.findall(r"\w+", s)`; `word` holds the characters read of the current one.
  unfoldable pub words_from : String → String → List String
  unfolding add_word
  words_from word String.[] = add_word word []
  words_from word (String.◌∷◌ c s) =
      let longer = words_from (append word (String.◌∷◌ c String.[])) s in
      let next = words_from String.[] s in
      if is_word l.unicode c then longer else add_word word next

  unfoldable pub find_words : String → List String
  unfolding words_from
  find_words s = words_from String.[] s
