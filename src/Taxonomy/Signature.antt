-- ===== src/Taxonomy/Signature.antt =====
-- The search for the signature of a failed assertion in src/mind3/core/failure_taxonomy.py.
use mind.Prelude.{
  String, Bool, true, false, not, ◌&&◌, ◌||◌, [], ◌∷◌, any, Option, none, some, if◌then◌else◌,
}
use mind.Formal.Token.{is_space, is_word}
use mind.Routing.Words.{Letters, starts_word, word_here}

module _ (l : Letters) where
  -- `\s+`: the text behind one white space and all that follow.
  skip_spaces : String → String
  skip_spaces String.[] = String.[]
  skip_spaces (String.◌∷◌ c s) = if is_space l.unicode c then skip_spaces s else String.◌∷◌ c s

  behind_spaces : String → Option String
  unfolding skip_spaces
  behind_spaces String.[] = none
  behind_spaces (String.◌∷◌ c s) = if is_space l.unicode c then some (skip_spaces s) else none

  -- The text behind a word that it begins with, in any case.
  behind_word : String → String → Option String
  behind_word String.[] s = some s
  behind_word (String.◌∷◌ w ws) String.[] = none
  behind_word (String.◌∷◌ w ws) (String.◌∷◌ c s) = if l.same w c then behind_word ws s else none

  ends_at : Option String → Bool
  ends_at none = false
  ends_at (some s) = not (starts_word l s)

  ends_verdict : Option String → Bool
  unfolding behind_word ends_at
  ends_verdict none = false
  ends_verdict (some s) =
      any (λ w. ends_at (behind_word w s)) ("violation" ∷ "failed" ∷ "failure" ∷ [])

  spaced : Option String → Option String
  unfolding behind_spaces
  spaced none = none
  spaced (some s) = behind_spaces s

  -- The alternatives of the pattern at a position; `before` says whether a word character is in front.
  signature_here : Bool → String → Bool
  unfolding behind_word ends_at ends_verdict spaced
  signature_here before s =
      not before && any (λ w. ends_verdict (spaced (behind_word w s))) ("assertion" ∷ "assert" ∷ [])
      || ends_at (behind_word "$fatal" s)
      || word_here l l.same "MISMATCH" before s

  signature_from : Bool → String → Bool
  unfolding signature_here
  signature_from before String.[] = false
  signature_from before (String.◌∷◌ c s) =
      let rest = signature_from (is_word l.unicode c) s in
      if signature_here before (String.◌∷◌ c s) then true else rest

  -- The search for an assertion's failure, `$fatal` or MISMATCH.
  unfoldable pub has_signature : String → Bool
  unfolding signature_from
  has_signature s = signature_from false s
