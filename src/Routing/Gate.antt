-- ===== src/Routing/Gate.antt =====
-- When the gate of src/mind3/core/intent.py lets a request pass by the pipeline.
use text.Mathlib.Text.{◌==◌ as str_eq}
use text.Mathlib.TextEquality.{eq_iff}
use mind.Prelude.{
  String, Bool, true, false, ◌&&◌, List, any, Option, none, some, if◌then◌else◌, ◌≡◌, refl, ap, ◌∙◌,
  ◌↔◌, ◌⊎◌, inl, inr, Bool-cases, arith,
}
use mind.Routing.Words.{Letters, word_search}
use mind.Routing.Intent.{
  Intent, general, generate, keyword_list, verb_list, Message, Options, classify_options,
  keyword_hint, token_of, parse_intent, messages_for, parse_reply, intent_by, route_intent,
}

-- None of the words stands in the prompt, in any case of its letters.
abbrev pub LacksWords : Letters → String → List String → Type 0
LacksWords l prompt words = any (λ w. word_search l l.same w prompt) words ≡ false

keyword_hint-none :
    (l : Letters) (prompt : String)
    → (keyword_hint l prompt ≡ none)
      ↔ (LacksWords l prompt keyword_list ⊎ LacksWords l prompt verb_list)
unfolding keyword_hint
keyword_hint-none l prompt = by_tests _ _
  where
    by_tests :
        (a b : Bool)
        → ((if a && b then some generate else none) ≡ none) ↔ ((a ≡ false) ⊎ (b ≡ false))
    by_tests true true =
        (λ h. absurd (cc), λ s. elim s [ inl h ↦ absurd (cc) | inr h ↦ absurd (cc) ])
    by_tests true false = (λ h. inr refl, λ s. refl)
    by_tests false b = (λ h. inl refl, λ s. refl)

keyword_hint-cases :
    (l : Letters) (prompt : String)
    → (keyword_hint l prompt ≡ none) ⊎ (keyword_hint l prompt ≡ some generate)
unfolding keyword_hint
keyword_hint-cases l prompt = by_test _
  where
    by_test :
        (b : Bool)
        → ((if b then some generate else none) ≡ none)
          ⊎ ((if b then some generate else none) ≡ some generate)
    by_test true = inr refl
    by_test false = inl refl

parse_intent-general : (raw : String) → (parse_intent raw ≡ general) ↔ (token_of raw ≡ "GENERAL")
unfolding parse_intent
parse_intent-general raw = elim (Bool-cases (str_eq (token_of raw) "GENERAL")) [
  | inl p ↦ rw p (λ h. (eq_iff (token_of raw) "GENERAL").0 p, λ h. refl)
  | inr p ↦
      rw p
        (λ h. absurd (cc), λ h. absurd (ground (arith, p, (eq_iff (token_of raw) "GENERAL").1 h)))
]

intent_by-general :
    (hint : Option Intent) (reply : Option String)
    → (hint ≡ none) ⊎ (hint ≡ some generate)
    → (intent_by hint reply ≡ general)
      ↔ ((hint ≡ none) × ((raw : String) × (reply ≡ some raw) × (token_of raw ≡ "GENERAL")))
unfolding intent_by parse_reply
intent_by-general none none c = (λ h. absurd (cc), λ (k, (raw, r, t)). absurd (cc))
intent_by-general none (some raw) c = (
  λ h. (refl, (raw, refl, (parse_intent-general raw).0 h)),
  λ (k, (other, r, t)). (parse_intent-general raw).1 (ap token_of (same raw other r) ∙ t),
)
  where
    same : (raw other : String) → some raw ≡ some other → raw ≡ other
    same raw other r = cc
intent_by-general (some generate) reply c = (λ h. absurd (cc), λ (k, r). absurd (cc))
intent_by-general (some general) reply c =
    (λ h. absurd (elim c [ inl e ↦ cc | inr e ↦ cc ]), λ (k, r). absurd (cc))

-- A request is answered directly exactly where it has no hardware keyword or no action verb, and the
-- model replied with a text whose letters, in upper case, are GENERAL. In every other case, a failed
-- model call included, it takes the gated path.
pub route_intent-general_iff :
    (l : Letters) (query : List Message → Options → Option String) (prompt : String)
    → (route_intent l query prompt ≡ general) ↔ (
        (LacksWords l prompt keyword_list ⊎ LacksWords l prompt verb_list)
        × ((raw : String) × (query (messages_for prompt) classify_options ≡ some raw)
            × (token_of raw ≡ "GENERAL")))
unfolding route_intent
route_intent-general_iff l query prompt =
    let hint = keyword_hint-none l prompt in
    let (f, g) =
      intent_by-general (keyword_hint l prompt) (query (messages_for prompt) classify_options)
        (keyword_hint-cases l prompt) in
    (λ h. let (p, r) = f h in (hint.0 p, r), λ (k, r). g (hint.1 k, r))
