-- ===== src/Routing/Router.antt =====
-- SkillRouter.route of src/mind3/skills/router.py. Scores are sums of 1.0 and 2.0, so they are natural
-- numbers; the registry's sorted skills are an argument.
use text.Mathlib.Text.{◌==◌ as str_eq}
use Prim.Native.String.{◌++◌ as append}
use mind.Prelude.{
  ℕ, zero, suc, ◌+◌, String, Bool, ◌&&◌, List, [], ◌∷◌, ◌++◌, map, any, keep, length, Option, none,
  some, if◌then◌else◌, ltb, ◌==◌,
}
use mind.Prelude.Names.{has}
use mind.Prelude.Text.{decimal}
use mind.Formal.Scan.{occurs_in}
use mind.Formal.Table.{union}
use mind.Routing.Words.{Letters, word_search, find_words}
use mind.Routing.Skills.{
  SkillReference, Skill, SkillMatch, Subcategory, rtl, physical_design, cdc_dft, device_concepts,
  report_structure, timeline_chart, domain_patterns,
}
use Prim.Native.Char.{Char, code}

abbrev same_char : Char → Char → Bool
same_char a b = code a == code b

-- What a skill collects; `domain` is the request's suggested domain.
pub record Collected : Type 0 where
  pub score : ℕ
  pub keywords : List String
  pub refs : List SkillReference
  pub domain : String

find_reference : String → List (String × SkillReference) → Option SkillReference
find_reference key [] = none
find_reference key ((k, r) ∷ refs) = if str_eq k key then some r else find_reference key refs

same_reference : SkillReference → SkillReference → Bool
same_reference a b =
    str_eq a.name b.name && str_eq a.content b.content && str_eq a.summary b.summary

-- With the reference: it is selected and the domain suggested.
unfoldable pub add_reference : Option SkillReference → String → Collected → Collected
add_reference none domain c = c
add_reference (some r) domain c = record c { refs = c.refs ++ r ∷ []; domain = domain }

-- The reference is selected only if it is there, and the domain is suggested anyway.
unfoldable pub always_suggest : Option SkillReference → String → Collected → Collected
always_suggest none domain c = record c { domain = domain }
always_suggest (some r) domain c = record c { refs = c.refs ++ r ∷ []; domain = domain }

new_reference : Option SkillReference → List SkillReference → Option SkillReference
unfolding same_reference
new_reference none refs = none
new_reference (some r) refs = if any (same_reference r) refs then none else some r

-- The if-elif chain over the subcategory.
unfoldable pub select_reference : Skill → Subcategory → Collected → Collected
unfolding add_reference always_suggest new_reference find_reference
select_reference skill rtl c =
    add_reference (find_reference "references/rtl-design.md" skill.references) "RTL" c
select_reference skill physical_design c =
    add_reference (find_reference "references/physical-design.md" skill.references)
      "PHYSICAL_DESIGN" c
select_reference skill cdc_dft c =
    always_suggest (find_reference "references/cdc-dft.md" skill.references) "CDC_DFT" c
select_reference skill device_concepts c =
    add_reference (find_reference "references/device-concepts.md" skill.references) "VLSI_DEVICE" c
select_reference skill report_structure c =
    add_reference (find_reference "references/report_structure.md" skill.references)
      "INDUSTRY_REPORT" c
select_reference skill timeline_chart c =
    always_suggest
      (new_reference (find_reference "references/report_structure.md" skill.references) c.refs)
      "INDUSTRY_REPORT" c

take_two : List SkillReference → List SkillReference
take_two [] = []
take_two (a ∷ []) = a ∷ []
take_two (a ∷ b ∷ refs) = a ∷ b ∷ []

-- `deduped_refs`, where `seen` holds the names met before.
unfoldable pub dedup : List String → List SkillReference → List SkillReference
dedup seen [] = []
dedup seen (r ∷ refs) =
    let rest = dedup seen refs in
    let fresh = r ∷ dedup (r.name ∷ seen) refs in if has r.name seen then rest else fresh

-- The state of the loop over the skills.
pub record Best : Type 0 where
  pub skill : Option Skill
  pub score : ℕ
  pub keywords : List String
  pub refs : List SkillReference
  pub domain : String
  pub reasoning : String

join_five : ℕ → List String → String
join_five zero names = ""
join_five (suc n) [] = ""
join_five (suc n) (x ∷ []) = x
join_five (suc zero) (x ∷ names) = x
join_five (suc (suc n)) (x ∷ names) = append x (append ", " (join_five (suc n) names))

module _ (l : Letters) (prompt : String) where
  -- 2 for the word, 1 for the text inside another word, else 0.
  unfoldable pub points : String → ℕ
  unfolding word_search
  points kw = if word_search l same_char kw prompt then 2 else if occurs_in kw prompt then 1 else 0

  unfoldable pub sub_score : List String → ℕ
  sub_score [] = 0
  sub_score (kw ∷ kws) = points kw + sub_score kws

  -- One subcategory.
  unfoldable pub collect_one : Skill → Subcategory → List String → Collected → Collected
  unfolding select_reference
  collect_one skill sub kws c =
      if ltb 0 (sub_score kws)
      then select_reference skill sub (record c {
        score = c.score + sub_score kws;
        keywords = c.keywords ++ keep (λ kw. ltb 0 (points kw)) kws;
      })
      else c

  unfoldable pub collect : Skill → List (Subcategory × List String) → Collected → Collected
  unfolding collect_one
  collect skill [] c = c
  collect skill ((sub, kws) ∷ patterns) c = collect skill patterns (collect_one skill sub kws c)

  -- The words that the description and the prompt share.
  unfoldable pub common_words : Skill → List String
  unfolding find_words union
  common_words skill =
      keep (λ w. has w (find_words l (l.lower skill.metadata.description)))
        (union (find_words l prompt) [])

  -- The two branches for a skill: with rules of its own, and with none.
  unfoldable pub assess_by : List (Subcategory × List String) → Skill → String → Collected
  unfolding take_two
  assess_by [] skill domain = record {
    score = length (common_words skill);
    keywords = common_words skill;
    refs = take_two (map (λ r. r.1) skill.references);
    domain = domain;
  }
  assess_by (p ∷ ps) skill domain =
      collect skill (p ∷ ps) (record { score = 0; keywords = []; refs = []; domain = domain })

  -- The score, keywords, references and domain of a skill.
  unfoldable pub assess : Skill → String → Collected
  unfolding assess_by
  assess skill domain = assess_by (domain_patterns skill.metadata.name) skill domain

  reasoning_of : Skill → Collected → String
  unfolding join_five union
  reasoning_of skill c = append "Matched skill '" (
      append skill.metadata.name (
        append "' with score " (
          append (decimal c.score)
            (append ".0 via keywords: " (join_five 5 (union c.keywords []))))))

  -- The body of the loop behind the collection.
  unfoldable pub improve : Skill → Collected → Best → Best
  unfolding reasoning_of
  improve skill c b =
      if ltb b.score c.score
      then record {
        skill = some skill;
        score = c.score;
        keywords = c.keywords;
        refs = dedup [] c.refs;
        domain = c.domain;
        reasoning = reasoning_of skill c;
      }
      else record b { domain = c.domain }

  unfoldable pub scan_skills : List Skill → Best → Best
  scan_skills [] b = b
  scan_skills (skill ∷ skills) b = scan_skills skills (improve skill (assess skill b.domain) b)

-- `min(1.0, best_score / 10.0)` in tenths.
unfoldable pub normalize_score : ℕ → ℕ
normalize_score score = if ltb score 10 then score else 10

unfoldable pub no_match : SkillMatch
no_match = record {
  skill = none;
  score = 0;
  matched_keywords = [];
  relevant_references = [];
  suggested_domain = "SOFTWARE";
  reasoning = "No specialized domain skill triggered; routing to baseline software execution.";
}

-- A score below 0.1 is no match.
unfoldable pub match_of : Best → SkillMatch
unfolding no_match union
match_of b = elim b.skill [
  | none ↦ no_match
  | some skill ↦ if ltb (normalize_score b.score) 1 then no_match else record {
    skill = some skill;
    score = normalize_score b.score;
    matched_keywords = union b.keywords [];
    relevant_references = b.refs;
    suggested_domain = b.domain;
    reasoning = b.reasoning;
  }
]

-- `route`
unfoldable pub route : Letters → List Skill → String → SkillMatch
unfolding scan_skills match_of
route l skills prompt = match_of (
    scan_skills l (l.lower prompt) skills (record {
      skill = none;
      score = 0;
      keywords = [];
      refs = [];
      domain = "GENERAL";
      reasoning = "Default general engineering routing.";
    }))
