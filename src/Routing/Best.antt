-- ===== src/Routing/Best.antt =====
-- Which skill `route` of src/mind3/skills/router.py answers with.
use mind.Prelude.{
  ℕ, ◌+◌, ◌<◌, ◌≤◌, String, true, false, List, [], ◌∷◌, ◌++◌, length, All, All-map, Option, none,
  some, if◌then◌else◌, ltb, ltb→lt, ◌≡◌, refl, ap, subst, ◌∙◌, ◌⊎◌, inl, inr, Bool-cases, arith,
}
use mind.Routing.Words.{Letters}
use mind.Routing.Skills.{
  Skill, SkillReference, SkillMatch, Subcategory, rtl, physical_design, cdc_dft, device_concepts,
  report_structure, timeline_chart, domain_patterns,
}
use mind.Routing.Router.{
  Collected, add_reference, always_suggest, select_reference, sub_score, collect_one, collect,
  common_words, assess_by, assess, Best, improve, scan_skills, normalize_score, match_of, no_match,
  route,
}

add_reference-score :
    (r : Option SkillReference) (d : String) (c : Collected) → (add_reference r d c).score ≡ c.score
unfolding add_reference
add_reference-score none d c = refl
add_reference-score (some r) d c = refl

always_suggest-score :
    (r : Option SkillReference) (d : String) (c : Collected)
    → (always_suggest r d c).score ≡ c.score
unfolding always_suggest
always_suggest-score none d c = refl
always_suggest-score (some r) d c = refl

select_reference-score :
    (skill : Skill) (sub : Subcategory) (c : Collected)
    → (select_reference skill sub c).score ≡ c.score
unfolding select_reference
select_reference-score skill rtl c = add_reference-score _ _ c
select_reference-score skill physical_design c = add_reference-score _ _ c
select_reference-score skill cdc_dft c = always_suggest-score _ _ c
select_reference-score skill device_concepts c = add_reference-score _ _ c
select_reference-score skill report_structure c = add_reference-score _ _ c
select_reference-score skill timeline_chart c = always_suggest-score _ _ c

module _ (l : Letters) (prompt : String) where
  -- The points of all keywords of a table.
  pub pattern_points : List (Subcategory × List String) → ℕ
  pattern_points [] = 0
  pattern_points ((sub, kws) ∷ ps) = sub_score l prompt kws + pattern_points ps

  points_by : List (Subcategory × List String) → Skill → ℕ
  points_by [] skill = length (common_words l prompt skill)
  points_by (p ∷ ps) skill = pattern_points (p ∷ ps)

  -- The points of a skill: those of its table, or the number of words that it shares.
  pub skill_points : Skill → ℕ
  unfolding points_by
  skill_points skill = points_by (domain_patterns skill.metadata.name) skill

  collect_one-score :
      (skill : Skill) (sub : Subcategory) (kws : List String) (c : Collected)
      → (collect_one l prompt skill sub kws c).score ≡ c.score + sub_score l prompt kws
  unfolding collect_one
  collect_one-score skill sub kws c = elim (Bool-cases (ltb 0 (sub_score l prompt kws))) [
    | inl p ↦ rw (p, select_reference-score) refl
    | inr p ↦ rw p (omega (arith, zero_of (sub_score l prompt kws) p))
  ]
    where
      zero_of : (n : ℕ) → ltb 0 n ≡ false → n ≡ 0
      zero_of n h = ground arith

  collect-score :
      (skill : Skill) (ps : List (Subcategory × List String)) (c : Collected)
      → (collect l prompt skill ps c).score ≡ c.score + pattern_points ps
  unfolding collect pattern_points
  collect-score skill [] c = omega arith
  collect-score skill ((sub, kws) ∷ ps) c = omega (
    arith,
    collect-score skill ps (collect_one l prompt skill sub kws c),
    collect_one-score skill sub kws c,
  )

  assess_by-score :
      (t : List (Subcategory × List String)) (skill : Skill) (d : String)
      → (assess_by l prompt t skill d).score ≡ points_by t skill
  unfolding assess_by points_by
  assess_by-score [] skill d = refl
  assess_by-score (p ∷ ps) skill d = omega (
    arith,
    collect-score skill (p ∷ ps) (record { score = 0; keywords = []; refs = []; domain = d }),
  )

  assess-score : (skill : Skill) (d : String) → (assess l prompt skill d).score ≡ skill_points skill
  unfolding assess skill_points
  assess-score skill d = assess_by-score (domain_patterns skill.metadata.name) skill d

  -- The skill is the first of the list with the most points.
  abbrev pub IsFirstBest : List Skill → Skill → Type 0
  IsFirstBest skills skill =
      (before : List Skill) × (after : List Skill) × (skills ≡ before ++ skill ∷ after)
      × All (λ t. skill_points t < skill_points skill) before
      × All (λ t. skill_points t ≤ skill_points skill) after

  -- What the loop makes of the best so far.
  Kept : List Skill → Best → Best → Type 0
  Kept skills b r =
      (r.skill ≡ b.skill) × (r.score ≡ b.score) × All (λ t. skill_points t ≤ b.score) skills

  Chosen : List Skill → Best → Best → Type 0
  Chosen skills b r =
      (skill : Skill) × (r.skill ≡ some skill)
      × (r.score ≡ skill_points skill)
      × (b.score < skill_points skill)
      × IsFirstBest skills skill

  improve-better :
      (t : Skill) (c : Collected) (b : Best)
      → ltb b.score c.score ≡ true
      → ((improve l prompt t c b).skill ≡ some t) × ((improve l prompt t c b).score ≡ c.score)
  unfolding improve
  improve-better t c b p = rw p (refl, refl)

  improve-worse :
      (t : Skill) (c : Collected) (b : Best)
      → ltb b.score c.score ≡ false
      → ((improve l prompt t c b).skill ≡ b.skill) × ((improve l prompt t c b).score ≡ b.score)
  unfolding improve
  improve-worse t c b p = rw p (refl, refl)

  not_lt : (a b : ℕ) → ltb a b ≡ false → b ≤ a
  not_lt a b h = ground arith

  scan_skills-cases :
      (skills : List Skill) (b : Best)
      → Kept skills b (scan_skills l prompt skills b)
        ⊎ Chosen skills b (scan_skills l prompt skills b)
  unfolding scan_skills Kept Chosen
  scan_skills-cases [] b = inl (refl, refl, tt)
  scan_skills-cases (t ∷ skills) b =
      let c = assess l prompt t b.domain in
      let e = assess-score t b.domain in
      elim (Bool-cases (ltb b.score c.score)) [
        | inl p ↦
            let lt = ltb→lt b.score c.score p in
            let (f, g) = improve-better t c b p in
            elim (scan_skills-cases skills (improve l prompt t c b)) [
              | inl (s, n, a) ↦ inr (
                t,
                s ∙ f,
                n ∙ g ∙ e,
                omega (arith, e, lt),
                (
                  [],
                  skills,
                  refl,
                  tt,
                  subst (λ n'. All (λ u. skill_points u ≤ n') skills) (g ∙ e) a,
                ),
              )
              | inr (skill, s, n, m, (before, after, q, x, y)) ↦ inr (
                skill,
                s,
                n,
                omega (arith, g, e, lt, m),
                (t ∷ before, after, ap (λ z. t ∷ z) q, (omega (arith, g, e, m), x), y),
              )
            ]
        | inr p ↦
            let ge = not_lt b.score c.score p in
            let (f, g) = improve-worse t c b p in
            elim (scan_skills-cases skills (improve l prompt t c b)) [
              | inl (s, n, a) ↦ inl (
                s ∙ f,
                n ∙ g,
                (omega (arith, e, ge), subst (λ n'. All (λ u. skill_points u ≤ n') skills) g a),
              )
              | inr (skill, s, n, m, (before, after, q, x, y)) ↦ inr (
                skill,
                s,
                n,
                omega (arith, g, m),
                (t ∷ before, after, ap (λ z. t ∷ z) q, (omega (arith, g, e, ge, m), x), y),
              )
            ]
      ]

normalize_score-pos : (n : ℕ) → 0 < n → ltb (normalize_score n) 1 ≡ false
unfolding normalize_score
normalize_score-pos n p = ground arith

match_of-some :
    (b : Best) (skill : Skill)
    → b.skill ≡ some skill
    → 0 < b.score
    → ((match_of b).skill ≡ some skill) × ((match_of b).score ≡ normalize_score b.score)
unfolding match_of
match_of-some b skill s p = rw (s, match_of, normalize_score-pos b.score p) (refl, refl)

match_of-none : (b : Best) → b.skill ≡ none → match_of b ≡ no_match
unfolding match_of
match_of-none b s = rw (s, match_of) refl

-- The answer is either the first skill with the most points, which are not 0, with a tenth for each
-- point and at most 1; or, where no skill has a point, no skill, with score 0 and no keyword and no
-- reference.
pub route-Answer :
    (l : Letters) (skills : List Skill) (prompt : String)
    → let r = route l skills prompt in
      ((skill : Skill) × (r.skill ≡ some skill)
        × IsFirstBest l (l.lower prompt) skills skill
        × (0 < skill_points l (l.lower prompt) skill)
        × (r.score ≡ (let n = skill_points l (l.lower prompt) skill in if ltb n 10 then n else 10)))
      ⊎ ((r.skill ≡ none)
          × (r.score ≡ 0)
          × (r.matched_keywords ≡ [])
          × (r.relevant_references ≡ [])
          × All (λ t. skill_points l (l.lower prompt) t ≡ 0) skills)
unfolding route match_of no_match Kept Chosen normalize_score
route-Answer l skills prompt =
    let lower = l.lower prompt in
    let b = scan_skills l lower skills start in
    elim (scan_skills-cases l lower skills start) [
      | inl (s, n, a) ↦
          let e = match_of-none b s in
          inr (
            ap (λ (m : SkillMatch). m.skill) e,
            ap (λ (m : SkillMatch). m.score) e,
            ap (λ (m : SkillMatch). m.matched_keywords) e,
            ap (λ (m : SkillMatch). m.relevant_references) e,
            All-map (λ t h. omega arith) skills a,
          )
      | inr (skill, s, n, m, f) ↦
          let (k, z) = match_of-some b skill s (omega (arith, n, m)) in
          inl (skill, k, f, omega arith, z ∙ ap normalize_score n)
    ]
  where
    start : Best
    start = record {
      skill = none;
      score = 0;
      keywords = [];
      refs = [];
      domain = "GENERAL";
      reasoning = "Default general engineering routing.";
    }
