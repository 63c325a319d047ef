-- ===== src/Routing/Examples.antt =====
-- Requests and skills in src/mind3/core/intent.py and src/mind3/skills/router.py.
use Prim.Native.Char.{code}
use mind.Prelude.{
  ◌<◌, String, false, List, [], ◌∷◌, All, Option, none, some, if◌then◌else◌, ltb, ◌==◌, ◌≡◌, ◌↔◌,
  ◌⊎◌,
}
use mind.Routing.Words.{Letters}
use mind.Routing.Skills.{Skill}
use mind.Routing.Router.{route}
use mind.Routing.Intent.{
  general, Message, Options, classify_options, keyword_list, verb_list, token_of, messages_for,
  route_intent,
}
use mind.Routing.Best.{IsFirstBest, skill_points, route-Answer}
use mind.Routing.Gate.{LacksWords, route_intent-general_iff}

-- Character tables of ASCII, case kept.
abbrev ascii : Letters
ascii = record {
  unicode = record { word = λ c. false; digit = λ c. false; space = λ c. false };
  same = λ a b. code a == code b;
  lower = λ s. s;
  upper = λ s. s;
}

abbrev reply : List Message → Options → Option String
reply m o = some "General."

route_intent-general_iff_example : (route_intent ascii reply "what is a latch" ≡ general) ↔ (
    (LacksWords ascii "what is a latch" keyword_list ⊎ LacksWords ascii "what is a latch" verb_list)
    × ((raw : String) × (reply (messages_for "what is a latch") classify_options ≡ some raw)
        × (token_of raw ≡ "GENERAL")))
route_intent-general_iff_example = route_intent-general_iff ascii reply "what is a latch"

abbrev painter : Skill
painter = record {
  metadata = record {
    name = "painter";
    description = "paints walls";
    tags = [];
    version = "1.0.0";
  };
  instructions = "";
  references = [];
  scripts = [];
  assets = [];
  archive_path = none;
}

route-Answer_example :
    let r = route ascii (painter ∷ []) "paints" in
    ((skill : Skill) × (r.skill ≡ some skill)
      × IsFirstBest ascii "paints" (painter ∷ []) skill
      × (0 < skill_points ascii "paints" skill)
      × (r.score ≡ (let n = skill_points ascii "paints" skill in if ltb n 10 then n else 10)))
    ⊎ ((r.skill ≡ none)
        × (r.score ≡ 0)
        × (r.matched_keywords ≡ [])
        × (r.relevant_references ≡ [])
        × All (λ t. skill_points ascii "paints" t ≡ 0) (painter ∷ []))
route-Answer_example = route-Answer ascii (painter ∷ []) "paints"
