-- ===== src/Assurance/Ready.antt =====
-- What tapeout_ready of src/mind3/core/assurance.py claims of the reports.
use mathlib.Core.List.{Memᴰ}
use mind.Prelude.{
  String, true, false, not, List, [], ◌∷◌, none, some, all, keep, map, All, ◌≡◌, ◌↔◌, ◌⊎◌, inl, inr,
  refl, subst, Bool-cases, Option-cases, &&-true_iff, not-true_iff, arith,
}
use mind.Prelude.Keep.{is_empty, keep-is_empty, is_empty-keep, first_of-keep, is_empty-keep_mem}
use mind.Action.Paths.{is_relative_to}
use mind.Assurance.Readiness.{
  AssuranceCheck, Site, report_path, has_pattern, receipt_of_text, receipt_of, verify_readiness,
}

-- The report has no failure marker, and a success marker.
abbrev pub IsClean : Site → AssuranceCheck → String → Type 0
IsClean s c text =
    All (λ p. has_pattern s text p ≡ false) c.fail_patterns
    × ((p : String) × Memᴰ p c.pass_patterns × (has_pattern s text p ≡ true))

-- The check's report lies in the workspace and is clean, or it is missing and not required.
abbrev pub IsMet : Site → AssuranceCheck → Type 0
IsMet s c =
    (is_relative_to (report_path s c) s.root ≡ true)
    × (((text : String) × (s.read (report_path s c) ≡ some text) × IsClean s c text)
        ⊎ ((s.read (report_path s c) ≡ none) × (c.required ≡ false)))

module _ (s : Site) (c : AssuranceCheck) where
  receipt_of_text-IsClean :
      (text : String) → ((receipt_of_text s c (some text)).passed ≡ true) ↔ IsClean s c text
  unfolding receipt_of_text
  receipt_of_text-IsClean text =
      let fails = keep (has_pattern s text) c.fail_patterns in
      let passes = keep (has_pattern s text) c.pass_patterns in
      (
        λ h.
            let (f, p) = (&&-true_iff (is_empty fails) (not (is_empty passes))).0 h in
            (
              keep-is_empty (has_pattern s text) c.fail_patterns f,
              first_of-keep (has_pattern s text) c.pass_patterns ((not-true_iff _).0 p),
            ),
        λ (f, (p, m, e)). (&&-true_iff (is_empty fails) (not (is_empty passes))).1 (
          is_empty-keep (has_pattern s text) c.fail_patterns f,
          (not-true_iff _).1 (is_empty-keep_mem (has_pattern s text) p c.pass_patterns m e),
        ),
      )

  receipt_of_text_missing : ((receipt_of_text s c none).passed ≡ true) ↔ (c.required ≡ false)
  unfolding receipt_of_text
  receipt_of_text_missing = not-true_iff c.required

  receipt_of-passed : ((receipt_of s c).passed ≡ true) ↔ IsMet s c
  unfolding receipt_of
  receipt_of-passed = elim (Bool-cases (is_relative_to (report_path s c) s.root)) [
    | inr e ↦
        rw (e, receipt_of) (λ h. absurd (ground (arith, h)), λ h. absurd (ground (arith, h.0)))
    | inl e ↦ elim (Option-cases (s.read (report_path s c))) [
      | inl r ↦
          rw (e, r, receipt_of)
            (
              λ h. (refl, inr (refl, receipt_of_text_missing.0 h)),
              λ (_, k). elim k [
                | inl (x, q, z) ↦ absurd (ground (arith, q))
                | inr (q, z) ↦ receipt_of_text_missing.1 z
              ],
            )
      | inr (text, r) ↦
          rw (e, r, receipt_of)
            (
              λ h. (refl, inl (text, refl, (receipt_of_text-IsClean text).0 h)),
              λ (_, k). elim k [
                | inl (x, q, z) ↦
                    let same : x ≡ text = cc in
                    (receipt_of_text-IsClean text).1 (subst (IsClean s c) same z)
                | inr (q, z) ↦ absurd (ground (arith, q))
              ],
            )
    ]
  ]

all-IsMet :
    (s : Site) (checks : List AssuranceCheck)
    → (all (λ r. r.passed) (map (receipt_of s) checks) ≡ true) ↔ All (IsMet s) checks
all-IsMet s [] = (λ h. tt, λ h. refl)
all-IsMet s (c ∷ checks) =
    let first = receipt_of-passed s c in
    let rest = all-IsMet s checks in
    let both =
      &&-true_iff (receipt_of s c).passed (all (λ r. r.passed) (map (receipt_of s) checks)) in
    (λ h. let (f, k) = both.0 h in (first.0 f, rest.0 k), λ (f, k). both.1 (first.1 f, rest.1 k))

-- A run is tapeout ready exactly where every check of the policy is met: its report lies in the
-- workspace and holds a success marker and no failure marker, or it is missing and the check is not
-- required. A report outside the workspace is never met.
pub verify_readiness_iff :
    (s : Site) (checks : List AssuranceCheck)
    → ((verify_readiness s checks).0 ≡ true) ↔ All (IsMet s) checks
unfolding verify_readiness
verify_readiness_iff s checks = all-IsMet s checks
