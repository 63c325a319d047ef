-- ===== src/Release/Integrity.antt =====
-- What a release bundle of src/mind3/core/release.py guarantees, and what it leaves open.
use Prim.Native.String.{count}
use text.Mathlib.Text.{◌==◌ as str_eq}
use text.Mathlib.TextEquality.{eq_iff}
use mind.Prelude.{
  String, Bool, true, false, ◌||◌, Option, none, some, ltb, ◌≡◌, ◌↔◌, refl, sym, ◌∙◌, inl, inr,
  Bool-cases, arith,
}
use mind.Prelude.Keep.{is_empty}
use mind.Driver.Host.{ok}
use mind.Formal.Strip.{strip}
use mind.Release.Bundle.{
  ArtifactReleaseBundle, Registry, replace_z, has_placeholder, timestamp_verdict, verify_integrity,
  no_fields, is_well_formed, blocked_or, create_release_bundle,
}

-- The approval names this evidence, is no template, and has a timestamp.
abbrev pub IsApproved : Registry → ArtifactReleaseBundle → Type 0
IsApproved g b =
    (b.evidence_hash ≡ g.compute_evidence_hash b.verification_evidence)
    × (b.approval_record.evidence_hash ≡ b.evidence_hash)
    × (has_placeholder b.approval_record ≡ false)
    × (g.timestamp_error (replace_z b.approval_record.approved_at) ≡ none)

timestamp_verdict-none : (o : Option String) → ((timestamp_verdict o).0 ≡ true) ↔ (o ≡ none)
unfolding timestamp_verdict
timestamp_verdict-none none = (λ h. refl, λ h. refl)
timestamp_verdict-none (some e) = (λ h. absurd (ground (arith, h)), λ h. absurd (ground (arith, h)))

verify_integrity-IsApproved :
    (g : Registry) (b : ArtifactReleaseBundle) → ((verify_integrity g b).0 ≡ true) ↔ IsApproved g b
unfolding verify_integrity
verify_integrity-IsApproved g b =
    let digest = g.compute_evidence_hash b.verification_evidence in
    let error = g.timestamp_error (replace_z b.approval_record.approved_at) in
    elim (Bool-cases (str_eq b.evidence_hash digest)) [
      | inr e ↦ rw e (
        λ h. absurd (ground (arith, h)),
        λ h. absurd (ground (arith, (eq_iff b.evidence_hash digest).1 h.0, e)),
      )
      | inl e ↦ elim (Bool-cases (str_eq b.approval_record.evidence_hash b.evidence_hash)) [
        | inr f ↦
            rw (e, f)
              (
                λ h. absurd (ground (arith, h)),
                λ h. absurd (
                    ground
                      (arith, (eq_iff b.approval_record.evidence_hash b.evidence_hash).1 h.1, f)),
              )
        | inl f ↦ elim (Bool-cases (has_placeholder b.approval_record)) [
          | inl p ↦
              rw (e, f, p) (λ h. absurd (ground (arith, h)), λ h. absurd (ground (arith, h.2)))
          | inr p ↦
              rw (e, f, p)
                (
                  λ h. (
                    (eq_iff b.evidence_hash digest).0 e,
                    (eq_iff b.approval_record.evidence_hash b.evidence_hash).0 f,
                    refl,
                    (timestamp_verdict-none error).0 h,
                  ),
                  λ h. (timestamp_verdict-none error).1 h.3,
                )
        ]
      ]
    ]

-- The bundle that the fields make.
abbrev pub bundle_of : Registry → ArtifactReleaseBundle → ArtifactReleaseBundle
bundle_of g f = record f { evidence_hash = g.compute_evidence_hash f.verification_evidence }

blocked_or-ok :
    (v : Bool × String) (b : ArtifactReleaseBundle) → (blocked_or v b ≡ ok b) ↔ (v.0 ≡ true)
unfolding blocked_or
blocked_or-ok (true, r) b = (λ h. refl, λ h. refl)
blocked_or-ok (false, r) b = (λ h. absurd (ground (arith, h)), λ h. absurd (ground (arith, h)))

-- The RTL is long enough, and no field of the bundle is shorter than its least length.
abbrev pub IsComplete : Registry → ArtifactReleaseBundle → Type 0
IsComplete g f =
    ((str_eq f.rtl "" || ltb (count (strip g.unicode f.rtl)) 10) ≡ false)
    × (is_well_formed (bundle_of g f) ≡ true)

commit_named :
    (g : Registry) (f : ArtifactReleaseBundle) → IsComplete g f → str_eq f.commit_sha "" ≡ false
unfolding is_well_formed
commit_named g f c = elim (Bool-cases (str_eq f.commit_sha "")) [
  | inr e ↦ e
  | inl e ↦
      let short : ltb (count f.commit_sha) 7 ≡ true = rw ((eq_iff f.commit_sha "").0 e) refl in
      let formed = c.1 in absurd (ground arith)
]

fields_present :
    (b : ArtifactReleaseBundle)
    → is_well_formed b ≡ true
    → (no_fields b.specification ≡ false)
      × (no_fields b.verification_evidence ≡ false)
      × (is_empty b.tool_versions ≡ false)
      × (str_eq b.run_id "" ≡ false)
unfolding is_well_formed
fields_present b h = (ground arith, ground arith, ground arith, ground arith)

guards_pass :
    (g : Registry) (f : ArtifactReleaseBundle)
    → IsComplete g f
    → create_release_bundle g f ≡ blocked_or (verify_integrity g (bundle_of g f)) (bundle_of g f)
unfolding create_release_bundle
guards_pass g f c =
    let (spec, evidence, tools, run) = fields_present (bundle_of g f) c.1 in
    let text = c.0 in
    let formed = c.1 in
    let commit = commit_named g f c in rw (text, spec, evidence, tools, run, commit, formed) refl

guards_passed :
    (g : Registry) (f : ArtifactReleaseBundle)
    → create_release_bundle g f ≡ ok (bundle_of g f)
    → IsComplete g f
unfolding create_release_bundle
guards_passed g f h = (ground arith, ground arith)

-- A bundle is released exactly where its RTL has ten characters between the white space, no field is
-- shorter than its least length, and its approval names the hash of the evidence, has no field of
-- the template left and has a valid timestamp. The released bundle has the hash of its evidence.
pub create_release_bundle_iff :
    (g : Registry) (f : ArtifactReleaseBundle)
    → (create_release_bundle g f ≡ ok (bundle_of g f))
      ↔ (IsComplete g f × IsApproved g (bundle_of g f))
create_release_bundle_iff g f =
    let b = bundle_of g f in
    let released = blocked_or-ok (verify_integrity g b) b in
    (
      λ h.
          let c = guards_passed g f h in
          (c, (verify_integrity-IsApproved g b).0 (released.0 (sym (guards_pass g f c) ∙ h))),
      λ (c, a). guards_pass g f c ∙ released.1 ((verify_integrity-IsApproved g b).1 a),
    )

-- A released bundle whose RTL is replaced by another text of ten characters is still well formed
-- and passes the integrity check: neither the hash nor the approval covers the RTL.
pub create_release_bundle-rtl :
    (g : Registry) (f : ArtifactReleaseBundle) (rtl : String)
    → create_release_bundle g f ≡ ok (bundle_of g f)
    → ltb (count rtl) 10 ≡ false
    → let b = record (bundle_of g f) { rtl = rtl } in
      (is_well_formed b ≡ true) × ((verify_integrity g b).0 ≡ true)
unfolding is_well_formed
create_release_bundle-rtl g f rtl h long =
    let (c, a) = (create_release_bundle_iff g f).0 h in
    let formed = c.1 in
    (ground arith, (verify_integrity-IsApproved g (record (bundle_of g f) { rtl = rtl })).1 a)
