-- ===== src/Release/Bundle.antt =====
-- ReleaseApproval, ArtifactReleaseBundle and create_release_bundle of src/mind3/core/release.py. The
-- digest of the canonical JSON, the parser of timestamps and the Unicode tables are parameters.
use Prim.Native.Char.{code}
use Prim.Native.String.{◌++◌ as append, count}
use text.Mathlib.Text.{◌==◌ as str_eq}
use mind.Prelude.{
  String, Bool, true, false, not, ◌&&◌, ◌||◌, List, [], ◌∷◌, Option, none, some, any, if◌then◌else◌,
  ◌==◌, ltb,
}
use mind.Prelude.Keep.{is_empty}
use mind.Formal.Scan.{starts_with}
use mind.Formal.Token.{Unicode}
use mind.Formal.Strip.{strip}
use mind.Driver.Trace.{Payload, end, field}
use mind.Driver.Host.{Result, ok, raised}

pub record ReleaseApproval : Type 0 where
  pub reviewer : String
  pub approval_id : String
  pub approved_at : String
  pub evidence_hash : String
  pub benchmark_summary_sha256 : String
  pub scope : String

-- `model_post_init`: a missing hash is the other one.
unfoldable pub model_post_init : ReleaseApproval → ReleaseApproval
model_post_init a =
    if str_eq a.benchmark_summary_sha256 "" && not (str_eq a.evidence_hash "")
    then record a { benchmark_summary_sha256 = a.evidence_hash }
    else if str_eq a.evidence_hash "" && not (str_eq a.benchmark_summary_sha256 "")
    then record a { evidence_hash = a.benchmark_summary_sha256 }
    else a

pub record ArtifactReleaseBundle : Type 0 where
  pub bundle_id : String
  pub rtl : String
  pub specification : Payload
  pub verification_evidence : Payload
  pub tool_versions : List (String × String)
  pub run_id : String
  pub commit_sha : String
  pub evidence_hash : String
  pub approval_record : ReleaseApproval

-- SHA-256 of the canonical JSON, in hexadecimal digits; the error of `datetime.fromisoformat`, if
-- it raises; and Python's white space.
pub record Registry : Type 0 where
  pub compute_evidence_hash : Payload → String
  pub timestamp_error : String → Option String
  pub unicode : Unicode

-- `s.replace("Z", "+00:00")`
unfoldable pub replace_z : String → String
replace_z String.[] = ""
replace_z (String.◌∷◌ c s) =
    if code c == 90 then append "+00:00" (replace_z s) else String.◌∷◌ c (replace_z s)

-- A field of the approval is still the template's.
unfoldable pub has_placeholder : ReleaseApproval → Bool
has_placeholder a =
    any (starts_with "REPLACE_WITH_") (a.reviewer ∷ a.approval_id ∷ a.approved_at ∷ [])

unfoldable pub timestamp_verdict : Option String → Bool × String
timestamp_verdict none = (true, "Integrity verified")
timestamp_verdict (some exc) = (false, append "Invalid ISO-8601 approved_at timestamp: " exc)

-- `verify_integrity`
unfoldable pub verify_integrity : Registry → ArtifactReleaseBundle → Bool × String
verify_integrity g b =
    let expected = g.compute_evidence_hash b.verification_evidence in
    if not (str_eq b.evidence_hash expected)
    then (
      false,
      append "Evidence hash mismatch: declared "
          (append b.evidence_hash (append " != computed " expected)),
    )
    else if not (str_eq b.approval_record.evidence_hash b.evidence_hash)
    then (
      false,
      append "Approval record evidence hash mismatch: approval="
          (append b.approval_record.evidence_hash (append " != bundle=" b.evidence_hash)),
    )
    else if has_placeholder b.approval_record
    then (false, "Approval record contains unreplaced template placeholders")
    else timestamp_verdict (g.timestamp_error (replace_z b.approval_record.approved_at))

unfoldable pub no_fields : Payload → Bool
no_fields end = true
no_fields (field k v p) = false

-- The least lengths of the bundle's fields, which its construction checks.
unfoldable pub is_well_formed : ArtifactReleaseBundle → Bool
is_well_formed b =
    not (str_eq b.bundle_id "")
    && not (ltb (count b.rtl) 10)
    && not (no_fields b.specification)
    && not (no_fields b.verification_evidence)
    && not (is_empty b.tool_versions)
    && not (str_eq b.run_id "")
    && not (ltb (count b.commit_sha) 7)
    && count b.evidence_hash == 64

unfoldable pub blocked_or : Bool × String → ArtifactReleaseBundle → Result ArtifactReleaseBundle
blocked_or (true, reason) b = ok b
blocked_or (false, reason) b = raised (append "RELEASE_BLOCKED: " reason)

-- `create_release_bundle`, on the bundle's fields; its `evidence_hash` is not read.
unfoldable pub create_release_bundle :
    Registry → ArtifactReleaseBundle → Result ArtifactReleaseBundle
create_release_bundle g f =
    let b = record f { evidence_hash = g.compute_evidence_hash f.verification_evidence } in
    if str_eq f.rtl "" || ltb (count (strip g.unicode f.rtl)) 10
    then raised "RELEASE_BLOCKED: RTL content is missing or too short."
    else if no_fields f.specification
    then raised "RELEASE_BLOCKED: specification is empty."
    else if no_fields f.verification_evidence
    then raised "RELEASE_BLOCKED: verification evidence is missing."
    else if is_empty f.tool_versions
    then raised "RELEASE_BLOCKED: tool versions are missing."
    else if str_eq f.run_id ""
    then raised "RELEASE_BLOCKED: run_id is missing."
    else if str_eq f.commit_sha ""
    then raised "RELEASE_BLOCKED: commit_sha is missing."
    else if not (is_well_formed b)
    then raised "ValidationError"
    else blocked_or (verify_integrity g b) b
