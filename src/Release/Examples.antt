-- ===== src/Release/Examples.antt =====
-- A release of src/mind3/core/release.py.
use mind.Prelude.{String, true, false, [], ◌∷◌, none, ◌≡◌, ◌↔◌, refl}
use mind.Formal.Scan.{starts_with}
use mind.Driver.Trace.{end, field, flag}
use mind.Driver.Host.{ok}
use mind.Formal.Token.{is_space}
use mind.Formal.Strip.{strip, strip_left, strip_right}
use mind.Release.Bundle.{
  ArtifactReleaseBundle, Registry, has_placeholder, timestamp_verdict, verify_integrity, no_fields,
  is_well_formed, blocked_or, create_release_bundle,
}
use mind.Release.Integrity.{
  IsComplete, IsApproved, bundle_of, create_release_bundle_iff, create_release_bundle-rtl,
}

abbrev hash : String
hash = "0123456789abcdef0123456789abcdef0123456789abcdef0123456789abcdef"

abbrev registry : Registry
registry = record {
  compute_evidence_hash = λ p. hash;
  timestamp_error = λ t. none;
  unicode = record { word = λ n. false; digit = λ n. false; space = λ n. false };
}

abbrev fields : ArtifactReleaseBundle
fields = record {
  bundle_id = "b1";
  rtl = "module top; endmodule";
  specification = field "top" (flag true) end;
  verification_evidence = field "passed" (flag true) end;
  tool_versions = ("yosys", "0.40") ∷ [];
  run_id = "r1";
  commit_sha = "0123abc";
  evidence_hash = "";
  approval_record = record {
    reviewer = "A";
    approval_id = "1";
    approved_at = "2026-01-01T00:00:00Z";
    evidence_hash = hash;
    benchmark_summary_sha256 = hash;
    scope = "all";
  };
}

released : create_release_bundle registry fields ≡ ok (bundle_of registry fields)
unfolding create_release_bundle strip no_fields is_well_formed blocked_or verify_integrity
    strip_right strip_left is_space has_placeholder starts_with timestamp_verdict
released = refl

create_release_bundle_iff_example :
    (create_release_bundle registry fields ≡ ok (bundle_of registry fields))
    ↔ (IsComplete registry fields × IsApproved registry (bundle_of registry fields))
create_release_bundle_iff_example = create_release_bundle_iff registry fields

create_release_bundle-rtl_example :
    let b = record (bundle_of registry fields) { rtl = "module other; endmodule" } in
    (is_well_formed b ≡ true) × ((verify_integrity registry b).0 ≡ true)
create_release_bundle-rtl_example =
    create_release_bundle-rtl registry fields "module other; endmodule" released refl
