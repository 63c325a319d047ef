-- ===== src/Driver/Tamper.antt =====
-- What the hash chain of the transcript (src/mind3/core/types.py, TraceRecord) protects.
use Prim.Native.String.{◌++◌ as append}
use text.Mathlib.Text.{◌==◌ as str_eq}
use text.Mathlib.TextEquality.{eq_iff}
use mind.Prelude.{
  ℕ, suc, ℕ_discrete, String, List, [], ◌∷◌, ◌≡◌, ◌≢◌, refl, sym, ◌∙◌, ap, ◌⊎◌, inl, inr, length,
  Bool-cases, arith,
}
use mathlib.Core.List.{Memᴰ}
use mathlib.Core.List.Memᴰ.{head, tail}
use mind.Signoff.Report.{GateReport, ExitCode, Metric}
use mind.Driver.Trace.{
  Payload, RecordBody, TraceRecord, Crypto, body_hash, body_of, compute_expected_hash,
}
use mind.Driver.Chain.{IsChain, last_hash}

String-discrete : Discrete String
String-discrete s t = elim (Bool-cases (str_eq s t)) [
  | inl p ↦ yes ((eq_iff s t).0 p)
  | inr p ↦ no (λ e. ground (arith, (eq_iff s t).1 e))
]

ExitCode-discrete : Discrete ExitCode
ExitCode-discrete = hlevel ℕ_discrete

Metric-discrete : Discrete Metric
Metric-discrete = hlevel ExitCode-discrete

GateReport-discrete : Discrete GateReport
GateReport-discrete = hlevel (ExitCode-discrete, Metric-discrete, String-discrete)

Payload-discrete : Discrete Payload
Payload-discrete = hlevel (ℕ_discrete, GateReport-discrete, String-discrete)

RecordBody-discrete : Discrete RecordBody
RecordBody-discrete = hlevel (ℕ_discrete, Payload-discrete, String-discrete)

-- What a record's hash has to be taken of: the hash before it, and then its body as canonical JSON.
abbrev pub hashed_text : Crypto → TraceRecord → String
hashed_text k r = append r.prev_hash (k.canonical_json (body_of r))

-- A record of each transcript: their texts differ and have one SHA-256 digest, or their bodies differ
-- and have one text.
pub record Collision (k : Crypto) (rs qs : List TraceRecord) : Type 0 where
  pub left : TraceRecord
  pub right : TraceRecord
  pub left_in : Memᴰ left rs
  pub right_in : Memᴰ right qs
  pub collide :
      ((hashed_text k left ≢ hashed_text k right)
        × (k.sha256 (hashed_text k left) ≡ k.sha256 (hashed_text k right)))
      ⊎ ((body_of left ≢ body_of right) × (hashed_text k left ≡ hashed_text k right))

behind :
    {k : Crypto} {rs qs : List TraceRecord} {r q : TraceRecord}
    → Collision k rs qs
    → Collision k (r ∷ rs) (q ∷ qs)
behind c = record {
  left = c.left;
  right = c.right;
  left_in = tail c.left_in;
  right_in = tail c.right_in;
  collide = c.collide;
}

same_record : (r q : TraceRecord) → body_of r ≡ body_of q → r.current_hash ≡ q.current_hash → r ≡ q
same_record r q b e = ground arith

chain_determined :
    (k : Crypto) (h h' : String) (i i' : ℕ) (rs qs : List TraceRecord)
    → IsChain k h i rs
    → IsChain k h' i' qs
    → length rs ≡ length qs
    → last_hash h rs ≡ last_hash h' qs
    → ((rs ≡ qs) × (h ≡ h')) ⊎ Collision k rs qs
unfolding compute_expected_hash body_hash
chain_determined k h h' i i' [] [] c c' n e = inl (refl, e)
chain_determined k h h' i i' [] (q ∷ qs) c c' n e = absurd (omega arith)
chain_determined k h h' i i' (r ∷ rs) [] c c' n e = absurd (omega arith)
chain_determined k h h' i i' (r ∷ rs) (q ∷ qs) c c' n e =
    elim (chain_determined k r.current_hash q.current_hash (suc i) (suc i') rs qs c.4 c'.4
      (omega arith) e) [
        | inr collision ↦ inr (behind collision)
        | inl both ↦ elim (RecordBody-discrete (body_of r) (body_of q)) [
          | yes p ↦
              inl (cc (same_record r q p both.1, both.0), sym c.1 ∙ ap (λ b. b.prev_hash) p ∙ c'.1)
          | no p ↦ inr (record {
            left = r;
            right = q;
            left_in = head refl;
            right_in = head refl;
            collide = elim (String-discrete (hashed_text k r) (hashed_text k q)) [
              | yes same ↦ inr (p, same)
              | no other ↦ inl (other, sym c.2 ∙ both.1 ∙ c'.2)
            ];
          })
        ]
      ]

-- Two chained transcripts of one length that end in one hash are the same, record by record, or a
-- record of each exhibits two different texts (the hash before it, then its body as canonical JSON)
-- with one SHA-256 digest, or two different bodies with one such text: whatever is changed in a
-- record, and however the hashes behind it are recomputed, the last hash changes or SHA-256 or the
-- canonical JSON fails to tell two texts or bodies of the transcripts apart.
pub chain_tamper_evident :
    (k : Crypto) (h : String) (rs qs : List TraceRecord)
    → IsChain k h 0 rs
    → IsChain k h 0 qs
    → length rs ≡ length qs
    → last_hash h rs ≡ last_hash h qs
    → (rs ≡ qs) ⊎ Collision k rs qs
chain_tamper_evident k h rs qs c c' n e = elim (chain_determined k h h 0 0 rs qs c c' n e) [
  | inl both ↦ inl both.0
  | inr collision ↦ inr collision
]
