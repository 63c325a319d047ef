-- ===== src/Driver/Frame.antt =====
-- What tracing (src/mind3/core/driver.py, _emit_trace) changes of a driver, and what it leaves alone.
use mind.Prelude.{
  String, List, [], ◌∷◌, ◌++◌, ◌≡◌, refl, ◌∙◌, ap, inl, inr, Option, none, some, Bool-cases,
}
use mind.Driver.Trace.{
  Phase, Val, Payload, field, get_field, TraceRecord, Crypto, Ledger, attested, next_record,
  emit_trace,
}
use mind.Driver.State.{Driver, emit}

-- The last record of a transcript.
abbrev pub last_record : List TraceRecord → Option TraceRecord
last_record [] = none
last_record (r ∷ []) = some r
last_record (r ∷ q ∷ rs) = last_record (q ∷ rs)

abbrev pub phase_of : Option TraceRecord → Option Phase
phase_of none = none
phase_of (some r) = some r.phase

-- The phase that was traced last.
abbrev pub last_phase : {W : Type 0} → Driver W → Option Phase
last_phase d = phase_of (last_record d.ledger.transcript)

abbrev pub field_of : String → Option TraceRecord → Option Val
field_of key none = none
field_of key (some r) = get_field key r.event.payload

-- The final status that was traced last.
abbrev pub final_status : {W : Type 0} → Driver W → Option Val
final_status d = field_of "final_status" (last_record d.ledger.transcript)

last_record-append : (rs : List TraceRecord) (r : TraceRecord) → last_record (rs ++ r ∷ []) ≡ some r
last_record-append [] r = refl
last_record-append (q ∷ []) r = refl
last_record-append (q ∷ p ∷ rs) r = last_record-append (p ∷ rs) r

get_field-attested :
    (k : Crypto) (l : Ledger) (v : Val) (payload : Payload)
    → get_field "final_status" (attested k l (field "final_status" v payload)) ≡ some v
unfolding attested get_field
get_field-attested k l v payload = elim (Bool-cases l.loopback_only) [
  | inl p ↦ rw (p, attested) refl
  | inr p ↦ rw (p, attested) refl
]

module _ {W : Type 0} (k : Crypto) where
  pub emit-world :
      (phase : Phase) (payload : Payload) (d : Driver W) → (emit k phase payload d).world ≡ d.world
  unfolding emit
  emit-world phase payload d = refl

  pub emit-workspace :
      (phase : Phase) (payload : Payload) (d : Driver W)
      → (emit k phase payload d).workspace ≡ d.workspace
  unfolding emit
  emit-workspace phase payload d = refl

  pub emit-snapshot :
      (phase : Phase) (payload : Payload) (d : Driver W)
      → (emit k phase payload d).snapshot ≡ d.snapshot
  unfolding emit
  emit-snapshot phase payload d = refl

  pub emit-turn :
      (phase : Phase) (payload : Payload) (d : Driver W)
      → (emit k phase payload d).ledger.turn ≡ d.ledger.turn
  unfolding emit emit_trace
  emit-turn phase payload d = refl

  pub emit-last_record :
      (phase : Phase) (payload : Payload) (d : Driver W)
      → last_record (emit k phase payload d).ledger.transcript
        ≡ some (next_record k phase payload d.ledger)
  unfolding emit emit_trace
  emit-last_record phase payload d =
      last_record-append d.ledger.transcript (next_record k phase payload d.ledger)

  pub emit-last_phase :
      (phase : Phase) (payload : Payload) (d : Driver W)
      → last_phase (emit k phase payload d) ≡ some phase
  unfolding next_record
  emit-last_phase phase payload d = ap phase_of (emit-last_record phase payload d)

  -- A status at the head of a payload survives the attestation.
  pub emit-final_status :
      (phase : Phase) (v : Val) (payload : Payload) (d : Driver W)
      → final_status (emit k phase (field "final_status" v payload) d) ≡ some v
  unfolding next_record attested get_field
  emit-final_status phase v payload d =
      ap (field_of "final_status") (emit-last_record phase (field "final_status" v payload) d)
      ∙ get_field-attested k d.ledger v payload
