-- ===== src/Driver/Trace.antt =====
-- The hash-chained transcript: PhaseEnum, TelemetryEvent and TraceRecord of src/mind3/core/types.py,
-- and _emit_trace of src/mind3/core/driver.py. SHA-256 and the canonical JSON text are parameters.
use Prim.Native.String.{◌++◌ as append}
use text.Mathlib.Text.{◌==◌}
use mind.Prelude.{ℕ, ◌+◌, String, Bool, List, [], ◌∷◌, ◌++◌, Option, none, some, if◌then◌else◌}
use mind.Prelude.Text.{decimal}
use mind.Signoff.Report.{GateReport}

pub data Phase : Type 0 where
  intake route snapshot model_call parse policy_check : Phase
  execute observe verify repair_or_finish trace : Phase

-- A value of a payload dictionary, and a dictionary.
mutual
  pub data Val : Type 0 where
    str : String → Val
    number : ℕ → Val
    flag : Bool → Val
    optional : Option String → Val
    texts : List String → Val
    reports : List GateReport → Val
    dict : Payload → Val

  pub data Payload : Type 0 where
    end : Payload
    field : String → Val → Payload → Payload

-- `payload[key] = value`.
unfoldable pub set_field : String → Val → Payload → Payload
set_field key v end = field key v end
set_field key v (field k x p) = if k == key then field k v p else field k x (set_field key v p)

-- `payload.get(key)`.
unfoldable pub get_field : String → Payload → Option Val
get_field key end = none
get_field key (field k x p) = if k == key then some x else get_field key p

pub record TelemetryEvent : Type 0 where
  pub session_id : String
  pub phase : Phase
  pub turn : ℕ
  pub payload : Payload
  pub timestamp : ℕ

-- `record_body`, the dictionary that is hashed.
pub record RecordBody : Type 0 where
  pub step_index : ℕ
  pub phase : Phase
  pub prev_hash : String
  pub event : TelemetryEvent

pub record TraceRecord : Type 0 where
  pub step_index : ℕ
  pub phase : Phase
  pub prev_hash : String
  pub current_hash : String
  pub event : TelemetryEvent

-- SHA-256 as a hexadecimal text, the canonical JSON text of a body, and the reading of the clock
-- at each step.
pub record Crypto : Type 0 where
  pub sha256 : String → String
  pub canonical_json : RecordBody → String
  pub clock : ℕ → ℕ

-- The hasher is fed the previous hash and then the canonical text.
unfoldable pub body_hash : Crypto → RecordBody → String
body_hash k b = k.sha256 (append b.prev_hash (k.canonical_json b))

abbrev pub body_of : TraceRecord → RecordBody
body_of r = record {
  step_index = r.step_index;
  phase = r.phase;
  prev_hash = r.prev_hash;
  event = r.event;
}

-- `TraceRecord.compute_expected_hash`.
unfoldable pub compute_expected_hash : Crypto → TraceRecord → String
unfolding body_hash
compute_expected_hash k r = body_hash k (body_of r)

-- The part of the driver's state that the transcript needs.
pub record Ledger : Type 0 where
  pub session_id : String
  pub loopback_only : Bool
  pub turn : ℕ
  pub step_index : ℕ
  pub prev_hash : String
  pub transcript : List TraceRecord

-- The payload with the attestation of a loopback-only session, under its name and its old alias.
unfoldable pub attested : Crypto → Ledger → Payload → Payload
unfolding set_field
attested k l payload =
    let content = append l.session_id (
      append "|" (
        append (decimal l.turn) (
          append "|"
            (append (decimal l.step_index) (append "|LOOPBACK_ONLY_NO_EGRESS|" l.prev_hash))))) in
    let hash = str (k.sha256 content) in
    if l.loopback_only
    then set_field "air_gapped_attestation" hash (set_field "loopback_attestation" hash payload)
    else payload

-- The record that `_emit_trace` appends.
unfoldable pub next_record : Crypto → Phase → Payload → Ledger → TraceRecord
unfolding body_hash
next_record k phase payload l =
    let event : TelemetryEvent = record {
      session_id = l.session_id;
      phase = phase;
      turn = l.turn;
      payload = attested k l payload;
      timestamp = k.clock l.step_index;
    } in
    record {
      step_index = l.step_index;
      phase = phase;
      prev_hash = l.prev_hash;
      current_hash = body_hash k (record {
        step_index = l.step_index;
        phase = phase;
        prev_hash = l.prev_hash;
        event = event;
      });
      event = event;
    }

-- `_emit_trace`.
unfoldable pub emit_trace : Crypto → Phase → Payload → Ledger → Ledger
emit_trace k phase payload l =
    let r = next_record k phase payload l in
    record l {
      step_index = l.step_index + 1;
      prev_hash = r.current_hash;
      transcript = l.transcript ++ r ∷ [];
    }
