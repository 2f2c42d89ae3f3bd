-- ===== src/Audit/Event.antt =====
-- The events of audit.rs, the rows of the tables that audit_store.rs reads and writes, and the
-- code that it calls in other crates. Identifiers are kept in their textual form and an instant is
-- a number; `to_rfc3339` is its text in a column.
use run_on_mine.Prelude.{ℕ, ◌^◌, ◌-◌, ◌≡◌, String, Option, some, List}

pub data AuditOutcome : Type 0 where
  allowed denied pending_approval succeeded failed timed_out : AuditOutcome

unfoldable pub AuditOutcome-discrete : Discrete AuditOutcome
AuditOutcome-discrete = hlevel

pub record AuditEvent : Type 0 where
  pub id : String
  pub timestamp : ℕ
  pub connector_id : String
  pub tool_name : String
  pub capability : String
  pub outcome : AuditOutcome
  pub argument_hash : String
  pub summary : String
  pub duration_ms : Option ℕ
  pub output_bytes : Option ℕ

-- A row of `audit_events`.
pub record StoredAuditRow : Type 0 where
  pub sequence : ℕ
  pub id : String
  pub timestamp : String
  pub connector_id : String
  pub tool_name : String
  pub capability : String
  pub outcome : String
  pub argument_hash : String
  pub summary : String
  pub duration_ms : Option ℕ
  pub output_bytes : Option ℕ
  pub previous_hash : String
  pub record_hash : String
  pub payload : List ℕ
  pub record_mac : String

-- The one row of `audit_chain_state`.
pub record AuditTailState : Type 0 where
  pub anchor_hash : String
  pub sequence : ℕ
  pub record_hash : String
  pub record_mac : String
  pub tail_mac : String

-- The one row of `audit_verification_checkpoint`.
pub record AuditVerificationCheckpoint : Type 0 where
  pub sequence : ℕ
  pub record_hash : String
  pub record_mac : String
  pub checkpoint_mac : String

-- The tables: `rows` in the order of their sequence numbers, and `last_sequence` the number that
-- `sqlite_sequence` keeps for `audit_events`.
pub record AuditTables : Type 0 where
  pub rows : List StoredAuditRow
  pub last_sequence : ℕ
  pub chain_state : Option AuditTailState
  pub checkpoint : Option AuditVerificationCheckpoint

pub data AuditError : Type 0 where
  chain_state_missing serialization value_too_large constraint invalid_payload : AuditError
  invalid_timestamp : AuditError

-- Code of other crates: hashes, serde_json and chrono. The laws are the round trips that the
-- derived serializers and the two text conversions document.
pub record AuditApi : Type 0 where
  pub as_bytes : String → List ℕ
  pub blake3_hex : List ℕ → String
  pub hmac_sha256_hex : List ℕ → List ℕ → String
  pub to_vec : AuditEvent → Option (List ℕ)
  pub from_slice : List ℕ → Option AuditEvent
  pub outcome_json : AuditOutcome → Option String
  pub to_rfc3339 : ℕ → String
  pub parse_rfc3339 : String → Option ℕ
  pub from_slice-to_vec :
      (event : AuditEvent) (payload : List ℕ)
      → to_vec event ≡ some payload
      → from_slice payload ≡ some event
  pub parse-to_rfc3339 : (t : ℕ) → parse_rfc3339 (to_rfc3339 t) ≡ some t

abbrev pub i64_max : ℕ
i64_max = 2 ^ 63 - 1
