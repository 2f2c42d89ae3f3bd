-- ===== src/Audit/Chain.antt =====
-- Appending to the chain: `append_audit_row` and what it calls in audit_store.rs. A transaction
-- that fails leaves the tables as they were, so an error carries no tables.
use run_on_mine.Prelude.{
  ℕ, ◌+◌, String, str_eq, Bool, true, false, ◌||◌, Option, none, some, List, [], ◌∷◌, ◌++◌, any,
  leb, if◌then◌else◌, Result, ok, err, ◌>>=◌, ◌>>◌,
}
use run_on_mine.Prelude.Seq.{last}
use run_on_mine.Audit.Event.{
  AuditEvent, StoredAuditRow, AuditTables, AuditError, chain_state_missing, serialization,
  value_too_large, constraint, AuditApi, i64_max,
}
use run_on_mine.Audit.Mac.{record_mac, tail_mac}

abbrev pub require {ℓ} : {A : Type ℓ} → AuditError → Option A → Result AuditError A
require e none = err e
require e (some a) = ok a

abbrev pub guard : Bool → AuditError → Result AuditError (Unit {0})
guard true e = ok tt
guard false e = err e

unfoldable pub audit_anchor : AuditTables → Result AuditError String
audit_anchor tables = do
  state ← require chain_state_missing tables.chain_state
  ok state.anchor_hash

-- `SELECT record_hash … ORDER BY sequence DESC LIMIT 1`, or the anchor
abbrev pub hash_or : String → Option StoredAuditRow → String
hash_or anchor none = anchor
hash_or anchor (some row) = row.record_hash

unfoldable pub next_audit_sequence : AuditTables → ℕ
next_audit_sequence tables = tables.last_sequence + 1

unfoldable pub audit_optional_u64_to_i64 : Option ℕ → Result AuditError (Option ℕ)
audit_optional_u64_to_i64 none = ok none
audit_optional_u64_to_i64 (some value) =
    if leb value i64_max then ok (some value) else err value_too_large

-- The columns `id` and `record_hash` are unique.
abbrev pub collides : String → String → StoredAuditRow → Bool
collides id record_hash row = str_eq row.id id || str_eq row.record_hash record_hash

module _ (api : AuditApi) (key : List ℕ) where
  open api use {as_bytes, blake3_hex, to_vec, outcome_json, to_rfc3339}

  unfoldable pub update_audit_tail :
      ℕ → String → String → AuditTables → Result AuditError AuditTables
  update_audit_tail sequence record_hash mac tables = do
    anchor ← audit_anchor tables
    guard (leb sequence i64_max) value_too_large
    ok (record tables {
      chain_state = some (record {
        anchor_hash = anchor;
        sequence = sequence;
        record_hash = record_hash;
        record_mac = mac;
        tail_mac = tail_mac api key anchor sequence record_hash mac;
      });
    })

  abbrev pub row_of :
      AuditEvent → ℕ → String → List ℕ → String → Option ℕ → Option ℕ → StoredAuditRow
  row_of event sequence previous payload outcome duration_ms output_bytes =
      let record_hash = blake3_hex (as_bytes previous ++ payload) in
      record {
        sequence = sequence;
        id = event.id;
        timestamp = to_rfc3339 event.timestamp;
        connector_id = event.connector_id;
        tool_name = event.tool_name;
        capability = event.capability;
        outcome = outcome;
        argument_hash = event.argument_hash;
        summary = event.summary;
        duration_ms = duration_ms;
        output_bytes = output_bytes;
        previous_hash = previous;
        record_hash = record_hash;
        payload = payload;
        record_mac = record_mac api key sequence previous record_hash payload;
      }

  -- the `INSERT`, with AUTOINCREMENT's record of the sequence number
  unfoldable pub insert_row : StoredAuditRow → AuditTables → Result AuditError AuditTables
  insert_row row tables =
      if any (collides row.id row.record_hash) tables.rows
      then err constraint
      else ok (record tables { rows = tables.rows ++ row ∷ []; last_sequence = row.sequence })

  -- Returns the record's hash and its sequence number with the tables.
  unfoldable pub append_audit_row :
      AuditEvent → AuditTables → Result AuditError ((String × ℕ) × AuditTables)
  unfolding next_audit_sequence
  append_audit_row event tables = do
    anchor ← audit_anchor tables
    let previous = hash_or anchor (last tables.rows)
    let sequence = next_audit_sequence tables
    payload ← require serialization (to_vec event)
    duration_ms ← audit_optional_u64_to_i64 event.duration_ms
    output_bytes ← audit_optional_u64_to_i64 event.output_bytes
    outcome ← require serialization (outcome_json event.outcome)
    let row = row_of event sequence previous payload outcome duration_ms output_bytes
    inserted ← insert_row row tables
    updated ← update_audit_tail sequence row.record_hash row.record_mac inserted
    ok ((row.record_hash, sequence), updated)
