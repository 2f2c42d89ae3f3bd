-- ===== src/Audit/Verification.antt =====
-- Verifying the chain: the full and the incremental pass of audit_store.rs.
use run_on_mine.Prelude.{
  ℕ, ◌+◌, ◌^◌, ◌-◌, min, String, str_eq, Bool, true, false, not, ◌&&◌, ◌||◌, Option, none, some,
  List, [], ◌∷◌, ◌++◌, filter, find, leb, ltb, ◌==◌, if◌then◌else◌, Result, ok, ◌>>=◌, ◌>>◌,
}
use run_on_mine.Prelude.Eq.{nat_eq, string_eq}
use run_on_mine.Prelude.Seq.{list_beq}
use run_on_mine.Audit.Event.{
  StoredAuditRow, AuditTailState, AuditVerificationCheckpoint, AuditTables, AuditError,
  chain_state_missing, serialization, value_too_large, invalid_payload, AuditApi, i64_max,
}
use run_on_mine.Audit.Mac.{verifies_record, verifies_tail, tail_mac}
use run_on_mine.Audit.Chain.{require, guard, audit_optional_u64_to_i64}

pub record AuditVerificationReport : Type 0 where
  pub valid : Bool
  pub full : Bool
  pub checkpoint_sequence : ℕ
  pub tail_sequence : ℕ
  pub records_verified : ℕ

abbrev pub usize_max : ℕ
usize_max = 2 ^ 64 - 1

abbrev pub option_beq : Option ℕ → Option ℕ → Bool
option_beq none none = true
option_beq (some a) (some b) = a == b
option_beq _ _ = false

-- Where a pass ended: the last sequence number, record hash and record code, if there was a row.
abbrev pub Last : Type 0
Last = Option (ℕ × String × String)

-- The loop's results: it stopped at a row that does not verify, or went through all of them.
pub data Walk : Type 0 where
  broken : ℕ → Walk
  complete : ℕ → Last → Walk

module _ (api : AuditApi) (key : List ℕ) where
  open api use {as_bytes, blake3_hex, to_vec, from_slice, outcome_json, to_rfc3339}

  unfoldable pub stored_audit_row_is_authentic : StoredAuditRow → Result AuditError Bool
  stored_audit_row_is_authentic stored = do
    event ← require invalid_payload (from_slice stored.payload)
    canonical ← require serialization (to_vec event)
    duration_ms ← audit_optional_u64_to_i64 event.duration_ms
    output_bytes ← audit_optional_u64_to_i64 event.output_bytes
    outcome ← require serialization (outcome_json event.outcome)
    ok (
        list_beq canonical stored.payload
        && str_eq stored.id event.id
        && str_eq stored.timestamp (to_rfc3339 event.timestamp)
        && str_eq stored.connector_id event.connector_id
        && str_eq stored.tool_name event.tool_name
        && str_eq stored.capability event.capability
        && str_eq stored.outcome outcome
        && str_eq stored.argument_hash event.argument_hash
        && str_eq stored.summary event.summary
        && option_beq stored.duration_ms duration_ms
        && option_beq stored.output_bytes output_bytes)

  unfoldable pub verify_stored_audit_row : StoredAuditRow → String → Result AuditError Bool
  verify_stored_audit_row stored expected_previous =
      if str_eq stored.previous_hash expected_previous
      then (do
        authentic ← stored_audit_row_is_authentic stored
        ok (
            authentic
            && str_eq (blake3_hex (as_bytes stored.previous_hash ++ stored.payload))
                stored.record_hash
            && verifies_record api key stored.record_mac stored.sequence stored.previous_hash
                stored.record_hash stored.payload))
      else ok false

  -- The `while let Some(row)` of both passes.
  unfoldable pub walk : List StoredAuditRow → String → Last → ℕ → Result AuditError Walk
  walk [] expected_previous last records_verified = ok (complete records_verified last)
  walk (stored ∷ rows) expected_previous last records_verified =
      let rest =
        walk rows stored.record_hash (some (stored.sequence, stored.record_hash, stored.record_mac))
          (min (records_verified + 1) usize_max) in
      do
        valid ← verify_stored_audit_row stored expected_previous
        if valid then rest else ok (broken records_verified)

  abbrev pub tail_matches : AuditTailState → Last → Bool
  tail_matches tail none =
      tail.sequence == 0 && str_eq tail.record_hash tail.anchor_hash && str_eq tail.record_mac ""
  tail_matches tail (some (sequence, record_hash, record_mac)) =
      tail.sequence == sequence
      && str_eq tail.record_hash record_hash
      && str_eq tail.record_mac record_mac

  abbrev pub tail_verifies : AuditTailState → Bool
  tail_verifies tail =
      verifies_tail api key tail.tail_mac tail.anchor_hash tail.sequence tail.record_hash
        tail.record_mac

  unfoldable pub update_audit_verification_checkpoint :
      AuditTailState → AuditTables → Result AuditError AuditTables
  update_audit_verification_checkpoint tail tables = do
    guard (leb tail.sequence i64_max) value_too_large
    ok (record tables {
      checkpoint = some (record {
        sequence = tail.sequence;
        record_hash = tail.record_hash;
        record_mac = tail.record_mac;
        checkpoint_mac =
            tail_mac api key tail.anchor_hash tail.sequence tail.record_hash tail.record_mac;
      });
    })

  -- The end of both passes.
  unfoldable pub conclude :
      Bool
      → ℕ
      → AuditTailState
      → Walk
      → AuditTables
      → Result AuditError (AuditVerificationReport × AuditTables)
  conclude full checkpoint_sequence tail (broken records_verified) tables = ok (
    record {
      valid = false;
      full = full;
      checkpoint_sequence = checkpoint_sequence;
      tail_sequence = tail.sequence;
      records_verified = records_verified;
    },
    tables,
  )
  conclude full checkpoint_sequence tail (complete records_verified last) tables =
      let valid = tail_matches tail last && tail_verifies tail in
      let report : AuditVerificationReport = record {
        valid = valid;
        full = full;
        checkpoint_sequence = checkpoint_sequence;
        tail_sequence = tail.sequence;
        records_verified = records_verified;
      } in
      if valid
      then (do updated ← update_audit_verification_checkpoint tail tables; ok (report, updated))
      else ok (report, tables)

  unfoldable pub verify_audit_chain_full :
      AuditTables → Result AuditError (AuditVerificationReport × AuditTables)
  verify_audit_chain_full tables = do
    tail ← require chain_state_missing tables.chain_state
    result ← walk tables.rows tail.anchor_hash none 0
    conclude true 0 tail result tables

  abbrev pub row_matches :
      AuditVerificationCheckpoint → Option StoredAuditRow → Result AuditError Bool
  row_matches checkpoint none = ok false
  row_matches checkpoint (some stored) =
      if str_eq stored.record_hash checkpoint.record_hash
        && str_eq stored.record_mac checkpoint.record_mac
      then (do
        authentic ← stored_audit_row_is_authentic stored
        ok (
            authentic
            && verifies_record api key stored.record_mac stored.sequence stored.previous_hash
                stored.record_hash stored.payload))
      else ok false

  unfoldable pub checkpoint_matches_audit_row :
      AuditTables → AuditTailState → AuditVerificationCheckpoint → Result AuditError Bool
  checkpoint_matches_audit_row tables tail checkpoint =
      if checkpoint.sequence == 0
      then ok (str_eq checkpoint.record_hash tail.anchor_hash && str_eq checkpoint.record_mac "")
      else do
        guard (leb checkpoint.sequence i64_max) value_too_large
        row_matches checkpoint (find (λ row. row.sequence == checkpoint.sequence) tables.rows)

  abbrev pub checkpoint_accepted :
      AuditTables → AuditTailState → AuditVerificationCheckpoint → Result AuditError Bool
  checkpoint_accepted tables tail checkpoint =
      if ltb tail.sequence checkpoint.sequence
        || not (
            verifies_tail api key checkpoint.checkpoint_mac tail.anchor_hash checkpoint.sequence
              checkpoint.record_hash checkpoint.record_mac)
      then ok false
      else checkpoint_matches_audit_row tables tail checkpoint

  abbrev pub incremental_from :
      AuditTables
      → AuditTailState
      → AuditVerificationCheckpoint
      → Result AuditError (AuditVerificationReport × AuditTables)
  incremental_from tables tail checkpoint = do
    accepted ← checkpoint_accepted tables tail checkpoint
    if accepted
        then (do
          guard (leb checkpoint.sequence i64_max) value_too_large
          result ←
              walk (filter (λ row. ltb checkpoint.sequence row.sequence) tables.rows)
                checkpoint.record_hash
                (some (checkpoint.sequence, checkpoint.record_hash, checkpoint.record_mac)) 0
          conclude false checkpoint.sequence tail result tables)
        else conclude false checkpoint.sequence tail (broken 0) tables

  unfoldable pub verify_audit_chain_incremental :
      AuditTables → Result AuditError (AuditVerificationReport × AuditTables)
  verify_audit_chain_incremental tables = do
    tail ← require chain_state_missing tables.chain_state
    elim tables.checkpoint [
      | none ↦ verify_audit_chain_full tables
      | some checkpoint ↦ incremental_from tables tail checkpoint
    ]
