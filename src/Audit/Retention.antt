-- ===== src/Audit/Retention.antt =====
-- Pruning the chain by age and by size: `prune_audit_connection` of audit_store.rs, and the append
-- that prunes after every 128th record.
use run_on_mine.Prelude.{
  ℕ, ◌+◌, ◌-◌, ◌*◌, ◌%◌, ◌^◌, min, String, Option, none, some, List, [], ◌∷◌, filter, length, take,
  drop, leb, ltb, ◌==◌, if◌then◌else◌, Result, ok, err, ◌>>=◌,
}
use run_on_mine.Prelude.Seq.{last}
use run_on_mine.Audit.Event.{
  AuditEvent, StoredAuditRow, AuditTables, AuditError, chain_state_missing, invalid_timestamp,
  AuditApi,
}
use run_on_mine.Audit.Mac.{tail_mac}
use run_on_mine.Audit.Chain.{require, append_audit_row}

-- 30 days in nanoseconds and 100 MiB
abbrev pub audit_retention : ℕ
audit_retention = 30 * 24 * 60 * 60 * 10 ^ 9

abbrev pub audit_max_bytes : ℕ
audit_max_bytes = 100 * 1024 * 1024

abbrev pub u64_max : ℕ
u64_max = 2 ^ 64 - 1

-- What of the chain state an `UPDATE` after pruning writes.
abbrev pub new_tail : String → Option StoredAuditRow → ℕ × String × String
new_tail anchor none = (0, anchor, "")
new_tail anchor (some row) = (row.sequence, row.record_hash, row.record_mac)

-- `text_length` is SQLite's `length` of a text.
module _ (api : AuditApi) (text_length : String → ℕ) (key : List ℕ) where
  open api use {parse_rfc3339}

  unfoldable pub row_bytes : StoredAuditRow → ℕ
  row_bytes row =
      length row.payload
      + text_length row.previous_hash
      + text_length row.record_hash
      + text_length row.record_mac
      + text_length row.connector_id
      + text_length row.tool_name
      + text_length row.capability
      + text_length row.outcome
      + text_length row.argument_hash
      + text_length row.summary
      + 128

  -- How many rows from the oldest on are older than `max_age`: `parsed >= now - max_age` breaks.
  unfoldable pub count_expired : ℕ → ℕ → List StoredAuditRow → Result AuditError ℕ
  count_expired now max_age [] = ok 0
  count_expired now max_age (row ∷ rows) =
      let rest = count_expired now max_age rows in
      do
        parsed ← require invalid_timestamp (parse_rfc3339 row.timestamp)
        if leb now (parsed + max_age) then ok 0 else (do n ← rest; ok (n + 1))

  unfoldable pub retained : List StoredAuditRow → ℕ
  unfolding row_bytes
  retained [] = 0
  retained (row ∷ rows) = min (row_bytes row + retained rows) u64_max

  -- How many more rows go until what is left fits.
  unfoldable pub count_excess : ℕ → ℕ → List StoredAuditRow → ℕ
  unfolding row_bytes
  count_excess max_bytes bytes [] = 0
  count_excess max_bytes bytes (row ∷ rows) =
      let rest = count_excess max_bytes (bytes - row_bytes row) rows in
      if ltb max_bytes bytes then rest + 1 else 0

  -- The transaction: the tables without the rows up to `cut`.
  unfoldable pub delete_through :
      StoredAuditRow → List StoredAuditRow → AuditTables → Result AuditError AuditTables
  delete_through cut kept tables = do
    state ← require chain_state_missing tables.chain_state
    let anchor = cut.record_hash
    let (sequence, record_hash, record_mac) = new_tail anchor (last kept)
    ok (record {
      rows = filter (λ row. ltb cut.sequence row.sequence) tables.rows;
      last_sequence = tables.last_sequence;
      chain_state = some (record {
        anchor_hash = anchor;
        sequence = sequence;
        record_hash = record_hash;
        record_mac = record_mac;
        tail_mac = tail_mac api key anchor sequence record_hash record_mac;
      });
      checkpoint = none;
    })

  abbrev pub delete_first :
      ℕ → Option StoredAuditRow → AuditTables → Result AuditError (ℕ × AuditTables)
  delete_first n none tables = ok (0, tables)
  delete_first n (some cut) tables = do
    pruned ← delete_through cut (drop n tables.rows) tables
    ok (n, pruned)

  -- Returns how many rows went.
  unfoldable pub prune_audit : ℕ → ℕ → ℕ → AuditTables → Result AuditError (ℕ × AuditTables)
  prune_audit now max_age max_bytes tables = do
    expired ← count_expired now max_age tables.rows
    let excess =
        count_excess max_bytes (retained (drop expired tables.rows)) (drop expired tables.rows)
    let delete_count = expired + excess
    delete_first delete_count (last (take delete_count tables.rows)) tables

  abbrev pub pruned_or :
      String
      → AuditTables
      → Result AuditError (ℕ × AuditTables)
      → Result AuditError String × AuditTables
  pruned_or hash appended (err e) = (err e, appended)
  pruned_or hash appended (ok (_, pruned)) = (ok hash, pruned)

  abbrev pub after_append :
      ℕ
      → AuditTables
      → Result AuditError ((String × ℕ) × AuditTables)
      → Result AuditError String × AuditTables
  after_append now tables (err e) = (err e, tables)
  after_append now tables (ok ((hash, sequence), appended)) =
      if sequence % 128 == 0
      then pruned_or hash appended (prune_audit now audit_retention audit_max_bytes appended)
      else (ok hash, appended)

  -- `append_audit_connection`: an error of the pruning is returned, but the record stays.
  unfoldable pub append_audit :
      ℕ → AuditEvent → AuditTables → Result AuditError String × AuditTables
  append_audit now event tables = after_append now tables (append_audit_row api key event tables)
