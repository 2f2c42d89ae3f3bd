-- ===== src/Approval/Timeouts.antt =====
-- How the time-out of a waiting call ends: it expires its own pending row together with one audit
-- record, and otherwise it changes nothing.
use run_on_mine.Prelude.{
  ◌||◌, ◌==◌, if◌then◌else◌, str_eq, ℕ, ◌≡◌, ◌≢◌, refl, String, false, not, Option, none, some,
  List, update_where, count_where, arith, ◌⊎◌, inl, inr, if-elim, Result, ok, err,
}
use run_on_mine.Audit.Event.{AuditError}
use run_on_mine.Audit.Event.{AuditEvent, AuditTables, AuditApi}
use run_on_mine.Audit.Chain.{append_audit_row}
use run_on_mine.Approval.Principal.{
  ApprovalStatus, pending, expired, ApprovalTimeoutResult, expired_now, existing,
}
use run_on_mine.Approval.Tables.{ApprovalRow, StateTables}
use run_on_mine.Approval.Store.{
  StoreError, is_pending, find_row, settle, time_out, expired_with, is_pending_row,
  complete_approval_timeout, prune_or_keep, is_timed_out,
}
use run_on_mine.Approval.Store.{identity_mismatch, not_one_row, wrong_outcome}

module _ (api : AuditApi) (text_length : String → ℕ) (audit_key : List ℕ) where
  -- What a time-out that expires the row does.
  pub record IsExpiry (id : String) (event : AuditEvent) (now : ℕ) (tables after : StateTables)
      : Type 0 where
    pub row : ApprovalRow
    pub found : find_row id tables.approvals ≡ some row
    pub was_pending : row.status ≡ pending
    pub record_hash : String
    pub sequence : ℕ
    pub audit : AuditTables
    pub appended :
        append_audit_row api audit_key event tables.audit ≡ ok ((record_hash, sequence), audit)
    pub result : after ≡ record tables {
      approvals =
          update_where (is_pending_row id) (settle expired event.timestamp none) tables.approvals;
      audit = prune_or_keep api text_length audit_key now sequence audit;
    }

  -- A status that is reported is the status of the row.
  abbrev pub ReportsRow :
      String → StateTables → Result StoreError (Option ApprovalTimeoutResult) → Type 0
  ReportsRow id tables (ok (some (existing status))) =
      (row : ApprovalRow) × (find_row id tables.approvals ≡ some row) × (row.status ≡ status)
  ReportsRow id tables _ = Unit

  -- The two ends of a time-out.
  unfoldable pub Ends :
      String
      → AuditEvent
      → ℕ
      → StateTables
      → Result StoreError (Option ApprovalTimeoutResult) × StateTables
      → Type 0
  Ends id event now tables (outcome, after) =
      ((outcome ≡ ok (some expired_now)) × IsExpiry id event now tables after)
      ⊎ ((outcome ≢ ok (some expired_now)) × (after ≡ tables) × ReportsRow id tables outcome)

  is_pending→pending :
      (status : ApprovalStatus) → not (is_pending status) ≡ false → status ≡ pending
  is_pending→pending status h = ground arith

  err-Ends :
      (id : String) (event : AuditEvent) (now : ℕ) (tables : StateTables) (e : StoreError)
      → Ends id event now tables (err e, tables)
  unfolding Ends
  err-Ends id event now tables e = inr (λ h. cc, refl, tt)

  existing-Ends :
      (id : String) (event : AuditEvent) (now : ℕ) (tables : StateTables) (row : ApprovalRow)
      → find_row id tables.approvals ≡ some row
      → Ends id event now tables (ok (some (existing row.status)), tables)
  unfolding Ends
  existing-Ends id event now tables row f = inr (λ h. cc, refl, (row, f, refl))

  none-Ends :
      (id : String) (event : AuditEvent) (now : ℕ) (tables : StateTables)
      → Ends id event now tables (ok none, tables)
  unfolding Ends
  none-Ends id event now tables = inr (λ h. cc, refl, tt)

  expiry-Ends :
      (id : String) (event : AuditEvent) (now : ℕ) (tables : StateTables) (row : ApprovalRow)
      → find_row id tables.approvals ≡ some row
      → row.status ≡ pending
      → (appended : Result AuditError ((String × ℕ) × AuditTables))
      → append_audit_row api audit_key event tables.audit ≡ appended
      → Ends id event now tables (
          expired_with api text_length audit_key now tables
            (update_where
              (is_pending_row id)
              (settle expired event.timestamp none)
              tables.approvals)
            appended)
  unfolding Ends
  expiry-Ends id event now tables row f p (err e) a = inr (λ h. cc, refl, tt)
  expiry-Ends id event now tables row f p (ok ((record_hash, sequence), audit)) a = inl (
    refl,
    record {
      row = row;
      found = f;
      was_pending = p;
      record_hash = record_hash;
      sequence = sequence;
      audit = audit;
      appended = a;
      result = refl;
    },
  )

  time_out-Ends :
      (id : String) (event : AuditEvent) (now : ℕ) (tables : StateTables)
      (found : Option ApprovalRow)
      → find_row id tables.approvals ≡ found
      → Ends id event now tables (time_out api text_length audit_key id event now found tables)
  time_out-Ends id event now tables none f = none-Ends id event now tables
  time_out-Ends id event now tables (some row) f =
      let differs =
        not (str_eq event.connector_id row.key.connector_id)
        || not (str_eq event.tool_name row.key.tool_name)
        || not (str_eq event.argument_hash row.key.argument_hash) in
      let expires =
        expired_with api text_length audit_key now tables
          (update_where (is_pending_row id) (settle expired event.timestamp none) tables.approvals)
          (append_audit_row api audit_key event tables.audit) in
      let one = count_where (is_pending_row id) tables.approvals == 1 in
      let counted = if one then expires else (err not_one_row, tables) in
      let waiting =
        if not (is_pending row.status)
        then (ok (some (existing row.status)), tables)
        else counted in
      if-elim (Ends id event now tables) differs (err identity_mismatch, tables) waiting
        (λ _. err-Ends id event now tables identity_mismatch)
        (λ _.
          if-elim (Ends id event now tables) (not (is_pending row.status))
            (ok (some (existing row.status)), tables) counted
            (λ _. existing-Ends id event now tables row f)
            (λ p.
              if-elim (Ends id event now tables) one expires (err not_one_row, tables)
                (λ _.
                  expiry-Ends id event now tables row f (is_pending→pending row.status p)
                    (append_audit_row api audit_key event tables.audit) refl)
                (λ _. err-Ends id event now tables not_one_row)))

  -- A time-out ends in one of two ways. Either it reports that the approval expired now: then the
  -- row of its identifier was pending, one audit record for the event was appended, and nothing else
  -- differs, except for the pruning of the log behind every 128th record. Or it reports anything
  -- else, the tables are unchanged, and a reported status is that of the row.
  pub complete_approval_timeout-Ends :
      (id : String) (event : AuditEvent) (now : ℕ) (tables : StateTables)
      → Ends id event now tables
          (complete_approval_timeout api text_length audit_key id event now tables)
  unfolding complete_approval_timeout
  complete_approval_timeout-Ends id event now tables =
      if-elim (Ends id event now tables) (is_timed_out event.outcome) _ _
        (λ _. time_out-Ends id event now tables (find_row id tables.approvals) refl)
        (λ _. err-Ends id event now tables wrong_outcome)
