-- ===== src/Approval/Store.antt =====
-- The approval operations of storage.rs. Each is one job of the database worker, so it runs alone;
-- a job that fails leaves the tables as they were. `now` is the clock that the job reads.
use run_on_mine.Prelude.{
  ℕ, ◌+◌, ◌%◌, String, str_eq, Bool, true, false, not, ◌&&◌, ◌||◌, Option, none, some, List, [],
  ◌∷◌, ◌++◌, any, filter, find, length, update_where, count_where, ltb, ◌==◌, if◌then◌else◌, Result,
  ok, err,
}
use run_on_mine.Audit.Event.{
  AuditEvent, AuditOutcome, timed_out, AuditOutcome-discrete, AuditTables, AuditError, AuditApi,
}
use run_on_mine.Audit.Chain.{append_audit_row}
use run_on_mine.Audit.Retention.{prune_audit, audit_retention, audit_max_bytes}
use run_on_mine.Prelude.Eq.{holds}
use run_on_mine.Approval.Principal.{
  ApprovalStatus, pending, approved, denied, expired, ApprovalTimeoutResult, expired_now, existing,
  ApprovalDecision, for_ten_minutes, always, deny,
}
use run_on_mine.Approval.Tables.{
  GrantKey, key_beq, ApprovalRow, TemporaryGrant, PersistentGrantRow, StateTables, ApprovalRequest,
  row_of, ten_minutes,
}

pub data StoreError : Type 0 where
  duplicate_id wrong_outcome identity_mismatch not_one_row corrupt_row : StoreError
  audit_failed : AuditError → StoreError

abbrev pub is_pending : ApprovalStatus → Bool
is_pending pending = true
is_pending _ = false

abbrev pub has_id : String → ApprovalRow → Bool
has_id id row = str_eq row.id id

-- The row of an identifier, the primary key.
unfoldable pub find_row : String → List ApprovalRow → Option ApprovalRow
unfolding find
find_row id = find (has_id id)

unfoldable pub insert_approval : ApprovalRequest → StateTables → Result StoreError StateTables
unfolding row_of
insert_approval request tables =
    if any (has_id request.id) tables.approvals
    then err duplicate_id
    else ok (record tables { approvals = tables.approvals ++ row_of request ∷ [] })

abbrev pub status_of : ApprovalDecision → ApprovalStatus
status_of deny = denied
status_of _ = approved

abbrev pub is_open : String → ℕ → ApprovalRow → Bool
is_open id now row = str_eq row.id id && is_pending row.status && ltb now row.expires_at

abbrev pub settle : ApprovalStatus → ℕ → Option ApprovalDecision → ApprovalRow → ApprovalRow
settle status now decision row = record row {
  status = status;
  resolved_at = some now;
  decision = decision;
}

-- `INSERT … ON CONFLICT(key) DO UPDATE SET expires_at`
unfoldable pub upsert_temporary : TemporaryGrant → List TemporaryGrant → List TemporaryGrant
unfolding key_beq any update_where
upsert_temporary grant grants =
    if any (λ g. key_beq g.key grant.key) grants
    then update_where (λ g. key_beq g.key grant.key)
        (λ g. record g { expires_at = grant.expires_at }) grants
    else grants ++ grant ∷ []

unfoldable pub upsert_persistent :
    PersistentGrantRow → List PersistentGrantRow → List PersistentGrantRow
unfolding key_beq any update_where
upsert_persistent grant grants =
    if any (λ g. key_beq g.key grant.key) grants
    then update_where (λ g. key_beq g.key grant.key)
        (λ g. record g { argument_summary = grant.argument_summary; created_at = grant.created_at })
        grants
    else grants ++ grant ∷ []

-- The grant that a decision leaves; `granted_at` is the clock read for it.
abbrev pub grant_for : ApprovalDecision → ℕ → Option ApprovalRow → StateTables → StateTables
grant_for for_ten_minutes granted_at (some row) tables = record tables {
  temporary_grants =
      upsert_temporary
        (record { key = row.key; principal = row.principal; expires_at = granted_at + ten_minutes })
        tables.temporary_grants;
}
grant_for always granted_at (some row) tables = record tables {
  persistent_grants =
      upsert_persistent
        (record {
          key = row.key;
          principal = row.principal;
          argument_summary = row.argument_summary;
          created_at = granted_at;
        })
        tables.persistent_grants;
}
grant_for _ _ _ tables = tables

unfoldable pub resolve_approval :
    String → ApprovalDecision → ℕ → ℕ → StateTables → Bool × StateTables
resolve_approval id decision now granted_at tables =
    let changed = count_where (is_open id now) tables.approvals in
    let approvals =
      update_where (is_open id now) (settle (status_of decision) now (some decision))
        tables.approvals in
    let settled = record tables { approvals = approvals } in
    if changed == 1
    then (true, grant_for decision granted_at (find_row id approvals) settled)
    else (false, settled)

unfoldable pub grant_allows : GrantKey → ℕ → StateTables → Bool × StateTables
grant_allows key now tables =
    let live = filter (λ g. ltb now g.expires_at) tables.temporary_grants in
    (
      any (λ g. key_beq g.key key && ltb now g.expires_at) live
          || any (λ g. key_beq g.key key) tables.persistent_grants,
      record tables { temporary_grants = live },
    )

-- Returns how many pending approvals it denied and how many temporary grants it cleared.
unfoldable pub emergency_lock : ℕ → StateTables → (ℕ × ℕ) × StateTables
emergency_lock now tables = (
  (count_where (λ row. is_pending row.status) tables.approvals, length tables.temporary_grants),
  record tables {
    approvals =
        update_where (λ row. is_pending row.status) (settle denied now (some deny))
          tables.approvals;
    temporary_grants = [];
  },
)

-- The deletions of `clear_connector_authorization`, behind the check of the identifier.
unfoldable pub clear_connector : String → StateTables → (ℕ × ℕ × ℕ) × StateTables
clear_connector connector_id tables = (
  (
    count_where (λ row. str_eq row.key.connector_id connector_id) tables.approvals,
    count_where (λ g. str_eq g.key.connector_id connector_id) tables.temporary_grants,
    count_where (λ g. str_eq g.key.connector_id connector_id) tables.persistent_grants,
  ),
  record tables {
    approvals = filter (λ row. not (str_eq row.key.connector_id connector_id)) tables.approvals;
    temporary_grants =
        filter (λ g. not (str_eq g.key.connector_id connector_id)) tables.temporary_grants;
    persistent_grants =
        filter (λ g. not (str_eq g.key.connector_id connector_id)) tables.persistent_grants;
  },
)

unfoldable pub delete_persistent_grant : GrantKey → StateTables → Bool × StateTables
delete_persistent_grant key tables = (
  count_where (λ g. key_beq g.key key) tables.persistent_grants == 1,
  record tables {
    persistent_grants = filter (λ g. not (key_beq g.key key)) tables.persistent_grants;
  },
)

-- The number of deleted grants comes first; no identifier means all of them.
unfoldable pub clear_persistent_grants : Option String → StateTables → ℕ × StateTables
clear_persistent_grants none tables =
    (length tables.persistent_grants, record tables { persistent_grants = [] })
clear_persistent_grants (some connector_id) tables = (
  count_where (λ g. str_eq g.key.connector_id connector_id) tables.persistent_grants,
  record tables {
    persistent_grants =
        filter (λ g. not (str_eq g.key.connector_id connector_id)) tables.persistent_grants;
  },
)

abbrev pub is_pending_row : String → ApprovalRow → Bool
is_pending_row id row = str_eq row.id id && is_pending row.status

abbrev pub is_timed_out : AuditOutcome → Bool
is_timed_out outcome = holds (AuditOutcome-discrete outcome timed_out)

module _ (api : AuditApi) (text_length : String → ℕ) (audit_key : List ℕ) where
  -- After the commit every 128th record prunes the log, and an error of that is dropped.
  abbrev pub prune_or_keep : ℕ → ℕ → AuditTables → AuditTables
  prune_or_keep now sequence audit =
      if sequence % 128 == 0
      then elim (prune_audit api text_length audit_key now audit_retention audit_max_bytes audit) [
        | ok (_, pruned) ↦ pruned
        | err _ ↦ audit
      ]
      else audit

  abbrev pub expired_with :
      ℕ
      → StateTables
      → List ApprovalRow
      → Result AuditError ((String × ℕ) × AuditTables)
      → Result StoreError (Option ApprovalTimeoutResult) × StateTables
  expired_with now tables approvals (err e) = (err (audit_failed e), tables)
  expired_with now tables approvals (ok ((_, sequence), audit)) = (
    ok (some expired_now),
    record tables { approvals = approvals; audit = prune_or_keep now sequence audit },
  )

  abbrev pub time_out :
      String
      → AuditEvent
      → ℕ
      → Option ApprovalRow
      → StateTables
      → Result StoreError (Option ApprovalTimeoutResult) × StateTables
  time_out id event now none tables = (ok none, tables)
  time_out id event now (some row) tables =
      if not (str_eq event.connector_id row.key.connector_id)
        || not (str_eq event.tool_name row.key.tool_name)
        || not (str_eq event.argument_hash row.key.argument_hash)
      then (err identity_mismatch, tables)
      else if not (is_pending row.status)
      then (ok (some (existing row.status)), tables)
      else if count_where (is_pending_row id) tables.approvals == 1
      then expired_with now tables
          (update_where (is_pending_row id) (settle expired event.timestamp none) tables.approvals)
          (append_audit_row api audit_key event tables.audit)
      else (err not_one_row, tables)

  unfoldable pub complete_approval_timeout :
      String
      → AuditEvent
      → ℕ
      → StateTables
      → Result StoreError (Option ApprovalTimeoutResult) × StateTables
  complete_approval_timeout id event now tables =
      if is_timed_out event.outcome
      then time_out id event now (find_row id tables.approvals) tables
      else (err wrong_outcome, tables)
